-- ===== src/Protocol/Viem.antt =====
-- The functions of the package viem that the protocol calls, as a parameter: ABI encoding and
-- keccak256. `Laws` states what the protocol relies on.
use flare_stealthwage.Prelude.{ℤ, ◌≡◌, List, Text, lower, Result, ok, map}

-- The ABI types that occur.
pub data AbiType : Type 0 where
  address uint256 uint64 bytes32 string bytes : AbiType
  tuple2 : AbiType → AbiType → AbiType

-- A value: a `bigint`, hex text, a string, or the two components of a tuple.
pub data AbiValue : Type 0 where
  int : ℤ → AbiValue
  hex : Text → AbiValue
  str : Text → AbiValue
  pair : AbiValue → AbiValue → AbiValue

pub record Viem : Type 0 where
  -- `keccak256` of bytes given as hex.
  pub keccak256 : Text → Text
  -- `keccak256(toBytes(text))`
  pub keccak_text : Text → Text
  -- `encodeAbiParameters`, which throws on a value that is out of range for its type.
  pub encode_abi : List AbiType → List AbiValue → Result Text
  -- `decodeAbiParameters`, which throws on data that does not fit.
  pub decode_abi : List AbiType → Text → Result (List AbiValue)

-- Hex text is read without regard to case.
abbrev pub fold_case : AbiValue → AbiValue
fold_case (int n) = int n
fold_case (hex s) = hex (lower s)
fold_case (str s) = str s
fold_case (pair a b) = pair (fold_case a) (fold_case b)

-- What the protocol relies on. ABI encoding is injective, hex text being read and written without
-- regard to case; and no two texts with the same hash are met (collision resistance).
pub record Laws (v : Viem) : Type 0 where
  pub encode_injective :
      (types : List AbiType) (xs ys : List AbiValue) (c d : Text)
      → v.encode_abi types xs ≡ ok c
      → v.encode_abi types ys ≡ ok d
      → lower c ≡ lower d
      → map fold_case xs ≡ map fold_case ys
  pub keccak_injective : (s t : Text) → v.keccak256 s ≡ v.keccak256 t → lower s ≡ lower t
