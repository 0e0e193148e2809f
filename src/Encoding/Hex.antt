-- ===== src/Encoding/Hex.antt =====
-- `hexToBytes`, `bytesToHex` and the bytes32 functions of typescript/src/base/encoding.ts.
use mathlib.Core.List.{reverse}
use flare_stealthwage.Prelude.{
  ℕ, ◌+◌, ◌-◌, ◌*◌, ◌/◌, ◌%◌, Bool, true, false, ◌&&◌, ◌||◌, Option, none, some, List, [], ◌∷◌,
  ◌++◌, ◌==◌, ltb, if◌then◌else◌, length, replicate, Text, text, decimal, Result, ok, throw,
  plain_error,
}
use flare_stealthwage.Prelude.Strings.{hex_value}
use flare_stealthwage.Prelude.Utf8.{utf8_encode, text_decode}

-- A `Uint8Array`: numbers below 256.
abbrev pub Bytes : Type 0
Bytes = List ℕ

-- The test `/^[0-9a-fA-F]*$/`.
unfoldable pub all_hex : Text → Bool
all_hex [] = true
all_hex (c ∷ s) = elim (hex_value c) [ none ↦ false | some _ ↦ all_hex s ]

abbrev pub digit_or_zero : Option ℕ → ℕ
digit_or_zero none = 0
digit_or_zero (some n) = n

-- The loop of `hexToBytes`: one byte for each two digits. It is reached with hex digits only.
unfoldable pub pairs : Text → Bytes
pairs [] = []
pairs (c ∷ []) = []
pairs (c ∷ d ∷ s) = (digit_or_zero (hex_value c) * 16 + digit_or_zero (hex_value d)) ∷ pairs s

unfoldable pub is_odd : Text → Bool
is_odd [] = false
is_odd (c ∷ []) = true
is_odd (c ∷ d ∷ s) = is_odd s

unfoldable pub odd_length : Text → Text
odd_length s = text "invalid hex: odd length (" ++ (decimal (length s) ++ text ")")

-- The text without a leading "0x" or "0X".
unfoldable pub strip_prefix : Text → Text
strip_prefix [] = []
strip_prefix (c ∷ []) = c ∷ []
strip_prefix (c ∷ d ∷ s) = if c == b'0' && (d == b'x' || d == b'X') then s else c ∷ d ∷ s

-- The part of `hexToBytes` behind the prefix.
unfoldable pub digits_to_bytes : Text → Result Bytes
digits_to_bytes s =
    if is_odd s
    then throw (plain_error (odd_length s))
    else if all_hex s
    then ok (pairs s)
    else throw (plain_error (text "invalid hex: non-hex characters"))

-- `hexToBytes`; `null` and `undefined` are `none`.
unfoldable pub hex_to_bytes : Option Text → Result Bytes
hex_to_bytes none = ok []
hex_to_bytes (some h) = digits_to_bytes (strip_prefix h)

unfoldable pub hex_digit : ℕ → ℕ
hex_digit n = if ltb n 10 then b'0' + n else b'a' + (n - 10)

-- The loop of `bytesToHex`: two digits for each byte.
unfoldable pub hex_digits : Bytes → Text
hex_digits [] = []
hex_digits (b ∷ bytes) = hex_digit (b / 16) ∷ hex_digit (b % 16) ∷ hex_digits bytes

unfoldable pub bytes_to_hex : Bytes → Text
bytes_to_hex bytes = b'0' ∷ b'x' ∷ hex_digits bytes

abbrev pub zeros : ℕ → Bytes
zeros k = replicate k 0

-- The 32 bytes that start with `encoded`.
unfoldable pub pad_zeros : Bytes → Bytes
pad_zeros encoded = encoded ++ zeros (32 - length encoded)

-- `stringToBytes32Hex`
unfoldable pub string_to_bytes32_hex : Text → Result Text
string_to_bytes32_hex s =
    let encoded = utf8_encode s in
    if ltb 32 (length encoded)
    then throw (
        plain_error (
          text "string too long for bytes32 ("
          ++ (decimal (length encoded) ++ (text " bytes): " ++ s))))
    else ok (bytes_to_hex (pad_zeros encoded))

unfoldable pub drop_zeros : Bytes → Bytes
drop_zeros [] = []
drop_zeros (b ∷ bytes) = if b == 0 then drop_zeros bytes else b ∷ bytes

-- The loop that moves `end` back over the zero bytes, and the slice up to it.
unfoldable pub trim_zeros : Bytes → Bytes
unfolding drop_zeros
trim_zeros bytes = reverse (drop_zeros (reverse bytes))

-- `bytes32HexToString`, with the error case of its `try`.
unfoldable pub decoded_or_empty : Result Bytes → Text
decoded_or_empty (ok bytes) = text_decode (trim_zeros bytes)
decoded_or_empty (throw e) = []

unfoldable pub bytes32_hex_to_string : Text → Text
unfolding decoded_or_empty
bytes32_hex_to_string h = decoded_or_empty (hex_to_bytes (some h))
