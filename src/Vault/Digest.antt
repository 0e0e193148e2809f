-- ===== src/Vault/Digest.antt =====
-- The digests of contracts/StreamVault.sol, over its own tags, chain, address and storage. `keccak256`
-- and `abi.encode` follow one standard, so those of the package viem stand for the compiler's.
use flare_stealthwage.Prelude.{ℤ, List, [], ◌∷◌, Text, text, Result, ok, then_try}
use flare_stealthwage.Protocol.Viem.{Viem, AbiType, address, uint256, bytes32, AbiValue, int, hex}

-- The two operations that take a signature of the enclave.
pub data Operation : Type 0 where
  withdrawing cancelling : Operation

module _ (v : Viem) where
  -- `WITHDRAW_TAG`
  abbrev pub vault_withdraw_tag : Text
  vault_withdraw_tag = v.keccak_text (text "SW_WITHDRAW_V1")

  -- `SETTLE_TAG`
  abbrev pub vault_settle_tag : Text
  vault_settle_tag = v.keccak_text (text "SW_SETTLE_V1")

  abbrev hash_of : List AbiType → List AbiValue → Result Text
  hash_of types values = then_try (v.encode_abi types values) λ code. ok (v.keccak256 code)

  -- `digest` of `withdraw`, on the chain `chain_id`, in the vault at `self`, for a stream with a stored
  -- commitment; the types are those that the contract declares.
  unfoldable pub withdraw_digest : ℤ → Text → ℤ → Text → ℤ → ℤ → Result Text
  withdraw_digest chain_id self stream_id commitment cumulative_accrued deadline =
      hash_of (bytes32 ∷ uint256 ∷ address ∷ uint256 ∷ bytes32 ∷ uint256 ∷ uint256 ∷ []) (
        hex vault_withdraw_tag
        ∷ int chain_id
        ∷ hex self
        ∷ int stream_id
        ∷ hex commitment
        ∷ int cumulative_accrued
        ∷ int deadline
        ∷ [])

  -- `digest` of `cancelStream`
  unfoldable pub cancel_digest : ℤ → Text → ℤ → Text → ℤ → ℤ → Result Text
  cancel_digest chain_id self stream_id commitment final_accrued deadline =
      hash_of (bytes32 ∷ uint256 ∷ address ∷ uint256 ∷ bytes32 ∷ uint256 ∷ uint256 ∷ []) (
        hex vault_settle_tag
        ∷ int chain_id
        ∷ hex self
        ∷ int stream_id
        ∷ hex commitment
        ∷ int final_accrued
        ∷ int deadline
        ∷ [])

  -- The digest of an operation.
  abbrev pub digest_of : Operation → ℤ → Text → ℤ → Text → ℤ → ℤ → Result Text
  digest_of withdrawing = withdraw_digest
  digest_of cancelling = cancel_digest
