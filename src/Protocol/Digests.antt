-- ===== src/Protocol/Digests.antt =====
-- The constants, `buildAuthDigest` and `buildCallerChallenge` of
-- typescript/src/shared/protocol.ts.
use flare_stealthwage.Prelude.{ℤ, pos, List, [], ◌∷◌, Text, text, lower, Result, ok, then_try}
use flare_stealthwage.Protocol.Viem.{Viem, AbiType, address, uint256, bytes32, AbiValue, int, hex}

abbrev pub op_type_stream : Text
op_type_stream = text "STREAM"

abbrev pub op_command_auth_withdraw : Text
op_command_auth_withdraw = text "AUTH_WITHDRAW"

abbrev pub op_command_auth_settle : Text
op_command_auth_settle = text "AUTH_SETTLE"

abbrev pub auth_ttl_seconds : ℤ
auth_ttl_seconds = pos 600

abbrev pub caller_auth_window_seconds : ℤ
caller_auth_window_seconds = pos 300

-- The parameters of `buildAuthDigest`.
pub record AuthParams : Type 0 where
  pub tag : Text
  pub chain_id : ℤ
  pub vault : Text
  pub stream_id : ℤ
  pub commitment : Text
  pub cumulative_accrued : ℤ
  pub deadline : ℤ

-- The parameters of `buildCallerChallenge`.
pub record ChallengeParams : Type 0 where
  pub chain_id : ℤ
  pub vault : Text
  pub stream_id : ℤ
  pub commitment : Text
  pub purpose : Text
  pub issued_at : ℤ

abbrev pub auth_abi : List AbiType
auth_abi = bytes32 ∷ uint256 ∷ address ∷ uint256 ∷ bytes32 ∷ uint256 ∷ uint256 ∷ []

abbrev pub challenge_abi : List AbiType
challenge_abi = bytes32 ∷ uint256 ∷ address ∷ uint256 ∷ bytes32 ∷ bytes32 ∷ uint256 ∷ []

module _ (v : Viem) where
  abbrev pub withdraw_tag : Text
  withdraw_tag = v.keccak_text (text "SW_WITHDRAW_V1")

  abbrev pub settle_tag : Text
  settle_tag = v.keccak_text (text "SW_SETTLE_V1")

  abbrev pub caller_auth_tag : Text
  caller_auth_tag = v.keccak_text (text "SW_CALLER_AUTH_V1")

  abbrev pub auth_values : AuthParams → List AbiValue
  auth_values p =
      hex p.tag
      ∷ int p.chain_id
      ∷ hex p.vault
      ∷ int p.stream_id
      ∷ hex (lower p.commitment)
      ∷ int p.cumulative_accrued
      ∷ int p.deadline
      ∷ []

  abbrev pub challenge_values : ChallengeParams → List AbiValue
  challenge_values p =
      hex caller_auth_tag
      ∷ int p.chain_id
      ∷ hex p.vault
      ∷ int p.stream_id
      ∷ hex (lower p.commitment)
      ∷ hex p.purpose
      ∷ int p.issued_at
      ∷ []

  -- `buildAuthDigest`
  unfoldable pub build_auth_digest : AuthParams → Result Text
  build_auth_digest p =
      then_try (v.encode_abi auth_abi (auth_values p)) λ code. ok (v.keccak256 code)

  -- `buildCallerChallenge`
  unfoldable pub build_caller_challenge : ChallengeParams → Result Text
  build_caller_challenge p =
      then_try (v.encode_abi challenge_abi (challenge_values p)) λ code. ok (v.keccak256 code)
