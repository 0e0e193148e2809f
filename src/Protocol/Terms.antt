-- ===== src/Protocol/Terms.antt =====
-- `StreamTerms` and its encoding, of typescript/src/shared/protocol.ts.
use flare_stealthwage.Prelude.{
  ℤ, List, [], ◌∷◌, Text, text, Result, ok, throw, then_try, plain_error,
}
use flare_stealthwage.Protocol.Viem.{
  Viem, AbiType, address, uint256, uint64, bytes32, AbiValue, int, hex,
}
use flare_stealthwage.Protocol.Rates.{accrued_at}

-- `StreamTerms`
pub record StreamTerms : Type 0 where
  pub employer : Text
  pub recipient : Text
  pub token : Text
  pub rate_per_second : ℤ
  pub total : ℤ
  pub start_time : ℤ
  pub salt : Text

-- `TERMS_ABI`
abbrev pub terms_abi : List AbiType
terms_abi = address ∷ address ∷ address ∷ uint256 ∷ uint256 ∷ uint64 ∷ bytes32 ∷ []

unfoldable pub terms_values : StreamTerms → List AbiValue
terms_values t =
    hex t.employer
    ∷ hex t.recipient
    ∷ hex t.token
    ∷ int t.rate_per_second
    ∷ int t.total
    ∷ int t.start_time
    ∷ hex t.salt
    ∷ []

-- The destructuring of `decodeTerms`. The decoder gives a value of its type for each entry of the
-- table, so that no other list comes.
unfoldable pub terms_of : List AbiValue → Result StreamTerms
terms_of
      (hex employer
        ∷ hex recipient
        ∷ hex token
        ∷ int rate
        ∷ int total
        ∷ int start
        ∷ hex salt
        ∷ []) =
    ok (record {
      employer = employer;
      recipient = recipient;
      token = token;
      rate_per_second = rate;
      total = total;
      start_time = start;
      salt = salt;
    })
terms_of _ = throw (plain_error (text "decoded values do not fit"))

module _ (v : Viem) where
  -- `encodeTerms`
  unfoldable pub encode_terms : StreamTerms → Result Text
  unfolding terms_values
  encode_terms t = v.encode_abi terms_abi (terms_values t)

  -- `decodeTerms`
  unfoldable pub decode_terms : Text → Result StreamTerms
  decode_terms terms_hex = then_try (v.decode_abi terms_abi terms_hex) terms_of

  -- `commitTo`
  unfoldable pub commit_to : StreamTerms → Result Text
  commit_to t = then_try (encode_terms t) λ code. ok (v.keccak256 code)

-- `accruedAt` at the terms that it picks.
abbrev pub accrued_on : StreamTerms → ℤ → ℤ
accrued_on t now = accrued_at t.rate_per_second t.total t.start_time now
