-- ===== src/Protocol/Binding.antt =====
-- A digest binds every parameter that goes into it.
use flare_stealthwage.Prelude.{
  ◌≡◌, inl, inr, sym, ◌∙◌, List, map, Text, lower, Result, ok, JsError, Result-cases, then_try,
  lower_idem,
}
use flare_stealthwage.Protocol.Viem.{Viem, Laws, AbiValue, fold_case, AbiType}
use flare_stealthwage.Protocol.Digests.{
  AuthParams, ChallengeParams, auth_abi, challenge_abi, auth_values, challenge_values,
  build_auth_digest, build_caller_challenge,
}

-- The same parameters, but for the case of hex text.
pub record SameAuth (p q : AuthParams) : Type 0 where
  pub tag : lower p.tag ≡ lower q.tag
  pub chain_id : p.chain_id ≡ q.chain_id
  pub vault : lower p.vault ≡ lower q.vault
  pub stream_id : p.stream_id ≡ q.stream_id
  pub commitment : lower p.commitment ≡ lower q.commitment
  pub cumulative_accrued : p.cumulative_accrued ≡ q.cumulative_accrued
  pub deadline : p.deadline ≡ q.deadline

pub record SameChallenge (p q : ChallengeParams) : Type 0 where
  pub chain_id : p.chain_id ≡ q.chain_id
  pub vault : lower p.vault ≡ lower q.vault
  pub stream_id : p.stream_id ≡ q.stream_id
  pub commitment : lower p.commitment ≡ lower q.commitment
  pub purpose : lower p.purpose ≡ lower q.purpose
  pub issued_at : p.issued_at ≡ q.issued_at

throw-ne-ok : {e : JsError} {a : Text} → Result.throw e ≡ ok a → ⊥
throw-ne-ok h = cc

ok_injective : {a b : Text} → ok a ≡ ok b → a ≡ b
ok_injective h = cc

module _ (v : Viem) where
  same_auth :
      (p q : AuthParams)
      → map fold_case (auth_values v p) ≡ map fold_case (auth_values v q)
      → SameAuth p q
  same_auth p q e = record {
    tag = cc;
    chain_id = cc;
    vault = cc;
    stream_id = cc;
    commitment = cc (lower_idem p.commitment, lower_idem q.commitment);
    cumulative_accrued = cc;
    deadline = cc;
  }

  same_challenge :
      (p q : ChallengeParams)
      → map fold_case (challenge_values v p) ≡ map fold_case (challenge_values v q)
      → SameChallenge p q
  same_challenge p q e = record {
    chain_id = cc;
    vault = cc;
    stream_id = cc;
    commitment = cc (lower_idem p.commitment, lower_idem q.commitment);
    purpose = cc;
    issued_at = cc;
  }

module _ (v : Viem) (laws : Laws v) where
  -- Two lists that hash to one digest agree up to case.
  pub hashed_injective :
      (types : List AbiType) (xs ys : List AbiValue) (digest : Text)
      → then_try (v.encode_abi types xs) (λ code. ok (v.keccak256 code)) ≡ ok digest
      → then_try (v.encode_abi types ys) (λ code. ok (v.keccak256 code)) ≡ ok digest
      → map fold_case xs ≡ map fold_case ys
  hashed_injective types xs ys digest hx hy = elim (Result-cases (v.encode_abi types xs)) [
    | inr (e, failed) ↦ absurd (throw-ne-ok (rw failed at hx))
    | inl (a, made_a) ↦ elim (Result-cases (v.encode_abi types ys)) [
      | inr (e, failed) ↦ absurd (throw-ne-ok (rw failed at hy))
      | inl (b, made_b) ↦ laws.encode_injective types xs ys a b made_a made_b (
          laws.keccak_injective a b
            (ok_injective (rw made_a at hx) ∙ sym (ok_injective (rw made_b at hy))))
    ]
  ]

  -- Equal digests come from equal parameters: a signature over one authorization fits no other
  -- tag, chain, vault, stream, commitment, amount or deadline.
  pub build_auth_digest_injective :
      (p q : AuthParams) (digest : Text)
      → build_auth_digest v p ≡ ok digest
      → build_auth_digest v q ≡ ok digest
      → SameAuth p q
  unfolding build_auth_digest
  build_auth_digest_injective p q digest hp hq =
      same_auth v p q (hashed_injective auth_abi (auth_values v p) (auth_values v q) digest hp hq)

  -- Equal challenges come from equal parameters: a caller's signature fits no other stream, purpose
  -- or time of issue.
  pub build_caller_challenge_injective :
      (p q : ChallengeParams) (digest : Text)
      → build_caller_challenge v p ≡ ok digest
      → build_caller_challenge v q ≡ ok digest
      → SameChallenge p q
  unfolding build_caller_challenge
  build_caller_challenge_injective p q digest hp hq =
      same_challenge v p q
        (hashed_injective challenge_abi (challenge_values v p) (challenge_values v q) digest hp hq)
