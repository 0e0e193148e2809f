-- ===== src/Page/Shown.antt =====
-- What the pages show, against the chain and the vault.
use flare_stealthwage.Prelude.{
  ℕ, ◌≡◌, ◌↔◌, ◌<◌, refl, Bool, true, Bool-cases, inl, inr, Option, none, some, ℤ, pos, Text,
  text_eq, text_eq_iff, lower, length, Result, ok, throw, then_try, arith,
}
use flare_stealthwage.Prelude.Strings.{trim}
use flare_stealthwage.Json.Value.{Json}
use flare_stealthwage.Protocol.Viem.{Viem}
use flare_stealthwage.Protocol.Terms.{StreamTerms, decode_terms}
use flare_stealthwage.Client.Answer.{EnclaveFailure, Answer, granted, failed, AuthorizationRequest}
use flare_stealthwage.Stream.Safety.{then_try-eq-ok}
use flare_stealthwage.Vault.State.{done, Moved, Stream}
use flare_stealthwage.Vault.State
use flare_stealthwage.Page.Dashboard.{
  OnChainStream, available, opened, refused, compared, unlock_challenge, ask, terms_of_auth, Config,
  checked, unlocking,
}
use flare_stealthwage.Page.Verify.{
  Verdict, match_, mismatch, absent, computed, judged, verdict, decoded, decoded_if, or_null,
}

-- For amounts that are not negative, what the dashboard shows as available is what the vault pays, in
-- every withdrawal with that accrual that succeeds.
pub available-eq-paid :
    (tee_signer recovered : Text) (now : ℕ) (transferred : Bool) (accrued deadline : ℕ) (s : Stream)
    (m : Moved)
    → State.withdraw tee_signer recovered now transferred accrued deadline s ≡ done m
    → available (pos accrued) (pos s.funded) (pos s.withdrawn) ≡ pos m.paid
unfolding State.withdraw available
available-eq-paid tee_signer recovered now transferred accrued deadline s m h = ground arith

last_step {ℓ κ μ ν} :
    {A : Type ℓ} {B : Type κ} {C : Type μ} {D : Type ν} (r : Result A) (f : A → Result B)
    (g : B → Result C) (k : C → Result D) {d : D}
    → then_try r (λ a. then_try (f a) λ b. then_try (g b) k) ≡ ok d
    → (c : C) × (k c ≡ ok d)
last_step r f g k h =
    let (a, _, h1) = then_try-eq-ok r (λ a. then_try (f a) λ b. then_try (g b) k) h in
    let (b, _, h2) = then_try-eq-ok (f a) (λ b. then_try (g b) k) h1 in
    let (c, _, h3) = then_try-eq-ok (g b) k h2 in (c, h3)

module _ (v : Viem) where
  -- The terms of an answer hash to a commitment, and decode.
  pub record Shows (commitment : Text) (auth : Json) (t : StreamTerms) : Type 0 where
    pub terms_hex : Text
    pub answered : terms_of_auth auth ≡ ok terms_hex
    pub committed : lower (v.keccak256 terms_hex) ≡ lower commitment
    pub decodes : decode_terms v terms_hex ≡ ok t

  ok_opened :
      {t t' : StreamTerms} {auth auth' : Json}
      → ok (opened t' auth') ≡ ok (opened t auth)
      → (t' ≡ t) × (auth' ≡ auth)
  ok_opened e = (cc, cc)

  refused-ne-opened :
      {f : EnclaveFailure} {t : StreamTerms} {auth : Json} → ok (refused f) ≡ ok (opened t auth) → ⊥
  refused-ne-opened e = cc

  module _ (config : Config) (sign_message : Text → Result Text)
      (request_authorization : AuthorizationRequest → Result Answer) where
    compared-Shows :
        (s : OnChainStream) (t : StreamTerms) (auth auth' : Json) (terms_hex : Text)
        → terms_of_auth auth' ≡ ok terms_hex
        → compared v config sign_message request_authorization s auth' terms_hex
          ≡ ok (opened t auth)
        → Shows s.commitment auth t
    compared-Shows s t auth auth' terms_hex named h =
        elim (Bool-cases (text_eq (lower (v.keccak256 terms_hex)) (lower s.commitment))) [
          | inr other ↦ absurd (refused-ne-opened (rw other at h))
          | inl same ↦
              let (t', decoded, e) =
                then_try-eq-ok (decode_terms v terms_hex) (λ t'. ok (opened t' auth'))
                  (rw same at h) in
              record {
                terms_hex = terms_hex;
                answered = rw (← (ok_opened e).1) named;
                committed = (text_eq_iff _ _).0 same;
                decodes = rw (← (ok_opened e).0) decoded;
              }
        ]

    checked-Shows :
        (s : OnChainStream) (answer : Answer) (t : StreamTerms) (auth : Json)
        → checked v config sign_message request_authorization s answer ≡ ok (opened t auth)
        → Shows s.commitment auth t
    unfolding checked
    checked-Shows s (failed f) t auth h = cc
    checked-Shows s (granted auth') t auth h =
        let (terms_hex, named, k) =
          then_try-eq-ok (terms_of_auth auth')
            (compared v config sign_message request_authorization s auth') h in
        compared-Shows s t auth auth' terms_hex named k

    -- Whatever the enclave answers, unlocking opens terms only where the text of the answer hashes to
    -- the commitment that the chain holds, and decodes to these terms.
    pub unlocking-Shows :
        (stream_id : ℤ) (s : OnChainStream) (sealed : Text) (now : ℕ) (t : StreamTerms)
        (auth : Json)
        → unlocking v config sign_message request_authorization stream_id s sealed now
          ≡ ok (opened t auth)
        → Shows s.commitment auth t
    unfolding unlocking
    unlocking-Shows stream_id s sealed now t auth h =
        let (answer, k) =
          last_step (unlock_challenge v config sign_message request_authorization stream_id s now)
            sign_message (ask v config sign_message request_authorization stream_id s sealed now)
            (checked v config sign_message request_authorization s) h in
        checked-Shows s answer t auth k

module _ (v : Viem) (is_hex : Text → Bool) where
  judged-match :
      (c : Option Text) (s : Option OnChainStream)
      → judged v is_hex c s ≡ match_
      → (hash : Text) × (stream : OnChainStream) × (c ≡ some hash)
        × (s ≡ some stream)
        × (lower hash ≡ lower stream.commitment)
  judged-match none s h = cc
  judged-match (some hash) none h = cc
  judged-match (some hash) (some stream) h = (
    hash,
    stream,
    refl,
    refl,
    ground (arith, h, text_eq_iff (lower hash) (lower stream.commitment)),
  )

  computed-some :
      (s hash : Text)
      → computed v is_hex s ≡ some hash
      → (2 < length s) × (is_hex s ≡ true) × (v.keccak256 s ≡ hash)
  unfolding computed
  computed-some s hash h = ground arith

  computed_of :
      (s : Text) → 2 < length s → is_hex s ≡ true → computed v is_hex s ≡ some (v.keccak256 s)
  unfolding computed
  computed_of s long is = ground arith

  -- The verdict is "match" exactly when the stream was loaded and the presented text, trimmed, is hex
  -- of more than the prefix that hashes to the stream's commitment, up to case.
  pub verdict_iff :
      (terms_hex : Text) (s : Option OnChainStream)
      → (verdict v is_hex terms_hex s ≡ match_) ↔ (
          (stream : OnChainStream) × (s ≡ some stream)
          × (2 < length (trim terms_hex))
          × (is_hex (trim terms_hex) ≡ true)
          × (lower (v.keccak256 (trim terms_hex)) ≡ lower stream.commitment))
  unfolding verdict
  verdict_iff terms_hex s = (
    λ h.
        let (hash, stream, made, loaded, same) =
          judged-match (computed v is_hex (trim terms_hex)) s h in
        let (long, is, value) = computed-some (trim terms_hex) hash made in
        (stream, loaded, long, is, rw value same),
    λ (stream, loaded, long, is, same).
        rw (loaded, computed_of (trim terms_hex) long is, (text_eq_iff _ _).1 same) refl,
  )

  -- Terms are shown only under the verdict "match", and they are what the presented text decodes to.
  pub decoded-match :
      (terms_hex : Text) (s : Option OnChainStream) (t : StreamTerms)
      → decoded v is_hex terms_hex s ≡ some t
      → (verdict v is_hex terms_hex s ≡ match_) × (decode_terms v (trim terms_hex) ≡ ok t)
  unfolding decoded
  decoded-match terms_hex s t h = shown (verdict v is_hex terms_hex s) h
    where
      value : (r : Result StreamTerms) → or_null r ≡ some t → r ≡ ok t
      value (ok a) e = cc
      value (throw x) e = cc

      shown :
          (w : Verdict)
          → decoded_if v is_hex w (trim terms_hex) ≡ some t
          → (w ≡ match_) × (decode_terms v (trim terms_hex) ≡ ok t)
      shown match_ e = (refl, value (decode_terms v (trim terms_hex)) e)
      shown mismatch e = cc
      shown absent e = cc
