-- ===== src/Stream/Safety.antt =====
-- What `authorize` has established before it signs.
use mathlib.Core.Path.{subst}
use flare_stealthwage.Prelude.{
  ℕ, ◌≡◌, ◌≢◌, ◌⊎◌, refl, sym, ℤ, pos, Bool, true, false, not, Option, none, some, [], ◌∷◌, Text,
  text_eq, text_eq_iff, lower, Result, ok, throw, then_try, arith,
}
use flare_stealthwage.Prelude.Int.{ltb_ℤ, parse_bigint}
use flare_stealthwage.Prelude.Sorting.{includes}
use flare_stealthwage.Json.Value.{Json}
use flare_stealthwage.Handler.{
  next, >>=-eq-next, need-eq-next, attempt-eq-next, call-eq-next, attempt, need, call, present,
  present-eq-next,
}
use flare_stealthwage.Protocol.Terms.{StreamTerms, decode_terms}
use flare_stealthwage.Protocol.Digests.{settle_tag, build_auth_digest, caller_auth_window_seconds}
use flare_stealthwage.Stream.Request.{AuthRequest, decode_request}
use flare_stealthwage.Stream.Authorize.{
  Enclave, Env, configured, permitted, skew, Opened, decrypted, open_terms, challenge, check_skew,
  recover_caller, check_party, authenticate, auth_params, sign_auth, response, authorization,
}

pub then_try-eq-ok {ℓ κ} :
    {A : Type ℓ} {B : Type κ} (r : Result A) (f : A → Result B) {b : B}
    → then_try r f ≡ ok b
    → (a : A) × (r ≡ ok a) × (f a ≡ ok b)
then_try-eq-ok (ok a) f h = (a, refl, h)
then_try-eq-ok (throw x) f h = cc

next_injective {ℓ} : {A : Type ℓ} {a b : A} → next a ≡ next b → a ≡ b
next_injective h = cc

not-eq-true : (b : Bool) → not b ≡ true → b ≡ false
not-eq-true true h = cc
not-eq-true false h = refl

configured-eq-some : (o : Option Text) {s : Text} → configured o ≡ some s → o ≡ some s
configured-eq-some (some (c ∷ s)) h = h
configured-eq-some (some []) h = cc
configured-eq-some none h = cc

module _ (e : Enclave) where
  -- The terms were decrypted from the request, hash to its commitment, and decode.
  pub record Opens (ecies_key : Text) (req : AuthRequest) (opened : Opened) : Type 0 where
    pub decrypts : decrypted e ecies_key req ≡ ok opened.terms_hex
    pub committed : e.viem.keccak256 opened.terms_hex ≡ lower req.commitment
    pub decodes : decode_terms e.viem opened.terms_hex ≡ ok opened.terms

  -- The caller may ask for a signature with this tag: the employer always, the recipient unless
  -- the stream is to be settled.
  abbrev pub IsParty : Text → StreamTerms → Text → Type 0
  IsParty tag terms caller =
      (lower caller ≡ lower terms.employer)
      ⊎ ((tag ≢ settle_tag e.viem) × (lower caller ≡ lower terms.recipient))

  -- The request is recent, and signed by a party over the challenge of this very request.
  pub record Authenticates (req : AuthRequest) (tag : Text) (terms : StreamTerms) (now : ℕ)
      : Type 0 where
    pub issued_at : ℤ
    pub raw : Text
    pub caller : Text
    pub issued : parse_bigint req.issued_at ≡ ok issued_at
    pub recent : ltb_ℤ caller_auth_window_seconds (skew issued_at (pos now)) ≡ false
    pub challenged : challenge e req tag issued_at ≡ ok raw
    pub recovered : e.recover_message_address raw req.caller_signature ≡ ok caller
    pub party : IsParty tag terms caller

  -- The signature is the enclave's, over the digest of these terms' accrual at `now`.
  pub record Signs (signer_key : Text) (req : AuthRequest) (tag : Text) (terms : StreamTerms)
      (now : ℕ) (signature : Text) : Type 0 where
    pub chain_id : ℤ
    pub stream_id : ℤ
    pub digest : Text
    pub chain : parse_bigint req.chain_id ≡ ok chain_id
    pub stream : parse_bigint req.stream_id ≡ ok stream_id
    pub built :
        build_auth_digest e.viem (auth_params e req tag terms now chain_id stream_id) ≡ ok digest
    pub signed : e.sign_message signer_key digest ≡ ok signature

  open_terms-Opens :
      (ecies_key : Text) (req : AuthRequest) (opened : Opened)
      → open_terms e ecies_key req ≡ next opened
      → Opens ecies_key req opened
  unfolding open_terms
  open_terms-Opens ecies_key req opened h =
      let (terms_hex, h1, k1) = >>=-eq-next (attempt (decrypted e ecies_key req) _) _ h in
      let (_, h2, k2) = >>=-eq-next (need (text_eq (e.viem.keccak256 terms_hex) _) _) _ k1 in
      let (terms, h3, k3) = >>=-eq-next (attempt (decode_terms e.viem terms_hex) _) _ k2 in
      let same : record { terms_hex = terms_hex; terms = terms } ≡ opened = next_injective k3 in
      subst (Opens ecies_key req) same (record {
        decrypts = attempt-eq-next _ _ h1;
        committed = (text_eq_iff _ _).0 (need-eq-next _ _ h2);
        decodes = attempt-eq-next _ _ h3;
      })

  includes-IsParty :
      (tag : Text) (terms : StreamTerms) (caller : Text)
      → includes (permitted (text_eq tag (settle_tag e.viem)) terms) (lower caller) ≡ true
      → IsParty tag terms caller
  unfolding includes permitted
  includes-IsParty tag terms caller h = ground (
    arith,
    text_eq_iff tag (settle_tag e.viem),
    text_eq_iff (lower terms.employer) (lower caller),
    text_eq_iff (lower terms.recipient) (lower caller),
  )

  check_party-IsParty :
      (tag : Text) (terms : StreamTerms) (caller : Text) {u : Unit {0}}
      → check_party e tag terms caller ≡ next u
      → IsParty tag terms caller
  unfolding check_party
  check_party-IsParty tag terms caller h = includes-IsParty tag terms caller (need-eq-next _ _ h)

  check_skew-recent :
      (issued_at : ℤ) (now : ℕ) {u : Unit {0}}
      → check_skew e issued_at now ≡ next u
      → ltb_ℤ caller_auth_window_seconds (skew issued_at (pos now)) ≡ false
  unfolding check_skew
  check_skew-recent issued_at now h = not-eq-true _ (need-eq-next _ _ h)

  authenticate-Authenticates :
      (req : AuthRequest) (tag : Text) (terms : StreamTerms) (now : ℕ) {u : Unit {0}}
      → authenticate e req tag terms now ≡ next u
      → Authenticates req tag terms now
  unfolding authenticate
  authenticate-Authenticates req tag terms now h =
      let (issued_at, h1, k1) = >>=-eq-next (attempt (parse_bigint req.issued_at) _) _ h in
      let (_, h2, k2) = >>=-eq-next (check_skew e issued_at now) _ k1 in
      let (caller, h3, k3) = >>=-eq-next (attempt (recover_caller e req tag issued_at) _) _ k2 in
      let (raw, h4, k4) =
        then_try-eq-ok (challenge e req tag issued_at) _ (attempt-eq-next _ _ h3) in
      record {
        issued_at = issued_at;
        raw = raw;
        caller = caller;
        issued = attempt-eq-next _ _ h1;
        recent = check_skew-recent issued_at now h2;
        challenged = h4;
        recovered = k4;
        party = check_party-IsParty tag terms caller k3;
      }

  sign_auth-Signs :
      (signer_key : Text) (req : AuthRequest) (tag : Text) (terms : StreamTerms) (now : ℕ)
      (signature : Text)
      → sign_auth e signer_key req tag terms now ≡ next signature
      → Signs signer_key req tag terms now signature
  unfolding sign_auth
  sign_auth-Signs signer_key req tag terms now signature h =
      let (chain_id, h1, k1) = >>=-eq-next (call (parse_bigint req.chain_id)) _ h in
      let (stream_id, h2, k2) = >>=-eq-next (call (parse_bigint req.stream_id)) _ k1 in
      let (digest, h3, k3) = >>=-eq-next (call (build_auth_digest e.viem _)) _ k2 in
      record {
        chain_id = chain_id;
        stream_id = stream_id;
        digest = digest;
        chain = call-eq-next _ h1;
        stream = call-eq-next _ h2;
        built = call-eq-next _ h3;
        signed = call-eq-next _ k3;
      }

  -- What stands behind an answer of `authorize`.
  pub record IsAuthorized (env : Env) (now : ℕ) (tag : Text) (msg : Json) (body : Json)
      : Type 0 where
    pub req : AuthRequest
    pub ecies_key : Text
    pub signer_key : Text
    pub opened : Opened
    pub signature : Text
    pub read : decode_request e.syntax_error msg ≡ next req
    pub ecies : env.tee_ecies_privkey ≡ some ecies_key
    pub signer : env.tee_signer_privkey ≡ some signer_key
    pub opens : Opens ecies_key req opened
    pub authentic : Authenticates req tag opened.terms now
    pub signs : Signs signer_key req tag opened.terms now signature
    pub answered : body ≡ response e req opened now signature

  -- An answer is given only after the terms were opened against the commitment and the caller was
  -- authenticated as a party to them, and it carries the signature over their accrual.
  pub authorization-IsAuthorized :
      (env : Env) (now : ℕ) (tag : Text) (msg body : Json)
      → authorization e env now tag msg ≡ next body
      → IsAuthorized env now tag msg body
  unfolding authorization
  authorization-IsAuthorized env now tag msg body h =
      let (req, h1, k1) = >>=-eq-next (decode_request e.syntax_error msg) _ h in
      let (ecies_key, h2, k2) = >>=-eq-next (present (configured env.tee_ecies_privkey) _) _ k1 in
      let (signer_key, h3, k3) = >>=-eq-next (present (configured env.tee_signer_privkey) _) _ k2 in
      let (opened, h4, k4) = >>=-eq-next (open_terms e ecies_key req) _ k3 in
      let (_, h5, k5) = >>=-eq-next (authenticate e req tag opened.terms now) _ k4 in
      let (signature, h6, k6) =
        >>=-eq-next (sign_auth e signer_key req tag opened.terms now) _ k5 in
      record {
        req = req;
        ecies_key = ecies_key;
        signer_key = signer_key;
        opened = opened;
        signature = signature;
        read = h1;
        ecies = configured-eq-some _ (present-eq-next _ _ h2);
        signer = configured-eq-some _ (present-eq-next _ _ h3);
        opens = open_terms-Opens ecies_key req opened h4;
        authentic = authenticate-Authenticates req tag opened.terms now h5;
        signs = sign_auth-Signs signer_key req tag opened.terms now signature h6;
        answered = sym (next_injective k6);
      }
