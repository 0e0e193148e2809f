-- ===== src/Stream/Grants.antt =====
-- When `authorize` signs, and when it refuses a stranger.
use flare_stealthwage.Prelude.{
  ℕ, ◌+◌, ◌≡◌, ℤ, pos, true, false, some, Text, text, text_eq, text_eq_iff, lower, ok, arith,
}
use flare_stealthwage.Prelude.Int.{ltb_ℤ, parse_bigint}
use flare_stealthwage.Prelude.Sorting.{includes}
use flare_stealthwage.Json.Value.{Json}
use flare_stealthwage.Json.Bytes.{to_hex_json}
use flare_stealthwage.Handler.{Outcome, success, refusal, next}
use flare_stealthwage.Protocol.Terms.{StreamTerms}
use flare_stealthwage.Protocol.Digests.{settle_tag, caller_auth_window_seconds}
use flare_stealthwage.Stream.Request.{AuthRequest, decode_request}
use flare_stealthwage.Stream.Authorize.{
  Enclave, Env, configured, permitted, skew, Opened, open_terms, check_skew, recover_caller,
  check_party, authenticate, sign_auth, response, authorization, authorize,
}
use flare_stealthwage.Stream.Safety.{Opens, IsParty, Authenticates, Signs}

module _ (e : Enclave) where
  Opens-open_terms :
      (ecies_key : Text) (req : AuthRequest) (opened : Opened)
      → Opens e ecies_key req opened
      → open_terms e ecies_key req ≡ next opened
  unfolding open_terms
  Opens-open_terms ecies_key req opened o =
      rw (o.decrypts, (text_eq_iff _ _).1 o.committed, o.decodes)

  IsParty-check_party :
      (tag : Text) (terms : StreamTerms) (caller : Text)
      → IsParty e tag terms caller
      → includes (permitted (text_eq tag (settle_tag e.viem)) terms) (lower caller) ≡ true
  unfolding includes permitted
  IsParty-check_party tag terms caller h = ground (
    arith,
    text_eq_iff tag (settle_tag e.viem),
    text_eq_iff (lower terms.employer) (lower caller),
    text_eq_iff (lower terms.recipient) (lower caller),
  )

  Authenticates-authenticate :
      (req : AuthRequest) (tag : Text) (terms : StreamTerms) (now : ℕ)
      → Authenticates e req tag terms now
      → authenticate e req tag terms now ≡ next tt
  unfolding authenticate check_skew check_party
  Authenticates-authenticate req tag terms now a = rw (
    a.issued,
    a.recent,
    a.challenged,
    a.recovered,
    IsParty-check_party tag terms a.caller a.party,
  )

  Signs-sign_auth :
      (signer_key : Text) (req : AuthRequest) (tag : Text) (terms : StreamTerms) (now : ℕ)
      (signature : Text)
      → Signs e signer_key req tag terms now signature
      → sign_auth e signer_key req tag terms now ≡ next signature
  unfolding sign_auth
  Signs-sign_auth signer_key req tag terms now signature s =
      rw (s.chain, s.stream, s.built, s.signed)

  -- A request that can be read, whose terms open against its commitment, whose caller is
  -- authenticated as a party, and whose digest can be built and signed, is answered with status 1 by
  -- the response with that signature, and is counted.
  pub authorize_grants :
      (env : Env) (now : ℕ) (tag : Text) (msg : Json) (auth_count : ℕ) (req : AuthRequest)
      (ecies_key signer_key : Text) (opened : Opened) (signature : Text)
      → decode_request e.syntax_error msg ≡ next req
      → configured env.tee_ecies_privkey ≡ some ecies_key
      → configured env.tee_signer_privkey ≡ some signer_key
      → Opens e ecies_key req opened
      → Authenticates e req tag opened.terms now
      → Signs e signer_key req tag opened.terms now signature
      → authorize e env now tag msg auth_count
        ≡ (ok (success (to_hex_json (response e req opened now signature))), auth_count + 1)
  unfolding authorize authorization
  authorize_grants env now tag msg n req ecies_key signer_key opened signature h1 h2 h3 o a s = rw (
    h1,
    h2,
    h3,
    Opens-open_terms ecies_key req opened o,
    Authenticates-authenticate req tag opened.terms now a,
    Signs-sign_auth signer_key req tag opened.terms now signature s,
  )

  -- The answer to one who is no party.
  abbrev pub not_a_party : Outcome
  not_a_party = ok (refusal (text "caller is not a party to this stream"))

  stranger-check_party :
      (tag : Text) (terms : StreamTerms) (caller : Text)
      → ¬ (IsParty e tag terms caller)
      → includes (permitted (text_eq tag (settle_tag e.viem)) terms) (lower caller) ≡ false
  unfolding includes permitted
  stranger-check_party tag terms caller h = ground (
    arith,
    text_eq_iff tag (settle_tag e.viem),
    text_eq_iff (lower terms.employer) (lower caller),
    text_eq_iff (lower terms.recipient) (lower caller),
  )

  -- A caller who proved, within the time window, an address that is no party to the terms that the
  -- request opens gets status 0 with that reason and no data, and `authCount` does not change.
  pub authorize_refuses :
      (env : Env) (now : ℕ) (tag : Text) (msg : Json) (auth_count : ℕ) (req : AuthRequest)
      (ecies_key signer_key : Text) (opened : Opened) (issued_at : ℤ) (caller : Text)
      → decode_request e.syntax_error msg ≡ next req
      → configured env.tee_ecies_privkey ≡ some ecies_key
      → configured env.tee_signer_privkey ≡ some signer_key
      → Opens e ecies_key req opened
      → parse_bigint req.issued_at ≡ ok issued_at
      → ltb_ℤ caller_auth_window_seconds (skew issued_at (pos now)) ≡ false
      → recover_caller e req tag issued_at ≡ ok caller
      → ¬ (IsParty e tag opened.terms caller)
      → authorize e env now tag msg auth_count ≡ (not_a_party, auth_count)
  unfolding authorize authorization authenticate check_skew check_party
  authorize_refuses env now tag msg n req ecies_key signer_key opened issued_at caller h1 h2 h3 o h4
        h5 h6 stranger =
      rw (
        h1,
        h2,
        h3,
        Opens-open_terms ecies_key req opened o,
        h4,
        h5,
        h6,
        stranger-check_party tag opened.terms caller stranger,
      )
