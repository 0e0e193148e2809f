-- ===== src/Script/Checked.antt =====
-- What holds where check-enclave-client.ts ends well.
use flare_stealthwage.Prelude.{◌≡◌, refl, [], Text, text, lower, Result, ok}
use flare_stealthwage.Prelude.Strings.{text_eq_iff}
use flare_stealthwage.Json.Value.{Json}
use flare_stealthwage.Protocol.Viem.{Viem}
use flare_stealthwage.Protocol.Terms.{StreamTerms, decode_terms}
use flare_stealthwage.Client.Answer.{Answer, granted, AuthorizationRequest}
use flare_stealthwage.Page.Dashboard.{OnChainStream, Config, opened, checked, terms_of_auth}
use flare_stealthwage.Page.Shown.{Shows}
use flare_stealthwage.Script.Run.{History, done}
use flare_stealthwage.Script.Check.{Site, Settings, Verified, check_terms, check_client}
use flare_stealthwage.Script.Yields.{
  Yields, bind-Yields, must-Yields, pure-Yields, next-Yields, lift-Yields, Yields-done,
}

module _ (w : Site) (c : Settings) where
  -- The stream is that of the demo recipient, and the authorization shows the terms of the stream.
  abbrev pub IsVerified : Verified → Type 0
  IsVerified r =
      (lower r.stream.recipient
        ≡ lower (w.address_of (w.viem.keccak_text (text "stealthwage-demo-alice-v1"))))
      × Shows w.viem r.stream.commitment r.auth r.terms

  check_terms-Shows :
      (stream : OnChainStream) (auth : Json)
      → Yields (Shows w.viem stream.commitment auth) (check_terms w c stream auth)
  unfolding check_terms
  check_terms-Shows stream auth =
      let Q = Shows w.viem stream.commitment auth in
      bind-Yields Q _ _ λ signature.
        next-Yields (λ terms_hex. terms_of_auth auth ≡ ok terms_hex) Q _ _
          (lift-Yields _ (terms_of_auth auth) (λ terms_hex answered. answered))
          λ terms_hex answered. must-Yields Q _ _ _ λ same.
            lift-Yields Q (decode_terms w.viem terms_hex) λ terms decodes. record {
              terms_hex = terms_hex;
              answered = answered;
              committed = (text_eq_iff _ _).0 same;
              decodes = decodes;
            }

  check_client-Yields : Yields IsVerified (check_client w c)
  unfolding check_client
  check_client-Yields =
      let Q = IsVerified in
      bind-Yields Q _ _ λ stream. must-Yields Q _ _ _ λ own. bind-Yields Q _ _ λ fetched.
        bind-Yields Q _ _ λ sealed. bind-Yields Q _ _ λ issued_at. bind-Yields Q _ _ λ answer.
          bind-Yields Q _ _ λ auth.
            next-Yields (Shows w.viem stream.commitment auth) Q _ _ (check_terms-Shows stream auth)
              λ terms shown. bind-Yields Q _ _ λ denied.
                bind-Yields Q _ _ λ refusal. pure-Yields Q _ ((text_eq_iff _ _).0 own, shown)

Shows-checked :
    (v : Viem) (config : Config) (sign_message : Text → Result Text)
    (request_authorization : AuthorizationRequest → Result Answer) (s : OnChainStream) (auth : Json)
    (t : StreamTerms)
    → Shows v s.commitment auth t
    → checked v config sign_message request_authorization s (granted auth) ≡ ok (opened t auth)
unfolding checked
Shows-checked v config sign_message request_authorization s auth t shown =
    rw (shown.answered, (text_eq_iff _ _).1 shown.committed, shown.decodes) refl

-- Where check-enclave-client.ts ends well, the stream that it read from the chain is the demo
-- recipient's, and at that stream the dashboard opens the authorization that the enclave gave, with
-- the terms that the script decoded.
pub check_client-opens :
    (w : Site) (c : Settings) (config : Config) (sign_message : Text → Result Text)
    (request_authorization : AuthorizationRequest → Result Answer) (calls : History) (r : Verified)
    → check_client w c [] ≡ (calls, done r)
    → (lower r.stream.recipient
        ≡ lower (w.address_of (w.viem.keccak_text (text "stealthwage-demo-alice-v1"))))
      × (checked w.viem config sign_message request_authorization r.stream (granted r.auth)
          ≡ ok (opened r.terms r.auth))
check_client-opens w c config sign_message request_authorization calls r e =
    let (own, shown) =
      Yields-done (IsVerified w c) (check_client w c) [] calls r (check_client-Yields w c) e in
    (
      own,
      Shows-checked w.viem config sign_message request_authorization r.stream r.auth r.terms shown,
    )
