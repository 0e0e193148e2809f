-- ===== src/Stream/Ends.antt =====
-- How `authorize` ends: with an answer, a refusal, or an error that nothing catches.
use mathlib.Core.Path.{subst}
use flare_stealthwage.Prelude.{
  ℕ, ◌+◌, ◌≡◌, refl, sym, Bool, true, false, Option, none, some, List, [], ◌∷◌, Text, text, text_eq,
  Result, ok, throw, JsError,
}
use flare_stealthwage.Prelude.Int.{parse_bigint}
use flare_stealthwage.Prelude.Sorting.{sort, without}
use flare_stealthwage.Json.Value.{Json, null, bool, num, str, arr, obj, Fields, keys}
use flare_stealthwage.Json.Bytes.{to_hex_json, value_to_bytes, parse_bytes}
use flare_stealthwage.Handler.{
  Outcome, success, refusal, Flow, next, halt, ◌>>=◌, attempt, need, call, present,
}
use flare_stealthwage.Protocol.Terms.{StreamTerms, decode_terms}
use flare_stealthwage.Protocol.Digests.{build_auth_digest}
use flare_stealthwage.Stream.Request.{
  AuthRequest, decode_request, object_fields, no_unknown, read_fields, string_field,
  required_fields,
}
use flare_stealthwage.Stream.Authorize.{
  Enclave, Env, configured, decrypted, open_terms, check_skew, recover_caller, check_party,
  authenticate, sign_auth, authorization, finish, authorize,
}

-- A chain that ends early does so by a refusal, or by an error that nothing catches.
abbrev pub EndsProperly {ℓ} : {A : Type ℓ} → Flow A → Type 0
EndsProperly (next a) = Unit
EndsProperly (halt (ok r)) = (reason : Text) × (r ≡ refusal reason)
EndsProperly (halt (throw x)) = Unit

bind-EndsProperly {ℓ κ} :
    {A : Type ℓ} {B : Type κ} (m : Flow A) (f : A → Flow B)
    → EndsProperly m
    → ((a : A) → EndsProperly (f a))
    → EndsProperly (m >>= f)
bind-EndsProperly (next a) f h k = k a
bind-EndsProperly (halt (ok r)) f h k = h
bind-EndsProperly (halt (throw x)) f h k = tt

attempt-EndsProperly {ℓ} :
    {A : Type ℓ} (r : Result A) (reason : JsError → Text) → EndsProperly (attempt r reason)
attempt-EndsProperly (ok a) reason = tt
attempt-EndsProperly (throw x) reason = (reason x, refl)

need-EndsProperly : (b : Bool) (reason : Text) → EndsProperly (need b reason)
need-EndsProperly true reason = tt
need-EndsProperly false reason = (reason, refl)

present-EndsProperly {ℓ} :
    {A : Type ℓ} (o : Option A) (reason : Text) → EndsProperly (present o reason)
present-EndsProperly (some a) reason = tt
present-EndsProperly none reason = (reason, refl)

call-EndsProperly {ℓ} : {A : Type ℓ} (r : Result A) → EndsProperly (call r)
call-EndsProperly (ok a) = tt
call-EndsProperly (throw x) = tt

object_fields-EndsProperly : (v : Json) → EndsProperly (object_fields v)
object_fields-EndsProperly (obj fs) = tt
object_fields-EndsProperly null = (_, refl)
object_fields-EndsProperly (bool b) = (_, refl)
object_fields-EndsProperly (num n) = (_, refl)
object_fields-EndsProperly (str s) = (_, refl)
object_fields-EndsProperly (arr xs) = (_, refl)

no_unknown-EndsProperly : (ks : List Text) → EndsProperly (no_unknown ks)
no_unknown-EndsProperly [] = tt
no_unknown-EndsProperly (k ∷ ks) = (_, refl)

read_fields-EndsProperly : (fs : Fields) → EndsProperly (read_fields fs)
unfolding read_fields
read_fields-EndsProperly fs =
    bind-EndsProperly (string_field (text "streamId") fs) _ (present-EndsProperly _ _) λ _.
      bind-EndsProperly (string_field (text "vault") fs) _ (present-EndsProperly _ _) λ _.
        bind-EndsProperly (string_field (text "chainId") fs) _ (present-EndsProperly _ _) λ _.
          bind-EndsProperly (string_field (text "commitment") fs) _ (present-EndsProperly _ _) λ _.
            bind-EndsProperly (string_field (text "encryptedTerms") fs) _ (present-EndsProperly _ _)
              λ _.
                bind-EndsProperly (string_field (text "issuedAt") fs) _ (present-EndsProperly _ _)
                  λ _.
                    bind-EndsProperly (string_field (text "callerSignature") fs) _
                      (present-EndsProperly _ _) λ _. tt

decode_request-EndsProperly :
    (syntax_error : Text → JsError) (msg : Json) → EndsProperly (decode_request syntax_error msg)
unfolding decode_request
decode_request-EndsProperly syntax_error msg =
    bind-EndsProperly (attempt (value_to_bytes (some msg)) _) _ (attempt-EndsProperly _ _) λ raw.
      bind-EndsProperly (attempt (parse_bytes syntax_error raw) _) _ (attempt-EndsProperly _ _)
        λ parsed.
          bind-EndsProperly (object_fields parsed) _ (object_fields-EndsProperly parsed) λ fs.
            bind-EndsProperly (no_unknown (sort (without required_fields (keys fs)))) _
              (no_unknown-EndsProperly _) λ _. read_fields-EndsProperly fs

module _ (e : Enclave) where
  open_terms-EndsProperly :
      (ecies_key : Text) (req : AuthRequest) → EndsProperly (open_terms e ecies_key req)
  unfolding open_terms
  open_terms-EndsProperly ecies_key req =
      bind-EndsProperly (attempt (decrypted e ecies_key req) _) _ (attempt-EndsProperly _ _)
        λ terms_hex.
          bind-EndsProperly (need (text_eq (e.viem.keccak256 terms_hex) _) _) _
            (need-EndsProperly _ _)
            λ _.
              bind-EndsProperly (attempt (decode_terms e.viem terms_hex) _) _
                (attempt-EndsProperly _ _) λ _. tt

  authenticate-EndsProperly :
      (req : AuthRequest) (tag : Text) (terms : StreamTerms) (now : ℕ)
      → EndsProperly (authenticate e req tag terms now)
  unfolding authenticate check_skew check_party
  authenticate-EndsProperly req tag terms now =
      bind-EndsProperly (attempt (parse_bigint req.issued_at) _) _ (attempt-EndsProperly _ _)
        λ issued_at. bind-EndsProperly (check_skew e issued_at now) _ (need-EndsProperly _ _) λ _.
          bind-EndsProperly (attempt (recover_caller e req tag issued_at) _) _
            (attempt-EndsProperly _ _) λ caller. need-EndsProperly _ _

  sign_auth-EndsProperly :
      (signer_key : Text) (req : AuthRequest) (tag : Text) (terms : StreamTerms) (now : ℕ)
      → EndsProperly (sign_auth e signer_key req tag terms now)
  unfolding sign_auth
  sign_auth-EndsProperly signer_key req tag terms now =
      bind-EndsProperly (call (parse_bigint req.chain_id)) _ (call-EndsProperly _) λ _.
        bind-EndsProperly (call (parse_bigint req.stream_id)) _ (call-EndsProperly _) λ _.
          bind-EndsProperly (call (build_auth_digest e.viem _)) _ (call-EndsProperly _)
            λ _. call-EndsProperly _

  authorization-EndsProperly :
      (env : Env) (now : ℕ) (tag : Text) (msg : Json)
      → EndsProperly (authorization e env now tag msg)
  unfolding authorization
  authorization-EndsProperly env now tag msg =
      bind-EndsProperly (decode_request e.syntax_error msg) _ (decode_request-EndsProperly _ msg)
        λ req.
          bind-EndsProperly (present (configured env.tee_ecies_privkey) _) _
            (present-EndsProperly _ _)
            λ ecies_key.
              bind-EndsProperly (present (configured env.tee_signer_privkey) _) _
                (present-EndsProperly _ _)
                λ signer_key.
                  bind-EndsProperly (open_terms e ecies_key req) _ (open_terms-EndsProperly _ req)
                    λ opened.
                      bind-EndsProperly (authenticate e req tag opened.terms now) _
                        (authenticate-EndsProperly req tag opened.terms now)
                        λ _.
                          bind-EndsProperly (sign_auth e signer_key req tag opened.terms now) _
                            (sign_auth-EndsProperly signer_key req tag opened.terms now) λ _. tt

  -- The ways in which `authorize` can end, with `authCount` behind it.
  pub data Ends (env : Env) (now : ℕ) (tag : Text) (msg : Json) (auth_count : ℕ)
      : Outcome × ℕ → Type 0 where
    answered :
        (body : Json)
        → authorization e env now tag msg ≡ next body
        → Ends env now tag msg auth_count (ok (success (to_hex_json body)), auth_count + 1)
    refused : (reason : Text) → Ends env now tag msg auth_count (ok (refusal reason), auth_count)
    rejected : (x : JsError) → Ends env now tag msg auth_count (throw x, auth_count)

  finish-Ends :
      (env : Env) (now : ℕ) (tag : Text) (msg : Json) (auth_count : ℕ) (m : Flow Json)
      → authorization e env now tag msg ≡ m
      → EndsProperly m
      → Ends env now tag msg auth_count (finish e m auth_count)
  finish-Ends env now tag msg n (next body) h p = answered body h
  finish-Ends env now tag msg n (halt (ok r)) h (reason, same) =
      subst (λ q. Ends env now tag msg n (ok q, n)) (sym same) (refused reason)
  finish-Ends env now tag msg n (halt (throw x)) h p = rejected x

  -- Every call of `authorize` ends in one of three ways: with status 1, data and no error, and only
  -- then `authCount` grows, by one; with status 0, no data and a reason; or by an error that is not
  -- caught. On the last two nothing of the state changes.
  pub authorize-Ends :
      (env : Env) (now : ℕ) (tag : Text) (msg : Json) (auth_count : ℕ)
      → Ends env now tag msg auth_count (authorize e env now tag msg auth_count)
  unfolding authorize
  authorize-Ends env now tag msg n =
      finish-Ends env now tag msg n (authorization e env now tag msg) refl
        (authorization-EndsProperly env now tag msg)
