-- ===== src/Stream/Authorize.antt =====
-- `authorize` of typescript/src/app/streamHandlers.ts, in the steps of its comments.
use flare_stealthwage.Prelude.{
  ℕ, ◌+◌, ℤ, pos, Bool, not, Option, none, some, List, [], ◌∷◌, Text, text, text_eq, lower, Result,
  ok, JsError, then_try, if◌then◌else◌,
}
use flare_stealthwage.Prelude.Int.{◌+ℤ◌, ◌-ℤ◌, ltb_ℤ, parse_bigint, int_string}
use flare_stealthwage.Prelude.Sorting.{includes}
use flare_stealthwage.Encoding.Hex.{Bytes, hex_to_bytes, bytes_to_hex}
use flare_stealthwage.Json.Value.{Json, str, obj, end, field}
use flare_stealthwage.Json.Bytes.{to_hex_json}
use flare_stealthwage.Handler.{
  Outcome, success, Flow, next, halt, ◌>>=◌, ◌>>◌, need, attempt, call, present,
}
use flare_stealthwage.Protocol.Viem.{Viem}
use flare_stealthwage.Protocol.Terms.{StreamTerms, decode_terms, accrued_on}
use flare_stealthwage.Protocol.Digests.{
  AuthParams, settle_tag, build_auth_digest, build_caller_challenge, auth_ttl_seconds,
  caller_auth_window_seconds,
}
use flare_stealthwage.Stream.Request.{AuthRequest, decode_request}

-- What `authorize` calls beyond the protocol module: the package eciesjs, viem's signatures, and the
-- error that the engine's `JSON.parse` throws.
pub record Enclave : Type 0 where
  pub viem : Viem
  -- `decrypt(key, ciphertext)` of eciesjs
  pub decrypt : Text → Bytes → Result Bytes
  -- `recoverMessageAddress({ message: { raw }, signature })`
  pub recover_message_address : Text → Text → Result Text
  -- `privateKeyToAccount(key).signMessage({ message: { raw } })`
  pub sign_message : Text → Text → Result Text
  pub syntax_error : Text → JsError

-- `process.env`, as far as the handlers read it.
pub record Env : Type 0 where
  pub tee_ecies_privkey : Option Text
  pub tee_signer_privkey : Option Text

-- A variable that is set, and not empty.
abbrev pub configured : Option Text → Option Text
configured (some (c ∷ s)) = some (c ∷ s)
configured _ = none

abbrev keys_missing : Text
keys_missing = text "TEE keys not configured (TEE_ECIES_PRIVKEY / TEE_SIGNER_PRIVKEY)"

-- The parties that may ask for a signature, in lower case.
unfoldable pub permitted : Bool → StreamTerms → List Text
permitted settles t =
    if settles then lower t.employer ∷ [] else lower t.recipient ∷ lower t.employer ∷ []

-- The distance in time between the request and the enclave's clock.
abbrev pub skew : ℤ → ℤ → ℤ
skew issued_at now = if ltb_ℤ now issued_at then issued_at -ℤ now else now -ℤ issued_at

-- The terms as hex and as decoded.
pub record Opened : Type 0 where
  pub terms_hex : Text
  pub terms : StreamTerms

module _ (e : Enclave) where
  -- The argument of `decrypt`, and its result as hex, inside the `try`.
  abbrev pub decrypted : Text → AuthRequest → Result Text
  decrypted ecies_key req =
      then_try (hex_to_bytes (some req.encrypted_terms))
        λ sealed. then_try (e.decrypt ecies_key sealed) λ plaintext. ok (bytes_to_hex plaintext)

  -- Step 2: decrypt, and check the commitment.
  unfoldable pub open_terms : Text → AuthRequest → Flow Opened
  open_terms ecies_key req = do
    terms_hex ← attempt (decrypted ecies_key req) (λ _. text "failed to decrypt terms")
    need (text_eq (e.viem.keccak256 terms_hex) (lower req.commitment))
        (text "terms do not match commitment")
    terms ← attempt (decode_terms e.viem terms_hex) (λ _. text "terms blob is malformed")
    next (record { terms_hex = terms_hex; terms = terms })

  -- The challenge that the caller has to have signed.
  abbrev pub challenge : AuthRequest → Text → ℤ → Result Text
  challenge req tag issued_at = then_try (parse_bigint req.chain_id) λ chain_id.
      then_try (parse_bigint req.stream_id) λ stream_id. build_caller_challenge e.viem (record {
        chain_id = chain_id;
        vault = req.vault;
        stream_id = stream_id;
        commitment = req.commitment;
        purpose = tag;
        issued_at = issued_at;
      })

  -- The test of the clock skew.
  unfoldable pub check_skew : ℤ → ℕ → Flow (Unit {0})
  check_skew issued_at now =
      need (not (ltb_ℤ caller_auth_window_seconds (skew issued_at (pos now))))
        (text "caller authorization expired")

  -- The address that signed the challenge.
  abbrev pub recover_caller : AuthRequest → Text → ℤ → Result Text
  recover_caller req tag issued_at =
      then_try (challenge req tag issued_at)
        λ raw. e.recover_message_address raw req.caller_signature

  -- The test of the caller against the permitted parties.
  unfoldable pub check_party : Text → StreamTerms → Text → Flow (Unit {0})
  check_party tag terms caller =
      need (includes (permitted (text_eq tag (settle_tag e.viem)) terms) (lower caller))
        (text "caller is not a party to this stream")

  -- Step 2b: authenticate the caller against the parties named in the terms.
  unfoldable pub authenticate : AuthRequest → Text → StreamTerms → ℕ → Flow (Unit {0})
  authenticate req tag terms now = do
    issued_at ←
        attempt (parse_bigint req.issued_at) (λ _. text "issuedAt must be a unix-seconds integer")
    check_skew issued_at now
    caller ← attempt (recover_caller req tag issued_at) (λ _. text "malformed caller signature")
    check_party tag terms caller

  -- The parameters of the digest that is signed.
  abbrev pub auth_params : AuthRequest → Text → StreamTerms → ℕ → ℤ → ℤ → AuthParams
  auth_params req tag terms now chain_id stream_id = record {
    tag = tag;
    chain_id = chain_id;
    vault = req.vault;
    stream_id = stream_id;
    commitment = req.commitment;
    cumulative_accrued = accrued_on terms (pos now);
    deadline = pos now +ℤ auth_ttl_seconds;
  }

  -- Steps 3 and 4, up to the signature.
  unfoldable pub sign_auth : Text → AuthRequest → Text → StreamTerms → ℕ → Flow Text
  sign_auth signer_key req tag terms now = do
    chain_id ← call (parse_bigint req.chain_id)
    stream_id ← call (parse_bigint req.stream_id)
    digest ← call (build_auth_digest e.viem (auth_params req tag terms now chain_id stream_id))
    call (e.sign_message signer_key digest)

  -- The object that is answered.
  unfoldable pub response : AuthRequest → Opened → ℕ → Text → Json
  response req opened now signature = obj (
      field (text "streamId") (str req.stream_id) (
        field (text "cumulativeAccrued") (str (int_string (accrued_on opened.terms (pos now)))) (
          field (text "deadline") (str (int_string (pos now +ℤ auth_ttl_seconds))) (
            field (text "signature") (str signature)
              (field (text "terms") (str opened.terms_hex) end)))))

  -- The body of `authorize` up to the object that it answers.
  unfoldable pub authorization : Env → ℕ → Text → Json → Flow Json
  authorization env now tag msg = do
    req ← decode_request e.syntax_error msg
    ecies_key ← present (configured env.tee_ecies_privkey) keys_missing
    signer_key ← present (configured env.tee_signer_privkey) keys_missing
    opened ← open_terms ecies_key req
    authenticate req tag opened.terms now
    signature ← sign_auth signer_key req tag opened.terms now
    next (response req opened now signature)

  -- The end of `authorize`: `authCount++` and the answer, where the body got so far.
  abbrev pub finish : Flow Json → ℕ → Outcome × ℕ
  finish (next body) auth_count = (ok (success (to_hex_json body)), auth_count + 1)
  finish (halt outcome) auth_count = (outcome, auth_count)

  -- `authorize`, at the time `now` in seconds; the state is `authCount`.
  unfoldable pub authorize : Env → ℕ → Text → Json → ℕ → Outcome × ℕ
  authorize env now tag msg auth_count = finish (authorization env now tag msg) auth_count
