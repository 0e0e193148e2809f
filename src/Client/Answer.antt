-- ===== src/Client/Answer.antt =====
-- `requestAuthorization` of frontend/lib/enclave.ts: the call of the enclave, and what becomes of
-- its answer.
use flare_stealthwage.Prelude.{
  ℕ, Bool, [], ◌∷◌, ◌++◌, drop, ◌==◌, ◌||◌, Option, none, some, if◌then◌else◌, Text, text, decimal,
  Result, ok, throw, JsError, type_error, then_try,
}
use flare_stealthwage.Prelude.Utf8.{text_decode}
use flare_stealthwage.Prelude.Strings.{starts_with, trim_start}
use flare_stealthwage.Encoding.Hex.{Bytes}
use flare_stealthwage.Json.Value.{Json, str, obj, end, field}
use flare_stealthwage.Json.Bytes.{parse_json}
use flare_stealthwage.Client.Numbers.{parse_int_hex, to_uint8}
use flare_stealthwage.Client.Action.{build_action_body}

-- `EnclaveFailure`
pub data EnclaveFailure : Type 0 where
  unreachable rejected : Text → EnclaveFailure

-- The result; an answer's body is the JSON value that is taken for an `Authorization`.
pub data Answer : Type 0 where
  granted : Json → Answer
  failed : EnclaveFailure → Answer

-- The argument of `requestAuthorization`.
pub record AuthorizationRequest : Type 0 where
  pub stream_id : Text
  pub vault : Text
  pub chain_id : Text
  pub commitment : Text
  pub encrypted_terms : Text
  pub issued_at : Text
  pub caller_signature : Text
  pub command : Text

-- `const { command, ...payload } = req`
unfoldable pub payload_of : AuthorizationRequest → Json
payload_of req = obj (
    field (text "streamId") (str req.stream_id) (
      field (text "vault") (str req.vault) (
        field (text "chainId") (str req.chain_id) (
          field (text "commitment") (str req.commitment) (
            field (text "encryptedTerms") (str req.encrypted_terms) (
              field (text "issuedAt") (str req.issued_at)
                (field (text "callerSignature") (str req.caller_signature) end)))))))

-- The body of a response, at the type that it is cast to.
pub record Body : Type 0 where
  pub status : ℕ
  pub payload : Text
  pub log : Option Text

-- A response; `json` is what `res.json()` resolves to, or the error it is rejected with.
pub record Response : Type 0 where
  pub succeeded : Bool
  pub status : ℕ
  pub json : Result Body

-- A character that `.` does not match.
abbrev pub ends_line : ℕ → Bool
ends_line c = c == 10 || c == 13 || c == 0x2028 || c == 0x2029

-- `s.match(/.{2}/g)`, with the pairs as bytes; no match at all is [].
unfoldable pub matched_pairs : Text → Bytes
matched_pairs [] = []
matched_pairs (a ∷ []) = []
matched_pairs (a ∷ b ∷ s) =
    let after = matched_pairs s in
    let skipping = matched_pairs (b ∷ s) in
    if ends_line a || ends_line b then skipping else to_uint8 (parse_int_hex (a ∷ b ∷ [])) ∷ after

-- The bytes of `body.data`; without a match, `match` gives `null`.
unfoldable pub bytes_or_error : Bytes → Result Bytes
bytes_or_error [] = throw (type_error (text "Cannot read properties of null (reading 'map')"))
bytes_or_error (b ∷ bytes) = ok (b ∷ bytes)

unfoldable pub payload_text : Text → Result Text
payload_text digits =
    then_try (bytes_or_error (matched_pairs (drop 2 digits))) λ bytes. ok (text_decode bytes)

abbrev pub text_or_nothing : Option Text → Text
text_or_nothing (some s) = s
text_or_nothing none = []

-- `log.replace(/^error:\s*/, "")`
unfoldable pub without_error_prefix : Text → Text
without_error_prefix log = if starts_with (text "error:") log then trim_start (drop 6 log) else log

abbrev pub or_refused : Text → Text
or_refused [] = text "authorization refused"
or_refused (c ∷ s) = c ∷ s

-- `detail || "authorization refused"`
unfoldable pub refusal_detail : Option Text → Text
unfolding without_error_prefix
refusal_detail log = or_refused (without_error_prefix (text_or_nothing log))

module _ (syntax_error : Text → JsError) where
  unfoldable pub read_body : Body → Result Answer
  read_body body =
      if body.status == 1
      then then_try (payload_text body.payload)
          (λ json. then_try (parse_json syntax_error json) λ auth. ok (granted auth))
      else ok (failed (rejected (refusal_detail body.log)))

  unfoldable pub read_response : Response → Result Answer
  unfolding read_body
  read_response res =
      if res.succeeded
      then then_try res.json read_body
      else ok (failed (unreachable (text "HTTP " ++ decimal res.status)))

  abbrev pub answered : Result Response → Result Answer
  answered (throw e) = ok (failed (unreachable e.message))
  answered (ok res) = read_response res

  -- `requestAuthorization`; `post` sends a body to the enclave's /action, at the time `now`.
  unfoldable pub request_authorization :
      (Text → Result Response) → ℕ → AuthorizationRequest → Result Answer
  unfolding read_response
  request_authorization post now req =
      answered (post (build_action_body now (text "STREAM") req.command (payload_of req)))
