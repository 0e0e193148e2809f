-- ===== src/Stream/Request.antt =====
-- The request of typescript/src/app/streamHandlers.ts: `AuthRequest`, and step 1 of `authorize`,
-- which reads one.
use flare_stealthwage.Prelude.{some, List, [], ◌∷◌, ◌++◌, Text, text, JsError}
use flare_stealthwage.Prelude.Sorting.{sort, without}
use flare_stealthwage.Json.Value.{Json, obj, Fields, get_field, keys, as_string}
use flare_stealthwage.Json.Bytes.{value_to_bytes, parse_bytes}
use flare_stealthwage.Handler.{Flow, next, ◌>>=◌, ◌>>◌, refuse, attempt, present}

-- `AuthRequest`
pub record AuthRequest : Type 0 where
  pub stream_id : Text
  pub vault : Text
  pub chain_id : Text
  pub commitment : Text
  pub encrypted_terms : Text
  pub issued_at : Text
  pub caller_signature : Text

-- `REQUIRED_FIELDS`
unfoldable pub required_fields : List Text
required_fields =
    text "streamId"
    ∷ text "vault"
    ∷ text "chainId"
    ∷ text "commitment"
    ∷ text "encryptedTerms"
    ∷ text "issuedAt"
    ∷ text "callerSignature"
    ∷ []

abbrev decode_failed : JsError → Text
decode_failed e = text "decoding request: " ++ e.message

-- The test for an object that is neither `null` nor an array.
abbrev pub object_fields : Json → Flow Fields
object_fields (obj fs) = next fs
object_fields _ = refuse (text "decoding request: expected a JSON object")

-- The first field, in the order of `sort`, that is not required.
abbrev pub no_unknown : List Text → Flow (Unit {0})
no_unknown [] = next tt
no_unknown (k ∷ ks) = refuse (text "decoding request: unknown field \"" ++ (k ++ text "\""))

-- One round of the loop over the required fields.
abbrev pub string_field : Text → Fields → Flow Text
string_field f fs =
    present (as_string (get_field f fs))
      (text "decoding request: missing or non-string field \"" ++ (f ++ text "\""))

-- The loop over the required fields, in their order.
unfoldable pub read_fields : Fields → Flow AuthRequest
read_fields fs = do
  stream_id ← string_field (text "streamId") fs
  vault ← string_field (text "vault") fs
  chain_id ← string_field (text "chainId") fs
  commitment ← string_field (text "commitment") fs
  encrypted_terms ← string_field (text "encryptedTerms") fs
  issued_at ← string_field (text "issuedAt") fs
  caller_signature ← string_field (text "callerSignature") fs
  next (record {
    stream_id = stream_id;
    vault = vault;
    chain_id = chain_id;
    commitment = commitment;
    encrypted_terms = encrypted_terms;
    issued_at = issued_at;
    caller_signature = caller_signature;
  })

-- Step 1 of `authorize`.
unfoldable pub decode_request : (Text → JsError) → Json → Flow AuthRequest
decode_request syntax_error msg = do
  raw ← attempt (value_to_bytes (some msg)) decode_failed
  parsed ← attempt (parse_bytes syntax_error raw) decode_failed
  fs ← object_fields parsed
  no_unknown (sort (without required_fields (keys fs)))
  read_fields fs
