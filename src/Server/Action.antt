-- ===== src/Server/Action.antt =====
-- `handleRequest`, `processAction` and `processState` of typescript/src/base/server.ts, for a
-- registry of handlers over any state.
use flare_stealthwage.Prelude.{
  ℕ, zero, suc, Option, none, some, List, [], ◌∷◌, ◌++◌, ◌==◌, if◌then◌else◌, Text, text, text_eq,
  decimal, Result, ok, throw, JsError, error_string,
}
use flare_stealthwage.Json.Value.{
  Json, null, num, str, obj, Fields, end, field, get, truthy, is_object,
}
use flare_stealthwage.Json.Bytes.{value_to_bytes, parse_json, parse_bytes}
use flare_stealthwage.Handler.{HandlerResult, Outcome}
use flare_stealthwage.Framework.Registry.{Entry, lookup_value}

-- What is answered: a plain text, or a value that is sent as JSON.
pub data Payload : Type 0 where
  plain : Text → Payload
  json : Json → Payload

-- `[status, payload]`
abbrev pub Reply : Type 0
Reply = ℕ × Payload

-- `{ error: reason }`
abbrev pub error_body : Text → Payload
error_body reason = json (obj (field (text "error") (str reason) end))

abbrev pub bad_request : Text → Reply
bad_request reason = (400, error_body reason)

-- The text before the first "?".
unfoldable pub clean_path : Text → Text
clean_path [] = []
clean_path (c ∷ s) = if c == b'?' then [] else c ∷ clean_path s

-- `v ?? d`
abbrev pub coalesce : Option Json → Json → Json
coalesce none d = d
coalesce (some null) d = d
coalesce (some v) d = v

-- A property of an object literal, which `JSON.stringify` leaves out where it is `undefined`.
abbrev pub optional_field : Text → Option Json → Fields → Fields
optional_field k none fs = fs
optional_field k (some v) fs = field k v fs

-- The `log` of an action result; an empty error counts as none.
unfoldable pub log_text : ℕ → Option Text → Text
log_text zero (some (c ∷ s)) = text "error: " ++ (c ∷ s)
log_text zero _ = text "error: unknown"
log_text (suc zero) _ = text "ok"
log_text (suc (suc n)) _ = text "pending"

abbrev pub text_or : Option Text → Text → Text
text_or (some s) d = s
text_or none d = d

-- The action that a body holds, or the reason why it holds none.
pub data Parsed {ℓ} (A : Type ℓ) : Type ℓ where
  fine : A → Parsed A
  bad : Text → Parsed A

infixl 5 ◌>>=◌
abbrev pub ◌>>=◌ {ℓ κ} : {A : Type ℓ} {B : Type κ} → Parsed A → (A → Parsed B) → Parsed B
fine a >>= f = f a
bad reason >>= f = bad reason

abbrev pub parsed {ℓ} : {A : Type ℓ} → Result A → Text → Parsed A
parsed (ok a) prefix = fine a
parsed (throw x) prefix = bad (prefix ++ error_string x)

abbrev pub truthy_or : Option Json → Text → Parsed Json
truthy_or none reason = bad reason
truthy_or (some v) reason = if truthy v then fine v else bad reason

-- The property `key` of a value that is an object, if it is truthy.
abbrev pub member : Text → Json → Text → Parsed Json
member key v reason = if is_object v then truthy_or (get key v) reason else bad reason

-- `action.data`, and the `DataFixed` in its message.
pub record Incoming : Type 0 where
  pub action_data : Json
  pub fixed : Json
  pub op_type : Json

-- The part of `processAction` up to the lookup.
unfoldable pub incoming : (Text → JsError) → Text → Parsed Incoming
incoming syntax_error body = do
  action ← parsed (parse_json syntax_error body) (text "invalid action JSON: ")
  action_data ← member (text "data") action (text "invalid action structure: missing data")
  bytes ←
      parsed (value_to_bytes (get (text "message") action_data)) (text "invalid hex in message: ")
  fixed ← parsed (parse_bytes syntax_error bytes) (text "invalid DataFixed JSON in message: ")
  op_type ← member (text "opType") fixed (text "invalid DataFixed: missing opType")
  fine (record { action_data = action_data; fixed = fixed; op_type = op_type })

-- The action result, with its properties in the order of the Go struct.
unfoldable pub action_result : Text → Incoming → HandlerResult → Json
action_result version i r = obj (
    optional_field (text "id") (get (text "id") i.action_data) (
      optional_field (text "submissionTag") (get (text "submissionTag") i.action_data) (
        field (text "status") (num (decimal r.status)) (
          field (text "log") (str (log_text r.status r.error)) (
            field (text "opType") i.op_type (
              optional_field (text "opCommand") (get (text "opCommand") i.fixed) (
                field (text "additionalResultStatus") (str (text "0x")) (
                  field (text "version") (str version)
                    (field (text "data") (str (text_or r.payload (text "0x"))) end)))))))))

-- A registry's handlers.
abbrev pub Handlers : Type 0 → Type 0
Handlers S = List (Entry (Json → S → Outcome × S))

module _ {S : Type 0} (syntax_error : Text → JsError) (version : Text) where
  -- The answer to an action, given how its handler ended.
  abbrev pub replied : Incoming → Outcome × S → Result Reply × S
  replied i (ok r, s) = (ok (200, json (action_result version i r)), s)
  replied i (throw x, s) = (throw x, s)

  -- The call of the handler that was found.
  abbrev pub dispatched : Incoming → Result (Option (Json → S → Outcome × S)) → S → Result Reply × S
  dispatched i (throw x) s = (throw x, s)
  dispatched i (ok none) s = (ok (501, plain (text "unsupported op type")), s)
  dispatched i (ok (some handler)) s =
      replied i (handler (coalesce (get (text "originalMessage") i.fixed) (str (text "0x"))) s)

  abbrev pub processed : Handlers S → Parsed Incoming → S → Result Reply × S
  processed handlers (bad reason) s = (ok (bad_request reason), s)
  processed handlers (fine i) s =
      dispatched i
        (lookup_value i.op_type (coalesce (get (text "opCommand") i.fixed) (str [])) handlers) s

  -- `processAction`; a rejected promise is an error.
  unfoldable pub process_action : Handlers S → Text → S → Result Reply × S
  process_action handlers body s = processed handlers (incoming syntax_error body) s

  -- `processState`
  unfoldable pub process_state : Text → (S → Json) → S → Reply
  process_state state_version_hex report s = (
    200,
    json (
        obj (
          field (text "stateVersion") (str state_version_hex)
            (field (text "state") (report s) end))),
  )

  -- `handleRequest`
  unfoldable pub handle_request :
      Handlers S → Text → (S → Json) → Text → Text → Text → S → Result Reply × S
  handle_request handlers state_version_hex report method path body s =
      let clean = clean_path path in
      if text_eq clean (text "/action")
      then (if text_eq method (text "POST")
          then process_action handlers body s
          else (ok (405, plain (text "method not allowed")), s))
      else if text_eq clean (text "/state")
      then (if text_eq method (text "GET")
          then (ok (process_state state_version_hex report s), s)
          else (ok (405, plain (text "method not allowed")), s))
      else (ok (404, plain (text "not found")), s)
