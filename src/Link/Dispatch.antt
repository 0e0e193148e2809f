-- ===== src/Link/Dispatch.antt =====
-- The client's body, through the server and the registry, to `authorize`.
use flare_stealthwage.Prelude.{
  ℕ, Result, JsError, List, sym, ◌≡◌, refl, ◌∙◌, some, [], ok, Text, text, text_eq, lower,
}
use flare_stealthwage.Prelude.Utf8.{utf8_encode}
use flare_stealthwage.Prelude.Strings.{starts_with}
use flare_stealthwage.Json.Value.{Json, str, get, get_field, truthy}
use flare_stealthwage.Json.Print.{stringify}
use flare_stealthwage.Handler.{Outcome}
use flare_stealthwage.Framework.Registry.{
  Entry, lookup_value, normalize_value, normalize, prefixed, select, find,
}
use flare_stealthwage.Client.Action.{
  to_hex, hex_pairs, char_at, to_bytes32_hex, first_32, data_fixed, build_action_body,
}
use flare_stealthwage.Client.Answer.{AuthorizationRequest, payload_of}
use flare_stealthwage.Server.Action.{Reply, Handlers, coalesce, replied, process_action}
use flare_stealthwage.Protocol.Digests.{withdraw_tag, settle_tag}
use flare_stealthwage.Stream.Authorize.{Enclave, Env}
use flare_stealthwage.App.State.{State}
use flare_stealthwage.App.Registry.{version, Handler, stream_handler, register}
use flare_stealthwage.App.Dispatch.{table, register-eq-table, ok_injective}
use flare_stealthwage.Link.Body.{sent, incoming-build_action_body}
use flare_stealthwage.Link.Request.{message}

withdraw_found :
    (e : Enclave) (env : Env) (now : ℕ)
    → lookup_value
        (str (to_bytes32_hex (text "STREAM")))
        (str (to_bytes32_hex (text "AUTH_WITHDRAW")))
        (table e env now)
      ≡ ok (some (stream_handler e env now (withdraw_tag e.viem)))
unfolding lookup_value normalize_value normalize prefixed starts_with lower select find text text_eq
    to_bytes32_hex to_hex hex_pairs char_at first_32 utf8_encode truthy
withdraw_found e env now = refl

settle_found :
    (e : Enclave) (env : Env) (now : ℕ)
    → lookup_value
        (str (to_bytes32_hex (text "STREAM")))
        (str (to_bytes32_hex (text "AUTH_SETTLE")))
        (table e env now)
      ≡ ok (some (stream_handler e env now (settle_tag e.viem)))
unfolding lookup_value normalize_value normalize prefixed starts_with lower select find text text_eq
    to_bytes32_hex to_hex hex_pairs char_at first_32 utf8_encode truthy
settle_found e env now = refl

command_sent :
    (sent_at : ℕ) (op_type op_command : Text) (payload : Json)
    → coalesce (get (text "opCommand") (data_fixed sent_at op_type op_command payload)) (str [])
      ≡ str (to_bytes32_hex op_command)
unfolding data_fixed get get_field text text_eq
command_sent sent_at op_type op_command payload = refl

message_sent :
    (sent_at : ℕ) (op_type op_command : Text) (payload : Json)
    → coalesce
        (get (text "originalMessage") (data_fixed sent_at op_type op_command payload))
        (str (text "0x"))
      ≡ str (to_hex (utf8_encode (stringify payload)))
unfolding data_fixed get get_field text text_eq
message_sent sent_at op_type op_command payload = refl

-- A body that the client builds for an operation that has a handler runs that handler on the bytes
-- of the payload.
process_action-sent :
    {S : Type 0} (syntax_error : Text → JsError) (version : Text) (handlers : Handlers S)
    (sent_at : ℕ) (op_type op_command : Text) (payload : Json) (s : S) {h : Json → S → Outcome × S}
    → lookup_value (str (to_bytes32_hex op_type)) (str (to_bytes32_hex op_command)) handlers
      ≡ ok (some h)
    → process_action syntax_error version handlers
        (build_action_body sent_at op_type op_command payload)
        s
      ≡ replied syntax_error version
          (sent sent_at op_type op_command payload)
          (h (str (to_hex (utf8_encode (stringify payload)))) s)
unfolding process_action
process_action-sent syntax_error version handlers sent_at op_type op_command payload s found =
    rw
      (
        incoming-build_action_body syntax_error sent_at op_type op_command payload,
        command_sent sent_at op_type op_command payload,
        found,
        message_sent sent_at op_type op_command payload,
      )
      refl

module _ (e : Enclave) (env : Env) (now sent_at : ℕ) (req : AuthorizationRequest) (s : State) where
  -- The answer to a command whose handler has the tag `tag`.
  abbrev pub answer : Text → Text → Result Reply × State
  answer command tag =
      replied e.syntax_error version (sent sent_at (text "STREAM") command (payload_of req))
        (stream_handler e env now tag (message req) s)

  -- The request under a command, at a server with these handlers.
  abbrev pub run : List (Entry Handler) → Text → Result Reply × State
  run handlers command =
      process_action e.syntax_error version handlers
        (build_action_body sent_at (text "STREAM") command (payload_of req)) s

  -- The dashboard's two commands, through the extension: the server, with the handlers that
  -- `register` registers, answers the body of "AUTH_WITHDRAW" with what `authorize` returns under the
  -- tag of a withdrawal on the message that was sent, and the body of "AUTH_SETTLE" with what it
  -- returns under the tag of a settlement.
  pub process_action-authorize :
      (handlers : List (Entry Handler))
      → register e env now [] ≡ ok handlers
      → (run handlers (text "AUTH_WITHDRAW") ≡ answer (text "AUTH_WITHDRAW") (withdraw_tag e.viem))
        × (run handlers (text "AUTH_SETTLE") ≡ answer (text "AUTH_SETTLE") (settle_tag e.viem))
  process_action-authorize handlers registered =
      rw (← ok_injective (sym (register-eq-table e env now) ∙ registered)) (
        process_action-sent e.syntax_error version (table e env now) sent_at (text "STREAM")
            (text "AUTH_WITHDRAW") (payload_of req) s (withdraw_found e env now),
        process_action-sent e.syntax_error version (table e env now) sent_at (text "STREAM")
            (text "AUTH_SETTLE") (payload_of req) s (settle_found e env now),
      )
