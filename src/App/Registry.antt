-- ===== src/App/Registry.antt =====
-- `register` of typescript/src/app/handlers.ts, with `registerStreamHandlers` of streamHandlers.ts
-- and the constants of config.ts. `env` and `now` are what a handler reads while it runs.
use flare_stealthwage.Prelude.{ℕ, List, Text, text, Result, then_try}
use flare_stealthwage.Json.Value.{Json}
use flare_stealthwage.Handler.{Outcome}
use flare_stealthwage.Framework.Registry.{Entry, handle}
use flare_stealthwage.Protocol.Digests.{
  op_type_stream, op_command_auth_withdraw, op_command_auth_settle, withdraw_tag, settle_tag,
}
use flare_stealthwage.Stream.Authorize.{Enclave, Env, authorize}
use flare_stealthwage.App.State.{State}
use flare_stealthwage.App.Greeting.{handle_say_hello, handle_say_goodbye}

abbrev pub version : Text
version = text "0.1.0"

abbrev pub op_type_greeting : Text
op_type_greeting = text "GREETING"

abbrev pub op_command_say_hello : Text
op_command_say_hello = text "SAY_HELLO"

abbrev pub op_command_say_goodbye : Text
op_command_say_goodbye = text "SAY_GOODBYE"

-- `HandlerFunc`, over the extension's state.
abbrev pub Handler : Type 0
Handler = Json → State → Outcome × State

module _ (e : Enclave) (env : Env) (now : ℕ) where
  -- A handler of the stream module, which changes `authCount` alone.
  abbrev pub stream_handler : Text → Handler
  stream_handler tag msg s =
      let (outcome, count) = authorize e env now tag msg s.auth_count in
      (outcome, record s { auth_count = count })

  abbrev pub hello : Handler
  hello = handle_say_hello e.syntax_error

  abbrev pub goodbye : Handler
  goodbye = handle_say_goodbye e.viem

  -- `registerStreamHandlers`
  unfoldable pub register_stream_handlers : List (Entry Handler) → Result (List (Entry Handler))
  register_stream_handlers handlers =
      then_try
        (handle op_type_stream op_command_auth_withdraw (stream_handler (withdraw_tag e.viem))
          handlers)
        (handle op_type_stream op_command_auth_settle (stream_handler (settle_tag e.viem)))

  -- `register`
  unfoldable pub register : List (Entry Handler) → Result (List (Entry Handler))
  unfolding register_stream_handlers
  register handlers = then_try (handle op_type_greeting op_command_say_hello hello handlers) λ hs.
      then_try (handle op_type_greeting op_command_say_goodbye goodbye hs) register_stream_handlers
