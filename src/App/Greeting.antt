-- ===== src/App/Greeting.antt =====
-- `handleSayHello` and `handleSayGoodbye` of typescript/src/app/handlers.ts, with the decoder of
-- typescript/src/app/abi.ts.
use flare_stealthwage.Prelude.{
  ◌+◌, Option, some, List, [], ◌∷◌, ◌++◌, Text, text, decimal, Result, ok, throw, JsError,
  plain_error, error_string, then_try,
}
use flare_stealthwage.Prelude.Sorting.{sort, without}
use flare_stealthwage.Encoding.Hex.{bytes_to_hex}
use flare_stealthwage.Json.Value.{Json, num, str, obj, end, field, get_field, keys, as_string}
use flare_stealthwage.Json.Bytes.{value_to_bytes, parse_bytes, to_hex_json}
use flare_stealthwage.Handler.{Outcome, success, Flow, next, halt, ◌>>=◌, ◌>>◌, refuse, attempt}
use flare_stealthwage.Protocol.Viem.{Viem, AbiType, tuple2, string, AbiValue, pair}
use flare_stealthwage.Stream.Request.{object_fields, no_unknown}
use flare_stealthwage.App.State.{State}

-- `decoding request: ${String(e)}`
abbrev decode_failed : JsError → Text
decode_failed x = text "decoding request: " ++ error_string x

-- `decoding request: invalid hex: ${String(e)}`
abbrev bad_hex : JsError → Text
bad_hex x = text "decoding request: invalid hex: " ++ error_string x

-- A name that is a text and not empty.
abbrev pub nonempty : Option Text → Flow Text
nonempty (some (c ∷ s)) = next (c ∷ s)
nonempty _ = refuse (text "name must not be empty")

-- The name that `handleSayHello` decodes and validates.
unfoldable pub hello_name : (Text → JsError) → Json → Flow Text
hello_name syntax_error msg = do
  raw ← attempt (value_to_bytes (some msg)) bad_hex
  req ← attempt (parse_bytes syntax_error raw) decode_failed
  fs ← object_fields req
  no_unknown (sort (without (text "name" ∷ []) (keys fs)))
  nonempty (as_string (get_field (text "name") fs))

unfoldable pub greeting_for : Text → Text
greeting_for name = text "Hello, " ++ (name ++ text "! Welcome to Flare Confidential Compute.")

-- Steps 3 and 4 of `handleSayHello`, where it got so far.
abbrev pub greet : Flow Text → State → Outcome × State
greet (halt outcome) s = (outcome, s)
greet (next name) s = (
  ok (
      success (
        to_hex_json (
          obj (
            field (text "greeting") (str (greeting_for name))
              (field (text "greetingNumber") (num (decimal (s.greeting_count + 1))) end))))),
  record s { greeting_count = s.greeting_count + 1; last_greeting = greeting_for name },
)

-- `handleSayHello`
unfoldable pub handle_say_hello : (Text → JsError) → Json → State → Outcome × State
handle_say_hello syntax_error msg s = greet (hello_name syntax_error msg) s

-- `SayGoodbyeMessage`
pub record SayGoodbyeMessage : Type 0 where
  pub name : Text
  pub reason : Text

-- `SAY_GOODBYE_PARAMS`
abbrev pub say_goodbye_params : List AbiType
say_goodbye_params = tuple2 string string ∷ []

-- The destructuring of the decoded tuple; the decoder gives a value of its type.
abbrev pub message_of : List AbiValue → Result SayGoodbyeMessage
message_of (pair (AbiValue.str name) (AbiValue.str reason) ∷ []) =
    ok (record { name = name; reason = reason })
message_of _ = throw (plain_error (text "decoded values do not fit"))

abbrev abi_failed : Result SayGoodbyeMessage → Result SayGoodbyeMessage
abi_failed (ok m) = ok m
abi_failed (throw x) = throw (plain_error (text "ABI decode failed: " ++ x.message))

-- `decodeSayGoodbye`
unfoldable pub decode_say_goodbye : Viem → Text → Result SayGoodbyeMessage
decode_say_goodbye v code = abi_failed (then_try (v.decode_abi say_goodbye_params code) message_of)

-- `if (!decoded.name)`
abbrev pub named : SayGoodbyeMessage → Flow SayGoodbyeMessage
named m = do _ ← nonempty (some m.name); next m

-- The message that `handleSayGoodbye` decodes and validates.
unfoldable pub goodbye_message : Viem → Json → Flow SayGoodbyeMessage
goodbye_message v msg = do
  raw ← attempt (value_to_bytes (some msg)) bad_hex
  decoded ←
      attempt (decode_say_goodbye v (bytes_to_hex raw))
        (λ x. text "decoding request: " ++ x.message)
  named decoded

unfoldable pub farewell_for : SayGoodbyeMessage → Text
farewell_for m = text "Goodbye, " ++ (m.name ++ (text "! Reason: " ++ m.reason))

-- Steps 3 and 4 of `handleSayGoodbye`, where it got so far.
abbrev pub part : Flow SayGoodbyeMessage → State → Outcome × State
part (halt outcome) s = (outcome, s)
part (next m) s = (
  ok (
      success (
        to_hex_json (
          obj (
            field (text "farewell") (str (farewell_for m))
              (field (text "farewellNumber") (num (decimal (s.farewell_count + 1))) end))))),
  record s { farewell_count = s.farewell_count + 1; last_farewell = farewell_for m },
)

-- `handleSayGoodbye`
unfoldable pub handle_say_goodbye : Viem → Json → State → Outcome × State
handle_say_goodbye v msg s = part (goodbye_message v msg) s
