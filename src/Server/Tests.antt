-- ===== src/Server/Tests.antt =====
-- The server with one handler, at a concrete request.
use flare_stealthwage.Prelude.{
  false, ◌≤◌, true, none, arith, ℕ, ◌+◌, ◌≡◌, refl, some, [], ◌∷◌, Text, text, text_eq, lower, ok,
  throw, plain_error, decimal,
}
use flare_stealthwage.Prelude.Strings.{hex_value, trim, starts_with}
use flare_stealthwage.Prelude.Utf8.{utf8_encode, utf8_decode}
use flare_stealthwage.Encoding.Hex.{
  hex_to_bytes, bytes_to_hex, digits_to_bytes, strip_prefix, is_odd, all_hex, pairs, hex_digits,
  hex_digit,
}
use flare_stealthwage.Json.Value.{
  Json, num, str, obj, Fields, end, field, get, get_field, set_field, truthy,
}
use flare_stealthwage.Json.Print.{stringify, quote}
use flare_stealthwage.Json.Parse.{read_json}
use flare_stealthwage.Json.Bytes.{value_to_bytes, parse_json, parse_bytes, to_hex_json}
use flare_stealthwage.Handler.{Outcome, success}
use flare_stealthwage.Framework.Registry.{
  lookup_value, normalize_value, normalize, prefixed, empty_bytes32, find, select,
}
use flare_stealthwage.Server.Action.{
  Handlers, Incoming, fine, incoming, json, action_result, coalesce, process_action, handle_request,
}
use flare_stealthwage.Server.Queue.{
  is_started, Job, settle, await, settled, Loop, serialize, set_promise, is_settled, idle, step,
  Reach, opening, arrival, progress,
}
use flare_stealthwage.Server.Serial.{Reach-ordered}
use flare_stealthwage.Server.Progress.{GoesOn, Reach-GoesOn}
use flare_stealthwage.Server.Outcomes.{Keeps, handle_request-Keeps, process_action_lem}

-- The handler answers "0x01" and counts.
abbrev count : Json → ℕ → Outcome × ℕ
count msg n = (ok (success (text "0x01")), n + 1)

abbrev handlers : Handlers ℕ
handlers = record { op_type = text "0x0a"; op_command = empty_bytes32; handler = count } ∷ []

abbrev fixed_fields : Fields
fixed_fields = field (text "opType") (str (text "0x0A")) (
    field (text "opCommand") (str (text "0x0b"))
      (field (text "originalMessage") (str (text "0x7b7d")) end))

abbrev data_fields : Fields
data_fields =
    field (text "id") (str (text "0x01"))
      (field (text "message") (str (to_hex_json (obj fixed_fields))) end)

abbrev body : Text
body = stringify (obj (field (text "data") (obj data_fields) end))

abbrev the_incoming : Incoming
the_incoming = record {
  action_data = obj data_fields;
  fixed = obj fixed_fields;
  op_type = str (text "0x0A");
}

read_body : incoming plain_error body ≡ fine the_incoming
unfolding incoming value_to_bytes parse_json parse_bytes to_hex_json read_json stringify quote get
    get_field set_field truthy hex_to_bytes bytes_to_hex digits_to_bytes strip_prefix is_odd all_hex
    pairs hex_digits hex_digit hex_value trim starts_with utf8_encode utf8_decode text text_eq
    decimal
read_body = refl

found :
    lookup_value
      (str (text "0x0A"))
      (coalesce (get (text "opCommand") (obj fixed_fields)) (str []))
      handlers
    ≡ ok (some count)
unfolding lookup_value normalize_value normalize prefixed empty_bytes32 find select truthy
    starts_with text text_eq lower get get_field hex_digits hex_digit bytes_to_hex
found = refl

process_action_lem_test :
    process_action plain_error (text "0.1.0") handlers body 3
    ≡ (ok (200, json (action_result (text "0.1.0") the_incoming (success (text "0x01")))), 4)
process_action_lem_test =
    process_action_lem plain_error (text "0.1.0") handlers body 3 4 the_incoming count
      (success (text "0x01")) read_body found refl

handle_request-Keeps_example : Keeps plain_error (text "0.1.0") 3 (
    handle_request plain_error
      (text "0.1.0")
      handlers
      (text "0x00")
      (λ n. num (decimal n))
      (text "POST")
      (text "/action?x")
      (text "{}")
      3)
handle_request-Keeps_example =
    handle_request-Keeps plain_error (text "0.1.0") handlers (text "0x00") (λ n. num (decimal n))
      (text "POST") (text "/action?x") (text "{}") 3

-- A job that adds, waits, and adds again; and one that is rejected.
abbrev adding : Job ℕ ℕ
adding = await (λ n. n + 1) (λ n. await (λ m. m + 10) (λ m. settle (ok m)))

abbrev rejected : Job ℕ ℕ
rejected = await (λ n. n + 100) (λ n. settle (throw (plain_error (text "no"))))

-- The loop behind a step for a promise.
abbrev gone : ℕ → Loop ℕ ℕ → Loop ℕ ℕ
gone k l = elim (step k l) [ none ↦ l | some l' ↦ l' ]

-- The second request arrives while the first job waits.
abbrev overlapped : Loop ℕ ℕ
overlapped = serialize adding (gone 0 (serialize rejected (idle 0)))

abbrev second_runs : Loop ℕ ℕ
second_runs = gone 1 (gone 0 (gone 0 overlapped))

overlapped-Reach : Reach 0 overlapped
unfolding serialize step set_promise
overlapped-Reach = arrival adding (progress 0 (arrival rejected opening) refl)

second_runs-Reach : Reach 0 second_runs
unfolding serialize step set_promise
second_runs-Reach = progress 1 (progress 0 (progress 0 overlapped-Reach refl) refl) refl

Reach-ordered_test : is_settled (second_runs.promises 0) ≡ true
unfolding serialize step set_promise
Reach-ordered_test = Reach-ordered 0 second_runs 0 1 second_runs-Reach (omega arith) refl

-- The first job was rejected, and the second runs all the same.
rejected_test : second_runs.promises 0 ≡ settled (throw (plain_error (text "no")))
unfolding serialize step set_promise
rejected_test = refl

-- The second call waits while the first is at its `await`.
Reach-GoesOn_example :
    (is_started (overlapped.promises 1) ≡ false) × ((j : ℕ) × (j ≤ 0) × GoesOn overlapped j)
unfolding serialize step set_promise
Reach-GoesOn_example =
    Reach-GoesOn 0 overlapped 0 1 overlapped-Reach (omega arith) refl (omega arith)
