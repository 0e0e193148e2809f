-- ===== src/Link/Body.antt =====
-- The body that `buildActionBody` makes, at `processAction` of typescript/src/base/server.ts.
use flare_stealthwage.Prelude.{
  ℕ, zero, suc, ◌/◌, ◌%◌, text_eq, ◌<◌, ◌≡◌, refl, ap, ◌∙◌, some, [], ◌∷◌, ◌++◌, All, Text, text,
  ok, JsError, arith,
}
use flare_stealthwage.Prelude.Utf8.{utf8_encode}
use flare_stealthwage.Encoding.Hex.{Bytes}
use flare_stealthwage.Encoding.RoundTrip.{hex_to_bytes-bytes_to_hex}
use flare_stealthwage.Json.Value.{Json, str, obj, end, field, get, get_field, truthy}
use flare_stealthwage.Json.Print.{stringify}
use flare_stealthwage.Json.Bytes.{value_to_bytes, parsed_or_error, parse_json, parse_bytes}
use flare_stealthwage.Json.Parse.{accepts, next}
use flare_stealthwage.Json.Parse.Decimals.{decimal-IsNumeral}
use flare_stealthwage.Json.WellFormed.{decide_ascii}
use flare_stealthwage.Json.Parse.Characters.{AllUnits, known-AllUnits}
use flare_stealthwage.Json.Parse.Printable.{IsPrintable}
use flare_stealthwage.Json.RoundTrip.{read_json-stringify, parse_bytes-utf8_encode, encoded-IsBytes}
use flare_stealthwage.Client.Action.{
  action_id, char_at, hex_alphabet, repeated, to_hex, hex_pairs, first_32, to_bytes32_hex,
  data_fixed, action_json, build_action_body,
}
use flare_stealthwage.Client.Identifiers.{to_hex-eq-bytes_to_hex}
use flare_stealthwage.Server.Action.{Incoming, fine, member, incoming}

abbrev pub action_data : ℕ → Text → Text → Json → Json
action_data now op_type op_command payload = obj (
    field (text "id") (str action_id) (
      field (text "type") (str (text "instruction")) (
        field (text "submissionTag") (str (text "submit")) (
          field (text "message")
            (str (to_hex (utf8_encode (stringify (data_fixed now op_type op_command payload)))))
            end))))

-- `hexToBytes` of a value's JSON in hex.
pub value_to_bytes-to_hex :
    (v : Json)
    → IsPrintable v
    → value_to_bytes (some (str (to_hex (utf8_encode (stringify v)))))
      ≡ ok (utf8_encode (stringify v))
unfolding value_to_bytes
value_to_bytes-to_hex v p =
    let good = encoded-IsBytes v p in
    rw (to_hex-eq-bytes_to_hex (utf8_encode (stringify v)) good)
      (hex_to_bytes-bytes_to_hex (utf8_encode (stringify v)) good)

char_at-ascii : (n : ℕ) (s : Text) → All (λ c. c < 128) s → char_at n s < 128
unfolding char_at
char_at-ascii n [] h = omega arith
char_at-ascii zero (c ∷ s) h = h.0
char_at-ascii (suc n) (c ∷ s) h = char_at-ascii n s h.1

hex_pairs-AllUnits : (bytes : Bytes) → AllUnits (hex_pairs bytes)
unfolding hex_pairs text
hex_pairs-AllUnits [] = tt
hex_pairs-AllUnits (b ∷ bytes) = (
  omega (arith, char_at-ascii (b / 16) hex_alphabet (decide_ascii hex_alphabet refl)),
  (
    omega (arith, char_at-ascii (b % 16) hex_alphabet (decide_ascii hex_alphabet refl)),
    hex_pairs-AllUnits bytes,
  ),
)

to_hex-AllUnits : (bytes : Bytes) → AllUnits (to_hex bytes)
unfolding to_hex text
to_hex-AllUnits bytes = (omega arith, (omega arith, hex_pairs-AllUnits bytes))

pub data_fixed-IsPrintable :
    (now : ℕ) (op_type op_command : Text) (payload : Json)
    → IsPrintable (data_fixed now op_type op_command payload)
unfolding data_fixed IsPrintable to_bytes32_hex repeated text text_eq get_field accepts next
data_fixed-IsPrintable now op_type op_command payload = (
  (
    known-AllUnits (text "instructionId") refl,
    known-AllUnits action_id refl,
    (
      known-AllUnits (text "teeId") refl,
      known-AllUnits (text "0x" ++ repeated 20 (text "22")) refl,
      (
        known-AllUnits (text "timestamp") refl,
        decimal-IsNumeral now,
        (
          known-AllUnits (text "rewardEpochId") refl,
          refl,
          (
            known-AllUnits (text "opType") refl,
            to_hex-AllUnits (first_32 (utf8_encode op_type)),
            (
              known-AllUnits (text "opCommand") refl,
              to_hex-AllUnits (first_32 (utf8_encode op_command)),
              (
                known-AllUnits (text "cosigners") refl,
                tt,
                (
                  known-AllUnits (text "cosignersThreshold") refl,
                  refl,
                  (
                    known-AllUnits (text "originalMessage") refl,
                    to_hex-AllUnits (utf8_encode (stringify payload)),
                    (
                      known-AllUnits (text "additionalFixedMessage") refl,
                      known-AllUnits (text "0x") refl,
                      tt,
                    ),
                  ),
                ),
              ),
            ),
          ),
        ),
      ),
    ),
  ),
  (refl, (refl, (refl, (refl, (refl, (refl, (refl, (refl, (refl, (refl, tt)))))))))),
)

action_json-IsPrintable :
    (now : ℕ) (op_type op_command : Text) (payload : Json)
    → IsPrintable (action_json now op_type op_command payload)
unfolding action_json IsPrintable repeated text text_eq get_field
action_json-IsPrintable now op_type op_command payload = (
  (
    known-AllUnits (text "data") refl,
    (
      (
        known-AllUnits (text "id") refl,
        known-AllUnits action_id refl,
        (
          known-AllUnits (text "type") refl,
          known-AllUnits (text "instruction") refl,
          (
            known-AllUnits (text "submissionTag") refl,
            known-AllUnits (text "submit") refl,
            (
              known-AllUnits (text "message") refl,
              to_hex-AllUnits (utf8_encode (stringify (data_fixed now op_type op_command payload))),
              tt,
            ),
          ),
        ),
      ),
      (refl, (refl, (refl, (refl, tt)))),
    ),
    (
      known-AllUnits (text "additionalVariableMessages") refl,
      tt,
      (
        known-AllUnits (text "timestamps") refl,
        tt,
        (
          known-AllUnits (text "additionalActionData") refl,
          known-AllUnits (text "0x") refl,
          (known-AllUnits (text "signatures") refl, tt, tt),
        ),
      ),
    ),
  ),
  (refl, (refl, (refl, (refl, (refl, tt))))),
)

-- What `processAction` reads in a body of `buildActionBody`.
abbrev pub sent : ℕ → Text → Text → Json → Incoming
sent now op_type op_command payload = record {
  action_data = action_data now op_type op_command payload;
  fixed = data_fixed now op_type op_command payload;
  op_type = str (to_bytes32_hex op_type);
}

message_of :
    (now : ℕ) (op_type op_command : Text) (payload : Json)
    → get (text "message") (action_data now op_type op_command payload)
      ≡ some (str (to_hex (utf8_encode (stringify (data_fixed now op_type op_command payload)))))
unfolding get get_field text text_eq repeated
message_of now op_type op_command payload = refl

-- How `incoming` goes where no step fails.
incoming_steps :
    (syntax_error : Text → JsError) (body : Text) {action inner fixed op_type : Json}
    {bytes : Bytes}
    → parse_json syntax_error body ≡ ok action
    → member (text "data") action (text "invalid action structure: missing data") ≡ fine inner
    → value_to_bytes (get (text "message") inner) ≡ ok bytes
    → parse_bytes syntax_error bytes ≡ ok fixed
    → member (text "opType") fixed (text "invalid DataFixed: missing opType") ≡ fine op_type
    → incoming syntax_error body
      ≡ fine (record { action_data = inner; fixed = fixed; op_type = op_type })
unfolding incoming
incoming_steps syntax_error body action_read data_there bytes_read fixed_read op_there =
    rw (action_read, data_there, bytes_read, fixed_read, op_there) refl

parse_json-stringify :
    (syntax_error : Text → JsError) (v : Json)
    → IsPrintable v
    → parse_json syntax_error (stringify v) ≡ ok v
unfolding parse_json
parse_json-stringify syntax_error v p =
    ap (parsed_or_error syntax_error (stringify v)) (read_json-stringify v p)

data_there :
    (now : ℕ) (op_type op_command : Text) (payload : Json) (reason : Text)
    → member (text "data") (action_json now op_type op_command payload) reason
      ≡ fine (action_data now op_type op_command payload)
unfolding action_json get get_field text text_eq truthy
data_there now op_type op_command payload reason = refl

op_type_there :
    (now : ℕ) (op_type op_command : Text) (payload : Json) (reason : Text)
    → member (text "opType") (data_fixed now op_type op_command payload) reason
      ≡ fine (str (to_bytes32_hex op_type))
unfolding data_fixed get get_field text text_eq truthy to_bytes32_hex to_hex
op_type_there now op_type op_command payload reason = refl

-- The server reads every body that the client builds: it takes the `DataFixed` that the client
-- made, under its operation, and reports no error, whatever the operation and the payload.
pub incoming-build_action_body :
    (syntax_error : Text → JsError) (now : ℕ) (op_type op_command : Text) (payload : Json)
    → incoming syntax_error (build_action_body now op_type op_command payload)
      ≡ fine (sent now op_type op_command payload)
unfolding build_action_body
incoming-build_action_body syntax_error now op_type op_command payload =
    let fixed = data_fixed now op_type op_command payload in
    let fixed-IsPrintable = data_fixed-IsPrintable now op_type op_command payload in
    let action = action_json now op_type op_command payload in
    incoming_steps syntax_error (stringify action)
      (parse_json-stringify syntax_error action
        (action_json-IsPrintable now op_type op_command payload))
      (data_there now op_type op_command payload _)
      (ap value_to_bytes (message_of now op_type op_command payload)
        ∙ value_to_bytes-to_hex fixed fixed-IsPrintable)
      (parse_bytes-utf8_encode syntax_error fixed fixed-IsPrintable)
      (op_type_there now op_type op_command payload _)
