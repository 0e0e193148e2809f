-- ===== src/Script/Envelope.antt =====
-- The bodies that typescript/scripts/e2e-coston2.ts (`buildActionBody`) and test-settle.ts
-- (`actionBody`) post to the enclave, which frontend/lib/enclave.ts has to match byte for byte.
use flare_stealthwage.Prelude.{
  ℕ, zero, suc, ◌-◌, ◌<◌, [], ◌∷◌, take, All-append, arith, ◌≤◌, ◌≡◌, refl, sym, ap, ◌++◌, ◌∙◌,
  length, Text, text, decimal, Result, ok, then_try,
}
use flare_stealthwage.Prelude.Utf8.{utf8_encode}
use flare_stealthwage.Prelude.Utf8.Decoding.{utf8_encode-IsBytes}
use flare_stealthwage.Encoding.Hex.{Bytes, zeros, bytes_to_hex, string_to_bytes32_hex}
use flare_stealthwage.Encoding.RoundTrip.{IsBytes}
use flare_stealthwage.Json.Value.{Json, num, str, arr, obj, nil, end, field}
use flare_stealthwage.Json.Print.{stringify}
use flare_stealthwage.Json.Parse.Characters.{AllUnits, known-AllUnits}
use flare_stealthwage.Json.Parse.Printable.{IsPrintable}
use flare_stealthwage.Json.RoundTrip.{encoded-IsBytes}
use flare_stealthwage.Client.Action.{
  repeated, first_32, to_bytes32_hex, to_hex, data_fixed, action_json, build_action_body,
}
use flare_stealthwage.Client.Identifiers.{
  to_hex-eq-bytes_to_hex, string_to_bytes32_hex-eq-to_bytes32_hex,
}
use flare_stealthwage.Link.Body.{data_fixed-IsPrintable}

-- `dataFixed`, with its texts in hex.
unfoldable pub fixed_part : ℕ → Text → Text → Text → Json
fixed_part now op_type op_command original = obj (
    field (text "instructionId") (str (text "0x" ++ repeated 32 (text "11"))) (
      field (text "teeId") (str (text "0x" ++ repeated 20 (text "22"))) (
        field (text "timestamp") (num (decimal now)) (
          field (text "rewardEpochId") (num (text "0")) (
            field (text "opType") (str op_type) (
              field (text "opCommand") (str op_command) (
                field (text "cosigners") (arr nil) (
                  field (text "cosignersThreshold") (num (text "0")) (
                    field (text "originalMessage") (str original)
                      (field (text "additionalFixedMessage") (str (text "0x")) end))))))))))

-- The envelope around the message.
unfoldable pub envelope : Text → Json
envelope message = obj (
    field (text "data")
      (obj (
        field (text "id") (str (text "0x" ++ repeated 32 (text "11"))) (
          field (text "type") (str (text "instruction")) (
            field (text "submissionTag") (str (text "submit"))
              (field (text "message") (str message) end)))))
      (field (text "additionalVariableMessages") (arr nil) (
        field (text "timestamps") (arr nil) (
          field (text "additionalActionData") (str (text "0x"))
            (field (text "signatures") (arr nil) end)))))

-- The hex of a value's JSON.
abbrev pub hex_of : Json → Text
hex_of v = bytes_to_hex (utf8_encode (stringify v))

-- `buildActionBody` of e2e-coston2.ts, which throws on an identifier of more than 32 bytes.
unfoldable pub checked_action_body : ℕ → Text → Text → Json → Result Text
checked_action_body now op_type op_command payload = then_try (string_to_bytes32_hex op_type) λ t.
    then_try (string_to_bytes32_hex op_command)
      λ c. ok (stringify (envelope (hex_of (fixed_part now t c (hex_of payload)))))

-- `stringToBytes32Hex` of test-settle.ts, which cuts a longer identifier.
unfoldable pub cut_bytes32_hex : Text → Text
cut_bytes32_hex s = bytes_to_hex (first_32 (utf8_encode s))

-- `actionBody` of test-settle.ts
unfoldable pub action_body : ℕ → Text → Json → Text
action_body now op_command payload = stringify (
    envelope (
      hex_of (
        fixed_part now (cut_bytes32_hex (text "STREAM")) (cut_bytes32_hex op_command)
          (hex_of payload))))

hex_of-eq-to_hex : (v : Json) → IsPrintable v → hex_of v ≡ to_hex (utf8_encode (stringify v))
hex_of-eq-to_hex v p =
    sym (to_hex-eq-bytes_to_hex (utf8_encode (stringify v)) (encoded-IsBytes v p))

fixed_part-eq-data_fixed :
    (now : ℕ) (op_type op_command : Text) (payload : Json)
    → IsPrintable payload
    → fixed_part now (to_bytes32_hex op_type) (to_bytes32_hex op_command) (hex_of payload)
      ≡ data_fixed now op_type op_command payload
unfolding fixed_part data_fixed
fixed_part-eq-data_fixed now op_type op_command payload p = rw (hex_of-eq-to_hex payload p) refl

envelope-eq-action_json :
    (now : ℕ) (op_type op_command : Text) (payload : Json)
    → envelope (to_hex (utf8_encode (stringify (data_fixed now op_type op_command payload))))
      ≡ action_json now op_type op_command payload
unfolding envelope action_json
envelope-eq-action_json now op_type op_command payload = refl

enveloped-eq-build_action_body :
    (now : ℕ) (op_type op_command : Text) (payload : Json)
    → IsPrintable payload
    → stringify (
        envelope (
          hex_of
            (fixed_part now (to_bytes32_hex op_type) (to_bytes32_hex op_command) (hex_of payload))))
      ≡ build_action_body now op_type op_command payload
unfolding build_action_body
enveloped-eq-build_action_body now op_type op_command payload p =
    ap (λ v. stringify (envelope (hex_of v)))
      (fixed_part-eq-data_fixed now op_type op_command payload p)
    ∙ ap (λ s. stringify (envelope s))
        (hex_of-eq-to_hex (data_fixed now op_type op_command payload)
          (data_fixed-IsPrintable now op_type op_command payload))
    ∙ ap stringify (envelope-eq-action_json now op_type op_command payload)

-- The envelope of e2e-coston2.ts is the frontend's, character by character, for identifiers of at
-- most 32 bytes in UTF-8 and every payload that JSON can print; the call does not throw.
pub checked_action_body-eq-build_action_body :
    (now : ℕ) (op_type op_command : Text) (payload : Json)
    → AllUnits op_type
    → AllUnits op_command
    → length (utf8_encode op_type) ≤ 32
    → length (utf8_encode op_command) ≤ 32
    → IsPrintable payload
    → checked_action_body now op_type op_command payload
      ≡ ok (build_action_body now op_type op_command payload)
unfolding checked_action_body
checked_action_body-eq-build_action_body now op_type op_command payload ut uc ht hc p =
    rw
      (
        string_to_bytes32_hex-eq-to_bytes32_hex op_type ut ht,
        string_to_bytes32_hex-eq-to_bytes32_hex op_command uc hc,
      )
      (ap ok (enveloped-eq-build_action_body now op_type op_command payload p))

IsBytes-take : (k : ℕ) (bytes : Bytes) → IsBytes bytes → IsBytes (take k bytes)
IsBytes-take zero bytes h = tt
IsBytes-take (suc k) [] h = tt
IsBytes-take (suc k) (b ∷ bytes) h = (h.0, IsBytes-take k bytes h.1)

IsBytes-zeros : (k : ℕ) → IsBytes (zeros k)
IsBytes-zeros zero = tt
IsBytes-zeros (suc k) = (omega arith, IsBytes-zeros k)

IsBytes-first_32 : (bytes : Bytes) → IsBytes bytes → IsBytes (first_32 bytes)
unfolding first_32
IsBytes-first_32 bytes h =
    All-append (λ b. b < 256) (take 32 bytes) (zeros (32 - length (take 32 bytes)))
      (IsBytes-take 32 bytes h) (IsBytes-zeros (32 - length (take 32 bytes)))

cut_bytes32_hex-eq-to_bytes32_hex : (s : Text) → AllUnits s → cut_bytes32_hex s ≡ to_bytes32_hex s
unfolding cut_bytes32_hex to_bytes32_hex
cut_bytes32_hex-eq-to_bytes32_hex s h = sym (
    to_hex-eq-bytes_to_hex (first_32 (utf8_encode s))
      (IsBytes-first_32 (utf8_encode s) (utf8_encode-IsBytes s h)))

-- The envelope of test-settle.ts is the frontend's for the operation type "STREAM", character by
-- character, for every command and every payload that JSON can print.
pub action_body-eq-build_action_body :
    (now : ℕ) (op_command : Text) (payload : Json)
    → AllUnits op_command
    → IsPrintable payload
    → action_body now op_command payload ≡ build_action_body now (text "STREAM") op_command payload
unfolding action_body
action_body-eq-build_action_body now op_command payload uc p =
    rw
      (
        cut_bytes32_hex-eq-to_bytes32_hex (text "STREAM")
            (known-AllUnits (text "STREAM") (unfold text in refl)),
        cut_bytes32_hex-eq-to_bytes32_hex op_command uc,
      )
      (enveloped-eq-build_action_body now (text "STREAM") op_command payload p)
