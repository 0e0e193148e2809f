-- ===== src/Client/Action.antt =====
-- The request of frontend/lib/enclave.ts: `toHex`, `toBytes32Hex` and `buildActionBody`.
use flare_stealthwage.Prelude.{
  ℕ, zero, suc, ◌-◌, ◌/◌, ◌%◌, [], ◌∷◌, ◌++◌, length, take, Text, text, decimal,
}
use flare_stealthwage.Prelude.Utf8.{utf8_encode}
use flare_stealthwage.Encoding.Hex.{Bytes, zeros}
use flare_stealthwage.Json.Value.{Json, num, str, arr, obj, nil, end, field}
use flare_stealthwage.Json.Print.{stringify}

-- `HEX`
abbrev pub hex_alphabet : Text
hex_alphabet = text "0123456789abcdef"

-- `HEX[n]`, for an `n` below 16.
unfoldable pub char_at : ℕ → Text → ℕ
char_at n [] = 0
char_at zero (c ∷ s) = c
char_at (suc n) (c ∷ s) = char_at n s

-- The loop of `toHex`: `b >> 4` and `b & 15` of a byte.
unfoldable pub hex_pairs : Bytes → Text
hex_pairs [] = []
hex_pairs (b ∷ bytes) =
    char_at (b / 16) hex_alphabet ∷ char_at (b % 16) hex_alphabet ∷ hex_pairs bytes

-- `toHex`
unfoldable pub to_hex : Bytes → Text
to_hex bytes = text "0x" ++ hex_pairs bytes

-- The array of 32 bytes into which the first 32 of the encoding are copied.
unfoldable pub first_32 : Bytes → Bytes
first_32 encoded = take 32 encoded ++ zeros (32 - length (take 32 encoded))

-- `toBytes32Hex`
unfoldable pub to_bytes32_hex : Text → Text
to_bytes32_hex s = to_hex (first_32 (utf8_encode s))

-- `s.repeat(n)`
unfoldable pub repeated : ℕ → Text → Text
repeated zero s = []
repeated (suc n) s = s ++ repeated n s

abbrev pub action_id : Text
action_id = text "0x" ++ repeated 32 (text "11")

-- `dataFixed`, at the time `now` in seconds.
unfoldable pub data_fixed : ℕ → Text → Text → Json → Json
data_fixed now op_type op_command payload = obj (
    field (text "instructionId") (str action_id) (
      field (text "teeId") (str (text "0x" ++ repeated 20 (text "22"))) (
        field (text "timestamp") (num (decimal now)) (
          field (text "rewardEpochId") (num (text "0")) (
            field (text "opType") (str (to_bytes32_hex op_type)) (
              field (text "opCommand") (str (to_bytes32_hex op_command)) (
                field (text "cosigners") (arr nil) (
                  field (text "cosignersThreshold") (num (text "0")) (
                    field (text "originalMessage") (str (to_hex (utf8_encode (stringify payload))))
                      (field (text "additionalFixedMessage") (str (text "0x")) end))))))))))

-- The argument of the last `JSON.stringify` of `buildActionBody`.
unfoldable pub action_json : ℕ → Text → Text → Json → Json
action_json now op_type op_command payload = obj (
    field (text "data")
      (obj (
        field (text "id") (str action_id) (
          field (text "type") (str (text "instruction")) (
            field (text "submissionTag") (str (text "submit")) (
              field (text "message")
                (str (to_hex (utf8_encode (stringify (data_fixed now op_type op_command payload)))))
                end)))))
      (field (text "additionalVariableMessages") (arr nil) (
        field (text "timestamps") (arr nil) (
          field (text "additionalActionData") (str (text "0x"))
            (field (text "signatures") (arr nil) end)))))

-- `buildActionBody`
unfoldable pub build_action_body : ℕ → Text → Text → Json → Text
build_action_body now op_type op_command payload =
    stringify (action_json now op_type op_command payload)
