-- ===== src/Encoding/Tests.antt =====
-- The encodings on concrete texts, and the theorems at concrete inputs.
use flare_stealthwage.Prelude.{
  ℕ, ◌++◌, ◌≤◌, ◌<◌, ◌⊎◌, ◌≡◌, length, true, false, refl, some, List, [], ◌∷◌, text, lower, ok,
  throw, plain_error, arith, decimal,
}
use flare_stealthwage.Prelude.Strings.{hex_value}
use flare_stealthwage.Prelude.Utf8.{utf8_encode}
use flare_stealthwage.Encoding.Hex.{
  Bytes, hex_to_bytes, bytes_to_hex, strip_prefix, string_to_bytes32_hex, bytes32_hex_to_string,
  digits_to_bytes, is_odd, all_hex, pairs, odd_length, hex_digits, hex_digit, pad_zeros,
}
use flare_stealthwage.Encoding.RoundTrip.{
  IsBytes, hex_to_bytes-bytes_to_hex, bytes_to_hex-hex_to_bytes, hex_to_bytes_cases,
}
use flare_stealthwage.Encoding.Bytes32.{
  string_to_bytes32_hex_cases, bytes32-round_trip, bytes32_injective,
}

abbrev sample : Bytes
sample = 0 ∷ 255 ∷ 16 ∷ []

hex_tests :
    (hex_to_bytes (some (text "0x00Ff10")) ≡ ok sample)
    × (bytes_to_hex sample ≡ text "0x00ff10")
    × (hex_to_bytes (some (text "0x")) ≡ ok [])
    × (hex_to_bytes (some (text "abc")) ≡ throw (plain_error (text "invalid hex: odd length (3)")))
    × (hex_to_bytes (some (text "0xzz"))
        ≡ throw (plain_error (text "invalid hex: non-hex characters")))
unfolding hex_to_bytes bytes_to_hex digits_to_bytes strip_prefix is_odd all_hex pairs odd_length
    text hex_digits hex_digit hex_value decimal
hex_tests = (refl, refl, refl, refl, refl)

greeting_bytes32 :
    string_to_bytes32_hex (text "GREETING")
    ≡ ok (text "0x4752454554494e47000000000000000000000000000000000000000000000000")
unfolding string_to_bytes32_hex bytes_to_hex pad_zeros hex_digits hex_digit utf8_encode text
greeting_bytes32 = refl

hex_to_bytes-bytes_to_hex_example : hex_to_bytes (some (bytes_to_hex sample)) ≡ ok sample
hex_to_bytes-bytes_to_hex_example = hex_to_bytes-bytes_to_hex sample (omega arith)

bytes_to_hex-hex_to_bytes_example :
    (bytes_to_hex sample ≡ text "0x" ++ lower (strip_prefix (text "0x00Ff10"))) × IsBytes sample
bytes_to_hex-hex_to_bytes_example = bytes_to_hex-hex_to_bytes (text "0x00Ff10") sample hex_tests.0

bytes32-round_trip_example :
    (h : List ℕ) × (string_to_bytes32_hex (text "STREAM") ≡ ok h)
    × (bytes32_hex_to_string h ≡ text "STREAM")
unfolding text
bytes32-round_trip_example = bytes32-round_trip (text "STREAM") (omega arith) (omega arith)

bytes32_injective_test : text "STREAM" ≡ text "STREAM"
unfolding text
bytes32_injective_test =
    bytes32_injective (text "STREAM") (text "STREAM") (omega arith) (omega arith) (omega arith)
      (omega arith) refl

hex_to_bytes_cases_test :
    ((is_odd (strip_prefix (text "0xab")) ≡ true)
      × (hex_to_bytes (some (text "0xab"))
          ≡ throw (plain_error (odd_length (strip_prefix (text "0xab"))))))
    ⊎ ((is_odd (strip_prefix (text "0xab")) ≡ false)
        × (all_hex (strip_prefix (text "0xab")) ≡ false)
        × (hex_to_bytes (some (text "0xab"))
            ≡ throw (plain_error (text "invalid hex: non-hex characters"))))
    ⊎ ((is_odd (strip_prefix (text "0xab")) ≡ false)
        × (all_hex (strip_prefix (text "0xab")) ≡ true)
        × (hex_to_bytes (some (text "0xab")) ≡ ok (pairs (strip_prefix (text "0xab")))))
hex_to_bytes_cases_test = hex_to_bytes_cases (text "0xab")

string_to_bytes32_hex_cases_test :
    ((32 < length (utf8_encode (text "STREAM")))
      × (string_to_bytes32_hex (text "STREAM")
          ≡ throw (
              plain_error (
                text "string too long for bytes32 ("
                ++ (decimal (length (utf8_encode (text "STREAM")))
                    ++ (text " bytes): " ++ text "STREAM"))))))
    ⊎ ((length (utf8_encode (text "STREAM")) ≤ 32)
        × ((h : List ℕ) × (string_to_bytes32_hex (text "STREAM") ≡ ok h) × (length h ≡ 66)))
string_to_bytes32_hex_cases_test = string_to_bytes32_hex_cases (text "STREAM")
