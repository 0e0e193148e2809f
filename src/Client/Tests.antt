-- ===== src/Client/Tests.antt =====
-- The frontend's access to enclave and chain at concrete inputs.
use flare_stealthwage.Prelude.{
  ℕ, ◌+◌, ◌≤◌, ◌<◌, ◌≡◌, refl, ℤ, pos, inl, inr, some, none, true, false, List, [], ◌∷◌, Text, text,
  Result, ok, throw, plain_error, JsError, arith,
}
use flare_stealthwage.Prelude.Strings.{trim_start, hex_value}
use flare_stealthwage.Prelude.Utf8.{text_decode, utf8_decode}
use flare_stealthwage.Encoding.Hex.{string_to_bytes32_hex, bytes_to_hex}
use flare_stealthwage.Server.Action.{log_text}
use flare_stealthwage.Client.Numbers.{
  parse_int_hex, digits_from, leading_digits, without_prefix, signed_hex, to_uint8,
}
use flare_stealthwage.Client.Action.{to_hex, to_bytes32_hex}
use flare_stealthwage.Client.Answer.{
  Response, failed, rejected, unreachable, AuthorizationRequest, payload_text, matched_pairs,
  bytes_or_error, request_authorization,
}
use flare_stealthwage.Client.Chain.{range_of}
use flare_stealthwage.Client.Reasons.{
  request_authorization-rejected, request_authorization-unreachable,
}
use flare_stealthwage.Client.Identifiers.{
  to_hex-eq-bytes_to_hex, string_to_bytes32_hex-eq-to_bytes32_hex,
}
use flare_stealthwage.Client.Window.{range_of-fits, range_of-holds}

number_tests :
    (parse_int_hex (text "0x1F") ≡ some (pos 31))
    × (parse_int_hex (text "7b") ≡ some (pos 123))
    × (parse_int_hex (text "g1") ≡ none)
    × (payload_text (text "0x7b7d") ≡ ok (text "{}"))
unfolding parse_int_hex digits_from leading_digits without_prefix signed_hex trim_start hex_value
    text to_uint8 payload_text matched_pairs bytes_or_error text_decode utf8_decode
number_tests = (refl, refl, refl, refl)

range_of-fits_example :
    ((range_of (pos 33_546_811) 33_546_815).to_block ≤ 33_546_815)
    × ((range_of (pos 33_546_811) 33_546_815).from_block
        ≤ (range_of (pos 33_546_811) 33_546_815).to_block)
    × ((range_of (pos 33_546_811) 33_546_815).to_block
        < (range_of (pos 33_546_811) 33_546_815).from_block + 21)
range_of-fits_example = range_of-fits (pos 33_546_811) 33_546_815

range_of-holds_test :
    ((range_of (pos 33_546_811) 33_546_815).from_block ≤ 33_546_811)
    × (33_546_811 ≤ (range_of (pos 33_546_811) 33_546_815).to_block)
range_of-holds_test = range_of-holds 33_546_811 33_546_815 (omega arith) (omega arith)

to_hex-eq-bytes_to_hex_test : to_hex (0 ∷ 255 ∷ []) ≡ bytes_to_hex (0 ∷ 255 ∷ [])
to_hex-eq-bytes_to_hex_test = to_hex-eq-bytes_to_hex (0 ∷ 255 ∷ []) (omega arith)

string_to_bytes32_hex-eq-to_bytes32_hex_example :
    string_to_bytes32_hex (text "STREAM") ≡ ok (to_bytes32_hex (text "STREAM"))
unfolding text
string_to_bytes32_hex-eq-to_bytes32_hex_example =
    string_to_bytes32_hex-eq-to_bytes32_hex (text "STREAM") (omega arith)
      (unfold flare_stealthwage.Prelude.Utf8.utf8_encode in omega arith)

abbrev request : AuthorizationRequest
request = record {
  stream_id = text "7";
  vault = text "0xEE";
  chain_id = text "114";
  commitment = text "0x0102";
  encrypted_terms = text "0x0102";
  issued_at = text "1040";
  caller_signature = text "0x99";
  command = text "AUTH_WITHDRAW";
}

abbrev refusing : Text → Result Response
refusing body = ok (record {
  succeeded = true;
  status = 200;
  json =
      ok (record {
        status = 0;
        payload = text "0x";
        log = some (log_text 0 (some (text "caller")));
      });
})

request_authorization-rejected_example :
    request_authorization plain_error refusing 1040 request ≡ ok (failed (rejected (text "caller")))
unfolding text
request_authorization-rejected_example =
    request_authorization-rejected plain_error refusing 1040 request 200 b'c' (text "aller")
      (text "0x") refl refl

abbrev unanswered : Text → Result Response
unanswered body = throw (plain_error (text "timed out"))

request_authorization-unreachable_test :
    (detail : Text) × (request_authorization plain_error unanswered 1040 request
      ≡ ok (failed (unreachable detail)))
request_authorization-unreachable_test =
    request_authorization-unreachable plain_error unanswered 1040 request
      (inl (plain_error (text "timed out"), refl))
