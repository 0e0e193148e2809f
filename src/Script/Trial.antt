-- ===== src/Script/Trial.antt =====
-- check-enclave-client.ts at an enclave that knows the demo recipient.
use flare_stealthwage.Prelude.{
  ◌≡◌, refl, ap, true, false, some, [], length, ltb, if◌then◌else◌, pos, text, text_eq, lower,
  Result, ok, plain_error, none,
}
use flare_stealthwage.Prelude.Strings.{hex_value, trim, trim_start, starts_with}
use flare_stealthwage.Prelude.Utf8.{utf8_encode, utf8_decode, text_decode}
use flare_stealthwage.Encoding.Hex.{bytes_to_hex, hex_digits, hex_digit}
use flare_stealthwage.Json.Print.{stringify, quote}
use flare_stealthwage.Json.Parse.{read_json}
use flare_stealthwage.Json.Value.{Json, str, obj, end, field, get, get_field, set_field}
use flare_stealthwage.Json.Bytes.{to_hex_json, parse_json}
use flare_stealthwage.Protocol.Digests.{build_caller_challenge}
use flare_stealthwage.Protocol.Sample.{sample_viem}
use flare_stealthwage.Protocol.Terms.{decode_terms, terms_of, terms_values}
use flare_stealthwage.Stream.Sample.{sample_terms}
use flare_stealthwage.Client.Numbers.{
  parse_int_hex, to_uint8, signed_hex, leading_digits, without_prefix, digits_from,
}
use flare_stealthwage.Client.Answer.{
  Answer, granted, rejected, AuthorizationRequest, Response, request_authorization, read_response,
  read_body, payload_text, matched_pairs, bytes_or_error, refusal_detail, without_error_prefix,
}
use flare_stealthwage.Page.Dashboard.{OnChainStream, Config, opened, checked}
use flare_stealthwage.Script.Run.{History, Exit, done, ◌>>=◌, ask, lift, must, pure}
use flare_stealthwage.Script.Check.{Site, Settings, Verified, check_terms, check_client, request_as}
use flare_stealthwage.Script.Checked.{check_client-opens}

abbrev demo_stream : OnChainStream
demo_stream = record {
  employer = text "0xaa";
  recipient = text "STEALTHWAGE-DEMO-alice-v1";
  token = text "0xcc";
  commitment = text "0x01AB";
  funded = pos 1000;
  withdrawn = pos 0;
  start_time = pos 1000;
  cancelled = false;
}

abbrev authorization : Json
authorization =
    obj (
      field (text "terms") (str (text "0x01ab")) (field (text "signature") (str (text "0x04")) end))

-- The first request is granted, the second refused.
abbrev response : History → Response
response h =
    if ltb (length h) 4
    then record {
      succeeded = true;
      status = 200;
      json = ok (record { status = 1; payload = to_hex_json authorization; log = none });
    }
    else record {
      succeeded = true;
      status = 200;
      json = ok (record { status = 0; payload = []; log = some (text "error: not a party") });
    }

abbrev site : Site
site = record {
  stream = λ h id. ok demo_stream;
  sealed_terms = λ h id. ok (some (text "0x02"));
  enclave = λ h body. ok (response h);
  now = λ h. ok 1000;
  address_of = λ key. key;
  sign_message = λ key raw. ok (text "0x03");
  viem = sample_viem (terms_values sample_terms);
  syntax_error = plain_error;
}

abbrev settings : Settings
settings = record { chain_id = 114; vault_address = text "0xEE"; demo_stream_id = pos 3 }

abbrev checked_run : History × Exit Verified
checked_run = check_client site settings []

abbrev verified : Verified
verified = record {
  stream = demo_stream;
  auth = authorization;
  terms = sample_terms;
  refusal = rejected (text "not a party");
}

checked_run_test : checked_run.1 ≡ done verified
unfolding check_client check_terms request_as ◌>>=◌ ask lift must pure request_authorization
    read_response read_body payload_text matched_pairs bytes_or_error refusal_detail
    without_error_prefix parse_int_hex signed_hex leading_digits without_prefix digits_from to_uint8
    to_hex_json parse_json read_json stringify quote get get_field set_field bytes_to_hex hex_digits
    hex_digit hex_value trim trim_start starts_with utf8_encode utf8_decode text_decode text text_eq
    lower build_caller_challenge sample_viem decode_terms terms_of terms_values
checked_run_test = refl

abbrev page_config : Config
page_config = record { chain_id = 114; vault_address = text "0xEE" }

abbrev asked : AuthorizationRequest → Result Answer
asked req = ok (granted authorization)

check_client-opens_example :
    (lower demo_stream.recipient ≡ lower (text "stealthwage-demo-alice-v1"))
    × (checked site.viem page_config
          (λ raw. ok (text "0x03"))
          asked
          demo_stream
          (granted authorization)
        ≡ ok (opened sample_terms authorization))
unfolding sample_viem
check_client-opens_example =
    check_client-opens site settings page_config (λ raw. ok (text "0x03")) asked checked_run.0
      verified (ap (λ (e : Exit Verified). (checked_run.0, e)) checked_run_test)
