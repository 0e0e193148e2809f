-- ===== src/Link/Tests.antt =====
-- The client and the extension together, at concrete requests.
use flare_stealthwage.Prelude.{◌≡◌, refl, some, text, text_eq, ok, plain_error}
use flare_stealthwage.Json.Value.{str, obj, Fields, end, field, get_field}
use flare_stealthwage.Json.Bytes.{to_hex_json}
use flare_stealthwage.Json.Parse.Characters.{known-AllUnits}
use flare_stealthwage.Json.Parse.Printable.{IsPrintable}
use flare_stealthwage.Handler.{next}
use flare_stealthwage.Client.Action.{build_action_body}
use flare_stealthwage.Client.Answer.{AuthorizationRequest, granted, read_body}
use flare_stealthwage.Server.Action.{fine, incoming}
use flare_stealthwage.Stream.Request.{decode_request}
use flare_stealthwage.Stream.Sample.{sample_enclave, sample_env}
use flare_stealthwage.Protocol.Digests.{withdraw_tag, settle_tag}
use flare_stealthwage.App.State.{initial}
use flare_stealthwage.App.Dispatch.{table, register-eq-table}
use flare_stealthwage.Link.Body.{sent, incoming-build_action_body}
use flare_stealthwage.Link.Request.{message, received, decode_request-payload_of}
use flare_stealthwage.Link.Dispatch.{answer, run, process_action-authorize}
use flare_stealthwage.Link.Reply.{read_body-to_hex_json}

abbrev request : AuthorizationRequest
request = record {
  stream_id = text "7";
  vault = text "0xEE";
  chain_id = text "114";
  commitment = text "0x0102";
  encrypted_terms = text "0x0102";
  issued_at = text "1040";
  caller_signature = text "0xBB";
  command = text "AUTH_WITHDRAW";
}

incoming-build_action_body_example :
    incoming plain_error
      (build_action_body 1040 (text "STREAM") (text "AUTH_WITHDRAW") (str (text "hello")))
    ≡ fine (sent 1040 (text "STREAM") (text "AUTH_WITHDRAW") (str (text "hello")))
incoming-build_action_body_example =
    incoming-build_action_body plain_error 1040 (text "STREAM") (text "AUTH_WITHDRAW")
      (str (text "hello"))

decode_request-payload_of_example :
    decode_request plain_error (message request) ≡ next (received request)
decode_request-payload_of_example = decode_request-payload_of plain_error request (
  known-AllUnits (text "7") (unfold text in refl),
  known-AllUnits (text "0xEE") (unfold text in refl),
  known-AllUnits (text "114") (unfold text in refl),
  known-AllUnits (text "0x0102") (unfold text in refl),
  known-AllUnits (text "0x0102") (unfold text in refl),
  known-AllUnits (text "1040") (unfold text in refl),
  known-AllUnits (text "0xBB") (unfold text in refl),
)

process_action-authorize_example :
    (run sample_enclave sample_env 1040 1041 request initial
        (table sample_enclave sample_env 1040)
        (text "AUTH_WITHDRAW")
      ≡ answer sample_enclave sample_env 1040 1041 request initial
          (text "AUTH_WITHDRAW")
          (withdraw_tag sample_enclave.viem))
    × (run sample_enclave sample_env 1040 1041 request initial
          (table sample_enclave sample_env 1040)
          (text "AUTH_SETTLE")
        ≡ answer sample_enclave sample_env 1040 1041 request initial
            (text "AUTH_SETTLE")
            (settle_tag sample_enclave.viem))
process_action-authorize_example =
    process_action-authorize sample_enclave sample_env 1040 1041 request initial
      (table sample_enclave sample_env 1040) (register-eq-table sample_enclave sample_env 1040)

abbrev answer_fields : Fields
answer_fields =
    field (text "streamId") (str (text "7")) (field (text "signature") (str (text "0x99")) end)

answer_fields-IsPrintable : IsPrintable (obj answer_fields)
unfolding IsPrintable get_field text text_eq
answer_fields-IsPrintable = (
  (
    known-AllUnits (text "streamId") refl,
    known-AllUnits (text "7") refl,
    (known-AllUnits (text "signature") refl, known-AllUnits (text "0x99") refl, tt),
  ),
  (refl, (refl, tt)),
)

read_body-to_hex_json_example :
    read_body plain_error
      (record { status = 1; payload = to_hex_json (obj answer_fields); log = some (text "ok") })
    ≡ ok (granted (obj answer_fields))
read_body-to_hex_json_example =
    read_body-to_hex_json plain_error answer_fields (some (text "ok")) answer_fields-IsPrintable
