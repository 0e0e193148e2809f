-- ===== src/Link/Request.antt =====
-- `requestAuthorization` of frontend/lib/enclave.ts, at `processAction` and `authorize` of the
-- extension.
use flare_stealthwage.Prelude.{◌≡◌, refl, ◌∙◌, some, ok, Text, text, text_eq, JsError}
use flare_stealthwage.Prelude.Utf8.{utf8_encode}
use flare_stealthwage.Prelude.Sorting.{sort, without, includes}
use flare_stealthwage.Encoding.Hex.{Bytes}
use flare_stealthwage.Json.Value.{Json, obj, Fields, field, end, str, get_field, keys}
use flare_stealthwage.Json.Print.{stringify}
use flare_stealthwage.Json.Bytes.{parse_bytes, value_to_bytes}
use flare_stealthwage.Json.Parse.Characters.{AllUnits, known-AllUnits}
use flare_stealthwage.Json.Parse.Printable.{IsPrintable}
use flare_stealthwage.Json.RoundTrip.{parse_bytes-utf8_encode}
use flare_stealthwage.Handler.{next, ◌>>◌}
use flare_stealthwage.Client.Action.{to_hex}
use flare_stealthwage.Client.Answer.{AuthorizationRequest, payload_of}
use flare_stealthwage.Stream.Request.{
  AuthRequest, decode_request, no_unknown, read_fields, required_fields,
}
use flare_stealthwage.Link.Body.{value_to_bytes-to_hex}

-- Every text of the request is of 16-bit units, as JavaScript's texts are.
abbrev pub HasUnits : AuthorizationRequest → Type 0
HasUnits req =
    AllUnits req.stream_id
    × AllUnits req.vault
    × AllUnits req.chain_id
    × AllUnits req.commitment
    × AllUnits req.encrypted_terms
    × AllUnits req.issued_at
    × AllUnits req.caller_signature

-- The request without its command.
abbrev pub received : AuthorizationRequest → AuthRequest
received req = record {
  stream_id = req.stream_id;
  vault = req.vault;
  chain_id = req.chain_id;
  commitment = req.commitment;
  encrypted_terms = req.encrypted_terms;
  issued_at = req.issued_at;
  caller_signature = req.caller_signature;
}

-- The message in which the request arrives.
abbrev pub message : AuthorizationRequest → Json
message req = str (to_hex (utf8_encode (stringify (payload_of req))))

abbrev fields_of : AuthorizationRequest → Fields
fields_of req = field (text "streamId") (str req.stream_id) (
    field (text "vault") (str req.vault) (
      field (text "chainId") (str req.chain_id) (
        field (text "commitment") (str req.commitment) (
          field (text "encryptedTerms") (str req.encrypted_terms) (
            field (text "issuedAt") (str req.issued_at)
              (field (text "callerSignature") (str req.caller_signature) end))))))

payload_of-IsPrintable : (req : AuthorizationRequest) → HasUnits req → IsPrintable (payload_of req)
unfolding payload_of IsPrintable get_field text text_eq
payload_of-IsPrintable req (a, b, c, d, e, f, g) = (
  (
    known-AllUnits (text "streamId") refl,
    a,
    (
      known-AllUnits (text "vault") refl,
      b,
      (
        known-AllUnits (text "chainId") refl,
        c,
        (
          known-AllUnits (text "commitment") refl,
          d,
          (
            known-AllUnits (text "encryptedTerms") refl,
            e,
            (
              known-AllUnits (text "issuedAt") refl,
              f,
              (known-AllUnits (text "callerSignature") refl, g, tt),
            ),
          ),
        ),
      ),
    ),
  ),
  (refl, (refl, (refl, (refl, (refl, (refl, (refl, tt))))))),
)

-- The steps of `decode_request`, where the first two do not fail.
decode_steps :
    (syntax_error : Text → JsError) (msg : Json) {raw : Bytes} {fs : Fields}
    → value_to_bytes (some msg) ≡ ok raw
    → parse_bytes syntax_error raw ≡ ok (obj fs)
    → decode_request syntax_error msg
      ≡ (no_unknown (sort (without required_fields (keys fs))) >> read_fields fs)
unfolding decode_request
decode_steps syntax_error msg bytes_read parsed = rw (bytes_read, parsed) refl

fields_received :
    (req : AuthorizationRequest)
    → (no_unknown (sort (without required_fields (keys (fields_of req))))
        >> read_fields (fields_of req))
      ≡ next (received req)
unfolding payload_of read_fields required_fields keys get_field text text_eq sort without includes
fields_received req = refl

-- The enclave decodes the request that the dashboard sends, field by field, and no other: the
-- original message in the client's body, decoded by `authorize`, is the request that was made.
pub decode_request-payload_of :
    (syntax_error : Text → JsError) (req : AuthorizationRequest)
    → HasUnits req
    → decode_request syntax_error (message req) ≡ next (received req)
unfolding payload_of
decode_request-payload_of syntax_error req h =
    let p = payload_of-IsPrintable req h in
    decode_steps syntax_error (message req) (value_to_bytes-to_hex (payload_of req) p)
      (parse_bytes-utf8_encode syntax_error (payload_of req) p)
    ∙ fields_received req
