-- ===== src/Stream/Sample.antt =====
-- An enclave over the sample encoding, and a request to it, for runs and instances. The cipher is
-- the identity, and a signature over a challenge is the signer's address.
use flare_stealthwage.Prelude.{pos, some, ◌++◌, Text, text, ok, plain_error}
use flare_stealthwage.Json.Value.{Json, str, obj, end, field}
use flare_stealthwage.Json.Bytes.{to_hex_json}
use flare_stealthwage.Protocol.Sample.{sample_viem}
use flare_stealthwage.Protocol.Terms.{StreamTerms, terms_values}
use flare_stealthwage.Stream.Request.{AuthRequest}
use flare_stealthwage.Stream.Authorize.{Enclave, Env, Opened}

-- A thousand units in a hundred seconds, from the time 1000.
abbrev pub sample_terms : StreamTerms
sample_terms = record {
  employer = text "0xAA";
  recipient = text "0xBB";
  token = text "0xCC";
  rate_per_second = pos 10_000_000_000_000;
  total = pos 1000;
  start_time = pos 1000;
  salt = text "0xDD";
}

abbrev pub sample_enclave : Enclave
sample_enclave = record {
  viem = sample_viem (terms_values sample_terms);
  decrypt = λ key bytes. ok bytes;
  recover_message_address = λ raw signature. ok signature;
  sign_message = λ key digest. ok (key ++ digest);
  syntax_error = plain_error;
}

abbrev pub sample_env : Env
sample_env = record {
  tee_ecies_privkey = some (text "ecies");
  tee_signer_privkey = some (text "signer");
}

-- A request by `caller` at the time 1040.
abbrev pub sample_request : Text → AuthRequest
sample_request caller = record {
  stream_id = text "7";
  vault = text "0xEE";
  chain_id = text "114";
  commitment = text "0x0102";
  encrypted_terms = text "0x0102";
  issued_at = text "1040";
  caller_signature = caller;
}

abbrev pub sample_message : Text → Json
sample_message caller = str (
    to_hex_json (
      obj (
        field (text "streamId") (str (text "7")) (
          field (text "vault") (str (text "0xEE")) (
            field (text "chainId") (str (text "114")) (
              field (text "commitment") (str (text "0x0102")) (
                field (text "encryptedTerms") (str (text "0x0102")) (
                  field (text "issuedAt") (str (text "1040"))
                    (field (text "callerSignature") (str caller) end)))))))))

abbrev pub sample_opened : Opened
sample_opened = record { terms_hex = text "0x0102"; terms = sample_terms }
