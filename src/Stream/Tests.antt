-- ===== src/Stream/Tests.antt =====
-- `authorize` on concrete requests, and the theorems at them.
use flare_stealthwage.Prelude.{
  ◌≡◌, refl, arith, pos, Text, text, text_eq, lower, inl, inr, decimal, parse_decimal, ok, [], ◌++◌,
  Result,
}
use flare_stealthwage.Prelude.Int.{parse_bigint, int_string, ◌+ℤ◌}
use flare_stealthwage.Prelude.Strings.{hex_value, trim, starts_with}
use flare_stealthwage.Prelude.Utf8.{utf8_encode, utf8_decode}
use flare_stealthwage.Prelude.Sorting.{sort, without, includes}
use flare_stealthwage.Encoding.Hex.{
  hex_to_bytes, bytes_to_hex, digits_to_bytes, strip_prefix, is_odd, all_hex, pairs, hex_digits,
  hex_digit,
}
use flare_stealthwage.Json.Value.{get_field, keys, set_field}
use flare_stealthwage.Json.Print.{stringify, quote}
use flare_stealthwage.Json.Parse.{read_json}
use flare_stealthwage.Json.Bytes.{value_to_bytes, parse_json, parse_bytes, to_hex_json}
use flare_stealthwage.Handler.{next, success}
use flare_stealthwage.Protocol.Digests.{
  withdraw_tag, auth_ttl_seconds, build_auth_digest, build_caller_challenge,
}
use flare_stealthwage.Protocol.Terms.{decode_terms, terms_of, terms_values, accrued_on}
use flare_stealthwage.Protocol.Rates.{accrued_at}
use flare_stealthwage.Protocol.Sample.{sample_viem, sample-Laws}
use flare_stealthwage.Stream.Request.{decode_request, read_fields, required_fields}
use flare_stealthwage.Stream.Authorize.{
  authorization, authorize, open_terms, authenticate, check_skew, check_party, permitted, sign_auth,
  response, challenge, recover_caller, auth_params,
}
use flare_stealthwage.Stream.Safety.{
  Opens, Authenticates, Signs, IsAuthorized, authorization-IsAuthorized, IsParty,
}
use flare_stealthwage.Stream.Ends.{Ends, authorize-Ends}
use flare_stealthwage.Stream.Grants.{authorize_grants, authorize_refuses, not_a_party}
use flare_stealthwage.Vault.Digest.{withdrawing, withdraw_digest, digest_of}
use flare_stealthwage.Vault.Agreement.{Agrees, vault_digest-Agrees, digest_of-signed}
use flare_stealthwage.Stream.Sample.{
  sample_terms, sample_enclave, sample_env, sample_request, sample_message, sample_opened,
}

abbrev tag : Text
tag = withdraw_tag sample_enclave.viem

abbrev raw_of : Result Text → Text
raw_of (Result.ok s) = s
raw_of (Result.throw e) = []

-- What a run of `authorize` computes through.
signature : Text → Text
unfolding decode_request read_fields required_fields value_to_bytes parse_json parse_bytes
    to_hex_json read_json stringify quote get_field keys set_field hex_to_bytes bytes_to_hex
    digits_to_bytes strip_prefix is_odd all_hex pairs hex_digits hex_digit sort without includes
    hex_value starts_with utf8_encode utf8_decode text text_eq lower parse_bigint trim parse_decimal
    decode_terms terms_of terms_values sample_viem build_auth_digest build_caller_challenge
    accrued_at int_string decimal
signature purpose =
    text "signer"
    ++ raw_of (
        build_auth_digest sample_enclave.viem (
          auth_params sample_enclave (sample_request (text "0xBB")) purpose sample_terms 1040
            (pos 114) (pos 7)))

read_sample :
    decode_request sample_enclave.syntax_error (sample_message (text "0xBB"))
    ≡ next (sample_request (text "0xBB"))
unfolding signature
read_sample = refl

read_stranger :
    decode_request sample_enclave.syntax_error (sample_message (text "0x99"))
    ≡ next (sample_request (text "0x99"))
unfolding signature
read_stranger = refl

sample_Opens :
    (caller : Text) → Opens sample_enclave (text "ecies") (sample_request caller) sample_opened
unfolding signature
sample_Opens caller = record { decrypts = refl; committed = refl; decodes = refl }

sample_Authenticates :
    Authenticates sample_enclave (sample_request (text "0xBB")) tag sample_terms 1040
unfolding signature
sample_Authenticates = record {
  issued_at = pos 1040;
  raw = raw_of (challenge sample_enclave (sample_request (text "0xBB")) tag (pos 1040));
  caller = text "0xBB";
  issued = refl;
  recent = refl;
  challenged = refl;
  recovered = refl;
  party = inr (λ same. ground (arith, same), refl);
}

sample_Signs :
    Signs sample_enclave
      (text "signer")
      (sample_request (text "0xBB"))
      tag
      sample_terms
      1040
      (signature tag)
unfolding signature
sample_Signs = record {
  chain_id = pos 114;
  stream_id = pos 7;
  digest = raw_of (
      build_auth_digest sample_enclave.viem (
        auth_params sample_enclave (sample_request (text "0xBB")) tag sample_terms 1040 (pos 114)
          (pos 7)));
  chain = refl;
  stream = refl;
  built = refl;
  signed = refl;
}

-- The recipient asks for a withdrawal at the time 1040 and gets it.
authorize_grants_example :
    authorize sample_enclave sample_env 1040 tag (sample_message (text "0xBB")) 3 ≡ (
      ok (
          success (
            to_hex_json (
              response sample_enclave
                (sample_request (text "0xBB"))
                sample_opened
                1040
                (signature tag)))),
      4,
    )
unfolding text
authorize_grants_example =
    authorize_grants sample_enclave sample_env 1040 tag (sample_message (text "0xBB")) 3
      (sample_request (text "0xBB")) (text "ecies") (text "signer") sample_opened (signature tag)
      read_sample refl refl (sample_Opens (text "0xBB")) sample_Authenticates sample_Signs

sample_authorized :
    authorization sample_enclave sample_env 1040 tag (sample_message (text "0xBB"))
    ≡ next
        (response sample_enclave (sample_request (text "0xBB")) sample_opened 1040 (signature tag))
unfolding signature authorization authenticate check_skew check_party sign_auth open_terms permitted
sample_authorized = refl

authorization-IsAuthorized_example :
    IsAuthorized sample_enclave sample_env 1040 tag
      (sample_message (text "0xBB"))
      (response sample_enclave (sample_request (text "0xBB")) sample_opened 1040 (signature tag))
authorization-IsAuthorized_example =
    authorization-IsAuthorized sample_enclave sample_env 1040 tag (sample_message (text "0xBB"))
      (response sample_enclave (sample_request (text "0xBB")) sample_opened 1040 (signature tag))
      sample_authorized

authorize-Ends_example :
    Ends sample_enclave sample_env 1040 tag
      (sample_message (text "0x99"))
      3
      (authorize sample_enclave sample_env 1040 tag (sample_message (text "0x99")) 3)
authorize-Ends_example =
    authorize-Ends sample_enclave sample_env 1040 tag (sample_message (text "0x99")) 3

stranger : IsParty sample_enclave tag sample_terms (text "0x99") → ⊥
unfolding signature
stranger (inl same) = ground (arith, same)
stranger (inr (_, same)) = ground (arith, same)

stranger_recovered :
    recover_caller sample_enclave (sample_request (text "0x99")) tag (pos 1040) ≡ ok (text "0x99")
unfolding signature
stranger_recovered = refl

stranger_issued : parse_bigint (sample_request (text "0x99")).issued_at ≡ ok (pos 1040)
unfolding signature
stranger_issued = refl

-- A stranger asks for the same withdrawal and is refused.
authorize_refuses_example :
    authorize sample_enclave sample_env 1040 tag (sample_message (text "0x99")) 3
    ≡ (not_a_party sample_enclave, 3)
unfolding text
authorize_refuses_example =
    authorize_refuses sample_enclave sample_env 1040 tag (sample_message (text "0x99")) 3
      (sample_request (text "0x99")) (text "ecies") (text "signer") sample_opened (pos 1040)
      (text "0x99") read_stranger refl refl (sample_Opens (text "0x99")) stranger_issued refl
      stranger_recovered stranger

the_authorization :
    IsAuthorized sample_enclave sample_env 1040 tag
      (sample_message (text "0xBB"))
      (response sample_enclave (sample_request (text "0xBB")) sample_opened 1040 (signature tag))
unfolding text
the_authorization = record {
  req = sample_request (text "0xBB");
  ecies_key = text "ecies";
  signer_key = text "signer";
  opened = sample_opened;
  signature = signature tag;
  read = read_sample;
  ecies = refl;
  signer = refl;
  opens = sample_Opens (text "0xBB");
  authentic = sample_Authenticates;
  signs = sample_Signs;
  answered = refl;
}

vault_hashes :
    digest_of sample_enclave.viem withdrawing
      (pos 114)
      (text "0xee")
      (pos 7)
      (text "0x0102")
      (pos 400)
      (pos 1640)
    ≡ ok the_authorization.signs.digest
unfolding withdraw_digest the_authorization sample_Signs signature
vault_hashes = refl

-- The vault at the same address in another case takes the signature over 400 units.
vault_digest-Agrees_example :
    Agrees sample_enclave sample_env 1040 tag
      (sample_message (text "0xBB"))
      (response sample_enclave (sample_request (text "0xBB")) sample_opened 1040 (signature tag))
      the_authorization
      withdrawing
      (pos 114)
      (text "0xee")
      (pos 7)
      (text "0x0102")
      (pos 400)
      (pos 1640)
vault_digest-Agrees_example =
    vault_digest-Agrees sample_enclave (sample-Laws (terms_values sample_terms)) sample_env 1040 tag
      (sample_message (text "0xBB"))
      (response sample_enclave (sample_request (text "0xBB")) sample_opened 1040 (signature tag))
      the_authorization withdrawing (pos 114) (text "0xee") (pos 7) (text "0x0102") (pos 400)
      (pos 1640) vault_hashes

digest_of-signed_test :
    digest_of sample_enclave.viem withdrawing the_authorization.signs.chain_id
      the_authorization.req.vault the_authorization.signs.stream_id
      (lower the_authorization.req.commitment)
      (accrued_on the_authorization.opened.terms (pos 1040))
      (pos 1040 +ℤ auth_ttl_seconds)
    ≡ ok the_authorization.signs.digest
digest_of-signed_test =
    digest_of-signed sample_enclave sample_env 1040 withdrawing (sample_message (text "0xBB"))
      (response sample_enclave (sample_request (text "0xBB")) sample_opened 1040 (signature tag))
      the_authorization
