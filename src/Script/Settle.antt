-- ===== src/Script/Settle.antt =====
-- typescript/scripts/test-settle.ts: a stream is opened, funded, settled by the enclave and
-- cancelled, and the split of its funds is checked.
use flare_stealthwage.Prelude.{ℕ, ◌/◌, ◌^◌, ◌++◌, ◌==◌, ℤ, pos, Text, text, drop}
use flare_stealthwage.Prelude.Int.{◌+ℤ◌, ◌-ℤ◌, ◌*ℤ◌, eq_ℤ, int_string}
use flare_stealthwage.Encoding.Hex.{bytes_to_hex}
use flare_stealthwage.Json.Value.{Json, str, obj, end, field}
use flare_stealthwage.Protocol.Terms.{StreamTerms, encode_terms, commit_to}
use flare_stealthwage.Protocol.Rates.{rate_per_day_to_scaled}
use flare_stealthwage.Protocol.Digests.{build_caller_challenge, settle_tag}
use flare_stealthwage.Script.Run.{
  World, Config, Run, ◌>>=◌, ◌>>◌, lift, pure, must, create_stream, cancel_stream, created, funded,
  confirmed, balance_of, decimals_of, stream_at, sign_raw, post_action, seconds, is_set, buffer_hex,
  read_auth, text_field, bigint_of, or_unknown,
}
use flare_stealthwage.Script.Envelope.{action_body}

-- What the script prints at the end, in raw units.
pub record Split : Type 0 where
  pub refunded : ℤ
  pub paid : ℤ
  pub accrued : ℤ

-- The payload of the request to settle or to withdraw.
unfoldable pub request_payload : Config → ℤ → Text → Text → ℕ → Text → Json
request_payload c id commitment sealed issued_at signature = obj (
    field (text "streamId") (str (int_string id)) (
      field (text "vault") (str c.vault) (
        field (text "chainId") (str (int_string (pos c.chain_id))) (
          field (text "commitment") (str commitment) (
            field (text "encryptedTerms") (str sealed) (
              field (text "issuedAt") (str (int_string (pos issued_at)))
                (field (text "callerSignature") (str signature) end)))))))

-- The terms: a tenth of a token a day, of at most a hundred tokens.
unfoldable pub settle_terms : Config → ℕ → ℕ → StreamTerms
settle_terms c decimals now = record {
  employer = c.employer;
  recipient = c.recipient;
  token = c.token;
  rate_per_second = rate_per_day_to_scaled (pos (10 ^ decimals / 10));
  total = pos 100 *ℤ pos (10 ^ decimals);
  start_time = pos now;
  salt = c.salt;
}

module _ (w : World) (c : Config) where
  -- The request to settle, signed by the employer, and the enclave's answer.
  unfoldable pub ask_settle : ℤ → Text → Text → Run Json
  ask_settle id commitment sealed = do
    issued_at ← seconds w
    challenge ← lift (
        build_caller_challenge w.viem (record {
          chain_id = pos c.chain_id;
          vault = c.vault;
          stream_id = id;
          commitment = commitment;
          purpose = settle_tag w.viem;
          issued_at = pos issued_at;
        }))
    signature ← sign_raw w challenge
    sent_at ← seconds w
    answer ← post_action w (
        action_body sent_at (text "AUTH_SETTLE")
          (request_payload c id commitment sealed issued_at signature))
    must (answer.status == 1) (text "enclave refused settle: " ++ or_unknown answer.log)
    lift (read_auth w.syntax_error answer.payload)

  -- The cancellation, and the check of the split against the balances before.
  unfoldable pub cancel_and_check : ℤ → ℤ → ℤ → ℤ → Json → Run Split
  cancel_and_check id amount employer_before recipient_before auth = do
    accrued ← lift (bigint_of (text "cumulativeAccrued") auth)
    deadline ← lift (bigint_of (text "deadline") auth)
    signature ← lift (text_field (text "signature") auth)
    _ ←
        confirmed w (cancel_stream id accrued deadline signature)
          (λ hash. text "cancelStream reverted (" ++ (hash ++ text ")"))
    employer_after ← balance_of w c.employer
    recipient_after ← balance_of w c.recipient
    must
        (eq_ℤ ((employer_after -ℤ employer_before) +ℤ (recipient_after -ℤ recipient_before)) amount)
        (text "split does not reconstruct the funded 1 FXRP")
    must (eq_ℤ (recipient_after -ℤ recipient_before) accrued)
        (text "recipient payment != enclave-signed accrual")
    row ← stream_at w id
    must row.cancelled (text "stream not marked cancelled")
    pure (record {
      refunded = employer_after -ℤ employer_before;
      paid = recipient_after -ℤ recipient_before;
      accrued = accrued;
    })

  -- `main`, which returns nothing; the value here is what it prints at the end.
  unfoldable pub test_settle : Run Split
  unfolding ask_settle cancel_and_check
  test_settle = do
    must (is_set c.deployment_key)
        (text "DEPLOYMENT_PRIVATE_KEY not set (set -a; . ./.env; set +a)")
    must (is_set c.ecies_key) (text "TEE_ECIES_PRIVKEY not set")
    decimals ← decimals_of w
    start ← seconds w
    terms_hex ← lift (encode_terms w.viem (settle_terms c decimals start))
    commitment ← lift (commit_to w.viem (settle_terms c decimals start))
    cipher ← lift (w.encrypt (buffer_hex (drop 2 terms_hex)))
    id ←
        created w (create_stream c.recipient c.token commitment (pos start) (bytes_to_hex cipher))
          (λ _. text "createStream reverted") (text "StreamCreated not found")
    _ ← funded w c.token c.vault id (pos (10 ^ decimals))
    employer_before ← balance_of w c.employer
    recipient_before ← balance_of w c.recipient
    auth ← ask_settle id commitment (bytes_to_hex cipher)
    cancel_and_check id (pos (10 ^ decimals)) employer_before recipient_before auth
