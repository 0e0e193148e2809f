-- ===== src/Script/EndToEnd.antt =====
-- typescript/scripts/e2e-coston2.ts: the whole way of a stream, from its sealed terms to a withdrawal
-- and the revealing of the terms.
use flare_stealthwage.Prelude.{
  ℕ, ◌^◌, ◌*◌, ◌++◌, ◌==◌, ℤ, pos, Text, text, text_eq, lower, decimal, drop,
}
use flare_stealthwage.Prelude.Int.{◌-ℤ◌, ◌*ℤ◌, eq_ℤ, int_string}
use flare_stealthwage.Encoding.Hex.{bytes_to_hex}
use flare_stealthwage.Json.Value.{Json}
use flare_stealthwage.Protocol.Terms.{StreamTerms, encode_terms}
use flare_stealthwage.Protocol.Rates.{to_scaled_rate}
use flare_stealthwage.Protocol.Digests.{build_caller_challenge, withdraw_tag}
use flare_stealthwage.Script.Run.{
  World, Config, Run, ◌>>=◌, ◌>>◌, lift, pure, must, create_stream, withdraw, reveal_terms, created,
  funded, confirmed, balance_of, decimals_of, symbol_of, stream_at, sign_raw, post_action, seconds,
  is_set, buffer_hex, read_auth, text_field, bigint_of, or_unknown,
}
use flare_stealthwage.Script.Envelope.{checked_action_body}
use flare_stealthwage.Script.Settle.{request_payload}

-- The terms: ten tokens a day at the rate given, of at most thirty days, from an hour ago.
unfoldable pub e2e_terms : Config → ℤ → ℕ → ℕ → StreamTerms
e2e_terms c rate decimals now = record {
  employer = c.employer;
  recipient = c.recipient;
  token = c.token;
  rate_per_second = rate;
  total = pos (10 * 10 ^ decimals) *ℤ pos 30;
  start_time = pos now -ℤ pos 3600;
  salt = c.salt;
}

-- `per_second` writes the `Number` of units a day, divided by 86400, with twelve decimals.
module _ (w : World) (c : Config) (per_second : ℕ → Text) where
  -- The stream is created, and its commitment read back.
  unfoldable pub create_sealed : StreamTerms → Text → Text → Run ℤ
  create_sealed t commitment sealed = do
    id ←
        created w (create_stream c.recipient c.token commitment t.start_time sealed)
          (λ hash. text "createStream reverted (" ++ (hash ++ text ")"))
          (text "StreamCreated event not found")
    row ← stream_at w id
    must (text_eq (lower row.commitment) (lower commitment)) (text "on-chain commitment mismatch")
    pure id

  -- The request to withdraw, signed by the employer, and the enclave's answer.
  unfoldable pub ask_withdraw : ℤ → Text → Text → Run Json
  ask_withdraw id commitment sealed = do
    issued_at ← seconds w
    challenge ← lift (
        build_caller_challenge w.viem (record {
          chain_id = pos c.chain_id;
          vault = c.vault;
          stream_id = id;
          commitment = commitment;
          purpose = withdraw_tag w.viem;
          issued_at = pos issued_at;
        }))
    signature ← sign_raw w challenge
    sent_at ← seconds w
    body ← lift (
        checked_action_body sent_at (text "STREAM") (text "AUTH_WITHDRAW")
          (request_payload c id commitment sealed issued_at signature))
    answer ← post_action w body
    must answer.succeeded (text "extension HTTP " ++ decimal answer.http_status)
    must (answer.status == 1) (text "extension returned error: " ++ or_unknown answer.error_message)
    lift (read_auth w.syntax_error answer.payload)

  -- The withdrawal, and the check of the recipient's balance.
  unfoldable pub withdraw_and_check : ℤ → Json → Run ℤ
  withdraw_and_check id auth = do
    accrued ← lift (bigint_of (text "cumulativeAccrued") auth)
    before ← balance_of w c.recipient
    must (eq_ℤ before (pos 0)) (text "fresh recipient should start at zero")
    deadline ← lift (bigint_of (text "deadline") auth)
    signature ← lift (text_field (text "signature") auth)
    _ ←
        confirmed w (withdraw id accrued deadline signature)
          (λ hash. text "withdraw reverted (" ++ (hash ++ text ")"))
    after ← balance_of w c.recipient
    must (eq_ℤ after accrued)
        (text "expected " ++ (int_string accrued ++ (text " got " ++ int_string after)))
    pure after

  -- `main`
  unfoldable pub end_to_end : Run ℤ
  unfolding create_sealed ask_withdraw withdraw_and_check
  end_to_end = do
    must (is_set c.deployment_key) (text "DEPLOYMENT_PRIVATE_KEY not set (source .env)")
    must (is_set c.ecies_key) (text "TEE_ECIES_PRIVKEY not set (run: npm run tee-keys)")
    decimals ← decimals_of w
    _ ← symbol_of w
    rate ← lift (to_scaled_rate (per_second (10 * 10 ^ decimals)))
    now ← seconds w
    terms_hex ← lift (encode_terms w.viem (e2e_terms c rate decimals now))
    cipher ← lift (w.encrypt (buffer_hex (drop 2 terms_hex)))
    id ←
        create_sealed (e2e_terms c rate decimals now) (w.viem.keccak256 terms_hex)
          (bytes_to_hex cipher)
    _ ← funded w c.token c.vault id (pos (5 * 10 ^ decimals))
    auth ← ask_withdraw id (w.viem.keccak256 terms_hex) (bytes_to_hex cipher)
    paid ← withdraw_and_check id auth
    _ ← confirmed w (reveal_terms id terms_hex) (λ _. text "revealTerms reverted")
    pure paid
