-- ===== src/Script/Demo.antt =====
-- typescript/scripts/create-demo-stream.ts: the stream that the landing page shows.
use flare_stealthwage.Prelude.{ℕ, ◌+◌, ◌*◌, ◌/◌, ◌^◌, ◌++◌, not, ℤ, pos, Text, text, drop}
use flare_stealthwage.Prelude.Int.{◌-ℤ◌, ltb_ℤ}
use flare_stealthwage.Encoding.Hex.{bytes_to_hex}
use flare_stealthwage.Protocol.Terms.{StreamTerms, encode_terms, commit_to}
use flare_stealthwage.Protocol.Rates.{rate_per_day_to_scaled}
use flare_stealthwage.Script.Run.{
  World, Config, Run, ◌>>=◌, ◌>>◌, lift, pure, must, create_stream, reveal_terms, created, funded,
  confirmed, balance_of, decimals_of, symbol_of, seconds, is_set, buffer_hex,
}

-- `BigInt(Math.round(0.25 * unit))`; a `Number` holds the unit of up to 22 decimals exactly.
unfoldable pub per_day_raw : ℕ → ℕ
per_day_raw unit = (unit + 2) / 4

-- The terms: a quarter of a token a day, of at most a hundred tokens, from three days ago.
unfoldable pub demo_terms : Config → ℕ → ℕ → StreamTerms
unfolding per_day_raw
demo_terms c decimals now = record {
  employer = c.employer;
  recipient = c.recipient;
  token = c.token;
  rate_per_second = rate_per_day_to_scaled (pos (per_day_raw (10 ^ decimals)));
  total = pos (100 * 10 ^ decimals);
  start_time = pos now -ℤ pos (3 * 86_400);
  salt = c.salt;
}

-- `format_units` is viem's `formatUnits`.
module _ (w : World) (c : Config) (format_units : ℤ → ℕ → Text) where
  -- `main`
  unfoldable pub create_demo : Run ℤ
  create_demo = do
    must (is_set c.deployment_key) (text "DEPLOYMENT_PRIVATE_KEY not set (source .env)")
    must (is_set c.ecies_key) (text "TEE_ECIES_PRIVKEY not set (run: npm run tee-keys)")
    decimals ← decimals_of w
    symbol ← symbol_of w
    balance ← balance_of w c.employer
    must (not (ltb_ℤ balance (pos (8 * 10 ^ decimals)))) (
        text "need "
        ++ (format_units (pos (8 * 10 ^ decimals)) decimals
            ++ (text " "
                ++ (symbol
                    ++ (text ", have "
                        ++ (format_units balance decimals ++ (text " " ++ symbol)))))))
    now ← seconds w
    terms_hex ← lift (encode_terms w.viem (demo_terms c decimals now))
    commitment ← lift (commit_to w.viem (demo_terms c decimals now))
    cipher ← lift (w.encrypt (buffer_hex (drop 2 terms_hex)))
    id ←
        created w
          (create_stream c.recipient c.token commitment (pos now -ℤ pos (3 * 86_400))
            (bytes_to_hex cipher))
          (λ _. text "createStream reverted") (text "StreamCreated not found")
    _ ← funded w c.token c.vault id (pos (8 * 10 ^ decimals))
    _ ← confirmed w (reveal_terms id terms_hex) (λ _. text "revealTerms reverted")
    pure id
