-- ===== src/Script/Order/Showing.antt =====
-- In which order create-demo-stream.ts sends its transactions.
use flare_stealthwage.Prelude.{ℕ, ◌^◌, ◌*◌, pos, refl, List, [], ◌∷◌, ℤ, Text, arith}
use flare_stealthwage.Prelude.Int.{◌-ℤ◌}
use flare_stealthwage.Encoding.Hex.{bytes_to_hex}
use flare_stealthwage.Script.Run.{World, Config, create_stream, reveal_terms}
use flare_stealthwage.Script.Order.{
  Kind, creation, approval, funding, revelation, Sends, Reached, pure-Sends, bind-Sends, ask-then,
  lift-then, must-then,
}
use flare_stealthwage.Script.Demo.{create_demo}
use flare_stealthwage.Script.Order.Parts.{confirmed-Sends, created-Sends, funded-Sends}

abbrev pub demo_plan : List Kind
demo_plan = creation ∷ approval ∷ funding ∷ revelation ∷ []

module _ (w : World) (c : Config) (format_units : ℤ → ℕ → Text) where
  create_demo-Sends : Sends demo_plan 0 4 (create_demo w c format_units)
  unfolding create_demo
  create_demo-Sends = must-then demo_plan 0 4 _ _ _ (omega arith) (
      must-then demo_plan 0 4 _ _ _ (omega arith) (
        ask-then demo_plan 0 4 _ _ _ (omega arith) tt λ decimals.
          ask-then demo_plan 0 4 _ _ _ (omega arith) tt λ symbol.
            ask-then demo_plan 0 4 _ _ _ (omega arith) tt λ balance.
              must-then demo_plan 0 4 _ _ _ (omega arith) (
                ask-then demo_plan 0 4 _ _ _ (omega arith) tt λ now.
                  lift-then demo_plan 0 4 _ _ (omega arith) λ terms_hex.
                    lift-then demo_plan 0 4 _ _ (omega arith) λ commitment.
                      lift-then demo_plan 0 4 _ _ (omega arith) λ cipher.
                        bind-Sends demo_plan 0 1 4 _ _ (omega arith) (omega arith)
                          (created-Sends demo_plan w 0
                            (create_stream c.recipient c.token commitment
                              (pos now -ℤ pos (3 * 86_400)) (bytes_to_hex cipher))
                            _ _ refl)
                          λ id.
                            bind-Sends demo_plan 1 3 4 _ _ (omega arith) (omega arith)
                              (funded-Sends demo_plan w 1 c.token c.vault id
                                (pos (8 * 10 ^ decimals)) refl refl)
                              λ hash.
                                bind-Sends demo_plan 3 4 4 _ _ (omega arith) (omega arith)
                                  (confirmed-Sends demo_plan w 3 (reveal_terms id terms_hex) _ refl)
                                  λ reveal_hash. pure-Sends demo_plan 4 id)))

  -- Whatever the chain, the wallet and the clock answer, create-demo-stream.ts asks the wallet for
  -- transactions in this order and without a repetition: the creation of a stream, the approval, the
  -- funding and the revealing of the terms. Where it ends early, it has sent a first part of these,
  -- and where it ends well, all.
  pub create_demo-Reached : Reached demo_plan 0 4 (create_demo w c format_units [])
  unfolding Sends
  create_demo-Reached = create_demo-Sends [] refl
