-- ===== src/Script/Order/Settling.antt =====
-- In which order test-settle.ts sends its transactions.
use flare_stealthwage.Prelude.{◌^◌, pos, refl, List, [], ◌∷◌, ℤ, Text, arith}
use flare_stealthwage.Encoding.Hex.{bytes_to_hex}
use flare_stealthwage.Json.Value.{Json}
use flare_stealthwage.Script.Run.{World, Config, create_stream, cancel_stream}
use flare_stealthwage.Script.Order.{
  Kind, creation, approval, funding, cancellation, Sends, Reached, lift-Sends, pure-Sends,
  bind-Sends, ask-then, lift-then, must-then,
}
use flare_stealthwage.Script.Settle.{ask_settle, cancel_and_check, test_settle}
use flare_stealthwage.Script.Order.Parts.{confirmed-Sends, created-Sends, funded-Sends}

abbrev pub settle_plan : List Kind
settle_plan = creation ∷ approval ∷ funding ∷ cancellation ∷ []

module _ (w : World) (c : Config) where
  ask_settle-Sends :
      (id : ℤ) (commitment sealed : Text)
      → Sends settle_plan 3 3 (ask_settle w c id commitment sealed)
  unfolding ask_settle
  ask_settle-Sends id commitment sealed =
      ask-then settle_plan 3 3 _ _ _ (omega arith) tt λ issued_at.
        lift-then settle_plan 3 3 _ _ (omega arith) λ challenge.
          ask-then settle_plan 3 3 _ _ _ (omega arith) tt λ signature.
            ask-then settle_plan 3 3 _ _ _ (omega arith) tt λ sent_at.
              ask-then settle_plan 3 3 _ _ _ (omega arith) tt
                λ answer. must-then settle_plan 3 3 _ _ _ (omega arith) (lift-Sends settle_plan 3 _)

  cancel_and_check-Sends :
      (id amount employer_before recipient_before : ℤ) (auth : Json)
      → Sends settle_plan 3 4 (cancel_and_check w c id amount employer_before recipient_before auth)
  unfolding cancel_and_check
  cancel_and_check-Sends id amount employer_before recipient_before auth =
      lift-then settle_plan 3 4 _ _ (omega arith) λ accrued.
        lift-then settle_plan 3 4 _ _ (omega arith) λ deadline.
          lift-then settle_plan 3 4 _ _ (omega arith) λ signature.
            bind-Sends settle_plan 3 4 4 _ _ (omega arith) (omega arith)
              (confirmed-Sends settle_plan w 3 (cancel_stream id accrued deadline signature) _ refl)
              λ hash. ask-then settle_plan 4 4 _ _ _ (omega arith) tt λ employer_after.
                ask-then settle_plan 4 4 _ _ _ (omega arith) tt λ recipient_after.
                  must-then settle_plan 4 4 _ _ _ (omega arith) (
                    must-then settle_plan 4 4 _ _ _ (omega arith) (
                      ask-then settle_plan 4 4 _ _ _ (omega arith) tt λ row.
                        must-then settle_plan 4 4 _ _ _ (omega arith) (pure-Sends settle_plan 4 _)))

  test_settle-Sends : Sends settle_plan 0 4 (test_settle w c)
  unfolding test_settle
  test_settle-Sends = must-then settle_plan 0 4 _ _ _ (omega arith) (
      must-then settle_plan 0 4 _ _ _ (omega arith) (
        ask-then settle_plan 0 4 _ _ _ (omega arith) tt λ decimals.
          ask-then settle_plan 0 4 _ _ _ (omega arith) tt λ start.
            lift-then settle_plan 0 4 _ _ (omega arith) λ terms_hex.
              lift-then settle_plan 0 4 _ _ (omega arith) λ commitment.
                lift-then settle_plan 0 4 _ _ (omega arith) λ cipher.
                  bind-Sends settle_plan 0 1 4 _ _ (omega arith) (omega arith)
                    (created-Sends settle_plan w 0
                      (create_stream c.recipient c.token commitment (pos start)
                        (bytes_to_hex cipher))
                      _ _ refl)
                    λ id.
                      bind-Sends settle_plan 1 3 4 _ _ (omega arith) (omega arith)
                        (funded-Sends settle_plan w 1 c.token c.vault id (pos (10 ^ decimals)) refl
                          refl)
                        λ hash. ask-then settle_plan 3 4 _ _ _ (omega arith) tt λ employer_before.
                          ask-then settle_plan 3 4 _ _ _ (omega arith) tt λ recipient_before.
                            bind-Sends settle_plan 3 3 4 _ _ (omega arith) (omega arith)
                              (ask_settle-Sends id commitment (bytes_to_hex cipher))
                              λ auth.
                                cancel_and_check-Sends id (pos (10 ^ decimals)) employer_before
                                  recipient_before auth))

  -- Whatever the chain, the wallet, the enclave and the clock answer, test-settle.ts asks the wallet
  -- for transactions in this order and without a repetition: the creation of a stream, the approval,
  -- the funding and the cancellation. Where it ends early, it has sent a first part of these, and
  -- where it ends well, all.
  pub test_settle-Reached : Reached settle_plan 0 4 (test_settle w c [])
  unfolding Sends
  test_settle-Reached = test_settle-Sends [] refl
