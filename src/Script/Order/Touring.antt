-- ===== src/Script/Order/Touring.antt =====
-- In which order e2e-coston2.ts sends its transactions.
use flare_stealthwage.Prelude.{ℕ, ◌^◌, ◌*◌, pos, refl, List, [], ◌∷◌, ℤ, Text, arith}
use flare_stealthwage.Encoding.Hex.{bytes_to_hex}
use flare_stealthwage.Json.Value.{Json}
use flare_stealthwage.Protocol.Terms.{StreamTerms}
use flare_stealthwage.Script.Run.{World, Config, create_stream, withdraw, reveal_terms}
use flare_stealthwage.Script.Order.{
  Kind, creation, approval, funding, withdrawal, revelation, Sends, Reached, lift-Sends, pure-Sends,
  bind-Sends, ask-then, lift-then, must-then,
}
use flare_stealthwage.Script.EndToEnd.{
  e2e_terms, create_sealed, ask_withdraw, withdraw_and_check, end_to_end,
}
use flare_stealthwage.Script.Order.Parts.{confirmed-Sends, created-Sends, funded-Sends}

abbrev pub e2e_plan : List Kind
e2e_plan = creation ∷ approval ∷ funding ∷ withdrawal ∷ revelation ∷ []

module _ (w : World) (c : Config) (per_second : ℕ → Text) where
  create_sealed-Sends :
      (t : StreamTerms) (commitment sealed : Text)
      → Sends e2e_plan 0 1 (create_sealed w c per_second t commitment sealed)
  unfolding create_sealed
  create_sealed-Sends t commitment sealed =
      bind-Sends e2e_plan 0 1 1 _ _ (omega arith) (omega arith)
        (created-Sends e2e_plan w 0
          (create_stream c.recipient c.token commitment t.start_time sealed) _ _ refl)
        λ id.
          ask-then e2e_plan 1 1 _ _ _ (omega arith) tt
            λ row. must-then e2e_plan 1 1 _ _ _ (omega arith) (pure-Sends e2e_plan 1 id)

  ask_withdraw-Sends :
      (id : ℤ) (commitment sealed : Text)
      → Sends e2e_plan 3 3 (ask_withdraw w c per_second id commitment sealed)
  unfolding ask_withdraw
  ask_withdraw-Sends id commitment sealed =
      ask-then e2e_plan 3 3 _ _ _ (omega arith) tt λ issued_at.
        lift-then e2e_plan 3 3 _ _ (omega arith) λ challenge.
          ask-then e2e_plan 3 3 _ _ _ (omega arith) tt λ signature.
            ask-then e2e_plan 3 3 _ _ _ (omega arith) tt λ sent_at.
              lift-then e2e_plan 3 3 _ _ (omega arith) λ body.
                ask-then e2e_plan 3 3 _ _ _ (omega arith) tt λ answer.
                  must-then e2e_plan 3 3 _ _ _ (omega arith)
                    (must-then e2e_plan 3 3 _ _ _ (omega arith) (lift-Sends e2e_plan 3 _))

  withdraw_and_check-Sends :
      (id : ℤ) (auth : Json) → Sends e2e_plan 3 4 (withdraw_and_check w c per_second id auth)
  unfolding withdraw_and_check
  withdraw_and_check-Sends id auth = lift-then e2e_plan 3 4 _ _ (omega arith) λ accrued.
      ask-then e2e_plan 3 4 _ _ _ (omega arith) tt λ before.
        must-then e2e_plan 3 4 _ _ _ (omega arith) (
          lift-then e2e_plan 3 4 _ _ (omega arith) λ deadline.
            lift-then e2e_plan 3 4 _ _ (omega arith) λ signature.
              bind-Sends e2e_plan 3 4 4 _ _ (omega arith) (omega arith)
                (confirmed-Sends e2e_plan w 3 (withdraw id accrued deadline signature) _ refl)
                λ hash.
                  ask-then e2e_plan 4 4 _ _ _ (omega arith) tt λ after.
                    must-then e2e_plan 4 4 _ _ _ (omega arith) (pure-Sends e2e_plan 4 after))

  end_to_end-Sends : Sends e2e_plan 0 5 (end_to_end w c per_second)
  unfolding end_to_end
  end_to_end-Sends = must-then e2e_plan 0 5 _ _ _ (omega arith) (
      must-then e2e_plan 0 5 _ _ _ (omega arith) (
        ask-then e2e_plan 0 5 _ _ _ (omega arith) tt λ decimals.
          ask-then e2e_plan 0 5 _ _ _ (omega arith) tt λ symbol.
            lift-then e2e_plan 0 5 _ _ (omega arith) λ rate.
              ask-then e2e_plan 0 5 _ _ _ (omega arith) tt λ now.
                lift-then e2e_plan 0 5 _ _ (omega arith) λ terms_hex.
                  lift-then e2e_plan 0 5 _ _ (omega arith) λ cipher.
                    bind-Sends e2e_plan 0 1 5 _ _ (omega arith) (omega arith)
                      (create_sealed-Sends (e2e_terms c rate decimals now)
                        (w.viem.keccak256 terms_hex) (bytes_to_hex cipher))
                      λ id.
                        bind-Sends e2e_plan 1 3 5 _ _ (omega arith) (omega arith)
                          (funded-Sends e2e_plan w 1 c.token c.vault id (pos (5 * 10 ^ decimals))
                            refl refl)
                          λ hash.
                            bind-Sends e2e_plan 3 3 5 _ _ (omega arith) (omega arith)
                              (ask_withdraw-Sends id (w.viem.keccak256 terms_hex)
                                (bytes_to_hex cipher))
                              λ auth.
                                bind-Sends e2e_plan 3 4 5 _ _ (omega arith) (omega arith)
                                  (withdraw_and_check-Sends id auth)
                                  λ paid.
                                    bind-Sends e2e_plan 4 5 5 _ _ (omega arith) (omega arith)
                                      (confirmed-Sends e2e_plan w 4 (reveal_terms id terms_hex) _
                                        refl)
                                      λ reveal_hash. pure-Sends e2e_plan 5 paid))

  -- Whatever the chain, the wallet, the enclave and the clock answer, e2e-coston2.ts asks the wallet
  -- for transactions in this order and without a repetition: the creation of a stream, the approval,
  -- the funding, the withdrawal and the revealing of the terms. Where it ends early, it has sent a
  -- first part of these, and where it ends well, all.
  pub end_to_end-Reached : Reached e2e_plan 0 5 (end_to_end w c per_second [])
  unfolding Sends
  end_to_end-Reached = end_to_end-Sends [] refl
