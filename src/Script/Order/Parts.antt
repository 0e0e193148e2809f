-- ===== src/Script/Order/Parts.antt =====
-- The stages of the parts that the scripts share.
use flare_stealthwage.Prelude.{ℕ, suc, ◌≡◌, List, ◌∷◌, ℤ, Text, arith}
use flare_stealthwage.Script.Run.{World, Transaction, approve, fund, confirmed, created, funded}
use flare_stealthwage.Script.Order.{
  Kind, approval, funding, kind_of, stage, Sends, send-Sends, pure-Sends, bind-Sends, ask-then,
  must-then,
}

module _ (plan : List Kind) (w : World) (i : ℕ) where
  pub confirmed-Sends :
      (tx : Transaction) (reverted : Text → Text)
      → kind_of tx ∷ stage plan i ≡ stage plan (suc i)
      → Sends plan i (suc i) (confirmed w tx reverted)
  confirmed-Sends tx reverted next =
      let at = suc i in
      bind-Sends plan i at at _ _ (omega arith) (omega arith)
        (send-Sends plan i tx (λ h. w.send h tx) next)
        λ hash.
          ask-then plan at at _ _ _ (omega arith) tt
            λ receipt. must-then plan at at _ _ _ (omega arith) (pure-Sends plan at hash)

  pub created-Sends :
      (tx : Transaction) (reverted : Text → Text) (missing : Text)
      → kind_of tx ∷ stage plan i ≡ stage plan (suc i)
      → Sends plan i (suc i) (created w tx reverted missing)
  created-Sends tx reverted missing next =
      let at = suc i in
      bind-Sends plan i at at _ _ (omega arith) (omega arith)
        (send-Sends plan i tx (λ h. w.send h tx) next)
        λ hash. ask-then plan at at _ _ _ (omega arith) tt λ receipt.
          must-then plan at at _ _ _ (omega arith)
            (must-then plan at at _ _ _ (omega arith) (pure-Sends plan at _))

module _ (plan : List Kind) (w : World) (i : ℕ) where
  pub funded-Sends :
      (token vault : Text) (id amount : ℤ)
      → approval ∷ stage plan i ≡ stage plan (suc i)
      → funding ∷ stage plan (suc i) ≡ stage plan (suc (suc i))
      → Sends plan i (suc (suc i)) (funded w token vault id amount)
  funded-Sends token vault id amount next then_next =
      let at = suc i in
      bind-Sends plan i at (suc at) _ _ (omega arith) (omega arith)
        (send-Sends plan i (approve token vault amount) _ next)
        λ hash.
          ask-then plan at (suc at) _ _ _ (omega arith) tt
            λ receipt. confirmed-Sends plan w (suc i) (fund id amount) _ then_next
