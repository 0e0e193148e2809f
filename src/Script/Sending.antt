-- ===== src/Script/Sending.antt =====
-- Transactions among the calls of a script.
use mathlib.Core.List.{append-nil}
use flare_stealthwage.Prelude.{◌≡◌, sym, ap, ◌∙◌, [], ◌∷◌, ◌++◌, ℤ, Text}
use flare_stealthwage.Script.Run.{
  World, Call, write, Transaction, fund, History, confirmed, funded, created,
}
use flare_stealthwage.Script.Traces.{
  Extends, Extends-refl, Extends-trans, Grows, ask-Grows, pure-Grows, bind-Grows, must-Grows, Ends,
  bind-Ends, ask-Ends, Grows-Ends, weaken-Ends, grown-Ends,
}

-- A transaction was sent after the calls `h`, and before those that `h'` has.
abbrev pub Sent : Transaction → History → History → Type 0
Sent tx h h' = (earlier : History) × Extends h earlier × Extends (write tx ∷ earlier) h'

pub call-Extends : {c : Call} {h h' : History} → h' ≡ c ∷ h → Extends h h'
call-Extends {c} e = (c ∷ [], e)

pub same-Extends : {h h' : History} → h' ≡ h → Extends h h'
same-Extends e = ([], e)

pub nil-Extends : (h : History) → Extends [] h
nil-Extends h = (h, sym (append-nil h))

pub Sent-later : {tx : Transaction} {h h' k : History} → Sent tx h h' → Extends h' k → Sent tx h k
Sent-later (earlier, before, sent) x = (earlier, before, Extends-trans sent x)

pub Sent-earlier : {tx : Transaction} {k h h' : History} → Extends k h → Sent tx h h' → Sent tx k h'
Sent-earlier x (earlier, before, sent) = (earlier, Extends-trans x before, sent)

module _ (w : World) where
  pub confirmed-Ends :
      (tx : Transaction) (msg : Text → Text) (h : History)
      → Ends (λ h' a. Sent tx h h') (confirmed w tx msg) h
  confirmed-Ends tx msg h =
      bind-Ends _ (λ h' a. Sent tx h h') _ _ h (ask-Ends _ _ h)
        λ h' hash e.
          weaken-Ends _ (λ h' a. Sent tx h h') _ h'
            (λ k a x. (h, Extends-refl h, subst_start (e.0) x))
            (Grows-Ends _ h' (
              bind-Grows _ _ (ask-Grows _ _)
                λ receipt. bind-Grows _ _ (must-Grows _ _) λ u. pure-Grows hash))
    where
      subst_start : {k l m : History} → k ≡ l → Extends k m → Extends l m
      subst_start e (s, e') = (s, e' ∙ ap (λ l. s ++ l) e)

  confirmed-Grows : (tx : Transaction) (msg : Text → Text) → Grows (confirmed w tx msg)
  confirmed-Grows tx msg = bind-Grows _ _ (ask-Grows _ _) λ hash.
      bind-Grows _ _ (ask-Grows _ _) λ receipt. bind-Grows _ _ (must-Grows _ _) λ u. pure-Grows hash

  pub created-Grows :
      (tx : Transaction) (reverted : Text → Text) (missing : Text)
      → Grows (created w tx reverted missing)
  created-Grows tx reverted missing = bind-Grows _ _ (ask-Grows _ _) λ hash.
      bind-Grows _ _ (ask-Grows _ _) λ receipt.
        bind-Grows _ _ (must-Grows _ _) λ u. bind-Grows _ _ (must-Grows _ _) λ u'. pure-Grows _

  pub funded-Ends :
      (token vault : Text) (id amount : ℤ) (h : History)
      → Ends (λ h' a. Sent (fund id amount) h h') (funded w token vault id amount) h
  funded-Ends token vault id amount h =
      let Q = λ (h' : History) (a : Text). Sent (fund id amount) h h' in
      grown-Ends Q _ _ h (ask-Grows _ _) λ h1 hash x1.
        grown-Ends Q _ _ h1 (ask-Grows _ _) λ h2 receipt x2.
          weaken-Ends _ Q _ h2 (λ k a s. (s.0, Extends-trans x1 (Extends-trans x2 s.1), s.2))
            (confirmed-Ends (fund id amount) _ h2)
