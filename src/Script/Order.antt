-- ===== src/Script/Order.antt =====
-- The order in which a script sends its transactions.
pub mod Parts
pub mod Settling
pub mod Touring
pub mod Showing
use mathlib.Core.List.{reverse}
use flare_stealthwage.Prelude.{
  ℕ, zero, suc, ◌+◌, ◌≤◌, ◌≡◌, refl, sym, ap, ◌∙◌, Bool, true, false, List, [], ◌∷◌, Text, Result,
  ok, throw, take, arith,
}
use flare_stealthwage.Script.Run.{
  Transaction, create_stream, approve, fund, withdraw, cancel_stream, reveal_terms, Call, write,
  History, Exit, done, failed, exited, Run, ◌>>=◌, ◌>>◌, continue, lift, pure, ask, must, checked,
  exit_of,
}

pub data Kind : Type 0 where
  creation approval funding withdrawal cancellation revelation : Kind

abbrev pub kind_of : Transaction → Kind
kind_of (create_stream recipient token commitment start sealed) = creation
kind_of (approve token spender amount) = approval
kind_of (fund id amount) = funding
kind_of (withdraw id accrued deadline signature) = withdrawal
kind_of (cancel_stream id accrued deadline signature) = cancellation
kind_of (reveal_terms id terms) = revelation

-- The kinds of the transactions that were asked for, the last one first.
abbrev pub sent : History → List Kind
sent [] = []
sent (write tx ∷ h) = kind_of tx ∷ sent h
sent (_ ∷ h) = sent h

-- Whether a call sends nothing.
abbrev pub Quiet : Call → Type 0
Quiet (write tx) = ⊥
Quiet _ = Unit

sent-Quiet : (c : Call) (h : History) → Quiet c → sent (c ∷ h) ≡ sent h
sent-Quiet (write tx) h q = absurd q
sent-Quiet _ h q = refl

module _ (plan : List Kind) where
  -- The first `n` of the plan, the last one first.
  abbrev pub stage : ℕ → List Kind
  stage n = reverse (take n plan)

  abbrev pub Reached {ℓ} : {A : Type ℓ} → ℕ → ℕ → History × Exit A → Type 0
  Reached i j (h, done a) = sent h ≡ stage j
  Reached i j (h, failed e) = (n : ℕ) × (i ≤ n) × (n ≤ j) × (sent h ≡ stage n)
  Reached i j (h, exited m) = (n : ℕ) × (i ≤ n) × (n ≤ j) × (sent h ≡ stage n)

  -- A part of a script that goes from the stage `i` of the plan to the stage `j`: it gets there if it
  -- goes on, and stops at a stage between if it does not.
  unfoldable pub Sends {ℓ} : {A : Type ℓ} → ℕ → ℕ → Run A → Type 0
  Sends i j m = (h : History) → sent h ≡ stage i → Reached i j (m h)

  Reached-exit {ℓ} :
      {A : Type ℓ} (i j : ℕ) (h : History) (r : Result A)
      → i ≤ j
      → sent h ≡ stage j
      → Reached i j (h, exit_of r)
  Reached-exit i j h (ok a) le e = e
  Reached-exit i j h (throw x) le e = (j, le, omega arith, e)

  pub ask-Sends {ℓ} :
      {A : Type ℓ} (i : ℕ) (c : Call) (answer : History → Result A)
      → Quiet c
      → Sends i i (ask c answer)
  unfolding Sends ask
  ask-Sends i c answer q h e =
      Reached-exit i i (c ∷ h) (answer h) (omega arith) (sent-Quiet c h q ∙ e)

  pub send-Sends {ℓ} :
      {A : Type ℓ} (i : ℕ) (tx : Transaction) (answer : History → Result A)
      → kind_of tx ∷ stage i ≡ stage (suc i)
      → Sends i (suc i) (ask (write tx) answer)
  unfolding Sends ask
  send-Sends i tx answer next h e =
      Reached-exit i (suc i) (write tx ∷ h) (answer h) (omega arith)
        (ap (λ s. kind_of tx ∷ s) e ∙ next)

  pub lift-Sends {ℓ} : {A : Type ℓ} (i : ℕ) (r : Result A) → Sends i i (lift r)
  unfolding Sends lift
  lift-Sends i r h e = Reached-exit i i h r (omega arith) e

  pub pure-Sends {ℓ} : {A : Type ℓ} (i : ℕ) (a : A) → Sends i i (pure a)
  unfolding Sends pure
  pure-Sends i a h e = e

  pub must-Sends : (i : ℕ) (b : Bool) (msg : Text) → Sends i i (must b msg)
  unfolding Sends must
  must-Sends i true msg h e = e
  must-Sends i false msg h e = (i, omega arith, omega arith, e)

  widened {ℓ} :
      {A : Type ℓ} (i j k : ℕ) (r : History × Exit A) → i ≤ j → Reached j k r → Reached i k r
  widened i j k (h, done a) le g = g
  widened i j k (h, failed x) le (n, low, high, e) = (n, omega arith, high, e)
  widened i j k (h, exited m) le (n, low, high, e) = (n, omega arith, high, e)

  continue-Reached {ℓ κ} :
      {A : Type ℓ} {B : Type κ} (i j k : ℕ) (r : History × Exit A) (f : A → Run B)
      → i ≤ j
      → j ≤ k
      → Reached i j r
      → ((a : A) → Sends j k (f a))
      → Reached i k (continue r f)
  unfolding Sends
  continue-Reached i j k (h, done a) f ij jk g more = widened i j k (f a h) ij (more a h g)
  continue-Reached i j k (h, failed x) f ij jk (n, low, high, e) more = (n, low, omega arith, e)
  continue-Reached i j k (h, exited m) f ij jk (n, low, high, e) more = (n, low, omega arith, e)

  pub bind-Sends {ℓ κ} :
      {A : Type ℓ} {B : Type κ} (i j k : ℕ) (m : Run A) (f : A → Run B)
      → i ≤ j
      → j ≤ k
      → Sends i j m
      → ((a : A) → Sends j k (f a))
      → Sends i k (m >>= f)
  unfolding Sends ◌>>=◌
  bind-Sends i j k m f ij jk first more h e = continue-Reached i j k (m h) f ij jk (first h e) more

  -- A part that sends nothing, before one that may.
  pub quiet-Sends {ℓ κ} :
      {A : Type ℓ} {B : Type κ} (i k : ℕ) (m : Run A) (f : A → Run B)
      → i ≤ k
      → Sends i i m
      → ((a : A) → Sends i k (f a))
      → Sends i k (m >>= f)
  quiet-Sends i k m f ik first more = bind-Sends i i k m f (omega arith) ik first more

  -- The steps that send nothing, each before the rest of a script.
  pub ask-then {ℓ κ} :
      {A : Type ℓ} {B : Type κ} (i k : ℕ) (c : Call) (answer : History → Result A) (f : A → Run B)
      → i ≤ k
      → Quiet c
      → ((a : A) → Sends i k (f a))
      → Sends i k (ask c answer >>= f)
  ask-then i k c answer f le q more = quiet-Sends i k _ _ le (ask-Sends i _ _ q) more

  pub lift-then {ℓ κ} :
      {A : Type ℓ} {B : Type κ} (i k : ℕ) (r : Result A) (f : A → Run B)
      → i ≤ k
      → ((a : A) → Sends i k (f a))
      → Sends i k (lift r >>= f)
  lift-then i k r f le more = quiet-Sends i k _ _ le (lift-Sends i _) more

  pub must-then {κ} :
      {B : Type κ} (i k : ℕ) (b : Bool) (msg : Text) (m : Run B)
      → i ≤ k
      → Sends i k m
      → Sends i k (must b msg >> m)
  must-then i k b msg m le more = quiet-Sends i k _ _ le (must-Sends i _ _) λ _. more
