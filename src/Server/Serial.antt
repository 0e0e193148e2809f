-- ===== src/Server/Serial.antt =====
-- The order of the jobs of the server.
use flare_stealthwage.Prelude.{
  ℕ, ◌≤◌, ◌<◌, ◌≡◌, inl, inr, refl, sym, ap, ◌∙◌, none, some, true, false, leb, arith, Bool-cases,
}
use flare_stealthwage.Server.Queue.{
  Job, settle, await, never, Promise, absent, waiting, running, settled, Loop, set_promise,
  is_settled, is_started, is_ready, moved, stepped, step, Reach, opening, arrival, progress,
}
use flare_stealthwage.Server.Chained.{IsSerial, serialize-IsSerial, goes_on-IsSerial, ready_past}

module _ {S A : Type 0} where
  below_count :
      (k : ℕ) (l : Loop S A) (p : Promise S A)
      → IsSerial l
      → l.promises k ≡ p
      → (absent ≡ p → ⊥)
      → k < l.count
  below_count k l p i is there = elim (Bool-cases (leb l.count k)) [
    | inl above ↦
        let outside : l.count ≤ k = ground arith in absurd (there (sym (i.fresh k outside) ∙ is))
    | inr below ↦ ground arith
  ]

  moved-IsSerial :
      (k : ℕ) (p q : Promise S A) (s : S) (l l' : Loop S A)
      → IsSerial l
      → l.promises k ≡ q
      → is_settled q ≡ false
      → (absent ≡ q → ⊥)
      → is_started p ≡ true
      → ((j : ℕ) → j < k → is_settled (l.promises j) ≡ true)
      → moved k p s l ≡ some l'
      → IsSerial l'
  moved-IsSerial k p q s l l' i is unsettled there started past h =
      let e : record l { promises = set_promise k p l.promises; state = s } ≡ l' = cc in
      rw (← e) (
        goes_on-IsSerial k p s l i (below_count k l q i is there) (ap is_settled is ∙ unsettled)
          started past)

  -- What is before a running job.
  running_past :
      (k : ℕ) (job : Job S A) (l : Loop S A)
      → IsSerial l
      → l.promises k ≡ running job
      → (j : ℕ) → j < k
      → is_settled (l.promises j) ≡ true
  running_past k job l i is j below = i.ordered j k below (ap is_started is)

  stepped-IsSerial :
      (k : ℕ) (p : Promise S A) (l l' : Loop S A)
      → IsSerial l
      → l.promises k ≡ p
      → stepped k l p ≡ some l'
      → IsSerial l'
  stepped-IsSerial k absent l l' i is h = cc
  stepped-IsSerial k (settled r) l l' i is h = cc
  stepped-IsSerial k (running never) l l' i is h = cc
  stepped-IsSerial k (running (settle r)) l l' i is h =
      moved-IsSerial k (settled r) (running (settle r)) l.state l l' i is refl (λ e. cc) refl
        (running_past k (settle r) l i is) h
  stepped-IsSerial k (running (await change more)) l l' i is h =
      moved-IsSerial k (running (more l.state)) (running (await change more)) (change l.state) l l'
        i is refl (λ e. cc) refl (running_past k (await change more) l i is) h
  stepped-IsSerial k (waiting job after) l l' i is h =
      elim (Bool-cases (is_ready l.promises after)) [
        | inl ready ↦
            let same = i.linked k job after is in
            moved-IsSerial k (running job) (waiting job after) l.state l l' i is refl (λ e. cc) refl
              (ready_past k l i (ap (is_ready l.promises) (sym same) ∙ ready)) (rw ready at h)
        | inr other ↦ let stays : none ≡ some l' = rw other at h in cc
      ]

  pub Reach-IsSerial : (s₀ : S) (l : Loop S A) → Reach s₀ l → IsSerial l
  unfolding step
  Reach-IsSerial s₀ l opening = record {
    last = refl;
    fresh = λ k above. refl;
    present = λ k below. absurd (omega arith);
    linked = λ k job after e. cc;
    ordered = λ j k below e. cc;
  }
  Reach-IsSerial s₀ _ (arrival {l} job r) = serialize-IsSerial job l (Reach-IsSerial s₀ l r)
  Reach-IsSerial s₀ _ (progress {l} {l'} k r h) =
      stepped-IsSerial k (l.promises k) l l' (Reach-IsSerial s₀ l r) refl h

  -- In whatever order requests arrive and the event loop goes on with promises: where the job of a call
  -- of `serialize` has begun, the jobs of all earlier calls have settled. So jobs begin in the order of
  -- the calls, and no two run at once, not even between an `await` and what follows it.
  pub Reach-ordered :
      (s₀ : S) (l : Loop S A) (j k : ℕ)
      → Reach s₀ l
      → j < k
      → is_started (l.promises k) ≡ true
      → is_settled (l.promises j) ≡ true
  Reach-ordered s₀ l j k r below started = (Reach-IsSerial s₀ l r).ordered j k below started
