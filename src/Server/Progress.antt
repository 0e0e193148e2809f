-- ===== src/Server/Progress.antt =====
-- When the event loop can go on with the promises of the server.
use flare_stealthwage.Prelude.{
  ℕ, zero, suc, ◌≤◌, ◌<◌, ◌≡◌, ◌⊎◌, inl, inr, refl, sym, ap, ◌∙◌, Option, none, some, true, false,
  arith, Bool-cases,
}
use flare_stealthwage.Server.Queue.{
  Job, settle, await, never, Promise, absent, waiting, running, settled, Loop, set_promise,
  is_settled, is_started, is_ready, stepped, step, Reach,
}
use flare_stealthwage.Server.Chained.{IsSerial, before}
use flare_stealthwage.Server.Serial.{Reach-IsSerial, Reach-ordered}

module _ {S A : Type 0} where
  -- The event loop can go on with a promise, or its job waits for what never settles.
  abbrev pub GoesOn : Loop S A → ℕ → Type 0
  GoesOn l j = ((l' : Loop S A) × (step j l ≡ some l')) ⊎ (l.promises j ≡ running never)

  abbrev Held : Loop S A → ℕ → Type 0
  Held l k = (j : ℕ) × (j ≤ k) × GoesOn l j

  waiting-Held :
      (k : ℕ) (job : Job S A) (after : Option ℕ) (l : Loop S A)
      → l.promises k ≡ waiting job after
      → is_ready l.promises after ≡ true
      → Held l k
  unfolding step
  waiting-Held k job after l is ready = (
    k,
    omega arith,
    inl (
      record l { promises = set_promise k (running job) l.promises; state = l.state },
      rw (is, ready) refl,
    ),
  )

  running-Held : (k : ℕ) (job : Job S A) (l : Loop S A) → l.promises k ≡ running job → Held l k
  unfolding step
  running-Held k (settle r) l is = (k, omega arith, inl (_, ap (stepped k l) is))
  running-Held k (await change more) l is = (k, omega arith, inl (_, ap (stepped k l) is))
  running-Held k never l is = (k, omega arith, inr is)

  -- The call before has settled, or it holds this one up.
  after_one_before :
      (k : ℕ) (job : Job S A) (l : Loop S A)
      → l.promises k ≡ waiting job (before k)
      → ((n : ℕ) → k ≡ suc n → is_settled (l.promises n) ≡ false → Held l n)
      → Held l k
  after_one_before zero job l is earlier = waiting-Held zero job none l is refl
  after_one_before (suc n) job l is earlier = elim (Bool-cases (is_settled (l.promises n))) [
    | inl ready ↦ waiting-Held (suc n) job (some n) l is ready
    | inr held ↦ let (j, below, goes) = earlier n refl held in (j, omega arith, goes)
  ]

  kept_back :
      (k : ℕ) (p : Promise S A) (l : Loop S A)
      → IsSerial l
      → k < l.count
      → l.promises k ≡ p
      → is_settled p ≡ false
      → ((n : ℕ) → k ≡ suc n → is_settled (l.promises n) ≡ false → Held l n)
      → Held l k
  kept_back k absent l i below is unsettled earlier = cc (i.present k below)
  kept_back k (settled r) l i below is unsettled earlier = cc
  kept_back k (running job) l i below is unsettled earlier = running-Held k job l is
  kept_back k (waiting job after) l i below is unsettled earlier =
      let same = i.linked k job after is in
      after_one_before k job l (is ∙ ap (λ a. Promise.waiting job a) same) earlier

  unsettled-Held :
      (k : ℕ) (l : Loop S A)
      → IsSerial l
      → k < l.count
      → is_settled (l.promises k) ≡ false
      → Held l k
  unsettled-Held zero l i below unsettled =
      kept_back zero (l.promises zero) l i below refl unsettled (λ n e. absurd (omega arith))
  unsettled-Held (suc m) l i below unsettled =
      kept_back (suc m) (l.promises (suc m)) l i below refl unsettled (λ n e held.
        let same : n ≡ m = omega (arith, e) in
        rw same (
          unsettled-Held m l i (omega arith)
            (ap (λ a. is_settled (l.promises a)) (sym same) ∙ held)))

  not_begun :
      (s₀ : S) (l : Loop S A) (k i : ℕ)
      → Reach s₀ l
      → is_settled (l.promises k) ≡ false
      → k < i
      → is_started (l.promises i) ≡ false
  not_begun s₀ l k i r unsettled behind = elim (Bool-cases (is_started (l.promises i))) [
    | inl begun ↦ cc (Reach-ordered s₀ l k i r behind begun, unsettled)
    | inr waits ↦ waits
  ]

  -- In whatever order requests arrive and the event loop goes on with promises, and whichever jobs are
  -- rejected: while the promise of a call of `serialize` has not settled, the job of no later call has
  -- begun, and the event loop can go on with the promise of this call or of an earlier one, unless the
  -- job of that one waits for what never settles.
  pub Reach-GoesOn :
      (s₀ : S) (l : Loop S A) (k i : ℕ)
      → Reach s₀ l
      → k < l.count
      → is_settled (l.promises k) ≡ false
      → k < i
      → (is_started (l.promises i) ≡ false) × ((j : ℕ) × (j ≤ k) × GoesOn l j)
  Reach-GoesOn s₀ l k i r below unsettled behind = (
    not_begun s₀ l k i r unsettled behind,
    unsettled-Held k l (Reach-IsSerial s₀ l r) below unsettled,
  )
