-- ===== src/Server/Chained.antt =====
-- Calls of `serialize` that wait for one another, and one of them that goes on.
use flare_stealthwage.Prelude.{
  ℕ, zero, suc, ◌≤◌, ◌<◌, ◌≡◌, inl, inr, refl, sym, ap, ◌∙◌, Option, none, some, Bool, true, false,
  ◌==◌, arith, Bool-cases,
}
use flare_stealthwage.Server.Queue.{
  Job, Promise, absent, waiting, running, settled, Loop, set_promise, serialize, is_settled,
  is_started, is_ready,
}

-- The promise of the call before.
abbrev pub before : ℕ → Option ℕ
before zero = none
before (suc k) = some k

module _ {S A : Type 0} where
  abbrev pub is_absent : Promise S A → Bool
  is_absent absent = true
  is_absent _ = false

  -- Every call waits for the one before it, the queue holds the last one, and where a job has begun all
  -- those before it have settled.
  pub record IsSerial (l : Loop S A) : Type 0 where
    pub last : l.queue ≡ before l.count
    pub fresh : (k : ℕ) → l.count ≤ k → l.promises k ≡ absent
    pub present : (k : ℕ) → k < l.count → is_absent (l.promises k) ≡ false
    pub linked :
        (k : ℕ) (job : Job S A) (after : Option ℕ)
        → l.promises k ≡ waiting job after
        → after ≡ before k
    pub ordered :
        (j k : ℕ) → j < k → is_started (l.promises k) ≡ true → is_settled (l.promises j) ≡ true

  set-here :
      (k : ℕ) (p : Promise S A) (promises : ℕ → Promise S A) (j : ℕ)
      → (j == k) ≡ true
      → set_promise k p promises j ≡ p
  unfolding set_promise
  set-here k p promises j h = rw h refl

  set-other :
      (k : ℕ) (p : Promise S A) (promises : ℕ → Promise S A) (j : ℕ)
      → (j == k) ≡ false
      → set_promise k p promises j ≡ promises j
  unfolding set_promise
  set-other k p promises j h = rw h refl

  waiting_injective :
      {job job' : Job S A} {after after' : Option ℕ}
      → waiting job after ≡ waiting job' after'
      → after ≡ after'
  waiting_injective e = cc

  pub serialize-IsSerial : (job : Job S A) (l : Loop S A) → IsSerial l → IsSerial (serialize job l)
  unfolding serialize
  serialize-IsSerial job l i =
      let new = Promise.waiting job l.queue in
      record {
        last = refl;
        fresh = λ k above.
            rw (set-other l.count new l.promises k (ground arith)) (i.fresh k (omega arith));
        present = λ k below. elim (Bool-cases (k == l.count)) [
          | inl here ↦ rw (set-here l.count new l.promises k here) refl
          | inr other ↦ rw (set-other l.count new l.promises k other) (i.present k (ground arith))
        ];
        linked = λ k job' after e. elim (Bool-cases (k == l.count)) [
          | inl here ↦
              let same : k ≡ l.count = ground arith in
              sym (waiting_injective (sym (set-here l.count new l.promises k here) ∙ e))
              ∙ i.last
              ∙ ap before (sym same)
          | inr other ↦ i.linked k job' after (sym (set-other l.count new l.promises k other) ∙ e)
        ];
        ordered = λ j k below e. elim (Bool-cases (k == l.count)) [
          | inl here ↦ cc (set-here l.count new l.promises k here)
          | inr other ↦
              let started : is_started (l.promises k) ≡ true =
                ap is_started (sym (set-other l.count new l.promises k other)) ∙ e in
              elim (Bool-cases (j == l.count)) [
                | inl here ↦ let above : l.count ≤ k = ground arith in cc (i.fresh k above, started)
                | inr apart ↦
                    rw (set-other l.count new l.promises j apart) (i.ordered j k below started)
              ]
        ];
      }

  started_present : (p : Promise S A) → is_started p ≡ true → is_absent p ≡ false
  started_present absent h = cc
  started_present (waiting job after) h = refl
  started_present (running job) h = refl
  started_present (settled r) h = refl

  -- A promise that has not settled goes on, where those before it have settled.
  pub goes_on-IsSerial :
      (k : ℕ) (p : Promise S A) (s : S) (l : Loop S A)
      → IsSerial l
      → k < l.count
      → is_settled (l.promises k) ≡ false
      → is_started p ≡ true
      → ((j : ℕ) → j < k → is_settled (l.promises j) ≡ true)
      → IsSerial (record l { promises = set_promise k p l.promises; state = s })
  goes_on-IsSerial k p s l i there unsettled started past = record {
    last = i.last;
    fresh = λ m above. rw (set-other k p l.promises m (ground arith)) (i.fresh m above);
    present = λ m below. elim (Bool-cases (m == k)) [
      | inl here ↦ rw (set-here k p l.promises m here) (started_present p started)
      | inr other ↦ rw (set-other k p l.promises m other) (i.present m below)
    ];
    linked = λ m job after e. elim (Bool-cases (m == k)) [
      | inl here ↦ cc (set-here k p l.promises m here)
      | inr other ↦ i.linked m job after (sym (set-other k p l.promises m other) ∙ e)
    ];
    ordered = λ j m below e. elim (Bool-cases (m == k)) [
      | inl here ↦ rw (set-other k p l.promises j (ground arith)) (past j (ground arith))
      | inr other ↦
          let started' : is_started (l.promises m) ≡ true =
            ap is_started (sym (set-other k p l.promises m other)) ∙ e in
          elim (Bool-cases (j == k)) [
            | inl here ↦
                let same : j ≡ k = ground arith in cc (i.ordered j m below started', unsettled)
            | inr apart ↦ rw (set-other k p l.promises j apart) (i.ordered j m below started')
          ]
    ];
  }

  -- Where a `then` is ready, all the promises before it have settled.
  pub ready_past :
      (k : ℕ) (l : Loop S A)
      → IsSerial l
      → is_ready l.promises (before k) ≡ true
      → (j : ℕ) → j < k
      → is_settled (l.promises j) ≡ true
  ready_past zero l i h j below = absurd (omega arith)
  ready_past (suc n) l i h j below = elim (Bool-cases (j == n)) [
    | inl here ↦ let same : j ≡ n = ground arith in rw same h
    | inr other ↦ i.ordered j n (ground arith) (settled_started (l.promises n) h)
  ]
    where
      settled_started : (p : Promise S A) → is_settled p ≡ true → is_started p ≡ true
      settled_started absent h = cc
      settled_started (waiting job after) h = cc
      settled_started (running job) h = refl
      settled_started (settled r) h = refl
