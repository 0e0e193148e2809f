-- ===== src/Server/Queue.antt =====
-- The promises of typescript/src/base/server.ts: `serialize` and the promise in `queue`. A job is an
-- asynchronous function: it works on the state up to an `await`, where anything else may go on, and
-- it may never come back from one.
use flare_stealthwage.Prelude.{
  ℕ, suc, ◌≡◌, Option, none, some, Result, Bool, true, false, ◌==◌, if◌then◌else◌,
}

module _ (S : Type 0) (A : Type 0) where
  -- The rest of a job: it ends, with a value or rejected, it changes the state and goes on behind an
  -- `await`, or it waits for what never settles.
  pub data Job : Type 0 where
    settle : Result A → Job
    await : (S → S) → (S → Job) → Job
    never : Job

  -- The promise `run` of a call of `serialize`: its `then` waits for another promise (`none` is the
  -- resolved one that the queue starts with), its job runs, or it has settled.
  pub data Promise : Type 0 where
    absent : Promise
    waiting : Job → Option ℕ → Promise
    running : Job → Promise
    settled : Result A → Promise

-- The promises in the order of the calls, and the one that `queue` holds: behind the promise `run` of
-- a call, `run.then(() => undefined, () => undefined)` settles when that does, either way.
pub record Loop (S : Type 0) (A : Type 0) : Type 0 where
  pub count : ℕ
  pub queue : Option ℕ
  pub promises : ℕ → Promise S A
  pub state : S

module _ {S A : Type 0} where
  unfoldable pub set_promise : ℕ → Promise S A → (ℕ → Promise S A) → ℕ → Promise S A
  set_promise k p promises j = if j == k then p else promises j

  -- `serialize`: `run = this.queue.then(fn, fn)`, and the queue is what comes behind it.
  unfoldable pub serialize : Job S A → Loop S A → Loop S A
  serialize job l = record {
    count = suc l.count;
    queue = some l.count;
    promises = set_promise l.count (waiting job l.queue) l.promises;
    state = l.state;
  }

  abbrev pub is_settled : Promise S A → Bool
  is_settled (settled r) = true
  is_settled _ = false

  -- The job has begun.
  abbrev pub is_started : Promise S A → Bool
  is_started (running job) = true
  is_started (settled r) = true
  is_started _ = false

  -- Whether what a `then` waits for has settled.
  abbrev pub is_ready : (ℕ → Promise S A) → Option ℕ → Bool
  is_ready promises none = true
  is_ready promises (some j) = is_settled (promises j)

  abbrev pub moved : ℕ → Promise S A → S → Loop S A → Option (Loop S A)
  moved k p s l = some (record l { promises = set_promise k p l.promises; state = s })

  -- What the event loop can do next for a promise: nothing, or it calls the job, lets it go on behind
  -- an `await`, or settles the promise with what the job returned or threw.
  abbrev pub stepped : ℕ → Loop S A → Promise S A → Option (Loop S A)
  stepped k l absent = none
  stepped k l (settled r) = none
  stepped k l (waiting job after) =
      if is_ready l.promises after then moved k (running job) l.state l else none
  stepped k l (running (settle r)) = moved k (settled r) l.state l
  stepped k l (running (await change more)) = moved k (running (more l.state)) (change l.state) l
  stepped k l (running never) = none

  unfoldable pub step : ℕ → Loop S A → Option (Loop S A)
  step k l = stepped k l (l.promises k)

  -- The server with no request yet.
  abbrev pub idle : S → Loop S A
  idle s = record { count = 0; queue = none; promises = λ k. absent; state = s }

  -- What can happen to a server, in any order: a request calls `serialize`, or the event loop goes on
  -- with any promise.
  pub data Reach (s₀ : S) : Loop S A → Type 0 where
    opening : Reach s₀ (idle s₀)
    arrival : {l : Loop S A} (job : Job S A) → Reach s₀ l → Reach s₀ (serialize job l)
    progress : {l l' : Loop S A} (k : ℕ) → Reach s₀ l → step k l ≡ some l' → Reach s₀ l'
