-- ===== src/Vault/History.antt =====
-- Any history of successful calls on one stream, with the totals that they moved.
use flare_stealthwage.Prelude.{ℕ, ◌+◌, ◌≤◌, ◌≡◌, ◌⊎◌, true, false, arith}
use flare_stealthwage.Vault.State.{Stream, Moved}
use flare_stealthwage.Vault.Money.{IsValid, Accounts, Step, Step-Accounts, Step-bound}

-- What was put in, paid to the recipient and refunded to the employer so far.
pub record Totals : Type 0 where
  pub taken : ℕ
  pub paid : ℕ
  pub refunded : ℕ

abbrev pub nothing : Totals
nothing = record { taken = 0; paid = 0; refunded = 0 }

abbrev pub plus : Totals → Moved → Totals
plus t m = record {
  taken = t.taken + m.taken;
  paid = t.paid + m.paid;
  refunded = t.refunded + m.refunded;
}

-- The states that calls reach from a stream as `createStream` leaves it.
pub data Reach (bound : ℕ) (created : Stream) : Stream → Totals → Type 0 where
  start : Reach bound created created nothing
  next :
      {s : Stream} {t : Totals} (m : Moved)
      → Reach bound created s t
      → Step bound s m
      → Reach bound created m.stream (plus t m)

-- The books of a stream: the recipient was paid `withdrawn`, the vault took in `funded`, refunds come
-- only with cancellation, and then nothing is left; and no more was paid than the largest accrual that
-- was authorized.
pub record Balanced (bound : ℕ) (s : Stream) (t : Totals) : Type 0 where
  pub valid : IsValid s
  pub taken : t.taken ≡ s.funded
  pub paid : t.paid ≡ s.withdrawn
  pub capped : t.paid ≤ bound
  pub left :
      ((s.cancelled ≡ false) × (t.refunded ≡ 0))
      ⊎ ((s.cancelled ≡ true) × (t.paid + t.refunded ≡ t.taken))

-- A stream as `createStream` makes it.
pub record IsNew (s : Stream) : Type 0 where
  pub funded : s.funded ≡ 0
  pub withdrawn : s.withdrawn ≡ 0
  pub cancelled : s.cancelled ≡ false

step-Balanced :
    (bound : ℕ) (s : Stream) (t : Totals) (m : Moved)
    → Balanced bound s t
    → Accounts s m
    → m.stream.withdrawn ≤ bound
    → Balanced bound m.stream (plus t m)
step-Balanced bound s t m b a c = ground arith

-- After any calls of `fund`, `withdraw` and `cancelStream` on a new stream, by any callers and in any
-- order, the books balance: the recipient and the employer together were paid no more than was put
-- in, exactly that much once the stream is cancelled, and the recipient no more than the largest
-- accrual that was authorized.
pub Reach-Balanced :
    {bound : ℕ} {created s : Stream} {t : Totals}
    → IsNew created
    → Reach bound created s t
    → Balanced bound s t
Reach-Balanced n start = ground arith
Reach-Balanced {bound} n (next {s} {t} m r step) =
    let b = Reach-Balanced n r in
    step-Balanced bound s t m b (Step-Accounts bound s m b.valid step)
      (Step-bound bound s m step (omega arith))
