-- ===== src/Protocol/Accrual.antt =====
-- The accrual that the enclave signs: against its specification on whole numbers, its bounds and
-- its growth.
use Prim.Native.Nat.{min}
use flare_stealthwage.Prelude.{
  ℕ, ◌-◌, ◌*◌, ◌/◌, ◌≤◌, ◌≡◌, sym, ◌∙◌, pos, arith, if◌then◌else◌, ltb, leb, true, inl, inr,
  Bool-cases,
}
use flare_stealthwage.Protocol.Rates.{rate_scale, accrued_at}

-- What has accrued at `now`, in whole units: the rate by the seconds since the start, and never
-- more than the total.
abbrev pub accrued : ℕ → ℕ → ℕ → ℕ → ℕ
accrued rate total start now = min (rate * (now - start) / rate_scale) total

capped : (a b : ℕ) → (if ltb a b then pos a else pos b) ≡ pos (min a b)
capped a b = ground arith

-- On terms that are not negative, `accruedAt` is the scaled product of rate and elapsed seconds,
-- rounded down and capped by the total; before the start nothing has elapsed.
pub accrued_at-eq-accrued :
    (rate total start now : ℕ)
    → accrued_at (pos rate) (pos total) (pos start) (pos now) ≡ pos (accrued rate total start now)
unfolding accrued_at
accrued_at-eq-accrued rate total start now = elim (Bool-cases (ltb start now)) [
  | inl running ↦
      let after : leb start now ≡ true = ground arith in
      rw (running, after) (capped (rate * (now - start) / rate_scale) total)
  | inr early ↦
      let none_elapsed : now - start ≡ 0 = ground arith in
      rw (early, none_elapsed) (capped (rate * 0 / rate_scale) total)
]

div_mono : (a b : ℕ) → a ≤ b → a / rate_scale ≤ b / rate_scale
div_mono a b h = omega arith

pub mul_mono : (r a b : ℕ) → a ≤ b → r * a ≤ r * b
mul_mono r a b h = grind arith

accrued_mono :
    (rate total start now later : ℕ)
    → now ≤ later
    → (accrued rate total start now ≤ accrued rate total start later)
      × (accrued rate total start later ≤ total)
accrued_mono rate total start now later h = omega (
  arith,
  div_mono (rate * (now - start)) (rate * (later - start))
      (mul_mono rate (now - start) (later - start) (omega arith)),
)

pos_injective : {a b : ℕ} → pos a ≡ pos b → a ≡ b
pos_injective e = ground arith

-- What `accruedAt` gives on terms that are not negative.
pub accrued_at-value :
    (rate total start now : ℕ) {q : ℕ}
    → accrued_at (pos rate) (pos total) (pos start) (pos now) ≡ pos q
    → accrued rate total start now ≡ q
accrued_at-value rate total start now h =
    pos_injective (sym (accrued_at-eq-accrued rate total start now) ∙ h)

-- On terms that are not negative, `accruedAt` never falls as time passes and never exceeds the
-- total.
pub accrued_at_mono :
    (rate total start now later a b : ℕ)
    → now ≤ later
    → accrued_at (pos rate) (pos total) (pos start) (pos now) ≡ pos a
    → accrued_at (pos rate) (pos total) (pos start) (pos later) ≡ pos b
    → (a ≤ b) × (b ≤ total)
accrued_at_mono rate total start now later a b h ha hb =
    rw (← accrued_at-value rate total start now ha, ← accrued_at-value rate total start later hb)
      (accrued_mono rate total start now later h)
