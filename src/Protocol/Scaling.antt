-- ===== src/Protocol/Scaling.antt =====
-- What the rounding of a rate per day costs.
use Prim.Native.Nat.{min}
use flare_stealthwage.Prelude.{ℕ, ◌+◌, ◌-◌, ◌*◌, ◌/◌, ◌≤◌, ◌<◌, ◌≡◌, refl, pos, arith, ap, sym, ◌∙◌}
use flare_stealthwage.Protocol.Rates.{rate_scale, rate_per_day_to_scaled, accrued_at}
use flare_stealthwage.Protocol.Accrual.{accrued_at-value, mul_mono}

-- The scaled rate of a number of units per day that is not negative.
pub rate_per_day_lem :
    (units : ℕ) → rate_per_day_to_scaled (pos units) ≡ pos (units * rate_scale / 86_400)
unfolding rate_per_day_to_scaled
rate_per_day_lem units = refl

-- A quotient of a product by the scale, between its neighbours.
abbrev Between : ℕ → ℕ → ℕ → Type 0
Between q a n = (q * n ≤ a) × (a < (q + 1) * n)

scaled-Between : (units : ℕ) → Between (units * rate_scale / 86_400) (units * rate_scale) 86_400
scaled-Between units = omega arith

product-Between : (p : ℕ) → Between (p / rate_scale) p rate_scale
product-Between p = omega arith

never_over :
    (units rate n q : ℕ)
    → rate * 86_400 ≤ units * rate_scale
    → q * rate_scale ≤ rate * n
    → q * 86_400 ≤ units * n
never_over units rate n q h k = omega (arith, mul_mono n (rate * 86_400) (units * rate_scale) h)

under_by_two :
    (units rate n q : ℕ)
    → n ≤ rate_scale
    → units * rate_scale < (rate + 1) * 86_400
    → rate * n < (q + 1) * rate_scale
    → units * n < (q + 2) * 86_400
under_by_two units rate n q fits h k =
    omega (arith, mul_mono n (units * rate_scale + 1) ((rate + 1) * 86_400) (omega arith))

pos_injective : {a b : ℕ} → pos a ≡ pos b → a ≡ b
pos_injective e = ground arith

min_below : (q total : ℕ) {a : ℕ} → a ≡ min q total → a < total → a ≡ q
min_below q total e h = omega arith

-- At a scaled rate that `ratePerDayToScaled` gives for `units` a day, what `accruedAt` gives `n`
-- seconds after the start, while below the total, is never more than the exact share
-- `units * n / 86400`, and less than two units under it, for up to 10 ^ 12 seconds.
pub accrued_at-rate_per_day :
    (units total start n rate q : ℕ)
    → rate_per_day_to_scaled (pos units) ≡ pos rate
    → accrued_at (pos rate) (pos total) (pos start) (pos (start + n)) ≡ pos q
    → n ≤ rate_scale
    → q < total
    → (q * 86_400 ≤ units * n) × (units * n < (q + 2) * 86_400)
accrued_at-rate_per_day units total start n rate q e value fits below = rw same (
  never_over units rate n (rate * n / rate_scale) (omega (arith, rounded))
      (product-Between (rate * n)).0,
  under_by_two units rate n (rate * n / rate_scale) fits (omega (arith, rounded))
      (product-Between (rate * n)).1,
)
  where
    elapsed : start + n - start ≡ n
    elapsed = omega arith

    same : q ≡ rate * n / rate_scale
    same =
        min_below _ total
          (sym (accrued_at-value rate total start (start + n) value)
            ∙ ap (λ (t : ℕ). min (rate * t / rate_scale) total) elapsed)
          below

    rounded : rate ≡ units * rate_scale / 86_400
    rounded = pos_injective (sym e ∙ rate_per_day_lem units)
