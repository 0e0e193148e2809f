-- ===== src/Protocol/Rates.antt =====
-- The fixed-point arithmetic of typescript/src/shared/protocol.ts: `toScaledRate`,
-- `ratePerDayToScaled` and `accruedAt`. All numbers are `bigint`.
use flare_stealthwage.Prelude.{
  ℕ, ℤ, pos, Bool, true, false, List, [], ◌∷◌, ◌++◌, replicate, take, ◌==◌, if◌then◌else◌, Text,
  Result, ok, then_try, ◌^◌,
}
use flare_stealthwage.Prelude.Int.{◌+ℤ◌, ◌-ℤ◌, ◌*ℤ◌, ◌/ℤ◌, ltb_ℤ, parse_bigint}

-- `RATE_SCALE`
abbrev pub rate_scale : ℕ
rate_scale = 10 ^ 12

-- A character before the parts of the text behind it, or the separator.
abbrev before_parts : Bool → ℕ → List Text → List Text
before_parts true c parts = [] ∷ parts
before_parts false c [] = (c ∷ []) ∷ []
before_parts false c (part ∷ parts) = (c ∷ part) ∷ parts

-- `s.split(".")`
unfoldable pub split_dot : Text → List Text
split_dot [] = [] ∷ []
split_dot (c ∷ s) = before_parts (c == b'.') c (split_dot s)

-- The first part, and the second or "".
abbrev pub whole_and_frac : List Text → Text × Text
whole_and_frac [] = ([], [])
whole_and_frac (whole ∷ []) = (whole, [])
whole_and_frac (whole ∷ frac ∷ more) = (whole, frac)

-- Twelve characters: the fraction and zeros behind it, or its first twelve. It is
-- never empty, so `fracPadded || "0"` is the fraction.
unfoldable pub pad_fraction : Text → Text
pad_fraction frac = take 12 (frac ++ replicate 12 b'0')

-- `toScaledRate`
unfoldable pub to_scaled_rate : Text → Result ℤ
to_scaled_rate raw =
    let (whole, frac) = whole_and_frac (split_dot raw) in
    then_try (parse_bigint whole)
      λ w. then_try (parse_bigint (pad_fraction frac)) λ f. ok (w *ℤ pos rate_scale +ℤ f)

-- `ratePerDayToScaled`
unfoldable pub rate_per_day_to_scaled : ℤ → ℤ
rate_per_day_to_scaled raw_units_per_day = (raw_units_per_day *ℤ pos rate_scale) /ℤ 86_400

-- `accruedAt`, with the three terms that it reads.
unfoldable pub accrued_at : ℤ → ℤ → ℤ → ℤ → ℤ
accrued_at rate_per_second total start_time now_seconds =
    let elapsed = if ltb_ℤ start_time now_seconds then now_seconds -ℤ start_time else pos 0 in
    let accrued = (rate_per_second *ℤ elapsed) /ℤ rate_scale in
    if ltb_ℤ accrued total then accrued else total
