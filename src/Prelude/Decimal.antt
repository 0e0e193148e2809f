-- ===== src/Prelude/Decimal.antt =====
-- `BigInt.prototype.toString` and the decimal digits that `BigInt(text)` reads.
use Prim.Native.Nat.{ℕ, zero, suc, ◌+◌, ◌-◌, ◌*◌, ◌/◌, ◌%◌, ◌<◌}
use mathlib.Core.Path.{◌≡◌, refl, ◌∙◌}
use mathlib.Core.Logic.{◌≢◌}
use mathlib.Core.Bool.{Bool, ◌&&◌}
use mathlib.Core.Option.{Option, none, some}
use mathlib.Core.List.{[], ◌∷◌}
use native.Mathlib.Omega.{arith}
use flare_stealthwage.Prelude.Tests.{leb, ltb, if◌then◌else◌}
use flare_stealthwage.Prelude.Strings.{Text}

-- The digits of `n` before `out`, one a round. A round divides by ten, so `n` rounds are enough.
unfoldable pub print : ℕ → ℕ → Text → Text
print zero n out = out
print (suc fuel) n out =
    let digit = b'0' + n % 10 in
    let rest = print fuel (n / 10) (digit ∷ out) in if ltb n 10 then digit ∷ out else rest

unfoldable pub decimal : ℕ → Text
unfolding print
decimal n = print (suc n) n []

abbrev pub is_digit : ℕ → Bool
is_digit c = leb b'0' c && leb c b'9'

scan : ℕ → Text → Option ℕ
scan n [] = some n
scan n (c ∷ s) = let rest = scan (n * 10 + (c - b'0')) s in if is_digit c then rest else none

-- One or more decimal digits.
unfoldable pub parse_decimal : Text → Option ℕ
unfolding scan
parse_decimal [] = none
parse_decimal (c ∷ s) = scan 0 (c ∷ s)

-- What the digits of `n` do before the digits that are already out.
scan-print : (fuel n : ℕ) (out : Text) → n < fuel → scan 0 (print fuel n out) ≡ scan n out
unfolding print scan
scan-print zero n out h = elim h [ ]
scan-print (suc fuel) n out h = ground (arith, scan-print fuel (n / 10) ((b'0' + n % 10) ∷ out))

print-ne-nil : (fuel n c : ℕ) (s : Text) → print fuel n (c ∷ s) ≢ []
unfolding print
print-ne-nil zero n c s = cc
print-ne-nil (suc fuel) n c s = ground (arith, print-ne-nil fuel (n / 10) (b'0' + n % 10) (c ∷ s))

decimal-ne-nil : (n : ℕ) → decimal n ≢ []
unfolding decimal print
decimal-ne-nil n = ground (arith, print-ne-nil n (n / 10) (b'0' + n % 10) [])

parse_decimal-eq-scan : (s : Text) → s ≢ [] → parse_decimal s ≡ scan 0 s
unfolding parse_decimal
parse_decimal-eq-scan [] h = absurd (h refl)
parse_decimal-eq-scan (c ∷ s) h = refl

scan-decimal : (n : ℕ) → scan 0 (decimal n) ≡ some n
unfolding decimal
scan-decimal n = rw (scan-print (suc n) n [] (omega arith)) (unfold scan in refl)

-- Reading back what was printed gives the number.
pub parse_decimal-decimal : (n : ℕ) → parse_decimal (decimal n) ≡ some n
parse_decimal-decimal n = parse_decimal-eq-scan (decimal n) (decimal-ne-nil n) ∙ scan-decimal n
