-- ===== src/Json/Parse/Decimals.antt =====
-- What `decimal` prints is a number of JSON: digits, the first of which is no zero but in "0".
use flare_stealthwage.Prelude.{
  ℕ, zero, suc, ◌+◌, ◌/◌, ◌%◌, ◌<◌, ◌≤◌, ◌≡◌, refl, true, [], ◌∷◌, all, ltb, Text, decimal, arith,
  Bool-cases, inl, inr,
}
use flare_stealthwage.Prelude.Decimal.{print, is_digit}
use flare_stealthwage.Json.Parse.{start, integer, next, accepts}
use flare_stealthwage.Json.Parse.Numerals.{IsNumeral}

accepts-digits : (s : Text) → all is_digit s ≡ true → accepts integer s ≡ true
unfolding accepts next
accepts-digits [] h = refl
accepts-digits (c ∷ s) h = ground (arith, accepts-digits s)

accepts-print :
    (fuel n : ℕ) (out : Text)
    → n < fuel
    → 1 ≤ n
    → all is_digit out ≡ true
    → accepts start (print fuel n out) ≡ true
unfolding accepts next print
accepts-print zero n out h k d = absurd (omega arith)
accepts-print (suc fuel) n out h k d = elim (Bool-cases (ltb n 10)) [
  | inl last ↦ ground (arith, accepts-digits out d)
  | inr more ↦ rw more (
      accepts-print fuel (n / 10) ((b'0' + n % 10) ∷ out) (ground arith) (ground arith)
        (ground arith))
]

pub decimal-IsNumeral : (n : ℕ) → IsNumeral (decimal n)
unfolding decimal print accepts next
decimal-IsNumeral zero = refl
decimal-IsNumeral (suc n) = accepts-print (suc (suc n)) (suc n) [] (omega arith) (omega arith) refl
