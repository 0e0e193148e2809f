-- ===== src/Prelude/Int.antt =====
-- JavaScript's `bigint`: signed integers over the native numbers, with the operations in use, and
-- `BigInt(text)`.
use Prim.Native.Nat.{ℕ, suc, ◌+◌, ◌-◌, ◌*◌, ◌/◌}
use mathlib.Core.Path.{◌≡◌, refl, ap}
use mathlib.Core.Bool.{Bool, true, false, ◌||◌}
use mathlib.Core.Option.{Option, none, some}
use mathlib.Core.List.{[], ◌∷◌, ◌++◌}
use native.Mathlib.Omega.{arith}
use flare_stealthwage.Prelude.Tests.{ltb, leb, ◌==◌, if◌then◌else◌}
use flare_stealthwage.Prelude.Strings.{Text, text, hex_value, trim}
use flare_stealthwage.Prelude.Decimal.{decimal, parse_decimal}
use flare_stealthwage.Prelude.Results.{Result, ok, throw}

-- `negsuc n` is -(n + 1).
pub data ℤ : Type 0 where
  pos : ℕ → ℤ
  negsuc : ℕ → ℤ

abbrev pub sub_ℕ : ℕ → ℕ → ℤ
sub_ℕ a b = if leb b a then pos (a - b) else negsuc (b - a - 1)

-- `-n`
abbrev pub neg_ℕ : ℕ → ℤ
neg_ℕ n = sub_ℕ 0 n

infixl 65 ◌+ℤ◌ ◌-ℤ◌
infixl 70 ◌*ℤ◌ ◌/ℤ◌
abbrev pub ◌+ℤ◌ : ℤ → ℤ → ℤ
pos a +ℤ pos b = pos (a + b)
pos a +ℤ negsuc b = sub_ℕ a (suc b)
negsuc a +ℤ pos b = sub_ℕ b (suc a)
negsuc a +ℤ negsuc b = negsuc (a + suc b)

abbrev pub ◌-ℤ◌ : ℤ → ℤ → ℤ
pos a -ℤ pos b = sub_ℕ a b
pos a -ℤ negsuc b = pos (a + suc b)
negsuc a -ℤ pos b = negsuc (a + b)
negsuc a -ℤ negsuc b = sub_ℕ b a

abbrev pub ◌*ℤ◌ : ℤ → ℤ → ℤ
pos a *ℤ pos b = pos (a * b)
pos a *ℤ negsuc b = neg_ℕ (a * suc b)
negsuc a *ℤ pos b = neg_ℕ (suc a * b)
negsuc a *ℤ negsuc b = pos (suc a * suc b)

-- Division by a positive constant; as in JavaScript, it rounds towards zero.
abbrev pub ◌/ℤ◌ : ℤ → ℕ → ℤ
pos a /ℤ n = pos (a / n)
negsuc a /ℤ n = neg_ℕ (suc a / n)

-- `a === b` on bigints
abbrev pub eq_ℤ : ℤ → ℤ → Bool
eq_ℤ (pos a) (pos b) = a == b
eq_ℤ (negsuc a) (negsuc b) = a == b
eq_ℤ (pos a) (negsuc b) = false
eq_ℤ (negsuc a) (pos b) = false

pub eq_ℤ_lem : (a b : ℤ) → eq_ℤ a b ≡ true → a ≡ b
eq_ℤ_lem (pos a) (pos b) h = ap pos (ground arith)
eq_ℤ_lem (negsuc a) (negsuc b) h = ap negsuc (ground arith)
eq_ℤ_lem (pos a) (negsuc b) h = cc
eq_ℤ_lem (negsuc a) (pos b) h = cc

abbrev pub ltb_ℤ : ℤ → ℤ → Bool
ltb_ℤ (pos a) (pos b) = ltb a b
ltb_ℤ (pos a) (negsuc b) = false
ltb_ℤ (negsuc a) (pos b) = true
ltb_ℤ (negsuc a) (negsuc b) = ltb b a

-- `toString`
unfoldable pub int_string : ℤ → Text
int_string (pos n) = decimal n
int_string (negsuc n) = b'-' ∷ decimal (suc n)

-- The digits of a number in a radix of 16 or less, after the value so far.
scan_radix : ℕ → ℕ → Text → Option ℕ
scan_radix radix n [] = some n
scan_radix radix n (c ∷ s) = elim (hex_value c) [
  | none ↦ none
  | some d ↦ if ltb d radix then scan_radix radix (n * radix + d) s else none
]

radix_digits : ℕ → Text → Option ℕ
radix_digits radix [] = none
radix_digits radix (c ∷ s) = scan_radix radix 0 (c ∷ s)

-- The radix that the letter of a prefix `0x`, `0o` or `0b` stands for, or 0.
abbrev radix_of : ℕ → ℕ
radix_of c =
    if c == b'x' || c == b'X'
    then 16
    else if c == b'o' || c == b'O'
    then 8
    else if c == b'b' || c == b'B'
    then 2
    else 0

signed : (ℕ → ℤ) → Option ℕ → Option ℤ
signed sign none = none
signed sign (some n) = some (sign n)

-- Decimal digits with an optional sign, or digits behind a radix prefix with none.
numeral : Text → Option ℤ
numeral [] = some (pos 0)
numeral (c ∷ []) = signed pos (parse_decimal (c ∷ []))
numeral (c ∷ d ∷ s) =
    if c == b'-'
    then signed neg_ℕ (parse_decimal (d ∷ s))
    else if c == b'+'
    then signed pos (parse_decimal (d ∷ s))
    else if c == b'0'
    then (if radix_of d == 0
        then signed pos (parse_decimal (c ∷ d ∷ s))
        else signed pos (radix_digits (radix_of d) s))
    else signed pos (parse_decimal (c ∷ d ∷ s))

or_syntax_error : Text → Option ℤ → Result ℤ
or_syntax_error s none = throw (record {
  name = text "SyntaxError";
  message = text "Cannot convert " ++ (s ++ text " to a BigInt");
})
or_syntax_error s (some n) = ok n

-- `BigInt(s)`
unfoldable pub parse_bigint : Text → Result ℤ
unfolding or_syntax_error numeral signed radix_digits scan_radix
parse_bigint s = or_syntax_error s (numeral (trim s))

bigint_tests :
    (parse_bigint (text " 42 ") ≡ ok (pos 42))
    × (parse_bigint (text "-5") ≡ ok (negsuc 4))
    × (parse_bigint (text "0x1F") ≡ ok (pos 31))
    × (parse_bigint (text "") ≡ ok (pos 0))
unfolding parse_bigint trim text parse_decimal hex_value
bigint_tests = (refl, refl, refl, refl)
