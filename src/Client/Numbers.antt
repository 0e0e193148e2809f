-- ===== src/Client/Numbers.antt =====
-- JavaScript's `parseInt(text, 16)`, and a byte of a `Uint8Array`, as frontend/lib uses them.
use flare_stealthwage.Prelude.{
  ℕ, ◌+◌, ◌*◌, ◌%◌, ◌-◌, ℤ, pos, negsuc, Option, none, some, [], ◌∷◌, ◌==◌, ◌||◌, if◌then◌else◌,
  Text,
}
use flare_stealthwage.Prelude.Int.{neg_ℕ}
use flare_stealthwage.Prelude.Strings.{hex_value, trim_start}

-- The value of the hex digits up to the first other character, behind the value so far.
unfoldable pub digits_from : ℕ → Text → ℕ
digits_from n [] = n
digits_from n (c ∷ s) = elim (hex_value c) [ none ↦ n | some d ↦ digits_from (n * 16 + d) s ]

-- `none` is `NaN`: there is no digit.
unfoldable pub leading_digits : Text → Option ℕ
leading_digits [] = none
leading_digits (c ∷ s) = elim (hex_value c) [ none ↦ none | some d ↦ some (digits_from d s) ]

unfoldable pub without_prefix : Text → Text
without_prefix (a ∷ b ∷ s) =
    if a == b'0' then (if b == b'x' || b == b'X' then s else a ∷ b ∷ s) else a ∷ b ∷ s
without_prefix s = s

abbrev pub negated : Option ℕ → Option ℤ
negated none = none
negated (some n) = some (neg_ℕ n)

abbrev pub positive : Option ℕ → Option ℤ
positive none = none
positive (some n) = some (pos n)

unfoldable pub signed_hex : Text → Option ℤ
signed_hex [] = none
signed_hex (c ∷ s) =
    if c == b'-'
    then negated (leading_digits (without_prefix s))
    else if c == b'+'
    then positive (leading_digits (without_prefix s))
    else positive (leading_digits (without_prefix (c ∷ s)))

-- `parseInt(s, 16)`
unfoldable pub parse_int_hex : Text → Option ℤ
parse_int_hex s = signed_hex (trim_start s)

-- The element that `Uint8Array.from` makes of a number.
unfoldable pub to_uint8 : Option ℤ → ℕ
to_uint8 none = 0
to_uint8 (some (pos n)) = n % 256
to_uint8 (some (negsuc n)) = 255 - n % 256
