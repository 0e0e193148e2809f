-- ===== src/Json/Parse/Numerals.antt =====
-- A number is read back up to the first character that is none of a number.
use flare_stealthwage.Prelude.{
  ℕ, ◌≡◌, refl, ap, inl, inr, Bool, Bool-cases, true, false, not, some, [], ◌∷◌, ◌++◌, all, Text,
  text, ◌∙◌, arith,
}
use flare_stealthwage.Prelude.Strings.{starts_with}
use flare_stealthwage.Json.Value.{num}
use flare_stealthwage.Json.Parse.{
  Numeral, start, bad, next, accepts, is_number_char, span, number, scalar,
}

-- The text of a number in JSON.
abbrev pub IsNumeral : Text → Type 0
IsNumeral s = accepts start s ≡ true

-- What follows does not go on as a number.
abbrev pub stops : Text → Bool
stops [] = true
stops (c ∷ s) = not (is_number_char c)

next-other : (n : Numeral) (c : ℕ) → is_number_char c ≡ false → next n c ≡ bad
unfolding next
next-other start c h = ground arith
next-other _ c h = ground arith

accepts-bad : (s : Text) → accepts bad s ≡ false
unfolding accepts next
accepts-bad [] = refl
accepts-bad (c ∷ s) = accepts-bad s

accepts-cons : (n : Numeral) (c : ℕ) (s : Text) → accepts n (c ∷ s) ≡ accepts (next n c) s
unfolding accepts
accepts-cons start c s = refl
accepts-cons _ c s = refl

pub accepts-number_chars :
    (n : Numeral) (s : Text) → accepts n s ≡ true → all is_number_char s ≡ true
accepts-number_chars n [] h = refl
accepts-number_chars n (c ∷ s) h = elim (Bool-cases (is_number_char c)) [
  | inl good ↦ rw good (accepts-number_chars (next n c) s (rw (accepts-cons n c s) at h))
  | inr other ↦
      cc (h, accepts-cons n c s, ap (λ m. accepts m s) (next-other n c other), accepts-bad s)
]

span-append :
    (s rest : Text) → all is_number_char s ≡ true → stops rest ≡ true → span (s ++ rest) ≡ (s, rest)
unfolding span
span-append [] [] h k = refl
span-append [] (c ∷ rest) h k = ground arith
span-append (c ∷ s) rest h k = ground (arith, span-append s rest)

keywords_of_number_char :
    (c : ℕ) (s : Text)
    → is_number_char c ≡ true
    → (starts_with (text "null") (c ∷ s) ≡ false)
      × (starts_with (text "true") (c ∷ s) ≡ false)
      × (starts_with (text "false") (c ∷ s) ≡ false)
unfolding starts_with text
keywords_of_number_char c s h = ground arith

number_of : (s rest : Text) → IsNumeral s → number (s, rest) ≡ some (num s, rest)
unfolding number
number_of s rest h = rw h refl

head_of_all : (c : ℕ) (s : Text) → all is_number_char (c ∷ s) ≡ true → is_number_char c ≡ true
head_of_all c s h = ground arith

pub IsNumeral-ne-nil : IsNumeral [] → ⊥
unfolding accepts
IsNumeral-ne-nil h = cc

-- The first character of a number belongs to one.
pub IsNumeral-head : (c : ℕ) (s : Text) → IsNumeral (c ∷ s) → is_number_char c ≡ true
IsNumeral-head c s h = head_of_all c s (accepts-number_chars start (c ∷ s) h)

pub scalar-numeral :
    (s rest : Text) → IsNumeral s → stops rest ≡ true → scalar (s ++ rest) ≡ some (num s, rest)
unfolding scalar
scalar-numeral [] rest h k = absurd (IsNumeral-ne-nil h)
scalar-numeral (c ∷ s) rest h k =
    let (null_no, true_no, false_no) =
      keywords_of_number_char c (s ++ rest) (IsNumeral-head c s h) in
    rw (null_no, true_no, false_no)
      (ap number (span-append (c ∷ s) rest (accepts-number_chars start (c ∷ s) h) k)
        ∙ number_of (c ∷ s) rest h)
