-- ===== src/Json/Parse/Characters.antt =====
-- What `quote` writes is read back as the text.
use flare_stealthwage.Prelude.{
  ℕ, ◌+◌, ◌*◌, ◌/◌, ◌%◌, ◌<◌, ◌≤◌, ◌≡◌, all, ltb, refl, ap, ◌∙◌, inl, inr, Bool-cases, true, ◌&&◌,
  some, [], ◌∷◌, ◌++◌, All, Text, arith,
}
use mathlib.Core.List.{append_assoc}
use flare_stealthwage.Prelude.Utf8.{is_high, is_low}
use flare_stealthwage.Encoding.Hex.{hex_digit}
use flare_stealthwage.Encoding.RoundTrip.{hex_value-hex_digit}
use flare_stealthwage.Json.Print.{quote_unit, quote_units, unicode_escape}
use flare_stealthwage.Json.Parse.{
  Mode, plain, unicode, pass, emit, read_digit, read_unit, push, characters,
}

abbrev pub AllUnits : Text → Type 0
AllUnits = All (λ u. u < 65536)

pub known-AllUnits : (s : Text) → all (λ c. ltb c 65536) s ≡ true → AllUnits s
known-AllUnits [] h = tt
known-AllUnits (c ∷ s) h = (ground arith, known-AllUnits s (ground arith))

characters-pass :
    (mode mode' : Mode) (c : ℕ) (s : Text)
    → read_unit mode c ≡ pass mode'
    → characters mode (c ∷ s) ≡ characters mode' s
unfolding characters
characters-pass mode mode' c s e = rw (e, characters) refl

characters-emit :
    (mode : Mode) (c u : ℕ) (s : Text)
    → read_unit mode c ≡ emit u
    → characters mode (c ∷ s) ≡ push u (characters plain s)
unfolding characters
characters-emit mode c u s e = rw (e, characters) refl

read_unit-hex_digit :
    (left value d : ℕ)
    → d < 16
    → read_unit (unicode left value) (hex_digit d) ≡ read_digit left value (some d)
unfolding read_unit
read_unit-hex_digit left value d h = ap (read_digit left value) (hex_value-hex_digit d h)

-- The four digits of an escape.
characters-digits :
    (a b c d : ℕ) (s : Text)
    → a < 16
    → b < 16
    → c < 16
    → d < 16
    → characters (unicode 3 0) (hex_digit a ∷ hex_digit b ∷ hex_digit c ∷ hex_digit d ∷ s)
      ≡ push ((((0 * 16 + a) * 16 + b) * 16 + c) * 16 + d) (characters plain s)
unfolding read_digit
characters-digits a b c d s ha hb hc hd =
    characters-pass (unicode 3 0) (unicode 2 (0 * 16 + a)) (hex_digit a) _
      (read_unit-hex_digit 3 0 a ha)
    ∙ characters-pass (unicode 2 (0 * 16 + a)) (unicode 1 ((0 * 16 + a) * 16 + b)) (hex_digit b) _
        (read_unit-hex_digit 2 (0 * 16 + a) b hb)
    ∙ characters-pass (unicode 1 ((0 * 16 + a) * 16 + b))
        (unicode 0 (((0 * 16 + a) * 16 + b) * 16 + c)) (hex_digit c) _
        (read_unit-hex_digit 1 ((0 * 16 + a) * 16 + b) c hc)
    ∙ characters-emit (unicode 0 (((0 * 16 + a) * 16 + b) * 16 + c)) (hex_digit d) _ s
        (read_unit-hex_digit 0 (((0 * 16 + a) * 16 + b) * 16 + c) d hd)

characters-unicode_escape :
    (u : ℕ) (s : Text)
    → u < 65536
    → characters plain (unicode_escape u ++ s) ≡ push u (characters plain s)
unfolding characters read_unit
characters-unicode_escape u s h =
    characters-digits (u / 4096) (u / 256 % 16) (u / 16 % 16) (u % 16) s (omega arith) (omega arith)
      (omega arith) (omega arith)
    ∙ ap (λ n. push n (characters plain s)) (omega arith)

characters-quote_unit :
    (u : ℕ) (s : Text)
    → u < 65536
    → characters plain (quote_unit u ++ s) ≡ push u (characters plain s)
unfolding quote_unit characters read_unit
characters-quote_unit u s h = ground (arith, characters-unicode_escape u s h)

read_unit-surrogate : (u : ℕ) → 0xd800 ≤ u → read_unit plain u ≡ emit u
unfolding read_unit
read_unit-surrogate u h = ground arith

quote_units-ends : (rest : Text) → characters plain (0x22 ∷ rest) ≡ some ([], rest)
unfolding characters read_unit
quote_units-ends rest = refl

pair_units : (u v : ℕ) → is_high u && is_low v ≡ true → (0xd800 ≤ u) × (0xd800 ≤ v)
pair_units u v h = ground arith

characters-quote_units :
    (s rest : Text)
    → AllUnits s
    → characters plain (quote_units s ++ (0x22 ∷ rest)) ≡ some (s, rest)
unfolding quote_units push
characters-quote_units [] rest h = quote_units-ends rest
characters-quote_units (u ∷ []) rest h =
    characters-quote_unit u (0x22 ∷ rest) h.0 ∙ ap (push u) (quote_units-ends rest)
characters-quote_units (u ∷ v ∷ s) rest h = elim (Bool-cases (is_high u && is_low v)) [
  | inl pair ↦
      let (high, low) = pair_units u v pair in
      rw pair (
        characters-emit plain u u _ (read_unit-surrogate u high)
        ∙ ap (push u) (
            characters-emit plain v v _ (read_unit-surrogate v low)
            ∙ ap (push v) (characters-quote_units s rest h.1.1)))
  | inr other ↦ rw other (
      ap (characters plain) (append_assoc (quote_unit u) (quote_units (v ∷ s)) (0x22 ∷ rest))
      ∙ (characters-quote_unit u (quote_units (v ∷ s) ++ (0x22 ∷ rest)) h.0
          ∙ ap (push u) (characters-quote_units (v ∷ s) rest h.1)))
]

-- Reading a string behind its opening quote gives the text, and what follows the closing quote.
pub characters-quote :
    (s rest : Text)
    → AllUnits s
    → characters plain ((quote_units s ++ (0x22 ∷ [])) ++ rest) ≡ some (s, rest)
characters-quote s rest h =
    ap (characters plain) (append_assoc (quote_units s) (0x22 ∷ []) rest)
    ∙ characters-quote_units s rest h
