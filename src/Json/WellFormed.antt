-- ===== src/Json/WellFormed.antt =====
-- The texts that `stringify` prints are of 16-bit units, and no surrogate stands alone in them.
use flare_stealthwage.Prelude.{
  ℕ, ◌≡◌, ◌⊎◌, all, ltb, refl, sym, ◌∙◌, ◌<◌, not, ◌||◌, false, true, ◌&&◌, [], ◌∷◌, ◌++◌, All,
  All-append, Text, text, arith, inl, inr, Bool-cases,
}
use mathlib.Core.Bool.{and-eq-true_iff}
use flare_stealthwage.Prelude.Utf8.{is_high, is_low, well_formed}
use flare_stealthwage.Encoding.Hex.{hex_digit}
use flare_stealthwage.Json.Value.{
  Json, null, bool, num, str, arr, obj, Items, nil, cons, Fields, end, field,
}
use flare_stealthwage.Json.Print.{
  quote, quote_unit, quote_units, stringify, more_items, more_fields,
}
use flare_stealthwage.Json.Parse.{start, is_number_char}
use flare_stealthwage.Json.Parse.Characters.{AllUnits}
use flare_stealthwage.Json.Parse.Numerals.{IsNumeral, accepts-number_chars}
use flare_stealthwage.Json.Parse.Printable.{IsPrintable, PrintableItems, PrintableFields}

abbrev pub IsSound : Text → Type 0
IsSound s = AllUnits s × (well_formed s ≡ true)

well_formed-paired :
    (u v : ℕ) (s : Text) → (is_high u && is_low v) ≡ true → well_formed (u ∷ v ∷ s) ≡ well_formed s
unfolding well_formed
well_formed-paired u v s h = rw h refl

well_formed-single :
    (u v : ℕ) (s : Text)
    → (is_high u && is_low v) ≡ false
    → well_formed (u ∷ v ∷ s) ≡ (not (is_high u || is_low u) && well_formed (v ∷ s))
unfolding well_formed
well_formed-single u v s h = rw h refl

not_high : (u : ℕ) → not (is_high u || is_low u) ≡ true → is_high u ≡ false
not_high u h = ground arith

well_formed-append :
    (s t : Text) → well_formed s ≡ true → well_formed t ≡ true → well_formed (s ++ t) ≡ true
unfolding well_formed
well_formed-append [] t hs ht = ht
well_formed-append (u ∷ []) [] hs ht = hs
well_formed-append (u ∷ []) (v ∷ t) hs ht =
    rw (well_formed-single u v t (rw (not_high u hs) refl), hs, ht) refl
well_formed-append (u ∷ v ∷ s) t hs ht = elim (Bool-cases (is_high u && is_low v)) [
  | inl pair ↦
      well_formed-paired u v (s ++ t) pair
      ∙ well_formed-append s t (sym (well_formed-paired u v s pair) ∙ hs) ht
  | inr single ↦
      let (alone, behind) = (and-eq-true_iff _ _).0 (sym (well_formed-single u v s single) ∙ hs) in
      well_formed-single u v (s ++ t) single
      ∙ (and-eq-true_iff _ _).1 (alone, well_formed-append (v ∷ s) t behind ht)
]

pub append-IsSound : (s t : Text) → IsSound s → IsSound t → IsSound (s ++ t)
append-IsSound s t hs ht =
    (All-append (λ u. u < 65536) s t hs.0 ht.0, well_formed-append s t hs.1 ht.1)

pub ascii-IsSound : (s : Text) → All (λ u. u < 128) s → IsSound s
unfolding well_formed
ascii-IsSound [] h = (tt, refl)
ascii-IsSound (u ∷ []) h = ((omega (arith, h.0), tt), ground arith)
ascii-IsSound (u ∷ v ∷ s) h =
    let r = ascii-IsSound (v ∷ s) h.1 in ((omega (arith, h.0), r.0), ground (arith, r.1, h.0))

pub decide_ascii : (s : Text) → all (λ c. ltb c 128) s ≡ true → All (λ c. c < 128) s
decide_ascii [] h = tt
decide_ascii (c ∷ s) h = (ground arith, decide_ascii s (ground arith))

number_chars-ascii : (s : Text) → all is_number_char s ≡ true → All (λ c. c < 128) s
number_chars-ascii [] h = tt
number_chars-ascii (c ∷ s) h = (ground arith, number_chars-ascii s (ground arith))

IsNumeral-ascii : (s : Text) → IsNumeral s → All (λ c. c < 128) s
IsNumeral-ascii s h = number_chars-ascii s (accepts-number_chars start s h)

quote_unit_cases :
    (u : ℕ)
    → u < 65536
    → All (λ c. c < 128) (quote_unit u)
      ⊎ ((quote_unit u ≡ u ∷ []) × (not (is_high u || is_low u) ≡ true))
unfolding quote_unit hex_digit
quote_unit_cases u h = ground arith

quote_unit-IsSound : (u : ℕ) → u < 65536 → IsSound (quote_unit u)
unfolding well_formed
quote_unit-IsSound u h = elim (quote_unit_cases u h) [
  | inl ascii ↦ ascii-IsSound (quote_unit u) ascii
  | inr (same, alone) ↦ rw same ((h, tt), alone)
]

quote_units-paired :
    (u v : ℕ) (s : Text)
    → (is_high u && is_low v) ≡ true
    → quote_units (u ∷ v ∷ s) ≡ u ∷ v ∷ quote_units s
unfolding quote_units
quote_units-paired u v s h = rw h refl

quote_units-single :
    (u v : ℕ) (s : Text)
    → (is_high u && is_low v) ≡ false
    → quote_units (u ∷ v ∷ s) ≡ quote_unit u ++ quote_units (v ∷ s)
unfolding quote_units
quote_units-single u v s h = rw h refl

quote_units-IsSound : (s : Text) → AllUnits s → IsSound (quote_units s)
unfolding quote_units well_formed
quote_units-IsSound [] h = (tt, refl)
quote_units-IsSound (u ∷ []) h = quote_unit-IsSound u h.0
quote_units-IsSound (u ∷ v ∷ s) h = elim (Bool-cases (is_high u && is_low v)) [
  | inl pair ↦
      let r = quote_units-IsSound s h.1.1 in
      rw (quote_units-paired u v s pair)
        ((h.0, (h.1.0, r.0)), well_formed-paired u v (quote_units s) pair ∙ r.1)
  | inr single ↦ rw (quote_units-single u v s single) (
      append-IsSound (quote_unit u) (quote_units (v ∷ s)) (quote_unit-IsSound u h.0)
        (quote_units-IsSound (v ∷ s) h.1))
]

quote-IsSound : (s : Text) → AllUnits s → IsSound (quote s)
unfolding quote
quote-IsSound s h =
    append-IsSound (0x22 ∷ []) (quote_units s ++ (0x22 ∷ []))
      (ascii-IsSound (0x22 ∷ []) (omega arith, tt))
      (append-IsSound (quote_units s) (0x22 ∷ []) (quote_units-IsSound s h)
        (ascii-IsSound (0x22 ∷ []) (omega arith, tt)))

IsNumeral-IsSound : (s : Text) → IsNumeral s → IsSound s
IsNumeral-IsSound s h = ascii-IsSound s (IsNumeral-ascii s h)

-- A character and a text behind it.
cons-IsSound : (c : ℕ) (s : Text) → c < 128 → IsSound s → IsSound (c ∷ s)
cons-IsSound c s h hs = append-IsSound (c ∷ []) s (ascii-IsSound (c ∷ []) (h, tt)) hs

field_text-IsSound :
    (k : Text) (v : Json) (fs : Fields)
    → AllUnits k
    → IsSound (stringify v)
    → IsSound (more_fields fs)
    → IsSound (quote k ++ (b':' ∷ (stringify v ++ more_fields fs)))
field_text-IsSound k v fs hk hv hfs =
    append-IsSound (quote k) (b':' ∷ (stringify v ++ more_fields fs)) (quote-IsSound k hk)
      (cons-IsSound b':' _ (omega arith) (append-IsSound (stringify v) (more_fields fs) hv hfs))

mutual
  unfolding IsPrintable stringify text

  pub stringify-IsSound : (v : Json) → IsPrintable v → IsSound (stringify v)
  stringify-IsSound null p = ascii-IsSound (text "null") (decide_ascii (text "null") refl)
  stringify-IsSound (bool true) p = ascii-IsSound _ (decide_ascii (text "true") refl)
  stringify-IsSound (bool false) p = ascii-IsSound _ (decide_ascii (text "false") refl)
  stringify-IsSound (num s) p = IsNumeral-IsSound s p
  stringify-IsSound (str s) p = quote-IsSound s p
  stringify-IsSound (arr nil) p = ascii-IsSound _ (decide_ascii (text "[]") refl)
  stringify-IsSound (arr (cons x xs)) p = cons-IsSound b'[' _ (omega arith) (
      append-IsSound (stringify x) (more_items xs) (stringify-IsSound x p.0)
        (more_items-IsSound xs p.1))
  stringify-IsSound (obj end) p = ascii-IsSound _ (decide_ascii (text "{}") refl)
  stringify-IsSound (obj (field k v fs)) p =
      cons-IsSound b'{' _ (omega arith)
        (field_text-IsSound k v fs p.0.0 (stringify-IsSound v p.0.1) (more_fields-IsSound fs p.0.2))

  more_items-IsSound : (xs : Items) → PrintableItems xs → IsSound (more_items xs)
  more_items-IsSound nil p = ascii-IsSound _ (decide_ascii (text "]") refl)
  more_items-IsSound (cons x xs) p = cons-IsSound b',' _ (omega arith) (
      append-IsSound (stringify x) (more_items xs) (stringify-IsSound x p.0)
        (more_items-IsSound xs p.1))

  more_fields-IsSound : (fs : Fields) → PrintableFields fs → IsSound (more_fields fs)
  more_fields-IsSound end p = ascii-IsSound _ (decide_ascii (text "}") refl)
  more_fields-IsSound (field k v fs) p =
      cons-IsSound b',' _ (omega arith)
        (field_text-IsSound k v fs p.0 (stringify-IsSound v p.1) (more_fields-IsSound fs p.2))
