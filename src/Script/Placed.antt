-- ===== src/Script/Placed.antt =====
-- gen-tee-keys.ts: the line that it puts into an .env file, in place of another or at the end.
use mathlib.Core.List.{append_assoc}
use flare_stealthwage.Prelude.{
  ℕ, ◌≡◌, refl, sym, ap, ◌∙◌, Bool, true, false, ◌&&◌, Option, none, some, [], ◌∷◌, ◌++◌, ◌==◌,
  length, drop, Text, arith, Bool-cases, inl, inr,
}
use flare_stealthwage.Prelude.Strings.{starts_with}
use flare_stealthwage.Client.Answer.{ends_line}
use flare_stealthwage.Script.Keys.{drop_line, before, captured, without_quote, found}
use flare_stealthwage.Script.Lines.{
  is_plain, one_line, ends_here, drop_line-ends, captured-quoted, starts_with-append, drop-append,
  found-match, found-past, starts_with-cut, put_line,
}

module _ (c : ℕ) (p' : Text) (d : ℕ) (v' : Text) (plain : is_plain (d ∷ v') ≡ true)
    (one : one_line (c ∷ p') ≡ true) where
  abbrev p : Text
  p = c ∷ p'

  abbrev v : Text
  v = d ∷ v'

  abbrev line : Text
  line = p ++ (b'"' ∷ (v ++ (b'"' ∷ [])))

  captured-line :
      (rest : Text)
      → ends_here rest ≡ true
      → captured (without_quote (drop (length p) (line ++ rest))) ≡ some v
  captured-line rest e =
      ap (λ (s : Text). captured (without_quote (drop (length p) s)))
        (append_assoc p (b'"' ∷ (v ++ (b'"' ∷ []))) rest)
      ∙ ap (λ (s : Text). captured (without_quote s))
          (drop-append p (b'"' ∷ ((v ++ (b'"' ∷ [])) ++ rest)))
      ∙ ap captured (append_assoc v (b'"' ∷ []) rest)
      ∙ captured-quoted d v' rest plain e

  found-line : (rest : Text) → ends_here rest ≡ true → found p true (line ++ rest) ≡ some v
  found-line rest e =
      found-match p ((p' ++ (b'"' ∷ (v ++ (b'"' ∷ [])))) ++ rest) v c
        (ap (starts_with p) (append_assoc p (b'"' ∷ (v ++ (b'"' ∷ []))) rest)
          ∙ starts_with-append p ((b'"' ∷ (v ++ (b'"' ∷ []))) ++ rest))
        (captured-line rest e)

  put_line-past :
      (here : Bool) (a : ℕ) (s : Text)
      → (here && starts_with p (a ∷ s)) ≡ false
      → put_line p line here (a ∷ s) ≡ before a (put_line p line (ends_line a) s)
  unfolding put_line
  put_line-past here a s st = rw st refl

  put_line-match :
      (a : ℕ) (s : Text)
      → starts_with p (a ∷ s) ≡ true
      → put_line p line true (a ∷ s) ≡ some (line ++ drop_line (a ∷ s))
  unfolding put_line
  put_line-match a s st = rw st refl

  before-eq-some :
      (a : ℕ) (o : Option Text) (t : Text)
      → before a o ≡ some t
      → (t' : Text) × (o ≡ some t') × (t ≡ a ∷ t')
  before-eq-some a none t e = cc
  before-eq-some a (some t') t e = (t', refl, cc)

  nothing_put : (here : Bool) (t : Text) → put_line p line here [] ≡ some t → ⊥
  unfolding put_line
  nothing_put here t e = cc

  -- Behind a character, where the rest has the starts that it had.
  starts_with-cons :
      (q : Text) (a : ℕ) (s t : Text)
      → one_line q ≡ true
      → put_line p line (ends_line a) s ≡ some t
      → ((r : Text)
          → one_line r ≡ true
          → put_line p line false s ≡ some t
          → starts_with r t ≡ starts_with r s)
      → starts_with q (a ∷ t) ≡ starts_with q (a ∷ s)
  unfolding starts_with
  starts_with-cons [] a s t h e same = refl
  starts_with-cons (b ∷ q) a s t h e same = elim (Bool-cases (ends_line a)) [
    | inl over ↦ let other : (b == a) ≡ false = ground arith in rw other refl
    | inr on ↦
        let rest : one_line q ≡ true = ground arith in
        ap (λ k. (b == a) && k) (same q rest (sym (ap (λ k. put_line p line k s) on) ∙ e))
  ]

  -- Within a line, what is put_line behind it does not change how the line goes on.
  starts_with-put_line :
      (s t q : Text)
      → one_line q ≡ true
      → put_line p line false s ≡ some t
      → starts_with q t ≡ starts_with q s
  starts_with-put_line [] t q h e = absurd (nothing_put false t e)
  starts_with-put_line (a ∷ s) t q h e =
      let (t', more, same) = before-eq-some a _ t (sym (put_line-past false a s refl) ∙ e) in
      rw same (starts_with-cons q a s t' h more (starts_with-put_line s t'))

  some_injective : {s t : Text} → some s ≡ some t → s ≡ t
  some_injective e = cc

  found_replacement :
      (here : Bool) (a : ℕ) (s t : Text)
      → (here && starts_with p (a ∷ s)) ≡ true
      → put_line p line here (a ∷ s) ≡ some t
      → found p here t ≡ some v
  found_replacement false a s t both e = cc
  found_replacement true a s t both e =
      rw (← some_injective (sym (put_line-match a s both) ∙ e))
        (found-line (drop_line (a ∷ s)) (drop_line-ends (a ∷ s)))

  pub found-put_line :
      (here : Bool) (s t : Text) → put_line p line here s ≡ some t → found p here t ≡ some v
  found-put_line here [] t e = absurd (nothing_put here t e)
  found-put_line here (a ∷ s) t e = elim (Bool-cases (here && starts_with p (a ∷ s))) [
    | inl both ↦ found_replacement here a s t both e
    | inr other ↦
        let (t', more, same) = before-eq-some a _ t (sym (put_line-past here a s other) ∙ e) in
        let alike = starts_with-cons p a s t' one more (starts_with-put_line s t') in
        rw same (
          found-past p t' here a (ap (λ k. here && k) alike ∙ other)
          ∙ found-put_line (ends_line a) s t' more)
  ]

  put_line-none :
      (here : Bool) (a : ℕ) (s : Text)
      → put_line p line here (a ∷ s) ≡ none
      → ((here && starts_with p (a ∷ s)) ≡ false) × (put_line p line (ends_line a) s ≡ none)
  put_line-none here a s e = elim (Bool-cases (here && starts_with p (a ∷ s))) [
    | inl both ↦ absurd (not_none here a s both e)
    | inr other ↦ (other, before-eq-none a _ (sym (put_line-past here a s other) ∙ e))
  ]
    where
      not_none :
          (here : Bool) (a : ℕ) (s : Text)
          → (here && starts_with p (a ∷ s)) ≡ true
          → put_line p line here (a ∷ s) ≡ none
          → ⊥
      not_none false a s both e = cc
      not_none true a s both e = cc (put_line-match a s both)

      before-eq-none : (a : ℕ) (o : Option Text) → before a o ≡ none → o ≡ none
      before-eq-none a none e = refl
      before-eq-none a (some t) e = cc

  not_started :
      (here : Bool) (a w : Text) (x : ℕ) (y : Text)
      → (here && starts_with p (x ∷ (a ++ w))) ≡ false
      → (here && starts_with p (x ∷ (a ++ (10 ∷ y)))) ≡ false
  not_started false a w x y h = refl
  not_started true a w x y h = elim (Bool-cases (starts_with p (x ∷ (a ++ (10 ∷ y))))) [
    | inl started ↦ cc (starts_with-cut p (x ∷ a) w y one started, h)
    | inr other ↦ other
  ]

  no_start : (here : Bool) (s : Text) → (here && starts_with p (10 ∷ s)) ≡ false
  unfolding starts_with
  no_start here s = ground (arith, one)

  pub found-appended :
      (here : Bool) (a w : Text)
      → put_line p line here (a ++ w) ≡ none
      → found p here (a ++ (10 ∷ (line ++ (10 ∷ [])))) ≡ some v
  found-appended here [] w e =
      found-past p (line ++ (10 ∷ [])) here 10 (no_start here (line ++ (10 ∷ [])))
      ∙ found-line (10 ∷ []) refl
  found-appended here (x ∷ a) w e =
      let (other, more) = put_line-none here x (a ++ w) e in
      found-past p (a ++ (10 ∷ (line ++ (10 ∷ [])))) here x
        (not_started here a w x (line ++ (10 ∷ [])) other)
      ∙ found-appended (ends_line x) a w more
