-- ===== src/Script/Lines.antt =====
-- Lines of an .env file: where one starts, and what it holds.
use flare_stealthwage.Prelude.{
  ℕ, if◌then◌else◌, Option, none, ◌≡◌, refl, ap, ◌∙◌, Bool, true, false, not, ◌&&◌, ◌||◌, some, [],
  ◌∷◌, ◌++◌, ◌==◌, all, length, drop, Text, arith, Bool-cases, inl, inr,
}
use flare_stealthwage.Prelude.Strings.{is_space, starts_with}
use flare_stealthwage.Client.Answer.{ends_line}
use flare_stealthwage.Script.Keys.{
  kept, before, expanded, replaced, take_line, trim_end, drop_line, captured, without_quote, found,
}

-- A value without quotes and ends of lines, and a text without ends of lines.
abbrev pub is_plain : Text → Bool
is_plain v = all (λ c. not (c == b'"' || ends_line c)) v

abbrev pub one_line : Text → Bool
one_line s = all (λ c. not (ends_line c)) s

-- The text goes on at the end of a line.
abbrev pub ends_here : Text → Bool
ends_here [] = true
ends_here (c ∷ s) = ends_line c

pub drop_line-ends : (s : Text) → ends_here (drop_line s) ≡ true
unfolding drop_line
drop_line-ends [] = refl
drop_line-ends (c ∷ s) = ground (arith, drop_line-ends s)

pub captured-quoted :
    (c : ℕ) (v rest : Text)
    → is_plain (c ∷ v) ≡ true
    → ends_here rest ≡ true
    → captured (c ∷ (v ++ (b'"' ∷ rest))) ≡ some (c ∷ v)
unfolding captured
captured-quoted c [] [] h e = ground arith
captured-quoted c [] (d ∷ rest) h e = ground arith
captured-quoted c (d ∷ v) rest h e = ground (arith, captured-quoted d v rest)

pub starts_with-append : (p s : Text) → starts_with p (p ++ s) ≡ true
unfolding starts_with
starts_with-append [] s = refl
starts_with-append (c ∷ p) s = ground (arith, starts_with-append p s)

pub drop-append : (p s : Text) → drop (length p) (p ++ s) ≡ s
drop-append [] s = refl
drop-append (c ∷ p) s = drop-append p s

pub found-match :
    (p s v : Text) (c : ℕ)
    → starts_with p (c ∷ s) ≡ true
    → captured (without_quote (drop (length p) (c ∷ s))) ≡ some v
    → found p true (c ∷ s) ≡ some v
unfolding found
found-match p s v c st caught = rw (st, caught) refl

pub found-past :
    (p s : Text) (here : Bool) (c : ℕ)
    → (here && starts_with p (c ∷ s)) ≡ false
    → found p here (c ∷ s) ≡ found p (ends_line c) s
unfolding found
found-past p s here c st = rw st refl

-- A start that is there before the end of a line is there whatever follows.
pub starts_with-cut :
    (q a w y : Text)
    → one_line q ≡ true
    → starts_with q (a ++ (10 ∷ y)) ≡ true
    → starts_with q (a ++ w) ≡ true
unfolding starts_with
starts_with-cut [] a w y h st = refl
starts_with-cut (b ∷ q) [] w y h st = ground arith
starts_with-cut (b ∷ q) (x ∷ a) w y h st = ground (arith, starts_with-cut q a w y)

pub kept_rest : (c : ℕ) (s w : Text) → (x : Text) × (c ∷ (s ++ w) ≡ kept c s ++ x)
kept_rest c [] w = elim (Bool-cases (is_space c)) [
  | inl space ↦ (c ∷ w, rw space refl)
  | inr other ↦ (w, rw other refl)
]
kept_rest c (d ∷ s) w = (w, refl)

pub trim_end_rest : (s : Text) → (w : Text) × (s ≡ trim_end s ++ w)
unfolding trim_end
trim_end_rest [] = ([], refl)
trim_end_rest (c ∷ s) =
    let (w, e) = trim_end_rest s in
    let (x, e') = kept_rest c (trim_end s) w in (x, ap (λ (l : Text). c ∷ l) e ∙ e')

-- `replaced` for a replacement that is put in as it stands.
unfoldable pub put_line : Text → Text → Bool → Text → Option Text
put_line start line here [] = none
put_line start line here (c ∷ s) =
    let more = before c (put_line start line (ends_line c) s) in
    if here && starts_with start (c ∷ s) then some (line ++ drop_line (c ∷ s)) else more

-- A text without "$".
abbrev pub no_dollar : Text → Bool
no_dollar t = all (λ c. not (c == 36)) t

expanded_lem :
    (ahead match behind t : Text) → no_dollar t ≡ true → expanded ahead match behind t ≡ t
unfolding expanded
expanded_lem ahead match behind [] h = refl
expanded_lem ahead match behind (c ∷ []) h = refl
expanded_lem ahead match behind (c ∷ d ∷ s) h =
    ground (arith, expanded_lem ahead match behind (d ∷ s))

pub replaced-eq-put_line :
    (start line ahead : Text) (here : Bool) (s : Text)
    → no_dollar line ≡ true
    → replaced start line ahead here s ≡ put_line start line here s
unfolding replaced put_line
replaced-eq-put_line start line ahead here [] h = refl
replaced-eq-put_line start line ahead here (c ∷ s) h =
    rw
      (
        replaced-eq-put_line start line (ahead ++ (c ∷ [])) (ends_line c) s h,
        expanded_lem ahead (take_line (c ∷ s)) (drop_line (c ∷ s)) line h,
      )
      refl
