-- ===== src/Framework/Lookup.antt =====
-- Which handler `lookup` gives.
use flare_stealthwage.Prelude.{
  ℕ, ◌≡◌, ◌⊎◌, ◌↔◌, inl, inr, refl, sym, ◌∙◌, ap, true, false, none, some, List, [], ◌∷◌, Text,
  text_eq_iff, lower, lower_idem, arith, Bool-cases, Option-cases, All,
}
use flare_stealthwage.Prelude.Strings.{lower_unit}
use flare_stealthwage.Framework.Registry.{
  Entry, empty_bytes32, is_entry, find, select, lookup, normalize, prefixed,
}

module _ {ℓ} {H : Type ℓ} where
  abbrev IsFor : Text → Text → Entry H → Type 0
  IsFor t c entry = (entry.op_type ≡ t) × (entry.op_command ≡ c)

  -- `h` is the handler of the first entry for `t` and `c`.
  pub data First (t c : Text) (h : H) : List (Entry H) → Type ℓ where
    here :
        {entry : Entry H} {entries : List (Entry H)}
        → IsFor t c entry
        → entry.handler ≡ h
        → First t c h (entry ∷ entries)
    there :
        {entry : Entry H} {entries : List (Entry H)}
        → ¬ (IsFor t c entry)
        → First t c h entries
        → First t c h (entry ∷ entries)

  -- No entry is for `t` and `c`.
  abbrev pub Absent : Text → Text → List (Entry H) → Type 0
  Absent t c = All (λ (entry : Entry H). ¬ ((entry.op_type ≡ t) × (entry.op_command ≡ c)))

  some-ne-none : {a : H} → some a ≡ none → ⊥
  some-ne-none e = cc

  is_entry_iff : (t c : Text) (entry : Entry H) → (is_entry t c entry ≡ true) ↔ IsFor t c entry
  is_entry_iff t c entry =
      ground (arith, text_eq_iff entry.op_type t, text_eq_iff entry.op_command c)

  is_entry-false :
      (t c : Text) (entry : Entry H) → (is_entry t c entry ≡ false) → ¬ (IsFor t c entry)
  is_entry-false t c entry h p = cc ((is_entry_iff t c entry).1 p)

  is_entry_of_not :
      (t c : Text) (entry : Entry H) → ¬ (IsFor t c entry) → is_entry t c entry ≡ false
  is_entry_of_not t c entry n = elim (Bool-cases (is_entry t c entry)) [
    | inl hit ↦ absurd (n ((is_entry_iff t c entry).0 hit))
    | inr miss ↦ miss
  ]

  find-First : (t c : Text) (h : H) (es : List (Entry H)) → find t c es ≡ some h → First t c h es
  unfolding find
  find-First t c h [] e = cc
  find-First t c h (x ∷ es) e = elim (Bool-cases (is_entry t c x)) [
    | inl hit ↦ here ((is_entry_iff t c x).0 hit) (some_injective (rw hit at e))
    | inr miss ↦ there (is_entry-false t c x miss) (find-First t c h es (rw miss at e))
  ]
    where
      some_injective : {a b : H} → some a ≡ some b → a ≡ b
      some_injective p = cc

  First-find : {t c : Text} {h : H} {es : List (Entry H)} → First t c h es → find t c es ≡ some h
  unfolding find
  First-find {t} {c} (here {entry} p q) = rw ((is_entry_iff t c entry).1 p, q)
  First-find {t} {c} (there {entry} p r) = rw (is_entry_of_not t c entry p) (First-find r)

  find-Absent : (t c : Text) (es : List (Entry H)) → find t c es ≡ none → Absent t c es
  unfolding find
  find-Absent t c [] e = tt
  find-Absent t c (x ∷ es) e = elim (Bool-cases (is_entry t c x)) [
    | inl hit ↦ absurd (some-ne-none (rw hit at e))
    | inr miss ↦ (is_entry-false t c x miss, find-Absent t c es (rw miss at e))
  ]

  Absent-find : (t c : Text) (es : List (Entry H)) → Absent t c es → find t c es ≡ none
  unfolding find
  Absent-find t c [] a = refl
  Absent-find t c (x ∷ es) a = rw (is_entry_of_not t c x a.0) (Absent-find t c es a.1)

  select-First :
      (t c : Text) (h : H) (es : List (Entry H))
      → select t c es ≡ some h
      → First t c h es ⊎ (Absent t c es × First t empty_bytes32 h es)
  unfolding select
  select-First t c h es e = elim (Option-cases (find t c es)) [
    | inr (k, found) ↦ inl (find-First t c h es (found ∙ (rw found at e)))
    | inl missed ↦ inr (find-Absent t c es missed, find-First t empty_bytes32 h es (rw missed at e))
  ]

  First-select :
      (t c : Text) (h : H) (es : List (Entry H))
      → First t c h es ⊎ (Absent t c es × First t empty_bytes32 h es)
      → select t c es ≡ some h
  unfolding select
  First-select t c h es (inl f) = rw (First-find f)
  First-select t c h es (inr (a, f)) = rw (Absent-find t c es a, First-find f)

  -- `lookup` gives the handler of the first entry for the type and the command, or, where no entry
  -- is for the command, of the first for the type and the empty command: exactly then.
  pub lookup_iff :
      (op_type op_command : Text) (h : H) (handlers : List (Entry H))
      → (lookup op_type op_command handlers ≡ some h) ↔ (
          First (normalize op_type) (normalize op_command) h handlers
          ⊎ (Absent (normalize op_type) (normalize op_command) handlers
              × First (normalize op_type) empty_bytes32 h handlers))
  unfolding lookup
  lookup_iff op_type op_command h handlers =
      (select-First _ _ h handlers, First-select _ _ h handlers)

normalize_of_cons : (t : Text) (c : ℕ) (s : Text) → t ≡ c ∷ s → normalize t ≡ prefixed (lower t)
unfolding normalize
normalize_of_cons t c s e = rw e

lower_cons : (c : ℕ) (s : Text) → lower (c ∷ s) ≡ lower_unit c ∷ lower s
unfolding lower
lower_cons c s = refl

normalize-lower : (s : Text) → normalize (lower s) ≡ normalize s
normalize-lower [] = unfold lower in refl
normalize-lower (c ∷ s) =
    normalize_of_cons (lower (c ∷ s)) (lower_unit c) (lower s) (lower_cons c s)
    ∙ (ap prefixed (lower_idem (c ∷ s)) ∙ sym (normalize_of_cons (c ∷ s) c s refl))

-- The case of an identifier's hex digits does not matter.
pub lookup-lower {ℓ} :
    {H : Type ℓ} (op_type op_command : Text) (handlers : List (Entry H))
    → lookup (lower op_type) (lower op_command) handlers ≡ lookup op_type op_command handlers
unfolding lookup
lookup-lower op_type op_command handlers = rw (normalize-lower op_type, normalize-lower op_command)
