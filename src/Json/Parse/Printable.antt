-- ===== src/Json/Parse/Printable.antt =====
-- The values that `stringify` prints, and what it means that the reader reads their texts.
use flare_stealthwage.Prelude.{
  ℕ, ◌+◌, ◌*◌, ◌≤◌, ◌≡◌, refl, some, true, false, ◌==◌, [], ◌∷◌, ◌++◌, length, Text, text, arith,
}
use flare_stealthwage.Json.Value.{
  Json, null, bool, num, str, arr, obj, Items, nil, cons, Fields, end, field,
}
use flare_stealthwage.Json.Print.{quote, stringify, more_items, more_fields}
use flare_stealthwage.Json.Parse.{is_blank, value, items, fields}
use flare_stealthwage.Json.Parse.Characters.{AllUnits}
use flare_stealthwage.Json.Parse.Numerals.{IsNumeral, IsNumeral-head, IsNumeral-ne-nil, stops}
use flare_stealthwage.Json.Parse.Distinct.{Distinct, adds}

-- Numbers are numerals of JSON, texts are of 16-bit units, and no object names a property twice.
unfoldable mutual
  pub IsPrintable : Json → Type 0
  IsPrintable null = Unit
  IsPrintable (bool b) = Unit
  IsPrintable (num s) = IsNumeral s
  IsPrintable (str s) = AllUnits s
  IsPrintable (arr xs) = PrintableItems xs
  IsPrintable (obj fs) = PrintableFields fs × Distinct fs

  pub PrintableItems : Items → Type 0
  PrintableItems nil = Unit
  PrintableItems (cons x xs) = IsPrintable x × PrintableItems xs

  pub PrintableFields : Fields → Type 0
  PrintableFields end = Unit
  PrintableFields (field k v fs) = AllUnits k × IsPrintable v × PrintableFields fs

-- The items and properties behind the opening bracket.
abbrev pub joined : Items → Text
joined nil = []
joined (cons x xs) = stringify x ++ more_items xs

abbrev pub joined_fields : Fields → Text
joined_fields end = []
joined_fields (field k v fs) = quote k ++ (b':' ∷ (stringify v ++ more_fields fs))

abbrev pub SomeItems : Items → Type 0
SomeItems nil = ⊥
SomeItems (cons x xs) = Unit

abbrev pub SomeFields : Fields → Type 0
SomeFields end = ⊥
SomeFields (field k v fs) = Unit

abbrev pub ReadsValue : Json → Type 0
ReadsValue v =
    IsPrintable v
    → (rest : Text) (fuel : ℕ) → stops rest ≡ true
    → 2 * length (stringify v) ≤ fuel
    → value fuel (stringify v ++ rest) ≡ some (v, rest)

abbrev pub ReadsItems : Items → Type 0
ReadsItems xs =
    PrintableItems xs
    → SomeItems xs
    → (rest : Text) (fuel : ℕ) → 2 * length (joined xs) + 1 ≤ fuel
    → items fuel (joined xs ++ rest) ≡ some (xs, rest)

-- What the reader gives on an object is the object with each property set in turn.
abbrev pub ReadsFields : Fields → Type 0
ReadsFields fs =
    PrintableFields fs
    → SomeFields fs
    → (before : Fields) (rest : Text) (fuel : ℕ) → 2 * length (joined_fields fs) + 1 ≤ fuel
    → fields fuel before (joined_fields fs ++ rest) ≡ some (adds before fs, rest)

-- A printed value starts with a character that is no white space and no closing bracket.
pub record Heads (s : Text) : Type 0 where
  pub head : ℕ
  pub tail : Text
  pub same : s ≡ head ∷ tail
  pub visible : is_blank head ≡ false
  pub opens : (head == b']') ≡ false

pub stringify-Heads : (v : Json) → IsPrintable v → Heads (stringify v)
unfolding stringify quote text IsPrintable
stringify-Heads null p = record { head = _; tail = _; same = refl; visible = refl; opens = refl }
stringify-Heads (bool true) p = record {
  head = _;
  tail = _;
  same = refl;
  visible = refl;
  opens = refl;
}
stringify-Heads (bool false) p = record {
  head = _;
  tail = _;
  same = refl;
  visible = refl;
  opens = refl;
}
stringify-Heads (num []) p = absurd (IsNumeral-ne-nil p)
stringify-Heads (num (c ∷ s)) p =
    let first = IsNumeral-head c s p in
    record { head = c; tail = s; same = refl; visible = ground arith; opens = ground arith }
stringify-Heads (str s) p = record { head = _; tail = _; same = refl; visible = refl; opens = refl }
stringify-Heads (arr nil) p = record {
  head = _;
  tail = _;
  same = refl;
  visible = refl;
  opens = refl;
}
stringify-Heads (arr (cons x xs)) p = record {
  head = _;
  tail = _;
  same = refl;
  visible = refl;
  opens = refl;
}
stringify-Heads (obj end) p = record {
  head = _;
  tail = _;
  same = refl;
  visible = refl;
  opens = refl;
}
stringify-Heads (obj (field k v fs)) p = record {
  head = _;
  tail = _;
  same = refl;
  visible = refl;
  opens = refl;
}
