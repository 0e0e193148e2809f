-- ===== src/Json/Parse/Values.antt =====
-- The reader reads what `stringify` writes, on fuel of twice its length.
use mathlib.Core.List.{append_assoc}
use flare_stealthwage.Prelude.{
  zero, suc, ◌*◌, ◌≤◌, ◌≡◌, refl, sym, ap, ◌∙◌, some, true, false, Bool, [], ◌∷◌, ◌++◌, length,
  length-append, Text, text, arith,
}
use flare_stealthwage.Prelude.Strings.{starts_with}
use flare_stealthwage.Json.Value.{
  Json, null, bool, num, str, arr, obj, Items, nil, cons, Fields, end, field, set_field,
}
use flare_stealthwage.Json.Print.{quote, quote_units, stringify, more_items}
use flare_stealthwage.Json.Parse.{characters, plain, scalar, value, items}
use flare_stealthwage.Json.Parse.Characters.{AllUnits, characters-quote}
use flare_stealthwage.Json.Parse.Numerals.{IsNumeral-head, IsNumeral-ne-nil, scalar-numeral}
use flare_stealthwage.Json.Parse.Distinct.{adds-Distinct}
use flare_stealthwage.Json.Parse.Steps.{
  value-string, value-scalar, value-array, value-object, items-last, items-more, fields-last,
  fields-more,
}
use flare_stealthwage.Json.Parse.Printable.{
  IsPrintable, joined, joined_fields, ReadsValue, ReadsItems, ReadsFields, stringify-Heads,
}

number-Reads : (s : Text) → ReadsValue (num s)
unfolding stringify IsPrintable
number-Reads [] p rest fuel st h = absurd (IsNumeral-ne-nil p)
number-Reads (c ∷ s) p rest zero st h = absurd (omega arith)
number-Reads (c ∷ s) p rest (suc fuel) st h =
    let first = IsNumeral-head c s p in
    value-scalar fuel c (s ++ rest) (ground arith) (ground arith) (ground arith) (ground arith)
    ∙ scalar-numeral (c ∷ s) rest p st

empty_array-Reads : ReadsValue (arr nil)
unfolding stringify text value
empty_array-Reads p rest zero st h = absurd (omega arith)
empty_array-Reads p rest (suc fuel) st h = refl

array-Reads : (x : Json) (xs : Items) → ReadsItems (cons x xs) → ReadsValue (arr (cons x xs))
unfolding stringify IsPrintable
array-Reads x xs r p rest zero st h = absurd (omega arith)
array-Reads x xs r p rest (suc fuel) st h =
    let first = stringify-Heads x p.0 in
    let more = more_items xs in
    let same = ap (λ t. (t ++ more) ++ rest) first.same in
    ap (λ t. value (suc fuel) (b'[' ∷ t)) same
    ∙ value-array fuel first.head ((first.tail ++ more) ++ rest) (cons x xs) rest first.visible
        first.opens (ap (items fuel) (sym same) ∙ r p tt rest fuel (omega arith))

item-Reads : (x : Json) (xs : Items) → ReadsValue x → ReadsItems xs → ReadsItems (cons x xs)
unfolding stringify IsPrintable text
item-Reads x xs rx rxs p some_items rest zero h = absurd (omega arith)
item-Reads x nil rx rxs p some_items rest (suc fuel) h = items-last fuel _ x rest (
    ap (value fuel) (append_assoc (stringify x) (b']' ∷ []) rest)
    ∙ rx p.0 (b']' ∷ rest) fuel refl (omega (arith, length-append (stringify x) (b']' ∷ []))))
item-Reads x (cons y ys) rx rxs p some_items rest (suc fuel) h =
    items-more fuel _ x (joined (cons y ys) ++ rest) (cons y ys) rest
      (ap (value fuel) (append_assoc (stringify x) (b',' ∷ joined (cons y ys)) rest)
        ∙ rx p.0 (b',' ∷ (joined (cons y ys) ++ rest)) fuel refl
            (omega (arith, length-append (stringify x) (b',' ∷ joined (cons y ys)))))
      (rxs p.1 tt rest fuel
        (omega (arith, length-append (stringify x) (b',' ∷ joined (cons y ys)))))

empty_object-Reads : ReadsValue (obj end)
unfolding stringify text value
empty_object-Reads p rest zero st h = absurd (omega arith)
empty_object-Reads p rest (suc fuel) st h = refl

string-Reads : (s : Text) → ReadsValue (str s)
unfolding stringify quote IsPrintable
string-Reads s p rest zero st h = absurd (omega arith)
string-Reads s p rest (suc fuel) st h = value-string fuel _ s rest (characters-quote s rest p)

key-Reads :
    (k : Text) (more rest : Text)
    → AllUnits k
    → characters plain (((quote_units k ++ (0x22 ∷ [])) ++ (b':' ∷ more)) ++ rest)
      ≡ some (k, b':' ∷ (more ++ rest))
key-Reads k more rest p =
    ap (characters plain) (append_assoc (quote_units k ++ (0x22 ∷ [])) (b':' ∷ more) rest)
    ∙ characters-quote k (b':' ∷ (more ++ rest)) p

field-Reads :
    (k : Text) (v : Json) (fs : Fields) → ReadsValue v → ReadsFields fs → ReadsFields (field k v fs)
unfolding stringify quote IsPrintable text
field-Reads k v fs rv rfs p some_fields before rest zero h = absurd (omega arith)
field-Reads k v end rv rfs p some_fields before rest (suc fuel) h =
    let n = length-append (quote_units k ++ (0x22 ∷ [])) (b':' ∷ (stringify v ++ (b'}' ∷ []))) in
    fields-last fuel before _ _ k v rest (key-Reads k _ rest p.0) (
      ap (value fuel) (append_assoc (stringify v) (b'}' ∷ []) rest)
      ∙ rv p.1 (b'}' ∷ rest) fuel refl (omega (arith, n, length-append (stringify v) (b'}' ∷ []))))
field-Reads k v (field l w gs) rv rfs p some_fields before rest (suc fuel) h =
    let behind = joined_fields (field l w gs) in
    let n =
      length-append (quote_units k ++ (0x22 ∷ [])) (b':' ∷ (stringify v ++ (b',' ∷ behind))) in
    let m = length-append (stringify v) (b',' ∷ behind) in
    fields-more fuel before _ _ k v (behind ++ rest) (key-Reads k _ rest p.0) (
      ap (value fuel) (append_assoc (stringify v) (b',' ∷ behind) rest)
      ∙ rv p.1 (b',' ∷ (behind ++ rest)) fuel refl (omega (arith, n, m)))
    ∙ rfs p.2 tt (set_field k v before) rest fuel (omega (arith, n, m))

object-Reads :
    (k : Text) (v : Json) (fs : Fields)
    → ReadsFields (field k v fs)
    → ReadsValue (obj (field k v fs))
unfolding stringify quote IsPrintable text
object-Reads k v fs r p rest zero st h = absurd (omega arith)
object-Reads k v fs r p rest (suc fuel) st h = value-object fuel _ (field k v fs) rest (
    r p.0 tt end rest fuel (omega arith)
    ∙ ap (λ gs. some (gs, rest)) (adds-Distinct (field k v fs) p.1))

empty_items-Reads : ReadsItems nil
empty_items-Reads p some_items = absurd some_items

empty_fields-Reads : ReadsFields end
empty_fields-Reads p some_fields = absurd some_fields

keyword-fuel : (b : Bool) → 2 * length (stringify (bool b)) ≤ 0 → ⊥
unfolding stringify text
keyword-fuel true h = omega arith
keyword-fuel false h = omega arith

keyword-Reads : (b : Bool) → ReadsValue (bool b)
unfolding stringify text value scalar starts_with
keyword-Reads b p rest zero st h = absurd (keyword-fuel b h)
keyword-Reads true p rest (suc fuel) st h = refl
keyword-Reads false p rest (suc fuel) st h = refl

null-Reads : ReadsValue null
unfolding stringify text value scalar starts_with
null-Reads p rest zero st h = absurd (omega arith)
null-Reads p rest (suc fuel) st h = refl

mutual
  unfolding IsPrintable

  pub value-Reads : (v : Json) → ReadsValue v
  value-Reads null = null-Reads
  value-Reads (bool b) = keyword-Reads b
  value-Reads (num s) = number-Reads s
  value-Reads (str s) = string-Reads s
  value-Reads (arr nil) = empty_array-Reads
  value-Reads (arr (cons x xs)) = array-Reads x xs (items-Reads (cons x xs))
  value-Reads (obj end) = empty_object-Reads
  value-Reads (obj (field k v fs)) = object-Reads k v fs (fields-Reads (field k v fs))

  items-Reads : (xs : Items) → ReadsItems xs
  items-Reads nil = empty_items-Reads
  items-Reads (cons x xs) = item-Reads x xs (value-Reads x) (items-Reads xs)

  fields-Reads : (fs : Fields) → ReadsFields fs
  fields-Reads end = empty_fields-Reads
  fields-Reads (field k v fs) = field-Reads k v fs (value-Reads v) (fields-Reads fs)
