-- ===== src/Json/Value.antt =====
-- The values of `JSON.parse`, and how the program reads them: a property, `typeof`, truthiness.
use flare_stealthwage.Prelude.{
  Bool, true, false, Option, none, some, List, [], ◌∷◌, Text, text_eq, not, if◌then◌else◌, ◌==◌,
  ◌||◌, ◌&&◌, ltb,
}

-- A number is the text it was written with; the program only tests what type it has, and whether
-- it is zero.
mutual
  pub data Json : Type 0 where
    null : Json
    bool : Bool → Json
    num : Text → Json
    str : Text → Json
    arr : Items → Json
    obj : Fields → Json

  pub data Items : Type 0 where
    nil : Items
    cons : Json → Items → Items

  pub data Fields : Type 0 where
    end : Fields
    field : Text → Json → Fields → Fields

unfoldable pub get_field : Text → Fields → Option Json
get_field key end = none
get_field key (field k v fs) = if text_eq k key then some v else get_field key fs

-- `v.key`: `none` is `undefined`. The program asks for no property that other values have.
unfoldable pub get : Text → Json → Option Json
unfolding get_field
get key (obj fs) = get_field key fs
get key _ = none

-- A repeated key keeps its place and takes the later value.
unfoldable pub set_field : Text → Json → Fields → Fields
set_field key v end = field key v end
set_field key v (field k w fs) =
    if text_eq k key then field k v fs else field k w (set_field key v fs)

-- `Object.keys`
unfoldable pub keys : Fields → List Text
keys end = []
keys (field k v fs) = k ∷ keys fs

-- Whether a numeral is that of a zero: no digit before the exponent is another. A numeral so small that
-- it is rounded to 0 is left out.
unfoldable pub is_zero : Text → Bool
is_zero [] = true
is_zero (c ∷ s) =
    let rest = is_zero s in
    if c == b'e' || c == b'E' then true else not (ltb 48 c && ltb c 58) && rest

-- Whether `if (v)` takes its branch.
unfoldable pub truthy : Json → Bool
truthy null = false
truthy (bool b) = b
truthy (num s) = not (is_zero s)
truthy (str []) = false
truthy (str (c ∷ s)) = true
truthy (arr xs) = true
truthy (obj fs) = true

-- `typeof v === "object" && v !== null`; arrays are objects.
abbrev pub is_object : Json → Bool
is_object (arr xs) = true
is_object (obj fs) = true
is_object _ = false

-- `typeof v === "string"`, with the text.
abbrev pub as_string : Option Json → Option Text
as_string (some (str s)) = some s
as_string _ = none
