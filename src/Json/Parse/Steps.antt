-- ===== src/Json/Parse/Steps.antt =====
-- One level of the reader: what `value`, `items` and `fields` give, from what their parts give.
use flare_stealthwage.Prelude.{ℕ, suc, ◌≡◌, refl, some, false, ◌∷◌, ◌==◌, Text}
use flare_stealthwage.Json.Value.{Json, str, arr, obj, Items, nil, cons, Fields, end, set_field}
use flare_stealthwage.Json.Parse.{
  is_blank, skip, plain, characters, key_of, scalar, value, items, fields,
}

pub value-string :
    (fuel : ℕ) (s t rest : Text)
    → characters plain s ≡ some (t, rest)
    → value (suc fuel) (0x22 ∷ s) ≡ some (str t, rest)
unfolding value
value-string fuel s t rest e = rw e refl

pub value-scalar :
    (fuel c : ℕ) (s : Text)
    → is_blank c ≡ false
    → (c == 0x22) ≡ false
    → (c == b'[') ≡ false
    → (c == b'{') ≡ false
    → value (suc fuel) (c ∷ s) ≡ scalar (c ∷ s)
unfolding value
value-scalar fuel c s e quote bracket brace = rw (e, value, skip, quote, bracket, brace) refl

pub value-array :
    (fuel d : ℕ) (s : Text) (vs : Items) (after : Text)
    → is_blank d ≡ false
    → (d == b']') ≡ false
    → items fuel (d ∷ s) ≡ some (vs, after)
    → value (suc fuel) (b'[' ∷ d ∷ s) ≡ some (arr vs, after)
unfolding value
value-array fuel d s vs after e bracket inner = rw (e, value, skip, bracket, inner) refl

pub value-object :
    (fuel : ℕ) (s : Text) (fs : Fields) (after : Text)
    → fields fuel end (0x22 ∷ s) ≡ some (fs, after)
    → value (suc fuel) (b'{' ∷ 0x22 ∷ s) ≡ some (obj fs, after)
unfolding value
value-object fuel s fs after inner = rw inner refl

pub items-last :
    (fuel : ℕ) (s : Text) (v : Json) (rest : Text)
    → value fuel s ≡ some (v, b']' ∷ rest)
    → items (suc fuel) s ≡ some (cons v nil, rest)
unfolding value
items-last fuel s v rest e = rw e refl

pub items-more :
    (fuel : ℕ) (s : Text) (v : Json) (rest : Text) (vs : Items) (after : Text)
    → value fuel s ≡ some (v, b',' ∷ rest)
    → items fuel rest ≡ some (vs, after)
    → items (suc fuel) s ≡ some (cons v vs, after)
unfolding value
items-more fuel s v rest vs after e more = rw (e, more) refl

pub fields-last :
    (fuel : ℕ) (before : Fields) (inside s : Text) (k : Text) (v : Json) (rest : Text)
    → characters plain inside ≡ some (k, b':' ∷ s)
    → value fuel s ≡ some (v, b'}' ∷ rest)
    → fields (suc fuel) before (0x22 ∷ inside) ≡ some (set_field k v before, rest)
unfolding value
fields-last fuel before inside s k v rest key e = rw (key, fields, key_of, e) refl

pub fields-more :
    (fuel : ℕ) (before : Fields) (inside s : Text) (k : Text) (v : Json) (rest : Text)
    → characters plain inside ≡ some (k, b':' ∷ s)
    → value fuel s ≡ some (v, b',' ∷ rest)
    → fields (suc fuel) before (0x22 ∷ inside) ≡ fields fuel (set_field k v before) rest
unfolding value
fields-more fuel before inside s k v rest key e = rw (key, fields, key_of, e) refl
