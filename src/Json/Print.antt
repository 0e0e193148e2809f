-- ===== src/Json/Print.antt =====
-- `JSON.stringify`.
use flare_stealthwage.Prelude.{
  ℕ, ◌/◌, ◌%◌, true, false, ◌&&◌, ◌||◌, [], ◌∷◌, ◌++◌, ltb, ◌==◌, if◌then◌else◌, Text, text,
}
use flare_stealthwage.Prelude.Utf8.{is_high, is_low}
use flare_stealthwage.Json.Value.{
  Json, null, bool, num, str, arr, obj, Items, nil, cons, Fields, end, field,
}
use flare_stealthwage.Encoding.Hex.{hex_digit}

abbrev pub unicode_escape : ℕ → Text
unicode_escape u =
    0x5c
    ∷ b'u'
    ∷ hex_digit (u / 4096)
    ∷ hex_digit (u / 256 % 16)
    ∷ hex_digit (u / 16 % 16)
    ∷ hex_digit (u % 16)
    ∷ []

-- A unit that is no part of a surrogate pair.
unfoldable pub quote_unit : ℕ → Text
quote_unit u =
    if u == 0x22
    then 0x5c ∷ 0x22 ∷ []
    else if u == 0x5c
    then 0x5c ∷ 0x5c ∷ []
    else if u == 8
    then 0x5c ∷ b'b' ∷ []
    else if u == 9
    then 0x5c ∷ b't' ∷ []
    else if u == 10
    then 0x5c ∷ b'n' ∷ []
    else if u == 12
    then 0x5c ∷ b'f' ∷ []
    else if u == 13
    then 0x5c ∷ b'r' ∷ []
    else if ltb u 32 || (is_high u || is_low u)
    then unicode_escape u
    else u ∷ []

unfoldable pub quote_units : Text → Text
unfolding quote_unit
quote_units [] = []
quote_units (u ∷ []) = quote_unit u
quote_units (u ∷ v ∷ s) =
    let paired = u ∷ v ∷ quote_units s in
    let single = quote_unit u ++ quote_units (v ∷ s) in
    if is_high u && is_low v then paired else single

unfoldable pub quote : Text → Text
unfolding quote_units
quote s = 0x22 ∷ (quote_units s ++ (0x22 ∷ []))

unfoldable mutual
  pub stringify : Json → Text
  stringify null = text "null"
  stringify (bool true) = text "true"
  stringify (bool false) = text "false"
  stringify (num s) = s
  stringify (str s) = quote s
  stringify (arr nil) = text "[]"
  stringify (arr (cons x xs)) = b'[' ∷ (stringify x ++ more_items xs)
  stringify (obj end) = text "{}"
  stringify (obj (field k v fs)) = b'{' ∷ (quote k ++ (b':' ∷ (stringify v ++ more_fields fs)))

  pub more_items : Items → Text
  more_items nil = text "]"
  more_items (cons x xs) = b',' ∷ (stringify x ++ more_items xs)

  pub more_fields : Fields → Text
  more_fields end = text "}"
  more_fields (field k v fs) = b',' ∷ (quote k ++ (b':' ∷ (stringify v ++ more_fields fs)))
