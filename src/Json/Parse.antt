-- ===== src/Json/Parse.antt =====
-- `JSON.parse`, a recursive descent on fuel. Each level of nesting takes a character, so the length
-- of the text is fuel enough.
pub mod Characters
pub mod Decimals
pub mod Distinct
pub mod Numerals
pub mod Printable
pub mod Steps
pub mod Values
use flare_stealthwage.Prelude.{
  ℕ, zero, suc, ◌+◌, ◌*◌, Bool, true, false, ◌||◌, Option, none, some, [], ◌∷◌, ltb, ◌==◌,
  if◌then◌else◌, length, drop, Text, text,
}
use flare_stealthwage.Prelude.Strings.{hex_value, starts_with}
use flare_stealthwage.Prelude.Decimal.{is_digit}
use flare_stealthwage.Json.Value.{
  Json, null, bool, num, str, arr, obj, Items, nil, cons, Fields, end, set_field,
}

-- White space in JSON.
abbrev pub is_blank : ℕ → Bool
is_blank c = c == 32 || (c == 9 || (c == 10 || c == 13))

pub skip : Text → Text
skip [] = []
skip (c ∷ s) = if is_blank c then skip s else c ∷ s

-- Where the reader of a string stands: between characters, behind a backslash, or with so many
-- digits of a `\u` escape to come behind the value so far.
pub data Mode : Type 0 where
  plain : Mode
  escaped : Mode
  unicode : ℕ → ℕ → Mode

pub data Read : Type 0 where
  done : Read
  fail : Read
  pass : Mode → Read
  emit : ℕ → Read

read_escape : ℕ → Read
read_escape c =
    if c == 0x22 || (c == 0x5c || c == b'/')
    then emit c
    else if c == b'b'
    then emit 8
    else if c == b'f'
    then emit 12
    else if c == b'n'
    then emit 10
    else if c == b'r'
    then emit 13
    else if c == b't'
    then emit 9
    else if c == b'u'
    then pass (unicode 3 0)
    else fail

read_digit : ℕ → ℕ → Option ℕ → Read
read_digit left value none = fail
read_digit zero value (some d) = emit (value * 16 + d)
read_digit (suc left) value (some d) = pass (unicode left (value * 16 + d))

read_unit : Mode → ℕ → Read
unfolding read_escape read_digit
read_unit plain c =
    if c == 0x22
    then done
    else if c == 0x5c
    then pass escaped
    else if ltb c 32
    then fail
    else emit c
read_unit escaped c = read_escape c
read_unit (unicode left value) c = read_digit left value (hex_value c)

pub push : ℕ → Option (Text × Text) → Option (Text × Text)
push c none = none
push c (some (s, rest)) = some (c ∷ s, rest)

-- The characters of a string up to its closing quote, and what follows.
pub characters : Mode → Text → Option (Text × Text)
characters mode [] = none
characters mode (c ∷ s) = elim (read_unit mode c) [
  | done ↦ some ([], s)
  | fail ↦ none
  | pass mode' ↦ characters mode' s
  | emit u ↦ push u (characters plain s)
]

abbrev pub is_number_char : ℕ → Bool
is_number_char c =
    is_digit c || (c == b'+' || (c == b'-' || (c == b'.' || (c == b'e' || c == b'E'))))

pub span : Text → Text × Text
span [] = ([], [])
span (c ∷ s) = if is_number_char c then (c ∷ (span s).0, (span s).1) else ([], c ∷ s)

-- The states of the grammar of numbers.
pub data Numeral : Type 0 where
  start minus leading integer point fraction exponent sign power bad : Numeral

unfoldable pub next : Numeral → ℕ → Numeral
next start c =
    if c == b'-' then minus else if c == b'0' then leading else if is_digit c then integer else bad
next minus c = if c == b'0' then leading else if is_digit c then integer else bad
next leading c = if c == b'.' then point else if c == b'e' || c == b'E' then exponent else bad
next integer c =
    if is_digit c
    then integer
    else if c == b'.'
    then point
    else if c == b'e' || c == b'E'
    then exponent
    else bad
next point c = if is_digit c then fraction else bad
next fraction c = if is_digit c then fraction else if c == b'e' || c == b'E' then exponent else bad
next exponent c = if is_digit c then power else if c == b'+' || c == b'-' then sign else bad
next sign c = if is_digit c then power else bad
next power c = if is_digit c then power else bad
next bad c = bad

unfoldable pub accepts : Numeral → Text → Bool
accepts leading [] = true
accepts integer [] = true
accepts fraction [] = true
accepts power [] = true
accepts _ [] = false
accepts n (c ∷ s) = accepts (next n c) s

pub number : Text × Text → Option (Json × Text)
unfolding accepts next
number (lexeme, rest) = if accepts start lexeme then some (num lexeme, rest) else none

as_str : Option (Text × Text) → Option (Json × Text)
as_str none = none
as_str (some (s, rest)) = some (str s, rest)

-- A keyword or a number.
pub scalar : Text → Option (Json × Text)
unfolding number span
scalar s =
    if starts_with (text "null") s
    then some (null, drop 4 s)
    else if starts_with (text "true") s
    then some (bool true, drop 4 s)
    else if starts_with (text "false") s
    then some (bool false, drop 5 s)
    else number (span s)

-- What follows the key of a property, up to its value.
pub key_of : Option (Text × Text) → Option (Text × Text)
key_of none = none
key_of (some (k, s)) = elim (skip s) [
  | [] ↦ none
  | c ∷ rest ↦ if c == b':' then some (k, rest) else none
]

abbrev add_item : Json → Option (Items × Text) → Option (Items × Text)
add_item v none = none
add_item v (some (vs, rest)) = some (cons v vs, rest)

mutual
  unfolding skip characters read_unit push scalar as_str key_of

  pub value : ℕ → Text → Option (Json × Text)
  value zero s = none
  value (suc fuel) s = elim (skip s) [
    | [] ↦ none
    | c ∷ rest ↦ elim (c == 0x22) [
      | true ↦ as_str (characters plain rest)
      | false ↦ elim (c == b'[') [
        | true ↦ elim (skip rest) [
          | [] ↦ none
          | d ∷ more ↦ elim (d == b']') [
            | true ↦ some (arr nil, more)
            | false ↦ elim (items fuel rest) [
              | none ↦ none
              | some (vs, after) ↦ some (arr vs, after)
            ]
          ]
        ]
        | false ↦ elim (c == b'{') [
          | true ↦ elim (skip rest) [
            | [] ↦ none
            | d ∷ more ↦ elim (d == b'}') [
              | true ↦ some (obj end, more)
              | false ↦ elim (fields fuel end (d ∷ more)) [
                | none ↦ none
                | some (fs, after) ↦ some (obj fs, after)
              ]
            ]
          ]
          | false ↦ scalar (c ∷ rest)
        ]
      ]
    ]
  ]

  -- A value and the items behind it, up to the closing bracket.
  pub items : ℕ → Text → Option (Items × Text)
  items zero s = none
  items (suc fuel) s = elim (value fuel s) [
    | none ↦ none
    | some (v, after) ↦ elim (skip after) [
      | [] ↦ none
      | c ∷ rest ↦ elim (c == b',') [
        | true ↦ add_item v (items fuel rest)
        | false ↦ if c == b']' then some (cons v nil, rest) else none
      ]
    ]
  ]

  -- A property and those behind it, up to the closing brace, after the properties so far.
  pub fields : ℕ → Fields → Text → Option (Fields × Text)
  fields zero before s = none
  fields (suc fuel) before s = elim (skip s) [
    | [] ↦ none
    | q ∷ inside ↦ elim (q == 0x22) [
      | false ↦ none
      | true ↦ elim (key_of (characters plain inside)) [
        | none ↦ none
        | some (k, s') ↦ elim (value fuel s') [
          | none ↦ none
          | some (v, after) ↦ elim (skip after) [
            | [] ↦ none
            | c ∷ rest ↦ elim (c == b',') [
              | true ↦ fields fuel (set_field k v before) rest
              | false ↦ if c == b'}' then some (set_field k v before, rest) else none
            ]
          ]
        ]
      ]
    ]
  ]

-- Nothing but white space may follow the value.
pub whole : Option (Json × Text) → Option Json
whole none = none
whole (some (v, rest)) = elim (skip rest) [ [] ↦ some v | _ ↦ none ]

-- The value that a text stands for, if it is JSON. Two levels of fuel a character cover the calls
-- that read none.
unfoldable pub read_json : Text → Option Json
unfolding whole value
read_json s = whole (value (length s + length s + 2) s)
