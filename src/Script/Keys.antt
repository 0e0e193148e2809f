-- ===== src/Script/Keys.antt =====
-- typescript/scripts/gen-tee-keys.ts: keys are written into the .env files, once.
use flare_stealthwage.Prelude.{
  ℕ, Bool, true, false, not, ◌&&◌, ◌||◌, Option, none, some, [], ◌∷◌, ◌++◌, ◌==◌, length, drop,
  if◌then◌else◌, Text, text, Result, ok, throw, type_error, then_try,
}
use flare_stealthwage.Prelude.Strings.{is_space, starts_with}
use flare_stealthwage.Client.Answer.{ends_line}

-- A character before what is left of the text behind it.
abbrev pub kept : ℕ → Text → Text
kept c [] = if is_space c then [] else c ∷ []
kept c (d ∷ s) = c ∷ d ∷ s

-- `trimEnd`
unfoldable pub trim_end : Text → Text
trim_end [] = []
trim_end (c ∷ s) = kept c (trim_end s)

-- What follows the rest of a line.
unfoldable pub drop_line : Text → Text
drop_line [] = []
drop_line (c ∷ s) = if ends_line c then c ∷ s else drop_line s

abbrev pub before : ℕ → Option Text → Option Text
before c none = none
before c (some s) = some (c ∷ s)

-- The rest of a line.
unfoldable pub take_line : Text → Text
take_line [] = []
take_line (c ∷ s) = if ends_line c then [] else c ∷ take_line s

-- What `$` and the character behind it stand for, in a replacement for a match between two texts: `$$`,
-- `$&`, "$`" and `$'`. With no groups, other patterns stand for themselves.
abbrev pub pattern_of : Text → Text → Text → ℕ → Option Text
pattern_of ahead match behind d =
    if d == 36
    then some (36 ∷ [])
    else if d == 38
    then some match
    else if d == 96
    then some ahead
    else if d == 39
    then some behind
    else none

-- A replacement with its patterns expanded.
unfoldable pub expanded : Text → Text → Text → Text → Text
expanded ahead match behind [] = []
expanded ahead match behind (c ∷ []) = c ∷ []
expanded ahead match behind (c ∷ d ∷ s) =
    let after = expanded ahead match behind s in
    let next = expanded ahead match behind (d ∷ s) in
    if c == 36
    then elim (pattern_of ahead match behind d) [ none ↦ c ∷ next | some t ↦ t ++ after ]
    else c ∷ next

-- `body.replace(re, line)` for `^key=.*$`, where a line starts so, or `none` where `re.test` fails; `here` tells
-- whether the text is at the start of a line, and `ahead` is what stands ahead of it.
unfoldable pub replaced : Text → Text → Text → Bool → Text → Option Text
replaced start line ahead here [] = none
replaced start line ahead here (c ∷ s) =
    let more = before c (replaced start line (ahead ++ (c ∷ [])) (ends_line c) s) in
    if here && starts_with start (c ∷ s)
    then some (expanded ahead (take_line (c ∷ s)) (drop_line (c ∷ s)) line ++ drop_line (c ∷ s))
    else more

-- The keys of the script, in which every character stands for itself as a regular expression.
pub data Key : Type 0 where
  ecies_privkey signer_privkey : Key

abbrev pub name_of : Key → Text
name_of ecies_privkey = text "TEE_ECIES_PRIVKEY"
name_of signer_privkey = text "TEE_SIGNER_PRIVKEY"

abbrev pub start_of : Text → Text
start_of name = name ++ (b'=' ∷ [])

abbrev pub key_line : Text → Text → Text
key_line key value = (key ++ (b'=' ∷ [])) ++ (b'"' ∷ (value ++ (b'"' ∷ [])))

abbrev pub or_appended : Option Text → Text → Text → Text
or_appended (some replacement) body line = replacement
or_appended none body line = trim_end body ++ (10 ∷ (line ++ (10 ∷ [])))

abbrev pub set_in : Text → Text → Text → Text
set_in start line body = or_appended (replaced start line [] true body) body line

-- `upsert`
unfoldable pub upsert : Text → Key → Text → Text
upsert body key value = set_in (start_of (name_of key)) (key_line (name_of key) value) body

-- Whether a line goes on.
abbrev pub goes_on : Text → Bool
goes_on [] = false
goes_on (c ∷ s) = not (ends_line c)

-- A line that starts so, with something behind it.
unfoldable pub some_line : Text → Bool → Text → Bool
some_line start here [] = false
some_line start here (c ∷ s) =
    let more = some_line start (ends_line c) s in
    if here && (starts_with start (c ∷ s) && goes_on (drop (length start) (c ∷ s)))
    then true
    else more

-- `hasKey`, the test for `^key="?.+"?$`: any character will do for `.+`, a quote as well.
unfoldable pub has_key : Text → Key → Bool
has_key body key = some_line (start_of (name_of key)) true body

-- Whether a line ends here, after a quote or none.
abbrev pub closes : Text → Bool
closes [] = true
closes (c ∷ []) = ends_line c || c == b'"'
closes (c ∷ d ∷ s) = ends_line c || (c == b'"' && ends_line d)

abbrev pub longer : ℕ → Text → Option Text → Option Text
longer c s (some v) = some (c ∷ v)
longer c s none = if closes s then some (c ∷ []) else none

-- The longest match of `[^"\n]+`, before `"?$`.
unfoldable pub captured : Text → Option Text
captured [] = none
captured (c ∷ s) = let more = captured s in if c == b'"' || c == 10 then none else longer c s more

abbrev pub without_quote : Text → Text
without_quote [] = []
without_quote (c ∷ s) = if c == b'"' then s else c ∷ s

abbrev pub or_later : Option Text → Option Text → Option Text
or_later (some v) later = some v
or_later none later = later

-- The group of the first match of `^key="?([^"\n]+)"?$`.
unfoldable pub found : Text → Bool → Text → Option Text
found start here [] = none
found start here (c ∷ s) =
    let later = found start (ends_line c) s in
    if here && starts_with start (c ∷ s)
    then or_later (captured (without_quote (drop (length start) (c ∷ s)))) later
    else later

-- `match(…)![1]`, which throws where there is no match.
unfoldable pub matched : Text → Key → Result Text
matched body key = elim (found (start_of (name_of key)) true body) [
  | none ↦ throw (type_error (text "Cannot read properties of null (reading '1')"))
  | some v ↦ ok v
]

-- A pair of private keys.
pub record Keys : Type 0 where
  pub ecies : Text
  pub signer : Text

-- The content of a file that exists, with both keys set.
abbrev pub rewritten : Keys → Option Text → Option Text
rewritten keys none = none
rewritten keys (some body) =
    some (upsert (upsert body ecies_privkey keys.ecies) signer_privkey keys.signer)

abbrev pub content : Option Text → Text
content none = []
content (some body) = body

-- `main`, on the contents of .env and .env.coston2, with new keys: the contents behind it, and the
-- keys whose public halves are reported.
unfoldable pub generate :
    Bool → Keys → Option Text → Option Text → Result (Option Text × Option Text × Keys)
generate force fresh env coston2 =
    if has_key (content env) ecies_privkey && has_key (content env) signer_privkey && not force
    then then_try (matched (content env) ecies_privkey) (λ ecies.
      then_try (matched (content env) signer_privkey)
        λ signer. ok (env, coston2, record { ecies = ecies; signer = signer }))
    else ok (rewritten fresh env, rewritten fresh coston2, fresh)
