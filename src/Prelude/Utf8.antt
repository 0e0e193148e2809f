-- ===== src/Prelude/Utf8.antt =====
-- `TextEncoder`, `TextDecoder` and `Buffer`'s UTF-8: code units to bytes and back.
use Prim.Native.Nat.{ℕ, ◌+◌, ◌-◌, ◌*◌, ◌/◌, ◌%◌, ◌<◌, ◌≤◌}
use mathlib.Core.Path.{◌≡◌, refl, ap, ◌∙◌}
use mathlib.Core.Logic.{inl, inr}
use mathlib.Core.Bool.{Bool, true, false, and-eq-true_iff, not, ◌&&◌, ◌||◌}
use mathlib.Core.List.{List, [], ◌∷◌, ◌++◌, append-nil}
use native.Mathlib.Omega.{arith}
use flare_stealthwage.Prelude.Tests.{ltb, leb, ◌==◌, if◌then◌else◌, Bool-cases}
use flare_stealthwage.Prelude.Lists.{All, All-append}
use flare_stealthwage.Prelude.Strings.{Text}
pub mod Decoding

abbrev pub is_high : ℕ → Bool
is_high u = leb 0xd800 u && leb u 0xdbff

abbrev pub is_low : ℕ → Bool
is_low u = leb 0xdc00 u && leb u 0xdfff

abbrev two_bytes : ℕ → List ℕ
two_bytes c = (0xc0 + c / 64) ∷ (0x80 + c % 64) ∷ []

abbrev three_bytes : ℕ → List ℕ
three_bytes c = (0xe0 + c / 4096) ∷ (0x80 + c / 64 % 64) ∷ (0x80 + c % 64) ∷ []

abbrev four_bytes : ℕ → List ℕ
four_bytes c =
    (0xf0 + c / 262144) ∷ (0x80 + c / 4096 % 64) ∷ (0x80 + c / 64 % 64) ∷ (0x80 + c % 64) ∷ []

-- The bytes of a unit that stands alone; an unpaired surrogate becomes U+FFFD.
abbrev unit_bytes : ℕ → List ℕ
unit_bytes u =
    if ltb u 0x80
    then u ∷ []
    else if ltb u 0x800
    then two_bytes u
    else if is_high u
    then 0xef ∷ 0xbf ∷ 0xbd ∷ []
    else if is_low u
    then 0xef ∷ 0xbf ∷ 0xbd ∷ []
    else three_bytes u

abbrev of_pair : ℕ → ℕ → ℕ
of_pair high low = 0x10000 + (high - 0xd800) * 0x400 + (low - 0xdc00)

unfoldable pub utf8_encode : Text → List ℕ
utf8_encode [] = []
utf8_encode (u ∷ []) = unit_bytes u
utf8_encode (u ∷ v ∷ s) =
    let paired = four_bytes (of_pair u v) ++ utf8_encode s in
    let single = unit_bytes u ++ utf8_encode (v ∷ s) in
    if is_high u && is_low v then paired else single

-- The decoder's state: continuation bytes to come, the code point so far, and the bounds that the
-- next byte has to keep.
record State : Type 0 where
  needed : ℕ
  point : ℕ
  lower : ℕ
  upper : ℕ

abbrev ready : State
ready = record { needed = 0; point = 0; lower = 0x80; upper = 0xbf }

abbrev replacement : Text
replacement = 0xfffd ∷ []

abbrev units : ℕ → Text
units c =
    if ltb c 0x10000
    then c ∷ []
    else (0xd800 + (c - 0x10000) / 0x400) ∷ (0xdc00 + (c - 0x10000) % 0x400) ∷ []

-- A byte at the start of a code point.
abbrev first : ℕ → Text × State
first b =
    if ltb b 0x80
    then (b ∷ [], ready)
    else if ltb b 0xc2
    then (replacement, ready)
    else if ltb b 0xe0
    then ([], record { needed = 1; point = b - 0xc0; lower = 0x80; upper = 0xbf })
    else if ltb b 0xf0
    then (
      [],
      record {
        needed = 2;
        point = b - 0xe0;
        lower = if b == 0xe0 then 0xa0 else 0x80;
        upper = if b == 0xed then 0x9f else 0xbf;
      },
    )
    else if ltb b 0xf5
    then (
      [],
      record {
        needed = 3;
        point = b - 0xf0;
        lower = if b == 0xf0 then 0x90 else 0x80;
        upper = if b == 0xf4 then 0x8f else 0xbf;
      },
    )
    else (replacement, ready)

-- A byte that is out of bounds ends the code point before it, and is read again as a first byte.
abbrev advance : State → ℕ → Text × State
advance st b =
    if st.needed == 0
    then first b
    else if leb st.lower b && leb b st.upper
    then (if st.needed == 1 then (units (st.point * 64 + (b - 0x80)), ready) else (
      [],
      record {
        needed = st.needed - 1;
        point = st.point * 64 + (b - 0x80);
        lower = 0x80;
        upper = 0xbf;
      },
    ))
    else (replacement ++ (first b).0, (first b).1)

decode_from : State → List ℕ → Text
decode_from st [] = if st.needed == 0 then [] else replacement
decode_from st (b ∷ bytes) = (advance st b).0 ++ decode_from (advance st b).1 bytes

-- `Buffer.toString("utf-8")`
unfoldable pub utf8_decode : List ℕ → Text
unfolding decode_from
utf8_decode bytes = decode_from ready bytes

-- `new TextDecoder("utf-8").decode`, which drops a leading byte order mark.
unfoldable pub text_decode : List ℕ → Text
unfolding utf8_decode
text_decode (a ∷ b ∷ c ∷ bytes) =
    if a == 0xef && (b == 0xbb && c == 0xbf)
    then utf8_decode bytes
    else utf8_decode (a ∷ b ∷ c ∷ bytes)
text_decode bytes = utf8_decode bytes

decode_tests :
    (utf8_decode (0xe2 ∷ 0x82 ∷ 0xac ∷ []) ≡ 0x20ac ∷ [])
    × (utf8_decode (utf8_encode (0xd83d ∷ 0xde00 ∷ 0x41 ∷ [])) ≡ 0xd83d ∷ 0xde00 ∷ 0x41 ∷ [])
    × (utf8_decode (0xe2 ∷ 0x41 ∷ 0xff ∷ []) ≡ 0xfffd ∷ 0x41 ∷ 0xfffd ∷ [])
unfolding utf8_decode utf8_encode
decode_tests = (refl, refl, refl)

-- No surrogate stands alone.
unfoldable pub well_formed : Text → Bool
well_formed [] = true
well_formed (u ∷ []) = not (is_high u || is_low u)
well_formed (u ∷ v ∷ s) =
    let paired = well_formed s in
    let single = not (is_high u || is_low u) && well_formed (v ∷ s) in
    if is_high u && is_low v then paired else single
