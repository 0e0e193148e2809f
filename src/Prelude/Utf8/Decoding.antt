-- ===== src/Prelude/Utf8/Decoding.antt =====
-- What is encoded is bytes, and is decoded to the text again.
use Prim.Native.Nat.{ℕ, ◌+◌, ◌*◌, ◌/◌, ◌%◌, ◌<◌, ◌≤◌}
use mathlib.Core.Path.{◌≡◌, refl, ap, ◌∙◌}
use mathlib.Core.Logic.{inl, inr}
use mathlib.Core.Bool.{true, false, and-eq-true_iff, not, ◌&&◌, ◌||◌}
use mathlib.Core.List.{List, [], ◌∷◌, ◌++◌, append-nil}
use native.Mathlib.Omega.{arith}
use flare_stealthwage.Prelude.Tests.{ltb, Bool-cases}
use flare_stealthwage.Prelude.Lists.{All, All-append}
use flare_stealthwage.Prelude.Strings.{Text}
use flare_stealthwage.Prelude.Utf8.{
  is_high, is_low, two_bytes, three_bytes, four_bytes, unit_bytes, of_pair, utf8_encode, State,
  ready, units, decode_from, utf8_decode, text_decode, well_formed,
}

abbrev IsByte : ℕ → Type 0
IsByte b = b < 256

unit_bytes-IsByte : (u : ℕ) → u < 65536 → All IsByte (unit_bytes u)
unit_bytes-IsByte u h = ground arith

-- What is encoded is bytes.
pub utf8_encode-IsBytes : (s : Text) → All (λ u. u < 65536) s → All (λ b. b < 256) (utf8_encode s)
unfolding utf8_encode
utf8_encode-IsBytes [] h = tt
utf8_encode-IsBytes (u ∷ []) h = unit_bytes-IsByte u h.0
utf8_encode-IsBytes (u ∷ v ∷ s) h = elim (Bool-cases (is_high u && is_low v)) [
  | inl pair ↦ rw pair (
      All-append IsByte (four_bytes (of_pair u v)) (utf8_encode s) (ground arith)
        (utf8_encode-IsBytes s h.1.1))
  | inr single ↦ rw single (
      All-append IsByte (unit_bytes u) (utf8_encode (v ∷ s)) (unit_bytes-IsByte u h.0)
        (utf8_encode-IsBytes (v ∷ s) h.1))
]

two_bytes_decode :
    (c : ℕ) (rest : List ℕ)
    → 0x80 ≤ c
    → c < 0x800
    → decode_from ready (two_bytes c ++ rest) ≡ c ∷ decode_from ready rest
unfolding decode_from
two_bytes_decode c rest h k = ground arith

three_bytes_decode :
    (c : ℕ) (rest : List ℕ)
    → 0x800 ≤ c
    → c < 0x10000
    → not (is_high c || is_low c) ≡ true
    → decode_from ready (three_bytes c ++ rest) ≡ c ∷ decode_from ready rest
unfolding decode_from
three_bytes_decode c rest h k p = ground arith

abbrev pending : ℕ → State
pending point = record { needed = 2; point = point; lower = 0x80; upper = 0xbf }

four_bytes_begin :
    (q x : ℕ) (rest : List ℕ)
    → q < 5
    → x < 64
    → (q ≡ 0 → 16 ≤ x)
    → (q ≡ 4 → x < 16)
    → decode_from ready ((0xf0 + q) ∷ (0x80 + x) ∷ rest) ≡ decode_from (pending (q * 64 + x)) rest
unfolding decode_from
four_bytes_begin q x rest hq hx h0 h4 = ground arith

four_bytes_end :
    (p y z : ℕ) (rest : List ℕ)
    → y < 64
    → z < 64
    → decode_from (pending p) ((0x80 + y) ∷ (0x80 + z) ∷ rest)
      ≡ units ((p * 64 + y) * 64 + z) ++ decode_from ready rest
unfolding decode_from
four_bytes_end p y z rest hy hz = ground arith

four_bytes_point :
    (c : ℕ) → ((c / 262144 * 64 + c / 4096 % 64) * 64 + c / 64 % 64) * 64 + c % 64 ≡ c
four_bytes_point c = omega arith

four_bytes_decode :
    (c : ℕ) (rest : List ℕ)
    → 0x10000 ≤ c
    → c < 0x110000
    → decode_from ready (four_bytes c ++ rest) ≡ units c ++ decode_from ready rest
four_bytes_decode c rest h k =
    four_bytes_begin (c / 262144) (c / 4096 % 64) _ (omega arith) (omega arith) (omega arith)
      (omega arith)
    ∙ four_bytes_end (c / 262144 * 64 + c / 4096 % 64) (c / 64 % 64) (c % 64) rest (omega arith)
        (omega arith)
    ∙ ap (λ n. units n ++ decode_from ready rest) (four_bytes_point c)

pair_bounds :
    (u v : ℕ)
    → is_high u && is_low v ≡ true
    → (0x10000 ≤ of_pair u v) × (of_pair u v < 0x110000) × (units (of_pair u v) ≡ u ∷ v ∷ [])
pair_bounds u v h = ground arith

unit_bytes_decode :
    (u : ℕ) (rest : List ℕ)
    → u < 65536
    → not (is_high u || is_low u) ≡ true
    → decode_from ready (unit_bytes u ++ rest) ≡ u ∷ decode_from ready rest
unit_bytes_decode u rest h k = elim (Bool-cases (ltb u 0x80)) [
  | inl ascii ↦ rw ascii (unfold decode_from in rw ascii refl)
  | inr wide ↦ elim (Bool-cases (ltb u 0x800)) [
    | inl two ↦ rw (wide, two) (two_bytes_decode u rest (ground arith) (ground arith))
    | inr three ↦
        rw (wide, three, unpaired.0, unpaired.1)
          (three_bytes_decode u rest (ground arith) (ground arith) k)
  ]
]
  where
    unpaired : (is_high u ≡ false) × (is_low u ≡ false)
    unpaired = ground arith

decode_from-encode :
    (s : Text)
    → All (λ u. u < 65536) s
    → well_formed s ≡ true
    → decode_from ready (utf8_encode s) ≡ s
unfolding utf8_encode well_formed
decode_from-encode [] h w = unfold decode_from in refl
decode_from-encode (u ∷ []) h w =
    rw (← append-nil (unit_bytes u)) (unit_bytes_decode u [] h.0 w ∙ (unfold decode_from in refl))
decode_from-encode (u ∷ v ∷ s) h w = elim (Bool-cases (is_high u && is_low v)) [
  | inl pair ↦
      let (low, high, back) = pair_bounds u v pair in
      rw pair (
        four_bytes_decode (of_pair u v) (utf8_encode s) low high
        ∙ rw back (ap (λ (t : Text). u ∷ v ∷ t) (decode_from-encode s h.1.1 (rw pair at w))))
  | inr single ↦
      let split = (and-eq-true_iff _ _).0 (rw single at w) in
      rw single (
        unit_bytes_decode u (utf8_encode (v ∷ s)) h.0 split.0
        ∙ ap (λ (t : Text). u ∷ t) (decode_from-encode (v ∷ s) h.1 split.1))
]

-- Decoding what was encoded gives the text, if no surrogate stands alone in it.
pub utf8_decode-encode :
    (s : Text) → All (λ u. u < 65536) s → well_formed s ≡ true → utf8_decode (utf8_encode s) ≡ s
unfolding utf8_decode
utf8_decode-encode = decode_from-encode

-- ASCII text is its own encoding.
pub utf8_encode-ascii : (s : Text) → All (λ u. u < 128) s → utf8_encode s ≡ s
unfolding utf8_encode
utf8_encode-ascii [] h = refl
utf8_encode-ascii (u ∷ []) h = ground arith
utf8_encode-ascii (u ∷ v ∷ s) h = ground (arith, utf8_encode-ascii (v ∷ s) h.1)

decode_from-ascii : (s : Text) → All (λ u. u < 128) s → decode_from ready s ≡ s
unfolding decode_from
decode_from-ascii [] h = refl
decode_from-ascii (u ∷ s) h = ground (arith, decode_from-ascii s h.1)

pub text_decode-ascii : (s : Text) → All (λ u. u < 128) s → text_decode s ≡ s
unfolding text_decode utf8_decode
text_decode-ascii [] h = decode_from-ascii [] h
text_decode-ascii (a ∷ []) h = decode_from-ascii (a ∷ []) h
text_decode-ascii (a ∷ b ∷ []) h = decode_from-ascii (a ∷ b ∷ []) h
text_decode-ascii (a ∷ b ∷ c ∷ s) h = ground (arith, decode_from-ascii (a ∷ b ∷ c ∷ s) h)
