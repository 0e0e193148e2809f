-- ===== src/Encoding/Bytes32.antt =====
-- The identifiers that cross the wire as bytes32: `stringToBytes32Hex` and `bytes32HexToString`.
use mathlib.Core.List.{reverse, reverse-append, reverse-reverse, reverse-cons}
use flare_stealthwage.Prelude.{
  ℕ, zero, suc, ◌+◌, ◌-◌, ◌≤◌, ◌<◌, ◌≡◌, ◌⊎◌, refl, sym, ap, ◌∙◌, false, [], ◌∷◌, ◌++◌, length, All,
  All-append, Text, text, ok, throw, plain_error, arith, Bool-cases, length-append,
  length-replicate, ltb, decimal, inl, inr,
}
use flare_stealthwage.Prelude.Utf8.{utf8_encode}
use flare_stealthwage.Prelude.Utf8.Decoding.{utf8_encode-ascii, text_decode-ascii}
use flare_stealthwage.Encoding.Hex.{
  Bytes, bytes_to_hex, hex_digits, pad_zeros, string_to_bytes32_hex, bytes32_hex_to_string,
  decoded_or_empty, drop_zeros, trim_zeros, zeros,
}
use flare_stealthwage.Encoding.RoundTrip.{IsBytes, hex_to_bytes-bytes_to_hex}

length-hex_digits : (bytes : Bytes) → length (hex_digits bytes) ≡ length bytes + length bytes
unfolding hex_digits
length-hex_digits [] = refl
length-hex_digits (b ∷ bytes) = omega (arith, length-hex_digits bytes)

length-pad_zeros : (bytes : Bytes) → length bytes ≤ 32 → length (pad_zeros bytes) ≡ 32
unfolding pad_zeros
length-pad_zeros bytes h = omega (
  arith,
  length-append bytes (zeros (32 - length bytes)),
  length-replicate {A = ℕ} (32 - length bytes) 0,
)

-- `stringToBytes32Hex` throws on a text of more than 32 bytes of UTF-8; of any other it gives
-- "0x" and 64 digits.
pub string_to_bytes32_hex_cases :
    (s : Text)
    → ((32 < length (utf8_encode s))
        × (string_to_bytes32_hex s
            ≡ throw (
                plain_error (
                  text "string too long for bytes32 ("
                  ++ (decimal (length (utf8_encode s)) ++ (text " bytes): " ++ s))))))
      ⊎ ((length (utf8_encode s) ≤ 32)
          × ((h : Text) × (string_to_bytes32_hex s ≡ ok h) × (length h ≡ 66)))
unfolding string_to_bytes32_hex bytes_to_hex
string_to_bytes32_hex_cases s = elim (Bool-cases (ltb 32 (length (utf8_encode s)))) [
  | inl long ↦ inl (ground arith, rw long)
  | inr short ↦
      let fits : length (utf8_encode s) ≤ 32 = ground arith in
      inr (
        fits,
        (
          bytes_to_hex (pad_zeros (utf8_encode s)),
          rw short,
          omega (
            arith,
            length-hex_digits (pad_zeros (utf8_encode s)),
            length-pad_zeros (utf8_encode s) fits,
          ),
        ),
      )
]

abbrev IsNonzero : ℕ → Type 0
IsNonzero b = 0 < b

-- A text of ASCII characters other than NUL, as the identifiers of the program are.
abbrev pub IsAscii : Text → Type 0
IsAscii = All (λ u. (0 < u) × (u < 128))

replicate-snoc : (k : ℕ) → zeros k ++ (0 ∷ []) ≡ 0 ∷ zeros k
replicate-snoc zero = refl
replicate-snoc (suc k) = ap (λ (t : Bytes). 0 ∷ t) (replicate-snoc k)

reverse-replicate : (k : ℕ) → reverse (zeros k) ≡ zeros k
reverse-replicate zero = refl
reverse-replicate (suc k) = simp (reverse-cons, reverse-replicate k, replicate-snoc k)

drop_zeros-replicate : (k : ℕ) (bytes : Bytes) → drop_zeros (zeros k ++ bytes) ≡ drop_zeros bytes
unfolding drop_zeros
drop_zeros-replicate zero bytes = refl
drop_zeros-replicate (suc k) bytes = drop_zeros-replicate k bytes

drop_zeros-nonzero : (bytes : Bytes) → All IsNonzero bytes → drop_zeros bytes ≡ bytes
unfolding drop_zeros
drop_zeros-nonzero [] h = refl
drop_zeros-nonzero (b ∷ bytes) h = ground arith

All-reverse : (bytes : Bytes) → All IsNonzero bytes → All IsNonzero (reverse bytes)
All-reverse [] h = tt
All-reverse (b ∷ bytes) h =
    rw reverse-cons
      (All-append IsNonzero (reverse bytes) (b ∷ []) (All-reverse bytes h.1) (h.0, tt))

trim_zeros-pad :
    (bytes : Bytes) (k : ℕ) → All IsNonzero bytes → trim_zeros (bytes ++ zeros k) ≡ bytes
unfolding trim_zeros
trim_zeros-pad bytes k h =
    rw (reverse-append, reverse-replicate, drop_zeros-replicate k (reverse bytes))
      (rw (drop_zeros-nonzero (reverse bytes) (All-reverse bytes h)) (reverse-reverse bytes))

trim_zeros-pad_zeros : (bytes : Bytes) → All IsNonzero bytes → trim_zeros (pad_zeros bytes) ≡ bytes
unfolding pad_zeros
trim_zeros-pad_zeros bytes = trim_zeros-pad bytes (32 - length bytes)

ascii-below : (s : Text) → IsAscii s → All (λ u. u < 128) s × All IsNonzero s × IsBytes s
ascii-below [] h = (tt, tt, tt)
ascii-below (u ∷ s) h =
    let (below, nonzero, bytes) = ascii-below s h.1 in
    ((h.0.1, below), (h.0.0, nonzero), (omega arith, bytes))

pub IsBytes-pad_zeros : (bytes : Bytes) → IsBytes bytes → IsBytes (pad_zeros bytes)
unfolding pad_zeros
IsBytes-pad_zeros bytes h = All-append (λ b. b < 256) bytes _ h (bytes-zeros (32 - length bytes))
  where
    bytes-zeros : (k : ℕ) → IsBytes (zeros k)
    bytes-zeros zero = tt
    bytes-zeros (suc k) = (omega arith, bytes-zeros k)

-- An identifier of at most 32 ASCII characters other than NUL is written as bytes32, and reading
-- those 32 bytes back gives the identifier.
pub bytes32-round_trip :
    (s : Text)
    → IsAscii s
    → length s ≤ 32
    → (h : Text) × (string_to_bytes32_hex s ≡ ok h) × (bytes32_hex_to_string h ≡ s)
unfolding string_to_bytes32_hex bytes32_hex_to_string decoded_or_empty
bytes32-round_trip s ascii fits =
    let (below, nonzero, bytes) = ascii-below s ascii in
    let short : ltb 32 (length s) ≡ false = ground arith in
    (
      bytes_to_hex (pad_zeros s),
      rw (utf8_encode-ascii s below, short),
      rw (hex_to_bytes-bytes_to_hex (pad_zeros s) (IsBytes-pad_zeros s bytes))
          (rw (trim_zeros-pad_zeros s nonzero) (text_decode-ascii s below)),
    )

-- Two such identifiers with the same bytes32 form are equal: dispatch on that form confuses none.
pub bytes32_injective :
    (s t : Text)
    → IsAscii s
    → IsAscii t
    → length s ≤ 32
    → length t ≤ 32
    → string_to_bytes32_hex s ≡ string_to_bytes32_hex t
    → s ≡ t
bytes32_injective s t hs ht ls lt e =
    let (h, made_h, back_h) = bytes32-round_trip s hs ls in
    let (k, made_k, back_k) = bytes32-round_trip t ht lt in
    let same : h ≡ k = ground (arith, made_h, made_k, e) in
    sym back_h ∙ (ap bytes32_hex_to_string same ∙ back_k)
