-- ===== src/Encoding/RoundTrip.antt =====
-- Bytes to hex and back, and hex to bytes and back.
use flare_stealthwage.Prelude.{
  ℕ, ◌+◌, ◌*◌, ◌/◌, ◌%◌, ◌<◌, ◌≡◌, refl, ap, ◌⊎◌, inl, inr, true, false, some, [], ◌∷◌, ◌++◌, All,
  Text, text, lower, ok, throw, plain_error, arith, Option-cases,
}
use flare_stealthwage.Prelude.Strings.{hex_value, lower_unit}
use flare_stealthwage.Encoding.Hex.{
  Bytes, all_hex, pairs, is_odd, odd_length, strip_prefix, digits_to_bytes, hex_to_bytes, hex_digit,
  hex_digits, bytes_to_hex,
}

abbrev pub IsBytes : Bytes → Type 0
IsBytes = All (λ b. b < 256)

pub hex_value-hex_digit : (n : ℕ) → n < 16 → hex_value (hex_digit n) ≡ some n
unfolding hex_value hex_digit
hex_value-hex_digit n h = ground arith

pub all_hex-hex_digits : (bytes : Bytes) → IsBytes bytes → all_hex (hex_digits bytes) ≡ true
unfolding all_hex hex_digits
all_hex-hex_digits [] h = refl
all_hex-hex_digits (b ∷ bytes) h =
    rw
      (
        hex_value-hex_digit (b / 16) (omega arith),
        hex_value-hex_digit (b % 16) (omega arith),
        all_hex,
      )
      (all_hex-hex_digits bytes h.1)

is_odd-hex_digits : (bytes : Bytes) → is_odd (hex_digits bytes) ≡ false
unfolding is_odd hex_digits
is_odd-hex_digits [] = refl
is_odd-hex_digits (b ∷ bytes) = is_odd-hex_digits bytes

pub pairs-hex_digits : (bytes : Bytes) → IsBytes bytes → pairs (hex_digits bytes) ≡ bytes
unfolding pairs hex_digits
pairs-hex_digits [] h = refl
pairs-hex_digits (b ∷ bytes) h =
    rw
      (
        hex_value-hex_digit (b / 16) (omega arith),
        hex_value-hex_digit (b % 16) (omega arith),
        pairs-hex_digits bytes h.1,
      )
      (ap (λ n. n ∷ bytes) (omega arith))

pub digits_to_bytes-hex_digits :
    (bytes : Bytes) → IsBytes bytes → digits_to_bytes (hex_digits bytes) ≡ ok bytes
unfolding digits_to_bytes
digits_to_bytes-hex_digits bytes h =
    rw (is_odd-hex_digits bytes, all_hex-hex_digits bytes h, pairs-hex_digits bytes h)

-- Decoding the hex text of any byte array gives back that array.
pub hex_to_bytes-bytes_to_hex :
    (bytes : Bytes) → IsBytes bytes → hex_to_bytes (some (bytes_to_hex bytes)) ≡ ok bytes
unfolding hex_to_bytes bytes_to_hex strip_prefix
hex_to_bytes-bytes_to_hex = digits_to_bytes-hex_digits

hex_digit-hex_value : (c n : ℕ) → hex_value c ≡ some n → (hex_digit n ≡ lower_unit c) × (n < 16)
unfolding hex_value hex_digit
hex_digit-hex_value c n h = ground arith

hex_digits-pairs :
    (s : Text)
    → is_odd s ≡ false
    → all_hex s ≡ true
    → (hex_digits (pairs s) ≡ lower s) × IsBytes (pairs s)
unfolding is_odd all_hex pairs hex_digits lower
hex_digits-pairs [] odd hex = (refl, tt)
hex_digits-pairs (c ∷ []) odd hex = cc
hex_digits-pairs (c ∷ d ∷ s) odd hex = elim (Option-cases (hex_value c)) [
  | inl bad ↦ cc (rw (bad, all_hex) at hex)
  | inr (m, high) ↦ elim (Option-cases (hex_value d)) [
    | inl bad ↦ cc (rw (high, bad, all_hex) at hex)
    | inr (n, low) ↦
        let (back_m, below_m) = hex_digit-hex_value c m high in
        let (back_n, below_n) = hex_digit-hex_value d n low in
        let (back, bytes) = hex_digits-pairs s odd (rw (high, low, all_hex) at hex) in
        let upper : (m * 16 + n) / 16 ≡ m = omega arith in
        let lower_digit : (m * 16 + n) % 16 ≡ n = omega arith in
        rw (high, low, upper, lower_digit, back_m, back_n, back) (refl, (omega arith, bytes))
  ]
]

-- Where `hexToBytes` succeeds it gives bytes, and their hex text is the digits behind the optional
-- prefix in lower case.
pub bytes_to_hex-hex_to_bytes :
    (h : Text) (bytes : Bytes)
    → hex_to_bytes (some h) ≡ ok bytes
    → (bytes_to_hex bytes ≡ text "0x" ++ lower (strip_prefix h)) × IsBytes bytes
unfolding hex_to_bytes digits_to_bytes bytes_to_hex text
bytes_to_hex-hex_to_bytes h bytes e = ground (arith, hex_digits-pairs (strip_prefix h))

-- Of the text behind the prefix, `hexToBytes` reads an even number of hex digits to bytes, and
-- throws on any other: first for an odd length, then for a character that is no hex digit.
pub hex_to_bytes_cases :
    (h : Text)
    → ((is_odd (strip_prefix h) ≡ true)
        × (hex_to_bytes (some h) ≡ throw (plain_error (odd_length (strip_prefix h)))))
      ⊎ ((is_odd (strip_prefix h) ≡ false)
          × (all_hex (strip_prefix h) ≡ false)
          × (hex_to_bytes (some h) ≡ throw (plain_error (text "invalid hex: non-hex characters"))))
      ⊎ ((is_odd (strip_prefix h) ≡ false)
          × (all_hex (strip_prefix h) ≡ true)
          × (hex_to_bytes (some h) ≡ ok (pairs (strip_prefix h))))
unfolding hex_to_bytes digits_to_bytes
hex_to_bytes_cases h = ground arith
