-- ===== src/Client/Identifiers.antt =====
-- The identifiers that the frontend sends against those that the server registers.
use flare_stealthwage.Prelude.{
  ℕ, ◌≤◌, ◌<◌, zero, suc, ◌≡◌, refl, ◌/◌, ◌%◌, [], ◌∷◌, length, take, ltb, false, All, Text, text,
  ok, arith, ap,
}
use flare_stealthwage.Prelude.Utf8.{utf8_encode}
use flare_stealthwage.Prelude.Utf8.Decoding.{utf8_encode-IsBytes}
use flare_stealthwage.Encoding.Hex.{
  Bytes, hex_digit, hex_digits, bytes_to_hex, pad_zeros, string_to_bytes32_hex,
}
use flare_stealthwage.Encoding.RoundTrip.{IsBytes}
use flare_stealthwage.Encoding.Bytes32.{IsBytes-pad_zeros}
use flare_stealthwage.Client.Action.{
  hex_alphabet, char_at, hex_pairs, to_hex, first_32, to_bytes32_hex,
}

char_at-eq-hex_digit : (n : ℕ) → n < 16 → char_at n hex_alphabet ≡ hex_digit n
unfolding char_at hex_digit text
char_at-eq-hex_digit zero h = refl
char_at-eq-hex_digit (suc zero) h = refl
char_at-eq-hex_digit (suc (suc zero)) h = refl
char_at-eq-hex_digit (suc (suc (suc zero))) h = refl
char_at-eq-hex_digit (suc (suc (suc (suc zero)))) h = refl
char_at-eq-hex_digit (suc (suc (suc (suc (suc zero))))) h = refl
char_at-eq-hex_digit (suc (suc (suc (suc (suc (suc zero)))))) h = refl
char_at-eq-hex_digit (suc (suc (suc (suc (suc (suc (suc zero))))))) h = refl
char_at-eq-hex_digit (suc (suc (suc (suc (suc (suc (suc (suc zero)))))))) h = refl
char_at-eq-hex_digit (suc (suc (suc (suc (suc (suc (suc (suc (suc zero))))))))) h = refl
char_at-eq-hex_digit (suc (suc (suc (suc (suc (suc (suc (suc (suc (suc zero)))))))))) h = refl
char_at-eq-hex_digit (suc (suc (suc (suc (suc (suc (suc (suc (suc (suc (suc zero))))))))))) h = refl
char_at-eq-hex_digit (suc (suc (suc (suc (suc (suc (suc (suc (suc (suc (suc (suc zero))))))))))))
      h =
    refl
char_at-eq-hex_digit
      (suc (suc (suc (suc (suc (suc (suc (suc (suc (suc (suc (suc (suc zero))))))))))))) h =
    refl
char_at-eq-hex_digit
      (suc (suc (suc (suc (suc (suc (suc (suc (suc (suc (suc (suc (suc (suc zero)))))))))))))) h =
    refl
char_at-eq-hex_digit
      (suc (suc (suc (suc (suc (suc (suc (suc (suc (suc (suc (suc (suc (suc (suc zero)))))))))))))))
      h =
    refl
char_at-eq-hex_digit
      (suc
        (suc (suc (suc (suc (suc (suc (suc (suc (suc (suc (suc (suc (suc (suc (suc n))))))))))))))))
      h =
    absurd (omega arith)

hex_pairs-eq-hex_digits : (bytes : Bytes) → IsBytes bytes → hex_pairs bytes ≡ hex_digits bytes
unfolding hex_pairs hex_digits
hex_pairs-eq-hex_digits [] h = refl
hex_pairs-eq-hex_digits (b ∷ bytes) h =
    rw
      (
        char_at-eq-hex_digit (b / 16) (omega arith),
        char_at-eq-hex_digit (b % 16) (omega arith),
        hex_pairs-eq-hex_digits bytes h.1,
      )
      refl

-- `toHex` of the frontend writes bytes as `bytesToHex` of the extension does.
pub to_hex-eq-bytes_to_hex : (bytes : Bytes) → IsBytes bytes → to_hex bytes ≡ bytes_to_hex bytes
unfolding to_hex bytes_to_hex text
to_hex-eq-bytes_to_hex bytes h = ap (λ (s : Text). 48 ∷ 120 ∷ s) (hex_pairs-eq-hex_digits bytes h)

take_all : (k : ℕ) (xs : Bytes) → length xs ≤ k → take k xs ≡ xs
take_all zero [] h = refl
take_all (suc k) [] h = refl
take_all (suc k) (x ∷ xs) h = ap (λ (t : Bytes). x ∷ t) (take_all k xs (omega arith))
take_all zero (x ∷ xs) h = absurd (omega arith)

-- On an identifier of at most 32 bytes in UTF-8 the frontend's `toBytes32Hex` gives what the
-- extension's `stringToBytes32Hex` gives, which then does not throw.
pub string_to_bytes32_hex-eq-to_bytes32_hex :
    (s : Text)
    → All (λ u. u < 65536) s
    → length (utf8_encode s) ≤ 32
    → string_to_bytes32_hex s ≡ ok (to_bytes32_hex s)
unfolding string_to_bytes32_hex to_bytes32_hex first_32 pad_zeros
string_to_bytes32_hex-eq-to_bytes32_hex s units fits =
    let short : ltb 32 (length (utf8_encode s)) ≡ false = ground arith in
    rw
      (
        short,
        take_all 32 (utf8_encode s) fits,
        to_hex-eq-bytes_to_hex (pad_zeros (utf8_encode s))
            (IsBytes-pad_zeros (utf8_encode s) (utf8_encode-IsBytes s units)),
      )
      refl
