-- ===== src/Link/Reply.antt =====
-- The answer of the enclave, as `requestAuthorization` of frontend/lib/enclave.ts reads it.
use flare_stealthwage.Prelude.{
  ℕ, ◌+◌, ◌*◌, ◌/◌, ◌%◌, leb, true, ◌<◌, ◌≤◌, ◌≡◌, refl, ap, ◌∙◌, ◌==◌, ◌||◌, false, some, pos, [],
  ◌∷◌, ok, Text, text, JsError, arith, Option,
}
use flare_stealthwage.Prelude.Strings.{hex_value, trim_start}
use flare_stealthwage.Prelude.Utf8.{utf8_encode, utf8_decode, text_decode}
use flare_stealthwage.Prelude.Utf8.Decoding.{utf8_decode-encode}
use flare_stealthwage.Encoding.Hex.{Bytes, hex_digit, hex_digits, bytes_to_hex}
use flare_stealthwage.Encoding.RoundTrip.{IsBytes, hex_value-hex_digit}
use flare_stealthwage.Json.Value.{obj, Fields, field, end}
use flare_stealthwage.Json.Print.{stringify, quote}
use flare_stealthwage.Json.Bytes.{to_hex_json, parse_json, parsed_or_error}
use flare_stealthwage.Json.Parse.Printable.{IsPrintable}
use flare_stealthwage.Json.WellFormed.{stringify-IsSound}
use flare_stealthwage.Json.RoundTrip.{read_json-stringify, encoded-IsBytes}
use flare_stealthwage.Client.Numbers.{
  digits_from, leading_digits, without_prefix, signed_hex, parse_int_hex, to_uint8, positive,
}
use flare_stealthwage.Client.Answer.{
  ends_line, matched_pairs, bytes_or_error, payload_text, read_body, granted,
}

hex_digit-Between :
    (n : ℕ)
    → n < 16
    → (48 ≤ hex_digit n)
      × (hex_digit n ≤ 102)
      × (leb 97 (hex_digit n) || leb (hex_digit n) 57 ≡ true)
unfolding hex_digit
hex_digit-Between n h = ground arith

trim_start-digit : (c : ℕ) (s : Text) → 48 ≤ c → c ≤ 102 → trim_start (c ∷ s) ≡ c ∷ s
unfolding trim_start
trim_start-digit c s h k = ground arith

signed_hex-digits :
    (c d : ℕ)
    → 48 ≤ c
    → (d == b'x' || d == b'X') ≡ false
    → signed_hex (c ∷ d ∷ []) ≡ positive (leading_digits (c ∷ d ∷ []))
unfolding signed_hex without_prefix
signed_hex-digits c d h k = ground arith

leading_digits-two :
    (c d : ℕ) {p q : ℕ}
    → hex_value c ≡ some p
    → hex_value d ≡ some q
    → leading_digits (c ∷ d ∷ []) ≡ some (p * 16 + q)
unfolding leading_digits digits_from
leading_digits-two c d hc hd = rw (leading_digits, hc, digits_from, hd) refl

parse_int_hex-digits :
    (p q : ℕ)
    → p < 16
    → q < 16
    → parse_int_hex (hex_digit p ∷ hex_digit q ∷ []) ≡ some (pos (p * 16 + q))
unfolding parse_int_hex
parse_int_hex-digits p q hp hq =
    let first = hex_digit-Between p hp in
    let second = hex_digit-Between q hq in
    ap signed_hex (trim_start-digit (hex_digit p) (hex_digit q ∷ []) first.0 first.1)
    ∙ signed_hex-digits (hex_digit p) (hex_digit q) first.0 (ground arith)
    ∙ ap positive (
        leading_digits-two (hex_digit p) (hex_digit q) (hex_value-hex_digit p hp)
          (hex_value-hex_digit q hq))

not_line_end :
    (p q : ℕ) → p < 16 → q < 16 → (ends_line (hex_digit p) || ends_line (hex_digit q)) ≡ false
unfolding hex_digit
not_line_end p q hp hq = ground arith

matched_pairs-hex_digits :
    (bytes : Bytes) → IsBytes bytes → matched_pairs (hex_digits bytes) ≡ bytes
unfolding matched_pairs hex_digits to_uint8
matched_pairs-hex_digits [] h = refl
matched_pairs-hex_digits (b ∷ bytes) h =
    rw
      (
        not_line_end (b / 16) (b % 16) (omega (arith, h.0)) (omega (arith, h.0)),
        parse_int_hex-digits (b / 16) (b % 16) (omega (arith, h.0)) (omega (arith, h.0)),
        matched_pairs-hex_digits bytes h.1,
      )
      (ap (λ n. n ∷ bytes) (omega (arith, h.0)))

-- What the bytes of an object's text start with.
object_bytes : (fs : Fields) → (rest : Bytes) × (utf8_encode (stringify (obj fs)) ≡ b'{' ∷ rest)
unfolding utf8_encode stringify quote text
object_bytes end = (_, refl)
object_bytes (field k v fs) = (_, refl)

text_decode-brace : (bytes : Bytes) → text_decode (b'{' ∷ bytes) ≡ utf8_decode (b'{' ∷ bytes)
unfolding text_decode
text_decode-brace [] = refl
text_decode-brace (b ∷ []) = refl
text_decode-brace (b ∷ c ∷ bytes) = refl

payload_text-matched :
    (bytes rest : Bytes)
    → IsBytes bytes
    → bytes ≡ b'{' ∷ rest
    → payload_text (bytes_to_hex bytes) ≡ ok (utf8_decode bytes)
unfolding payload_text bytes_to_hex bytes_or_error
payload_text-matched bytes rest h e =
    rw (matched_pairs-hex_digits bytes h, e) (ap ok (text_decode-brace rest))

payload_text-to_hex_json :
    (fs : Fields)
    → IsPrintable (obj fs)
    → payload_text (to_hex_json (obj fs)) ≡ ok (stringify (obj fs))
unfolding to_hex_json
payload_text-to_hex_json fs p =
    let (rest, starts) = object_bytes fs in
    let (units, sound) = stringify-IsSound (obj fs) p in
    payload_text-matched (utf8_encode (stringify (obj fs))) rest (encoded-IsBytes (obj fs) p) starts
    ∙ ap ok (utf8_decode-encode (stringify (obj fs)) units sound)

-- The object that a handler answers is the object that the client is granted: where the body of the
-- response carries status 1 and the hex of a printed object, `requestAuthorization` gives the object.
pub read_body-to_hex_json :
    (syntax_error : Text → JsError) (fs : Fields) (log : Option Text)
    → IsPrintable (obj fs)
    → read_body syntax_error (record { status = 1; payload = to_hex_json (obj fs); log = log })
      ≡ ok (granted (obj fs))
unfolding read_body parse_json parsed_or_error
read_body-to_hex_json syntax_error fs log p =
    rw (payload_text-to_hex_json fs p, read_json-stringify (obj fs) p) refl
