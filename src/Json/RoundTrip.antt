-- ===== src/Json/RoundTrip.antt =====
-- `JSON.parse` after `JSON.stringify`.
use mathlib.Core.List.{append-nil}
use flare_stealthwage.Prelude.{
  ◌+◌, ◌≡◌, refl, sym, ap, ◌∙◌, some, [], length, Text, JsError, ok, arith,
}
use flare_stealthwage.Prelude.Utf8.{utf8_encode}
use flare_stealthwage.Prelude.Utf8.Decoding.{utf8_decode-encode, utf8_encode-IsBytes}
use flare_stealthwage.Encoding.RoundTrip.{IsBytes}
use flare_stealthwage.Json.Bytes.{parse_bytes, parse_json, parsed_or_error}
use flare_stealthwage.Json.WellFormed.{stringify-IsSound}
use flare_stealthwage.Json.Value.{Json}
use flare_stealthwage.Json.Print.{stringify}
use flare_stealthwage.Json.Parse.{read_json, whole, value}
use flare_stealthwage.Json.Parse.Printable.{IsPrintable}
use flare_stealthwage.Json.Parse.Values.{value-Reads}

-- The reader gives every value back from its text, whose numbers are numerals of JSON, whose texts
-- are of 16-bit units, and whose objects name no property twice: the fuel of `read_json` is enough.
pub read_json-stringify : (v : Json) → IsPrintable v → read_json (stringify v) ≡ some v
unfolding read_json
read_json-stringify v p =
    let s = stringify v in
    let n = length s + length s + 2 in
    ap whole (ap (value n) (sym (append-nil s)) ∙ value-Reads v p [] n refl (omega arith))

-- The bytes of a printed value are its JSON.
pub parse_bytes-utf8_encode :
    (syntax_error : Text → JsError) (v : Json)
    → IsPrintable v
    → parse_bytes syntax_error (utf8_encode (stringify v)) ≡ ok v
unfolding parse_bytes parse_json
parse_bytes-utf8_encode syntax_error v p =
    let (units, sound) = stringify-IsSound v p in
    ap (λ s. parsed_or_error syntax_error s (read_json s))
      (utf8_decode-encode (stringify v) units sound)
    ∙ ap (parsed_or_error syntax_error (stringify v)) (read_json-stringify v p)

pub encoded-IsBytes : (v : Json) → IsPrintable v → IsBytes (utf8_encode (stringify v))
encoded-IsBytes v p = utf8_encode-IsBytes (stringify v) (stringify-IsSound v p).0
