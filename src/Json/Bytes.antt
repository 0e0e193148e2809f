-- ===== src/Json/Bytes.antt =====
-- `hexToBytes` on a value that was read from JSON, and JSON text as bytes.
use flare_stealthwage.Prelude.{
  Option, none, some, Text, text, Result, ok, throw, type_error, JsError,
}
use flare_stealthwage.Prelude.Utf8.{utf8_encode, utf8_decode}
use flare_stealthwage.Encoding.Hex.{Bytes, hex_to_bytes, bytes_to_hex}
use flare_stealthwage.Json.Value.{Json, null, str}
use flare_stealthwage.Json.Print.{stringify}
use flare_stealthwage.Json.Parse.{read_json}

-- `hexToBytes(v)`: of a value that is no text the method `startsWith` is not there.
unfoldable pub value_to_bytes : Option Json → Result Bytes
value_to_bytes none = hex_to_bytes none
value_to_bytes (some null) = hex_to_bytes none
value_to_bytes (some (str s)) = hex_to_bytes (some s)
value_to_bytes (some _) = throw (type_error (text "s.startsWith is not a function"))

-- `JSON.parse`, given the error that the engine throws at a text that is not JSON.
unfoldable pub parsed_or_error : (Text → JsError) → Text → Option Json → Result Json
parsed_or_error syntax_error s none = throw (syntax_error s)
parsed_or_error syntax_error s (some v) = ok v

unfoldable pub parse_json : (Text → JsError) → Text → Result Json
unfolding parsed_or_error
parse_json syntax_error s = parsed_or_error syntax_error s (read_json s)

-- `JSON.parse(Buffer.from(bytes).toString("utf-8"))`
unfoldable pub parse_bytes : (Text → JsError) → Bytes → Result Json
parse_bytes syntax_error bytes = parse_json syntax_error (utf8_decode bytes)

-- `bytesToHex(Buffer.from(JSON.stringify(v), "utf-8"))`
unfoldable pub to_hex_json : Json → Text
to_hex_json v = bytes_to_hex (utf8_encode (stringify v))
