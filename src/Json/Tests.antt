-- ===== src/Json/Tests.antt =====
-- `JSON.parse` and `JSON.stringify` on concrete texts.
use flare_stealthwage.Prelude.{◌≡◌, refl, some, none, true, text, text_eq}
use flare_stealthwage.Prelude.Strings.{starts_with, hex_value}
use flare_stealthwage.Json.Value.{
  Json, null, bool, num, str, arr, obj, nil, cons, end, field, get_field, set_field,
}
use flare_stealthwage.Json.Print.{stringify, quote}
use flare_stealthwage.Json.Parse.{read_json, accepts, next}
use flare_stealthwage.Json.Parse.Characters.{known-AllUnits}
use flare_stealthwage.Json.Parse.Printable.{IsPrintable}
use flare_stealthwage.Json.RoundTrip.{read_json-stringify}

abbrev sample : Json
sample = obj (
    field (text "name") (str (text "a\"b\\c")) (
      field (text "list") (arr (cons (num (text "-1.5e3")) (cons (bool true) (cons null nil))))
        end))

print_test : stringify sample ≡ text "{\"name\":\"a\\\"b\\\\c\",\"list\":[-1.5e3,true,null]}"
unfolding stringify quote text
print_test = refl

parse_test : read_json (stringify sample) ≡ some sample
unfolding read_json stringify quote text set_field starts_with hex_value text_eq
parse_test = refl

parse_more :
    (read_json (text " { \"a\" : [ ] , \"a\" : \"\\u0041\" } ")
      ≡ some (obj (field (text "a") (str (text "A")) end)))
    × (read_json (text "") ≡ none)
    × (read_json (text "01") ≡ none)
    × (read_json (text "{} x") ≡ none)
    × (read_json (text "[1,]") ≡ none)
unfolding read_json text set_field starts_with hex_value text_eq
parse_more = (refl, refl, refl, refl, refl)

sample-IsPrintable : IsPrintable sample
unfolding IsPrintable get_field text text_eq accepts next
sample-IsPrintable = (
  (
    known-AllUnits (text "name") refl,
    known-AllUnits (text "a\"b\\c") refl,
    (known-AllUnits (text "list") refl, (refl, (tt, (tt, tt))), tt),
  ),
  (refl, (refl, tt)),
)

read_json-stringify_test : read_json (stringify sample) ≡ some sample
read_json-stringify_test = read_json-stringify sample sample-IsPrintable
