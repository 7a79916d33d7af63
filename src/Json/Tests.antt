-- ===== src/Json/Tests.antt =====
-- Runs, and the instances of the theorems on JSON values. Numbers are natural here.
use leech.Base.{
  true, false, some, Option, ◌≢◌, Bool, leb, ltb, ◌&&◌, ◌-◌, ◌+◌, [], ◌∷◌, aborted, out_of_fuel, ℕ,
  none, if◌then◌else◌, ◌≡◌, refl, arith, Bytes, codes, ok, ◌==◌,
}
use leech.Json.Syntax.{
  Json, null, true_value, Fields, string, number, array, object, no_items, item, no_fields, field,
  get, has_key, Distinct,
}
use leech.Json.Equal.{copy}
use leech.Json.EqualLaws.{has_object, copy-has_object}
use leech.Json.SetMinus.{keys_minus, changed_values}
use leech.Json.SetMinusLaws.{
  Strings, all_strings-Strings, changed, keys_minus-get, changed_values-get,
}
use leech.Json.Parser.{
  parse, trim_whitespace, check_token, parse_token, separator, parse_number, json_parse,
}
use leech.Json.Composer.{compose, string_compose_string, escapes_onto, new_line, json_compose}
use leech.Buffer.{equal}
use leech.Json.Layout.{is_plain}
use leech.Json.Numbers.{Reads, zeros}
use leech.Json.ValueTrip.{json_parse-json_compose}
use leech.Json.Total.{json_parse-ne_out_of_fuel, json_parse-bare_key}

-- Numbers of one digit stand in for `sscanf` and `%f`.

abbrev pub scan_digit : Bytes → Option (ℕ × ℕ)
scan_digit [] = none
scan_digit (c ∷ _) = if leb b'0' c && leb c b'9' then some (c - b'0', 1) else none

abbrev pub print_digit : ℕ → Bytes
print_digit n = (n + b'0') ∷ codes ".000000"

abbrev sample : Json ℕ
sample = object (
    field (codes "a\"b") (array (item null (item (string (codes "\\")) no_items)))
      (field (codes "c") (object no_fields) no_fields))

parse_runs :
    json_parse scan_digit (codes " [1, true ]")
    ≡ ok (array (item (number 1) (item true_value no_items)))
unfolding json_parse parse trim_whitespace check_token parse_token separator parse_number
parse_runs = refl

compose_runs : json_compose print_digit sample false ≡ codes "{\"a\\\"b\":[null,\"\\\\\"],\"c\":{}}"
unfolding json_compose compose string_compose_string escapes_onto new_line
compose_runs = refl

-- Numbers below ten
abbrev pub is_digit : ℕ → Bool
is_digit n = ltb n 10

abbrev pub digit : ℕ → Bytes
digit n = (n + b'0') ∷ []

pub digits-Reads : (n : ℕ) → is_digit n ≡ true → Reads print_digit scan_digit digit n
unfolding zeros
digits-Reads n h =
    let low : leb b'0' (n + b'0') ≡ true = ground arith in
    let high : leb (n + b'0') b'9' ≡ true = ground arith in
    let not_null : ((n + b'0') == 0) ≡ false = ground arith in
    let back : (n + b'0') - b'0' ≡ n = omega arith in
    record {
      places = 6;
      printed = refl;
      at_digits = rw (low, high) refl;
      scanned = λ rest e. rw not_null (rw (low, high, back) refl);
    }

abbrev numbered : Json ℕ
numbered = object (
    field (codes "version") (number 1)
      (field (codes "list") (array (item (number 7) (item sample no_items))) no_fields))

json_parse-json_compose_example :
    json_parse scan_digit (json_compose print_digit numbered true) ≡ ok numbered
unfolding is_plain has_key equal
json_parse-json_compose_example =
    json_parse-json_compose print_digit scan_digit digit is_digit digits-Reads numbered true refl

json_parse-ne_out_of_fuel_example : json_parse scan_digit (codes "[1, {\"a\": ") ≢ out_of_fuel
json_parse-ne_out_of_fuel_example = json_parse-ne_out_of_fuel scan_digit (codes "[1, {\"a\": ")

json_parse-bare_key_example : json_parse scan_digit (codes "{a: 1}") ≡ aborted
json_parse-bare_key_example = json_parse-bare_key scan_digit b'a' (codes ": 1}") refl refl refl

abbrev nested : Json ℕ
nested = array (item (number 3) (item (object no_fields) no_items))

copy-has_object_example : copy nested ≡ none
unfolding has_object
copy-has_object_example = copy-has_object nested

abbrev left : Fields ℕ
left = field (codes "a") (string (codes "1")) (field (codes "b") (string (codes "2")) no_fields)

abbrev right : Fields ℕ
right = field (codes "b") (string (codes "3")) no_fields

left-Strings : Strings left
left-Strings = all_strings-Strings left refl

keys_minus-get_example :
    (r : Fields ℕ) × (keys_minus left right ≡ ok r)
    × Distinct r
    × ((j : Bytes) → get r j ≡ (if has_key right j then none else get left j))
keys_minus-get_example = keys_minus-get left right left-Strings

changed_values-get_example :
    (r : Fields ℕ) × (changed_values ◌==◌ left right ≡ ok r)
    × Distinct r
    × ((j : Bytes) → get r j ≡ changed ◌==◌ (get left j) (get right j))
changed_values-get_example = changed_values-get ◌==◌ left right left-Strings
