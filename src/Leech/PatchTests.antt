-- ===== src/Leech/PatchTests.antt =====
-- A patch of one block, applied by a destination that refuses nothing.
use leech.Base.{ℕ, Bool, true, List, [], ◌∷◌, ◌≡◌, refl, codes, Bytes, some, Result, ok}
use leech.Buffer.{equal}
use leech.CString.{starts_with}
use leech.Json.Syntax.{
  Json, Fields, no_fields, field, object, array, string, number, item, no_items, get, set,
}
use leech.Json.Access.{object_get_string}
use leech.Json.Parser.{
  json_parse, parse, trim_whitespace, check_token, parse_token, separator, parse_number,
}
use leech.Head.{head_set}
use leech.Block.Names.{lastknown_key}
use leech.Block.Patch.{patch_parse}
use leech.Leech.Diff.{verified}
use leech.Leech.Tests.{config}
use leech.Leech.Patch.{Sessions, patch}
use leech.Leech.PatchSessions.{Applied, patch-Applied}
use leech.Table.Patch.{Call}
use leech.Leech.DiffTests.{scan_digit}

abbrev patch_text : Bytes
patch_text =
    codes
      "{\"version\":1,\"lastknown\":\"b\",\"timestamp\":5,\"blocks\":[{\"payload\":[{\"type\":\"delta\",\"id\":\"T\",\"inserts\":{\"1\":\"Paul\"},\"deletes\":{},\"updates\":{}}]}]}"

abbrev delta : Json ℕ
delta = object (
    field (codes "type") (string (codes "delta")) (
      field (codes "id") (string (codes "T")) (
        field (codes "inserts") (object (field (codes "1") (string (codes "Paul")) no_fields)) (
          field (codes "deletes") (object no_fields)
            (field (codes "updates") (object no_fields) no_fields)))))

abbrev patch_fields : Fields ℕ
patch_fields = field (codes "version") (number 1) (
    field (codes "lastknown") (string (codes "b")) (
      field (codes "timestamp") (number 5) (
        field (codes "blocks")
          (array (
            item (object (field (codes "payload") (array (item delta no_items)) no_fields))
              no_items))
          no_fields)))

is_parsed : patch_parse some scan_digit patch_text ≡ ok (object patch_fields)
unfolding patch_parse json_parse parse trim_whitespace check_token parse_token separator
    parse_number equal set get
is_parsed = refl

has_no_digest : verified (λ text. []) patch_text ≡ ok patch_text
unfolding verified starts_with
has_no_digest = refl

is_lastknown : object_get_string (object patch_fields) lastknown_key ≡ ok (codes "b")
unfolding get equal
is_lastknown = refl

accepts : Sessions → List Call → Bool
accepts sessions calls = true

patch-Applied_example :
    (run : Sessions × Result (Unit {0})) × (patch config accepts
        (codes "host")
        (codes "h")
        scan_digit
        some
        (λ text. [])
        []
        patch_text
      ≡ (head_set [] (codes "h") (codes "b"), run))
    × Applied accepts run
patch-Applied_example =
    patch-Applied config
      (
        record {
          first_primary = codes "id";
          more_primary = [];
          first_field = codes "id";
          more_fields = codes "name" ∷ [];
          is_primary = refl;
          is_all = refl;
        },
        tt,
      )
      accepts (codes "host") (codes "h") scan_digit some (λ text. []) [] patch_text patch_text
      (codes "b") patch_fields has_no_digest is_parsed is_lastknown
