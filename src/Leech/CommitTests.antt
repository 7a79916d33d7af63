-- ===== src/Leech/CommitTests.antt =====
-- Commits in a work directory, and the instances of their theorems.
use leech.Base.{
  ℕ, false, [], ◌∷◌, some, none, length, ◌%◌, if◌then◌else◌, ◌≡◌, refl, codes, Bytes, ok, failed,
  Result, subst, Option, ◌∙◌, sym, ap, ◌==◌,
}
use leech.Buffer.{equal, buffer_compare}
use leech.Buffer.Hex.{message_digest, bytes_to_hex, hex_digit}
use leech.CString.{string_equal}
use leech.Json.Syntax.{Json, Fields, field, string, no_fields, object, get, set, has_key}
use leech.Json.Composer.{json_compose}
use leech.Json.SetMinusLaws.{Strings, all_strings-Strings}
use leech.Json.Tests.{scan_digit, print_digit, digit, is_digit, digits-Reads}
use leech.Head.{read_file, head_get, genisis_block_id}
use leech.Block.Store.{WorkDir}
use leech.Csv.Composer.{
  csv_compose_record, compose_record, compose_field, fields_onto, escape_loop, ends_with,
}
use leech.Csv.Text.{textdata}
use leech.Table.Rows.{
  table_to_json_object, record_loop, indices_of_fields, fields_at_indices, list_index,
}
use leech.Table.States.{Source, load_new_state, load_old_state}
use leech.Leech.Config.{TableInfo, Instance}
use leech.Leech.Carries.{States}
use leech.Leech.Chain.{at_end}
use leech.Leech.Commit.{table_delta, commit, commit_block}
use leech.Leech.CommitTables.{Loads, Snapshot}
use leech.Leech.Consistent.{Consistent, commit-Consistent}
use leech.Leech.Partial.{commit-partial}
use leech.Leech.Tests.{config, table, rows_1}

-- A source with one table, of two rows
abbrev beatles : Source (Unit {0})
beatles = record {
  connect = λ params. some tt;
  create_table = λ conn name primary subsidiary. some tt;
  get_table = λ conn name fields. some (
      (codes "id" ∷ codes "name" ∷ [])
      ∷ (codes "1" ∷ codes "Paul" ∷ [])
      ∷ (codes "2" ∷ codes "John" ∷ [])
      ∷ []);
}

-- Twenty bytes stand in for SHA-1, none of which begin with a zero.
abbrev digest_of : Bytes → Bytes
digest_of message =
    b'd'
    ∷ b'i'
    ∷ b'g'
    ∷ b'e'
    ∷ b's'
    ∷ b't'
    ∷ b' '
    ∷ b'o'
    ∷ b'f'
    ∷ b' '
    ∷ b'a'
    ∷ b' '
    ∷ b't'
    ∷ b'e'
    ∷ b'x'
    ∷ b't'
    ∷ b' '
    ∷ b'b'
    ∷ b'y'
    ∷ length message % 256
    ∷ []

loaded : load_new_state beatles table ≡ ok (object rows_1)
unfolding load_new_state table_to_json_object record_loop indices_of_fields fields_at_indices
    list_index csv_compose_record compose_record compose_field fields_onto escape_loop ends_with
    equal set textdata
loaded = refl

rows_1-Strings : Strings rows_1
rows_1-Strings = all_strings-Strings rows_1 refl

no_genisis : (text : Bytes) → string_equal (message_digest digest_of text) genisis_block_id ≡ false
unfolding string_equal message_digest bytes_to_hex hex_digit equal buffer_compare
no_genisis text = refl

abbrev empty_dir : WorkDir
empty_dir = record { heads = []; blocks = []; snapshots = [] }

abbrev no_rows : States ℕ
no_rows id = get no_fields

no_rows-Strings : Strings {N = ℕ} no_fields
no_rows-Strings = all_strings-Strings no_fields refl

empty-Consistent : Consistent scan_digit some config no_rows no_rows 0 empty_dir
unfolding head_get read_file string_equal equal load_old_state
empty-Consistent = record {
  head = genisis_block_id;
  head_is = refl;
  no_null = refl;
  chain = at_end refl;
  held = ((no_fields, refl, no_rows-Strings, refl), tt);
}

loads : Loads print_digit scan_digit beatles (λ id. rows_1) config.tables
unfolding has_key equal
loads = ((loaded, rows_1-Strings, (refl, (refl, tt))), tt)

-- The directory behind a first commit, and a block of a second one, in which a row has gone
abbrev one_dir : WorkDir
one_dir = (commit ◌==◌ print_digit scan_digit digest_of beatles config 1 5 empty_dir).0

one_dir-Consistent : Consistent scan_digit some config no_rows (λ id. get rows_1) 1 one_dir
unfolding read_file
one_dir-Consistent =
    let (after, e, consistent) =
      commit-Consistent ◌==◌ print_digit scan_digit digit is_digit digits-Reads some digest_of
        (λ message. refl) beatles config (refl, tt) empty_dir no_rows no_rows 0 (λ id. rows_1) 1 5
        empty-Consistent loads refl refl refl (λ block made. no_genisis _)
        (λ block stored made held. cc) in
    subst (Consistent scan_digit some config no_rows (λ id. get rows_1) 1)
      (sym (ap (λ run. run.0) e)) consistent

-- "Paul" has left.
abbrev without_paul : Source (Unit {0})
without_paul = record beatles {
  get_table = λ conn name fields.
      some ((codes "id" ∷ codes "name" ∷ []) ∷ (codes "2" ∷ codes "John" ∷ []) ∷ []);
}

abbrev john : Fields ℕ
john = field (codes "2") (string (codes "John")) no_fields

loaded_john : load_new_state without_paul table ≡ ok (object john)
unfolding load_new_state table_to_json_object record_loop indices_of_fields fields_at_indices
    list_index csv_compose_record compose_record compose_field fields_onto escape_loop ends_with
    equal set textdata
loaded_john = refl

john-Strings : Strings john
john-Strings = all_strings-Strings john refl

Loads-john : Loads print_digit scan_digit without_paul (λ id. john) config.tables
unfolding has_key equal
Loads-john = ((loaded_john, john-Strings, (refl, tt)), tt)

abbrev second_made : Result (Json ℕ)
second_made = (commit_block ◌==◌ print_digit scan_digit digest_of without_paul config 1 6 one_dir).1

abbrev file_of : Result (Json ℕ) → Option Bytes
file_of (ok block) =
    read_file one_dir.blocks (message_digest digest_of (json_compose print_digit block false))
file_of _ = some []

second_is_free : file_of second_made ≡ none
unfolding commit_block load_new_state table_to_json_object equal load_old_state read_file commit
    leech.Delta.Create.delta_create leech.Json.SetMinus.keys_minus leech.Json.Syntax.keys set
    csv_compose_record compose_field textdata has_key get leech.Json.Equal.copy
    leech.Block.Create.block_create leech.Block.Store.block_store bytes_to_hex hex_digit
    message_digest buffer_compare leech.Buffer.memcmp leech.CString.strchr leech.CString.strip
    leech.CString.strip_loop compose_record ends_with escape_loop fields_onto
    leech.Delta.Create.get_num_operations head_get leech.Head.head_set leech.Head.write_file
    leech.Json.Composer.chop_zeros leech.Json.Composer.compose leech.Json.Composer.compose_number
    leech.Json.Composer.escapes_onto json_compose leech.Json.Composer.new_line
    leech.Json.Composer.remove_dot leech.Json.Composer.remove_zeros leech.Json.Composer.spaces
    leech.Json.Composer.string_compose_string leech.Json.Equal.json_equal
    leech.Json.Parser.buffer_parse_string leech.Json.Parser.check_token leech.Json.Parser.json_parse
    leech.Json.Parser.parse leech.Json.Parser.parse_number leech.Json.Parser.parse_token
    leech.Json.Parser.separator leech.Json.Parser.string_loop leech.Json.Parser.trim_whitespace
    leech.Json.SetMinus.changed_loop leech.Json.SetMinus.changed_values
    leech.Json.SetMinus.minus_loop leech.Json.Syntax.size leech.Leech.Commit.commit_tables
    leech.Leech.Commit.table_delta fields_at_indices indices_of_fields list_index record_loop
    leech.Table.States.store_new_state
second_is_free = refl

second_file :
    (block : Json ℕ) (stored : Bytes)
    → second_made ≡ ok block
    → read_file one_dir.blocks (message_digest digest_of (json_compose print_digit block false))
      ≡ some stored
    → stored ≡ json_compose print_digit block false
second_file block stored made held =
    let free : file_of (ok block) ≡ none = ap file_of (sym made) ∙ second_is_free in cc

commit-Consistent_example :
    (after : WorkDir) × (commit ◌==◌ print_digit scan_digit digest_of without_paul config 1 6
        one_dir
      ≡ (after, ok tt))
    × Consistent scan_digit some config no_rows (λ id. get john) 2 after
commit-Consistent_example =
    commit-Consistent ◌==◌ print_digit scan_digit digit is_digit digits-Reads some digest_of
      (λ message. refl) without_paul config (refl, tt) one_dir no_rows (λ id. get rows_1) 1
      (λ id. john) 1 6 one_dir-Consistent Loads-john refl refl refl
      (λ block made. no_genisis (json_compose print_digit block false)) second_file

-- A source that has no other table than "beatles"
abbrev one_table : Source (Unit {0})
one_table = record beatles {
  create_table =
      λ conn name primary subsidiary. if equal name (codes "beatles") then some tt else none;
}

abbrev stones : TableInfo
stones = record table { identifier = codes "S"; src_table_name = codes "stones" }

abbrev two_tables : Instance
two_tables = record config { tables = table ∷ stones ∷ [] }

loaded_first : load_new_state one_table table ≡ ok (object rows_1)
unfolding load_new_state table_to_json_object record_loop indices_of_fields fields_at_indices
    list_index csv_compose_record compose_record compose_field fields_onto escape_loop ends_with
    equal set textdata
loaded_first = refl

second_failed : load_new_state {N = ℕ} one_table stones ≡ failed
unfolding load_new_state equal
second_failed = refl

commit-partial_example :
    (after : WorkDir) × (commit ◌==◌ print_digit scan_digit digest_of one_table two_tables 1 5
        empty_dir
      ≡ (after, failed))
    × (after.heads ≡ [])
    × (after.blocks ≡ [])
    × Snapshot scan_digit after.snapshots (λ id. get rows_1) table
    × ((delta : Json ℕ) × (table_delta ◌==◌ print_digit scan_digit digest_of one_table
            after.snapshots table
          ≡ ok (object rows_1, delta, false)))
unfolding load_old_state read_file has_key equal
commit-partial_example =
    commit-partial ◌==◌ print_digit scan_digit digit is_digit digits-Reads digest_of one_table
      two_tables table stones [] empty_dir rows_1 no_fields 1 5 refl loaded_first refl
      rows_1-Strings (refl, (refl, tt)) no_rows-Strings second_failed
