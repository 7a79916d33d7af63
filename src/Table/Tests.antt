-- ===== src/Table/Tests.antt =====
-- A table with two records under one key, as rows, and a patch that a destination refuses to commit.
use leech.Base.{Bool, true, false, failed, ℕ, List, [], ◌∷◌, none, ◌≡◌, refl, codes, Bytes, ok}
use leech.Buffer.{equal, trim_start, trim}
use leech.CString.{string_equal}
use leech.ListBuffer.{list_copy, list_insert}
use leech.Csv.Text.{textdata}
use leech.Csv.Parser.{parse_field, csv_parse_record}
use leech.Json.Syntax.{keys, Fields, no_fields, field, string, object, get, Distinct}
use leech.Json.SetMinusLaws.{Strings}
use leech.Csv.Composer.{csv_compose_record}
use leech.Table.Rows.{table_to_json_object}
use leech.Leech.Config.{TableInfo}
use leech.Table.Patch.{
  Call, connect, create_table, begin_tx, commit_tx, disconnect, insert_record, table_patch,
}
use leech.Table.Keyed.{last_row, row_value, table_to_json_object_lem}

abbrev header : List Bytes
header = codes "id" ∷ codes "name" ∷ []

abbrev records : List (List Bytes)
records = (codes "1" ∷ codes "Paul" ∷ []) ∷ (codes "1" ∷ codes "John" ∷ []) ∷ []

table_to_json_object_lem_example :
    (rows : Fields ℕ) × (table_to_json_object
        (header ∷ records)
        (codes "id" ∷ [])
        (codes "name" ∷ [])
      ≡ ok (object rows))
    × Strings rows
    × Distinct rows
    × ((f : Bytes) (key : List Bytes)
        → get rows (csv_compose_record (f ∷ key))
          ≡ row_value
              (last_row header (codes "id" ∷ []) (codes "name" ∷ []) records (f ∷ key) none))
unfolding equal
table_to_json_object_lem_example =
    table_to_json_object_lem header (codes "id") [] (codes "name" ∷ []) (refl, tt) (refl, tt)
      records refl (refl, (refl, tt))

abbrev beatles : TableInfo
beatles = record {
  identifier = codes "T";
  all_fields = header;
  primary_fields = codes "id" ∷ [];
  subsidiary_fields = codes "name" ∷ [];
  merge_blocks = true;
  src_params = codes "src";
  src_table_name = codes "beatles";
  dst_params = codes "dst";
  dst_table_name = codes "beatles";
}

-- A destination that does all but commit
abbrev refuses : List Call → Bool
refuses (commit_tx ∷ calls) = false
refuses calls = true

abbrev inserts : Fields ℕ
inserts = field (codes "1") (string (codes "Paul")) no_fields

table_patch-calls :
    table_patch refuses beatles
      (codes "delta")
      (codes "host")
      (codes "h")
      inserts
      no_fields
      no_fields
    ≡ (
      disconnect
          ∷ commit_tx
          ∷ insert_record
              (codes "beatles")
              (codes "host" ∷ header)
              (codes "h" ∷ codes "1" ∷ codes "Paul" ∷ [])
          ∷ begin_tx
          ∷ create_table (codes "beatles") (codes "host" ∷ codes "id" ∷ []) (codes "name" ∷ [])
          ∷ connect (codes "dst")
          ∷ [],
      failed,
    )
unfolding table_patch equal list_copy list_insert string_equal keys get csv_parse_record parse_field
    trim_start textdata trim
table_patch-calls = refl
