-- ===== src/Table/SyncedTests.antt =====
-- A rebase of a table with one record, at a destination that holds another.
use leech.Base.{
  ℕ, List, [], ◌∷◌, Option, some, none, if◌then◌else◌, ◌≡◌, ◌≢◌, refl, codes, Bytes, Bool-cases,
  inl, inr, subst, ok,
}
use leech.Buffer.{equal, trim_start, trim}
use leech.CString.{string_equal}
use leech.Json.Syntax.{Json, no_fields, field, string, get, keys}
use leech.Csv.Text.{textdata}
use leech.Csv.Parser.{parse_field, csv_parse_record}
use leech.Csv.Composer.{
  csv_compose_record, compose_record, compose_field, fields_onto, escape_loop, ends_with,
}
use leech.Delta.Merge.{Operations}
use leech.Delta.Correct.{patch}
use leech.Delta.Compose.{Fits, untouched, inserts}
use leech.Delta.Cells.{cell}
use leech.Leech.Tests.{table}
use leech.Table.Patch.{Call, table_patch}
use leech.Table.Destination.{Records, after_calls, accepts, IsRow, row}
use leech.Table.Synced.{table_patch-patch}

abbrev old_rows : Bytes → Option (Json ℕ)
old_rows = get (field (codes "2") (string (codes "John")) no_fields)

-- All hosts have the old record.
abbrev records : Records
records (host ∷ f ∷ fs) = row (old_rows (csv_compose_record (f ∷ fs)))
records (host ∷ []) = none
records [] = none

abbrev operations : Operations ℕ
operations = record {
  inserts = field (codes "1") (string (codes "Paul")) no_fields;
  deletes = no_fields;
  updates = no_fields;
}

inserted-IsRow : IsRow 1 (codes "1") (get operations.inserts (codes "1"))
unfolding get equal csv_compose_record compose_record compose_field fields_onto escape_loop
    ends_with textdata
inserted-IsRow = record {
  is_key = record { first = codes "1"; rest = []; composed = refl; is_long = refl };
  not_blank = refl;
  first_value = codes "Paul";
  more_values = [];
  value = refl;
}

operations-applies : (key : Bytes) → Fits (cell operations key) none
unfolding get
operations-applies key = elim (Bool-cases (equal (codes "1") key)) [
  | inl e ↦ rw e (inserts (string (codes "Paul")) refl refl refl)
  | inr e ↦ rw e (untouched refl)
]

johns_row : row {N = ℕ} (some (string (codes "John"))) ≢ none
unfolding csv_parse_record parse_field trim_start trim textdata equal
johns_row h = cc

old_rows_readable : (key : Bytes) (v : Json ℕ) → old_rows key ≡ some v → row (some v) ≢ none
unfolding get
old_rows_readable key v e = elim (Bool-cases (equal (codes "2") key)) [
  | inl same ↦ subst (λ w. row w ≢ none) (rw same at e) johns_row
  | inr other ↦ let h = rw other at e in cc
]

table_patch-patch_example :
    (calls : List Call) × (table_patch accepts table
        (codes "rebase")
        (codes "host")
        (codes "h")
        operations.inserts
        operations.deletes
        operations.updates
      ≡ (calls, ok tt))
    × ((host f : Bytes) (fs : List Bytes)
        → after_calls 2 calls records (host ∷ f ∷ fs) ≡ (
            if equal host (codes "h")
            then row (patch operations (λ key. none) (csv_compose_record (f ∷ fs)))
            else records (host ∷ f ∷ fs)))
unfolding string_equal equal keys
table_patch-patch_example =
    table_patch-patch table (codes "rebase") (codes "host") (codes "h") operations (codes "id")
      (codes "id") (codes "name") [] (codes "name" ∷ []) [] records (inserted-IsRow, tt) tt tt
      old_rows refl refl refl operations-applies old_rows_readable (λ f fs. refl)
