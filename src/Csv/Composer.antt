-- ===== src/Csv/Composer.antt =====
-- lib/csv.c: the composer. Each function appends to the buffer it is given.
use leech.Base.{ℕ, Bool, true, false, ◌||◌, List, [], ◌∷◌, ◌++◌, ◌==◌, if◌then◌else◌, Bytes}
use leech.Buffer.{append}
use leech.Csv.Text.{textdata, at_char}

-- `raw[size - 1] == ch`
unfoldable pub ends_with : ℕ → Bytes → Bool
ends_with ch [] = false
ends_with ch (b ∷ []) = b == ch
ends_with ch (_ ∷ b ∷ bs) = ends_with ch (b ∷ bs)

-- The loop of `ComposeField`: `temp` and `escape` at its end
unfoldable pub escape_loop : Bytes → Bool → Bytes → Bytes × Bool
escape_loop temp escape [] = (temp, escape)
escape_loop temp escape (c ∷ cs) =
    let text = textdata c in
    let quote = c == b'"' in
    escape_loop
      (if text then append temp c else if quote then temp ++ (b'"' ∷ b'"' ∷ []) else append temp c)
      (if text then escape else true) cs

-- `ComposeField`
unfoldable pub compose_field : Bytes → Bytes → Bytes
unfolding escape_loop ends_with
compose_field csv raw =
    let (temp, escape) = escape_loop [] (at_char b' ' raw || ends_with b' ' raw) raw in
    let opened = if escape then append csv b'"' else csv in
    let written = opened ++ temp in if escape then append written b'"' else written

-- The loop of `ComposeRecord`; the flag is `i > 0`.
unfoldable pub fields_onto : Bool → Bytes → List Bytes → Bytes
fields_onto later csv [] = csv
fields_onto later csv (field ∷ fields) =
    fields_onto true (compose_field (if later then append csv b',' else csv) field) fields

-- `ComposeRecord`
unfoldable pub compose_record : Bytes → List Bytes → Bytes
unfolding fields_onto
compose_record csv fields = fields_onto false csv fields

-- The loop of `LCH_CSVComposeTable`
unfoldable pub records_onto : Bool → Bytes → List (List Bytes) → Bytes
records_onto later csv [] = csv
records_onto later csv (fields ∷ table) =
    records_onto true (compose_record (if later then csv ++ (b'\r' ∷ b'\n' ∷ []) else csv) fields)
      table

-- `LCH_CSVComposeField`, `LCH_CSVComposeRecord`, `LCH_CSVComposeTable`, given no buffer
unfoldable pub csv_compose_field : Bytes → Bytes
unfolding compose_field
csv_compose_field raw = compose_field [] raw

unfoldable pub csv_compose_record : List Bytes → Bytes
unfolding compose_record
csv_compose_record fields = compose_record [] fields

unfoldable pub csv_compose_table : List (List Bytes) → Bytes
unfolding records_onto
csv_compose_table table = records_onto false [] table
