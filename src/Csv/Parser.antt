-- ===== src/Csv/Parser.antt =====
-- lib/csv.c: the parser, from fields to tables. Each loop recurs on the bytes that are left, and
-- the loops over fields and records on fuel of one more than these: see Csv/Total.
use leech.Base.{
  ℕ, zero, suc, ◌+◌, Bool, true, ◌&&◌, ◌||◌, List, [], ◌∷◌, ◌++◌, ◌==◌, if◌then◌else◌, length,
  Bytes, Result, ok, failed, aborted, out_of_fuel, ◌>>=◌, ◌>>◌, assert,
}
use leech.Buffer.{append, trim_start, trim}
use leech.Csv.Text.{textdata, CsvParser, at_crlf, at_char}

-- The end of the buffer, of the field or of the record.
abbrev pub at_boundary : Bytes → Bool
at_boundary [] = true
at_boundary (c ∷ cs) = at_char b',' (c ∷ cs) || at_crlf (c ∷ cs)

-- `ParseEscaped` behind the closing quote
unfoldable pub end_escaped : Bytes → Bytes → Result (Bytes × Bytes)
end_escaped field cursor =
    let rest = trim_start b' ' cursor in if at_boundary rest then ok (field, rest) else failed

-- The loop of `ParseEscaped`: the field read so far, and the bytes behind the leading quote.
unfoldable pub escaped_loop : Bytes → Bytes → Result (Bytes × Bytes)
unfolding end_escaped
escaped_loop field [] = failed
escaped_loop field (c ∷ []) =
    if c == b'"' then end_escaped field [] else escaped_loop (append field c) []
escaped_loop field (c ∷ d ∷ cs) =
    let escaped_quote = escaped_loop (append field b'"') cs in
    let found_byte = escaped_loop (append field c) (d ∷ cs) in
    if c == b'"' && d == b'"'
    then escaped_quote
    else if c == b'"'
    then end_escaped field (d ∷ cs)
    else found_byte

-- `ParseEscaped`
unfoldable pub parse_escaped : Bytes → Result (Bytes × Bytes)
unfolding escaped_loop
parse_escaped [] = aborted
parse_escaped (c ∷ cs) = do assert (c == b'"'); escaped_loop [] cs

-- The loop of `ParseNonEscaped`
unfoldable pub non_escaped_loop : Bytes → Bytes → Result (Bytes × Bytes)
non_escaped_loop field [] = ok (field, [])
non_escaped_loop field (c ∷ cs) =
    let text_data = non_escaped_loop (append field c) cs in
    if at_crlf (c ∷ cs)
    then ok (field, c ∷ cs)
    else if c == b','
    then ok (field, c ∷ cs)
    else if textdata c
    then text_data
    else failed

-- `ParseNonEscaped`
unfoldable pub parse_non_escaped : Bytes → Result (Bytes × Bytes)
unfolding non_escaped_loop
parse_non_escaped cursor = do (field, rest) ← non_escaped_loop [] cursor; ok (trim field b' ', rest)

-- `ParseField`
unfoldable pub field_at : Bytes → Result (Bytes × Bytes)
unfolding parse_escaped parse_non_escaped
field_at [] = ok ([], [])
field_at (c ∷ cs) = if c == b'"' then parse_escaped (c ∷ cs) else parse_non_escaped (c ∷ cs)

unfoldable pub parse_field : CsvParser → Result (Bytes × CsvParser)
unfolding field_at
parse_field parser = do
  (field, rest) ← field_at (trim_start b' ' parser.cursor)
  ok (field, record parser { cursor = rest })

-- The loop of `ParseRecord`
unfoldable pub fields_at : ℕ → CsvParser → List Bytes → Bytes → Result (List Bytes × CsvParser)
fields_at _ parser fields [] = ok (fields, parser)
fields_at zero parser fields (c ∷ cs) = out_of_fuel
fields_at (suc fuel) parser fields (c ∷ cs) =
    let next = do
      (field, parser') ← parse_field (record parser { column = parser.column + 1; cursor = cs })
      fields_at fuel parser' (fields ++ field ∷ []) parser'.cursor
    in if c == b',' then next else ok (fields, parser)

-- `ParseRecord`
unfoldable pub parse_record : CsvParser → Result (List Bytes × CsvParser)
unfolding fields_at
parse_record parser = do
  (field, parser') ← parse_field parser
  fields_at (length parser'.cursor) parser' (field ∷ []) parser'.cursor

-- The loop of `ParseTable`, with its assertions
unfoldable pub records_at :
    ℕ → CsvParser → List (List Bytes) → Bytes → Result (List (List Bytes) × CsvParser)
records_at _ parser table [] = ok (table, parser)
records_at zero parser table (c ∷ cs) = out_of_fuel
records_at (suc fuel) parser table (c ∷ []) = aborted
records_at (suc fuel) parser table (c ∷ d ∷ []) = do
  assert (c == b'\r')
  assert (d == b'\n')
  ok (table, record parser { cursor = [] })
records_at (suc fuel) parser table (c ∷ d ∷ e ∷ cs) = do
  assert (c == b'\r')
  assert (d == b'\n')
  (fields, parser') ←
      parse_record (record parser { cursor = e ∷ cs; row = parser.row + 1; column = 1 })
  records_at fuel parser' (table ++ fields ∷ []) parser'.cursor

-- `ParseTable`
unfoldable pub parse_records : CsvParser → Result (List (List Bytes))
unfolding records_at
parse_records parser = do
  (fields, parser') ← parse_record parser
  (table, _) ← records_at (length parser'.cursor) parser' (fields ∷ []) parser'.cursor
  ok table

abbrev pub start : Bytes → CsvParser
start csv = record { cursor = csv; row = 1; column = 1 }

-- `LCH_CSVParseField`
unfoldable pub csv_parse_field : Bytes → Result Bytes
unfolding parse_field
csv_parse_field csv = do (field, _) ← parse_field (start csv); ok field

-- `LCH_CSVParseRecord`
unfoldable pub csv_parse_record : Bytes → Result (List Bytes)
unfolding parse_record
csv_parse_record csv = do (fields, _) ← parse_record (start csv); ok fields

-- `LCH_CSVParseTable`
unfoldable pub csv_parse_table : Bytes → Result (List (List Bytes))
unfolding parse_records
csv_parse_table csv = parse_records (start csv)
