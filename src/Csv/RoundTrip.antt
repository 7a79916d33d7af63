-- ===== src/Csv/RoundTrip.antt =====
-- Fields and records that lib/csv.c composes are read back by its parser.
use leech.Base.{
  ℕ, zero, suc, ◌+◌, ◌≤◌, Bool, true, false, List, [], ◌∷◌, ◌++◌, append-nil, append_assoc, ◌≡◌,
  refl, sym, ap, ◌∙◌, arith, ◌==◌, length, length-append, Bytes, ok,
}
use leech.Csv.Text.{CsvParser, at_crlf}
use leech.Csv.Parser.{
  at_boundary, fields_at, parse_record, csv_parse_record, csv_parse_field, start,
}
use leech.Csv.Layout.{
  field_text, later_fields, record_text, compose_field-field_text, compose_record-record_text,
}
use leech.Csv.Field.{parse_field-field_text}
use leech.Csv.Composer.{csv_compose_record, csv_compose_field}

-- The end of the buffer, or CRLF
abbrev pub at_end : Bytes → Bool
at_end [] = true
at_end (c ∷ cs) = at_crlf (c ∷ cs)

later_fields-at_boundary :
    (fields : List Bytes) (rest : Bytes)
    → at_end rest ≡ true
    → at_boundary (later_fields fields ++ rest) ≡ true
later_fields-at_boundary [] [] h = refl
later_fields-at_boundary [] (r ∷ rest) h = ground arith
later_fields-at_boundary (field ∷ fields) rest h = refl

at_end-ne_comma : (r : ℕ) (rest : Bytes) → at_end (r ∷ rest) ≡ true → (r == b',') ≡ false
at_end-ne_comma r [] h = cc
at_end-ne_comma r (s ∷ rest) h = ground arith

column_shift : (column n : ℕ) → (column + 1) + n ≡ column + suc n
column_shift column n = omega arith

fields_at-later_fields :
    (fields acc : List Bytes) (fuel : ℕ) (parser : CsvParser) (rest : Bytes)
    → at_end rest ≡ true
    → length (later_fields fields ++ rest) ≤ fuel
    → parser.cursor ≡ later_fields fields ++ rest
    → fields_at fuel parser acc (later_fields fields ++ rest)
      ≡ ok (acc ++ fields, record parser { cursor = rest; column = parser.column + length fields })
unfolding fields_at
fields_at-later_fields [] acc zero parser [] h le e = rw append-nil (ground arith)
fields_at-later_fields [] acc (suc fuel) parser [] h le e = rw append-nil (ground arith)
fields_at-later_fields [] acc zero parser (r ∷ rest) h le e = absurd (omega arith)
fields_at-later_fields [] acc (suc fuel) parser (r ∷ rest) h le e =
    rw (append-nil, at_end-ne_comma r rest h) (ground arith)
fields_at-later_fields (field ∷ fields) acc zero parser rest h le e = absurd (omega arith)
fields_at-later_fields (field ∷ fields) acc (suc fuel) parser rest h le e =
    let text = (field_text field ++ later_fields fields) ++ rest in
    let here = record parser { cursor = text; column = parser.column + 1 } in
    let there = record here { cursor = later_fields fields ++ rest } in
    let read =
      parse_field-field_text here field (later_fields fields ++ rest)
        (later_fields-at_boundary fields rest h)
        (append_assoc (field_text field) (later_fields fields) rest) in
    let shorter : length (later_fields fields ++ rest) ≤ fuel = omega (
      arith,
      length-append (field_text field) (later_fields fields ++ rest),
      ap length (append_assoc (field_text field) (later_fields fields) rest),
    ) in
    rw read (
      fields_at-later_fields fields (acc ++ field ∷ []) fuel there rest h shorter refl
      ∙ rw (append_assoc, column_shift))

-- A composed record is read back, up to the end or the CRLF that follows it.
pub parse_record-record_text :
    (parser : CsvParser) (field : Bytes) (fields : List Bytes) (rest : Bytes)
    → at_end rest ≡ true
    → parser.cursor ≡ record_text (field ∷ fields) ++ rest
    → parse_record parser
      ≡ ok (field ∷ fields, record parser { cursor = rest; column = parser.column + length fields })
unfolding parse_record
parse_record-record_text parser field fields rest h e =
    rw
      (parse_field-field_text parser field (later_fields fields ++ rest)
        (later_fields-at_boundary fields rest h)
        (e ∙ append_assoc (field_text field) (later_fields fields) rest))
      (fields_at-later_fields fields (field ∷ []) _ _ rest h (omega arith) refl)

-- A composed record with at least one field is read back.
pub csv_parse_record-csv_compose_record :
    (field : Bytes) (fields : List Bytes)
    → csv_parse_record (csv_compose_record (field ∷ fields)) ≡ ok (field ∷ fields)
unfolding csv_parse_record csv_compose_record
csv_parse_record-csv_compose_record field fields = rw compose_record-record_text (
    rw (
      parse_record-record_text (start (record_text (field ∷ fields))) field fields [] refl
        (sym (append-nil _))))

-- Records with at least one field have different texts, unless they hold the same fields.
pub csv_compose_record-injective :
    (f g : Bytes) (fields gs : List Bytes)
    → csv_compose_record (f ∷ fields) ≡ csv_compose_record (g ∷ gs)
    → f ∷ fields ≡ g ∷ gs
csv_compose_record-injective f g fields gs e =
    cc (csv_parse_record-csv_compose_record f fields, csv_parse_record-csv_compose_record g gs)

-- A composed field is read back, whatever bytes it holds.
pub csv_parse_field-csv_compose_field :
    (raw : Bytes) → csv_parse_field (csv_compose_field raw) ≡ ok raw
unfolding csv_parse_field csv_compose_field
csv_parse_field-csv_compose_field raw =
    rw compose_field-field_text
      (rw (parse_field-field_text (start (field_text raw)) raw [] refl (sym (append-nil _))))
