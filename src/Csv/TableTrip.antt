-- ===== src/Csv/TableTrip.antt =====
-- Tables that lib/csv.c composes are read back, but for a last record that is a lone empty field.
use leech.Base.{
  ℕ, zero, suc, ◌+◌, ◌≤◌, Bool, true, false, List, [], ◌∷◌, ◌++◌, append-nil, append_assoc, ◌≡◌,
  ◌⊎◌, inl, inr, refl, sym, ap, ◌∙◌, arith, length, length-append, Bytes, Bool-cases, ok, ◌>>=◌,
}
use leech.Csv.Text.{CsvParser}
use leech.Csv.Parser.{parse_record, records_at, csv_parse_table, start}
use leech.Csv.Total.{Filled, IsTable}
use leech.Csv.Layout.{
  doubled, plain, later_fields, record_text, later_records, compose_record-record_text,
  records_onto-later,
}
use leech.Csv.RoundTrip.{at_end, parse_record-record_text}
use leech.Csv.Composer.{ends_with, records_onto, csv_compose_table}

-- The last record holds more than one field, or a field that is not empty.
abbrev pub ends_visibly : List (List Bytes) → Bool
ends_visibly [] = true
ends_visibly (([] ∷ []) ∷ []) = false
ends_visibly (fields ∷ []) = true
ends_visibly (_ ∷ fields ∷ table) = ends_visibly (fields ∷ table)

abbrev pub visible : List Bytes → Bool
visible fields = ends_visibly (fields ∷ [])

abbrev pub crlf : Bytes
crlf = b'\r' ∷ b'\n' ∷ []

-- What may stand behind the records of a table: nothing, if the last of them has some text, or the
-- optional CRLF.
abbrev Tail : List (List Bytes) → Bytes → Type 0
Tail table tail = ((tail ≡ []) × (ends_visibly table ≡ true)) ⊎ (tail ≡ crlf)

later_records-at_end :
    (table : List (List Bytes)) (tail : Bytes)
    → Tail table tail
    → at_end (later_records table ++ tail) ≡ true
later_records-at_end [] tail (inl h) = rw h.0
later_records-at_end [] tail (inr h) = rw h
later_records-at_end (fields ∷ table) tail h = refl

ends_visibly_tail :
    (fields : List Bytes) (table : List (List Bytes))
    → ends_visibly (fields ∷ table) ≡ true
    → ends_visibly table ≡ true
ends_visibly_tail fields [] h = refl
ends_visibly_tail [] (f ∷ table) h = h
ends_visibly_tail ([] ∷ []) (f ∷ table) h = h
ends_visibly_tail ([] ∷ _ ∷ _) (f ∷ table) h = h
ends_visibly_tail ((_ ∷ _) ∷ _) (f ∷ table) h = h

Tail-Tail :
    (fields : List Bytes) (table : List (List Bytes)) (tail : Bytes)
    → Tail (fields ∷ table) tail
    → Tail table tail
Tail-Tail fields table tail (inl h) = inl (h.0, ends_visibly_tail fields table h.1)
Tail-Tail fields table tail (inr h) = inr h

-- Only a record that holds nothing but an empty field has no text.
record_text-visible :
    (field : Bytes) (fields : List Bytes)
    → visible (field ∷ fields) ≡ true
    → (c : ℕ) × (cs : Bytes) × (record_text (field ∷ fields) ≡ c ∷ cs)
unfolding ends_with
record_text-visible [] [] h = cc
record_text-visible [] (f ∷ fields) h = (b',', _, refl)
record_text-visible (c ∷ cs) fields h = elim (Bool-cases (plain (c ∷ cs))) [
  | inl text ↦ (c, cs ++ later_fields fields, rw text)
  | inr quoted ↦ (b'"', (doubled (c ∷ cs) ++ b'"' ∷ []) ++ later_fields fields, rw quoted)
]

first-byte :
    (xs : Bytes) (y : ℕ) (ys zs : Bytes)
    → zs ≡ y ∷ ys
    → (c : ℕ) × (cs : Bytes) × (xs ++ zs ≡ c ∷ cs)
first-byte [] y ys zs h = (y, ys, h)
first-byte (x ∷ xs) y ys zs h = (x, xs ++ zs, refl)

-- So the loop over records never meets the end of the buffer too early.
record_text-Tail :
    (field : Bytes) (fields : List Bytes) (table : List (List Bytes)) (tail : Bytes)
    → Tail ((field ∷ fields) ∷ table) tail
    → (c : ℕ) × (cs : Bytes) × (record_text (field ∷ fields) ++ (later_records table ++ tail)
        ≡ c ∷ cs)
record_text-Tail field fields [] tail (inl h) =
    let (c, cs, e) = record_text-visible field fields h.1 in (c, cs ++ tail, rw e)
record_text-Tail field fields [] tail (inr h) =
    first-byte (record_text (field ∷ fields)) (b'\r') (b'\n' ∷ []) tail h
record_text-Tail field fields (f ∷ table) tail h =
    first-byte (record_text (field ∷ fields)) (b'\r') _ _ refl

records_at_next :
    (fuel : ℕ) (parser : CsvParser) (acc : List (List Bytes)) (body : Bytes) (c : ℕ) (cs : Bytes)
    → body ≡ c ∷ cs
    → records_at (suc fuel) parser acc (b'\r' ∷ b'\n' ∷ body) ≡ (
        parse_record (record parser { cursor = body; row = parser.row + 1; column = 1 })
        >>= λ (fields, parser'). records_at fuel parser' (acc ++ fields ∷ []) parser'.cursor)
unfolding records_at
records_at_next fuel parser acc body c cs e = rw e

records_at-later_records :
    (table acc : List (List Bytes)) (fuel : ℕ) (parser : CsvParser) (tail : Bytes)
    → Filled table
    → Tail table tail
    → length (later_records table ++ tail) ≤ fuel
    → (last : CsvParser) × (records_at fuel parser acc (later_records table ++ tail)
        ≡ ok (acc ++ table, last))
unfolding records_at
records_at-later_records [] acc zero parser tail f (inl t) le = (parser, rw (append-nil, t.0))
records_at-later_records [] acc (suc fuel) parser tail f (inl t) le = (parser, rw (append-nil, t.0))
records_at-later_records [] acc zero parser tail f (inr t) le = absurd (omega (arith, ap length t))
records_at-later_records [] acc (suc fuel) parser tail f (inr t) le =
    (record parser { cursor = [] }, rw (append-nil, t))
records_at-later_records ([] ∷ table) acc fuel parser tail f t le = absurd (omega arith)
records_at-later_records ((field ∷ fields) ∷ table) acc zero parser tail f t le =
    absurd (omega arith)
records_at-later_records ((field ∷ fields) ∷ table) acc (suc fuel) parser tail f t le =
    let behind = later_records table ++ tail in
    let body = record_text (field ∷ fields) ++ behind in
    let regroup = append_assoc (record_text (field ∷ fields)) (later_records table) tail in
    let (c, cs, some_text) = record_text-Tail field fields table tail t in
    let here = record parser { cursor = body; row = parser.row + 1; column = 1 } in
    let read =
      parse_record-record_text here field fields behind
        (later_records-at_end table tail (Tail-Tail (field ∷ fields) table tail t)) refl in
    let shorter : length behind ≤ fuel =
      omega (arith, length-append (record_text (field ∷ fields)) behind, ap length regroup) in
    let (last, done) =
      records_at-later_records table (acc ++ (field ∷ fields) ∷ []) fuel
        (record here { cursor = behind; column = 1 + length fields }) tail f.1
        (Tail-Tail (field ∷ fields) table tail t) shorter in
    (
      last,
      ap (λ text. records_at (suc fuel) parser acc (b'\r' ∷ b'\n' ∷ text)) regroup
          ∙ records_at_next fuel parser acc body c cs some_text
          ∙ rw read (done ∙ rw append_assoc),
    )

table_text-parses :
    (header : List Bytes) (table : List (List Bytes)) (tail : Bytes)
    → IsTable (header ∷ table)
    → Tail table tail
    → csv_parse_table (record_text header ++ (later_records table ++ tail)) ≡ ok (header ∷ table)
unfolding csv_parse_table
table_text-parses [] table tail h t = absurd (omega arith)
table_text-parses (field ∷ fields) table tail h t =
    let behind = later_records table ++ tail in
    let read =
      parse_record-record_text (start (record_text (field ∷ fields) ++ behind)) field fields behind
        (later_records-at_end table tail t) refl in
    let (last, done) =
      records_at-later_records table ((field ∷ fields) ∷ []) (length behind)
        (record { cursor = behind; row = 1; column = 1 + length fields }) tail h.1.1 t
        (omega arith) in
    rw read (rw done)

csv_compose_table-text :
    (header : List Bytes) (table : List (List Bytes))
    → csv_compose_table (header ∷ table) ≡ record_text header ++ later_records table
unfolding csv_compose_table records_onto
csv_compose_table-text header table = records_onto-later table _ ∙ rw compose_record-record_text

-- The text of a table with a header and fields in every record is read back as that table, provided
-- that the last record behind the header is not a lone empty field.
pub csv_parse_table-csv_compose_table :
    (header : List Bytes) (table : List (List Bytes))
    → IsTable (header ∷ table)
    → ends_visibly table ≡ true
    → csv_parse_table (csv_compose_table (header ∷ table)) ≡ ok (header ∷ table)
csv_parse_table-csv_compose_table header table h v = rw csv_compose_table-text (
    ap (λ text. csv_parse_table (record_text header ++ text))
      (sym (append-nil (later_records table)))
    ∙ table_text-parses header table [] h (inl (refl, v)))

later_records-append :
    (table : List (List Bytes)) (fields : List Bytes)
    → later_records (table ++ fields ∷ []) ≡ later_records table ++ (crlf ++ record_text fields)
later_records-append [] fields = rw append-nil
later_records-append (f ∷ table) fields = rw (later_records-append table fields) (simp append_assoc)

-- A last record that is a lone empty field is lost: the text of a table with such a record behind its
-- header is read as the table without it.
pub csv_parse_table-blank_record :
    (header : List Bytes) (table : List (List Bytes))
    → IsTable (header ∷ table)
    → csv_parse_table (csv_compose_table (header ∷ (table ++ ([] ∷ []) ∷ []))) ≡ ok (header ∷ table)
unfolding ends_with
csv_parse_table-blank_record header table h =
    rw csv_compose_table-text
      (rw later_records-append (table_text-parses header table crlf h (inr refl)))
