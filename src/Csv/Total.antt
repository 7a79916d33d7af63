-- ===== src/Csv/Total.antt =====
-- The parser of lib/csv.c returns on every input: what it reads gets shorter, and a record ends at
-- the end of the buffer or at CRLF, as the assertions of `ParseTable` say.
use leech.Base.{
  ℕ, zero, suc, ◌≤◌, Bool, true, ◌&&◌, List, [], ◌∷◌, ◌++◌, ◌≡◌, ◌⊎◌, inl, inr, refl, ap, arith,
  length-append, ◌==◌, length, Bytes, Result, Returns, holds, refused, Returns-if, Returns-bind,
}
use leech.Buffer.{append, trim_start}
use leech.Csv.Text.{textdata, CsvParser, at_crlf}
use leech.Csv.Parser.{
  at_boundary, end_escaped, escaped_loop, non_escaped_loop, field_at, parse_field, fields_at,
  parse_record, records_at, csv_parse_table, start,
}

pub &&-true : (a b : Bool) → (a && b) ≡ true → (a ≡ true) × (b ≡ true)
&&-true a b h = ground arith

pub trim_start-le : (ch : ℕ) (bs : Bytes) → length (trim_start ch bs) ≤ length bs
unfolding trim_start
trim_start-le ch [] = omega arith
trim_start-le ch (b ∷ bs) = ground (arith, trim_start-le ch bs)

-- What follows a field that was read from `n` bytes
abbrev AfterField : ℕ → Bytes × Bytes → Type 0
AfterField n (field, rest) = (at_boundary rest ≡ true) × (length rest ≤ n)

end_escaped-AfterField :
    (field cursor : Bytes) → Returns (AfterField (length cursor)) (end_escaped field cursor)
unfolding end_escaped
end_escaped-AfterField field cursor =
    Returns-if _ (λ h. holds (h, trim_start-le b' ' cursor)) (λ _. refused)

weaken :
    {m : ℕ} {r : Result (Bytes × Bytes)} (n : ℕ)
    → Returns (AfterField m) r
    → m ≤ n
    → Returns (AfterField n) r
weaken n (holds h) le = holds (h.0, omega arith)
weaken n refused le = refused

escaped_loop-AfterField :
    (field cursor : Bytes) → Returns (AfterField (length cursor)) (escaped_loop field cursor)
unfolding escaped_loop
escaped_loop-AfterField field [] = refused
escaped_loop-AfterField field (c ∷ []) =
    Returns-if (c == b'"') (λ _. weaken _ (end_escaped-AfterField field []) (omega arith))
      (λ _. refused)
escaped_loop-AfterField field (c ∷ d ∷ cs) =
    Returns-if (c == b'"' && d == b'"')
      (λ _. weaken _ (escaped_loop-AfterField (append field b'"') cs) (omega arith))
      (λ _.
        Returns-if (c == b'"') (λ _. weaken _ (end_escaped-AfterField field (d ∷ cs)) (omega arith))
          (λ _. weaken _ (escaped_loop-AfterField (append field c) (d ∷ cs)) (omega arith)))

non_escaped_loop-AfterField :
    (field cursor : Bytes) → Returns (AfterField (length cursor)) (non_escaped_loop field cursor)
unfolding non_escaped_loop
non_escaped_loop-AfterField field [] = holds (refl, omega arith)
non_escaped_loop-AfterField field (c ∷ cs) =
    Returns-if (at_crlf (c ∷ cs)) (λ h. holds (ground arith, omega arith))
      (λ _.
        Returns-if (c == b',') (λ h. holds (ground arith, omega arith))
          (λ _.
            Returns-if (textdata c)
              (λ _. weaken _ (non_escaped_loop-AfterField (append field c) cs) (omega arith))
              (λ _. refused)))

field_at-AfterField : (cursor : Bytes) → Returns (AfterField (length cursor)) (field_at cursor)
unfolding field_at
field_at-AfterField [] = holds (refl, omega arith)
field_at-AfterField (c ∷ cs) =
    Returns-if (c == b'"') (λ h. rw h (weaken _ (escaped_loop-AfterField [] cs) (omega arith)))
      (λ _. Returns-bind (non_escaped_loop-AfterField [] (c ∷ cs)) (λ (field, rest) h. holds h))

pub parse_field-Returns :
    (parser : CsvParser)
    → Returns
        (λ r. (at_boundary r.1.cursor ≡ true) × (length r.1.cursor ≤ length parser.cursor))
        (parse_field parser)
unfolding parse_field
parse_field-Returns parser =
    Returns-bind (field_at-AfterField (trim_start b' ' parser.cursor))
      (λ (field, rest) h. holds (h.0, omega (arith, trim_start-le b' ' parser.cursor)))

-- What follows a record that was read from `n` bytes
abbrev AfterRecord : ℕ → List Bytes × CsvParser → Type 0
AfterRecord n (fields, parser) =
    ((parser.cursor ≡ []) ⊎ (at_crlf parser.cursor ≡ true))
    × (length parser.cursor ≤ n)
    × (1 ≤ length fields)

-- No record of the table is without fields.
abbrev pub Filled : List (List Bytes) → Type 0
Filled [] = Unit
Filled (fields ∷ table) = (1 ≤ length fields) × Filled table

Filled-append :
    (table : List (List Bytes)) (fields : List Bytes)
    → Filled table
    → 1 ≤ length fields
    → Filled (table ++ fields ∷ [])
Filled-append [] fields h k = (k, tt)
Filled-append (f ∷ table) fields h k = (h.0, Filled-append table fields h.1 k)

-- A table has a header, and fields in every record.
abbrev pub IsTable : List (List Bytes) → Type 0
IsTable table = (1 ≤ length table) × Filled table

fields_at-AfterRecord :
    (fuel n : ℕ) (parser : CsvParser) (fields : List Bytes) (cursor : Bytes)
    → length cursor ≤ fuel
    → length cursor ≤ n
    → parser.cursor ≡ cursor
    → at_boundary cursor ≡ true
    → 1 ≤ length fields
    → Returns (AfterRecord n) (fields_at fuel parser fields cursor)
unfolding fields_at
fields_at-AfterRecord zero n parser fields [] le le' e b l =
    holds (inl e, omega (arith, ap length e), l)
fields_at-AfterRecord (suc _) n parser fields [] le le' e b l =
    holds (inl e, omega (arith, ap length e), l)
fields_at-AfterRecord zero n parser fields (c ∷ cs) le le' e b l = absurd (omega arith)
fields_at-AfterRecord (suc fuel) n parser fields (c ∷ cs) le le' e b l =
    Returns-if (c == b',')
      (λ _. Returns-bind (parse_field-Returns _) (λ (field, parser') h.
        fields_at-AfterRecord fuel n parser' _ parser'.cursor (omega arith) (omega arith) refl h.0
          (omega (arith, length-append fields (field ∷ [])))))
      (λ h. holds (inr (rw e (rw h at b)), omega (arith, ap length e), l))

pub parse_record-AfterRecord :
    (parser : CsvParser) → Returns (AfterRecord (length parser.cursor)) (parse_record parser)
unfolding parse_record
parse_record-AfterRecord parser = Returns-bind (parse_field-Returns parser) (λ (field, parser') h.
    fields_at-AfterRecord (length parser'.cursor) _ parser' _ parser'.cursor (omega arith) h.1 refl
      h.0 (omega arith))

records_at-Returns :
    (fuel : ℕ) (parser : CsvParser) (table : List (List Bytes)) (cursor : Bytes)
    → length cursor ≤ fuel
    → (cursor ≡ []) ⊎ (at_crlf cursor ≡ true)
    → IsTable table
    → Returns (λ r. IsTable r.0) (records_at fuel parser table cursor)
unfolding records_at
records_at-Returns zero parser table [] le e t = holds t
records_at-Returns (suc _) parser table [] le e t = holds t
records_at-Returns zero parser table (c ∷ cs) le e t = absurd (omega arith)
records_at-Returns (suc fuel) parser table (c ∷ []) le (inl e) t = cc
records_at-Returns (suc fuel) parser table (c ∷ []) le (inr e) t = cc
records_at-Returns (suc fuel) parser table (c ∷ d ∷ []) le (inl e) t = cc
records_at-Returns (suc fuel) parser table (c ∷ d ∷ []) le (inr e) t =
    rw (&&-true (c == b'\r') (d == b'\n') e).0
      (rw (&&-true (c == b'\r') (d == b'\n') e).1 (holds t))
records_at-Returns (suc fuel) parser table (c ∷ d ∷ e' ∷ cs) le (inl e) t = cc
records_at-Returns (suc fuel) parser table (c ∷ d ∷ e' ∷ cs) le (inr e) t =
    rw (&&-true (c == b'\r') (d == b'\n') e).0 (
      rw (&&-true (c == b'\r') (d == b'\n') e).1 (
        Returns-bind (parse_record-AfterRecord _) (λ (fields, parser') h.
          records_at-Returns fuel parser' _ parser'.cursor (omega arith) h.0 (
            omega (arith, length-append table (fields ∷ [])),
            Filled-append table fields t.1 h.2,
          ))))

-- Whatever bytes it is given, `LCH_CSVParseTable` returns: NULL, or a table with at least one
-- record, and at least one field in each. None of the
-- assertions on what stands between two records fails, and the fuel suffices.
pub csv_parse_table-Returns : (csv : Bytes) → Returns IsTable (csv_parse_table csv)
unfolding csv_parse_table
csv_parse_table-Returns csv =
    Returns-bind (parse_record-AfterRecord (start csv)) (λ (fields, parser') h.
      Returns-bind
        (records_at-Returns (length parser'.cursor) parser' _ parser'.cursor (omega arith) h.0
          (omega arith, (h.2, tt)))
        (λ _ h'. holds h'))
