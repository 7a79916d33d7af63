-- ===== src/Csv/Layout.antt =====
-- The text that the composer of lib/csv.c writes, piece by piece: each piece stands in front of what
-- follows it, with no buffer passed along.
use leech.Base.{
  Bool, true, not, ◌&&◌, ◌||◌, List, [], ◌∷◌, ◌++◌, append-nil, append_assoc, ◌≡◌, refl, sym, ◌∙◌,
  arith, ◌==◌, if◌then◌else◌, Bytes,
}
use leech.Buffer.{append}
use leech.Csv.Text.{textdata, at_char}
use leech.Csv.Composer.{
  ends_with, escape_loop, compose_field, fields_onto, compose_record, records_onto,
}

-- The bytes between the quotes of an escaped field
abbrev pub doubled : Bytes → Bytes
doubled [] = []
doubled (c ∷ cs) = (if c == b'"' then b'"' ∷ b'"' ∷ [] else c ∷ []) ++ doubled cs

abbrev pub all_text : Bytes → Bool
all_text [] = true
all_text (c ∷ cs) = textdata c && all_text cs

abbrev pub plain : Bytes → Bool
plain raw = all_text raw && not (at_char b' ' raw) && not (ends_with b' ' raw)

-- What `ComposeField` appends
abbrev pub field_text : Bytes → Bytes
field_text raw = if plain raw then raw else b'"' ∷ (doubled raw ++ b'"' ∷ [])

escape_loop_lem :
    (raw temp : Bytes) (escape : Bool)
    → escape_loop temp escape raw ≡ (temp ++ doubled raw, escape || not (all_text raw))
unfolding escape_loop textdata
escape_loop_lem [] temp escape = ground (arith, append-nil temp)
escape_loop_lem (c ∷ cs) temp escape = ground (
  arith,
  escape_loop_lem cs (append temp c) escape,
  escape_loop_lem cs (append temp c) true,
  escape_loop_lem cs (temp ++ (b'"' ∷ b'"' ∷ [])) true,
  append_assoc temp (c ∷ []) (doubled cs),
  append_assoc temp (b'"' ∷ b'"' ∷ []) (doubled cs),
)

doubled-all_text : (raw : Bytes) → all_text raw ≡ true → doubled raw ≡ raw
unfolding textdata
doubled-all_text [] h = refl
doubled-all_text (c ∷ cs) h = ground (arith, doubled-all_text cs)

pub compose_field-field_text : (csv raw : Bytes) → compose_field csv raw ≡ csv ++ field_text raw
unfolding compose_field
compose_field-field_text csv raw = rw escape_loop_lem (
    ground (
      arith,
      doubled-all_text raw,
      append_assoc (append csv b'"') (doubled raw) (b'"' ∷ []),
      append_assoc csv (b'"' ∷ []) (doubled raw ++ b'"' ∷ []),
    ))

-- What `ComposeRecord` appends behind the first field
abbrev pub later_fields : List Bytes → Bytes
later_fields [] = []
later_fields (field ∷ fields) = b',' ∷ (field_text field ++ later_fields fields)

abbrev pub record_text : List Bytes → Bytes
record_text [] = []
record_text (field ∷ fields) = field_text field ++ later_fields fields

-- What `LCH_CSVComposeTable` appends behind the first record
abbrev pub later_records : List (List Bytes) → Bytes
later_records [] = []
later_records (fields ∷ table) = b'\r' ∷ b'\n' ∷ (record_text fields ++ later_records table)

fields_onto-later :
    (fields : List Bytes) (csv : Bytes) → fields_onto true csv fields ≡ csv ++ later_fields fields
unfolding fields_onto
fields_onto-later [] csv = sym (append-nil csv)
fields_onto-later (field ∷ fields) csv =
    fields_onto-later fields _ ∙ rw compose_field-field_text (simp append_assoc)

pub compose_record-record_text :
    (csv : Bytes) (fields : List Bytes) → compose_record csv fields ≡ csv ++ record_text fields
unfolding compose_record fields_onto
compose_record-record_text csv [] = sym (append-nil csv)
compose_record-record_text csv (field ∷ fields) =
    fields_onto-later fields _ ∙ rw compose_field-field_text (simp append_assoc)

pub records_onto-later :
    (table : List (List Bytes)) (csv : Bytes)
    → records_onto true csv table ≡ csv ++ later_records table
unfolding records_onto
records_onto-later [] csv = sym (append-nil csv)
records_onto-later (fields ∷ table) csv =
    records_onto-later table _ ∙ rw compose_record-record_text (simp append_assoc)
