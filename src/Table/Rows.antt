-- ===== src/Table/Rows.antt =====
-- lib/utils.c: `LCH_TableToJsonObject`, from the records of a table to an object of its rows.
use leech.Base.{
  ℕ, zero, suc, ◌+◌, List, [], ◌∷◌, Option, some, none, length, ltb, ◌==◌, if◌then◌else◌, Bytes,
  Result, ok, failed, aborted, ◌>>=◌, ◌>>◌, assert, or_abort,
}
use leech.Buffer.{equal}
use leech.Json.Syntax.{Json, Fields, string, object, no_fields, set}
use leech.Csv.Composer.{csv_compose_record}

-- `LCH_ListGet`, or no value out of range
abbrev pub list_get {ℓ} : {A : Type ℓ} → List A → ℕ → Option A
list_get [] index = none
list_get (value ∷ list) zero = some value
list_get (value ∷ list) (suc index) = list_get list index

-- `LCH_ListIndex` with `LCH_BufferCompare`: the length where no element is equal
unfoldable pub list_index : List Bytes → Bytes → ℕ
list_index [] value = 0
list_index (element ∷ list) value =
    let later = suc (list_index list value) in if equal element value then 0 else later

-- `IndicesOfFieldsInHeader`
unfoldable pub indices_of_fields : List Bytes → List Bytes → Result (List ℕ)
unfolding list_index
indices_of_fields [] header = ok []
indices_of_fields (field ∷ fields) header =
    let index = list_index header field in
    let later = (do indices ← indices_of_fields fields header; ok (index ∷ indices)) in
    if ltb index (length header) then later else failed

-- `FieldsInRecordAtIndices`
unfoldable pub fields_at_indices : List ℕ → List Bytes → Result (List Bytes)
fields_at_indices [] fields = ok []
fields_at_indices (index ∷ indices) fields = do
  field ← or_abort (list_get fields index)
  rest ← fields_at_indices indices fields
  ok (field ∷ rest)

module _ {N : Type 0} where
  -- The loop of `LCH_TableToJsonObject` over the records behind the header, whose length is `width`
  unfoldable pub record_loop :
      ℕ → List ℕ → List ℕ → List (List Bytes) → Fields N → Result (Fields N)
  unfolding fields_at_indices
  record_loop width primary_indices subsidiary_indices [] rows = ok rows
  record_loop width primary_indices subsidiary_indices (fields ∷ records) rows = do
    assert (width == length fields)
    primary ← fields_at_indices primary_indices fields
    subsidiary ← fields_at_indices subsidiary_indices fields
    record_loop width primary_indices subsidiary_indices records
        (set rows (csv_compose_record primary) (string (csv_compose_record subsidiary)))

  -- `LCH_TableToJsonObject`
  unfoldable pub table_to_json_object :
      List (List Bytes) → List Bytes → List Bytes → Result (Json N)
  unfolding indices_of_fields record_loop
  table_to_json_object [] primary_fields subsidiary_fields = aborted
  table_to_json_object (header ∷ records) primary_fields subsidiary_fields = do
    assert (ltb 0 (length primary_fields))
    assert (length header == length primary_fields + length subsidiary_fields)
    primary_indices ← indices_of_fields primary_fields header
    subsidiary_indices ← indices_of_fields subsidiary_fields header
    rows ← record_loop (length header) primary_indices subsidiary_indices records no_fields
    ok (object rows)
