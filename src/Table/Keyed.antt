-- ===== src/Table/Keyed.antt =====
-- The object that `LCH_TableToJsonObject` makes of a table: its rows by their primary fields.
use leech.Base.{
  ◌+◌, Bool, true, false, List, [], ◌∷◌, Option, some, none, length, ltb, ◌==◌, if◌then◌else◌, ◌≡◌,
  refl, ◌∙◌, arith, Bytes, ok, Bool-cases, inl, inr,
}
use leech.Buffer.{equal}
use leech.Json.Syntax.{Json, Fields, string, object, no_fields, get, set, Distinct}
use leech.Json.Fields.{get-set, set-Distinct}
use leech.Json.SetMinusLaws.{Strings}
use leech.Csv.Composer.{csv_compose_record}
use leech.Table.Rows.{record_loop, table_to_json_object}
use leech.Table.RowLaws.{
  columns, AllListed, AllWide, same_fields, equal-csv_compose_record, indices,
  indices_of_fields-indices, fields_at_indices-columns,
}

-- The subsidiary fields of the last record with the given primary fields, or what was found before
unfoldable pub last_row :
    List Bytes
    → List Bytes
    → List Bytes
    → List (List Bytes)
    → List Bytes
    → Option (List Bytes)
    → Option (List Bytes)
unfolding columns same_fields
last_row header primary subsidiary [] key found = found
last_row header primary subsidiary (values ∷ records) key found =
    last_row header primary subsidiary records key (
      if same_fields (columns header values primary) key
      then some (columns header values subsidiary)
      else found)

-- The value of a row, as the object holds it
abbrev pub row_value : {N : Type 0} → Option (List Bytes) → Option (Json N)
row_value (some fields) = some (string (csv_compose_record fields))
row_value none = none

module _ {N : Type 0} where
  set-Strings :
      (rows : Fields N) (key text : Bytes) → Strings rows → Strings (set rows key (string text))
  set-Strings rows key text h k v e = elim (Bool-cases (equal key k)) [
    | inl same ↦ cc (rw (get-set rows key k (string text), same) at e)
    | inr other ↦ h k v (rw (get-set rows key k (string text), other) at e)
  ]

  no_fields-Strings : Strings {N = N} no_fields
  unfolding get
  no_fields-Strings k v e = cc

  no_row : (key : Bytes) → get {N = N} no_fields key ≡ none
  unfolding get
  no_row key = refl

  row_value-if :
      (test : Bool) (fields : List Bytes) (found : Option (List Bytes))
      → (if test then row_value {N = N} (some fields) else row_value found)
        ≡ row_value (if test then some fields else found)
  row_value-if true fields found = refl
  row_value-if false fields found = refl

module _ {N : Type 0} (header : List Bytes) (name : Bytes) (names subsidiary : List Bytes)
    (primary_listed : AllListed header (name ∷ names))
    (subsidiary_listed : AllListed header subsidiary) where
  -- What one record does to the rows
  get-row :
      (values : List Bytes) (rows : Fields N) (f : Bytes) (key : List Bytes)
      (found : Option (List Bytes))
      → get rows (csv_compose_record (f ∷ key)) ≡ row_value found
      → get
          (set rows
            (csv_compose_record (columns header values (name ∷ names)))
            (string (csv_compose_record (columns header values subsidiary))))
          (csv_compose_record (f ∷ key))
        ≡ row_value (
            if same_fields (columns header values (name ∷ names)) (f ∷ key)
            then some (columns header values subsidiary)
            else found)
  unfolding columns
  get-row values rows f key found h =
      get-set rows (csv_compose_record (columns header values (name ∷ names)))
        (csv_compose_record (f ∷ key))
        (string (csv_compose_record (columns header values subsidiary)))
      ∙ rw (equal-csv_compose_record _ f (columns header values names) key)
          (rw h (row_value-if _ _ found))

  record_loop_lem :
      (records : List (List Bytes)) (rows : Fields N)
      → AllWide header records
      → Strings rows
      → Distinct rows
      → (result : Fields N) × (record_loop
            (length header)
            (indices header (name ∷ names))
            (indices header subsidiary)
            records
            rows
          ≡ ok result)
        × Strings result
        × Distinct result
        × ((f : Bytes) (key : List Bytes) (found : Option (List Bytes))
            → get rows (csv_compose_record (f ∷ key)) ≡ row_value found
            → get result (csv_compose_record (f ∷ key))
              ≡ row_value (last_row header (name ∷ names) subsidiary records (f ∷ key) found))
  unfolding record_loop last_row
  record_loop_lem [] rows w s d = (rows, refl, s, d, λ f key found h. h)
  record_loop_lem (values ∷ records) rows w s d =
      let key = csv_compose_record (columns header values (name ∷ names)) in
      let text = csv_compose_record (columns header values subsidiary) in
      let wide : (length header == length values) ≡ true = ground (arith, w.0) in
      let (result, run, s', d', rest) =
        record_loop_lem records (set rows key (string text)) w.1 (set-Strings rows key text s)
          (set-Distinct rows key (string text) d) in
      (
        result,
        rw wide (
            rw (fields_at_indices-columns header values (name ∷ names) w.0 primary_listed)
              (rw (fields_at_indices-columns header values subsidiary w.0 subsidiary_listed) run)),
        s',
        d',
        λ f k found h. rest f k _ (get-row values rows f k found h),
      )

  -- From a table whose records are as wide as its header, which has all primary and subsidiary fields
  -- and as many columns as these, `LCH_TableToJsonObject` makes an object of strings, each key once.
  -- Under the primary fields of a record, composed, stand the subsidiary fields, composed, of the last
  -- record with these primary fields; under those of no record stands nothing.
  pub table_to_json_object_lem :
      (records : List (List Bytes))
      → length header ≡ length (name ∷ names) + length subsidiary
      → AllWide header records
      → (rows : Fields N) × (table_to_json_object (header ∷ records) (name ∷ names) subsidiary
          ≡ ok (object rows))
        × Strings rows
        × Distinct rows
        × ((f : Bytes) (key : List Bytes)
            → get rows (csv_compose_record (f ∷ key))
              ≡ row_value (last_row header (name ∷ names) subsidiary records (f ∷ key) none))
  unfolding table_to_json_object
  table_to_json_object_lem records as_many wide =
      let some_primary : ltb 0 (length (name ∷ names)) ≡ true = ground arith in
      let counted : (length header == length (name ∷ names) + length subsidiary) ≡ true =
        ground (arith, as_many) in
      let (rows, run, s, d, found) = record_loop_lem records no_fields wide no_fields-Strings tt in
      (
        rows,
        rw some_primary (
            rw counted (
              rw (indices_of_fields-indices header (name ∷ names) primary_listed) (
                rw (indices_of_fields-indices header subsidiary subsidiary_listed) (rw run refl)))),
        s,
        d,
        λ f key. found f key none (no_row (csv_compose_record (f ∷ key))),
      )
