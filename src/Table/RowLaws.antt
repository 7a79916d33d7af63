-- ===== src/Table/RowLaws.antt =====
-- What `LCH_TableToJsonObject` makes of the records of a table.
use leech.Base.{
  ℕ, Bool, true, false, ◌&&◌, List, [], ◌∷◌, some, length, ltb, if◌then◌else◌, ◌≡◌, refl, sym, ap,
  ◌∙◌, arith, Bytes, ok, Bool-cases, inl, inr,
}
use leech.Buffer.{equal}
use leech.Buffer.Order.{equal_iff}
use leech.Json.Fields.{listed, equal_refl}
use leech.Csv.Total.{&&-true}
use leech.Csv.Composer.{csv_compose_record}
use leech.Csv.RoundTrip.{csv_compose_record-injective}
use leech.Table.Rows.{list_get, list_index, indices_of_fields, fields_at_indices}

-- The field of a record in the column of a name
unfoldable pub at_column : List Bytes → List Bytes → Bytes → Bytes
at_column (column ∷ header) (value ∷ values) name =
    let later = at_column header values name in if equal column name then value else later
at_column _ _ name = []

unfoldable pub columns : List Bytes → List Bytes → List Bytes → List Bytes
unfolding at_column
columns header values [] = []
columns header values (name ∷ names) = at_column header values name ∷ columns header values names

-- All names are those of columns.
abbrev pub AllListed : List Bytes → List Bytes → Type 0
AllListed header [] = Unit
AllListed header (name ∷ names) = (listed header name ≡ true) × AllListed header names

abbrev pub AllWide : List Bytes → List (List Bytes) → Type 0
AllWide header [] = Unit
AllWide header (values ∷ records) = (length header ≡ length values) × AllWide header records

unfoldable pub same_fields : List Bytes → List Bytes → Bool
same_fields [] [] = true
same_fields (a ∷ left) (b ∷ right) = equal a b && same_fields left right
same_fields _ _ = false

same_fields_iff : (left right : List Bytes) → same_fields left right ≡ true → left ≡ right
unfolding same_fields
same_fields_iff [] [] e = refl
same_fields_iff [] (b ∷ right) e = cc
same_fields_iff (a ∷ left) [] e = cc
same_fields_iff (a ∷ left) (b ∷ right) e =
    let (first, others) = &&-true (equal a b) (same_fields left right) e in
    ap (λ c. c ∷ left) ((equal_iff a b).0 first)
    ∙ ap (λ fields. b ∷ fields) (same_fields_iff left right others)

same_fields_refl : (fields : List Bytes) → same_fields fields fields ≡ true
unfolding same_fields
same_fields_refl [] = refl
same_fields_refl (a ∷ fields) = rw (equal_refl a) (same_fields_refl fields)

-- Composed records are equal as the records are.
pub equal-csv_compose_record :
    (f g : Bytes) (fields gs : List Bytes)
    → equal (csv_compose_record (f ∷ fields)) (csv_compose_record (g ∷ gs))
      ≡ same_fields (f ∷ fields) (g ∷ gs)
equal-csv_compose_record f g fields gs = elim (Bool-cases (same_fields (f ∷ fields) (g ∷ gs))) [
  | inl same ↦
      ap (λ other. equal (csv_compose_record (f ∷ fields)) (csv_compose_record other))
        (sym (same_fields_iff (f ∷ fields) (g ∷ gs) same))
      ∙ equal_refl (csv_compose_record (f ∷ fields))
      ∙ sym same
  | inr differ ↦
      elim (Bool-cases (equal (csv_compose_record (f ∷ fields)) (csv_compose_record (g ∷ gs)))) [
        | inr e ↦ e ∙ sym differ
        | inl e ↦
            let eq : f ∷ fields ≡ g ∷ gs =
              csv_compose_record-injective f g fields gs ((equal_iff _ _).0 e) in
            e ∙ sym (same_fields_refl (f ∷ fields)) ∙ ap (same_fields (f ∷ fields)) eq
      ]
]

list_index-lt :
    (header : List Bytes) (name : Bytes)
    → listed header name ≡ true
    → ltb (list_index header name) (length header) ≡ true
unfolding list_index
list_index-lt [] name h = cc
list_index-lt (column ∷ header) name h = elim (Bool-cases (equal column name)) [
  | inl e ↦ rw e (ground arith)
  | inr e ↦ let later = list_index-lt header name (rw e at h) in rw e (ground (arith, later))
]

list_get-list_index :
    (header values : List Bytes) (name : Bytes)
    → length header ≡ length values
    → listed header name ≡ true
    → list_get values (list_index header name) ≡ some (at_column header values name)
unfolding list_index at_column
list_get-list_index [] values name w h = cc
list_get-list_index (column ∷ header) [] name w h = ground arith
list_get-list_index (column ∷ header) (value ∷ values) name w h =
    elim (Bool-cases (equal column name)) [
      | inl e ↦ rw e refl
      | inr e ↦ rw e (list_get-list_index header values name (omega (arith, w)) (rw e at h))
    ]

abbrev pub indices : List Bytes → List Bytes → List ℕ
indices header [] = []
indices header (name ∷ names) = list_index header name ∷ indices header names

pub indices_of_fields-indices :
    (header names : List Bytes)
    → AllListed header names
    → indices_of_fields names header ≡ ok (indices header names)
unfolding indices_of_fields
indices_of_fields-indices header [] h = refl
indices_of_fields-indices header (name ∷ names) h =
    rw (list_index-lt header name h.0) (rw (indices_of_fields-indices header names h.1) refl)

pub fields_at_indices-columns :
    (header values names : List Bytes)
    → length header ≡ length values
    → AllListed header names
    → fields_at_indices (indices header names) values ≡ ok (columns header values names)
unfolding fields_at_indices columns
fields_at_indices-columns header values [] w h = refl
fields_at_indices-columns header values (name ∷ names) w h =
    rw (list_get-list_index header values name w h.0)
      (rw (fields_at_indices-columns header values names w h.1) refl)
