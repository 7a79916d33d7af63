-- ===== src/Table/Synced.antt =====
-- lib/table.c: what `LCH_TablePatch` makes of the records of a destination that refuses nothing.
use leech.Base.{
  ℕ, suc, List, [], ◌∷◌, Option, some, none, if◌then◌else◌, length, codes, ◌≡◌, ◌≢◌, refl, ap, ◌∙◌,
  Bytes, Bool-cases, inl, inr, ok,
}
use leech.Buffer.{equal}
use leech.Buffer.Order.{equal_iff}
use leech.CString.{string_equal}
use leech.Json.Syntax.{Json, Fields, get, keys}
use leech.Json.Fields.{listed, is_some, has_key-get, listed-keys, equal_refl}
use leech.Csv.Composer.{csv_compose_record}
use leech.Delta.Merge.{Operations}
use leech.Delta.Cells.{Cell, cell}
use leech.Delta.Compose.{patched, Fits, untouched, inserts, deletes, updates}
use leech.Delta.Correct.{patch, Applies}
use leech.Leech.Config.{TableInfo}
use leech.Leech.Carries.{State}
use leech.Table.Patch.{
  Call, connect, create_table, begin_tx, commit_tx, disconnect, truncate_table, call, with_field,
  patch_transaction, table_patch,
}
use leech.Table.Transaction.{with_field-ok}
use leech.Table.Destination.{
  Records, after_calls, accepts, IsKey, All, row, changed_row, Rows, patch_deletes-Changes,
  patch_updates-Changes, patch_inserts-Changes,
}

-- What the operations under one key make of a record: a delete, then an update, then an insert
abbrev after_cell : {N : Type 0} → Cell N → Option (List Bytes) → Option (List Bytes)
after_cell c x =
    let deleted = if is_some c.deleted then none else x in
    let updated = if is_some c.updated then changed_row deleted (row c.updated) else deleted in
    if is_some c.inserted then row c.inserted else updated

changed_row-held : (x changes : Option (List Bytes)) → x ≢ none → changed_row x changes ≡ changes
changed_row-held none changes h = absurd (h refl)
changed_row-held (some old) changes h = refl

after_cell-patched :
    {N : Type 0} (c : Cell N) (b : Option (Json N))
    → Fits c b
    → ((v : Json N) → b ≡ some v → row (some v) ≢ none)
    → after_cell c (row b) ≡ row (patched c b)
after_cell-patched c b (untouched e) readable = rw e refl
after_cell-patched c b (inserts v e e' s) readable = rw e refl
after_cell-patched c b (deletes v w e e' s o) readable = rw e refl
after_cell-patched c b (updates v w e e' s s') readable =
    rw e (rw e' (changed_row-held (row (some w)) (row (some v)) (readable w e')))

listed-is_some :
    {N : Type 0} (entries : Fields N) (key : Bytes)
    → listed (keys entries) key ≡ is_some (get entries key)
listed-is_some entries key = listed-keys entries key ∙ has_key-get entries key

module _ {N : Type 0} (table_info : TableInfo) (type field value : Bytes)
    (operations : Operations N) (first_primary first_field first_subsidiary : Bytes)
    (more_primary more_fields more_subsidiary : List Bytes) (dest : Records) where
  -- The calls up to the transaction
  abbrev opening : List Call
  opening =
      begin_tx
      ∷ create_table table_info.dst_table_name (field ∷ first_primary ∷ more_primary)
          table_info.subsidiary_fields
      ∷ connect table_info.dst_params
      ∷ []

  abbrev truncation : List Call
  truncation =
      if string_equal type (codes "rebase")
      then truncate_table table_info.dst_table_name field value ∷ opening
      else opening

  abbrev width : ℕ
  width = length table_info.primary_fields

  opened :
      (if string_equal type (codes "rebase")
        then call accepts (truncate_table table_info.dst_table_name field value) opening
        else (opening, ok tt))
      ≡ (truncation, ok tt)
  unfolding call
  opened = elim (Bool-cases (string_equal type (codes "rebase"))) [
    | inl e ↦ rw e refl
    | inr e ↦ rw e refl
  ]

  module _ (ins : Rows value width dest table_info operations.inserts (keys operations.inserts))
      (del : All (IsKey width) (keys operations.deletes))
      (upd : Rows value width dest table_info operations.updates (keys operations.updates)) where
    transaction :
        table_info.all_fields ≡ first_field ∷ more_fields
        → table_info.subsidiary_fields ≡ first_subsidiary ∷ more_subsidiary
        → (primary_fields : List Bytes)
        → (calls : List Call) × (patch_transaction accepts table_info type field value
              primary_fields operations.inserts operations.deletes operations.updates opening
            ≡ (disconnect ∷ commit_tx ∷ calls, ok tt))
          × ((host f : Bytes) (fs : List Bytes)
              → after_calls (suc width) calls dest (host ∷ f ∷ fs) ≡ (
                  if equal host value
                  then after_cell
                      (cell operations (csv_compose_record (f ∷ fs)))
                      (after_calls (suc width) truncation dest (value ∷ f ∷ fs))
                  else after_calls (suc width) truncation dest (host ∷ f ∷ fs)))
    unfolding patch_transaction
    transaction e e' primary_fields =
        let (c1, run1, (own1, others1)) =
          patch_deletes-Changes value width dest table_info primary_fields (keys operations.deletes)
            truncation del in
        let (c2, run2, (own2, others2)) =
          patch_updates-Changes value width dest table_info operations.updates primary_fields
            (keys operations.updates) c1 upd in
        let (c3, run3, (own3, others3)) =
          patch_inserts-Changes value width dest table_info operations.inserts first_subsidiary
            more_subsidiary (field ∷ first_field ∷ more_fields) (keys operations.inserts) c2 e'
            ins in
        (
          c3,
          rw opened (
              rw run1 (
                rw run2 (
                  rw (ap (with_field field) e ∙ with_field-ok field first_field more_fields)
                    (rw run3 refl)))),
          λ host f fs.
              let key = csv_compose_record (f ∷ fs) in
              elim (Bool-cases (equal host value)) [
                | inl same ↦ rw same (
                    rw ((equal_iff host value).0 same) (
                      own3 f fs
                      ∙ rw (own2 f fs) (
                          rw (own1 f fs) (
                            rw (listed-is_some operations.deletes key) (
                              rw (listed-is_some operations.updates key)
                                (rw (listed-is_some operations.inserts key) refl))))))
                | inr other ↦ rw other (
                    others3 host (f ∷ fs) other
                    ∙ others2 host (f ∷ fs) other
                    ∙ others1 host (f ∷ fs) other)
              ],
        )

    -- What stands in the destination once the transaction has begun, and the table is truncated for a
    -- rebase
    abbrev pub start : State N → State N
    start from = if string_equal type (codes "rebase") then (λ key. none) else from

    truncation-start :
        (from : State N) (host f : Bytes) (fs : List Bytes)
        → ((f : Bytes) (fs : List Bytes)
            → dest (value ∷ f ∷ fs) ≡ row (from (csv_compose_record (f ∷ fs))))
        → after_calls (suc width) truncation dest (host ∷ f ∷ fs) ≡ (
            if equal host value
            then row (start from (csv_compose_record (f ∷ fs)))
            else dest (host ∷ f ∷ fs))
    truncation-start from host f fs holds = elim (Bool-cases (string_equal type (codes "rebase"))) [
      | inl e ↦ rw e (elim (Bool-cases (equal host value)) [
        | inl same ↦ rw same refl
        | inr other ↦ rw other refl
      ])
      | inr e ↦ rw e (elim (Bool-cases (equal host value)) [
        | inl same ↦ rw same (rw ((equal_iff host value).0 same) (holds f fs))
        | inr other ↦ rw other refl
      ])
    ]

    start-readable :
        (from : State N) (key : Bytes)
        → ((key : Bytes) (v : Json N) → from key ≡ some v → row (some v) ≢ none)
        → (v : Json N) → start from key ≡ some v
        → row (some v) ≢ none
    start-readable from key readable v = elim (Bool-cases (string_equal type (codes "rebase"))) [
      | inl e ↦ rw e (λ h. cc)
      | inr e ↦ rw e (readable key v)
    ]

    -- A destination that refuses nothing holds the records of a host in some state. If operations apply to
    -- this state, or to that without records for a rebase, then `LCH_TablePatch` succeeds and leaves
    -- the records in the state that the operations make of it; those of other hosts stay. The keys
    -- of the operations are composed of as many fields as the table has primary fields, and not of
    -- one empty field; their values and those of the state are composed of fields. The table has
    -- primary and subsidiary fields.
    pub table_patch-patch :
        (from : State N)
        → table_info.primary_fields ≡ first_primary ∷ more_primary
        → table_info.all_fields ≡ first_field ∷ more_fields
        → table_info.subsidiary_fields ≡ first_subsidiary ∷ more_subsidiary
        → Applies operations (start from)
        → ((key : Bytes) (v : Json N) → from key ≡ some v → row (some v) ≢ none)
        → ((f : Bytes) (fs : List Bytes)
            → dest (value ∷ f ∷ fs) ≡ row (from (csv_compose_record (f ∷ fs))))
        → (calls : List Call) × (table_patch accepts table_info type field value operations.inserts
              operations.deletes operations.updates
            ≡ (calls, ok tt))
          × ((host f : Bytes) (fs : List Bytes)
              → after_calls (suc width) calls dest (host ∷ f ∷ fs) ≡ (
                  if equal host value
                  then row (patch operations (start from) (csv_compose_record (f ∷ fs)))
                  else dest (host ∷ f ∷ fs)))
    unfolding table_patch
    table_patch-patch from p e e' applies readable holds =
        let (calls, run, after) = transaction e e' (field ∷ first_primary ∷ more_primary) in
        (
          disconnect ∷ commit_tx ∷ calls,
          rw (ap (with_field field) p ∙ with_field-ok field first_primary more_primary) run,
          λ host f fs.
              let key = csv_compose_record (f ∷ fs) in
              after host f fs
              ∙ rw (truncation-start from host f fs holds) (
                  rw (truncation-start from value f fs holds)
                    (elim (Bool-cases (equal host value)) [
                      | inl same ↦ rw same (
                          rw (equal_refl value) (
                            after_cell-patched (cell operations key) (start from key) (applies key)
                              (start-readable from key readable)))
                      | inr other ↦ rw other refl
                    ])),
        )
