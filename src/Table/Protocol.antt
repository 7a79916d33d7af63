-- ===== src/Table/Protocol.antt =====
-- lib/table.c: what calls `LCH_TablePatch` makes, whatever the destination answers.
use leech.Base.{
  Bool, true, false, List, [], ◌∷◌, ◌≡◌, Bytes, Bool-cases, Option-cases, inl, inr, Result, ok,
  failed, on_ok, Returns, holds, refused, Returns-bind, Returns-if,
}
use leech.Buffer.{equal}
use leech.Csv.Total.{parse_record-AfterRecord}
use leech.Json.Syntax.{
  Json, Fields, null, true_value, false_value, string, number, array, object, get,
}
use leech.Json.Access.{object_get_string, expect_string}
use leech.Csv.Parser.{start, csv_parse_record}
use leech.Leech.Config.{TableInfo}
use leech.Table.Patch.{
  Call, connect, create_table, begin_tx, rollback_tx, commit_tx, disconnect, truncate_table,
  delete_record, insert_record, update_record, Run, or_else, parse_concatenate_fields, call,
  patch_deletes, patch_updates, patch_inserts,
}

module _ (answer : List Call → Bool) where
  -- With a connection, and with a table
  pub data Connected : List Call → Type 0 where
    connected :
        {params : Bytes} → answer (connect params ∷ []) ≡ true → Connected (connect params ∷ [])

  pub data Created : List Call → Type 0 where
    created :
        {table : Bytes} {fields others : List Bytes} {calls : List Call}
        → Connected calls
        → answer (create_table table fields others ∷ calls) ≡ true
        → Created (create_table table fields others ∷ calls)

  -- The destination refused to create the table or to begin a transaction.
  pub data NotBegun : List Call → Type 0 where
    not_created :
        {table : Bytes} {fields others : List Bytes} {calls : List Call}
        → Connected calls
        → answer (create_table table fields others ∷ calls) ≡ false
        → NotBegun (create_table table fields others ∷ calls)
    not_begun :
        {calls : List Call}
        → Created calls
        → answer (begin_tx ∷ calls) ≡ false
        → NotBegun (begin_tx ∷ calls)

  -- A transaction has begun, and the destination has granted each change of the records since.
  pub data InTransaction : List Call → Type 0 where
    begun :
        {calls : List Call}
        → Created calls
        → answer (begin_tx ∷ calls) ≡ true
        → InTransaction (begin_tx ∷ calls)
    truncated :
        {table field value : Bytes} {calls : List Call}
        → InTransaction calls
        → answer (truncate_table table field value ∷ calls) ≡ true
        → InTransaction (truncate_table table field value ∷ calls)
    deleted :
        {table : Bytes} {fields values : List Bytes} {calls : List Call}
        → InTransaction calls
        → answer (delete_record table fields values ∷ calls) ≡ true
        → InTransaction (delete_record table fields values ∷ calls)
    updated :
        {table : Bytes} {fields values others changes : List Bytes} {calls : List Call}
        → InTransaction calls
        → answer (update_record table fields values others changes ∷ calls) ≡ true
        → InTransaction (update_record table fields values others changes ∷ calls)
    inserted :
        {table : Bytes} {fields values : List Bytes} {calls : List Call}
        → InTransaction calls
        → answer (insert_record table fields values ∷ calls) ≡ true
        → InTransaction (insert_record table fields values ∷ calls)

  -- Why the records are not changed any further: a record cannot be read, or the destination refused
  -- to change the last one.
  pub data Stopped : List Call → Type 0 where
    unreadable : {calls : List Call} → InTransaction calls → Stopped calls
    refused_delete :
        {table : Bytes} {fields values : List Bytes} {calls : List Call}
        → InTransaction calls
        → answer (delete_record table fields values ∷ calls) ≡ false
        → Stopped (delete_record table fields values ∷ calls)
    refused_update :
        {table : Bytes} {fields values others changes : List Bytes} {calls : List Call}
        → InTransaction calls
        → answer (update_record table fields values others changes ∷ calls) ≡ false
        → Stopped (update_record table fields values others changes ∷ calls)
    refused_insert :
        {table : Bytes} {fields values : List Bytes} {calls : List Call}
        → InTransaction calls
        → answer (insert_record table fields values ∷ calls) ≡ false
        → Stopped (insert_record table fields values ∷ calls)

  -- The runs of a patch that is done: no connection, a connection that is closed before a transaction
  -- has begun, one that is closed while it is open, since the destination refused to truncate the table,
  -- one that is closed behind a rollback or a commit that the destination refused, and one that is
  -- closed behind a commit. Only the last succeeds.
  pub data Done : Run → Type 0 where
    not_connected :
        {params : Bytes} → answer (connect params ∷ []) ≡ false → Done (connect params ∷ [], failed)
    no_transaction : {calls : List Call} → NotBegun calls → Done (disconnect ∷ calls, failed)
    left_open :
        {table field value : Bytes} {calls : List Call}
        → InTransaction calls
        → answer (truncate_table table field value ∷ calls) ≡ false
        → Done (disconnect ∷ truncate_table table field value ∷ calls, failed)
    undone : {calls : List Call} → Stopped calls → Done (disconnect ∷ rollback_tx ∷ calls, failed)
    not_committed :
        {calls : List Call}
        → InTransaction calls
        → answer (commit_tx ∷ calls) ≡ false
        → Done (disconnect ∷ commit_tx ∷ calls, failed)
    committed :
        {calls : List Call}
        → InTransaction calls
        → answer (commit_tx ∷ calls) ≡ true
        → Done (disconnect ∷ commit_tx ∷ calls, ok tt)

-- A step has succeeded or failed, and neither run into an assertion nor out of fuel.
pub data Ran (P Q : List Call → Type 0) : Run → Type 0 where
  did : {calls : List Call} → P calls → Ran P Q (calls, ok tt)
  did_not : {calls : List Call} → Q calls → Ran P Q (calls, failed)

module _ {P Q : List Call → Type 0} where
  pub or_else-Ran :
      (R : Run → Type 0) {run : Run} {handle next : List Call → Run}
      → Ran P Q run
      → ((calls : List Call) → Q calls → R (handle calls))
      → ((calls : List Call) → P calls → R (next calls))
      → R (or_else run handle next)
  or_else-Ran R (did {calls} p) on_failure on_success = on_success calls p
  or_else-Ran R (did_not {calls} q) on_failure on_success = on_failure calls q

  on_ok-Ran :
      {A : Type 0} {r : Result A} {S : A → Type 0} (calls : List Call) {next : A → Run}
      → Returns S r
      → Q calls
      → ((a : A) → Ran P Q (next a))
      → Ran P Q (on_ok calls r next)
  on_ok-Ran calls (holds {a} h) q on_success = on_success a
  on_ok-Ran calls refused q on_success = did_not q

  pub call-Ran :
      (answer : List Call → Bool) (next : Call) (calls : List Call)
      → (answer (next ∷ calls) ≡ true → P (next ∷ calls))
      → (answer (next ∷ calls) ≡ false → Q (next ∷ calls))
      → Ran P Q (call answer next calls)
  unfolding call
  call-Ran answer next calls on_success on_failure = elim (Bool-cases (answer (next ∷ calls))) [
    | inl e ↦ rw e (did (on_success e))
    | inr e ↦ rw e (did_not (on_failure e))
  ]

-- A call that returns, whatever its value
abbrev pub Any : {A : Type 0} → A → Type 0
Any a = Unit

csv_parse_record-Returns : (csv : Bytes) → Returns Any (csv_parse_record csv)
unfolding csv_parse_record
csv_parse_record-Returns csv =
    Returns-bind (parse_record-AfterRecord (start csv)) (λ (fields, parser) h. holds tt)

expect_string-Returns : {N : Type 0} (v : Json N) → Returns Any (expect_string v)
expect_string-Returns (string s) = holds tt
expect_string-Returns null = refused
expect_string-Returns true_value = refused
expect_string-Returns false_value = refused
expect_string-Returns (number n) = refused
expect_string-Returns (array items) = refused
expect_string-Returns (object entries) = refused

pub object_get_string-Returns :
    {N : Type 0} (fields : Fields N) (key : Bytes)
    → Returns Any (object_get_string (object fields) key)
object_get_string-Returns entries key = elim (Option-cases (get entries key)) [
  | inl e ↦ rw e refused
  | inr (v, e) ↦ rw e (expect_string-Returns v)
]

pub Any-holds : {A : Type 0} {a : A} → Returns Any (ok a)
Any-holds = holds tt

parse_concatenate_fields-Returns :
    (left_csv right_csv : Bytes) → Returns Any (parse_concatenate_fields left_csv right_csv)
unfolding parse_concatenate_fields
parse_concatenate_fields-Returns left_csv right_csv =
    Returns-bind
      (Returns-if (equal left_csv []) (λ e. holds tt) (λ e. csv_parse_record-Returns left_csv))
      (λ left_lst h. Returns-bind (csv_parse_record-Returns right_csv) (λ right_lst h'. holds tt))

insert_values-Returns :
    (subsidiary_fields : List Bytes) (key value : Bytes)
    → Returns Any (elim subsidiary_fields [
      | [] ↦ csv_parse_record key
      | _ ∷ _ ↦ parse_concatenate_fields key value
    ])
insert_values-Returns [] key value = csv_parse_record-Returns key
insert_values-Returns (field ∷ fields) key value = parse_concatenate_fields-Returns key value

module _ (answer : List Call → Bool) (table_info : TableInfo) where
  pub patch_deletes-Ran :
      (primary_fields : List Bytes) (host_id : Bytes) (rest : List Bytes) (calls : List Call)
      → InTransaction answer calls
      → Ran
          (InTransaction answer)
          (Stopped answer)
          (patch_deletes answer table_info primary_fields host_id rest calls)
  unfolding patch_deletes
  patch_deletes-Ran primary_fields host_id [] calls t = did t
  patch_deletes-Ran primary_fields host_id (key ∷ rest) calls t =
      on_ok-Ran calls (csv_parse_record-Returns key) (unreadable t) (λ primary_values.
        or_else-Ran (Ran (InTransaction answer) (Stopped answer))
          (call-Ran answer _ calls (deleted t) (refused_delete t)) (λ calls t'. did_not t')
          (λ calls t'. patch_deletes-Ran primary_fields host_id rest calls t'))

  module _ {N : Type 0} where
    pub patch_updates-Ran :
        (primary_fields : List Bytes) (host_value : Bytes) (updates : Fields N) (rest : List Bytes)
        (calls : List Call)
        → InTransaction answer calls
        → Ran
            (InTransaction answer)
            (Stopped answer)
            (patch_updates answer table_info primary_fields host_value updates rest calls)
    unfolding patch_updates
    patch_updates-Ran primary_fields host_value updates [] calls t = did t
    patch_updates-Ran primary_fields host_value updates (key ∷ rest) calls t =
        on_ok-Ran calls
          (Returns-bind (csv_parse_record-Returns key) (λ primary_values h.
            Returns-bind (object_get_string-Returns updates key) (λ value h'.
              Returns-bind (csv_parse_record-Returns value) (λ subsidiary_values h''. Any-holds))))
          (unreadable t)
          (λ (primary_values, subsidiary_values).
            or_else-Ran (Ran (InTransaction answer) (Stopped answer))
              (call-Ran answer _ calls (updated t) (refused_update t)) (λ calls t'. did_not t')
              (λ calls t'. patch_updates-Ran primary_fields host_value updates rest calls t'))

    pub patch_inserts-Ran :
        (all_fields : List Bytes) (host_id : Bytes) (inserts : Fields N) (rest : List Bytes)
        (calls : List Call)
        → InTransaction answer calls
        → Ran
            (InTransaction answer)
            (Stopped answer)
            (patch_inserts answer table_info all_fields host_id inserts rest calls)
    unfolding patch_inserts
    patch_inserts-Ran all_fields host_id inserts [] calls t = did t
    patch_inserts-Ran all_fields host_id inserts (key ∷ rest) calls t =
        on_ok-Ran calls
          (Returns-bind (object_get_string-Returns inserts key)
            (λ value h. insert_values-Returns table_info.subsidiary_fields key value))
          (unreadable t)
          (λ values.
            or_else-Ran (Ran (InTransaction answer) (Stopped answer))
              (call-Ran answer _ calls (inserted t) (refused_insert t)) (λ calls t'. did_not t')
              (λ calls t'. patch_inserts-Ran all_fields host_id inserts rest calls t'))
