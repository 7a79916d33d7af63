-- ===== src/Table/Patch.antt =====
-- lib/table.c: `LCH_TablePatch`. The callbacks of the destination are outside of the program: what they
-- do is given by their answers to the calls, which may depend on all calls before. A string is its bytes
-- up to the null character.
use leech.Base.{
  Bool, List, [], ◌∷◌, ◌++◌, if◌then◌else◌, length, codes, Bytes, Result, ok, failed, aborted,
  out_of_fuel, ◌>>=◌, on_ok,
}
use leech.Buffer.{equal}
use leech.CString.{string_equal}
use leech.ListBuffer.{list_copy, list_insert}
use leech.Json.Syntax.{Fields, object, keys}
use leech.Json.Access.{object_get_string}
use leech.Csv.Parser.{csv_parse_record}
use leech.Leech.Config.{TableInfo}

-- A call of a callback of the destination
pub data Call : Type 0 where
  connect : Bytes → Call
  create_table : Bytes → List Bytes → List Bytes → Call
  begin_tx rollback_tx commit_tx disconnect : Call
  truncate_table : Bytes → Bytes → Bytes → Call
  delete_record insert_record : Bytes → List Bytes → List Bytes → Call
  update_record : Bytes → List Bytes → List Bytes → List Bytes → List Bytes → Call

-- The calls so far, the last first, and the result
abbrev pub Run : Type 0
Run = List Call × Result (Unit {0})

-- A step that failed is handled, and another outcome ends the run.
abbrev pub or_else : Run → (List Call → Run) → (List Call → Run) → Run
or_else (calls, ok tt) handle next = next calls
or_else (calls, failed) handle next = handle calls
or_else (calls, aborted) handle next = (calls, aborted)
or_else (calls, out_of_fuel) handle next = (calls, out_of_fuel)

abbrev pub give_up : List Call → Run
give_up calls = (calls, failed)

-- The connection is closed, and the patch has failed.
abbrev pub disconnected : List Call → Run
disconnected calls = (disconnect ∷ calls, failed)

-- The same behind a rollback, whether this succeeds or not
abbrev pub rolled_back : List Call → Run
rolled_back calls = disconnected (rollback_tx ∷ calls)

-- `ConcatenateFields` and `ParseConcatenateFields`
unfoldable pub parse_concatenate_fields : Bytes → Bytes → Result (List Bytes)
parse_concatenate_fields left_csv right_csv = do
  left_lst ← (if equal left_csv [] then ok [] else csv_parse_record left_csv)
  right_lst ← csv_parse_record right_csv
  ok (left_lst ++ right_lst)

-- The copy of a list of fields with one more before the others. The copy of a list without any has no
-- room for it, and the growth of lib/list.c never ends.
unfoldable pub with_field : Bytes → List Bytes → Result (List Bytes)
with_field field fields = do
  copy ← list_copy 1 (record { elements = fields; capacity = length fields }) ok
  copy ← list_insert 1 copy 0 field
  ok copy.elements

module _ (answer : List Call → Bool) where
  unfoldable pub call : Call → List Call → Run
  call next calls = (next ∷ calls, if answer (next ∷ calls) then ok tt else failed)

  module _ (table_info : TableInfo) where
    -- `TablePatchDeletes`
    unfoldable pub patch_deletes : List Bytes → Bytes → List Bytes → List Call → Run
    unfolding call
    patch_deletes primary_fields host_id [] calls = (calls, ok tt)
    patch_deletes primary_fields host_id (key ∷ rest) calls =
        on_ok calls (csv_parse_record key) (λ primary_values.
          or_else
            (call
              (delete_record table_info.dst_table_name primary_fields (host_id ∷ primary_values))
              calls)
            give_up (patch_deletes primary_fields host_id rest))

    module _ {N : Type 0} where
      -- `TablePatchUpdates`
      unfoldable pub patch_updates : List Bytes → Bytes → Fields N → List Bytes → List Call → Run
      unfolding call
      patch_updates primary_fields host_value updates [] calls = (calls, ok tt)
      patch_updates primary_fields host_value updates (key ∷ rest) calls =
          on_ok calls
            (do
              primary_values ← csv_parse_record key
              value ← object_get_string (object updates) key
              subsidiary_values ← csv_parse_record value
              ok (primary_values, subsidiary_values))
            (λ (primary_values, subsidiary_values).
              or_else
                (call
                  (update_record table_info.dst_table_name primary_fields
                    (host_value ∷ primary_values) table_info.subsidiary_fields subsidiary_values)
                  calls)
                give_up (patch_updates primary_fields host_value updates rest))

      -- `TablePatchInserts`
      unfoldable pub patch_inserts : List Bytes → Bytes → Fields N → List Bytes → List Call → Run
      unfolding call parse_concatenate_fields
      patch_inserts all_fields host_id inserts [] calls = (calls, ok tt)
      patch_inserts all_fields host_id inserts (key ∷ rest) calls =
          on_ok calls
            (do
              value ← object_get_string (object inserts) key
              (elim table_info.subsidiary_fields [
                | [] ↦ csv_parse_record key
                | _ ∷ _ ↦ parse_concatenate_fields key value
              ]))
            (λ values.
              or_else
                (call (insert_record table_info.dst_table_name all_fields (host_id ∷ values)) calls)
                give_up (patch_inserts all_fields host_id inserts rest))

      -- `LCH_TablePatch` from the inserts on
      unfoldable pub patch_end : Bytes → Bytes → Fields N → List Call → Run
      unfolding patch_inserts with_field
      patch_end field value inserts calls =
          on_ok calls (with_field field table_info.all_fields) (λ all_fields.
            or_else (patch_inserts all_fields value inserts (keys inserts) calls) rolled_back
              (λ calls.
                or_else (call commit_tx calls) disconnected (λ calls. (disconnect ∷ calls, ok tt))))

      -- `LCH_TablePatch` in the transaction
      unfoldable pub patch_transaction :
          Bytes → Bytes → Bytes → List Bytes → Fields N → Fields N → Fields N → List Call → Run
      unfolding patch_end patch_deletes patch_updates
      patch_transaction type field value primary_fields inserts deletes updates calls =
          or_else
            (if string_equal type (codes "rebase")
              then call (truncate_table table_info.dst_table_name field value) calls
              else (calls, ok tt))
            disconnected
            (λ calls.
              or_else (patch_deletes primary_fields value (keys deletes) calls) rolled_back
                (λ calls.
                  or_else (patch_updates primary_fields value updates (keys updates) calls)
                    rolled_back (patch_end field value inserts)))

      -- `LCH_TablePatch`
      unfoldable pub table_patch : Bytes → Bytes → Bytes → Fields N → Fields N → Fields N → Run
      unfolding patch_transaction with_field
      table_patch type field value inserts deletes updates =
          or_else (call (connect table_info.dst_params) []) give_up (λ calls.
            on_ok calls (with_field field table_info.primary_fields) (λ primary_fields.
              or_else
                (call
                  (create_table table_info.dst_table_name primary_fields
                    table_info.subsidiary_fields)
                  calls)
                disconnected
                (λ calls.
                  or_else (call begin_tx calls) disconnected
                    (patch_transaction type field value primary_fields inserts deletes updates))))
