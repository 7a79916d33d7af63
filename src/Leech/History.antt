-- ===== src/Leech/History.antt =====
-- lib/leech.c: `LCH_History`. The tests on two numbers are parameters, and so are their texts. The array
-- of the history is changed in place, within the response.
use leech.Base.{
  ℕ, zero, suc, Bool, List, [], ◌∷◌, none, some, length, ◌==◌, if◌then◌else◌, codes, Bytes, Result,
  ok, aborted, out_of_fuel, ◌>>=◌, ◌>>◌, assert, or_abort,
}
use leech.CString.{until_null, string_equal}
use leech.Json.Syntax.{
  Json, Items, Fields, object, array, string, no_items, item, no_fields, set, has_key,
}
use leech.Json.Access.{
  object_get_string, object_set, object_set_string, object_set_number, expect_object,
}
use leech.Json.Arrays.{items_append}
use leech.Json.Composer.{json_compose}
use leech.Csv.Parser.{csv_parse_record}
use leech.Csv.Composer.{csv_compose_record}
use leech.Delta.Names.{id_key}
use leech.Delta.Create.{get_inserts, get_deletes, get_updates}
use leech.Head.{Files, read_file, head_get, head_name}
use leech.Block.Create.{block_get_parent_id, block_get_timestamp, block_get_payload}
use leech.Leech.Config.{Instance, instance_get_table}

module _ {N : Type 0} where
  -- The loops that pair the names of fields with their values
  unfoldable pub pair_fields : List Bytes → List Bytes → Fields N → Result (Fields N)
  pair_fields (name ∷ names) (value ∷ values) entries =
      pair_fields names values (set entries name (string value))
  pair_fields [] (value ∷ values) entries = aborted
  pair_fields names [] entries = ok entries

  module _ (config : Instance) (table_id : Bytes) where
    -- `HistoryAppendRecord`
    unfoldable pub history_append_record : Items N → Bytes → N → Bytes → Bytes → Result (Items N)
    unfolding pair_fields instance_get_table
    history_append_record history block_id timestamp operation subsidiary_value = do
      entry ← object_set_string (object no_fields) (codes "block_id") block_id
      entry ← object_set_number entry (codes "timestamp") timestamp
      entry ← object_set_string entry (codes "operation") operation
      subsidiary_fields ← csv_parse_record subsidiary_value
      table_info ← or_abort (instance_get_table config table_id)
      assert (length subsidiary_fields == length table_info.subsidiary_fields)
      subsidiary ← pair_fields table_info.subsidiary_fields subsidiary_fields no_fields
      entry ← object_set entry (codes "subsidiary") (object subsidiary)
      ok (items_append history entry)

    module _ (primary_key : Bytes) where
      -- What a delta of the table does to the key
      unfoldable pub record_delta : Fields N → Bytes → N → Items N → Result (Items N)
      unfolding history_append_record
      record_delta delta block_id timestamp history = do
        inserts ← get_inserts (object delta)
        updates ← get_updates (object delta)
        deletes ← get_deletes (object delta)
        (if has_key inserts primary_key
            then (do
              value ← object_get_string (object inserts) primary_key
              history_append_record history block_id timestamp (codes "insert") value)
            else if has_key deletes primary_key
            then (do
              value ← object_get_string (object deletes) primary_key
              history_append_record history block_id timestamp (codes "delete") value)
            else if has_key updates primary_key
            then (do
              value ← object_get_string (object updates) primary_key
              history_append_record history block_id timestamp (codes "update") value)
            else ok history)

      -- The loop over the deltas of a block
      unfoldable pub record_deltas : Items N → Bytes → N → Items N → Result (Items N)
      unfolding record_delta
      record_deltas no_items block_id timestamp history = ok history
      record_deltas (item element payload) block_id timestamp history = do
        delta ← expect_object element
        id ← object_get_string (object delta) id_key
        history ←
            (if string_equal (until_null id) table_id
              then record_delta delta block_id timestamp history
              else ok history)
        record_deltas payload block_id timestamp history

      module _ (less at_least : N → N → Bool) (blocks : Files)
          (load_block : Bytes → Result (Json N)) (from to : N) where
        -- `HistoryFindRecord`
        unfoldable pub history_find_record : ℕ → Bytes → Items N → Result (Items N)
        unfolding record_deltas
        history_find_record zero block_id history = out_of_fuel
        history_find_record (suc fuel) block_id history = elim (read_file blocks block_id) [
          | none ↦ ok history
          | some raw ↦ do
            block ← load_block block_id
            parent_id ← block_get_parent_id block
            timestamp ← block_get_timestamp block
            (if less timestamp from
                then ok history
                else if at_least timestamp to
                then history_find_record fuel parent_id history
                else do
                  payload ← block_get_payload block
                  history ← record_deltas payload block_id timestamp history
                  history_find_record fuel parent_id history)
        ]

  -- `LCH_History`, with what `LCH_InstanceLoad` returns
  unfoldable pub history :
      (N → Bytes)
      → (N → N → Bool)
      → (N → N → Bool)
      → (Bytes → Result (Json N))
      → Files
      → Files
      → Result Instance
      → ℕ
      → Bytes
      → List Bytes
      → N
      → N
      → Result Bytes
  unfolding history_find_record
  history print less at_least load_block work_dir blocks loaded fuel table_id primary_fields from
        to =
      do
        config ← loaded
        response ← object_set (object no_fields) (codes "history") (array no_items)
        table_info ← or_abort (instance_get_table config table_id)
        assert (length primary_fields == length table_info.primary_fields)
        primary ← pair_fields table_info.primary_fields primary_fields no_fields
        response ← object_set response (codes "primary") (object primary)
        response ← object_set_number response (codes "from") from
        response ← object_set_number response (codes "to") to
        response ← object_set_string response (codes "table_id") table_id
        block_id ← head_get work_dir head_name
        found ←
            history_find_record config table_id (csv_compose_record primary_fields) less at_least
              blocks load_block from to fuel block_id no_items
        response ← object_set response (codes "history") (array found)
        ok (json_compose print response config.pretty_print)
