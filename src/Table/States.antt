-- ===== src/Table/States.antt =====
-- lib/table.c: the states of a table. The new state is read by the callbacks of the source, which a
-- library outside of the program provides; the old state is a snapshot in the work directory.
use leech.Base.{ℕ, Bool, List, Option, some, none, Bytes, Result, ok, ◌>>=◌, or_fail}
use leech.Json.Syntax.{Json, object, no_fields}
use leech.Json.Parser.{json_parse}
use leech.Json.Composer.{json_compose}
use leech.Head.{Files, read_file, write_file}
use leech.Leech.Config.{TableInfo}
use leech.Table.Rows.{table_to_json_object}

-- The callbacks of a source. A connection stands for what a callback can change; `disconnect` is left
-- out, since nothing is read behind it.
pub record Source (Conn : Type 0) : Type 0 where
  pub connect : Bytes → Option Conn
  pub create_table : Conn → Bytes → List Bytes → List Bytes → Option Conn
  pub get_table : Conn → Bytes → List Bytes → Option (List (List Bytes))

-- `LCH_TableInfoLoadNewState`
unfoldable pub load_new_state : {N Conn : Type 0} → Source Conn → TableInfo → Result (Json N)
load_new_state source table_info = do
  conn ← or_fail (source.connect table_info.src_params)
  conn ← or_fail (
      source.create_table conn table_info.src_table_name table_info.primary_fields
        table_info.subsidiary_fields)
  table ← or_fail (source.get_table conn table_info.src_table_name table_info.all_fields)
  table_to_json_object table table_info.primary_fields table_info.subsidiary_fields

-- The state in the contents of a snapshot
abbrev pub snapshot_state : {N : Type 0} → (Bytes → Option (N × ℕ)) → Option Bytes → Result (Json N)
snapshot_state sscanf (some contents) = json_parse sscanf contents
snapshot_state sscanf none = ok (object no_fields)

-- `LCH_TableInfoLoadOldState`, on the directory of the snapshots
unfoldable pub load_old_state :
    {N : Type 0} → (Bytes → Option (N × ℕ)) → Files → TableInfo → Result (Json N)
load_old_state sscanf snapshots table_info =
    snapshot_state sscanf (read_file snapshots table_info.identifier)

-- `LCH_TableStoreNewState`
unfoldable pub store_new_state :
    {N : Type 0} → (N → Bytes) → Files → TableInfo → Bool → Json N → Files
store_new_state print snapshots table_info pretty_print state =
    write_file snapshots table_info.identifier (json_compose print state pretty_print)
