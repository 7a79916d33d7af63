-- ===== src/Leech/Config.antt =====
-- lib/instance.c and lib/table.c: the configuration, as far as the operations of lib/leech.c read it.
use leech.Base.{ℕ, Bool, List, [], ◌∷◌, Option, none, some, if◌then◌else◌, Bytes}
use leech.CString.{string_equal}

-- `LCH_TableInfo`, without the modules and the callbacks
pub record TableInfo : Type 0 where
  pub identifier : Bytes
  pub all_fields : List Bytes
  pub primary_fields : List Bytes
  pub subsidiary_fields : List Bytes
  pub merge_blocks : Bool
  pub src_params : Bytes
  pub src_table_name : Bytes
  pub dst_params : Bytes
  pub dst_table_name : Bytes

-- `LCH_Instance`, without the work directory and the version
pub record Instance : Type 0 where
  pub chain_length : ℕ
  pub pretty_print : Bool
  pub auto_purge : Bool
  pub tables : List TableInfo

-- The loop of `LCH_InstanceGetTable`
unfoldable pub find_table : List TableInfo → Bytes → Option TableInfo
find_table [] table_id = none
find_table (table_def ∷ tables) table_id =
    if string_equal table_def.identifier table_id
    then some table_def
    else find_table tables table_id

-- `LCH_InstanceGetTable`
unfoldable pub instance_get_table : Instance → Bytes → Option TableInfo
unfolding find_table
instance_get_table self table_id = find_table self.tables table_id
