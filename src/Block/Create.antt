-- ===== src/Block/Create.antt =====
-- lib/block.c: creation, loading and the accessors. `LCH_DoubleToSize` (lib/utils.c) is a cast of
-- `double`, a parameter; so are the version and the time as `double`, and the files of the blocks.
use leech.Base.{ℕ, Option, if◌then◌else◌, ltb, Bytes, Result, ok, failed, ◌>>=◌, or_fail}
use leech.CString.{until_null}
use leech.Json.Syntax.{Json, Items, object, no_fields, no_items, array}
use leech.Json.Access.{
  object_get_string, object_get_number, object_get_array, object_set, object_set_string,
  object_set_number, object_remove_array,
}
use leech.Json.Parser.{json_parse}
use leech.Block.Names.{version_key, timestamp_key, parent_key, payload_key}

-- `LCH_PATCH_VERSION`, which `LCH_BlockLoad` compares with too
abbrev pub patch_version : ℕ
patch_version = 1

module _ {N : Type 0} where
  -- `LCH_BlockCreate`, with the version and the time
  unfoldable pub block_create : N → N → Bytes → Json N → Result (Json N)
  block_create version timestamp parent_id payload = do
    block ← object_set_number (object no_fields) version_key version
    block ← object_set_number block timestamp_key timestamp
    block ← object_set_string block parent_key parent_id
    object_set block payload_key payload

  -- `CreateEmptyBlock` of lib/leech.c
  unfoldable pub create_empty_block : N → N → Bytes → Result (Json N)
  unfolding block_create
  create_empty_block version timestamp parent_id =
      block_create version timestamp parent_id (array no_items)

  -- `LCH_BlockGetParentId`: the data of the buffer, as a C string
  abbrev pub block_get_parent_id : Json N → Result Bytes
  block_get_parent_id block = do parent ← object_get_string block parent_key; ok (until_null parent)

  -- `LCH_BlockGetPayload`
  abbrev pub block_get_payload : Json N → Result (Items N)
  block_get_payload block = object_get_array block payload_key

  -- `LCH_BlockRemovePayload`
  abbrev pub block_remove_payload : Json N → Result (Items N × Json N)
  block_remove_payload block = object_remove_array block payload_key

  -- `LCH_BlockAppendPayload`
  abbrev pub block_append_payload : Json N → Json N → Result (Json N)
  block_append_payload block payload = object_set block payload_key payload

  -- `LCH_BlockGetTimestamp`
  abbrev pub block_get_timestamp : Json N → Result N
  block_get_timestamp block = object_get_number block timestamp_key

  module _ (to_size : N → Option ℕ) where
    -- `LCH_BlockGetVersion`
    abbrev pub block_get_version : Json N → Result ℕ
    block_get_version block = do
      value ← object_get_number block version_key
      or_fail (to_size value)

    module _ (sscanf : Bytes → Option (N × ℕ)) (read_block : Bytes → Option Bytes) where
      -- `LCH_BlockLoad`, from the contents of the file of the block
      unfoldable pub block_load : Bytes → Result (Json N)
      block_load block_id = do
        raw ← or_fail (read_block block_id)
        block ← json_parse sscanf raw
        version ← block_get_version block
        (if ltb patch_version version then failed else ok block)
