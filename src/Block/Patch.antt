-- ===== src/Block/Patch.antt =====
-- lib/patch.c: patches, objects that hold a list of blocks.
use leech.Base.{ℕ, Option, if◌then◌else◌, ltb, Bytes, Result, ok, failed, ◌>>=◌, or_fail}
use leech.Json.Syntax.{Json, object, array, no_fields, no_items}
use leech.Json.Access.{
  object_get_number, object_get_array, object_set, object_set_string, object_set_number,
}
use leech.Json.Arrays.{items_append, items_reverse}
use leech.Json.Parser.{json_parse}
use leech.Block.Names.{version_key, timestamp_key, lastknown_key, blocks_key}
use leech.Block.Create.{patch_version}

module _ {N : Type 0} where
  -- `LCH_PatchCreate`, with the version and the time
  unfoldable pub patch_create : N → N → Bytes → Result (Json N)
  patch_create version timestamp lastknown = do
    patch ← object_set_number (object no_fields) version_key version
    patch ← object_set_string patch lastknown_key lastknown
    patch ← object_set_number patch timestamp_key timestamp
    object_set patch blocks_key (array no_items)

  -- `LCH_PatchAppendBlock`, which changes the array of the patch in place
  unfoldable pub patch_append_block : Json N → Json N → Result (Json N)
  patch_append_block patch block = do
    blocks ← object_get_array patch blocks_key
    object_set patch blocks_key (array (items_append blocks block))

  -- `LCH_PatchReverseBlocks`
  unfoldable pub patch_reverse_blocks : Json N → Result (Json N)
  patch_reverse_blocks patch = do
    blocks ← object_get_array patch blocks_key
    object_set patch blocks_key (array (items_reverse blocks))

  module _ (to_size : N → Option ℕ) where
    -- `LCH_PatchGetVersion`
    abbrev pub patch_get_version : Json N → Result ℕ
    patch_get_version patch = do
      value ← object_get_number patch version_key
      or_fail (to_size value)

    -- `LCH_PatchParse`
    unfoldable pub patch_parse : (Bytes → Option (N × ℕ)) → Bytes → Result (Json N)
    patch_parse sscanf raw = do
      patch ← json_parse sscanf raw
      version ← patch_get_version patch
      (if ltb patch_version version then failed else ok patch)
