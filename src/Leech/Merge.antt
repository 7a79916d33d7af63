-- ===== src/Leech/Merge.antt =====
-- lib/leech.c: `MergeBlocks`. The payload of the parent is changed in place, through pointers into
-- it: it is written back when the loop has ended, and so is that of the child.
use leech.Base.{
  ℕ, zero, suc, Bool, true, false, Option, none, some, if◌then◌else◌, ltb, Bytes, Result, ok,
  out_of_fuel, ◌>>=◌, or_fail,
}
use leech.Buffer.{equal}
use leech.CString.{until_null, string_equal}
use leech.Json.Syntax.{Json, Items, object, array, no_items, item}
use leech.Json.Access.{array_of, expect_object, object_get_string, object_set, asserted}
use leech.Json.Arrays.{items_length, items_set, items_append, array_append, array_remove_object}
use leech.Delta.Names.{id_key}
use leech.Delta.Merge.{delta_merge}
use leech.Block.Names.{payload_key}
use leech.Block.Create.{block_get_parent_id, block_get_payload}
use leech.Block.Patch.{patch_append_block}
use leech.Leech.Config.{Instance, instance_get_table}

-- The loop over the deltas of the parent: the first one for the table, and its index, from `i` on
unfoldable pub find_delta : {N : Type 0} → Items N → Bytes → ℕ → Result (Option (ℕ × Json N))
find_delta no_items child_table_id i = ok none
find_delta (item delta items) child_table_id i =
    let later = find_delta items child_table_id (suc i) in
    expect_object delta >>= λ parent_delta.
    object_get_string (object parent_delta) id_key >>= λ parent_table_id.
    if equal parent_table_id child_table_id then ok (some (i, delta)) else later

module _ {N : Type 0} (number_eq : N → N → Bool) (config : Instance) where
  -- The loop over the deltas of the child: the parent, its payload and that of the child. Each turn
  -- takes the first delta of the child, which goes to its end if the table is not to be merged.
  unfoldable pub merge_deltas :
      ℕ → Json N → Items N → Items N → ℕ → Result (Json N × Items N × Items N)
  merge_deltas zero parent parent_payload child_payload num_keep =
      if ltb num_keep (items_length child_payload)
      then out_of_fuel
      else ok (parent, parent_payload, child_payload)
  merge_deltas (suc fuel) parent parent_payload child_payload num_keep =
      let turn = do
        (child_fields, left) ← array_remove_object (array child_payload) 0
        child_left ← array_of left
        child_table_id ← object_get_string (object child_fields) id_key
        found ← find_delta parent_payload child_table_id 0
        (elim found [
          | some (i, parent_delta) ↦ do
            table ← or_fail (instance_get_table config (until_null child_table_id))
            (elim table.merge_blocks [
              | true ↦ do
                merged ← delta_merge number_eq parent_delta (object child_fields)
                merge_deltas fuel parent (items_set parent_payload i merged) child_left num_keep
              | false ↦
                  merge_deltas fuel parent parent_payload
                    (items_append child_left (object child_fields)) (suc num_keep)
            ])
          | none ↦ do
            parent' ← array_append parent (object child_fields)
            merge_deltas fuel parent' parent_payload child_left num_keep
        ])
      in if ltb num_keep (items_length child_payload)
        then turn
        else ok (parent, parent_payload, child_payload)

module _ {N : Type 0} (number_eq : N → N → Bool) (config : Instance)
    (load_block : Bytes → Result (Json N)) where
  -- `MergeBlocks`, with the loads of lib/block.c: the merged block and the patch
  unfoldable pub merge_blocks : ℕ → Bytes → Json N → Json N → Result (Json N × Json N)
  unfolding merge_deltas
  merge_blocks zero final_id child patch = out_of_fuel
  merge_blocks (suc fuel) final_id child patch = do
    parent_id ← asserted (block_get_parent_id child)
    (let next = do
      parent ← load_block parent_id
      parent_payload ← block_get_payload parent
      child_payload ← block_get_payload child
      (parent, parent_payload, child_payload) ←
          merge_deltas number_eq config (items_length child_payload) parent parent_payload
            child_payload 0
      parent ← object_set parent payload_key (array parent_payload)
      child ← object_set child payload_key (array child_payload)
      (elim child_payload [
        | no_items ↦ merge_blocks fuel final_id parent patch
        | item _ _ ↦ do
          patch ← patch_append_block patch child
          merge_blocks fuel final_id parent patch
      ])
      in if string_equal parent_id final_id then ok (child, patch) else next)
