-- ===== src/Leech/DiffChain.antt =====
-- lib/leech.c: the patch that `LCH_Diff` makes of a chain of blocks.
use leech.Base.{ℕ, suc, ◌≤◌, ◌<◌, Bool, List, Option, ◌≡◌, refl, Bytes, ok}
use leech.Buffer.{equal}
use leech.CString.{until_null}
use leech.Json.Syntax.{
  Json, Items, string, number, array, object, no_items, item, no_fields, field, get, set,
}
use leech.Json.Access.{object_get_string, object_get_array}
use leech.Json.Composer.{json_compose}
use leech.Json.Fields.{Once}
use leech.Head.{head_name, Files, head_get}
use leech.Block.Names.{version_key, timestamp_key, lastknown_key, blocks_key}
use leech.Block.Create.{block_create, create_empty_block, block_get_parent_id, block_get_payload}
use leech.Block.Patch.{patch_create, patch_append_block, patch_reverse_blocks}
use leech.Block.Identify.{block_id_from_argument}
use leech.Leech.Config.{Instance}
use leech.Leech.Carries.{States, Carries}
use leech.Leech.MergeDeltas.{Merges}
use leech.Leech.Chain.{Chain, chain_weight, merge_blocks-empty}
use leech.Leech.Diff.{names, with_digest, stored_block, diff}

module _ {N : Type 0} where
  -- A patch with the given blocks
  abbrev pub patch_of : N → N → Bytes → Items N → Json N
  patch_of version timestamp lastknown blocks = object (
      field version_key (number version) (
        field lastknown_key (string lastknown)
          (field timestamp_key (number timestamp) (field blocks_key (array blocks) no_fields))))

  pub patch_create-patch_of :
      (version timestamp : N) (lastknown : Bytes)
      → patch_create version timestamp lastknown
        ≡ ok (patch_of version timestamp lastknown no_items)
  unfolding patch_create set equal
  patch_create-patch_of version timestamp lastknown = refl

  pub patch_append_block-patch_of :
      (version timestamp : N) (lastknown : Bytes) (block : Json N)
      → patch_append_block (patch_of version timestamp lastknown no_items) block
        ≡ ok (patch_of version timestamp lastknown (item block no_items))
  unfolding patch_append_block set get equal
  patch_append_block-patch_of version timestamp lastknown block = refl

  patch_reverse_blocks-patch_of :
      (version timestamp : N) (lastknown : Bytes) (block : Json N)
      → patch_reverse_blocks (patch_of version timestamp lastknown (item block no_items))
        ≡ ok (patch_of version timestamp lastknown (item block no_items))
  unfolding patch_reverse_blocks set get equal
  patch_reverse_blocks-patch_of version timestamp lastknown block = refl

  pub patch_of-parts :
      (version timestamp : N) (lastknown : Bytes) (blocks : Items N)
      → (object_get_array (patch_of version timestamp lastknown blocks) blocks_key ≡ ok blocks)
        × (object_get_string (patch_of version timestamp lastknown blocks) lastknown_key
            ≡ ok lastknown)
  unfolding get equal
  patch_of-parts version timestamp lastknown blocks = (refl, refl)

  create_empty_block-parts :
      (version timestamp : N) (parent_id : Bytes)
      → (empty : Json N) × (create_empty_block version timestamp parent_id ≡ ok empty)
        × (block_get_parent_id empty ≡ ok (until_null parent_id))
        × (block_get_payload empty ≡ ok no_items)
  unfolding create_empty_block block_create set get equal
  create_empty_block-parts version timestamp parent_id = (_, refl, refl, refl)

module _ {N : Type 0} (number_eq : N → N → Bool) (print : N → Bytes)
    (sscanf : Bytes → Option (N × ℕ)) (to_size : N → Option ℕ) (sha1 : Bytes → Bytes)
    (config : Instance) (ids : List Bytes) (start : States N) (once : Once ids)
    (merges : Merges config ids) where
  -- If the argument of `LCH_Diff` names the block behind the end of a chain of at least one block, at
  -- whose head HEAD points, the sizes of the largest deltas of its blocks add up to at most 192, and all
  -- tables are configured to be merged, then `LCH_Diff` returns the text of a patch with its checksum. The patch holds one block, whose deltas carry the tables from the
  -- state at the block of the argument to that at the head, and the head as the last known block.
  pub diff-Chain :
      (work_dir blocks : Files) (version patch_time block_time : N) (fuel : ℕ)
      (argument final_id block_id : Bytes) {n : ℕ} (to : States N)
      (chain : Chain
        (stored_block sscanf to_size blocks)
        ids
        final_id
        start
        (suc n)
        (until_null block_id)
        to)
      → block_id_from_argument (names blocks) argument ≡ ok final_id
      → head_get work_dir head_name ≡ ok block_id
      → chain_weight chain ≤ 192
      → suc n < fuel
      → (patch block : Json N) × (payload : Items N) × (diff number_eq print sscanf to_size sha1
            work_dir blocks
            (ok config)
            version
            patch_time
            block_time
            fuel
            argument
          ≡ ok (with_digest sha1 (json_compose print patch config.pretty_print)))
        × (object_get_array patch blocks_key ≡ ok (item block no_items))
        × (object_get_string patch lastknown_key ≡ ok block_id)
        × (block_get_payload block ≡ ok payload)
        × Carries start to ids payload
  unfolding diff
  diff-Chain work_dir blocks version patch_time block_time fuel argument final_id block_id to chain
        found head few lt =
      let (empty, made, parent, payload_is) =
        create_empty_block-parts version block_time block_id in
      let patch = patch_of version patch_time block_id no_items in
      let (block, payload, merged, carried, carries) =
        merge_blocks-empty number_eq config (stored_block sscanf to_size blocks) final_id ids start
          once merges fuel empty patch to chain few parent payload_is lt in
      let (is_blocks, is_known) =
        patch_of-parts version patch_time block_id (item block no_items) in
      (
        patch_of version patch_time block_id (item block no_items),
        block,
        payload,
        rw found (
            rw head (
              rw (patch_create-patch_of version patch_time block_id) (
                rw made (
                  rw merged (
                    rw (patch_append_block-patch_of version patch_time block_id block) (
                      rw (patch_reverse_blocks-patch_of version patch_time block_id block)
                        refl)))))),
        is_blocks,
        is_known,
        carried,
        carries,
      )
