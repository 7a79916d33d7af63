-- ===== src/Leech/Rebase.antt =====
-- lib/leech.c: `LCH_Rebase`. The time and the conversions of numbers are parameters.
use leech.Base.{
  ℕ, Bool, List, [], ◌∷◌, Option, codes, ◌≡◌, refl, ap, ◌∙◌, subst, Bytes, Result, ok, ◌>>=◌,
}
use leech.Buffer.{equal}
use leech.Json.Syntax.{Json, Items, array, no_items, item, no_fields, get, set}
use leech.Json.Access.{object_of, object_get_string, object_get_array}
use leech.Json.Arrays.{items_append}
use leech.Json.SetMinusLaws.{Strings}
use leech.Json.Composer.{json_compose}
use leech.Head.{Files, head_name, head_get}
use leech.Delta.Create.{delta_create, get_num_operations}
use leech.Delta.Count.{get_num_operations_lem}
use leech.Block.Names.{lastknown_key, blocks_key}
use leech.Block.Create.{block_create, block_get_payload}
use leech.Block.Patch.{patch_create, patch_append_block}
use leech.Table.States.{load_old_state}
use leech.Leech.Config.{TableInfo, Instance}
use leech.Leech.Carries.{States, HasDelta, Carries, nothing, carry, delta_create-HasDelta}
use leech.Leech.CommitTables.{
  identifiers, append_items, append_items-items_append, append_items-no_items, Snapshots,
}
use leech.Leech.DiffChain.{
  patch_create-patch_of, patch_append_block-patch_of, patch_of, patch_of-parts,
}

module _ {N : Type 0} (number_eq : N → N → Bool) (sscanf : Bytes → Option (N × ℕ)) where
  -- The loop of `LCH_Rebase`: the deltas that insert all rows of the snapshots
  unfoldable pub rebase_tables : List TableInfo → Files → Items N → Result (Items N)
  rebase_tables [] snapshots deltas = ok deltas
  rebase_tables (table_def ∷ table_defs) snapshots deltas = do
    new_state ← load_old_state sscanf snapshots table_def
    new_rows ← object_of new_state
    delta ← delta_create number_eq table_def.identifier (codes "rebase") new_rows no_fields
    (num_inserts, num_deletes, num_updates) ← get_num_operations delta 0
    rebase_tables table_defs snapshots (items_append deltas delta)

  -- `LCH_Rebase`, with what `LCH_InstanceLoad` returns, the version, and the times of the block and of the
  -- patch
  unfoldable pub rebase : (N → Bytes) → Files → Files → Result Instance → N → N → N → Result Bytes
  unfolding rebase_tables
  rebase print heads snapshots loaded version block_time patch_time = do
    instance ← loaded
    deltas ← rebase_tables instance.tables snapshots no_items
    parent_id ← head_get heads head_name
    block ← block_create version block_time parent_id (array deltas)
    patch ← patch_create version patch_time parent_id
    patch ← patch_append_block patch block
    ok (json_compose print patch instance.pretty_print)

  no_fields-Strings : Strings {N = N} no_fields
  unfolding get
  no_fields-Strings k v e = cc

  block_create-payload :
      (version timestamp : N) (parent_id : Bytes) (payload : Items N)
      → (block : Json N) × (block_create version timestamp parent_id (array payload) ≡ ok block)
        × (block_get_payload block ≡ ok payload)
  unfolding block_create set get equal
  block_create-payload version timestamp parent_id payload = (_, refl, refl)

  -- The loop makes a delta of each table, from no rows to those of its snapshot.
  rebase_tables-Carries :
      (states : States N) (table_defs : List TableInfo) (snapshots : Files) (deltas : Items N)
      → Snapshots sscanf snapshots states table_defs
      → (more : Items N) × (rebase_tables table_defs snapshots deltas
          ≡ ok (append_items deltas more))
        × Carries (λ id. get no_fields) states (identifiers table_defs) more
  unfolding rebase_tables
  rebase_tables-Carries states [] snapshots deltas held =
      (no_items, ap ok (append_items-no_items deltas), nothing)
  rebase_tables-Carries states (table_def ∷ table_defs) snapshots deltas ((rows, old, s, e), held) =
      let (delta, run, has) =
        delta_create-HasDelta number_eq table_def.identifier (codes "rebase") rows no_fields s
          no_fields-Strings in
      let counts = get_num_operations_lem delta has.operations 0 has.parts in
      let (more, run', carries) =
        rebase_tables-Carries states table_defs snapshots (items_append deltas delta) held in
      (
        item delta more,
        rw old (rw run (rw counts (run' ∙ ap ok (append_items-items_append deltas delta more)))),
        carry (subst (λ state. HasDelta (get no_fields) state table_def.identifier delta) e has)
            carries,
      )

  -- `LCH_Rebase` in a work directory whose snapshots hold the states of the tables returns the text of a
  -- patch with one block: its deltas carry each table from no rows to those of its snapshot, and
  -- the block at the head is the last known one.
  pub rebase-Snapshots :
      (print : N → Bytes) (config : Instance) (states : States N) (heads snapshots : Files)
      (version block_time patch_time : N) (head : Bytes)
      → Snapshots sscanf snapshots states config.tables
      → head_get heads head_name ≡ ok head
      → (patch block : Json N) × (payload : Items N) × (rebase print heads snapshots
            (ok config)
            version
            block_time
            patch_time
          ≡ ok (json_compose print patch config.pretty_print))
        × (object_get_array patch blocks_key ≡ ok (item block no_items))
        × (object_get_string patch lastknown_key ≡ ok head)
        × (block_get_payload block ≡ ok payload)
        × Carries (λ id. get no_fields) states (identifiers config.tables) payload
  unfolding rebase
  rebase-Snapshots print config states heads snapshots version block_time patch_time head held at =
      let (payload, run, carries) =
        rebase_tables-Carries states config.tables snapshots no_items held in
      let (block, made, is_payload) = block_create-payload version block_time head payload in
      let (is_blocks, is_known) = patch_of-parts version patch_time head (item block no_items) in
      (
        patch_of version patch_time head (item block no_items),
        block,
        payload,
        rw (run, ◌>>=◌)
            (rw at (
              rw made (
                rw (patch_create-patch_of version patch_time head)
                  (rw (patch_append_block-patch_of version patch_time head block) refl)))),
        is_blocks,
        is_known,
        is_payload,
        carries,
      )
