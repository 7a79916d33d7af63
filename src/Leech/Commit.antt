-- ===== src/Leech/Commit.antt =====
-- lib/leech.c: `Commit`. A failure leaves the files as they are at that point.
use leech.Base.{
  ℕ, Bool, ◌||◌, List, [], ◌∷◌, Option, ltb, if◌then◌else◌, codes, Bytes, Result, ok, ◌>>=◌, on_ok,
}
use leech.Json.Syntax.{Json, Items, array, no_items}
use leech.Json.Access.{object_of}
use leech.Json.Arrays.{items_append}
use leech.Head.{Files, head_name, head_get}
use leech.Delta.Create.{delta_create, get_num_operations}
use leech.Block.Create.{block_create}
use leech.Block.Store.{WorkDir, block_store}
use leech.Table.States.{Source, load_new_state, load_old_state, store_new_state}
use leech.Leech.Config.{TableInfo, Instance}

module _ {N Conn : Type 0} (number_eq : N → N → Bool) (print : N → Bytes)
    (sscanf : Bytes → Option (N × ℕ)) (sha1 : Bytes → Bytes) (source : Source Conn) where
  -- A turn of the loop up to the snapshot: the new state, the delta, and whether it has operations
  unfoldable pub table_delta : Files → TableInfo → Result (Json N × Json N × Bool)
  table_delta snapshots table_def = do
    new_state ← load_new_state source table_def
    old_state ← load_old_state sscanf snapshots table_def
    new_rows ← object_of new_state
    old_rows ← object_of old_state
    delta ← delta_create number_eq table_def.identifier (codes "delta") new_rows old_rows
    (num_inserts, num_deletes, num_updates) ← get_num_operations delta 0
    ok (new_state, delta, ltb 0 num_inserts || ltb 0 num_deletes || ltb 0 num_updates)

  -- The loop over the tables: the snapshots, and the deltas
  unfoldable pub commit_tables : Bool → List TableInfo → Files → Items N → Files × Result (Items N)
  unfolding table_delta
  commit_tables pretty_print [] snapshots deltas = (snapshots, ok deltas)
  commit_tables pretty_print (table_def ∷ table_defs) snapshots deltas =
      on_ok snapshots (table_delta snapshots table_def) (λ (new_state, delta, changed).
        commit_tables pretty_print table_defs
          (if changed
            then store_new_state print snapshots table_def pretty_print new_state
            else snapshots)
          (items_append deltas delta))

  -- `Commit` up to the block: the snapshots, and the block that is made, with its version and time
  unfoldable pub commit_block : Instance → N → N → WorkDir → Files × Result (Json N)
  unfolding commit_tables
  commit_block config version timestamp work_dir =
      let (snapshots, run) =
        commit_tables config.pretty_print config.tables work_dir.snapshots no_items in
      let made = do
        deltas ← run
        parent_id ← head_get work_dir.heads head_name
        block_create version timestamp parent_id (array deltas)
      in (snapshots, made)

  -- `Commit`
  unfoldable pub commit : Instance → N → N → WorkDir → WorkDir × Result (Unit {0})
  unfolding commit_block
  commit config version timestamp work_dir =
      let (snapshots, made) = commit_block config version timestamp work_dir in
      on_ok (record work_dir { snapshots = snapshots }) made
        (λ block. (
          block_store print sha1 config.pretty_print (record work_dir { snapshots = snapshots })
              block,
          ok tt,
        ))
