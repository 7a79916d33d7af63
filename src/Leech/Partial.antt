-- ===== src/Leech/Partial.antt =====
-- lib/leech.c: what a commit leaves behind when it fails.
use leech.Base.{
  ℕ, Bool, true, List, ◌∷◌, Option, ◌≡◌, refl, Bytes, ok, failed, false, codes, sym, ◌∙◌,
}
use leech.Json.Syntax.{Json, Fields, object, get, size, Distinct}
use leech.Json.SetMinusLaws.{Strings}
use leech.Json.Numbers.{Reads}
use leech.Head.{Files}
use leech.Delta.Count.{get_num_operations_lem}
use leech.Delta.Idle.{delta_create-idle}
use leech.Leech.Carries.{States}
use leech.Block.Store.{WorkDir}
use leech.Table.States.{Source, load_new_state, load_old_state}
use leech.Leech.Config.{TableInfo, Instance}
use leech.Leech.Commit.{table_delta, commit_tables, commit_block, commit}
use leech.Leech.TableDelta.{table_delta_lem}
use leech.Leech.CommitTables.{Snapshot, stored, stored-Snapshot}

module _ {N Conn : Type 0} (number_eq : N → N → Bool) (print : N → Bytes)
    (sscanf : Bytes → Option (N × ℕ)) (digits : N → Bytes) (whole : N → Bool)
    (reads : (n : N) → whole n ≡ true → Reads print sscanf digits n) (sha1 : Bytes → Bytes)
    (source : Source Conn) where
  table_delta-failed :
      (snapshots : Files) (table_def : TableInfo)
      → load_new_state {N = N} source table_def ≡ failed
      → table_delta number_eq print sscanf sha1 source snapshots table_def ≡ failed
  unfolding table_delta
  table_delta-failed snapshots table_def h = rw h refl

  -- A turn of `Commit` finds no changes where the snapshot holds the rows of the source.
  table_delta-idle :
      (snapshots : Files) (table_def : TableInfo) (states : States N) (new_rows : Fields N)
      → load_new_state source table_def ≡ ok (object new_rows)
      → Strings new_rows
      → get new_rows ≡ states table_def.identifier
      → Snapshot sscanf snapshots states table_def
      → (delta : Json N) × (table_delta number_eq print sscanf sha1 source snapshots table_def
          ≡ ok (object new_rows, delta, false))
  unfolding table_delta size
  table_delta-idle snapshots table_def states new_rows new sn is (old_rows, old, so, held) =
      let (delta, run, parts) =
        delta_create-idle number_eq table_def.identifier (codes "delta") new_rows old_rows sn so
          (held ∙ sym is) in
      let counts = get_num_operations_lem delta _ 0 parts in
      (delta, rw new (rw old (rw run (rw counts refl))))

  -- A commit that fails to load the new state of its second table fails, and has stored the new state of
  -- the first, but no block: the head and the blocks are as they were. A turn of a later commit that finds
  -- the same rows in the first table makes a delta without operations. The rows of the first table, the
  -- new ones and those of the snapshot, are strings, and the new ones have each key once.
  pub commit-partial :
      (config : Instance) (first second : TableInfo) (table_defs : List TableInfo)
      (work_dir : WorkDir) (new_rows old_rows : Fields N) (version timestamp : N)
      → config.tables ≡ first ∷ second ∷ table_defs
      → load_new_state source first ≡ ok (object new_rows)
      → load_old_state sscanf work_dir.snapshots first ≡ ok (object old_rows)
      → Strings new_rows
      → Distinct new_rows
      → Strings old_rows
      → load_new_state {N = N} source second ≡ failed
      → (after : WorkDir) × (commit number_eq print sscanf sha1 source config version timestamp
            work_dir
          ≡ (after, failed))
        × (after.heads ≡ work_dir.heads)
        × (after.blocks ≡ work_dir.blocks)
        × Snapshot sscanf after.snapshots (λ id. get new_rows) first
        × ((delta : Json N) × (table_delta number_eq print sscanf sha1 source after.snapshots first
              ≡ ok (object new_rows, delta, false)))
  unfolding commit commit_block commit_tables
  commit-partial config first second table_defs work_dir new_rows old_rows version timestamp tables
        new old sn dn so fails =
      let (delta, changed, run, _, _, same) =
        table_delta_lem number_eq print sscanf sha1 source whole work_dir.snapshots first new_rows
          old_rows new old sn so in
      let snapshots =
        stored print sscanf source digits whole reads changed config.pretty_print work_dir.snapshots
          first new_rows in
      let held : Snapshot sscanf snapshots (λ id. get new_rows) first =
        stored-Snapshot print sscanf source digits whole reads changed config.pretty_print
          work_dir.snapshots first new_rows old_rows (λ id. get new_rows) sn dn refl old so same in
      (
        record work_dir { snapshots = snapshots },
        rw tables (rw run (rw (table_delta-failed snapshots second fails) refl)),
        refl,
        refl,
        held,
        table_delta-idle snapshots first (λ id. get new_rows) new_rows new sn refl held,
      )
