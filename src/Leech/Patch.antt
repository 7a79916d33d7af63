-- ===== src/Leech/Patch.antt =====
-- lib/leech.c: `Patch`, with `LCH_PatchUpdateLastKnown` of lib/patch.c. The sessions with the destination,
-- one for each table that is patched, are lists of calls; an answer may depend on the sessions before.
use leech.Base.{
  ℕ, Bool, List, [], ◌∷◌, Option, none, some, Bytes, Result, ok, failed, aborted, out_of_fuel,
  ◌>>=◌, on_ok,
}
use leech.CString.{until_null}
use leech.Json.Syntax.{Json, Items, Fields, object, no_items, item}
use leech.Json.Access.{object_get_string, object_get_array, expect_object}
use leech.Head.{Files, head_set}
use leech.Delta.Names.{type_key, id_key}
use leech.Delta.Create.{get_inserts, get_deletes, get_updates}
use leech.Block.Names.{lastknown_key, blocks_key, payload_key}
use leech.Block.Patch.{patch_parse}
use leech.Leech.Config.{TableInfo, Instance, instance_get_table}
use leech.Leech.Diff.{verified}
use leech.Table.Patch.{Call, table_patch}

-- The calls of each session, the last first
abbrev pub Sessions : Type 0
Sessions = List (List Call)

-- A step that failed ends the run.
abbrev pub and_then :
    Sessions × Result (Unit {0})
    → (Sessions → Sessions × Result (Unit {0}))
    → Sessions × Result (Unit {0})
and_then (sessions, run) next = on_ok sessions run (λ _. next sessions)

-- `LCH_PatchUpdateLastKnown`, on the files of the work directory
unfoldable pub patch_update_lastknown : {N : Type 0} → Json N → Files → Bytes → Result Files
patch_update_lastknown patch heads identifier = do
  value ← object_get_string patch lastknown_key
  ok (head_set heads identifier (until_null value))

-- What is read of a delta before its table is patched
pub record Operations (N : Type 0) : Type 0 where
  pub table_info : TableInfo
  pub type : Bytes
  pub inserts : Fields N
  pub deletes : Fields N
  pub updates : Fields N

module _ {N : Type 0} (config : Instance) where
  -- The body of the inner loop up to the call of `LCH_TablePatch`, which is left out for a table that
  -- is not configured
  unfoldable pub delta_operations : Json N → Result (Option (Operations N))
  delta_operations element = do
    fields ← expect_object element
    type ← object_get_string (object fields) type_key
    table_id ← object_get_string (object fields) id_key
    (elim (instance_get_table config (until_null table_id)) [
      | none ↦ ok none
      | some table_info ↦ do
        inserts ← get_inserts (object fields)
        deletes ← get_deletes (object fields)
        updates ← get_updates (object fields)
        ok (
            some (record {
              table_info = table_info;
              type = until_null type;
              inserts = inserts;
              deletes = deletes;
              updates = updates;
            }))
    ])

  module _ (answers : Sessions → List Call → Bool) (field value : Bytes) where
    -- The body of the inner loop from the call of `LCH_TablePatch` on
    unfoldable pub patch_table : Option (Operations N) → Sessions → Sessions × Result (Unit {0})
    patch_table none sessions = (sessions, ok tt)
    patch_table (some operations) sessions =
        let (calls, run) =
          table_patch (answers sessions) operations.table_info operations.type field value
            operations.inserts operations.deletes operations.updates in
        (calls ∷ sessions, run)

    -- The inner loop
    unfoldable pub patch_payload : Items N → Sessions → Sessions × Result (Unit {0})
    unfolding delta_operations patch_table
    patch_payload no_items sessions = (sessions, ok tt)
    patch_payload (item delta payload) sessions =
        on_ok sessions (delta_operations delta)
          (λ operations. and_then (patch_table operations sessions) (patch_payload payload))

    -- The outer loop
    unfoldable pub patch_blocks : Items N → Sessions → Sessions × Result (Unit {0})
    unfolding patch_payload
    patch_blocks no_items sessions = (sessions, ok tt)
    patch_blocks (item block blocks) sessions =
        on_ok sessions
          (do fields ← expect_object block; object_get_array (object fields) payload_key)
          (λ payload. and_then (patch_payload payload sessions) (patch_blocks blocks))

    module _ (sscanf : Bytes → Option (N × ℕ)) (to_size : N → Option ℕ) (sha1 : Bytes → Bytes) where
      -- `Patch` up to the loops: the patch, and the files of the work directory
      unfoldable pub read_patch : Files → Bytes → Result (Json N × Files)
      unfolding patch_update_lastknown
      read_patch heads buffer = do
        payload ← verified sha1 buffer
        parsed ← patch_parse to_size sscanf payload
        heads ← patch_update_lastknown parsed heads value
        ok (parsed, heads)

      -- `Patch`: the files of the work directory, the sessions, and the result
      unfoldable pub patch : Files → Bytes → Files × (Sessions × Result (Unit {0}))
      unfolding patch_blocks read_patch
      patch heads buffer = elim (read_patch heads buffer) [
        | ok (parsed, heads) ↦ (
          heads,
          on_ok [] (object_get_array parsed blocks_key) (λ blocks. patch_blocks blocks []),
        )
        | failed ↦ (heads, ([], failed))
        | aborted ↦ (heads, ([], aborted))
        | out_of_fuel ↦ (heads, ([], out_of_fuel))
      ]
