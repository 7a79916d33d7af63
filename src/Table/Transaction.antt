-- ===== src/Table/Transaction.antt =====
-- lib/table.c: how `LCH_TablePatch` ends, whatever the destination answers.
use leech.Base.{
  Bool, true, false, List, [], ◌∷◌, if◌then◌else◌, length, codes, ◌≡◌, refl, ap, ◌∙◌, arith, Bytes,
  Bool-cases, inl, inr, ok,
}
use leech.CString.{string_equal}
use leech.ListBuffer.Growth.{list_copy_lem, list_insert_lem}
use leech.Json.Syntax.{Fields, keys}
use leech.Leech.Config.{TableInfo}
use leech.Table.Patch.{
  Call, connect, begin_tx, commit_tx, disconnect, truncate_table, or_else, give_up, disconnected,
  rolled_back, with_field, call, patch_end, patch_transaction, table_patch,
}
use leech.Table.Protocol.{
  InTransaction, begun, truncated, Connected, connected, Created, created, NotBegun, not_created,
  not_begun, Stopped, Done, not_connected, no_transaction, left_open, undone, not_committed,
  committed, Ran, did, or_else-Ran, call-Ran, patch_deletes-Ran, patch_updates-Ran,
  patch_inserts-Ran,
}

-- A list with at least one field gets one more before the others.
pub with_field-ok :
    (field first : Bytes) (fields : List Bytes)
    → with_field field (first ∷ fields) ≡ ok (field ∷ first ∷ fields)
unfolding with_field
with_field-ok field first fields =
    let (copy, run, same, valid) =
      list_copy_lem 0 (record { elements = first ∷ fields; capacity = length (first ∷ fields) }) ok
        (λ a. refl) (omega arith) in
    let (after, run', put, valid') = list_insert_lem 0 copy 0 field valid (omega arith) in
    rw run (rw run' (ap ok (put ∙ ap (λ elements. field ∷ elements) same)))

-- The destination refused to truncate the table.
data Refused (answer : List Call → Bool) : List Call → Type 0 where
  refused_truncate :
      {table field value : Bytes} {calls : List Call}
      → InTransaction answer calls
      → answer (truncate_table table field value ∷ calls) ≡ false
      → Refused answer (truncate_table table field value ∷ calls)

-- The destination refused to commit.
data Uncommitted (answer : List Call → Bool) : List Call → Type 0 where
  refused_commit :
      {calls : List Call}
      → InTransaction answer calls
      → answer (commit_tx ∷ calls) ≡ false
      → Uncommitted answer (commit_tx ∷ calls)

data Committed (answer : List Call → Bool) : List Call → Type 0 where
  accepted_commit :
      {calls : List Call}
      → InTransaction answer calls
      → answer (commit_tx ∷ calls) ≡ true
      → Committed answer (commit_tx ∷ calls)

-- The only call so far is the one that connects, which is refused.
data Unconnected (answer : List Call → Bool) : List Call → Type 0 where
  unconnected :
      {params : Bytes}
      → answer (connect params ∷ []) ≡ false
      → Unconnected answer (connect params ∷ [])

module _ (answer : List Call → Bool) where
  Unconnected-Done : (calls : List Call) → Unconnected answer calls → Done answer (give_up calls)
  Unconnected-Done _ (unconnected e) = not_connected e

  rolled_back-Done : (calls : List Call) → Stopped answer calls → Done answer (rolled_back calls)
  rolled_back-Done calls t = undone t

  Refused-Done : (calls : List Call) → Refused answer calls → Done answer (disconnected calls)
  Refused-Done _ (refused_truncate t e) = left_open t e

  Uncommitted-Done :
      (calls : List Call) → Uncommitted answer calls → Done answer (disconnected calls)
  Uncommitted-Done _ (refused_commit t e) = not_committed t e

  Committed-Done :
      (calls : List Call) → Committed answer calls → Done answer (disconnect ∷ calls, ok tt)
  Committed-Done _ (accepted_commit t e) = committed t e

  NotBegun-Done : (calls : List Call) → NotBegun answer calls → Done answer (disconnected calls)
  NotBegun-Done calls c = no_transaction c

  commit-Done :
      (calls : List Call)
      → InTransaction answer calls
      → Done answer (
          or_else (call answer commit_tx calls) disconnected (λ calls. (disconnect ∷ calls, ok tt)))
  commit-Done calls t =
      or_else-Ran {P = Committed answer} {Q = Uncommitted answer} (Done answer)
        (call-Ran answer commit_tx calls (accepted_commit t) (refused_commit t)) Uncommitted-Done
        Committed-Done

module _ {N : Type 0} (answer : List Call → Bool) (table_info : TableInfo)
    (type field value : Bytes) (inserts deletes updates : Fields N)
    (first_primary first_field : Bytes) (more_primary more_fields : List Bytes) where
  patch_end-Done :
      table_info.all_fields ≡ first_field ∷ more_fields
      → (calls : List Call) → InTransaction answer calls
      → Done answer (patch_end answer table_info field value inserts calls)
  unfolding patch_end
  patch_end-Done e calls t = rw e (
      rw (with_field-ok field first_field more_fields) (
        or_else-Ran (Done answer)
          (patch_inserts-Ran answer table_info (field ∷ first_field ∷ more_fields) value inserts
            (keys inserts) calls t)
          (rolled_back-Done answer) (commit-Done answer)))

  truncate-Ran :
      (calls : List Call)
      → InTransaction answer calls
      → Ran (InTransaction answer) (Refused answer) (
          if string_equal type (codes "rebase")
          then call answer (truncate_table table_info.dst_table_name field value) calls
          else (calls, ok tt))
  truncate-Ran calls t = elim (Bool-cases (string_equal type (codes "rebase"))) [
    | inl e ↦ rw e (call-Ran answer _ calls (truncated t) (refused_truncate t))
    | inr e ↦ rw e (did t)
  ]

  patch_transaction-Done :
      (primary_fields : List Bytes)
      → table_info.all_fields ≡ first_field ∷ more_fields
      → (calls : List Call) → InTransaction answer calls
      → Done answer (
          patch_transaction answer table_info type field value primary_fields inserts deletes
            updates calls)
  unfolding patch_transaction
  patch_transaction-Done primary_fields e calls t =
      or_else-Ran (Done answer) (truncate-Ran calls t) (Refused-Done answer) (λ calls t.
        or_else-Ran (Done answer)
          (patch_deletes-Ran answer table_info primary_fields value (keys deletes) calls t)
          (rolled_back-Done answer)
          (λ calls t.
            or_else-Ran (Done answer)
              (patch_updates-Ran answer table_info primary_fields value updates (keys updates) calls
                t)
              (rolled_back-Done answer) (patch_end-Done e)))

  pub table_patch-Done :
      table_info.primary_fields ≡ first_primary ∷ more_primary
      → table_info.all_fields ≡ first_field ∷ more_fields
      → Done answer (table_patch answer table_info type field value inserts deletes updates)
  unfolding table_patch
  table_patch-Done e e' =
      or_else-Ran {P = Connected answer} {Q = Unconnected answer} (Done answer)
        (call-Ran answer (connect table_info.dst_params) [] connected unconnected)
        (Unconnected-Done answer)
        (λ calls c. rw e (
          rw (with_field-ok field first_primary more_primary) (
            or_else-Ran {P = Created answer} {Q = NotBegun answer} (Done answer)
              (call-Ran answer _ calls (created c) (not_created c)) (NotBegun-Done answer)
              (λ calls c.
                or_else-Ran {P = InTransaction answer} {Q = NotBegun answer} (Done answer)
                  (call-Ran answer begin_tx calls (begun c) (not_begun c)) (NotBegun-Done answer)
                  (patch_transaction-Done (field ∷ first_primary ∷ more_primary) e')))))
