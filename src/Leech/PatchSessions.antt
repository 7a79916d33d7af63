-- ===== src/Leech/PatchSessions.antt =====
-- lib/leech.c: the sessions of `Patch` with the destination, whatever this answers.
use leech.Base.{
  ℕ, Bool, List, [], ◌∷◌, Option, none, some, ◌≡◌, refl, Bytes, Bool-cases, Option-cases, subst,
  arith, inl, inr, Result, ok, failed, ◌>>=◌, on_ok, Returns, holds, refused, Returns-bind,
}
use leech.CString.{until_null, string_equal}
use leech.Json.Syntax.{
  Json, Items, Fields, null, true_value, false_value, string, number, array, object, no_items, item,
  get,
}
use leech.Json.Access.{
  object_get_string, object_get_array, object_get_object, expect_object, expect_array,
}
use leech.Head.{Files, head_set}
use leech.Delta.Names.{type_key, id_key, inserts_key, deletes_key, updates_key}
use leech.Block.Names.{lastknown_key, blocks_key, payload_key}
use leech.Block.Patch.{patch_parse}
use leech.Leech.Config.{TableInfo, Instance, instance_get_table, find_table}
use leech.Leech.Diff.{verified}
use leech.Table.Patch.{Call, Run}
use leech.Table.Protocol.{
  Done, not_connected, no_transaction, left_open, undone, not_committed, committed, Any,
  object_get_string-Returns,
}
use leech.Table.Transaction.{table_patch-Done}
use leech.Leech.Patch.{
  Sessions, Operations, and_then, delta_operations, patch_table, patch_payload, patch_blocks,
  read_patch, patch,
}

-- A table with a primary field
pub record HasFields (table_info : TableInfo) : Type 0 where
  pub first_primary : Bytes
  pub more_primary : List Bytes
  pub first_field : Bytes
  pub more_fields : List Bytes
  pub is_primary : table_info.primary_fields ≡ first_primary ∷ more_primary
  pub is_all : table_info.all_fields ≡ first_field ∷ more_fields

abbrev pub All {ℓ κ} : {A : Type ℓ} → (A → Type κ) → List A → Type κ
All P [] = Unit
All P (a ∷ rest) = P a × All P rest

module _ (answers : Sessions → List Call → Bool) where
  -- Sessions that have all ended in a granted commit
  pub data Committed : Sessions → Type 0 where
    no_session : Committed []
    committed_session :
        {calls : List Call} {sessions : Sessions}
        → Committed sessions
        → Done (answers sessions) (calls, ok tt)
        → Committed (calls ∷ sessions)

  -- The runs of a patch that is done: all sessions ended in a commit, and the patch succeeds, or fails
  -- for a delta that cannot be read; or the last session failed, and so does the patch.
  pub data Applied : Sessions × Result (Unit {0}) → Type 0 where
    all_committed : {sessions : Sessions} → Committed sessions → Applied (sessions, ok tt)
    unreadable : {sessions : Sessions} → Committed sessions → Applied (sessions, failed)
    last_failed :
        {calls : List Call} {sessions : Sessions}
        → Committed sessions
        → Done (answers sessions) (calls, failed)
        → Applied (calls ∷ sessions, failed)

  and_then-Applied :
      {run : Sessions × Result (Unit {0})} {next : Sessions → Sessions × Result (Unit {0})}
      → Applied run
      → ((sessions : Sessions) → Committed sessions → Applied (next sessions))
      → Applied (and_then run next)
  and_then-Applied (all_committed {sessions} c) goes_on = goes_on sessions c
  and_then-Applied (unreadable c) goes_on = unreadable c
  and_then-Applied (last_failed c d) goes_on = last_failed c d

  on_ok-Applied :
      {A : Type 0} {P : A → Type 0} {r : Result A} {next : A → Sessions × Result (Unit {0})}
      (sessions : Sessions)
      → Committed sessions
      → Returns P r
      → ((a : A) → P a → Applied (next a))
      → Applied (on_ok sessions r next)
  on_ok-Applied sessions c (holds {a} h) goes_on = goes_on a h
  on_ok-Applied sessions c refused goes_on = unreadable c

  session-Applied :
      (sessions : Sessions) {run : Run}
      → Committed sessions
      → Done (answers sessions) run
      → Applied (run.0 ∷ sessions, run.1)
  session-Applied sessions c (not_connected e) = last_failed c (not_connected e)
  session-Applied sessions c (no_transaction h) = last_failed c (no_transaction h)
  session-Applied sessions c (left_open h e) = last_failed c (left_open h e)
  session-Applied sessions c (undone h) = last_failed c (undone h)
  session-Applied sessions c (not_committed h e) = last_failed c (not_committed h e)
  session-Applied sessions c (committed h e) = all_committed (committed_session c (committed h e))

find_table-HasFields :
    (tables : List TableInfo) (id : Bytes) (t : TableInfo)
    → All HasFields tables
    → find_table tables id ≡ some t
    → HasFields t
unfolding find_table
find_table-HasFields [] id t all e = cc
find_table-HasFields (first ∷ tables) id t all e =
    elim (Bool-cases (string_equal first.identifier id)) [
      | inl same ↦ let is : first ≡ t = ground (arith, same, e) in subst HasFields is all.0
      | inr other ↦ find_table-HasFields tables id t all.1 (rw other at e)
    ]

module _ {N : Type 0} where
  -- The operations, if any, are for a table with a primary field.
  abbrev ForTable : Option (Operations N) → Type 0
  ForTable none = Unit
  ForTable (some operations) = HasFields operations.table_info

  expect_object-Returns : (v : Json N) → Returns Any (expect_object v)
  expect_object-Returns (object entries) = holds tt
  expect_object-Returns null = refused
  expect_object-Returns true_value = refused
  expect_object-Returns false_value = refused
  expect_object-Returns (string s) = refused
  expect_object-Returns (number n) = refused
  expect_object-Returns (array items) = refused

  expect_array-Returns : (v : Json N) → Returns Any (expect_array v)
  expect_array-Returns (array items) = holds tt
  expect_array-Returns null = refused
  expect_array-Returns true_value = refused
  expect_array-Returns false_value = refused
  expect_array-Returns (string s) = refused
  expect_array-Returns (number n) = refused
  expect_array-Returns (object entries) = refused

  object_get_object-Returns :
      (entries : Fields N) (key : Bytes) → Returns Any (object_get_object (object entries) key)
  object_get_object-Returns entries key = elim (Option-cases (get entries key)) [
    | inl e ↦ rw e refused
    | inr (v, e) ↦ rw e (expect_object-Returns v)
  ]

  object_get_array-Returns :
      (entries : Fields N) (key : Bytes) → Returns Any (object_get_array (object entries) key)
  object_get_array-Returns entries key = elim (Option-cases (get entries key)) [
    | inl e ↦ rw e refused
    | inr (v, e) ↦ rw e (expect_array-Returns v)
  ]

  module _ (config : Instance) (keyed : All HasFields config.tables) where
    delta_operations-Returns : (delta : Json N) → Returns ForTable (delta_operations config delta)
    unfolding delta_operations instance_get_table
    delta_operations-Returns delta = Returns-bind (expect_object-Returns delta) (λ fields h.
        Returns-bind (object_get_string-Returns fields type_key) (λ type h.
          Returns-bind (object_get_string-Returns fields id_key) (λ table_id h.
            elim (Option-cases (find_table config.tables (until_null table_id))) [
              | inl e ↦ rw e (holds tt)
              | inr (t, e) ↦ rw e (
                  Returns-bind (object_get_object-Returns fields inserts_key) (λ inserts h.
                    Returns-bind (object_get_object-Returns fields deletes_key) (λ deletes h.
                      Returns-bind (object_get_object-Returns fields updates_key) (λ updates h.
                        holds
                          (find_table-HasFields config.tables (until_null table_id) t keyed e)))))
            ])))

    module _ (answers : Sessions → List Call → Bool) (field value : Bytes) where
      patch_table-Applied :
          (operations : Option (Operations N)) (sessions : Sessions)
          → Committed answers sessions
          → ForTable operations
          → Applied answers (patch_table config answers field value operations sessions)
      unfolding patch_table
      patch_table-Applied none sessions c h = all_committed c
      patch_table-Applied (some operations) sessions c h = session-Applied answers sessions c (
          table_patch-Done (answers sessions) operations.table_info operations.type field value
            operations.inserts operations.deletes operations.updates h.first_primary h.first_field
            h.more_primary h.more_fields h.is_primary h.is_all)

      patch_payload-Applied :
          (payload : Items N) (sessions : Sessions)
          → Committed answers sessions
          → Applied answers (patch_payload config answers field value payload sessions)
      unfolding patch_payload
      patch_payload-Applied no_items sessions c = all_committed c
      patch_payload-Applied (item delta payload) sessions c =
          on_ok-Applied answers sessions c (delta_operations-Returns delta) (λ operations h.
            and_then-Applied answers (patch_table-Applied operations sessions c h)
              (λ sessions c. patch_payload-Applied payload sessions c))

      patch_blocks-Applied :
          (blocks : Items N) (sessions : Sessions)
          → Committed answers sessions
          → Applied answers (patch_blocks config answers field value blocks sessions)
      unfolding patch_blocks
      patch_blocks-Applied no_items sessions c = all_committed c
      patch_blocks-Applied (item block blocks) sessions c =
          on_ok-Applied answers sessions c
            (Returns-bind (expect_object-Returns block)
              (λ fields h. object_get_array-Returns fields payload_key))
            (λ payload h.
              and_then-Applied answers (patch_payload-Applied payload sessions c)
                (λ sessions c. patch_blocks-Applied blocks sessions c))

      read_patch_lem :
          (sscanf : Bytes → Option (N × ℕ)) (to_size : N → Option ℕ) (sha1 : Bytes → Bytes)
          (heads : Files) (buffer payload lastknown : Bytes) (entries : Fields N)
          → verified sha1 buffer ≡ ok payload
          → patch_parse to_size sscanf payload ≡ ok (object entries)
          → object_get_string (object entries) lastknown_key ≡ ok lastknown
          → read_patch config answers field value sscanf to_size sha1 heads buffer
            ≡ ok (object entries, head_set heads value (until_null lastknown))
      unfolding read_patch
      read_patch_lem sscanf to_size sha1 heads buffer payload lastknown entries v p l =
          rw (v, ◌>>=◌) (rw (p, ◌>>=◌) (rw (l, ◌>>=◌) refl))

      -- If the text of a patch has no checksum or the right one, and can be read, then `Patch` first notes
      -- under the name of the host the block that the patch ends at, whatever comes of the rest.
      -- Whatever the destination answers, it returns: each session but the last has ended in a granted
      -- commit, and so has the last if the patch succeeds. All tables have a primary field.
      pub patch-Applied :
          (sscanf : Bytes → Option (N × ℕ)) (to_size : N → Option ℕ) (sha1 : Bytes → Bytes)
          (heads : Files) (buffer payload lastknown : Bytes) (entries : Fields N)
          → verified sha1 buffer ≡ ok payload
          → patch_parse to_size sscanf payload ≡ ok (object entries)
          → object_get_string (object entries) lastknown_key ≡ ok lastknown
          → (run : Sessions × Result (Unit {0})) × (patch config answers field value sscanf to_size
                sha1 heads buffer
              ≡ (head_set heads value (until_null lastknown), run))
            × Applied answers run
      unfolding patch
      patch-Applied sscanf to_size sha1 heads buffer payload lastknown entries v p l = (
        on_ok [] (object_get_array (object entries) blocks_key)
            (λ blocks. patch_blocks config answers field value blocks []),
        rw (read_patch_lem sscanf to_size sha1 heads buffer payload lastknown entries v p l, patch)
            refl,
        on_ok-Applied answers [] no_session (object_get_array-Returns entries blocks_key)
            (λ blocks h. patch_blocks-Applied blocks [] no_session),
      )
