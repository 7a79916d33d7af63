-- ===== src/Delta/Create.antt =====
-- lib/delta.c: `LCH_DeltaCreate`, the accessors, and the count of the operations.
use leech.Base.{ℕ, Bool, Option, none, some, if◌then◌else◌, Bytes, Result, ok, aborted, ◌>>=◌}
use leech.Json.Syntax.{Json, Fields, object, no_fields, size, has_key}
use leech.Json.Access.{
  object_get_string, object_get_object, object_set, object_set_string, object_of,
  object_remove_object,
}
use leech.Json.SetMinus.{keys_minus, changed_values}
use leech.Delta.Names.{type_key, id_key, inserts_key, deletes_key, updates_key}

abbrev or_zero : Option ℕ → ℕ
or_zero none = 0
or_zero (some n) = n

module _ {N : Type 0} (number_eq : N → N → Bool) where
  -- `LCH_DeltaCreate`
  unfoldable pub delta_create : Bytes → Bytes → Fields N → Fields N → Result (Json N)
  delta_create table_id type new_state old_state = do
    delta ← object_set_string (object no_fields) type_key type
    delta ← object_set_string delta id_key table_id
    inserts ← keys_minus new_state old_state
    delta ← object_set delta inserts_key (object inserts)
    deletes ← keys_minus old_state new_state
    delta ← object_set delta deletes_key (object deletes)
    updates ← changed_values number_eq new_state old_state
    object_set delta updates_key (object updates)

module _ {N : Type 0} where
  -- `LCH_DeltaGetTableId`
  abbrev pub get_table_id : Json N → Result Bytes
  get_table_id delta = object_get_string delta id_key

  -- `LCH_DeltaGetType`
  abbrev pub get_delta_type : Json N → Result Bytes
  get_delta_type delta = object_get_string delta type_key

  -- `LCH_DeltaGetInserts`
  abbrev pub get_inserts : Json N → Result (Fields N)
  get_inserts delta = object_get_object delta inserts_key

  -- `LCH_DeltaGetDeletes`
  abbrev pub get_deletes : Json N → Result (Fields N)
  get_deletes delta = object_get_object delta deletes_key

  -- `LCH_DeltaGetUpdates`
  abbrev pub get_updates : Json N → Result (Fields N)
  get_updates delta = object_get_object delta updates_key

  -- `DeltaRemoveInserts`, `DeltaRemoveDeletes` and `DeltaRemoveUpdates`
  abbrev pub remove_inserts : Json N → Result (Fields N × Json N)
  remove_inserts delta = object_remove_object delta inserts_key

  abbrev pub remove_deletes : Json N → Result (Fields N × Json N)
  remove_deletes delta = object_remove_object delta deletes_key

  abbrev pub remove_updates : Json N → Result (Fields N × Json N)
  remove_updates delta = object_remove_object delta updates_key

  -- One block of `LCH_DeltaGetNumOperations`: the count, or none where the key is missing. It asserts
  -- that a value under the key is an object.
  count_at : Json N → Bytes → Result (Option ℕ)
  count_at delta key = do
    fields ← object_of delta
    if has_key fields key
        then elim (object_get_object delta key) [
          | ok operations ↦ ok (some (size operations))
          | _ ↦ aborted
        ]
        else ok none

  -- `LCH_DeltaGetNumOperations`, with all three counts asked for and `num_updates` as the caller left
  -- it. Without updates the code resets the count of the deletes, and not that of the updates.
  unfoldable pub get_num_operations : Json N → ℕ → Result (ℕ × ℕ × ℕ)
  unfolding count_at
  get_num_operations delta num_updates = do
    inserts ← count_at delta inserts_key
    deletes ← count_at delta deletes_key
    updates ← count_at delta updates_key
    ok (elim updates [
      | some n ↦ (or_zero inserts, or_zero deletes, n)
      | none ↦ (or_zero inserts, 0, num_updates)
    ])
