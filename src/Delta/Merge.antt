-- ===== src/Delta/Merge.antt =====
-- lib/delta.c: the merge of a child delta into its parent. The three objects of the parent are
-- changed through pointers into it: `Merging` holds their dictionaries, and `LCH_DeltaMerge` of the model
-- writes them back at the end. An object of the parent is as fresh as its parser or
-- `LCH_DeltaCreate` leaves it: no entry has been removed from it.
use leech.Base.{Bool, List, [], ◌∷◌, if◌then◌else◌, Bytes, Result, ok, failed, ◌>>=◌, or_abort}
use leech.Json.Syntax.{Json, Fields, object, null, get, has_key, remove, keys}
use leech.Json.Equal.{json_equal}
use leech.Json.Access.{is_null, object_set}
use leech.Json.Dictionary.{Dictionary, fresh, dictionary_set, dictionary_remove}
use leech.Delta.Names.{inserts_key, deletes_key, updates_key}
use leech.Delta.Create.{
  get_inserts, get_deletes, get_updates, remove_inserts, remove_deletes, remove_updates,
}

pub record Operations (N : Type 0) : Type 0 where
  pub inserts : Fields N
  pub deletes : Fields N
  pub updates : Fields N

-- The three objects of the parent while a child is merged into it
pub record Merging (N : Type 0) : Type 0 where
  pub inserts : Dictionary N
  pub deletes : Dictionary N
  pub updates : Dictionary N

module _ {N : Type 0} where
  abbrev pub begin : Operations N → Merging N
  begin operations = record {
    inserts = fresh operations.inserts;
    deletes = fresh operations.deletes;
    updates = fresh operations.updates;
  }

  abbrev pub merged_entries : Merging N → Operations N
  merged_entries parent = record {
    inserts = parent.inserts.entries;
    deletes = parent.deletes.entries;
    updates = parent.updates.entries;
  }

  -- `LCH_JsonObjectRemove` on an object of the parent
  abbrev pub take_from : Dictionary N → Bytes → Result (Json N × Dictionary N)
  take_from dictionary key = do
    value ← or_abort (get dictionary.entries key)
    ok (value, dictionary_remove dictionary key)

  -- `LCH_JsonObjectRemove`
  abbrev pub take : Fields N → Bytes → Result (Json N × Fields N)
  take fields key = do value ← or_abort (get fields key); ok (value, remove fields key)

  -- The first lines of each `Merge` function
  abbrev pub get_operations : Json N → Result (Operations N)
  get_operations parent = do
    inserts ← get_inserts parent
    deletes ← get_deletes parent
    updates ← get_updates parent
    ok (record { inserts = inserts; deletes = deletes; updates = updates })

  -- The parent, its three objects changed in place
  abbrev pub put_operations : Json N → Operations N → Result (Json N)
  put_operations parent operations = do
    parent ← object_set parent inserts_key (object operations.inserts)
    parent ← object_set parent deletes_key (object operations.deletes)
    object_set parent updates_key (object operations.updates)

module _ {N : Type 0} (number_eq : N → N → Bool) where
  -- The body of the loop of `MergeInsertOperations`
  unfoldable pub merge_insert : Merging N → Fields N → Bytes → Result (Merging N × Fields N)
  merge_insert parent child_inserts key =
      if has_key parent.inserts.entries key
      then failed
      else if has_key parent.deletes.entries key
      then (do
        (parent_value, parent_deletes) ← take_from parent.deletes key
        (child_value, rest) ← take child_inserts key
        (if json_equal number_eq parent_value child_value
            then ok (record parent { deletes = parent_deletes }, rest)
            else ok (
              record parent {
                deletes = parent_deletes;
                updates = dictionary_set parent.updates key child_value;
              },
              rest,
            )))
      else if has_key parent.updates.entries key
      then failed
      else (do
        (child_value, rest) ← take child_inserts key
        ok (record parent { inserts = dictionary_set parent.inserts key child_value }, rest))

  -- The body of the loop of `MergeDeleteOperations`
  unfoldable pub merge_delete : Merging N → Fields N → Bytes → Result (Merging N × Fields N)
  merge_delete parent child_deletes key =
      if has_key parent.inserts.entries key
      then (do
        (parent_value, parent_inserts) ← take_from parent.inserts key
        (child_value, rest) ← take child_deletes key
        (if json_equal number_eq parent_value child_value
            then ok (record parent { inserts = parent_inserts }, rest)
            else if is_null child_value
            then ok (record parent { inserts = parent_inserts }, rest)
            else failed))
      else if has_key parent.deletes.entries key
      then failed
      else if has_key parent.updates.entries key
      then (do
        (parent_value, parent_updates) ← take_from parent.updates key
        (child_value, rest) ← take child_deletes key
        (let deleted = record parent {
          deletes = dictionary_set parent.deletes key null;
          updates = parent_updates;
        } in
            if json_equal number_eq parent_value child_value
            then ok (deleted, rest)
            else if is_null child_value
            then ok (deleted, rest)
            else failed))
      else (do
        (child_value, rest) ← take child_deletes key
        ok (record parent { deletes = dictionary_set parent.deletes key child_value }, rest))

  -- The body of the loop of `MergeUpdateOperations`
  unfoldable pub merge_update : Merging N → Fields N → Bytes → Result (Merging N × Fields N)
  merge_update parent child_updates key =
      if has_key parent.inserts.entries key
      then (do
        (child_value, rest) ← take child_updates key
        ok (record parent { inserts = dictionary_set parent.inserts key child_value }, rest))
      else if has_key parent.deletes.entries key
      then failed
      else if has_key parent.updates.entries key
      then (do
        (child_value, rest) ← take child_updates key
        ok (record parent { updates = dictionary_set parent.updates key child_value }, rest))
      else (do
        (child_value, rest) ← take child_updates key
        ok (record parent { updates = dictionary_set parent.updates key child_value }, rest))

module _ {N : Type 0} (body : Merging N → Fields N → Bytes → Result (Merging N × Fields N)) where
  -- The loops of the three functions, over the keys that the child had at first
  unfoldable pub merge_keys : List Bytes → Merging N → Fields N → Result (Merging N × Fields N)
  merge_keys [] parent child = ok (parent, child)
  merge_keys (key ∷ rest) parent child = do
    (parent', child') ← body parent child key
    merge_keys rest parent' child'

  -- `MergeInsertOperations`, `MergeDeleteOperations` and `MergeUpdateOperations`, by their bodies
  unfoldable pub merge_operations : Merging N → Fields N → Result (Merging N)
  merge_operations parent child = do (parent', _) ← merge_keys (keys child) parent child; ok parent'

module _ {N : Type 0} (number_eq : N → N → Bool) where
  -- `LCH_DeltaMerge`: the parent afterwards
  unfoldable pub delta_merge : Json N → Json N → Result (Json N)
  delta_merge parent child = do
    (child_inserts, child) ← remove_inserts child
    operations ← get_operations parent
    merging ← merge_operations (merge_insert number_eq) (begin operations) child_inserts
    (child_deletes, child) ← remove_deletes child
    merging ← merge_operations (merge_delete number_eq) merging child_deletes
    (child_updates, _) ← remove_updates child
    merging ← merge_operations (merge_update number_eq) merging child_updates
    put_operations parent (merged_entries merging)
