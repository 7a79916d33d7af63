-- ===== src/Delta/Reference.antt =====
-- The bodies of the loops of lib/delta.c on sequences of entries, without the arrays of the dictionaries:
-- the reference for those of Merge.
use leech.Base.{Bool, List, [], ◌∷◌, if◌then◌else◌, Bytes, Result, ok, failed, ◌>>=◌}
use leech.Json.Syntax.{Fields, null, has_key, set}
use leech.Json.Equal.{json_equal}
use leech.Json.Access.{is_null}
use leech.Delta.Merge.{Operations, take}

module _ {N : Type 0} (number_eq : N → N → Bool) where
  unfoldable pub plain_insert : Operations N → Fields N → Bytes → Result (Operations N × Fields N)
  plain_insert parent child_inserts key =
      if has_key parent.inserts key
      then failed
      else if has_key parent.deletes key
      then (do
        (parent_value, parent_deletes) ← take parent.deletes key
        (child_value, rest) ← take child_inserts key
        (if json_equal number_eq parent_value child_value
            then ok (record parent { deletes = parent_deletes }, rest)
            else ok (
              record parent {
                deletes = parent_deletes;
                updates = set parent.updates key child_value;
              },
              rest,
            )))
      else if has_key parent.updates key
      then failed
      else (do
        (child_value, rest) ← take child_inserts key
        ok (record parent { inserts = set parent.inserts key child_value }, rest))

  unfoldable pub plain_delete : Operations N → Fields N → Bytes → Result (Operations N × Fields N)
  plain_delete parent child_deletes key =
      if has_key parent.inserts key
      then (do
        (parent_value, parent_inserts) ← take parent.inserts key
        (child_value, rest) ← take child_deletes key
        (if json_equal number_eq parent_value child_value
            then ok (record parent { inserts = parent_inserts }, rest)
            else if is_null child_value
            then ok (record parent { inserts = parent_inserts }, rest)
            else failed))
      else if has_key parent.deletes key
      then failed
      else if has_key parent.updates key
      then (do
        (parent_value, parent_updates) ← take parent.updates key
        (child_value, rest) ← take child_deletes key
        (let deleted = record parent {
          deletes = set parent.deletes key null;
          updates = parent_updates;
        } in
            if json_equal number_eq parent_value child_value
            then ok (deleted, rest)
            else if is_null child_value
            then ok (deleted, rest)
            else failed))
      else (do
        (child_value, rest) ← take child_deletes key
        ok (record parent { deletes = set parent.deletes key child_value }, rest))

  unfoldable pub plain_update : Operations N → Fields N → Bytes → Result (Operations N × Fields N)
  plain_update parent child_updates key =
      if has_key parent.inserts key
      then (do
        (child_value, rest) ← take child_updates key
        ok (record parent { inserts = set parent.inserts key child_value }, rest))
      else if has_key parent.deletes key
      then failed
      else if has_key parent.updates key
      then (do
        (child_value, rest) ← take child_updates key
        ok (record parent { updates = set parent.updates key child_value }, rest))
      else (do
        (child_value, rest) ← take child_updates key
        ok (record parent { updates = set parent.updates key child_value }, rest))

module _ {N : Type 0}
    (body : Operations N → Fields N → Bytes → Result (Operations N × Fields N)) where
  unfoldable pub plain_keys :
      List Bytes → Operations N → Fields N → Result (Operations N × Fields N)
  plain_keys [] parent child = ok (parent, child)
  plain_keys (key ∷ rest) parent child = do
    (parent', child') ← body parent child key
    plain_keys rest parent' child'
