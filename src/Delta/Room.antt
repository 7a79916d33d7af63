-- ===== src/Delta/Room.antt =====
-- Where no dictionary of the parent loses its elements, the turns of the loops do what Reference says, and
-- each takes up room for one more element.
use leech.Base.{ℕ, suc, ◌+◌, ◌≤◌, Bool, ◌≡◌, refl, arith, Bytes, ok}
use leech.Json.Syntax.{Json, Fields, null, has_key, set, remove}
use leech.Json.Sizes.{size-remove_le}
use leech.Json.Equal.{json_equal}
use leech.Json.Access.{is_null}
use leech.Json.Dictionary.{Dictionary, dictionary_set, dictionary_remove}
use leech.Delta.Merge.{Merging, merged_entries, merge_insert, merge_delete, merge_update}
use leech.Delta.Reference.{plain_insert, plain_delete, plain_update}
use leech.Delta.Same.{
  Same, same_ok, same_failed, if-Same, take_from-Same, take-Same, weight, size-set_le,
}

-- What is kept of a dictionary while it has room for a number of elements more
pub record Kept {N : Type 0} (A : ℕ → Dictionary N → Type 0) : Type 0 where
  pub put :
      (n : ℕ) (d : Dictionary N) (key : Bytes) (v : Json N)
      → A (suc n) d
      → ((dictionary_set d key v).entries ≡ set d.entries key v) × A n (dictionary_set d key v)
  pub less : (n : ℕ) (d : Dictionary N) → A (suc n) d → A n d

-- The same while elements are removed from it
pub record Removing {N : Type 0} (A : ℕ → Dictionary N → Type 0) : Type 0 where
  pub removed :
      (n : ℕ) (d : Dictionary N) (key : Bytes) → A (suc n) d → A n (dictionary_remove d key)
  pub less : (n : ℕ) (d : Dictionary N) → A (suc n) d → A n d

-- What holds of the three objects of the parent before `n` more turns
pub record Ready {N : Type 0} (A B : ℕ → Dictionary N → Type 0) (total n : ℕ) (parent : Merging N)
    : Type 0 where
  pub inserts_have : A n parent.inserts
  pub deletes_have : B n parent.deletes
  pub updates_have : A n parent.updates
  pub bounded : weight (merged_entries parent) + n ≤ total

module _ {N : Type 0} (number_eq : N → N → Bool) (A B : ℕ → Dictionary N → Type 0) (kept : Kept A)
    (removing : Removing B) (total n : ℕ) where
  pub merge_insert-Same :
      (parent : Merging N) (child : Fields N) (key : Bytes)
      → Ready A B total (suc n) parent
      → Same
          (Ready A B total n)
          (merge_insert number_eq parent child key)
          (plain_insert number_eq (merged_entries parent) child key)
  unfolding merge_insert plain_insert
  merge_insert-Same parent child key h = if-Same (has_key parent.inserts.entries key) same_failed (
      if-Same (has_key parent.deletes.entries key)
        (take_from-Same parent.deletes key _ _ (λ w. take-Same child key _ _ (λ v.
          let gone = removing.removed n parent.deletes key h.deletes_have in
          let (e, has) = kept.put n parent.updates key v h.updates_have in
          if-Same (json_equal number_eq w v)
            (same_ok _ _ _ refl (record {
              inserts_have = kept.less n parent.inserts h.inserts_have;
              deletes_have = gone;
              updates_have = kept.less n parent.updates h.updates_have;
              bounded = omega (arith, h.bounded, size-remove_le parent.deletes.entries key);
            }))
            (same_ok _ _ _ (rw e refl) (record {
              inserts_have = kept.less n parent.inserts h.inserts_have;
              deletes_have = gone;
              updates_have = has;
              bounded = rw e (
                  omega (
                    arith,
                    h.bounded,
                    size-remove_le parent.deletes.entries key,
                    size-set_le parent.updates.entries key v,
                  ));
            })))))
        (if-Same (has_key parent.updates.entries key) same_failed (
          take-Same child key _ _ (λ v.
            let (e, has) = kept.put n parent.inserts key v h.inserts_have in
            same_ok _ _ _ (rw e refl) (record {
              inserts_have = has;
              deletes_have = removing.less n parent.deletes h.deletes_have;
              updates_have = kept.less n parent.updates h.updates_have;
              bounded = rw e (omega (arith, h.bounded, size-set_le parent.inserts.entries key v));
            })))))

module _ {N : Type 0} (number_eq : N → N → Bool) (A : ℕ → Dictionary N → Type 0) (kept : Kept A)
    (removing : Removing A) (total n : ℕ) where
  pub merge_delete-Same :
      (parent : Merging N) (child : Fields N) (key : Bytes)
      → Ready A A total (suc n) parent
      → Same
          (Ready A A total n)
          (merge_delete number_eq parent child key)
          (plain_delete number_eq (merged_entries parent) child key)
  unfolding merge_delete plain_delete
  merge_delete-Same parent child key h =
      let without : Ready A A total n
          (record parent { inserts = dictionary_remove parent.inserts key }) =
        record {
          inserts_have = removing.removed n parent.inserts key h.inserts_have;
          deletes_have = kept.less n parent.deletes h.deletes_have;
          updates_have = kept.less n parent.updates h.updates_have;
          bounded = omega (arith, h.bounded, size-remove_le parent.inserts.entries key);
        } in
      let (e, has) = kept.put n parent.deletes key null h.deletes_have in
      let deleted : Ready A A total n (record parent {
        deletes = dictionary_set parent.deletes key null;
        updates = dictionary_remove parent.updates key;
      }) =
        record {
          inserts_have = kept.less n parent.inserts h.inserts_have;
          deletes_have = has;
          updates_have = removing.removed n parent.updates key h.updates_have;
          bounded = rw e (
              omega (
                arith,
                h.bounded,
                size-set_le parent.deletes.entries key null,
                size-remove_le parent.updates.entries key,
              ));
        } in
      if-Same (has_key parent.inserts.entries key)
        (take_from-Same parent.inserts key _ _ (λ w. take-Same child key _ _ (λ v.
          if-Same (json_equal number_eq w v) (same_ok _ _ _ refl without)
            (if-Same (is_null v) (same_ok _ _ _ refl without) same_failed))))
        (if-Same (has_key parent.deletes.entries key) same_failed (
          if-Same (has_key parent.updates.entries key)
            (take_from-Same parent.updates key _ _ (λ w. take-Same child key _ _ (λ v.
              if-Same (json_equal number_eq w v) (same_ok _ _ _ (rw e refl) deleted)
                (if-Same (is_null v) (same_ok _ _ _ (rw e refl) deleted) same_failed))))
            (take-Same child key _ _ (λ v.
              let (e', has') = kept.put n parent.deletes key v h.deletes_have in
              same_ok _ _ _ (rw e' refl) (record {
                inserts_have = kept.less n parent.inserts h.inserts_have;
                deletes_have = has';
                updates_have = kept.less n parent.updates h.updates_have;
                bounded =
                    rw e' (omega (arith, h.bounded, size-set_le parent.deletes.entries key v));
              })))))

  pub merge_update-Same :
      (parent : Merging N) (child : Fields N) (key : Bytes)
      → Ready A A total (suc n) parent
      → Same
          (Ready A A total n)
          (merge_update number_eq parent child key)
          (plain_update number_eq (merged_entries parent) child key)
  unfolding merge_update plain_update
  merge_update-Same parent child key h =
      let updated : (v : Json N)
          → Same (Ready A A total n)
              (ok
                (record parent { updates = dictionary_set parent.updates key v }, remove child key))
              (ok (
                record (merged_entries parent) { updates = set parent.updates.entries key v },
                remove child key,
              )) =
        λ v.
          let (e, has) = kept.put n parent.updates key v h.updates_have in
          same_ok _ _ _ (rw e refl) (record {
            inserts_have = kept.less n parent.inserts h.inserts_have;
            deletes_have = kept.less n parent.deletes h.deletes_have;
            updates_have = has;
            bounded = rw e (omega (arith, h.bounded, size-set_le parent.updates.entries key v));
          }) in
      if-Same (has_key parent.inserts.entries key)
        (take-Same child key _ _ (λ v.
          let (e, has) = kept.put n parent.inserts key v h.inserts_have in
          same_ok _ _ _ (rw e refl) (record {
            inserts_have = has;
            deletes_have = kept.less n parent.deletes h.deletes_have;
            updates_have = kept.less n parent.updates h.updates_have;
            bounded = rw e (omega (arith, h.bounded, size-set_le parent.inserts.entries key v));
          })))
        (if-Same (has_key parent.deletes.entries key) same_failed (
          if-Same (has_key parent.updates.entries key) (take-Same child key _ _ updated)
            (take-Same child key _ _ updated)))
