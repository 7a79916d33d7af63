-- ===== src/Delta/Correct.antt =====
-- The merge of two deltas does what the two do one after the other, below the load factor.
use leech.Base.{
  Bool, Option, some, if◌then◌else◌, ◌≡◌, sym, ◌∙◌, subst, ap, Bytes, Result, ok, Option-cases, inl,
  inr, ℕ, suc, ◌+◌, ◌≤◌, arith,
}
use leech.Buffer.{equal}
use leech.Json.Syntax.{Json, Fields, object, get, remove, keys, size, Distinct}
use leech.Json.Fields.{listed, get-remove, has_key-get, listed-keys, keys-Once}
use leech.Json.SetMinusLaws.{get_listed}
use leech.Delta.Names.{inserts_key, deletes_key, updates_key}
use leech.Delta.Create.{get_table_id, get_delta_type}
use leech.Delta.Merge.{
  Operations, Merging, begin, merged_entries, put_operations, merge_insert, merge_delete,
  merge_update, merge_operations, delta_merge,
}
use leech.Delta.Reference.{plain_insert, plain_delete, plain_update}
use leech.Delta.Same.{Same, weight}
use leech.Delta.Room.{Ready, merge_insert-Same, merge_delete-Same, merge_update-Same}
use leech.Delta.Lossless.{Roomy, Roomy-Kept, Roomy-Removing, begin-Roomy, merge_operations-plain}
use leech.Delta.Cells.{
  Cell, cell, AllDistinct, after_insert, after_delete, after_update, merge_insert-cell,
  merge_delete-cell, merge_update-cell,
}
use leech.Delta.Loop.{applied, Steps, merge_keys-cell}
use leech.Delta.Compose.{
  patched, Fits, deletes_merged, merged, ReadyInsert, ReadyDelete, ReadyUpdate, Composes, composes,
}
use leech.Delta.Parts.{HasOperations, HasOperations-get, put_operations-HasOperations}

applied-listed :
    {N : Type 0} (after : Cell N → Json N → Cell N) (parent : Operations N) (child : Fields N)
    (j : Bytes)
    → (if listed (keys child) j then applied after (cell parent j) (get child j) else cell parent j)
      ≡ applied after (cell parent j) (get child j)
applied-listed after parent child j = elim (Option-cases (get child j)) [
  | inl e ↦ rw (listed-keys, has_key-get, e)
  | inr (v, e) ↦ rw (listed-keys, has_key-get, e)
]

module _ {N : Type 0} (body : Merging N → Fields N → Bytes → Result (Merging N × Fields N))
    (plain : Operations N → Fields N → Bytes → Result (Operations N × Fields N))
    (after : Cell N → Json N → Cell N) (Admits : Cell N → Json N → Type 0)
    (steps : Steps plain after Admits)
    (turn : (total n : ℕ) (parent : Merging N) (child : Fields N) (key : Bytes)
      → Ready Roomy Roomy total (suc n) parent
      → Same
          (Ready Roomy Roomy total n)
          (body parent child key)
          (plain (merged_entries parent) child key)) where
  -- A loop of the merge with room for the entries of the child, and for `n` more behind it
  merge_operations_lem :
      (total n : ℕ) (parent : Merging N) (child : Fields N)
      → Ready Roomy Roomy total (size child + n) parent
      → Distinct child
      → ((k : Bytes) (v : Json N)
          → get child k ≡ some v
          → Admits (cell (merged_entries parent) k) v)
      → (p : Merging N) × (merge_operations body parent child ≡ ok p)
        × Ready Roomy Roomy total n p
        × (AllDistinct (merged_entries parent) → AllDistinct (merged_entries p))
        × ((j : Bytes)
            → cell (merged_entries p) j
              ≡ applied after (cell (merged_entries parent) j) (get child j))
  merge_operations_lem total n parent child room d ready =
      let (q, rest, done, keeps, cells) =
        merge_keys-cell plain after Admits steps (keys child) (merged_entries parent) child
          (keys-Once child d)
          (λ k l.
            let (v, e) = get_listed child k (sym (listed-keys child k) ∙ l) in
            (v, e, ready k v e)) in
      let (p, run, same, room') =
        merge_operations-plain body plain Roomy Roomy turn total n parent child q rest room done in
      (
        p,
        run,
        room',
        λ o. subst AllDistinct (sym same) (keeps o),
        λ j.
            ap (λ o. cell o j) same
            ∙ cells j
            ∙ applied-listed after (merged_entries parent) child j,
      )

-- The delta as a patch for a table: what it makes of the records, and that it can be applied.
abbrev pub patch : {N : Type 0} → Operations N → (Bytes → Option (Json N)) → Bytes → Option (Json N)
patch operations state key = patched (cell operations key) (state key)

abbrev pub Applies : {N : Type 0} → Operations N → (Bytes → Option (Json N)) → Type 0
Applies operations state = (key : Bytes) → Fits (cell operations key) (state key)

module _ {N : Type 0} (number_eq : N → N → Bool) where
  steps_insert : Steps (plain_insert number_eq) (after_insert number_eq) (ReadyInsert number_eq)
  steps_insert parent child key v e r = merge_insert-cell number_eq parent child key v e r.0 r.1

  steps_delete : Steps (plain_delete number_eq) (after_delete number_eq) (ReadyDelete number_eq)
  steps_delete parent child key v e r = merge_delete-cell number_eq parent child key v e r.0 r.1 r.2

  steps_update : Steps (plain_update number_eq) (after_update number_eq) (ReadyUpdate number_eq)
  steps_update parent child key v e r = merge_update-cell number_eq parent child key v e r

  -- The child is read part by part, each part removed before the next.
  delta_merge_run :
      (parent child : Json N) (p c : Operations N)
      → HasOperations parent p
      → HasOperations child c
      → (m1 m2 m3 : Merging N) (delta : Json N)
      → merge_operations (merge_insert number_eq) (begin p) c.inserts ≡ ok m1
      → merge_operations (merge_delete number_eq) m1 c.deletes ≡ ok m2
      → merge_operations (merge_update number_eq) m2 c.updates ≡ ok m3
      → put_operations parent (merged_entries m3) ≡ ok delta
      → delta_merge number_eq parent child ≡ ok delta
  unfolding delta_merge equal
  delta_merge_run parent child p c hp h m1 m2 m3 delta first second third put =
      let deletes_left : get (remove h.entries inserts_key) deletes_key ≡ some (object c.deletes) =
        get-remove h.entries inserts_key deletes_key ∙ h.deletes_at in
      let updates_left : get (remove (remove h.entries inserts_key) deletes_key) updates_key
          ≡ some (object c.updates) =
        get-remove (remove h.entries inserts_key) deletes_key updates_key
        ∙ get-remove h.entries inserts_key updates_key
        ∙ h.updates_at in
      rw h.is_object (
        rw h.inserts_at (
          rw (HasOperations-get parent p hp)
            (rw first (rw deletes_left (rw second (rw updates_left (rw third put)))))))

  -- A parent that applies to a state, and a child, each of its keys once, that applies to the state
  -- after the parent, the two with at most 192 operations together: `LCH_DeltaMerge` merges them without
  -- an error, and keeps the table and the type. The merged delta applies to the first state, and makes
  -- of it what the parent and then the child make of it. Its keys stand once each if the parent's do, and
  -- it has no more operations than the two together.
  pub delta_merge_lem :
      (parent child : Json N) (p c : Operations N) (state : Bytes → Option (Json N))
      → HasOperations parent p
      → HasOperations child c
      → AllDistinct c
      → weight p + weight c ≤ 192
      → Applies p state
      → Applies c (patch p state)
      → (delta : Json N) × (m : Operations N) × (delta_merge number_eq parent child ≡ ok delta)
        × HasOperations delta m
        × Applies m state
        × ((key : Bytes) → patch m state key ≡ patch c (patch p state) key)
        × (AllDistinct p → AllDistinct m)
        × (weight m ≤ weight p + weight c)
        × (get_table_id delta ≡ get_table_id parent)
        × (get_delta_type delta ≡ get_delta_type parent)
  delta_merge_lem parent child p c state hp hc distinct few ap_ ac =
      let at : (k : Bytes) → Composes number_eq (cell p k) (cell c k) (state k) =
        λ k. composes number_eq (cell p k) (cell c k) (state k) (ap_ k) (ac k) in
      let total = weight p + weight c in
      let room0 : Ready Roomy Roomy total (size c.inserts + (size c.deletes + (size c.updates + 0)))
          (begin p) =
        subst (λ n. Ready Roomy Roomy total n (begin p)) (omega arith)
          (begin-Roomy p (weight c) few) in
      let (m1, done1, room1, keeps1, cells1) =
        merge_operations_lem (merge_insert number_eq) (plain_insert number_eq)
          (after_insert number_eq) (ReadyInsert number_eq) steps_insert
          (merge_insert-Same number_eq Roomy Roomy Roomy-Kept Roomy-Removing) total
          (size c.deletes + (size c.updates + 0)) (begin p) c.inserts room0 distinct.inserts_once
          (λ k v e. (at k).ready_insert v e) in
      let (m2, done2, room2, keeps2, cells2) =
        merge_operations_lem (merge_delete number_eq) (plain_delete number_eq)
          (after_delete number_eq) (ReadyDelete number_eq) steps_delete
          (merge_delete-Same number_eq Roomy Roomy-Kept Roomy-Removing) total (size c.updates + 0)
          m1 c.deletes room1 distinct.deletes_once
          (λ k v e.
            subst (λ x. ReadyDelete number_eq x v) (sym (cells1 k)) ((at k).ready_delete v e)) in
      let all2 : (k : Bytes)
          → cell (merged_entries m2) k ≡ deletes_merged number_eq (cell p k) (cell c k) =
        λ k. cells2 k ∙ ap (λ x. applied (after_delete number_eq) x (get c.deletes k)) (cells1 k) in
      let (m3, done3, room3, keeps3, cells3) =
        merge_operations_lem (merge_update number_eq) (plain_update number_eq)
          (after_update number_eq) (ReadyUpdate number_eq) steps_update
          (merge_update-Same number_eq Roomy Roomy-Kept Roomy-Removing) total 0 m2 c.updates room2
          distinct.updates_once
          (λ k v e.
            subst (λ x. ReadyUpdate number_eq x v) (sym (all2 k)) ((at k).ready_update v e)) in
      let all3 : (k : Bytes) → cell (merged_entries m3) k ≡ merged number_eq (cell p k) (cell c k) =
        λ k. cells3 k ∙ ap (λ x. applied (after_update number_eq) x (get c.updates k)) (all2 k) in
      let (delta, put, has, id, type) =
        put_operations-HasOperations parent p (merged_entries m3) hp in
      (
        delta,
        merged_entries m3,
        delta_merge_run parent child p c hp hc m1 m2 m3 delta done1 done2 done3 put,
        has,
        λ k. subst (λ x. Fits x (state k)) (sym (all3 k)) (at k).fits_before,
        λ k. ap (λ x. patched x (state k)) (all3 k) ∙ (at k).same,
        λ o. keeps3 (keeps2 (keeps1 o)),
        omega (arith, room3.bounded),
        id,
        type,
      )
