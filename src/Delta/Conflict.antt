-- ===== src/Delta/Conflict.antt =====
-- Inserts that cannot follow the operations of the parent: the merge returns false.
use leech.Base.{
  Bool, true, false, not, ◌&&◌, ◌||◌, List, [], ◌∷◌, some, ◌≡◌, ◌⊎◌, inl, inr, refl, sym, ap, ◌∙◌,
  arith, ◌+◌, Bytes, ok, failed, Option-cases, Bool-cases,
}
use leech.Buffer.{equal}
use leech.Buffer.Order.{equal_iff}
use leech.Json.Syntax.{Json, Fields, get, set, has_key, remove, keys, size, Distinct}
use leech.Json.Fields.{
  is_some, listed, Once, get-set, get-remove, has_key-get, equal_refl, keys-Once, listed-keys,
}
use leech.Json.SetMinusLaws.{get_listed}
use leech.Json.Equal.{json_equal}
use leech.Delta.Merge.{Operations, begin, merge_insert, delta_merge}
use leech.Delta.Reference.{plain_insert, plain_keys}
use leech.Delta.Same.{weight}
use leech.Delta.Room.{merge_insert-Same}
use leech.Delta.Lossless.{
  Unworn, Unknown, Unworn-Kept, Unknown-Removing, begin-Unworn, merge_operations-failed,
}
use leech.Delta.Cells.{Cell, cell}
use leech.Delta.Parts.{HasOperations, HasOperations-get}

-- The parent inserts the record, or updates it and does not delete it.
abbrev pub clash : {N : Type 0} → Cell N → Bool
clash c = is_some c.inserted || (not (is_some c.deleted) && is_some c.updated)

module _ {N : Type 0} (number_eq : N → N → Bool) where
  merge_insert-clash :
      (parent : Operations N) (child : Fields N) (key : Bytes)
      → clash (cell parent key) ≡ true
      → plain_insert number_eq parent child key ≡ failed
  unfolding plain_insert
  merge_insert-clash parent child key h = ground (
    arith,
    has_key-get parent.inserts key,
    has_key-get parent.deletes key,
    has_key-get parent.updates key,
  )

  -- A turn of the loop fails, or changes what stands under its key only.
  merge_insert_turn :
      (parent : Operations N) (child : Fields N) (key : Bytes) (v : Json N)
      → get child key ≡ some v
      → (plain_insert number_eq parent child key ≡ failed)
        ⊎ ((p : Operations N) × (plain_insert number_eq parent child key ≡ ok (p, remove child key))
            × ((j : Bytes) → equal key j ≡ false → cell p j ≡ cell parent j))
  unfolding plain_insert
  merge_insert_turn parent child key v c = elim (Bool-cases (clash (cell parent key))) [
    | inl h ↦ inl (merge_insert-clash parent child key h)
    | inr h ↦ elim (Option-cases (get parent.deletes key)) [
      | inl d ↦ inr (
        record parent { inserts = set parent.inserts key v },
        ground (
          arith,
          has_key-get parent.inserts key,
          has_key-get parent.deletes key,
          has_key-get parent.updates key,
        ),
        λ j e. rw (get-set, e) refl,
      )
      | inr (w, d) ↦ elim (Bool-cases (json_equal number_eq w v)) [
        | inl e ↦ inr (
          record parent { deletes = remove parent.deletes key },
          ground (arith, has_key-get parent.inserts key, has_key-get parent.deletes key),
          λ j e. rw (get-remove, e) refl,
        )
        | inr e ↦ inr (
          record parent { deletes = remove parent.deletes key; updates = set parent.updates key v },
          ground (arith, has_key-get parent.inserts key, has_key-get parent.deletes key),
          λ j e. rw (get-remove, get-set, e) refl,
        )
      ]
    ]
  ]

  merge_keys-clash :
      (ks : List Bytes) (parent : Operations N) (child : Fields N) (key : Bytes)
      → Once ks
      → ((k : Bytes) → listed ks k ≡ true → (v : Json N) × (get child k ≡ some v))
      → listed ks key ≡ true
      → clash (cell parent key) ≡ true
      → plain_keys (plain_insert number_eq) ks parent child ≡ failed
  unfolding plain_keys
  merge_keys-clash [] parent child key once there l h = cc
  merge_keys-clash (k ∷ ks) parent child key once there l h = elim (Bool-cases (equal k key)) [
    | inl same ↦
        let e : k ≡ key = (equal_iff k key).0 same in
        rw (merge_insert-clash parent child k (rw e h))
    | inr other ↦
        let (v, c) = there k (rw equal_refl) in
        elim (merge_insert_turn parent child k v c) [
          | inl e ↦ rw e
          | inr (p, e, cells) ↦ rw e (
              merge_keys-clash ks p (remove child k) key once.1
                (λ j m.
                  let apart : equal k j ≡ false = ground (arith, equal_iff k j, once.0) in
                  let (w, f) = there j (rw apart m) in (w, get-remove child k j ∙ rw apart f))
                (rw other at l) (ap clash (cells key other) ∙ h))
        ]
  ]

  -- A child delta that inserts a record which the parent inserts, or updates without a delete, is
  -- refused: `LCH_DeltaMerge` returns false. Both deltas have their three objects, and the child
  -- inserts each key once.
  pub delta_merge-clash :
      (parent child : Json N) (p c : Operations N) (key : Bytes)
      → HasOperations parent p
      → HasOperations child c
      → Distinct c.inserts
      → has_key c.inserts key ≡ true
      → clash (cell p key) ≡ true
      → delta_merge number_eq parent child ≡ failed
  unfolding delta_merge
  delta_merge-clash parent child p c key hp hc d present h =
      let loop =
        merge_keys-clash (keys c.inserts) p c.inserts key (keys-Once c.inserts d)
          (λ k l. get_listed c.inserts k (sym (listed-keys c.inserts k) ∙ l))
          (listed-keys c.inserts key ∙ present) h in
      let refused =
        merge_operations-failed (merge_insert number_eq) (plain_insert number_eq) Unworn Unknown
          (merge_insert-Same number_eq Unworn Unknown Unworn-Kept Unknown-Removing)
          (weight p + (size c.inserts + 0)) 0 (begin p) c.inserts
          (begin-Unworn p (size c.inserts + 0)) loop in
      rw hc.is_object (rw hc.inserts_at (rw (HasOperations-get parent p hp) (rw refused)))
