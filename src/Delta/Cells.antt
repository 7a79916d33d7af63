-- ===== src/Delta/Cells.antt =====
-- A delta seen at one key, and what each step of the merge does there.
use leech.Base.{
  Bool, true, ◌||◌, Option, none, some, if◌then◌else◌, ◌≡◌, arith, Bytes, ok, Option-cases, inl,
  inr, Bool-cases,
}
use leech.Buffer.{equal}
use leech.Buffer.Order.{equal_iff}
use leech.Json.Syntax.{Json, Fields, null, get, set, remove, Distinct}
use leech.Json.Fields.{set-Distinct, remove-Distinct, get-set, get-remove, has_key-get}
use leech.Json.Equal.{json_equal}
use leech.Json.Access.{is_null}
use leech.Delta.Merge.{Operations}
use leech.Delta.Reference.{plain_insert, plain_delete, plain_update}

-- What a delta says of one key
pub record Cell (N : Type 0) : Type 0 where
  pub inserted : Option (Json N)
  pub deleted : Option (Json N)
  pub updated : Option (Json N)

abbrev pub cell : {N : Type 0} → Operations N → Bytes → Cell N
cell operations key = record {
  inserted = get operations.inserts key;
  deleted = get operations.deletes key;
  updated = get operations.updates key;
}

-- Each key stands once in each of the three objects.
pub record AllDistinct {N : Type 0} (operations : Operations N) : Type 0 where
  pub inserts_once : Distinct operations.inserts
  pub deletes_once : Distinct operations.deletes
  pub updates_once : Distinct operations.updates

module _ {N : Type 0} (number_eq : N → N → Bool) where
  -- An insert of `v` after the parent's operation, which is a delete or none
  abbrev pub after_insert : Cell N → Json N → Cell N
  after_insert c v = elim c.deleted [
    | none ↦ record c { inserted = some v }
    | some w ↦
        if json_equal number_eq w v
        then record c { deleted = none }
        else record c { deleted = none; updated = some v }
  ]

  pub merge_insert-cell :
      (parent : Operations N) (child : Fields N) (key : Bytes) (v : Json N)
      → get child key ≡ some v
      → get parent.inserts key ≡ none
      → get parent.updates key ≡ none
      → (p : Operations N) × (plain_insert number_eq parent child key ≡ ok (p, remove child key))
        × (AllDistinct parent → AllDistinct p)
        × ((j : Bytes)
            → cell p j ≡ (if equal key j then after_insert (cell parent key) v else cell parent j))
  unfolding plain_insert
  merge_insert-cell parent child key v c i u = elim (Option-cases (get parent.deletes key)) [
    | inl d ↦ (
      record parent { inserts = set parent.inserts key v },
      ground (
        arith,
        has_key-get parent.inserts key,
        has_key-get parent.deletes key,
        has_key-get parent.updates key,
      ),
      λ o. record {
        inserts_once = set-Distinct parent.inserts key v o.inserts_once;
        deletes_once = o.deletes_once;
        updates_once = o.updates_once;
      },
      λ j. ground (arith, get-set parent.inserts key j v, equal_iff key j),
    )
    | inr (w, d) ↦ elim (Bool-cases (json_equal number_eq w v)) [
      | inl e ↦ (
        record parent { deletes = remove parent.deletes key },
        ground (arith, has_key-get parent.inserts key, has_key-get parent.deletes key),
        λ o. record {
          inserts_once = o.inserts_once;
          deletes_once = remove-Distinct parent.deletes key o.deletes_once;
          updates_once = o.updates_once;
        },
        λ j. ground (arith, get-remove parent.deletes key j, equal_iff key j),
      )
      | inr e ↦ (
        record parent { deletes = remove parent.deletes key; updates = set parent.updates key v },
        ground (arith, has_key-get parent.inserts key, has_key-get parent.deletes key),
        λ o. record {
          inserts_once = o.inserts_once;
          deletes_once = remove-Distinct parent.deletes key o.deletes_once;
          updates_once = set-Distinct parent.updates key v o.updates_once;
        },
        λ j. ground (
          arith,
          get-remove parent.deletes key j,
          get-set parent.updates key j v,
          equal_iff key j,
        ),
      )
    ]
  ]

  -- A delete of `v` after the parent's operation, which is an insert, an update or none
  abbrev pub after_delete : Cell N → Json N → Cell N
  after_delete c v = elim c.inserted [
    | some w ↦ record c { inserted = none }
    | none ↦ elim c.updated [
      | some w ↦ record c { deleted = some null; updated = none }
      | none ↦ record c { deleted = some v }
    ]
  ]

  -- The value that is deleted is the one that the parent set, or null.
  abbrev pub fits : Json N → Option (Json N) → Bool
  fits v none = true
  fits v (some w) = json_equal number_eq w v || is_null v

  pub merge_delete-cell :
      (parent : Operations N) (child : Fields N) (key : Bytes) (v : Json N)
      → get child key ≡ some v
      → get parent.deletes key ≡ none
      → fits v (get parent.inserts key) ≡ true
      → fits v (get parent.updates key) ≡ true
      → (p : Operations N) × (plain_delete number_eq parent child key ≡ ok (p, remove child key))
        × (AllDistinct parent → AllDistinct p)
        × ((j : Bytes)
            → cell p j ≡ (if equal key j then after_delete (cell parent key) v else cell parent j))
  unfolding plain_delete
  merge_delete-cell parent child key v c d fi fu = elim (Option-cases (get parent.inserts key)) [
    | inr (w, i) ↦ (
      record parent { inserts = remove parent.inserts key },
      ground (arith, has_key-get parent.inserts key),
      λ o. record {
        inserts_once = remove-Distinct parent.inserts key o.inserts_once;
        deletes_once = o.deletes_once;
        updates_once = o.updates_once;
      },
      λ j. ground (arith, get-remove parent.inserts key j, equal_iff key j),
    )
    | inl i ↦ elim (Option-cases (get parent.updates key)) [
      | inr (w, u) ↦ (
        record parent {
          deletes = set parent.deletes key null;
          updates = remove parent.updates key;
        },
        ground (
          arith,
          has_key-get parent.inserts key,
          has_key-get parent.deletes key,
          has_key-get parent.updates key,
        ),
        λ o. record {
          inserts_once = o.inserts_once;
          deletes_once = set-Distinct parent.deletes key null o.deletes_once;
          updates_once = remove-Distinct parent.updates key o.updates_once;
        },
        λ j. ground (
          arith,
          get-set parent.deletes key j null,
          get-remove parent.updates key j,
          equal_iff key j,
        ),
      )
      | inl u ↦ (
        record parent { deletes = set parent.deletes key v },
        ground (
          arith,
          has_key-get parent.inserts key,
          has_key-get parent.deletes key,
          has_key-get parent.updates key,
        ),
        λ o. record {
          inserts_once = o.inserts_once;
          deletes_once = set-Distinct parent.deletes key v o.deletes_once;
          updates_once = o.updates_once;
        },
        λ j. ground (arith, get-set parent.deletes key j v, equal_iff key j),
      )
    ]
  ]

  -- An update to `v` after the parent's operation, which is an insert, an update or none
  abbrev pub after_update : Cell N → Json N → Cell N
  after_update c v = elim c.inserted [
    | some w ↦ record c { inserted = some v }
    | none ↦ record c { updated = some v }
  ]

  pub merge_update-cell :
      (parent : Operations N) (child : Fields N) (key : Bytes) (v : Json N)
      → get child key ≡ some v
      → get parent.deletes key ≡ none
      → (p : Operations N) × (plain_update number_eq parent child key ≡ ok (p, remove child key))
        × (AllDistinct parent → AllDistinct p)
        × ((j : Bytes)
            → cell p j ≡ (if equal key j then after_update (cell parent key) v else cell parent j))
  unfolding plain_update
  merge_update-cell parent child key v c d = elim (Option-cases (get parent.inserts key)) [
    | inr (w, i) ↦ (
      record parent { inserts = set parent.inserts key v },
      ground (arith, has_key-get parent.inserts key),
      λ o. record {
        inserts_once = set-Distinct parent.inserts key v o.inserts_once;
        deletes_once = o.deletes_once;
        updates_once = o.updates_once;
      },
      λ j. ground (arith, get-set parent.inserts key j v, equal_iff key j),
    )
    | inl i ↦ (
      record parent { updates = set parent.updates key v },
      ground (arith, has_key-get parent.inserts key, has_key-get parent.deletes key),
      λ o. record {
        inserts_once = o.inserts_once;
        deletes_once = o.deletes_once;
        updates_once = set-Distinct parent.updates key v o.updates_once;
      },
      λ j. ground (arith, get-set parent.updates key j v, equal_iff key j),
    )
  ]
