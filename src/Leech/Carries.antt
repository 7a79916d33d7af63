-- ===== src/Leech/Carries.antt =====
-- What a payload does: the deltas that it holds, one for each table, turn one state of the tables
-- into another.
use mathlib.Core.Path.{fun_ext}
use leech.Base.{
  ℕ, suc, ltb, ◌≤◌, ◌+◌, Bool, true, false, List, [], ◌∷◌, Option, some, if◌then◌else◌, ◌≡◌, sym,
  ◌∙◌, refl, ap, subst, arith, Bytes, ok, inl, inr, Bool-cases,
}
use leech.Buffer.{equal}
use leech.Buffer.Order.{equal_iff}
use leech.Json.Syntax.{Json, Items, Fields, object, no_items, item, get}
use leech.Json.SetMinusLaws.{Strings}
use leech.Json.Access.{object_get_string}
use leech.Json.Arrays.{items_set}
use leech.Json.Fields.{listed, Once, equal_refl, equal_sym}
use leech.Delta.Names.{id_key}
use leech.Delta.Create.{get_table_id, delta_create}
use leech.Delta.Difference.{delta_create_lem}
use leech.Delta.Merge.{Operations, get_operations}
use leech.Delta.Same.{weight}
use leech.Delta.Cells.{AllDistinct}
use leech.Delta.Parts.{HasOperations, HasOperations-get}
use leech.Delta.Correct.{patch, Applies}
use leech.Delta.Loop.{listed-ne}
use leech.Leech.Merge.{find_delta}

-- The records of a table by their keys, and those of all tables by their identifiers
abbrev pub State : Type 0 → Type 0
State N = Bytes → Option (Json N)

abbrev pub States : Type 0 → Type 0
States N = Bytes → State N

-- A delta of a table, with each key once, which applies to a state and makes another of it
pub record HasDelta {N : Type 0} (from to : State N) (id : Bytes) (delta : Json N) : Type 0 where
  pub operations : Operations N
  pub parts : HasOperations delta operations
  pub once : AllDistinct operations
  pub applies : Applies operations from
  pub patched_to : patch operations from ≡ to
  pub id_is : get_table_id delta ≡ ok id

pub data Carries {N : Type 0} (from to : States N) : List Bytes → Items N → Type 0 where
  nothing : Carries from to [] no_items
  carry :
      {k : Bytes} {ids : List Bytes} {delta : Json N} {items : Items N}
      → HasDelta (from k) (to k) k delta
      → Carries from to ids items
      → Carries from to (k ∷ ids) (item delta items)

module _ {N : Type 0} where
  -- The number of operations of a delta, and the largest of a payload
  abbrev pub delta_weight : Json N → ℕ
  delta_weight delta = elim (get_operations delta) [ ok operations ↦ weight operations | _ ↦ 0 ]

  abbrev pub payload_weight : Items N → ℕ
  payload_weight no_items = 0
  payload_weight (item delta items) =
      let rest = payload_weight items in
      if ltb rest (delta_weight delta) then delta_weight delta else rest

  -- Each delta has at most the operations that are allowed for its table.
  pub data Weighs (most : Bytes → ℕ) : List Bytes → Items N → Type 0 where
    weightless : Weighs most [] no_items
    weighs :
        {k : Bytes} {ids : List Bytes} {delta : Json N} {items : Items N}
        → delta_weight delta ≤ most k
        → Weighs most ids items
        → Weighs most (k ∷ ids) (item delta items)

  pub Weighs-split :
      {most : Bytes → ℕ} {k : Bytes} {ids : List Bytes} {delta : Json N} {items : Items N}
      → Weighs most (k ∷ ids) (item delta items)
      → (delta_weight delta ≤ most k) × Weighs most ids items
  Weighs-split (weighs w rest) = (w, rest)

  pub delta_weight-HasOperations :
      (delta : Json N) (operations : Operations N)
      → HasOperations delta operations
      → delta_weight delta ≡ weight operations
  delta_weight-HasOperations delta operations h =
      ap (λ r. elim r [ ok operations ↦ weight operations | _ ↦ 0 ])
        (HasOperations-get delta operations h)

  pub Weighs-le :
      (most most' : Bytes → ℕ) {ids : List Bytes} {items : Items N}
      → Weighs most ids items
      → ((j : Bytes) → listed ids j ≡ true → most j ≤ most' j)
      → Weighs most' ids items
  Weighs-le most most' weightless le = weightless
  Weighs-le most most' (weighs {k} w rest) le =
      weighs (omega (arith, w, le k (rw equal_refl)))
        (Weighs-le most most' rest (λ j l. le j (ground (arith, l))))

  pub payload_weight-Weighs :
      {from to : States N} {ids : List Bytes} (items : Items N)
      → Carries from to ids items
      → Weighs (λ j. payload_weight items) ids items
  payload_weight-Weighs no_items nothing = weightless
  payload_weight-Weighs (item delta items) (carry h rest) =
      weighs (ground arith) (Weighs-le _ _ (payload_weight-Weighs items rest) (λ j l. ground arith))

  pub HasDelta-to :
      (from to to' : State N) (id : Bytes) (delta : Json N)
      → to ≡ to'
      → HasDelta from to id delta
      → HasDelta from to' id delta
  HasDelta-to from to to' id delta e h = subst (λ s. HasDelta from s id delta) e h

  pub Carries-to :
      (from to to' : States N) {ids : List Bytes} {items : Items N}
      → Carries from to ids items
      → ((j : Bytes) → listed ids j ≡ true → to j ≡ to' j)
      → Carries from to' ids items
  Carries-to from to to' nothing same = nothing
  Carries-to from to to' (carry {k} {ids} {delta} h rest) same =
      carry (HasDelta-to (from k) (to k) (to' k) k delta (same k (rw equal_refl)) h)
        (Carries-to from to to' rest (λ j l. same j (ground (arith, l))))

  pub find_delta-item :
      (delta : Json N) (items : Items N) (k id : Bytes) (n : ℕ) (from to : State N)
      → HasDelta from to k delta
      → find_delta (item delta items) id n
        ≡ (if equal k id then ok (some (n, delta)) else find_delta items id (suc n))
  unfolding find_delta
  find_delta-item delta items k id n from to h =
      let entries = h.parts.entries in
      let named : object_get_string (object entries) id_key ≡ ok k =
        rw h.parts.is_object at h.id_is in
      rw h.parts.is_object (rw named refl)

  -- The delta of a table is found, and may be replaced.
  pub find_delta-Carries :
      (from to : States N) (id : Bytes) {ids : List Bytes} {items : Items N} (n : ℕ)
      → Carries from to ids items
      → Once ids
      → listed ids id ≡ true
      → (i : ℕ) × (delta : Json N) × (find_delta items id n ≡ ok (some (n + i, delta)))
        × HasDelta (from id) (to id) id delta
        × ((delta' : Json N) (to' : States N)
            → HasDelta (from id) (to' id) id delta'
            → ((j : Bytes) → equal id j ≡ false → to j ≡ to' j)
            → Carries from to' ids (items_set items i delta'))
        × ((most : Bytes → ℕ)
            → Weighs most ids items
            → (delta_weight delta ≤ most id)
              × ((delta' : Json N) (most' : Bytes → ℕ)
                  → delta_weight delta' ≤ most' id
                  → ((j : Bytes) → equal id j ≡ false → most j ≤ most' j)
                  → Weighs most' ids (items_set items i delta')))
  find_delta-Carries from to id n nothing once l = cc
  find_delta-Carries from to id n (carry {k} {ids} {delta} {items} h rest) once l =
      elim (Bool-cases (equal k id)) [
        | inl e ↦
            let p : k ≡ id = (equal_iff k id).0 e in
            (
              0,
              delta,
              find_delta-item delta items k id n (from k) (to k) h
                  ∙ rw e (ap (λ m. ok (some (m, delta))) (omega arith)),
              subst (λ t. HasDelta (from t) (to t) t delta) p h,
              λ delta' to' h' same.
                  carry (subst (λ t. HasDelta (from t) (to' t) t delta') (sym p) h') (
                    Carries-to from to to' rest (λ j m.
                      same j (subst (λ t. equal t j ≡ false) p (listed-ne k j ids once.0 m)))),
              λ most all. (
                subst (λ t. delta_weight delta ≤ most t) p (Weighs-split all).0,
                λ delta' most' w' le.
                    weighs (subst (λ t. delta_weight delta' ≤ most' t) (sym p) w') (
                      Weighs-le most most' (Weighs-split all).1 (λ j m.
                        le j (subst (λ t. equal t j ≡ false) p (listed-ne k j ids once.0 m)))),
              ),
            )
        | inr e ↦
            let (i, found, is_found, has, replaced, weighed) =
              find_delta-Carries from to id (suc n) rest once.1 (rw e at l) in
            (
              suc i,
              found,
              find_delta-item delta items k id n (from k) (to k) h
                  ∙ rw e (is_found ∙ ap (λ m. ok (some (m, found))) (omega arith)),
              has,
              λ delta' to' h' same.
                  carry
                    (HasDelta-to (from k) (to k) (to' k) k delta (same k (equal_sym id k ∙ e)) h)
                    (replaced delta' to' h' same),
              λ most all.
                  let (w, light) = Weighs-split all in
                  let (at, again) = weighed most light in
                  (
                    at,
                    λ delta' most' w' le.
                        weighs (omega (arith, w, le k (equal_sym id k ∙ e)))
                          (again delta' most' w' le),
                  ),
            )
      ]

module _ {N : Type 0} (number_eq : N → N → Bool) where
  -- What `LCH_DeltaCreate` makes of two states of strings carries the one to the other.
  pub delta_create-HasDelta :
      (table_id type : Bytes) (new_state old_state : Fields N)
      → Strings new_state
      → Strings old_state
      → (delta : Json N) × (delta_create number_eq table_id type new_state old_state ≡ ok delta)
        × HasDelta (get old_state) (get new_state) table_id delta
  delta_create-HasDelta table_id type new_state old_state sn so =
      let (delta, m, run, parts, once, applies, patched, id_is, _) =
        delta_create_lem number_eq table_id type new_state old_state sn so in
      (
        delta,
        run,
        record {
          operations = m;
          parts = parts;
          once = once;
          applies = applies;
          patched_to = fun_ext patched;
          id_is = id_is;
        },
      )
