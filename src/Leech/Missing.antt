-- ===== src/Leech/Missing.antt =====
-- lib/leech.c: `MergeBlocks`, where the parent has no delta for a table of the child.
use leech.Base.{
  ℕ, suc, Bool, true, false, List, none, ltb, ◌≡◌, refl, ◌∙◌, arith, Bytes, ok, aborted, Bool-cases,
  inl, inr,
}
use leech.Buffer.{equal}
use leech.Json.Syntax.{Json, Items, Fields, object, item}
use leech.Json.Access.{object_get_string}
use leech.Json.Arrays.{items_length}
use leech.Json.Fields.{listed}
use leech.Delta.Names.{id_key}
use leech.Leech.Config.{Instance}
use leech.Leech.Merge.{find_delta, merge_deltas}
use leech.Leech.Carries.{State, States, HasDelta, Carries, nothing, carry, find_delta-item}

module _ {N : Type 0} where
  find_delta-missing :
      (from to : States N) (id : Bytes) {ids : List Bytes} {items : Items N} (n : ℕ)
      → Carries from to ids items
      → listed ids id ≡ false
      → find_delta items id n ≡ ok none
  unfolding find_delta
  find_delta-missing from to id n nothing l = refl
  find_delta-missing from to id n (carry {k} {ids} {delta} {items} h rest) l =
      elim (Bool-cases (equal k id)) [
        | inl e ↦ ground arith
        | inr e ↦
            find_delta-item delta items k id n (from k) (to k) h
            ∙ rw e (find_delta-missing from to id (suc n) rest (rw e at l))
      ]

module _ {N : Type 0} (number_eq : N → N → Bool) (config : Instance) where
  -- Where the payload of the parent has no delta for the table of the first delta of the child, the
  -- merge runs into an assertion: it appends the delta to the block of the parent, an object, instead
  -- of its payload.
  pub merge_deltas-missing :
      (fuel : ℕ) (parent : Fields N) (parent_payload child_payload : Items N) (child_delta : Json N)
      (id : Bytes) (ids : List Bytes) (from to : States N) (before after : State N)
      → Carries from to ids parent_payload
      → HasDelta before after id child_delta
      → listed ids id ≡ false
      → merge_deltas number_eq config
          (suc fuel)
          (object parent)
          parent_payload
          (item child_delta child_payload)
          0
        ≡ aborted
  unfolding merge_deltas
  merge_deltas-missing fuel parent parent_payload child_payload child_delta id ids from to before
        after c h l =
      let entries = h.parts.entries in
      let named : object_get_string (object entries) id_key ≡ ok id =
        rw h.parts.is_object at h.id_is in
      let some_left : ltb 0 (suc (items_length child_payload)) ≡ true = ground arith in
      rw h.parts.is_object (rw some_left (rw named (rw (find_delta-missing from to id 0 c l) refl)))
