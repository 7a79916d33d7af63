-- ===== src/ListBuffer/Growth.antt =====
-- lib/list.c: the growth of the array.
use leech.Base.{
  ℕ, zero, suc, ◌+◌, ◌*◌, ◌≤◌, ◌<◌, true, false, List, [], ◌∷◌, ◌++◌, ltb, leb, take, drop, length,
  length-append, ◌≡◌, ◌⊎◌, refl, sym, ap, ◌∙◌, append-nil, append_assoc, arith, inl, inr,
  Bool-cases, Result, ok, out_of_fuel,
}
use leech.ListBuffer.{
  ListBuffer, grow, ensure_capacity, create_with_capacity, list_append, list_insert, copy_loop,
  list_copy,
}

-- The loop of `EnsureCapacity` ends, from a capacity that is not zero: it gives room for what is needed,
-- and no more than twice that unless the array stays as it is. As many turns as elements needed suffice.
pub grow_lem :
    (fuel capacity needed : ℕ)
    → 1 ≤ capacity
    → needed ≤ fuel + capacity
    → (new_capacity : ℕ) × (grow fuel capacity needed ≡ ok new_capacity)
      × (needed ≤ new_capacity)
      × (capacity ≤ new_capacity)
      × ((new_capacity ≡ capacity) ⊎ (new_capacity < 2 * needed))
unfolding grow
grow_lem zero capacity needed pos enough =
    let no : ltb capacity needed ≡ false = ground arith in
    (capacity, rw no refl, omega arith, omega arith, inl refl)
grow_lem (suc fuel) capacity needed pos enough = elim (Bool-cases (ltb capacity needed)) [
  | inr e ↦ (capacity, rw e refl, ground (arith, e), omega arith, inl refl)
  | inl e ↦
      let small : capacity < needed = ground (arith, e) in
      let (c, run, needs, le, bound) =
        grow_lem fuel (capacity * 2) needed (omega arith) (omega (arith, small)) in
      (
        c,
        rw e run,
        needs,
        omega (arith, le),
        elim bound [ inl same ↦ inr (omega (arith, same, small)) | inr lt ↦ inr lt ],
      )
]

ltb_pos : (n : ℕ) → 1 ≤ n → ltb 0 n ≡ true
ltb_pos n h = ground arith

-- From a capacity of zero the loop never ends.
grow_zero : (fuel needed : ℕ) → 1 ≤ needed → grow fuel 0 needed ≡ out_of_fuel
unfolding grow
grow_zero zero needed pos = rw (ltb_pos needed pos) refl
grow_zero (suc fuel) needed pos = rw (ltb_pos needed pos) (grow_zero fuel needed pos)

-- The elements fit into the array, which is not empty.
pub record IsValid {ℓ} {A : Type ℓ} (list : ListBuffer A) : Type 0 where
  pub fits : length list.elements ≤ list.capacity
  pub not_zero : 1 ≤ list.capacity

length-take-drop {ℓ} :
    {A : Type ℓ} (index : ℕ) (elements : List A) (value : A)
    → length (take index elements ++ value ∷ drop index elements) ≡ suc (length elements)
length-take-drop zero elements value = refl
length-take-drop (suc index) [] value = refl
length-take-drop (suc index) (old ∷ elements) value =
    omega (arith, length-take-drop index elements value)

module _ {ℓ} {A : Type ℓ} where
  ensure_capacity_lem :
      (fuel : ℕ) (list : ListBuffer A)
      → IsValid list
      → (capacity : ℕ) × (ensure_capacity (suc fuel) list 1
          ≡ ok (record list { capacity = capacity }))
        × (length list.elements + 1 ≤ capacity)
  unfolding ensure_capacity
  ensure_capacity_lem fuel list valid =
      let (capacity, run, needs, le, bound) =
        grow_lem (suc fuel) list.capacity (length list.elements + 1) valid.not_zero
          (omega (arith, valid.fits)) in
      (capacity, rw run refl, needs)

  -- `LCH_ListAppend` puts a value behind the elements of a valid list, and leaves a valid one. The loop
  -- of the growth ends after one turn.
  pub list_append_lem :
      (fuel : ℕ) (list : ListBuffer A) (value : A)
      → IsValid list
      → (after : ListBuffer A) × (list_append (suc fuel) list value ≡ ok after)
        × (after.elements ≡ list.elements ++ value ∷ [])
        × IsValid after
  unfolding list_append
  list_append_lem fuel list value valid =
      let (capacity, run, room) = ensure_capacity_lem fuel list valid in
      let before : leb (length list.elements) list.capacity ≡ true = ground (arith, valid.fits) in
      (
        record { elements = list.elements ++ value ∷ []; capacity = capacity },
        rw before (rw run refl),
        refl,
        record {
          fits = omega (arith, room, length-append list.elements (value ∷ []));
          not_zero = omega (arith, room);
        },
      )

  -- `LCH_ListInsert` puts a value at an index up to the length, and leaves a valid list: its elements
  -- fit into the array, which is not empty. The list is valid before.
  pub list_insert_lem :
      (fuel : ℕ) (list : ListBuffer A) (index : ℕ) (value : A)
      → IsValid list
      → index ≤ length list.elements
      → (after : ListBuffer A) × (list_insert (suc fuel) list index value ≡ ok after)
        × (after.elements ≡ take index list.elements ++ value ∷ drop index list.elements)
        × IsValid after
  unfolding list_insert
  list_insert_lem fuel list index value valid le =
      let (capacity, run, room) = ensure_capacity_lem fuel list valid in
      let in_range : leb index (length list.elements) ≡ true = ground (arith, le) in
      (
        record {
          elements = take index list.elements ++ value ∷ drop index list.elements;
          capacity = capacity;
        },
        rw in_range (rw run refl),
        refl,
        record {
          fits = omega (arith, room, length-take-drop index list.elements value);
          not_zero = omega (arith, room);
        },
      )

  -- The copy of an empty list has an array of no elements: to append to it never ends.
  pub list_append-list_copy :
      (original : ListBuffer A) (copy_fn : A → Result A) (fuel : ℕ)
      → original.elements ≡ []
      → (copy : ListBuffer A) × (list_copy fuel original copy_fn ≡ ok copy)
        × (copy.elements ≡ [])
        × ((fuel : ℕ) (value : A) → list_append fuel copy value ≡ out_of_fuel)
  unfolding list_copy copy_loop list_append ensure_capacity
  list_append-list_copy original copy_fn fuel empty = (
    create_with_capacity 0,
    rw empty refl,
    refl,
    λ fuel value. rw (grow_zero fuel 1 (omega arith)) refl,
  )

  copy_loop_lem :
      (fuel : ℕ) (copy_fn : A → Result A) (elements : List A) (copy : ListBuffer A)
      → ((a : A) → copy_fn a ≡ ok a)
      → IsValid copy
      → (after : ListBuffer A) × (copy_loop (suc fuel) copy_fn elements copy ≡ ok after)
        × (after.elements ≡ copy.elements ++ elements)
        × IsValid after
  unfolding copy_loop
  copy_loop_lem fuel copy_fn [] copy copies valid =
      (copy, refl, sym (append-nil copy.elements), valid)
  copy_loop_lem fuel copy_fn (original ∷ elements) copy copies valid =
      let (between, run, put, valid') = list_append_lem fuel copy original valid in
      let (after, run', same, valid'') =
        copy_loop_lem fuel copy_fn elements between copies valid' in
      (
        after,
        rw (copies original) (rw run run'),
        same
            ∙ ap (λ front. front ++ elements) put
            ∙ append_assoc copy.elements (original ∷ []) elements,
        valid'',
      )

  -- The copy of a list that is not empty is a valid list of the same elements.
  pub list_copy_lem :
      (fuel : ℕ) (original : ListBuffer A) (copy_fn : A → Result A)
      → ((a : A) → copy_fn a ≡ ok a)
      → 1 ≤ length original.elements
      → (copy : ListBuffer A) × (list_copy (suc fuel) original copy_fn ≡ ok copy)
        × (copy.elements ≡ original.elements)
        × IsValid copy
  unfolding list_copy
  list_copy_lem fuel original copy_fn copies some_elements =
      copy_loop_lem fuel copy_fn original.elements (create_with_capacity (length original.elements))
        copies (record { fits = omega arith; not_zero = some_elements })
