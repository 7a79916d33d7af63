-- ===== src/ListBuffer.antt =====
-- lib/list.c: lists as arrays of pointers. The elements in use and the capacity of the array; allocation
-- succeeds, and a capacity stays below the range of `size_t`.
pub mod Growth
pub mod Reverse
mod Tests
use leech.Base.{
  ℕ, zero, suc, ◌+◌, ◌*◌, ◌-◌, ◌/◌, Bool, List, [], ◌∷◌, ◌++◌, Option, some, none, ltb, leb, take,
  drop, if◌then◌else◌, length, Result, ok, out_of_fuel, ◌>>=◌, ◌>>◌, assert, or_abort,
}

-- `LCH_List`
pub record ListBuffer {ℓ} (A : Type ℓ) : Type ℓ where
  pub elements : List A
  pub capacity : ℕ

-- `LCH_LIST_CAPACITY`, by configure.ac
abbrev pub list_capacity : ℕ
list_capacity = 256

-- The loop of `EnsureCapacity`
unfoldable pub grow : ℕ → ℕ → ℕ → Result ℕ
grow zero capacity needed = if ltb capacity needed then out_of_fuel else ok capacity
grow (suc fuel) capacity needed =
    let more = grow fuel (capacity * 2) needed in if ltb capacity needed then more else ok capacity

module _ {ℓ} {A : Type ℓ} where
  -- The element at an index
  abbrev pub element_at : List A → ℕ → Option A
  element_at [] index = none
  element_at (value ∷ elements) zero = some value
  element_at (value ∷ elements) (suc index) = element_at elements index

  abbrev pub replace_at : List A → ℕ → A → List A
  replace_at [] index value = []
  replace_at (old ∷ elements) zero value = value ∷ elements
  replace_at (old ∷ elements) (suc index) value = old ∷ replace_at elements index value

  abbrev pub delete_at : List A → ℕ → List A
  delete_at [] index = []
  delete_at (old ∷ elements) zero = elements
  delete_at (old ∷ elements) (suc index) = old ∷ delete_at elements index

  -- `EnsureCapacity`
  unfoldable pub ensure_capacity : ℕ → ListBuffer A → ℕ → Result (ListBuffer A)
  unfolding grow
  ensure_capacity fuel self n_items = do
    new_capacity ← grow fuel self.capacity (length self.elements + n_items)
    ok (record self { capacity = new_capacity })

  -- `LCH_ListCreateWithCapacity` and `LCH_ListCreate`
  abbrev pub create_with_capacity : ℕ → ListBuffer A
  create_with_capacity capacity = record { elements = []; capacity = capacity }

  abbrev pub create : ListBuffer A
  create = create_with_capacity list_capacity

  -- `LCH_ListAppend`
  unfoldable pub list_append : ℕ → ListBuffer A → A → Result (ListBuffer A)
  unfolding ensure_capacity
  list_append fuel self value = do
    assert (leb (length self.elements) self.capacity)
    self ← ensure_capacity fuel self 1
    ok (record self { elements = self.elements ++ value ∷ [] })

  -- `LCH_ListInsert`
  unfoldable pub list_insert : ℕ → ListBuffer A → ℕ → A → Result (ListBuffer A)
  unfolding ensure_capacity
  list_insert fuel list index value = do
    assert (leb index (length list.elements))
    list ← ensure_capacity fuel list 1
    ok (record list { elements = take index list.elements ++ value ∷ drop index list.elements })

  -- `LCH_ListRemove`
  unfoldable pub list_remove : ListBuffer A → ℕ → Result (A × ListBuffer A)
  list_remove list index = do
    value ← or_abort (element_at list.elements index)
    ok (value, record list { elements = delete_at list.elements index })

  -- `LCH_ListSet`
  unfoldable pub list_set : ListBuffer A → ℕ → A → Result (ListBuffer A)
  list_set self index value = do
    assert (ltb index (length self.elements))
    ok (record self { elements = replace_at self.elements index value })

  -- The loop of `LCH_ListCopy`, with the function that copies an element
  unfoldable pub copy_loop : ℕ → (A → Result A) → List A → ListBuffer A → Result (ListBuffer A)
  unfolding list_append
  copy_loop fuel copy_fn [] copy = ok copy
  copy_loop fuel copy_fn (original ∷ elements) copy = do
    element ← copy_fn original
    copy ← list_append fuel copy element
    copy_loop fuel copy_fn elements copy

  -- `LCH_ListCopy`
  unfoldable pub list_copy : ℕ → ListBuffer A → (A → Result A) → Result (ListBuffer A)
  unfolding copy_loop
  list_copy fuel original copy_fn =
      copy_loop fuel copy_fn original.elements (create_with_capacity (length original.elements))

  -- The body of the loop of `LCH_ListReverse`, which swaps two elements
  unfoldable pub swap : List A → ℕ → ℕ → Result (List A)
  swap list a b = do
    at_a ← or_abort (element_at list a)
    at_b ← or_abort (element_at list b)
    ok (replace_at (replace_at list a at_b) b at_a)

  -- The loop of `LCH_ListReverse`, on fuel, from `i` on
  unfoldable pub reverse_loop : ℕ → ℕ → List A → Result (List A)
  unfolding swap
  reverse_loop zero i list = ok list
  reverse_loop (suc turns) i list = do
    list ← swap list i ((length list - 1) - i)
    reverse_loop turns (suc i) list

  -- `LCH_ListReverse`: as many turns as half the length
  unfoldable pub list_reverse : ListBuffer A → Result (ListBuffer A)
  unfolding reverse_loop
  list_reverse list = do
    elements ← reverse_loop (length list.elements / 2) 0 list.elements
    ok (record list { elements = elements })
