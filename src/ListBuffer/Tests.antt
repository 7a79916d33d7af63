-- ===== src/ListBuffer/Tests.antt =====
-- Runs on lists of numbers, and the instances of the theorems.
use leech.Base.{ℕ, ◌*◌, ◌≤◌, ◌<◌, ◌-◌, [], ◌∷◌, ◌⊎◌, length, ◌≡◌, refl, arith, ok, out_of_fuel}
use leech.ListBuffer.{
  ListBuffer, grow, create_with_capacity, element_at, list_append, list_insert, list_copy,
  list_reverse, reverse_loop, swap,
}
use leech.ListBuffer.Growth.{grow_lem, IsValid, list_insert_lem, list_append-list_copy}
use leech.ListBuffer.Reverse.{list_reverse_lem}

abbrev full : ListBuffer ℕ
full = record { elements = 1 ∷ 2 ∷ 3 ∷ []; capacity = 3 }

full-IsValid : IsValid full
full-IsValid = record { fits = omega arith; not_zero = omega arith }

reverse_runs : list_reverse full ≡ ok (record { elements = 3 ∷ 2 ∷ 1 ∷ []; capacity = 3 })
unfolding list_reverse reverse_loop swap
reverse_runs = refl

grow_lem_example :
    (new_capacity : ℕ) × (grow 5 3 8 ≡ ok new_capacity)
    × (8 ≤ new_capacity)
    × (3 ≤ new_capacity)
    × ((new_capacity ≡ 3) ⊎ (new_capacity < 2 * 8))
grow_lem_example = grow_lem 5 3 8 (omega arith) (omega arith)

list_insert_lem_example :
    (after : ListBuffer ℕ) × (list_insert 1 full 1 4 ≡ ok after)
    × (after.elements ≡ 1 ∷ 4 ∷ 2 ∷ 3 ∷ [])
    × IsValid after
list_insert_lem_example = list_insert_lem 0 full 1 4 full-IsValid (omega arith)

list_append-list_copy_example :
    (copy : ListBuffer ℕ) × (list_copy 9 (create_with_capacity 256) ok ≡ ok copy)
    × (copy.elements ≡ [])
    × ((fuel value : ℕ) → list_append fuel copy value ≡ out_of_fuel)
list_append-list_copy_example = list_append-list_copy (create_with_capacity 256) ok 9 refl

list_reverse_lem_example :
    (after : ListBuffer ℕ) × (list_reverse full ≡ ok after)
    × (length after.elements ≡ 3)
    × (after.capacity ≡ 3)
    × ((j : ℕ) → j < 3 → element_at after.elements j ≡ element_at (1 ∷ 2 ∷ 3 ∷ []) ((3 - 1) - j))
list_reverse_lem_example = list_reverse_lem full
