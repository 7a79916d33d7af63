-- ===== src/Delta/Tests.antt =====
-- Runs of the difference and the merge, and the instances of the theorems. Numbers are natural here.
use leech.Base.{
  none, Bool-cases, inl, inr, ℕ, Option, ◌≡◌, refl, Bytes, codes, ok, failed, ◌==◌, arith, ◌≤◌, ◌+◌,
}
use leech.Buffer.{equal}
use leech.Json.Syntax.{
  Json, Fields, string, object, no_fields, field, get, set, has_key, remove, keys, size,
}
use leech.Json.Equal.{json_equal, copy}
use leech.Json.Dictionary.{dictionary_set, capacity_for}
use leech.Json.SetMinus.{keys_minus, changed_values}
use leech.Json.SetMinusLaws.{Strings, all_strings-Strings}
use leech.Delta.Names.{inserts_key, deletes_key, updates_key, type_key, id_key}
use leech.Delta.Create.{delta_create, get_table_id, get_delta_type}
use leech.Delta.Merge.{
  Operations, delta_merge, merge_operations, merge_insert, merge_delete, merge_update, merge_keys,
}
use leech.Delta.Same.{weight}
use leech.Delta.Cells.{AllDistinct}
use leech.Delta.Compose.{untouched, inserts, updates}
use leech.Delta.Parts.{HasOperations}
use leech.Delta.Correct.{patch, Applies, delta_merge_lem}
use leech.Delta.Conflict.{delta_merge-clash}
use leech.Delta.Difference.{delta_create_lem, delta_merge-delta_create}

abbrev entry : Bytes → Bytes → Fields ℕ → Fields ℕ
entry k v = field k (string v)

-- "b" is inserted and "c" deleted, and "a" changes twice.

abbrev first : Fields ℕ
first = entry (codes "a") (codes "1") (entry (codes "c") (codes "3") no_fields)

abbrev second : Fields ℕ
second = entry (codes "a") (codes "2") (entry (codes "b") (codes "5") no_fields)

abbrev third : Fields ℕ
third = entry (codes "b") (codes "5") (entry (codes "a") (codes "4") no_fields)

abbrev delta_of : Fields ℕ → Fields ℕ → Fields ℕ → Json ℕ
delta_of i d u = object (
    field type_key (string (codes "delta")) (
      field id_key (string (codes "T")) (
        field inserts_key (object i)
          (field deletes_key (object d) (field updates_key (object u) no_fields)))))

abbrev parent_delta : Json ℕ
parent_delta =
    delta_of (entry (codes "b") (codes "5") no_fields) (entry (codes "c") (codes "3") no_fields)
      (entry (codes "a") (codes "2") no_fields)

create_runs : delta_create ◌==◌ (codes "T") (codes "delta") second first ≡ ok parent_delta
unfolding delta_create keys_minus changed_values equal get set has_key keys json_equal copy
create_runs = refl

merge_runs :
    delta_merge ◌==◌ parent_delta
      (delta_of no_fields no_fields (entry (codes "a") (codes "4") no_fields))
    ≡ ok (
        delta_of
          (entry (codes "b") (codes "5") no_fields)
          (entry (codes "c") (codes "3") no_fields)
          (entry (codes "a") (codes "4") no_fields))
unfolding delta_merge merge_operations merge_keys merge_insert merge_delete merge_update equal get
    set has_key keys remove json_equal dictionary_set capacity_for size
merge_runs = refl

-- Two inserts at one key are refused.
merge_refuses : delta_merge ◌==◌ parent_delta parent_delta ≡ failed
unfolding delta_merge merge_operations merge_keys merge_insert equal get set has_key keys remove
merge_refuses = refl

first-Strings : Strings first
first-Strings = all_strings-Strings first refl

second-Strings : Strings second
second-Strings = all_strings-Strings second refl

third-Strings : Strings third
third-Strings = all_strings-Strings third refl

delta_create_lem_example :
    (delta : Json ℕ) × (m : Operations ℕ) × (delta_create ◌==◌
        (codes "T")
        (codes "delta")
        second
        first
      ≡ ok delta)
    × HasOperations delta m
    × AllDistinct m
    × Applies m (get first)
    × ((key : Bytes) → patch m (get first) key ≡ get second key)
    × (get_table_id delta ≡ ok (codes "T"))
    × (get_delta_type delta ≡ ok (codes "delta"))
delta_create_lem_example =
    delta_create_lem ◌==◌ (codes "T") (codes "delta") second first second-Strings first-Strings

delta_merge-delta_create_example :
    (parent child delta : Json ℕ) × (m : Operations ℕ) × (delta_create ◌==◌
        (codes "T")
        (codes "delta")
        second
        first
      ≡ ok parent)
    × (delta_create ◌==◌ (codes "T") (codes "delta") third second ≡ ok child)
    × (delta_merge ◌==◌ parent child ≡ ok delta)
    × HasOperations delta m
    × Applies m (get first)
    × ((key : Bytes) → patch m (get first) key ≡ get third key)
unfolding size
delta_merge-delta_create_example =
    delta_merge-delta_create ◌==◌ (codes "T") (codes "delta") first second third first-Strings
      second-Strings third-Strings (omega arith)

-- "a" is inserted into an empty table, and then updated.
abbrev inserted : Fields ℕ
inserted = entry (codes "a") (codes "1") no_fields

abbrev updated : Fields ℕ
updated = entry (codes "a") (codes "2") no_fields

abbrev p : Operations ℕ
p = record { inserts = inserted; deletes = no_fields; updates = no_fields }

abbrev c : Operations ℕ
c = record { inserts = no_fields; deletes = no_fields; updates = updated }

abbrev empty : Bytes → Option (Json ℕ)
empty k = none

has_p : HasOperations (delta_of inserted no_fields no_fields) p
unfolding get equal
has_p = record {
  entries = _;
  is_object = refl;
  inserts_at = refl;
  deletes_at = refl;
  updates_at = refl;
}

has_c : HasOperations (delta_of no_fields no_fields updated) c
unfolding get equal
has_c = record {
  entries = _;
  is_object = refl;
  inserts_at = refl;
  deletes_at = refl;
  updates_at = refl;
}

distinct_c : AllDistinct c
unfolding has_key
distinct_c = record { inserts_once = tt; deletes_once = tt; updates_once = (refl, tt) }

Applies-p : Applies p empty
unfolding get
Applies-p k = elim (Bool-cases (equal (codes "a") k)) [
  | inl e ↦ inserts (string (codes "1")) (rw e) refl refl
  | inr e ↦ untouched (rw e)
]

Applies-c : Applies c (patch p empty)
unfolding get
Applies-c k = elim (Bool-cases (equal (codes "a") k)) [
  | inl e ↦ updates (string (codes "2")) (string (codes "1")) (rw e) (rw e) refl refl
  | inr e ↦ untouched (rw e)
]

delta_merge_lem_example :
    (delta : Json ℕ) × (m : Operations ℕ) × (delta_merge ◌==◌
        (delta_of inserted no_fields no_fields)
        (delta_of no_fields no_fields updated)
      ≡ ok delta)
    × HasOperations delta m
    × Applies m empty
    × ((key : Bytes) → patch m empty key ≡ patch c (patch p empty) key)
    × (AllDistinct p → AllDistinct m)
    × (weight m ≤ weight p + weight c)
    × (get_table_id delta ≡ get_table_id (delta_of inserted no_fields no_fields))
    × (get_delta_type delta ≡ get_delta_type (delta_of inserted no_fields no_fields))
unfolding size
delta_merge_lem_example =
    delta_merge_lem ◌==◌ (delta_of inserted no_fields no_fields)
      (delta_of no_fields no_fields updated) p c empty has_p has_c distinct_c (omega arith)
      Applies-p Applies-c

-- "a" is inserted twice.
delta_merge-clash_example :
    delta_merge ◌==◌ (delta_of inserted no_fields no_fields) (delta_of inserted no_fields no_fields)
    ≡ failed
unfolding has_key get equal
delta_merge-clash_example =
    delta_merge-clash ◌==◌ (delta_of inserted no_fields no_fields)
      (delta_of inserted no_fields no_fields) p p (codes "a") has_p has_p (refl, tt) refl refl
