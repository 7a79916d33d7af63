-- ===== src/Json/Equal.antt =====
-- lib/json.c: `LCH_JsonCopy` and `LCH_JsonEqual`. Equality of two `double` is a parameter.
use leech.Base.{Bool, true, false, ◌&&◌, ◌==◌, Option, none, some}
use leech.Buffer.{equal}
use leech.Json.Syntax.{
  Json, Items, Fields, null, true_value, false_value, string, number, array, object, no_items, item,
  no_fields, field, get, size,
}

-- `LCH_JsonCopy`, by the type of the value. `JsonObjectCopy` returns NULL as soon as it has created
-- the copy (the test of that pointer is inverted), so a copy that meets an object fails.
unfoldable mutual
  pub copy : {N : Type 0} → Json N → Option (Json N)
  copy null = some null
  copy true_value = some true_value
  copy false_value = some false_value
  copy (string s) = some (string s)
  copy (number n) = some (number n)
  copy (array items) = elim (copy_items items) [ none ↦ none | some items' ↦ some (array items') ]
  copy (object _) = none

  pub copy_items : {N : Type 0} → Items N → Option (Items N)
  copy_items no_items = some no_items
  copy_items (item v items) = elim (copy v) [
    | none ↦ none
    | some v' ↦ elim (copy_items items) [ none ↦ none | some items' ↦ some (item v' items') ]
  ]

module _ {N : Type 0} (number_eq : N → N → Bool) where
  -- `LCH_JsonEqual`. Two arrays are equal element by element; the test of the lengths is the last
  -- clause of `equal_items`. Two objects are equal if they have as many entries and each entry of
  -- the left one has an equal in the right one.
  unfoldable mutual
    pub json_equal : Json N → Json N → Bool
    json_equal null null = true
    json_equal true_value true_value = true
    json_equal false_value false_value = true
    json_equal (string s) (string t) = equal s t
    json_equal (number n) (number m) = number_eq n m
    json_equal (array xs) (array ys) = equal_items xs ys
    json_equal (object fs) (object gs) = size fs == size gs && equal_fields fs gs
    json_equal _ _ = false

    pub equal_items : Items N → Items N → Bool
    equal_items no_items no_items = true
    equal_items (item x xs) (item y ys) = json_equal x y && equal_items xs ys
    equal_items _ _ = false

    pub equal_fields : Fields N → Fields N → Bool
    equal_fields no_fields right = true
    equal_fields (field k v fields) right = elim (get right k) [
      | none ↦ false
      | some w ↦ json_equal v w && equal_fields fields right
    ]

abbrev pub is_string : {N : Type 0} → Json N → Bool
is_string (string s) = true
is_string _ = false
