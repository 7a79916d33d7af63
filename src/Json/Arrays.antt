-- ===== src/Json/Arrays.antt =====
-- lib/json.c: the operations on arrays.
use leech.Base.{ℕ, zero, suc, Option, none, some, Bytes, Result, ok, ◌>>=◌, or_fail, or_abort}
use leech.Json.Syntax.{Json, Items, Fields, string, array, no_items, item}
use leech.Json.Access.{array_of, expect_string, expect_object, expect_array, asserted}

module _ {N : Type 0} where
  -- `LCH_ListLength`, `LCH_ListGet`, `LCH_ListAppend`, `LCH_ListRemove` and `LCH_ListReverse` on the
  -- list of an array
  abbrev pub items_length : Items N → ℕ
  items_length no_items = 0
  items_length (item _ items) = suc (items_length items)

  abbrev pub items_get : Items N → ℕ → Option (Json N)
  items_get no_items index = none
  items_get (item v items) zero = some v
  items_get (item v items) (suc index) = items_get items index

  abbrev pub items_append : Items N → Json N → Items N
  items_append no_items element = item element no_items
  items_append (item v items) element = item v (items_append items element)

  abbrev pub items_remove : Items N → ℕ → Items N
  items_remove no_items index = no_items
  items_remove (item v items) zero = items
  items_remove (item v items) (suc index) = item v (items_remove items index)

  abbrev pub items_reverse : Items N → Items N
  items_reverse no_items = no_items
  items_reverse (item v items) = items_append (items_reverse items) v

  -- The element at an index is changed through a pointer to it.
  abbrev pub items_set : Items N → ℕ → Json N → Items N
  items_set no_items index element = no_items
  items_set (item v items) zero element = item element items
  items_set (item v items) (suc index) element = item v (items_set items index element)

  -- `LCH_JsonArrayLength`
  abbrev pub array_length : Json N → Result ℕ
  array_length json = do items ← array_of json; ok (items_length items)

  -- `LCH_JsonArrayGet`
  abbrev pub array_get : Json N → ℕ → Result (Json N)
  array_get json index = do items ← array_of json; or_fail (items_get items index)

  -- `LCH_JsonArrayGetString`
  abbrev pub array_get_string : Json N → ℕ → Result Bytes
  array_get_string json index = do child ← array_get json index; expect_string child

  -- `LCH_JsonArrayGetObject`
  abbrev pub array_get_object : Json N → ℕ → Result (Fields N)
  array_get_object json index = do child ← array_get json index; expect_object child

  -- `LCH_JsonArrayAppend`
  abbrev pub array_append : Json N → Json N → Result (Json N)
  array_append json element = do items ← array_of json; ok (array (items_append items element))

  -- `LCH_JsonArrayAppendString`
  abbrev pub array_append_string : Json N → Bytes → Result (Json N)
  array_append_string json value = array_append json (string value)

  -- `LCH_JsonArrayRemove`, whose `LCH_ListRemove` asserts that the index is in range
  abbrev pub array_remove : Json N → ℕ → Result (Json N × Json N)
  array_remove json index = do
    items ← array_of json
    child ← or_abort (items_get items index)
    ok (child, array (items_remove items index))

  -- `LCH_JsonArrayRemoveObject`
  abbrev pub array_remove_object : Json N → ℕ → Result (Fields N × Json N)
  array_remove_object json index = do
    child ← asserted (array_get json index)
    fields ← expect_object child
    (_, rest) ← array_remove json index
    ok (fields, rest)

  -- `LCH_JsonArrayRemoveArray`
  abbrev pub array_remove_array : Json N → ℕ → Result (Items N × Json N)
  array_remove_array json index = do
    child ← asserted (array_get json index)
    items ← expect_array child
    (_, rest) ← array_remove json index
    ok (items, rest)

  -- `LCH_JsonArrayReverse`
  abbrev pub array_reverse : Json N → Result (Json N)
  array_reverse json = do items ← array_of json; ok (array (items_reverse items))
