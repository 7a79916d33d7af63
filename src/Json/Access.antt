-- ===== src/Json/Access.antt =====
-- lib/json.c: the accessors. Each says what its assertions and its early returns do: `aborted` for an
-- assertion on the type of a value or on a child, `failed` for the NULL that is returned.
use leech.Base.{ℕ, Bool, true, false, Bytes, Result, ok, failed, aborted, ◌>>=◌, or_fail, or_abort}
use leech.Json.Syntax.{
  Json, Items, Fields, null, true_value, false_value, string, number, array, object, get, has_key,
  set, remove, size,
}

-- `LCH_JsonType`
pub data JsonType : Type 0 where
  null_type true_type false_type string_type number_type array_type object_type : JsonType

-- The first block of the `Remove` functions asserts that the child is there.
abbrev pub asserted {ℓ} : {A : Type ℓ} → Result A → Result A
asserted (ok a) = ok a
asserted _ = aborted

module _ {N : Type 0} where
  -- `LCH_JsonGetType`
  abbrev pub get_type : Json N → JsonType
  get_type null = null_type
  get_type true_value = true_type
  get_type false_value = false_type
  get_type (string _) = string_type
  get_type (number _) = number_type
  get_type (array _) = array_type
  get_type (object _) = object_type

  -- `LCH_JsonIsNull`
  abbrev pub is_null : Json N → Bool
  is_null null = true
  is_null _ = false

  -- `assert(LCH_JsonIsObject(json))`, and the entries
  abbrev pub object_of : Json N → Result (Fields N)
  object_of (object fields) = ok fields
  object_of _ = aborted

  -- `assert(LCH_JsonIsArray(json))`, and the elements
  abbrev pub array_of : Json N → Result (Items N)
  array_of (array items) = ok items
  array_of _ = aborted

  -- The tests of the type of a child, with NULL returned for another type
  abbrev pub expect_string : Json N → Result Bytes
  expect_string (string s) = ok s
  expect_string _ = failed

  abbrev pub expect_number : Json N → Result N
  expect_number (number n) = ok n
  expect_number _ = failed

  abbrev pub expect_object : Json N → Result (Fields N)
  expect_object (object fields) = ok fields
  expect_object _ = failed

  abbrev pub expect_array : Json N → Result (Items N)
  expect_array (array items) = ok items
  expect_array _ = failed

  -- `LCH_JsonObjectGet`
  abbrev pub object_get : Json N → Bytes → Result (Json N)
  object_get json key = do fields ← object_of json; or_fail (get fields key)

  -- `LCH_JsonObjectGetString`
  abbrev pub object_get_string : Json N → Bytes → Result Bytes
  object_get_string json key = do child ← object_get json key; expect_string child

  -- `LCH_JsonObjectGetNumber`
  abbrev pub object_get_number : Json N → Bytes → Result N
  object_get_number json key = do child ← object_get json key; expect_number child

  -- `LCH_JsonObjectGetObject`
  abbrev pub object_get_object : Json N → Bytes → Result (Fields N)
  object_get_object json key = do child ← object_get json key; expect_object child

  -- `LCH_JsonObjectGetArray`
  abbrev pub object_get_array : Json N → Bytes → Result (Items N)
  object_get_array json key = do child ← object_get json key; expect_array child

  -- `LCH_JsonObjectHasKey`
  abbrev pub object_has_key : Json N → Bytes → Result Bool
  object_has_key json key = do fields ← object_of json; ok (has_key fields key)

  -- `LCH_JsonObjectSet`
  abbrev pub object_set : Json N → Bytes → Json N → Result (Json N)
  object_set json key value = do fields ← object_of json; ok (object (set fields key value))

  -- `LCH_JsonObjectSetString`
  abbrev pub object_set_string : Json N → Bytes → Bytes → Result (Json N)
  object_set_string json key str = object_set json key (string str)

  -- `LCH_JsonObjectSetNumber`
  abbrev pub object_set_number : Json N → Bytes → N → Result (Json N)
  object_set_number json key n = object_set json key (number n)

  -- `LCH_JsonObjectRemove`, whose `LCH_DictRemove` asserts that the key is there
  abbrev pub object_remove : Json N → Bytes → Result (Json N × Json N)
  object_remove json key = do
    fields ← object_of json
    value ← or_abort (get fields key)
    ok (value, object (remove fields key))

  -- `LCH_JsonObjectRemoveObject`
  abbrev pub object_remove_object : Json N → Bytes → Result (Fields N × Json N)
  object_remove_object json key = do
    child ← asserted (object_get json key)
    fields ← expect_object child
    (_, rest) ← object_remove json key
    ok (fields, rest)

  -- `LCH_JsonObjectRemoveArray`
  abbrev pub object_remove_array : Json N → Bytes → Result (Items N × Json N)
  object_remove_array json key = do
    child ← asserted (object_get json key)
    items ← expect_array child
    (_, rest) ← object_remove json key
    ok (items, rest)

  -- `LCH_JsonObjectLength`
  abbrev pub object_length : Json N → Result ℕ
  object_length json = do fields ← object_of json; ok (size fields)
