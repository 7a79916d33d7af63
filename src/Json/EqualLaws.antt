-- ===== src/Json/EqualLaws.antt =====
-- What a copy returns, and that equality is exact on strings.
use leech.Base.{
  Bool, true, false, ◌||◌, none, some, if◌then◌else◌, ◌≡◌, ◌↔◌, refl, arith, inl, inr, Bool-cases,
}
use leech.Buffer.Order.{equal_iff}
use leech.Json.Syntax.{
  Json, Items, null, true_value, false_value, string, number, array, object, no_items, item,
}
use leech.Json.Equal.{copy, copy_items, json_equal, is_string}

pub copy-is_string : {N : Type 0} (v : Json N) → is_string v ≡ true → copy v ≡ some v
unfolding copy
copy-is_string (string s) h = refl
copy-is_string null h = cc
copy-is_string _ h = cc

module _ {N : Type 0} (number_eq : N → N → Bool) where
  -- A string is equal to nothing but itself.
  pub json_equal-is_string :
      (v w : Json N) → is_string v ≡ true → (json_equal number_eq v w ≡ true) ↔ (v ≡ w)
  unfolding json_equal
  json_equal-is_string (string s) (string t) h = ground (arith, equal_iff s t)
  json_equal-is_string (string s) _ h = ground arith
  json_equal-is_string null w h = cc
  json_equal-is_string _ w h = cc

-- Some object stands in the value.
unfoldable mutual
  pub has_object : {N : Type 0} → Json N → Bool
  has_object (array items) = items_have_object items
  has_object (object _) = true
  has_object _ = false

  pub items_have_object : {N : Type 0} → Items N → Bool
  items_have_object no_items = false
  items_have_object (item v items) = has_object v || items_have_object items

mutual
  unfolding copy has_object

  copy-has_object_value :
      {N : Type 0} (v : Json N) → copy v ≡ (if has_object v then none else some v)
  copy-has_object_value null = refl
  copy-has_object_value true_value = refl
  copy-has_object_value false_value = refl
  copy-has_object_value (string s) = refl
  copy-has_object_value (number n) = refl
  copy-has_object_value (array items) = rw (copy_items-has_object items) (ground arith)
  copy-has_object_value (object _) = refl

  copy_items-has_object :
      {N : Type 0} (items : Items N)
      → copy_items items ≡ (if items_have_object items then none else some items)
  copy_items-has_object no_items = refl
  copy_items-has_object (item v items) =
      let rest = copy_items-has_object items in
      rw (copy-has_object_value v, rest)
        (elim (Bool-cases (has_object v)) [
          | inl e ↦ rw e refl
          | inr e ↦ rw e (elim (Bool-cases (items_have_object items)) [
            | inl o ↦ rw o refl
            | inr o ↦ rw o refl
          ])
        ])

-- `LCH_JsonCopy` returns a value equal to the one that it was given, unless an object stands in it:
-- then it returns NULL.
pub copy-has_object : {N : Type 0} (v : Json N) → copy v ≡ (if has_object v then none else some v)
copy-has_object v = copy-has_object_value v
