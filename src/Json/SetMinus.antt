-- ===== src/Json/SetMinus.antt =====
-- lib/json.c: the differences of two objects by their keys, loops over the keys of the left one.
use leech.Base.{Bool, List, [], ◌∷◌, if◌then◌else◌, Bytes, Result, ok, ◌>>=◌, or_fail, or_abort}
use leech.Json.Syntax.{Fields, no_fields, get, has_key, set, keys}
use leech.Json.Equal.{copy, json_equal}

module _ {N : Type 0} where
  -- The loop of `LCH_JsonObjectKeysSetMinus`
  unfoldable pub minus_loop : Fields N → Fields N → Fields N → List Bytes → Result (Fields N)
  minus_loop left right result [] = ok result
  minus_loop left right result (key ∷ rest) =
      let next = do
        left_value ← or_abort (get left key)
        value ← or_fail (copy left_value)
        minus_loop left right (set result key value) rest
      in let skip = minus_loop left right result rest in if has_key right key then skip else next

  -- `LCH_JsonObjectKeysSetMinus`: the entries of `left` whose key `right` has not
  unfoldable pub keys_minus : Fields N → Fields N → Result (Fields N)
  unfolding minus_loop
  keys_minus left right = minus_loop left right no_fields (keys left)

module _ {N : Type 0} (number_eq : N → N → Bool) where
  -- The loop of `LCH_JsonObjectKeysSetIntersectAndValuesSetMinus`
  unfoldable pub changed_loop : Fields N → Fields N → Fields N → List Bytes → Result (Fields N)
  changed_loop left right result [] = ok result
  changed_loop left right result (key ∷ rest) =
      let skip = changed_loop left right result rest in
      let next = do
        left_value ← or_abort (get left key)
        right_value ← or_abort (get right key)
        (if json_equal number_eq left_value right_value
            then skip
            else or_fail (copy left_value) >>= λ value.
                changed_loop left right (set result key value) rest)
      in if has_key right key then next else skip

  -- `LCH_JsonObjectKeysSetIntersectAndValuesSetMinus`: the entries of `left` whose key `right` has
  -- too, with another value
  unfoldable pub changed_values : Fields N → Fields N → Result (Fields N)
  unfolding changed_loop
  changed_values left right = changed_loop left right no_fields (keys left)
