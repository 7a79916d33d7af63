-- ===== src/Json/RoundTrip.antt =====
-- Values that lib/json.c composes are read back by its parser, as long as no number stands in them.
use leech.Base.{
  ℕ, zero, suc, ◌+◌, ◌≤◌, Bool, true, false, not, ◌∷◌, ◌++◌, ◌≡◌, refl, ap, arith, Option, Bytes,
  ok,
}
use leech.Csv.Total.{&&-true}
use leech.Json.Syntax.{
  Json, Items, Fields, null, true_value, false_value, string, number, array, object, no_items, item,
  no_fields, field, set, has_key,
}
use leech.Json.Parser.{
  trim_whitespace, check_token, parse_token, separator, parse, object_loop, array_loop,
}
use leech.Json.Composer.{new_line, indent_size}
use leech.Json.Layout.{
  is_plain, all_plain, fields_plain, quoted, pad, text, items_text, fields_text,
}
use leech.Json.Quoting.{
  first_byte, buffer_parse_string-quoted, trim_whitespace-new_line, text-starts, separator-comma,
  before-comma,
}
use leech.Json.Extend.{extend, extend-no_fields}
use leech.Json.Numbers.{Reads, ends_number, parse-digits}

-- The calls and turns that reading the value takes
unfoldable mutual
  pub steps : {N : Type 0} → Json N → ℕ
  steps (array items) = suc (items_steps items)
  steps (object entries) = suc (fields_steps entries)
  steps _ = 1

  pub items_steps : {N : Type 0} → Items N → ℕ
  items_steps no_items = 1
  items_steps (item v items) = suc (steps v + items_steps items)

  pub fields_steps : {N : Type 0} → Fields N → ℕ
  fields_steps no_fields = 1
  fields_steps (field k v fields) = suc (steps v + fields_steps fields)

1-le-steps : {N : Type 0} (v : Json N) → 1 ≤ steps v
unfolding steps
1-le-steps (array items) = omega arith
1-le-steps (object entries) = omega arith
1-le-steps null = omega arith
1-le-steps _ = omega arith

1-le-items_steps : {N : Type 0} (items : Items N) → 1 ≤ items_steps items
unfolding steps
1-le-items_steps no_items = omega arith
1-le-items_steps (item v items) = omega arith

1-le-fields_steps : {N : Type 0} (left : Fields N) → 1 ≤ fields_steps left
unfolding steps
1-le-fields_steps no_fields = omega arith
1-le-fields_steps (field k v more) = omega arith

module _ {N : Type 0} (sscanf : Bytes → Option (N × ℕ)) where
  parse-pad :
      (fuel : ℕ) (pretty : Bool) (rest : Bytes)
      → parse sscanf fuel (pad pretty rest) ≡ parse sscanf fuel rest
  unfolding parse trim_whitespace
  parse-pad zero pretty rest = refl
  parse-pad (suc fuel) true rest = refl
  parse-pad (suc fuel) false rest = refl

-- What stands behind an element
items_text-ends :
    {N : Type 0} (digits : N → Bytes) (items : Items N) (pretty : Bool) (indent : ℕ) (rest : Bytes)
    → ends_number
        (items_text digits items false pretty indent (new_line pretty indent ++ b']' ∷ rest))
      ≡ true
unfolding text new_line ends_number
items_text-ends digits no_items true indent rest = refl
items_text-ends digits no_items false indent rest = refl
items_text-ends digits (item v items) pretty indent rest = refl

fields_text-ends :
    {N : Type 0} (digits : N → Bytes) (others : Fields N) (pretty : Bool) (indent : ℕ)
    (rest : Bytes)
    → ends_number
        (fields_text digits others false pretty indent (new_line pretty indent ++ b'}' ∷ rest))
      ≡ true
unfolding text new_line ends_number
fields_text-ends digits no_fields true indent rest = refl
fields_text-ends digits no_fields false indent rest = refl
fields_text-ends digits (field k v more) pretty indent rest = refl

module _ {N : Type 0} (print : N → Bytes) (sscanf : Bytes → Option (N × ℕ)) (digits : N → Bytes)
    (whole : N → Bool) (reads : (n : N) → whole n ≡ true → Reads print sscanf digits n) where
  starts :
      (v : Json N) (pretty : Bool) (indent : ℕ) (rest : Bytes)
      → is_plain whole v ≡ true
      → first_byte (text digits v pretty indent rest) ≡ true
  starts v = text-starts digits whole (λ n h. (reads n h).at_digits) v

  mutual
    unfolding parse steps text is_plain trim_whitespace check_token parse_token separator

    pub parse-text :
        (v : Json N) (fuel : ℕ) (pretty : Bool) (indent : ℕ) (rest : Bytes)
        → is_plain whole v ≡ true
        → ends_number rest ≡ true
        → steps v ≤ fuel
        → parse sscanf fuel (text digits v pretty indent rest) ≡ ok (v, rest)
    parse-text v zero pretty indent rest h b e = ground (arith, 1-le-steps v)
    parse-text null (suc fuel) pretty indent rest h b e = refl
    parse-text true_value (suc fuel) pretty indent rest h b e = refl
    parse-text false_value (suc fuel) pretty indent rest h b e = refl
    parse-text (string s) (suc fuel) pretty indent rest h b e =
        rw (buffer_parse_string-quoted s rest)
    parse-text (number n) (suc fuel) pretty indent rest h b e =
        parse-digits print sscanf digits n fuel rest (reads n h) b
    parse-text (array items) (suc fuel) pretty indent rest h b e =
        rw (array_loop-text items true fuel pretty indent rest h (omega arith))
    parse-text (object entries) (suc fuel) pretty indent rest h b e =
        rw (object_loop-text entries true fuel no_fields pretty indent rest h (omega arith))
          (ap (λ fields. ok (object fields, rest)) (extend-no_fields whole entries h))

    array_loop-text :
        (items : Items N) (first : Bool) (fuel : ℕ) (pretty : Bool) (indent : ℕ) (rest : Bytes)
        → all_plain whole items ≡ true
        → items_steps items ≤ fuel
        → array_loop sscanf fuel first (
            trim_whitespace
              (items_text digits items first pretty indent (new_line pretty indent ++ b']' ∷ rest)))
          ≡ ok (items, rest)
    array_loop-text items first zero pretty indent rest h e = ground (arith, 1-le-items_steps items)
    array_loop-text no_items first (suc fuel) pretty indent rest h e =
        rw (trim_whitespace-new_line pretty indent (b']' ∷ rest))
    array_loop-text (item v items) first (suc fuel) pretty indent rest h e =
        let (plain, others) = &&-true (is_plain whole v) (all_plain whole items) h in
        let deeper = indent + indent_size in
        let behind =
          items_text digits items false pretty indent (new_line pretty indent ++ b']' ∷ rest) in
        let here = starts v pretty deeper behind plain in
        let child =
          parse-text v fuel pretty deeper behind plain
            (items_text-ends digits items pretty indent rest) (omega arith) in
        let loop = array_loop-text items false fuel pretty indent rest others (omega arith) in
        rw (
          (before-comma first pretty deeper (text digits v pretty deeper behind) here).0,
          separator-comma first pretty deeper (text digits v pretty deeper behind) here,
          child,
          loop,
        )

    object_loop-text :
        (fields : Fields N) (first : Bool) (fuel : ℕ) (entries : Fields N) (pretty : Bool)
        (indent : ℕ) (rest : Bytes)
        → fields_plain whole fields ≡ true
        → fields_steps fields ≤ fuel
        → object_loop sscanf fuel first entries (
            trim_whitespace (
              fields_text digits fields first pretty indent
                (new_line pretty indent ++ b'}' ∷ rest)))
          ≡ ok (object (extend entries fields), rest)
    object_loop-text left first zero _ pretty indent rest h e =
        ground (arith, 1-le-fields_steps left)
    object_loop-text no_fields first (suc fuel) entries pretty indent rest h e =
        rw (trim_whitespace-new_line pretty indent (b'}' ∷ rest))
    object_loop-text (field k v fields) first (suc fuel) entries pretty indent rest h e =
        let (_, both) = &&-true (not (has_key fields k)) _ h in
        let (plain, others) = &&-true (is_plain whole v) (fields_plain whole fields) both in
        let deeper = indent + indent_size in
        let behind =
          fields_text digits fields false pretty indent (new_line pretty indent ++ b'}' ∷ rest) in
        let entry = quoted k (b':' ∷ pad pretty (text digits v pretty deeper behind)) in
        let child =
          parse-text v fuel pretty deeper behind plain
            (fields_text-ends digits fields pretty indent rest) (omega arith) in
        let loop =
          object_loop-text fields false fuel (set entries k v) pretty indent rest others
            (omega arith) in
        rw (
          (before-comma first pretty deeper entry refl).1,
          separator-comma first pretty deeper entry refl,
          buffer_parse_string-quoted k (b':' ∷ pad pretty (text digits v pretty deeper behind)),
          parse-pad sscanf fuel pretty (text digits v pretty deeper behind),
          child,
          loop,
        )
