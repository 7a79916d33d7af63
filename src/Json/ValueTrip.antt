-- ===== src/Json/ValueTrip.antt =====
-- `LCH_JsonCompose` and `LCH_JsonParse`: the text of a value is read back within the fuel.
use leech.Base.{
  ℕ, ◌+◌, ◌*◌, ◌≤◌, Bool, true, false, not, [], ◌∷◌, ◌++◌, ◌≡◌, refl, arith, length, length-append,
  if◌then◌else◌, Option, Bytes, ok, Bool-cases, inl, inr,
}
use leech.Csv.Total.{&&-true}
use leech.Json.Syntax.{
  Json, Items, Fields, null, true_value, false_value, string, number, array, object, no_items, item,
  no_fields, field, has_key,
}
use leech.Json.Parser.{json_parse, trim_whitespace}
use leech.Json.Composer.{new_line, indent_size, json_compose}
use leech.Json.Layout.{
  is_plain, all_plain, fields_plain, escapes, comma, pad, text, items_text, fields_text,
}
use leech.Json.Numbers.{Reads, ends_number, 1-le-digits}
use leech.Json.ComposeText.{json_compose-text}
use leech.Json.RoundTrip.{steps, items_steps, fields_steps, parse-text}

-- The separator is a byte for a turn of the loop; the first turn has none.
abbrev slack : Bool → ℕ
slack first = if first then 2 else 1

length-line :
    (first : Bool) (line rest : Bytes)
    → 2 * length rest + 2 ≤ 2 * length (comma first (line ++ rest)) + slack first
length-line true line rest = omega (arith, length-append line rest)
length-line false line rest = omega (arith, length-append line rest)

length-entry :
    (k rest : Bytes) (pretty : Bool)
    → length rest ≤ length (b'"' ∷ escapes k ++ b'"' ∷ b':' ∷ pad pretty rest)
length-entry k rest true = omega (arith, length-append (escapes k) (b'"' ∷ b':' ∷ b' ' ∷ rest))
length-entry k rest false = omega (arith, length-append (escapes k) (b'"' ∷ b':' ∷ rest))

line_end : (pretty : Bool) → ends_number (if pretty then b'\n' ∷ [] else []) ≡ true
unfolding ends_number
line_end true = refl
line_end false = refl

module _ {N : Type 0} (print : N → Bytes) (sscanf : Bytes → Option (N × ℕ)) (digits : N → Bytes)
    (whole : N → Bool) (reads : (n : N) → whole n ≡ true → Reads print sscanf digits n) where
  mutual
    unfolding steps text is_plain

    steps-le-length :
        (v : Json N) (pretty : Bool) (indent : ℕ) (rest : Bytes)
        → is_plain whole v ≡ true
        → steps v + 2 * length rest ≤ 2 * length (text digits v pretty indent rest)
    steps-le-length null pretty indent rest h = omega arith
    steps-le-length true_value pretty indent rest h = omega arith
    steps-le-length false_value pretty indent rest h = omega arith
    steps-le-length (string s) pretty indent rest h =
        omega (arith, length-append (escapes s) (b'"' ∷ rest))
    steps-le-length (number n) pretty indent rest h = omega (
      arith,
      1-le-digits print sscanf digits n (reads n h).at_digits,
      length-append (digits n) rest,
    )
    steps-le-length (array items) pretty indent rest h =
        let behind = new_line pretty indent ++ b']' ∷ rest in
        omega (
          arith,
          items_steps-le-length items true pretty indent behind h,
          length-append (new_line pretty indent) (b']' ∷ rest),
        )
    steps-le-length (object entries) pretty indent rest h =
        let behind = new_line pretty indent ++ b'}' ∷ rest in
        omega (
          arith,
          fields_steps-le-length entries true pretty indent behind h,
          length-append (new_line pretty indent) (b'}' ∷ rest),
        )

    items_steps-le-length :
        (items : Items N) (first pretty : Bool) (indent : ℕ) (rest : Bytes)
        → all_plain whole items ≡ true
        → items_steps items + 2 * length rest
          ≤ 2 * length (items_text digits items first pretty indent rest) + slack first
    items_steps-le-length no_items true pretty indent rest h = omega arith
    items_steps-le-length no_items false pretty indent rest h = omega arith
    items_steps-le-length (item v items) first pretty indent rest h =
        let (plain, others) = &&-true (is_plain whole v) (all_plain whole items) h in
        let deeper = indent + indent_size in
        let behind = items_text digits items false pretty indent rest in
        omega (
          arith,
          steps-le-length v pretty deeper behind plain,
          items_steps-le-length items false pretty indent rest others,
          length-line first (new_line pretty deeper) (text digits v pretty deeper behind),
        )

    fields_steps-le-length :
        (fields : Fields N) (first pretty : Bool) (indent : ℕ) (rest : Bytes)
        → fields_plain whole fields ≡ true
        → fields_steps fields + 2 * length rest
          ≤ 2 * length (fields_text digits fields first pretty indent rest) + slack first
    fields_steps-le-length no_fields true pretty indent rest h = omega arith
    fields_steps-le-length no_fields false pretty indent rest h = omega arith
    fields_steps-le-length (field k v fields) first pretty indent rest h =
        let (_, both) = &&-true (not (has_key fields k)) _ h in
        let (plain, others) = &&-true (is_plain whole v) (fields_plain whole fields) both in
        let deeper = indent + indent_size in
        let behind = fields_text digits fields false pretty indent rest in
        let here = text digits v pretty deeper behind in
        omega (
          arith,
          steps-le-length v pretty deeper behind plain,
          fields_steps-le-length fields false pretty indent rest others,
          length-entry k here pretty,
          length-line first (new_line pretty deeper)
              (b'"' ∷ escapes k ++ b'"' ∷ b':' ∷ pad pretty here),
        )

  -- `LCH_JsonParse` reads what `LCH_JsonCompose` makes of a value as that value, pretty or not,
  -- whatever bytes its strings hold, provided that each key of an object in it stands once, and that the
  -- numbers in it are printed with zeroes behind the point and read back by `sscanf`.
  pub json_parse-json_compose :
      (json : Json N) (pretty : Bool)
      → is_plain whole json ≡ true
      → json_parse sscanf (json_compose print json pretty) ≡ ok json
  unfolding json_parse trim_whitespace
  json_parse-json_compose json pretty h =
      let rest : Bytes = if pretty then b'\n' ∷ [] else [] in
      let str = text digits json pretty 0 rest in
      let enough = steps-le-length json pretty 0 rest h in
      rw
        (
          json_compose-text print sscanf digits whole reads json pretty h,
          parse-text print sscanf digits whole reads json (2 * length str + 2) pretty 0 rest h
              (line_end pretty) (omega arith),
        )
        (elim (Bool-cases pretty) [ inl e ↦ rw e refl | inr e ↦ rw e refl ])
