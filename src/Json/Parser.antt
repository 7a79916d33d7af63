-- ===== src/Json/Parser.antt =====
-- lib/json.c: the parser. `sscanf` reads numbers with the format `%le%n`, on a copy that ends at the
-- first null byte: it is a parameter, which gives the number and how many bytes it took.
use leech.Base.{
  ℕ, zero, suc, ◌+◌, ◌*◌, Bool, true, false, not, ◌&&◌, ◌||◌, [], ◌∷◌, ◌==◌, leb, if◌then◌else◌,
  length, drop, Option, none, some, Bytes, Result, ok, failed, out_of_fuel, ◌>>=◌,
}
use leech.Buffer.{append}
use leech.CString.{until_null}
use leech.Json.Syntax.{
  Json, Items, Fields, null, true_value, false_value, string, number, array, object, no_items, item,
  no_fields, set,
}
use leech.Json.Access.{asserted}

abbrev pub is_whitespace : ℕ → Bool
is_whitespace c = c == b' ' || c == b'\r' || c == b'\n' || c == b'\t'

-- `TrimLeadingWhitespace`
unfoldable pub trim_whitespace : Bytes → Bytes
trim_whitespace [] = []
trim_whitespace (c ∷ cs) = let rest = trim_whitespace cs in if is_whitespace c then rest else c ∷ cs

-- `CheckToken`
unfoldable pub check_token : Bytes → Bytes → Bool
check_token [] cursor = true
check_token (t ∷ token) [] = false
check_token (t ∷ token) (c ∷ cs) = c == t && check_token token cs

-- `ParseToken`: the bytes behind the token
unfoldable pub parse_token : Bytes → Bytes → Result Bytes
parse_token [] cursor = ok cursor
parse_token (t ∷ token) [] = failed
parse_token (t ∷ token) (c ∷ cs) =
    let rest = parse_token token cs in if c == t then rest else failed

abbrev pub null_token : Bytes
null_token = b'n' ∷ b'u' ∷ b'l' ∷ b'l' ∷ []

abbrev pub true_token : Bytes
true_token = b't' ∷ b'r' ∷ b'u' ∷ b'e' ∷ []

abbrev pub false_token : Bytes
false_token = b'f' ∷ b'a' ∷ b'l' ∷ b's' ∷ b'e' ∷ []

-- The loop of `BufferParseString`, and the closing quote. A backslash stands for the byte behind it,
-- whichever that is.
unfoldable pub string_loop : Bytes → Bytes → Result (Bytes × Bytes)
string_loop str [] = failed
string_loop str (c ∷ []) = if c == b'"' then ok (str, []) else failed
string_loop str (c ∷ d ∷ cs) =
    let escaped = string_loop (append str d) cs in
    let found_byte = string_loop (append str c) (d ∷ cs) in
    if c == b'"' then ok (str, d ∷ cs) else if c == b'\\' then escaped else found_byte

-- `BufferParseString`, which asserts that it starts at a quote
unfoldable pub buffer_parse_string : Bytes → Result (Bytes × Bytes)
unfolding string_loop parse_token
buffer_parse_string cursor = do
  rest ← asserted (parse_token (b'"' ∷ []) cursor)
  string_loop [] rest

-- `cursor < end && cursor[0] != ch`
abbrev pub before : ℕ → Bytes → Bool
before ch [] = false
before ch (c ∷ _) = not (c == ch)

-- The separator, behind the first element
unfoldable pub separator : Bool → Bytes → Result Bytes
unfolding parse_token trim_whitespace
separator first cursor =
    if first
    then ok cursor
    else (do rest ← parse_token (b',' ∷ []) cursor; ok (trim_whitespace rest))

-- `isdigit(cursor[0]) || cursor[0] == '-'`. At the end of the buffer its null byte is read.
abbrev pub at_number : Bytes → Bool
at_number [] = false
at_number (c ∷ _) = (leb b'0' c && leb c b'9') || c == b'-'

module _ {N : Type 0} (sscanf : Bytes → Option (N × ℕ)) where
  -- `ParseNumber`
  unfoldable pub parse_number : Bytes → Result (Json N × Bytes)
  parse_number cursor = elim (sscanf (until_null cursor)) [
    | none ↦ failed
    | some (n, n_chars) ↦ ok (number n, drop n_chars cursor)
  ]

  unfoldable mutual
    unfolding trim_whitespace check_token parse_token buffer_parse_string separator parse_number

    -- `Parse`, with `ParseNull`, `ParseTrue`, `ParseFalse` and `ParseString`
    pub parse : ℕ → Bytes → Result (Json N × Bytes)
    parse zero cursor = out_of_fuel
    parse (suc fuel) cursor =
        let start = trim_whitespace cursor in
        let in_object = do
          rest ← asserted (parse_token (b'{' ∷ []) start)
          object_loop fuel true no_fields (trim_whitespace rest)
        in let in_array = do
          rest ← asserted (parse_token (b'[' ∷ []) start)
          (items, rest') ← array_loop fuel true (trim_whitespace rest)
          ok (array items, rest')
          in if check_token null_token start
            then (do rest ← asserted (parse_token null_token start); ok (null, rest))
            else if check_token true_token start
            then (do rest ← asserted (parse_token true_token start); ok (true_value, rest))
            else if check_token false_token start
            then (do rest ← asserted (parse_token false_token start); ok (false_value, rest))
            else if check_token (b'"' ∷ []) start
            then (do (str, rest) ← buffer_parse_string start; ok (string str, rest))
            else if check_token (b'{' ∷ []) start
            then in_object
            else if check_token (b'[' ∷ []) start
            then in_array
            else if at_number start
            then parse_number start
            else failed

    -- The loop of `ParseObject`, and the closing brace
    pub object_loop : ℕ → Bool → Fields N → Bytes → Result (Json N × Bytes)
    object_loop zero first entries cursor = out_of_fuel
    object_loop (suc fuel) first entries cursor =
        let next = do
          at_key ← separator first cursor
          (key, after_key) ← buffer_parse_string at_key
          at_value ← parse_token (b':' ∷ []) (trim_whitespace after_key)
          (value, rest) ← parse fuel at_value
          object_loop fuel false (set entries key value) (trim_whitespace rest)
        in let done = (do rest ← parse_token (b'}' ∷ []) cursor; ok (object entries, rest)) in
          if before b'}' cursor then next else done

    -- The loop of `ParseArray`, and the closing bracket
    pub array_loop : ℕ → Bool → Bytes → Result (Items N × Bytes)
    array_loop zero first cursor = out_of_fuel
    array_loop (suc fuel) first cursor =
        let next = do
          at_child ← separator first cursor
          (child, rest) ← parse fuel at_child
          (items, rest') ← array_loop fuel false (trim_whitespace rest)
          ok (item child items, rest')
        in let done = (do rest ← parse_token (b']' ∷ []) cursor; ok (no_items, rest)) in
          if before b']' cursor then next else done

  -- `LCH_JsonParse`. Each call of `parse` and each turn of a loop but the first has a byte of its own.
  unfoldable pub json_parse : Bytes → Result (Json N)
  unfolding parse trim_whitespace
  json_parse str = do
    (json, rest) ← parse (2 * length str + 2) str
    (elim (trim_whitespace rest) [ [] ↦ ok json | _ ∷ _ ↦ failed ])
