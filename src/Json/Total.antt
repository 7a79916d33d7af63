-- ===== src/Json/Total.antt =====
-- The parser of lib/json.c ends on every input; a key without quotes runs into an assertion.
use leech.Base.{
  ℕ, zero, suc, ◌+◌, ◌*◌, ◌≤◌, Bool, true, false, [], ◌∷◌, ◌≡◌, ◌≢◌, arith, ◌==◌, length, drop,
  if◌then◌else◌, Option, Bytes, Result, ok, failed, aborted, out_of_fuel, ◌>>=◌, Ends, ends,
  ends_refused, ends_aborted, Ends-if, Ends-bind, Ends-weaken, Ends-ne_out_of_fuel, Option-cases,
  inl, inr,
}
use leech.Buffer.{append}
use leech.Json.Syntax.{Json, Fields, null, true_value, false_value, no_fields, set}
use leech.CString.{until_null}
use leech.Json.Access.{asserted}
use leech.Json.Parser.{
  is_whitespace, trim_whitespace, check_token, parse_token, null_token, true_token, false_token,
  string_loop, buffer_parse_string, before, separator, at_number, parse_number, parse, object_loop,
  array_loop, json_parse,
}

trim_whitespace-le : (cs : Bytes) → length (trim_whitespace cs) ≤ length cs
unfolding trim_whitespace
trim_whitespace-le [] = omega arith
trim_whitespace-le (c ∷ cs) = ground (arith, trim_whitespace-le cs)

drop-le : (n : ℕ) (cs : Bytes) → length (drop n cs) ≤ length cs
drop-le zero cs = omega arith
drop-le (suc n) [] = omega arith
drop-le (suc n) (c ∷ cs) = omega (arith, drop-le n cs)

-- The bytes behind a token
parse_token-Ends :
    (token cursor : Bytes)
    → Ends (λ rest. length rest + length token ≤ length cursor) (parse_token token cursor)
unfolding parse_token
parse_token-Ends [] cursor = ends (omega arith)
parse_token-Ends (t ∷ token) [] = ends_refused
parse_token-Ends (t ∷ token) (c ∷ cs) =
    Ends-if (c == t) (Ends-weaken (parse_token-Ends token cs) (λ rest h. omega arith)) ends_refused

asserted-Ends : {P : Bytes → Type 0} {r : Result Bytes} → Ends P r → Ends P (asserted r)
asserted-Ends (ends h) = ends h
asserted-Ends ends_refused = ends_aborted
asserted-Ends ends_aborted = ends_aborted

string_loop-Ends :
    (str cursor : Bytes) → Ends (λ r. length r.1 ≤ length cursor) (string_loop str cursor)
unfolding string_loop
string_loop-Ends str [] = ends_refused
string_loop-Ends str (c ∷ []) = Ends-if (c == b'"') (ends (omega arith)) ends_refused
string_loop-Ends str (c ∷ d ∷ cs) = Ends-if (c == b'"') (ends (omega arith)) (
    Ends-if (c == b'\\') (Ends-weaken (string_loop-Ends (append str d) cs) (λ r h. omega arith))
      (Ends-weaken (string_loop-Ends (append str c) (d ∷ cs)) (λ r h. omega arith)))

buffer_parse_string-Ends :
    (cursor : Bytes) → Ends (λ r. length r.1 ≤ length cursor) (buffer_parse_string cursor)
unfolding buffer_parse_string
buffer_parse_string-Ends cursor =
    Ends-bind (asserted-Ends (parse_token-Ends (b'"' ∷ []) cursor))
      (λ rest h. Ends-weaken (string_loop-Ends [] rest) (λ r e. omega arith))

-- The bytes behind the separator
separator-Ends :
    (first : Bool) (cursor : Bytes)
    → Ends (λ rest. length rest + (if first then 0 else 1) ≤ length cursor) (separator first cursor)
unfolding separator
separator-Ends true cursor = ends (omega arith)
separator-Ends false cursor =
    Ends-bind (parse_token-Ends (b',' ∷ []) cursor)
      (λ rest h. ends (omega (arith, trim_whitespace-le rest)))

-- What a turn of a loop leaves for the calls in it
turn_le :
    (first : Bool) (m n fuel : ℕ)
    → 2 * m + (if first then 2 else 1) ≤ suc fuel
    → n + (if first then 0 else 1) ≤ m
    → (2 * n + 1 ≤ fuel) × (n ≤ m)
turn_le true m n fuel h e = (omega arith, omega arith)
turn_le false m n fuel h e = (omega arith, omega arith)

module _ {N : Type 0} (sscanf : Bytes → Option (N × ℕ)) where
  parse_number-Ends :
      (cursor : Bytes) → Ends (λ r. length r.1 ≤ length cursor) (parse_number sscanf cursor)
  unfolding parse_number
  parse_number-Ends cursor = elim (Option-cases (sscanf (until_null cursor))) [
    | inl e ↦ rw (parse_number, e) ends_refused
    | inr (r, e) ↦ rw (parse_number, e) (ends (drop-le r.1 cursor))
  ]

  -- A token that stands alone for a value
  literal-Ends :
      (token start : Bytes) (v : Json N)
      → Ends
          (λ (r : Json N × Bytes). length r.1 ≤ length start)
          (asserted (parse_token token start) >>= λ rest. ok (v, rest))
  literal-Ends token start v =
      Ends-bind (asserted-Ends (parse_token-Ends token start)) (λ rest h. ends (omega arith))

  mutual
    unfolding parse

    -- A call on `n` bytes takes at most `2 * n + 1` steps.
    parse-Ends :
        (fuel : ℕ) (cursor : Bytes)
        → 2 * length cursor + 1 ≤ fuel
        → Ends (λ r. length r.1 ≤ length cursor) (parse sscanf fuel cursor)
    parse-Ends zero cursor h = ground arith
    parse-Ends (suc fuel) cursor h =
        let start = trim_whitespace cursor in
        let shorter = trim_whitespace-le cursor in
        Ends-weaken {P = λ (r : Json N × Bytes). length r.1 ≤ length start}
          (Ends-if (check_token null_token start) (literal-Ends null_token start null) (
            Ends-if (check_token true_token start) (literal-Ends true_token start true_value) (
              Ends-if (check_token false_token start) (literal-Ends false_token start false_value) (
                Ends-if (check_token (b'"' ∷ []) start)
                  (Ends-bind (buffer_parse_string-Ends start) (λ r e. ends e))
                  (Ends-if (check_token (b'{' ∷ []) start)
                    (Ends-bind (asserted-Ends (parse_token-Ends (b'{' ∷ []) start)) (λ rest e.
                      let le = trim_whitespace-le rest in
                      Ends-weaken
                        (object_loop-Ends fuel true no_fields (trim_whitespace rest) (omega arith))
                        (λ r e'. omega arith)))
                    (Ends-if (check_token (b'[' ∷ []) start)
                      (Ends-bind (asserted-Ends (parse_token-Ends (b'[' ∷ []) start)) (λ rest e.
                        let le = trim_whitespace-le rest in
                        Ends-bind (array_loop-Ends fuel true (trim_whitespace rest) (omega arith))
                          (λ r e'. ends (omega arith))))
                      (Ends-if (at_number start) (parse_number-Ends start) ends_refused)))))))
          (λ r e. omega arith)

    object_loop-Ends :
        (fuel : ℕ) (first : Bool) (entries : Fields N) (cursor : Bytes)
        → 2 * length cursor + (if first then 2 else 1) ≤ fuel
        → Ends (λ r. length r.1 ≤ length cursor) (object_loop sscanf fuel first entries cursor)
    object_loop-Ends zero first entries cursor h = ground arith
    object_loop-Ends (suc fuel) first entries cursor h =
        Ends-if (before b'}' cursor)
          (Ends-bind (separator-Ends first cursor) (λ at_key e.
            let (enough, le) = turn_le first (length cursor) (length at_key) fuel h e in
            Ends-bind (buffer_parse_string-Ends at_key) (λ r e1.
              let le1 = trim_whitespace-le r.1 in
              Ends-bind (parse_token-Ends (b':' ∷ []) (trim_whitespace r.1)) (λ at_value e2.
                Ends-bind (parse-Ends fuel at_value (omega arith)) (λ value e3.
                  let le3 = trim_whitespace-le value.1 in
                  Ends-weaken
                    (object_loop-Ends fuel false (set entries r.0 value.0) (trim_whitespace value.1)
                      (omega arith))
                    (λ r' e4. omega arith))))))
          (Ends-bind (parse_token-Ends (b'}' ∷ []) cursor) (λ rest e. ends (omega arith)))

    array_loop-Ends :
        (fuel : ℕ) (first : Bool) (cursor : Bytes)
        → 2 * length cursor + (if first then 2 else 1) ≤ fuel
        → Ends (λ r. length r.1 ≤ length cursor) (array_loop sscanf fuel first cursor)
    array_loop-Ends zero first cursor h = ground arith
    array_loop-Ends (suc fuel) first cursor h =
        Ends-if (before b']' cursor)
          (Ends-bind (separator-Ends first cursor) (λ at_child e.
            let (enough, le) = turn_le first (length cursor) (length at_child) fuel h e in
            Ends-bind (parse-Ends fuel at_child enough) (λ child e1.
              let le1 = trim_whitespace-le child.1 in
              Ends-bind (array_loop-Ends fuel false (trim_whitespace child.1) (omega arith))
                (λ r e2. ends (omega arith)))))
          (Ends-bind (parse_token-Ends (b']' ∷ []) cursor) (λ rest e. ends (omega arith)))

  at_end-Ends :
      (json : Json N) (cs : Bytes)
      → Ends (λ _. Unit {0}) (elim cs [ [] ↦ ok json | _ ∷ _ ↦ failed ])
  at_end-Ends json [] = ends tt
  at_end-Ends json (c ∷ cs) = ends_refused

  -- Whatever bytes it is given, `LCH_JsonParse` ends: the fuel suffices, whatever `sscanf` does.
  pub json_parse-ne_out_of_fuel : (str : Bytes) → json_parse sscanf str ≢ out_of_fuel
  unfolding json_parse
  json_parse-ne_out_of_fuel str = Ends-ne_out_of_fuel {P = λ _. Unit {0}} (
      Ends-bind (parse-Ends (2 * length str + 2) str (omega arith))
        (λ (json, rest) e. at_end-Ends json (trim_whitespace rest)))

  parse-bare_key :
      (fuel c : ℕ) (cs : Bytes)
      → is_whitespace c ≡ false
      → (c == b'"') ≡ false
      → (c == b'}') ≡ false
      → 2 ≤ fuel
      → parse sscanf fuel (b'{' ∷ c ∷ cs) ≡ aborted
  unfolding parse trim_whitespace check_token parse_token buffer_parse_string separator
  parse-bare_key zero c cs blank quote brace h = ground arith
  parse-bare_key (suc zero) c cs blank quote brace h = ground arith
  parse-bare_key (suc (suc fuel)) c cs blank quote brace h = rw blank (rw (brace, quote))

  -- An object whose first key does not start with a quote fails an assertion of `LCH_JsonParse`,
  -- where the text is to be refused. The byte behind the brace is neither white space, nor a quote,
  -- nor the closing brace.
  pub json_parse-bare_key :
      (c : ℕ) (cs : Bytes)
      → is_whitespace c ≡ false
      → (c == b'"') ≡ false
      → (c == b'}') ≡ false
      → json_parse sscanf (b'{' ∷ c ∷ cs) ≡ aborted
  unfolding json_parse
  json_parse-bare_key c cs blank quote brace =
      rw (parse-bare_key (2 * length (b'{' ∷ c ∷ cs) + 2) c cs blank quote brace (omega arith))
