-- ===== src/Json/Composer.antt =====
-- lib/json.c: the composer. Each function appends to the buffer it is given. `print` is the text of
-- a number in the format `%f`, a parameter.
use leech.Base.{ℕ, zero, suc, ◌+◌, Bool, true, false, [], ◌∷◌, ◌++◌, ◌==◌, if◌then◌else◌, Bytes}
use leech.Buffer.{append}
use leech.Json.Syntax.{
  Json, Items, Fields, null, true_value, false_value, string, number, array, object, no_items, item,
  no_fields, field,
}
use leech.Json.Parser.{null_token, true_token, false_token}

-- The loop of `StringComposeString`
unfoldable pub escapes_onto : Bytes → Bytes → Bytes
escapes_onto buffer [] = buffer
escapes_onto buffer (c ∷ cs) =
    escapes_onto
      (if c == b'"'
        then buffer ++ (b'\\' ∷ b'"' ∷ [])
        else if c == b'\\'
        then buffer ++ (b'\\' ∷ b'\\' ∷ [])
        else append buffer c)
      cs

-- `StringComposeString`
unfoldable pub string_compose_string : Bytes → Bytes → Bytes
unfolding escapes_onto
string_compose_string str buffer = append (escapes_onto (append buffer b'"') str) b'"'

unfoldable pub spaces : ℕ → Bytes
spaces zero = []
spaces (suc n) = b' ' ∷ spaces n

-- What `\n%*s` prints where the output is pretty
unfoldable pub new_line : Bool → ℕ → Bytes
unfolding spaces
new_line pretty indent = if pretty then b'\n' ∷ spaces indent else []

-- `LCH_JSON_PRETTY_INDENT_SIZE`, by configure.ac
abbrev pub indent_size : ℕ
indent_size = 2

-- The zeroes at the end, which the loop of `ComposeNumber` removes: it stops at the first byte.
unfoldable pub chop_zeros : Bytes → Bytes
chop_zeros [] = []
chop_zeros (c ∷ cs) = elim (chop_zeros cs) [
  | [] ↦ (if c == b'0' then [] else c ∷ [])
  | d ∷ ds ↦ c ∷ d ∷ ds
]

unfoldable pub remove_zeros : Bytes → Bytes
unfolding chop_zeros
remove_zeros [] = []
remove_zeros (c ∷ cs) = c ∷ chop_zeros cs

unfoldable pub remove_dot : Bytes → Bytes
remove_dot [] = []
remove_dot (c ∷ []) = if c == b'.' then [] else c ∷ []
remove_dot (c ∷ d ∷ cs) = c ∷ remove_dot (d ∷ cs)

module _ {N : Type 0} (print : N → Bytes) where
  -- `ComposeNumber`
  unfoldable pub compose_number : N → Bytes → Bytes
  unfolding remove_zeros remove_dot
  compose_number n buffer = remove_dot (remove_zeros (buffer ++ print n))

  unfoldable mutual
    unfolding string_compose_string compose_number new_line

    -- `Compose`, with the functions for the types, by the value first
    pub compose : Json N → Bytes → Bool → ℕ → Bytes
    compose null buffer pretty indent = buffer ++ null_token
    compose true_value buffer pretty indent = buffer ++ true_token
    compose false_value buffer pretty indent = buffer ++ false_token
    compose (string s) buffer pretty indent = string_compose_string s buffer
    compose (number n) buffer pretty indent = compose_number n buffer
    compose (array items) buffer pretty indent =
        append
          (compose_items items true (append buffer b'[') pretty indent ++ new_line pretty indent)
          b']'
    compose (object fields) buffer pretty indent =
        append
          (compose_fields fields true (append buffer b'{') pretty indent ++ new_line pretty indent)
          b'}'

    -- The loop of `ComposeArray`; the flag is `i == 0`.
    pub compose_items : Items N → Bool → Bytes → Bool → ℕ → Bytes
    compose_items no_items first buffer pretty indent = buffer
    compose_items (item v items) first buffer pretty indent =
        let separated = if first then buffer else append buffer b',' in
        let on_line = separated ++ new_line pretty (indent + indent_size) in
        compose_items items false (compose v on_line pretty (indent + indent_size)) pretty indent

    -- The loop of `ComposeObject`, over the entries
    pub compose_fields : Fields N → Bool → Bytes → Bool → ℕ → Bytes
    compose_fields no_fields first buffer pretty indent = buffer
    compose_fields (field key v fields) first buffer pretty indent =
        let separated = if first then buffer else append buffer b',' in
        let on_line = separated ++ new_line pretty (indent + indent_size) in
        let with_key = append (string_compose_string key on_line) b':' in
        let at_value = if pretty then append with_key b' ' else with_key in
        compose_fields fields false (compose v at_value pretty (indent + indent_size)) pretty indent

  -- `LCH_JsonCompose`
  unfoldable pub json_compose : Json N → Bool → Bytes
  unfolding compose
  json_compose json pretty =
      let composed = compose json [] pretty 0 in if pretty then append composed b'\n' else composed
