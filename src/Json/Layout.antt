-- ===== src/Json/Layout.antt =====
-- The text that lib/json.c composes, without the buffer.
use leech.Base.{
  ℕ, ◌+◌, Bool, true, false, not, ◌&&◌, [], ◌∷◌, ◌++◌, append_assoc, ◌==◌, if◌then◌else◌, ◌≡◌, refl,
  ◌∙◌, Bool-cases, inl, inr, Bytes,
}
use leech.Buffer.{append}
use leech.Json.Syntax.{
  Json, Items, Fields, null, true_value, false_value, string, number, array, object, no_items, item,
  no_fields, field, has_key,
}
use leech.Json.Parser.{null_token, true_token, false_token}
use leech.Json.Composer.{escapes_onto, string_compose_string, new_line, indent_size}

-- Each number in the value satisfies the test, and each key of an object in it stands once.
unfoldable mutual
  pub is_plain : {N : Type 0} → (N → Bool) → Json N → Bool
  is_plain whole (number n) = whole n
  is_plain whole (array items) = all_plain whole items
  is_plain whole (object entries) = fields_plain whole entries
  is_plain whole _ = true

  pub all_plain : {N : Type 0} → (N → Bool) → Items N → Bool
  all_plain whole no_items = true
  all_plain whole (item v items) = is_plain whole v && all_plain whole items

  pub fields_plain : {N : Type 0} → (N → Bool) → Fields N → Bool
  fields_plain whole no_fields = true
  fields_plain whole (field k v fields) =
      not (has_key fields k) && (is_plain whole v && fields_plain whole fields)

unfoldable pub escapes : Bytes → Bytes
escapes [] = []
escapes (c ∷ cs) =
    if c == b'"'
    then b'\\' ∷ b'"' ∷ escapes cs
    else if c == b'\\'
    then b'\\' ∷ b'\\' ∷ escapes cs
    else c ∷ escapes cs

-- A string with its quotes, and what follows it
abbrev pub quoted : Bytes → Bytes → Bytes
quoted s rest = b'"' ∷ escapes s ++ b'"' ∷ rest

abbrev pub comma : Bool → Bytes → Bytes
comma first rest = if first then rest else b',' ∷ rest

abbrev pub pad : Bool → Bytes → Bytes
pad pretty rest = if pretty then b' ' ∷ rest else rest

-- The text of a value, and what follows it. `digits` is the text of a number.
unfoldable mutual
  unfolding escapes

  pub text : {N : Type 0} → (N → Bytes) → Json N → Bool → ℕ → Bytes → Bytes
  text digits null pretty indent rest = null_token ++ rest
  text digits true_value pretty indent rest = true_token ++ rest
  text digits false_value pretty indent rest = false_token ++ rest
  text digits (string s) pretty indent rest = quoted s rest
  text digits (number n) pretty indent rest = digits n ++ rest
  text digits (array items) pretty indent rest =
      b'[' ∷ items_text digits items true pretty indent (new_line pretty indent ++ b']' ∷ rest)
  text digits (object entries) pretty indent rest =
      b'{' ∷ fields_text digits entries true pretty indent (new_line pretty indent ++ b'}' ∷ rest)

  pub items_text : {N : Type 0} → (N → Bytes) → Items N → Bool → Bool → ℕ → Bytes → Bytes
  items_text digits no_items first pretty indent rest = rest
  items_text digits (item v items) first pretty indent rest = comma first (
      new_line pretty (indent + indent_size)
      ++ text digits v pretty (indent + indent_size)
          (items_text digits items false pretty indent rest))

  pub fields_text : {N : Type 0} → (N → Bytes) → Fields N → Bool → Bool → ℕ → Bytes → Bytes
  fields_text digits no_fields first pretty indent rest = rest
  fields_text digits (field k v fields) first pretty indent rest = comma first (
      new_line pretty (indent + indent_size)
      ++ quoted k (
          b':'
          ∷ pad pretty (
              text digits v pretty (indent + indent_size)
                (fields_text digits fields false pretty indent rest))))

escapes_onto-escapes :
    (s buffer rest : Bytes) → escapes_onto buffer s ++ rest ≡ buffer ++ (escapes s ++ rest)
unfolding escapes_onto escapes
escapes_onto-escapes [] buffer rest = refl
escapes_onto-escapes (c ∷ cs) buffer rest = elim (Bool-cases (c == b'"')) [
  | inl quote ↦ rw quote (escapes_onto-escapes cs _ rest ∙ rw append_assoc)
  | inr other ↦ elim (Bool-cases (c == b'\\')) [
    | inl slash ↦ rw (other, slash) (escapes_onto-escapes cs _ rest ∙ rw append_assoc)
    | inr plain ↦ rw (other, plain) (escapes_onto-escapes cs _ rest ∙ rw append_assoc)
  ]
]

pub string_compose_string-quoted :
    (s buffer rest : Bytes) → string_compose_string s buffer ++ rest ≡ buffer ++ quoted s rest
unfolding string_compose_string
string_compose_string-quoted s buffer rest =
    rw append_assoc (escapes_onto-escapes s (append buffer b'"') (b'"' ∷ rest) ∙ rw append_assoc)
