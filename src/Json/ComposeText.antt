-- ===== src/Json/ComposeText.antt =====
-- What lib/json.c composes is the text of the value, behind what the buffer held.
use leech.Base.{
  ℕ, ◌+◌, Bool, true, false, [], ◌∷◌, ◌++◌, append_assoc, append-nil, ◌≡◌, refl, sym, ◌∙◌, Bytes,
  if◌then◌else◌, ap, Option,
}
use leech.Buffer.{append}
use leech.Csv.Total.{&&-true}
use leech.Json.Syntax.{
  Json, Items, Fields, null, true_value, false_value, string, number, array, object, no_items, item,
  no_fields, field,
}
use leech.Json.Composer.{
  string_compose_string, new_line, indent_size, compose, compose_items, compose_fields,
  json_compose,
}
use leech.Json.Numbers.{Reads, compose_number-digits}
use leech.Json.Layout.{
  is_plain, all_plain, fields_plain, quoted, comma, pad, text, items_text, fields_text,
  string_compose_string-quoted,
}

comma-append :
    (first : Bool) (buffer rest : Bytes)
    → (if first then buffer else append buffer b',') ++ rest ≡ buffer ++ comma first rest
comma-append true buffer rest = refl
comma-append false buffer rest = rw append_assoc

pad-append :
    (pretty : Bool) (buffer rest : Bytes)
    → (if pretty then append buffer b' ' else buffer) ++ rest ≡ buffer ++ pad pretty rest
pad-append true buffer rest = rw append_assoc
pad-append false buffer rest = refl

line_start-comma :
    (first : Bool) (line buffer rest : Bytes)
    → ((if first then buffer else append buffer b',') ++ line) ++ rest
      ≡ buffer ++ comma first (line ++ rest)
line_start-comma first line buffer rest =
    append_assoc (if first then buffer else append buffer b',') line rest
    ∙ comma-append first buffer (line ++ rest)

with_key-quoted :
    (k on_line rest : Bytes)
    → append (string_compose_string k on_line) b':' ++ rest ≡ on_line ++ quoted k (b':' ∷ rest)
with_key-quoted k on_line rest =
    append_assoc (string_compose_string k on_line) (b':' ∷ []) rest
    ∙ string_compose_string-quoted k on_line (b':' ∷ rest)

line_end-append :
    (close : ℕ) (written line rest : Bytes)
    → append (written ++ line) close ++ rest ≡ written ++ (line ++ close ∷ rest)
line_end-append close written line rest =
    append_assoc (written ++ line) (close ∷ []) rest ∙ append_assoc written line (close ∷ rest)

module _ {N : Type 0} (print : N → Bytes) (sscanf : Bytes → Option (N × ℕ)) (digits : N → Bytes)
    (whole : N → Bool) (reads : (n : N) → whole n ≡ true → Reads print sscanf digits n) where
  mutual
    unfolding compose text is_plain

    compose-text :
        (v : Json N) (buffer : Bytes) (pretty : Bool) (indent : ℕ) (rest : Bytes)
        → is_plain whole v ≡ true
        → compose print v buffer pretty indent ++ rest ≡ buffer ++ text digits v pretty indent rest
    compose-text null buffer pretty indent rest h = rw append_assoc
    compose-text true_value buffer pretty indent rest h = rw append_assoc
    compose-text false_value buffer pretty indent rest h = rw append_assoc
    compose-text (string s) buffer pretty indent rest h = string_compose_string-quoted s buffer rest
    compose-text (number n) buffer pretty indent rest h =
        ap (λ cs. cs ++ rest) (compose_number-digits print sscanf digits n buffer (reads n h))
        ∙ append_assoc buffer (digits n) rest
    compose-text (array items) buffer pretty indent rest h =
        let line = new_line pretty indent in
        line_end-append b']' (compose_items print items true (append buffer b'[') pretty indent)
          line rest
        ∙ compose_items-text items true (append buffer b'[') pretty indent (line ++ b']' ∷ rest) h
        ∙ append_assoc buffer (b'[' ∷ [])
            (items_text digits items true pretty indent (line ++ b']' ∷ rest))
    compose-text (object entries) buffer pretty indent rest h =
        let line = new_line pretty indent in
        line_end-append b'}' (compose_fields print entries true (append buffer b'{') pretty indent)
          line rest
        ∙ compose_fields-text entries true (append buffer b'{') pretty indent (line ++ b'}' ∷ rest)
            h
        ∙ append_assoc buffer (b'{' ∷ [])
            (fields_text digits entries true pretty indent (line ++ b'}' ∷ rest))

    compose_items-text :
        (items : Items N) (first : Bool) (buffer : Bytes) (pretty : Bool) (indent : ℕ)
        (rest : Bytes)
        → all_plain whole items ≡ true
        → compose_items print items first buffer pretty indent ++ rest
          ≡ buffer ++ items_text digits items first pretty indent rest
    compose_items-text no_items first buffer pretty indent rest h = refl
    compose_items-text (item v items) first buffer pretty indent rest h =
        let (plain, others) = &&-true _ _ h in
        compose_items-text items false _ pretty indent rest others
        ∙ compose-text v _ pretty (indent + indent_size)
            (items_text digits items false pretty indent rest) plain
        ∙ line_start-comma first (new_line pretty (indent + indent_size)) buffer (
            text digits v pretty (indent + indent_size)
              (items_text digits items false pretty indent rest))

    compose_fields-text :
        (fields : Fields N) (first : Bool) (buffer : Bytes) (pretty : Bool) (indent : ℕ)
        (rest : Bytes)
        → fields_plain whole fields ≡ true
        → compose_fields print fields first buffer pretty indent ++ rest
          ≡ buffer ++ fields_text digits fields first pretty indent rest
    compose_fields-text no_fields first buffer pretty indent rest h = refl
    compose_fields-text (field k v fields) first buffer pretty indent rest h =
        let (_, both) = &&-true _ _ h in
        let (plain, others) = &&-true _ _ both in
        let line = new_line pretty (indent + indent_size) in
        let on_line = (if first then buffer else append buffer b',') ++ line in
        let value =
          text digits v pretty (indent + indent_size)
            (fields_text digits fields false pretty indent rest) in
        compose_fields-text fields false _ pretty indent rest others
        ∙ compose-text v _ pretty (indent + indent_size)
            (fields_text digits fields false pretty indent rest) plain
        ∙ pad-append pretty (append (string_compose_string k on_line) b':') value
        ∙ with_key-quoted k on_line (pad pretty value)
        ∙ line_start-comma first line buffer (quoted k (b':' ∷ pad pretty value))

  -- `LCH_JsonCompose`, given no buffer
  pub json_compose-text :
      (v : Json N) (pretty : Bool)
      → is_plain whole v ≡ true
      → json_compose print v pretty ≡ text digits v pretty 0 (if pretty then b'\n' ∷ [] else [])
  unfolding json_compose
  json_compose-text v true h = compose-text v [] true 0 (b'\n' ∷ []) h
  json_compose-text v false h = sym (append-nil _) ∙ compose-text v [] false 0 [] h
