-- ===== src/Csv/Field.antt =====
-- A field that lib/csv.c composes is read back by its parser, with what follows it.
use mathlib.Core.List.{reverse, reverse-cons, reverse-reverse}
use leech.Base.{
  ℕ, true, false, [], ◌∷◌, ◌++◌, append-nil, append_assoc, ◌≡◌, inl, inr, refl, sym, ◌∙◌, arith,
  ◌==◌, ==_iff, Bytes, Bool-cases, ok,
}
use leech.Buffer.{append, trim_start, trim}
use leech.Csv.Text.{textdata, CsvParser, at_crlf, at_char}
use leech.Csv.Parser.{
  at_boundary, escaped_loop, non_escaped_loop, parse_non_escaped, field_at, parse_field,
}
use leech.Csv.Total.{&&-true}
use leech.Csv.Layout.{doubled, all_text, plain, field_text}
use leech.Csv.Composer.{ends_with}

trim_start_ne : (ch : ℕ) (bs : Bytes) → at_char ch bs ≡ false → trim_start ch bs ≡ bs
unfolding trim_start
trim_start_ne ch [] h = refl
trim_start_ne ch (b ∷ bs) h = rw h

trim_start-at_boundary : (rest : Bytes) → at_boundary rest ≡ true → trim_start b' ' rest ≡ rest
unfolding trim_start
trim_start-at_boundary [] h = refl
trim_start-at_boundary (r ∷ []) h = ground arith
trim_start-at_boundary (r ∷ s ∷ rest) h = ground arith

escaped_loop_close :
    (field rest : Bytes)
    → at_boundary rest ≡ true
    → escaped_loop field (b'"' ∷ rest) ≡ ok (field, rest)
unfolding escaped_loop
escaped_loop_close field [] b = rw (trim_start-at_boundary [] refl)
escaped_loop_close field (r ∷ []) b = rw (trim_start-at_boundary (r ∷ []) b) (ground arith)
escaped_loop_close field (r ∷ s ∷ rest) b =
    rw (trim_start-at_boundary (r ∷ s ∷ rest) b) (ground arith)

escaped_loop_byte :
    (c : ℕ) (field cs : Bytes)
    → (c == b'"') ≡ false
    → escaped_loop field (c ∷ cs) ≡ escaped_loop (append field c) cs
unfolding escaped_loop
escaped_loop_byte c field [] h = rw h
escaped_loop_byte c field (d ∷ cs) h = rw h

escaped_loop_quote :
    (field cs : Bytes) → escaped_loop field (b'"' ∷ b'"' ∷ cs) ≡ escaped_loop (append field b'"') cs
unfolding escaped_loop
escaped_loop_quote field cs = refl

escaped_loop-doubled :
    (raw field rest : Bytes)
    → at_boundary rest ≡ true
    → escaped_loop field (doubled raw ++ b'"' ∷ rest) ≡ ok (field ++ raw, rest)
escaped_loop-doubled [] field rest b = escaped_loop_close field rest b ∙ rw append-nil
escaped_loop-doubled (c ∷ cs) field rest b = elim (Bool-cases (c == b'"')) [
  | inl quote ↦ rw quote (
      escaped_loop_quote field (doubled cs ++ b'"' ∷ rest)
      ∙ escaped_loop-doubled cs (append field b'"') rest b
      ∙ rw ((==_iff c b'"').0 quote, append_assoc))
  | inr byte ↦ rw byte (
      escaped_loop_byte c field (doubled cs ++ b'"' ∷ rest) byte
      ∙ escaped_loop-doubled cs (append field c) rest b
      ∙ rw append_assoc)
]

textdata-ne_end :
    (c : ℕ) (cs : Bytes)
    → textdata c ≡ true
    → (at_crlf (c ∷ cs) ≡ false) × ((c == b',') ≡ false) × ((c == b'"') ≡ false)
unfolding textdata
textdata-ne_end c [] h = ground arith
textdata-ne_end c (d ∷ cs) h = ground arith

non_escaped_loop-all_text :
    (raw field rest : Bytes)
    → all_text raw ≡ true
    → at_boundary rest ≡ true
    → non_escaped_loop field (raw ++ rest) ≡ ok (field ++ raw, rest)
unfolding non_escaped_loop
non_escaped_loop-all_text [] field [] h b = rw append-nil
non_escaped_loop-all_text [] field (r ∷ rest) h b = rw append-nil (ground arith)
non_escaped_loop-all_text (c ∷ cs) field rest h b =
    let text = (&&-true (textdata c) (all_text cs) h).0 in
    let (line, comma, _) = textdata-ne_end c (cs ++ rest) text in
    rw (line, comma, text)
      (non_escaped_loop-all_text cs (append field c) rest (&&-true (textdata c) (all_text cs) h).1 b
        ∙ rw append_assoc)

ends_with-concat : (ch x : ℕ) (xs : Bytes) → ends_with ch (xs ++ x ∷ []) ≡ (x == ch)
unfolding ends_with
ends_with-concat ch x [] = refl
ends_with-concat ch x (y ∷ []) = refl
ends_with-concat ch x (y ∷ z ∷ xs) = ends_with-concat ch x (z ∷ xs)

ends_with-reverse : (ch : ℕ) (xs : Bytes) → ends_with ch (reverse xs) ≡ at_char ch xs
unfolding ends_with
ends_with-reverse ch [] = refl
ends_with-reverse ch (x ∷ xs) = rw reverse-cons (ends_with-concat ch x (reverse xs))

at_char-reverse : (ch : ℕ) (xs : Bytes) → at_char ch (reverse xs) ≡ ends_with ch xs
at_char-reverse ch xs = sym (ends_with-reverse ch (reverse xs)) ∙ rw reverse-reverse

plain_parts :
    (raw : Bytes)
    → plain raw ≡ true
    → (all_text raw ≡ true) × (at_char b' ' raw ≡ false) × (ends_with b' ' raw ≡ false)
plain_parts raw h = ground arith

trim-plain : (raw : Bytes) → plain raw ≡ true → trim raw b' ' ≡ raw
unfolding trim
trim-plain raw h =
    let (_, first, last) = plain_parts raw h in
    rw (trim_start_ne b' ' raw first) (
      rw (trim_start_ne b' ' (reverse raw) (at_char-reverse b' ' raw ∙ last)) (reverse-reverse raw))

parse_non_escaped-plain :
    (raw rest : Bytes)
    → plain raw ≡ true
    → at_boundary rest ≡ true
    → parse_non_escaped (raw ++ rest) ≡ ok (raw, rest)
unfolding parse_non_escaped
parse_non_escaped-plain raw rest h b =
    rw (non_escaped_loop-all_text raw [] rest (plain_parts raw h).0 b, trim-plain raw h)

boundary-ne_quote : (r : ℕ) (rest : Bytes) → at_boundary (r ∷ rest) ≡ true → (r == b'"') ≡ false
boundary-ne_quote r [] h = ground arith
boundary-ne_quote r (s ∷ rest) h = ground arith

field_at-field_text :
    (raw rest : Bytes)
    → at_boundary rest ≡ true
    → field_at (trim_start b' ' (field_text raw ++ rest)) ≡ ok (raw, rest)
unfolding field_at ends_with
field_at-field_text [] [] b = unfold trim_start in refl
field_at-field_text [] (r ∷ rest) b =
    rw (trim_start-at_boundary (r ∷ rest) b)
      (rw (boundary-ne_quote r rest b) (parse_non_escaped-plain [] (r ∷ rest) refl b))
field_at-field_text (c ∷ cs) rest b = elim (Bool-cases (plain (c ∷ cs))) [
  | inl text ↦
      let (all, first, _) = plain_parts (c ∷ cs) text in
      let (_, _, quote) = textdata-ne_end c [] (&&-true (textdata c) (all_text cs) all).0 in
      rw text (
        rw (trim_start_ne b' ' (c ∷ (cs ++ rest)) first)
          (rw quote (parse_non_escaped-plain (c ∷ cs) rest text b)))
  | inr quoted ↦ rw quoted (
      rw (trim_start_ne b' ' (b'"' ∷ ((doubled (c ∷ cs) ++ b'"' ∷ []) ++ rest)) refl)
        (rw append_assoc (escaped_loop-doubled (c ∷ cs) [] rest b)))
]

-- A composed field is read back, up to the end, the comma or the CRLF that follows it.
pub parse_field-field_text :
    (parser : CsvParser) (raw rest : Bytes)
    → at_boundary rest ≡ true
    → parser.cursor ≡ field_text raw ++ rest
    → parse_field parser ≡ ok (raw, record parser { cursor = rest })
unfolding parse_field
parse_field-field_text parser raw rest b e = rw e (rw (field_at-field_text raw rest b))
