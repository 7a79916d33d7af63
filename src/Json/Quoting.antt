-- ===== src/Json/Quoting.antt =====
-- Strings that lib/json.c composes are read back by its parser, and how the text of a value starts.
use leech.Base.{
  ℕ, zero, suc, Bool, true, false, ◌||◌, [], ◌∷◌, ◌++◌, append-nil, append_assoc, ◌≡◌, refl, ◌∙◌,
  arith, ◌==◌, ==_iff, Bool-cases, inl, inr, Bytes, ok,
}
use leech.Buffer.{append}
use leech.Json.Syntax.{Json, null, true_value, false_value, string, number, array, object}
use leech.Json.Parser.{
  trim_whitespace, parse_token, at_number, string_loop, buffer_parse_string, before, separator,
}
use leech.Json.Composer.{new_line, spaces}
use leech.Json.Layout.{is_plain, escapes, quoted, comma, text}

string_loop_close : (str rest : Bytes) → string_loop str (b'"' ∷ rest) ≡ ok (str, rest)
unfolding string_loop
string_loop_close str [] = refl
string_loop_close str (c ∷ cs) = refl

string_loop_byte :
    (c : ℕ) (str cs : Bytes)
    → (c == b'"') ≡ false
    → (c == b'\\') ≡ false
    → string_loop str (c ∷ cs) ≡ string_loop (append str c) cs
unfolding string_loop
string_loop_byte c str [] q s = rw q
string_loop_byte c str (d ∷ cs) q s = rw (q, s)

string_loop_escaped :
    (c : ℕ) (str cs : Bytes) → string_loop str (b'\\' ∷ c ∷ cs) ≡ string_loop (append str c) cs
unfolding string_loop
string_loop_escaped c str cs = refl

string_loop-escapes :
    (s str rest : Bytes) → string_loop str (escapes s ++ b'"' ∷ rest) ≡ ok (str ++ s, rest)
unfolding escapes
string_loop-escapes [] str rest = string_loop_close str rest ∙ rw append-nil
string_loop-escapes (c ∷ cs) str rest = elim (Bool-cases (c == b'"')) [
  | inl quote ↦ rw quote (
      string_loop_escaped b'"' str (escapes cs ++ b'"' ∷ rest)
      ∙ string_loop-escapes cs (append str b'"') rest
      ∙ rw ((==_iff c b'"').0 quote, append_assoc))
  | inr other ↦ elim (Bool-cases (c == b'\\')) [
    | inl slash ↦
        rw (other, slash)
          (string_loop_escaped b'\\' str (escapes cs ++ b'"' ∷ rest)
            ∙ string_loop-escapes cs (append str b'\\') rest
            ∙ rw ((==_iff c b'\\').0 slash, append_assoc))
    | inr plain ↦
        rw (other, plain)
          (string_loop_byte c str (escapes cs ++ b'"' ∷ rest) other plain
            ∙ string_loop-escapes cs (append str c) rest
            ∙ rw append_assoc)
  ]
]

-- A composed string is read back.
pub buffer_parse_string-quoted :
    (s rest : Bytes) → buffer_parse_string (quoted s rest) ≡ ok (s, rest)
unfolding buffer_parse_string parse_token
buffer_parse_string-quoted s rest = string_loop-escapes s [] rest

trim_whitespace-spaces :
    (n : ℕ) (rest : Bytes) → trim_whitespace (spaces n ++ rest) ≡ trim_whitespace rest
unfolding spaces trim_whitespace
trim_whitespace-spaces zero rest = refl
trim_whitespace-spaces (suc n) rest = trim_whitespace-spaces n rest

pub trim_whitespace-new_line :
    (pretty : Bool) (n : ℕ) (rest : Bytes)
    → trim_whitespace (new_line pretty n ++ rest) ≡ trim_whitespace rest
unfolding new_line trim_whitespace
trim_whitespace-new_line true n rest = trim_whitespace-spaces n rest
trim_whitespace-new_line false n rest = refl

-- The first byte of the text of a value
abbrev pub first_byte : Bytes → Bool
first_byte [] = false
first_byte (c ∷ _) =
    (c == b'n' || c == b't' || c == b'f' || c == b'"' || c == b'[' || c == b'{')
    || at_number (c ∷ [])

at_number-starts : (cs rest : Bytes) → at_number cs ≡ true → first_byte (cs ++ rest) ≡ true
at_number-starts [] rest h = cc
at_number-starts (c ∷ cs) rest h = ground arith

pub text-starts :
    {N : Type 0} (digits : N → Bytes) (whole : N → Bool)
    (at_digits : (n : N) → whole n ≡ true → at_number (digits n) ≡ true) (v : Json N)
    (pretty : Bool) (indent : ℕ) (rest : Bytes)
    → is_plain whole v ≡ true
    → first_byte (text digits v pretty indent rest) ≡ true
unfolding text is_plain
text-starts digits whole at_digits null pretty indent rest h = refl
text-starts digits whole at_digits true_value pretty indent rest h = refl
text-starts digits whole at_digits false_value pretty indent rest h = refl
text-starts digits whole at_digits (string s) pretty indent rest h = refl
text-starts digits whole at_digits (number n) pretty indent rest h =
    at_number-starts (digits n) rest (at_digits n h)
text-starts digits whole at_digits (array items) pretty indent rest h = refl
text-starts digits whole at_digits (object entries) pretty indent rest h = refl

pub trim_whitespace-starts : (cs : Bytes) → first_byte cs ≡ true → trim_whitespace cs ≡ cs
unfolding trim_whitespace
trim_whitespace-starts [] h = refl
trim_whitespace-starts (c ∷ cs) h = ground arith

before-starts :
    (cs : Bytes) → first_byte cs ≡ true → (before b']' cs ≡ true) × (before b'}' cs ≡ true)
before-starts [] h = cc
before-starts (c ∷ cs) h = (ground arith, ground arith)

-- What the text of an element starts with, behind the separator and a line break
pub separator-comma :
    (first pretty : Bool) (n : ℕ) (cs : Bytes)
    → first_byte cs ≡ true
    → separator first (trim_whitespace (comma first (new_line pretty n ++ cs))) ≡ ok cs
unfolding separator trim_whitespace parse_token
separator-comma true pretty n cs h =
    rw (trim_whitespace-new_line pretty n cs, trim_whitespace-starts cs h)
separator-comma false pretty n cs h =
    rw (trim_whitespace-new_line pretty n cs, trim_whitespace-starts cs h)

pub before-comma :
    (first pretty : Bool) (n : ℕ) (cs : Bytes)
    → first_byte cs ≡ true
    → (before b']' (trim_whitespace (comma first (new_line pretty n ++ cs))) ≡ true)
      × (before b'}' (trim_whitespace (comma first (new_line pretty n ++ cs))) ≡ true)
unfolding trim_whitespace
before-comma true pretty n cs h =
    rw (trim_whitespace-new_line pretty n cs, trim_whitespace-starts cs h) (before-starts cs h)
before-comma false pretty n cs h = (refl, refl)
