-- ===== src/Json/Numbers.antt =====
-- lib/json.c: numbers that the format `%f` prints with zeroes behind the point, and that `sscanf` reads.
use leech.Base.{
  ℕ, zero, suc, ◌≤◌, Bool, true, false, ◌||◌, [], ◌∷◌, ◌++◌, append_assoc, length, drop-append,
  ◌==◌, Option, some, ◌≡◌, refl, ap, sym, ◌∙◌, arith, Bytes, ok,
}
use leech.CString.{until_null}
use leech.Json.Syntax.{number}
use leech.Json.Parser.{trim_whitespace, is_whitespace, check_token, at_number, parse_number, parse}
use leech.Json.Composer.{chop_zeros, remove_zeros, remove_dot, compose_number}

unfoldable pub zeros : ℕ → Bytes
zeros zero = []
zeros (suc n) = b'0' ∷ zeros n

-- What lib/json.c writes behind a number
unfoldable pub ends_number : Bytes → Bool
ends_number [] = true
ends_number (c ∷ _) = c == b',' || c == b']' || c == b'}' || c == b'\n'

-- The text of a number as lib/json.c writes it. `%f` prints it with a point and zeroes behind, and
-- `sscanf` reads the number and takes the text, whichever of the bytes above stands behind.
pub record Reads {N : Type 0} (print : N → Bytes) (sscanf : Bytes → Option (N × ℕ))
    (digits : N → Bytes) (n : N) : Type 0 where
  pub places : ℕ
  pub printed : print n ≡ digits n ++ b'.' ∷ zeros places
  pub at_digits : at_number (digits n) ≡ true
  pub scanned :
      (rest : Bytes)
      → ends_number rest ≡ true
      → sscanf (until_null (digits n ++ rest)) ≡ some (n, length (digits n))

chop_zeros-zeros : (n : ℕ) → chop_zeros (zeros n) ≡ []
unfolding chop_zeros zeros
chop_zeros-zeros zero = refl
chop_zeros-zeros (suc n) = rw (chop_zeros-zeros n, chop_zeros) refl

chop_zeros-dot : (cs : Bytes) (n : ℕ) → chop_zeros (cs ++ b'.' ∷ zeros n) ≡ cs ++ b'.' ∷ []
unfolding chop_zeros
chop_zeros-dot [] n = rw (chop_zeros-zeros n, chop_zeros) refl
chop_zeros-dot (c ∷ []) n = rw (chop_zeros-dot [] n, chop_zeros) refl
chop_zeros-dot (c ∷ d ∷ cs) n = rw (chop_zeros-dot (d ∷ cs) n, chop_zeros) refl

remove_dot-dot : (cs : Bytes) → remove_dot (cs ++ b'.' ∷ []) ≡ cs
unfolding remove_dot
remove_dot-dot [] = refl
remove_dot-dot (c ∷ []) = refl
remove_dot-dot (c ∷ d ∷ cs) = ap (λ ds. c ∷ ds) (remove_dot-dot (d ∷ cs))

remove_zeros-dot : (cs : Bytes) (n : ℕ) → remove_zeros (cs ++ b'.' ∷ zeros n) ≡ cs ++ b'.' ∷ []
unfolding remove_zeros
remove_zeros-dot [] n = rw (chop_zeros-zeros n) refl
remove_zeros-dot (c ∷ cs) n = rw (chop_zeros-dot cs n) refl

1-le-at_number : (cs : Bytes) → at_number cs ≡ true → 1 ≤ length cs
1-le-at_number [] h = cc
1-le-at_number (c ∷ cs) h = omega arith

at_number-append : (cs rest : Bytes) → at_number cs ≡ true → at_number (cs ++ rest) ≡ true
at_number-append [] rest h = cc
at_number-append (c ∷ cs) rest h = h

parse-at_number :
    {N : Type 0} (sscanf : Bytes → Option (N × ℕ)) (fuel : ℕ) (cs : Bytes)
    → at_number cs ≡ true
    → parse sscanf (suc fuel) cs ≡ parse_number sscanf cs
unfolding parse trim_whitespace check_token
parse-at_number sscanf fuel [] h = cc
parse-at_number sscanf fuel (c ∷ cs) h =
    let no_space : is_whitespace c ≡ false = ground arith in
    let no_null : (c == b'n') ≡ false = ground arith in
    let no_true : (c == b't') ≡ false = ground arith in
    let no_false : (c == b'f') ≡ false = ground arith in
    let no_quote : (c == b'"') ≡ false = ground arith in
    let no_brace : (c == b'{') ≡ false = ground arith in
    let no_bracket : (c == b'[') ≡ false = ground arith in
    rw no_space (
      rw no_null (rw no_true (rw no_false (rw no_quote (rw no_brace (rw no_bracket (rw h refl)))))))

module _ {N : Type 0} (print : N → Bytes) (sscanf : Bytes → Option (N × ℕ))
    (digits : N → Bytes) where
  -- `ComposeNumber` takes off the zeroes and the point.
  pub compose_number-digits :
      (n : N) (buffer : Bytes)
      → Reads print sscanf digits n
      → compose_number print n buffer ≡ buffer ++ digits n
  unfolding compose_number
  compose_number-digits n buffer r = rw r.printed (
      ap (λ cs. remove_dot (remove_zeros cs))
        (sym (append_assoc buffer (digits n) (b'.' ∷ zeros r.places)))
      ∙ ap remove_dot (remove_zeros-dot (buffer ++ digits n) r.places)
      ∙ remove_dot-dot (buffer ++ digits n))

  pub 1-le-digits : (n : N) → at_number (digits n) ≡ true → 1 ≤ length (digits n)
  1-le-digits n h = 1-le-at_number (digits n) h

  pub parse-digits :
      (n : N) (fuel : ℕ) (rest : Bytes)
      → Reads print sscanf digits n
      → ends_number rest ≡ true
      → parse sscanf (suc fuel) (digits n ++ rest) ≡ ok (number n, rest)
  unfolding parse_number
  parse-digits n fuel rest r h =
      parse-at_number sscanf fuel (digits n ++ rest) (at_number-append (digits n) rest r.at_digits)
      ∙ rw (r.scanned rest h, parse_number)
          (ap (λ cs. ok (number n, cs)) (drop-append (digits n) rest))
