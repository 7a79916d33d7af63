-- ===== src/CString/Tests.antt =====
-- lib/string_lib.c: runs of the splitting of strings, and the theorems on it at examples.
use leech.Base.{[], ◌∷◌, Bytes, if◌then◌else◌, ◌==◌, codes, ◌≡◌, refl, Option, some, ok, failed}
use leech.CString.{strchr}
use leech.CString.Split.{
  split_loop, string_split, string_join, Long, nonnegative, negative, string_parse_number,
  check_number, version_number, version_parts, parse_version, NoneIn, none_nil, none_next,
  no_strings, next_string, string_split-string_join, parse_version-string_join, reads,
}

string_split_runs : string_split (codes ".1.x,") (codes ".,") ≡ [] ∷ codes "1" ∷ codes "x" ∷ [] ∷ []
unfolding string_split split_loop strchr
string_split_runs = refl

-- A reader of one digit after an optional sign, at most 1
abbrev one_digit : Bytes → Option (Long × Bytes)
one_digit [] = some (nonnegative 0, [])
one_digit (c ∷ []) =
    if c == 48
    then some (nonnegative 0, [])
    else if c == 49
    then some (nonnegative 1, [])
    else some (nonnegative 0, c ∷ [])
one_digit (c ∷ d ∷ str) =
    if c == 48
    then some (nonnegative 0, d ∷ str)
    else if c == 49
    then some (nonnegative 1, d ∷ str)
    else if c == 45
    then some (negative 1, str)
    else some (nonnegative 0, c ∷ d ∷ str)

parse_version_runs : parse_version one_digit (codes "0.1x.1") ≡ ok (0, 1, 1)
unfolding parse_version string_split split_loop strchr version_parts string_parse_number
    check_number version_number
parse_version_runs = refl

parse_version_no_digits : parse_version one_digit (codes "0.v.1") ≡ failed
unfolding parse_version string_split split_loop strchr version_parts string_parse_number
    check_number version_number
parse_version_no_digits = refl

parse_version_negative : parse_version one_digit (codes "0.-1.1") ≡ failed
unfolding parse_version string_split split_loop strchr version_parts string_parse_number
    check_number version_number
parse_version_negative = refl

free_letter : NoneIn (codes ".") (codes "a")
unfolding strchr
free_letter = none_next refl none_nil

string_split-string_join_example :
    string_split (string_join (codes "a" ∷ [] ∷ codes "a" ∷ []) (codes ".")) (codes ".")
    ≡ codes "a" ∷ [] ∷ codes "a" ∷ []
unfolding strchr
string_split-string_join_example =
    string_split-string_join (codes ".") 46 (codes "a") ([] ∷ codes "a" ∷ []) refl
      (next_string free_letter (next_string none_nil (next_string free_letter no_strings)))

free_zero : NoneIn (codes ".") (codes "0")
unfolding strchr
free_zero = none_next refl none_nil

free_one : NoneIn (codes ".") (codes "1b")
unfolding strchr
free_one = none_next refl (none_next refl none_nil)

parse_version-string_join_example :
    parse_version one_digit (string_join (codes "0" ∷ codes "1b" ∷ codes "0" ∷ []) (codes "."))
    ≡ ok (0, 1, 0)
parse_version-string_join_example =
    parse_version-string_join one_digit (codes "0") (codes "1b") (codes "0") 0 1 0
      (next_string free_zero (next_string free_one (next_string free_zero no_strings)))
      (reads [] refl refl) (reads (codes "b") refl refl) (reads [] refl refl)
