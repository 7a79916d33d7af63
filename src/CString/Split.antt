-- ===== src/CString/Split.antt =====
-- lib/string_lib.c: strings split at delimiters and joined, and the version numbers that
-- lib/instance.c reads this way. Memory is always there.
use leech.Base.{
  ℕ, true, false, ◌==◌, List, [], ◌∷◌, ◌++◌, length, if◌then◌else◌, Option, some, none, Bytes,
  codes, ◌≡◌, refl, ap, sym, ◌∙◌, append_assoc, append-nil, Result, ◌>>=◌, ok, failed,
}
use leech.CString.{strchr}

-- The loop of `LCH_StringSplit`, whose `strpbrk` goes over the characters: `piece` is what stands from
-- `start` up to here
unfoldable pub split_loop : Bytes → Bytes → Bytes → List Bytes
split_loop del piece [] = piece ∷ []
split_loop del piece (c ∷ str) =
    let found = split_loop del [] str in
    let later = split_loop del (piece ++ c ∷ []) str in
    if strchr del c then piece ∷ found else later

-- `LCH_StringSplit`
unfoldable pub string_split : Bytes → Bytes → List Bytes
string_split str del = split_loop del [] str

-- The loop of `LCH_StringJoin` from the second string on
unfoldable pub join_loop : Bytes → List Bytes → Bytes
join_loop del [] = []
join_loop del (str ∷ list) = del ++ (str ++ join_loop del list)

-- `LCH_StringJoin`
unfoldable pub string_join : List Bytes → Bytes → Bytes
string_join [] del = []
string_join (str ∷ list) del = str ++ join_loop del list

-- The value of a `long`
pub data Long : Type 0 where
  nonnegative negative : (magnitude : ℕ) → Long

-- What `LCH_StringParseNumber` does with the result of `strtol`: nothing where it sets `errno`, and else the
-- value and the string at `endptr`. Characters that trail are only warned about.
unfoldable pub check_number : Bytes → Option (Long × Bytes) → Result Long
check_number str none = failed
check_number str (some (value, endptr)) = if length endptr == length str then failed else ok value

-- `LCH_StringParseNumber`
unfoldable pub string_parse_number : (strtol : Bytes → Option (Long × Bytes)) → Bytes → Result Long
string_parse_number strtol str = check_number str (strtol str)

-- The test of a number of a version, which is not negative
unfoldable pub version_number : Long → Result ℕ
version_number (nonnegative val) = ok val
version_number (negative val) = failed

-- The parts of a version. For another number of them than three, a message is logged.
unfoldable pub version_parts :
    (strtol : Bytes → Option (Long × Bytes)) → List Bytes → Result (ℕ × ℕ × ℕ)
version_parts strtol (major ∷ minor ∷ patch ∷ []) = do
  v_major ← string_parse_number strtol major >>= version_number
  v_minor ← string_parse_number strtol minor >>= version_number
  v_patch ← string_parse_number strtol patch >>= version_number
  ok (v_major, v_minor, v_patch)
version_parts strtol [] = failed
version_parts strtol (major ∷ []) = failed
version_parts strtol (major ∷ minor ∷ []) = failed
version_parts strtol (major ∷ minor ∷ patch ∷ more ∷ list) = failed

-- `LCH_StringParseVersion`
unfoldable pub parse_version : (strtol : Bytes → Option (Long × Bytes)) → Bytes → Result (ℕ × ℕ × ℕ)
parse_version strtol str = version_parts strtol (string_split str (codes "."))

-- No character of a string is a delimiter.
pub data NoneIn (del : Bytes) : Bytes → Type 0 where
  none_nil : NoneIn del []
  none_next : {c : ℕ} {str : Bytes} → strchr del c ≡ false → NoneIn del str → NoneIn del (c ∷ str)

-- `strtol` reads a number that is not negative off the front of a string, and reads at least one character.
pub data ReadsAs (strtol : Bytes → Option (Long × Bytes)) (str : Bytes) (val : ℕ) : Type 0 where
  reads :
      (endptr : Bytes)
      → strtol str ≡ some (nonnegative val, endptr)
      → (length endptr == length str) ≡ false
      → ReadsAs strtol str val

-- No string of a list holds a delimiter.
pub data AllNoneIn (del : Bytes) : List Bytes → Type 0 where
  no_strings : AllNoneIn del []
  next_string :
      {str : Bytes} {list : List Bytes}
      → NoneIn del str
      → AllNoneIn del list
      → AllNoneIn del (str ∷ list)

module _ (del : Bytes) where
  split_loop-NoneIn :
      (piece str rest : Bytes)
      → NoneIn del str
      → split_loop del piece (str ++ rest) ≡ split_loop del (piece ++ str) rest
  unfolding split_loop
  split_loop-NoneIn piece [] rest none_nil =
      ap (λ p. split_loop del p rest) (sym (append-nil piece))
  split_loop-NoneIn piece (c ∷ str) rest (none_next out h) = rw out (
      split_loop-NoneIn (piece ++ c ∷ []) str rest h
      ∙ ap (λ p. split_loop del p rest) (append_assoc piece (c ∷ []) str))

  -- One delimiter joins the strings: the loop ends a piece at each of them.
  split_loop-join_loop :
      (d : ℕ) (piece : Bytes) (list : List Bytes)
      → strchr del d ≡ true
      → AllNoneIn del list
      → split_loop del piece (join_loop (d ∷ []) list) ≡ piece ∷ list
  unfolding split_loop join_loop
  split_loop-join_loop d piece [] is_del no_strings = refl
  split_loop-join_loop d piece (str ∷ list) is_del (next_string free h) = rw is_del (
      ap (λ l. piece ∷ l)
        (split_loop-NoneIn [] str (join_loop (d ∷ []) list) free
          ∙ split_loop-join_loop d str list is_del h))

  -- Strings that hold no delimiter, at least one of them, are what `LCH_StringSplit` makes of the string
  -- in which `LCH_StringJoin` joins them by a delimiter of one character.
  pub string_split-string_join :
      (d : ℕ) (str : Bytes) (list : List Bytes)
      → strchr del d ≡ true
      → AllNoneIn del (str ∷ list)
      → string_split (string_join (str ∷ list) (d ∷ [])) del ≡ str ∷ list
  unfolding string_split string_join
  string_split-string_join d str list is_del (next_string free h) =
      split_loop-NoneIn [] str (join_loop (d ∷ []) list) free
      ∙ split_loop-join_loop d str list is_del h

point : strchr (codes ".") 46 ≡ true
unfolding strchr
point = refl

module _ (strtol : Bytes → Option (Long × Bytes)) where
  string_parse_number-ReadsAs :
      (str : Bytes) (val : ℕ)
      → ReadsAs strtol str val
      → string_parse_number strtol str ≡ ok (nonnegative val)
  unfolding string_parse_number check_number
  string_parse_number-ReadsAs str val (reads endptr read moved) =
      ap (check_number str) read ∙ rw moved refl

  version_parts-ReadsAs :
      (major minor patch : Bytes) (x y z : ℕ)
      → ReadsAs strtol major x
      → ReadsAs strtol minor y
      → ReadsAs strtol patch z
      → version_parts strtol (major ∷ minor ∷ patch ∷ []) ≡ ok (x, y, z)
  unfolding version_parts version_number
  version_parts-ReadsAs major minor patch x y z first second third =
      rw (string_parse_number-ReadsAs major x first) (
        rw (string_parse_number-ReadsAs minor y second)
          (rw (string_parse_number-ReadsAs patch z third) refl))

  -- Three strings without a point, of which `strtol` reads a number each, make a version when points join
  -- them: `LCH_StringParseVersion` gives the three numbers.
  pub parse_version-string_join :
      (major minor patch : Bytes) (x y z : ℕ)
      → AllNoneIn (codes ".") (major ∷ minor ∷ patch ∷ [])
      → ReadsAs strtol major x
      → ReadsAs strtol minor y
      → ReadsAs strtol patch z
      → parse_version strtol (string_join (major ∷ minor ∷ patch ∷ []) (codes ".")) ≡ ok (x, y, z)
  unfolding parse_version
  parse_version-string_join major minor patch x y z free first second third =
      ap (version_parts strtol)
        (string_split-string_join (codes ".") 46 major (minor ∷ patch ∷ []) point free)
      ∙ version_parts-ReadsAs major minor patch x y z first second third

  -- Two parts are not a version.
  pub parse_version-two_parts :
      (major minor : Bytes)
      → AllNoneIn (codes ".") (major ∷ minor ∷ [])
      → parse_version strtol (string_join (major ∷ minor ∷ []) (codes ".")) ≡ failed
  unfolding parse_version version_parts
  parse_version-two_parts major minor free =
      ap (version_parts strtol)
        (string_split-string_join (codes ".") 46 major (minor ∷ []) point free)
