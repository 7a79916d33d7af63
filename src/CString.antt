-- ===== src/CString.antt =====
-- lib/string_lib.c: operations on C strings. A C string is the list of its bytes up to the null byte.
pub mod Split
mod Tests
use leech.Base.{
  ℕ, zero, suc, ◌-◌, Bool, true, false, ◌&&◌, [], ◌∷◌, ◌==◌, ltb, if◌then◌else◌, take, drop, Bytes,
  Result, ok, aborted,
}
use leech.Buffer.{equal}

-- The C string at the start of some bytes, which ends at the first null byte
abbrev pub until_null : Bytes → Bytes
until_null [] = []
until_null (c ∷ cs) = let rest = until_null cs in if c == 0 then [] else c ∷ rest

-- `LCH_StringEqual`
unfoldable pub string_equal : Bytes → Bytes → Bool
string_equal str1 str2 = equal str1 str2

-- `LCH_StringStartsWith`: a string that ends too early has its null byte where `substr` has another.
unfoldable pub starts_with : Bytes → Bytes → Bool
starts_with self [] = true
starts_with [] (t ∷ substr) = false
starts_with (c ∷ self) (t ∷ substr) = c == t && starts_with self substr

-- `strchr` finds the character
unfoldable pub strchr : Bytes → ℕ → Bool
strchr [] c = false
strchr (d ∷ charset) c = let later = strchr charset c in if d == c then true else later

-- The loop of `LCH_StringStrip`, over the string from `cursor` on: `start` and `end` behind it
unfoldable pub strip_loop : Bytes → Bytes → ℕ → ℕ → ℕ → ℕ × ℕ
unfolding strchr
strip_loop charset [] cursor start end = (start, end)
strip_loop charset (c ∷ str) cursor start end =
    let in_charset =
      strip_loop charset str (suc cursor) (if start == cursor then suc start else start) end in
    let not_in_charset = strip_loop charset str (suc cursor) start (suc cursor) in
    if strchr charset c then in_charset else not_in_charset

-- `LCH_StringStrip`: where `end` is less than `start`, the length that is moved wraps around to one that
-- no string has. The program is left without a meaning, here `aborted`.
unfoldable pub strip : Bytes → Bytes → Result Bytes
unfolding strip_loop
strip str charset =
    let (start, end) = strip_loop charset str 0 0 0 in
    if ltb end start then aborted else ok (take (end - start) (drop start str))

-- `strncmp` returns zero: the first `n` bytes are the same, up to a null byte in both
unfoldable pub strncmp_equal : ℕ → Bytes → Bytes → Bool
strncmp_equal zero str1 str2 = true
strncmp_equal (suc n) [] [] = true
strncmp_equal (suc n) [] (d ∷ str2) = d == 0
strncmp_equal (suc n) (c ∷ str1) [] = c == 0
strncmp_equal (suc n) (c ∷ str1) (d ∷ str2) =
    let rest = strncmp_equal n str1 str2 in
    if c == d then (if c == 0 then true else rest) else false
