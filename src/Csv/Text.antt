-- ===== src/Csv/Text.antt =====
-- lib/csv.c: the character class and the parser's state.
use leech.Base.{ℕ, Bool, false, ◌&&◌, ◌||◌, [], ◌∷◌, leb, ◌==◌, Bytes}

-- `TEXTDATA`. A `char` above 127 is in none of the ranges, signed or not.
unfoldable pub textdata : ℕ → Bool
textdata ch =
    ch == b'\t'
    || (leb 0x20 ch && leb ch 0x21)
    || (leb 0x23 ch && leb ch 0x2B)
    || (leb 0x2D ch && leb ch 0x7E)

-- `LCH_CSVParser`: the bytes from `cursor` up to `end`, and the place named in error messages.
pub record CsvParser : Type 0 where
  pub cursor : Bytes
  pub row : ℕ
  pub column : ℕ

-- `cursor + 1 < end && cursor[0] == '\r' && cursor[1] == '\n'`
abbrev pub at_crlf : Bytes → Bool
at_crlf (a ∷ b ∷ _) = a == b'\r' && b == b'\n'
at_crlf _ = false

-- `cursor < end && cursor[0] == ch`
abbrev pub at_char : ℕ → Bytes → Bool
at_char ch (a ∷ _) = a == ch
at_char ch [] = false
