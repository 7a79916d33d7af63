-- ===== src/Head.antt =====
-- lib/head.c, and the files of the work directory as far as lib/head.c and lib/block.c use them. A path
-- is given by its last component; a path that is too long, or a file that cannot be read or written, is
-- left out.
pub mod Strip
pub mod Stored
mod Tests
use leech.Base.{List, [], ◌∷◌, Option, some, none, if◌then◌else◌, Bool, codes, Bytes, Result, ok}
use leech.Buffer.{equal}
use leech.CString.{until_null, strip}

-- The contents of the files in one directory, by their names
abbrev pub Files : Type 0
Files = List (Bytes × Bytes)

unfoldable pub read_file : Files → Bytes → Option Bytes
read_file [] name = none
read_file ((file, contents) ∷ files) name =
    let later = read_file files name in if equal file name then some contents else later

-- `LCH_BufferWriteFile` creates the file or replaces what it holds.
unfoldable pub write_file : Files → Bytes → Bytes → Files
write_file [] name contents = (name, contents) ∷ []
write_file ((file, old) ∷ files) name contents =
    let later = write_file files name contents in
    if equal file name then (file, contents) ∷ files else (file, old) ∷ later

-- `LCH_GENISIS_BLOCK_ID`
abbrev pub genisis_block_id : Bytes
genisis_block_id = codes "0000000000000000000000000000000000000000"

abbrev pub white_space : Bytes
white_space = b' ' ∷ b'\t' ∷ b'\r' ∷ b'\n' ∷ []

-- The name of the file that holds the head of the chain
abbrev pub head_name : Bytes
head_name = codes "HEAD"

-- `LCH_HeadGet`
unfoldable pub head_get : Files → Bytes → Result Bytes
unfolding read_file
head_get work_dir name = elim (read_file work_dir name) [
  | some contents ↦ strip (until_null contents) white_space
  | none ↦ ok genisis_block_id
]

-- `LCH_HeadSet`
unfoldable pub head_set : Files → Bytes → Bytes → Files
unfolding write_file
head_set work_dir name block_id = write_file work_dir name block_id
