-- ===== src/Delta/Names.antt =====
-- lib/delta.c: the keys of a delta.
use leech.Base.{[], ◌∷◌, Bytes}

abbrev pub type_key : Bytes
type_key = b't' ∷ b'y' ∷ b'p' ∷ b'e' ∷ []

abbrev pub id_key : Bytes
id_key = b'i' ∷ b'd' ∷ []

abbrev pub inserts_key : Bytes
inserts_key = b'i' ∷ b'n' ∷ b's' ∷ b'e' ∷ b'r' ∷ b't' ∷ b's' ∷ []

abbrev pub deletes_key : Bytes
deletes_key = b'd' ∷ b'e' ∷ b'l' ∷ b'e' ∷ b't' ∷ b'e' ∷ b's' ∷ []

abbrev pub updates_key : Bytes
updates_key = b'u' ∷ b'p' ∷ b'd' ∷ b'a' ∷ b't' ∷ b'e' ∷ b's' ∷ []
