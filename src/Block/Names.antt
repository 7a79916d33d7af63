-- ===== src/Block/Names.antt =====
-- lib/block.c and lib/patch.c: the keys of a block and of a patch.
use leech.Base.{[], ◌∷◌, Bytes}

abbrev pub version_key : Bytes
version_key = b'v' ∷ b'e' ∷ b'r' ∷ b's' ∷ b'i' ∷ b'o' ∷ b'n' ∷ []

abbrev pub timestamp_key : Bytes
timestamp_key = b't' ∷ b'i' ∷ b'm' ∷ b'e' ∷ b's' ∷ b't' ∷ b'a' ∷ b'm' ∷ b'p' ∷ []

abbrev pub parent_key : Bytes
parent_key = b'p' ∷ b'a' ∷ b'r' ∷ b'e' ∷ b'n' ∷ b't' ∷ []

abbrev pub payload_key : Bytes
payload_key = b'p' ∷ b'a' ∷ b'y' ∷ b'l' ∷ b'o' ∷ b'a' ∷ b'd' ∷ []

abbrev pub lastknown_key : Bytes
lastknown_key = b'l' ∷ b'a' ∷ b's' ∷ b't' ∷ b'k' ∷ b'n' ∷ b'o' ∷ b'w' ∷ b'n' ∷ []

abbrev pub blocks_key : Bytes
blocks_key = b'b' ∷ b'l' ∷ b'o' ∷ b'c' ∷ b'k' ∷ b's' ∷ []
