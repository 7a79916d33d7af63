-- ===== src/Block/Tests.antt =====
-- Runs of lib/block.c, and an instance of a theorem.
use leech.Base.{List, [], ◌∷◌, ◌++◌, ◌≡◌, refl, Bytes, codes, failed}
use leech.CString.{starts_with}
use leech.Head.{genisis_block_id}
use leech.Block.Identify.{
  block_id_from_argument, match_loop, is_valid_block_id, all_hex, is_hex, matching, only,
  block_id_from_argument-only,
}

abbrev blocks : List Bytes
blocks =
    codes "aaaaaaaaaaaaaaaaaaaaaaaaaaaaaaaaaaaaaaaa"
    ∷ codes "abbbbbbbbbbbbbbbbbbbbbbbbbbbbbbbbbbbbbbb"
    ∷ codes "README"
    ∷ []

ambiguous : block_id_from_argument blocks (codes "a") ≡ failed
unfolding block_id_from_argument match_loop is_valid_block_id all_hex is_hex starts_with
ambiguous = refl

block_id_from_argument-only_example :
    block_id_from_argument blocks (codes "aa")
    ≡ only (matching (codes "aa") (blocks ++ genisis_block_id ∷ []))
block_id_from_argument-only_example = block_id_from_argument-only blocks (codes "aa")
