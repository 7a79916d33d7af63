-- ===== src/Leech/Diff.antt =====
-- lib/leech.c: `LCH_Diff`, and the checksum before the text of a patch, which lib/utils.c makes and
-- `Patch` verifies. SHA-1 is a parameter, and so are the time and the conversions of numbers.
use leech.Base.{
  ℕ, Bool, List, [], ◌∷◌, ◌++◌, Option, ltb, length, drop, if◌then◌else◌, codes, Bytes, Result, ok,
  failed, aborted, ◌>>=◌,
}
use leech.Buffer.Hex.{message_digest}
use leech.CString.{starts_with, strncmp_equal}
use leech.Json.Syntax.{Json}
use leech.Json.Composer.{json_compose}
use leech.Head.{Files, read_file, head_name, head_get}
use leech.Block.Create.{block_load, create_empty_block}
use leech.Block.Patch.{patch_create, patch_append_block, patch_reverse_blocks}
use leech.Block.Identify.{block_id_from_argument}
use leech.Leech.Config.{Instance}
use leech.Leech.Merge.{merge_blocks}

abbrev pub algorithm : Bytes
algorithm = codes "SHA1="

-- The names in a directory
abbrev pub names : Files → List Bytes
names [] = []
names ((name, _) ∷ files) = name ∷ names files

module _ (sha1 : Bytes → Bytes) where
  -- The end of `LCH_Diff`: the text with its checksum
  unfoldable pub with_digest : Bytes → Bytes
  unfolding message_digest
  with_digest patch_buffer = algorithm ++ message_digest sha1 patch_buffer ++ patch_buffer

  -- The beginning of `Patch`: the text behind the checksum. Where a text is too short for one, the length
  -- that is left wraps around, and the digest reads what is no part of the text: here `aborted`.
  unfoldable pub verified : Bytes → Result Bytes
  unfolding message_digest
  verified buffer =
      let payload = drop 45 buffer in
      let checksum = message_digest sha1 payload in
      if starts_with buffer algorithm
      then (if ltb (length buffer) 45
          then aborted
          else if strncmp_equal (length checksum) (drop 5 buffer) checksum
          then ok payload
          else failed)
      else ok buffer

module _ {N : Type 0} (sscanf : Bytes → Option (N × ℕ)) (to_size : N → Option ℕ) where
  -- `LCH_BlockLoad` on the directory of the blocks
  abbrev pub stored_block : Files → Bytes → Result (Json N)
  stored_block blocks block_id = block_load to_size sscanf (read_file blocks) block_id

module _ {N : Type 0} (number_eq : N → N → Bool) (print : N → Bytes)
    (sscanf : Bytes → Option (N × ℕ)) (to_size : N → Option ℕ) (sha1 : Bytes → Bytes) where
  -- `LCH_Diff`, with what `LCH_InstanceLoad` returns, the version, and the times at which the patch and
  -- the empty block are made
  unfoldable pub diff : Files → Files → Result Instance → N → N → N → ℕ → Bytes → Result Bytes
  unfolding with_digest
  diff work_dir blocks loaded version patch_time block_time fuel argument = do
    final_id ← block_id_from_argument (names blocks) argument
    instance ← loaded
    block_id ← head_get work_dir head_name
    patch ← patch_create version patch_time block_id
    empty ← create_empty_block version block_time block_id
    (block, patch) ←
        merge_blocks number_eq instance (stored_block sscanf to_size blocks) fuel final_id empty
          patch
    patch ← patch_append_block patch block
    patch ← patch_reverse_blocks patch
    ok (with_digest sha1 (json_compose print patch instance.pretty_print))
