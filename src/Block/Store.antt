-- ===== src/Block/Store.antt =====
-- lib/block.c: `LCH_BlockStore`, on the files of the work directory. Writing them succeeds.
use leech.Base.{Bool, Bytes}
use leech.Buffer.Hex.{message_digest}
use leech.Json.Syntax.{Json}
use leech.Json.Composer.{json_compose}
use leech.Head.{Files, write_file, head_set, head_name}

-- The files in the work directory, and in the directories `blocks` and `snapshot` in it
pub record WorkDir : Type 0 where
  pub heads : Files
  pub blocks : Files
  pub snapshots : Files

-- `LCH_BlockStore`
unfoldable pub block_store :
    {N : Type 0} → (N → Bytes) → (Bytes → Bytes) → Bool → WorkDir → Json N → WorkDir
block_store print sha1 pretty_print work_dir block =
    let json = json_compose print block pretty_print in
    let block_id = message_digest sha1 json in
    record work_dir {
      blocks = write_file work_dir.blocks block_id json;
      heads = head_set work_dir.heads head_name block_id;
    }
