-- ===== src/Leech/Consistent.antt =====
-- lib/leech.c: a commit keeps the work directory consistent.
use leech.Base.{ℕ, suc, Bool, true, false, Option, some, length, ◌≡◌, refl, ap, ◌∙◌, Bytes, ok}
use leech.Buffer.Hex.{message_digest}
use leech.CString.{until_null, string_equal}
use leech.Json.Syntax.{Json, Fields, no_items, get}
use leech.Json.Numbers.{Reads}
use leech.Json.Composer.{json_compose}
use leech.Json.Fields.{Once}
use leech.Head.{read_file, write_file, head_name, head_get, genisis_block_id}
use leech.Head.Stored.{read_file-write_file, head_get-head_set}
use leech.Block.Store.{WorkDir, block_store}
use leech.Table.States.{Source}
use leech.Leech.Config.{Instance}
use leech.Leech.Carries.{States}
use leech.Leech.Chain.{Chain, link}
use leech.Leech.Diff.{stored_block}
use leech.Leech.Commit.{commit, commit_block}
use leech.Leech.CommitTables.{identifiers, Loads, Snapshots, commit_tables-Carries}
use leech.Leech.StoredChain.{
  message_digest-until_null, message_digest-Stripped, block_of, block_create-block_of,
  block_of-parts, stored_block-block_of, Chain-write_file,
}

-- HEAD points at a chain of `n` blocks, down to the genesis block, that carries the tables from the start
-- to the states that the snapshots hold.
pub record Consistent {N : Type 0} (sscanf : Bytes → Option (N × ℕ)) (to_size : N → Option ℕ)
    (config : Instance) (start states : States N) (n : ℕ) (work_dir : WorkDir) : Type 0 where
  pub head : Bytes
  pub head_is : head_get work_dir.heads head_name ≡ ok head
  pub no_null : until_null head ≡ head
  pub chain :
      Chain
        (stored_block sscanf to_size work_dir.blocks)
        (identifiers config.tables)
        genisis_block_id
        start
        n
        head
        states
  pub held : Snapshots sscanf work_dir.snapshots states config.tables

module _ {N Conn : Type 0} (number_eq : N → N → Bool) (print : N → Bytes)
    (sscanf : Bytes → Option (N × ℕ)) (digits : N → Bytes) (whole : N → Bool)
    (reads : (n : N) → whole n ≡ true → Reads print sscanf digits n) (to_size : N → Option ℕ)
    (sha1 : Bytes → Bytes) (sha1_size : (message : Bytes) → length (sha1 message) ≡ 20)
    (source : Source Conn) (config : Instance) (once : Once (identifiers config.tables)) where
  -- The name under which a block is stored
  abbrev pub block_name : Json N → Bytes
  block_name block = message_digest sha1 (json_compose print block config.pretty_print)

  -- A commit in a consistent work directory succeeds and leaves a consistent one: the chain is one block
  -- longer and leads to the states of the sources, which the snapshots hold. The tables have different
  -- identifiers, and their sources rows of strings, each key once. The version and the time of the
  -- block are whole numbers that the composer and the parser take, and the version is 1. SHA-1 gives
  -- twenty bytes, and the digest of the text of the new block is not the name of the genesis block, nor
  -- that of a stored block with another text.
  pub commit-Consistent :
      (work_dir : WorkDir) (start states : States N) (n : ℕ) (new : Bytes → Fields N)
      (version timestamp : N)
      → Consistent sscanf to_size config start states n work_dir
      → Loads print sscanf source new config.tables
      → to_size version ≡ some 1
      → whole version ≡ true
      → whole timestamp ≡ true
      → ((block : Json N)
          → (commit_block number_eq print sscanf sha1 source config version timestamp work_dir).1
            ≡ ok block
          → string_equal (block_name block) genisis_block_id ≡ false)
      → ((block : Json N) (stored : Bytes)
          → (commit_block number_eq print sscanf sha1 source config version timestamp work_dir).1
            ≡ ok block
          → read_file work_dir.blocks (block_name block) ≡ some stored
          → stored ≡ json_compose print block config.pretty_print)
      → (after : WorkDir) × (commit number_eq print sscanf sha1 source config version timestamp
            work_dir
          ≡ (after, ok tt))
        × Consistent sscanf to_size config start (λ j. get (new j)) (suc n) after
  unfolding commit commit_block block_store
  commit-Consistent work_dir start states n new version timestamp w loads size wv wt not_genisis
        free =
      let (snapshots, more, run, carries, plains, held, _) =
        commit_tables-Carries print sscanf source digits whole reads number_eq sha1
          config.pretty_print new states config.tables work_dir.snapshots no_items loads w.held
          once in
      let block = block_of print sscanf digits whole reads to_size version timestamp w.head more in
      let json = json_compose print block config.pretty_print in
      let id = message_digest sha1 json in
      let parts =
        block_of-parts print sscanf digits whole reads to_size version timestamp w.head more in
      let created =
        block_create-block_of print sscanf digits whole reads to_size version timestamp w.head
          more in
      let made : (commit_block number_eq print sscanf sha1 source config version timestamp
            work_dir).1
          ≡ ok block =
        rw run (rw w.head_is (rw created refl)) in
      let blocks = write_file work_dir.blocks id json in
      (
        block_store print sha1 config.pretty_print (record work_dir { snapshots = snapshots })
            block,
        rw run (rw w.head_is (rw created refl)),
        record {
          head = id;
          head_is =
              head_get-head_set work_dir.heads head_name id
                (message_digest-until_null sha1 sha1_size json)
                (message_digest-Stripped sha1 sha1_size json);
          no_null = message_digest-until_null sha1 sha1_size json;
          chain =
              link block w.head more (not_genisis block made)
                (stored_block-block_of print sscanf digits whole reads to_size blocks id
                  config.pretty_print version timestamp w.head more
                  (read_file-write_file work_dir.blocks id json) size wv wt plains)
                (parts.0 ∙ ap ok w.no_null) parts.1 carries
                (Chain-write_file print sscanf digits whole reads to_size
                  (identifiers config.tables) genisis_block_id start work_dir.blocks id json
                  (λ stored. free block stored made) w.chain);
          held = held;
        },
      )
