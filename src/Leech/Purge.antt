-- ===== src/Leech/Purge.antt =====
-- lib/leech.c: `Purge`. The files in the directory `blocks` are regular and can be deleted; a directory
-- that stands beside them is left out, since it is never deleted.
use leech.Base.{
  ℕ, zero, suc, Bool, true, ◌&&◌, ◌||◌, not, leb, List, [], ◌∷◌, Option, none, some, ◌≡◌, refl,
  if◌then◌else◌, Bytes, Result, ok, ◌>>=◌, on_ok, Bool-cases, inl, inr, arith, sym,
}
use leech.Buffer.{equal}
use leech.Buffer.Order.{equal_iff}
use leech.Json.Syntax.{Json, Fields, null, no_fields, set, has_key}
use leech.Json.Fields.{listed, has_key-set}
use leech.Head.{Files, read_file, head_get, head_name}
use leech.Block.Create.{block_get_parent_id}
use leech.Block.Store.{WorkDir}
use leech.Leech.Config.{Instance}
use leech.Leech.Diff.{stored_block}

-- `isxdigit`, on the characters of a file name
unfoldable pub is_xdigit : Bytes → Bool
is_xdigit [] = true
is_xdigit (c ∷ cs) =
    ((leb b'0' c && leb c b'9') || (leb b'a' c && leb c b'f') || (leb b'A' c && leb c b'F'))
    && is_xdigit cs

module _ {N : Type 0} where
  -- The loop over the files: those that are block identifiers and not whitelisted are deleted.
  unfoldable pub delete_blocks : Fields N → Files → Files
  unfolding is_xdigit has_key
  delete_blocks whitelist [] = []
  delete_blocks whitelist ((filename, contents) ∷ files) =
      let rest = delete_blocks whitelist files in
      if not (is_xdigit filename)
      then (filename, contents) ∷ rest
      else if has_key whitelist filename
      then (filename, contents) ∷ rest
      else rest

  module _ (block_load : Bytes → Result (Json N)) where
    -- The loop along the chain: the dictionary of its blocks
    unfoldable pub whitelist_loop : ℕ → Files → Fields N → Bytes → Result (Fields N)
    unfolding read_file set
    whitelist_loop zero blocks whitelist parent_id = ok whitelist
    whitelist_loop (suc n) blocks whitelist parent_id = elim (read_file blocks parent_id) [
      | none ↦ ok whitelist
      | some raw ↦ do
        block ← block_load parent_id
        next ← block_get_parent_id block
        whitelist_loop n blocks (set whitelist parent_id null) next
    ]

    -- The first blocks of the chain from a block on, up to a number of them, or all where it ends before.
    pub data FirstBlocks (blocks : Files) : ℕ → Bytes → List Bytes → Type 0 where
      enough : {id : Bytes} → FirstBlocks blocks zero id []
      chain_end :
          {n : ℕ} {id : Bytes} → read_file blocks id ≡ none → FirstBlocks blocks (suc n) id []
      a_block :
          {n : ℕ} {id parent_id raw : Bytes} {block : Json N} {ids : List Bytes}
          → read_file blocks id ≡ some raw
          → block_load id ≡ ok block
          → block_get_parent_id block ≡ ok parent_id
          → FirstBlocks blocks n parent_id ids
          → FirstBlocks blocks (suc n) id (id ∷ ids)

    whitelist_loop-listed :
        {blocks : Files} {n : ℕ} {id : Bytes} {ids : List Bytes} (whitelist : Fields N)
        → FirstBlocks blocks n id ids
        → (after : Fields N) × (whitelist_loop n blocks whitelist id ≡ ok after)
          × ((key : Bytes) → has_key after key ≡ (has_key whitelist key || listed ids key))
    unfolding whitelist_loop
    whitelist_loop-listed whitelist enough = (whitelist, refl, λ key. ground arith)
    whitelist_loop-listed whitelist (chain_end e) =
        (whitelist, rw (e, whitelist_loop) refl, λ key. ground arith)
    whitelist_loop-listed whitelist
          (a_block {n} {id} {parent_id} {raw} {block} {ids} e e' e'' chain) =
        let (after, run, has) = whitelist_loop-listed (set whitelist id null) chain in
        (
          after,
          rw (e, whitelist_loop) (rw e' (rw e'' run)),
          λ key. ground (arith, has key, has_key-set whitelist id key null),
        )

  read_file-delete_blocks :
      (whitelist : Fields N) (blocks : Files) (id : Bytes)
      → read_file (delete_blocks whitelist blocks) id
        ≡ (if is_xdigit id && not (has_key whitelist id) then none else read_file blocks id)
  unfolding delete_blocks read_file
  read_file-delete_blocks whitelist [] id = ground arith
  read_file-delete_blocks whitelist ((file, contents) ∷ files) id =
      elim (Bool-cases (equal file id)) [
        | inl e ↦
            rw ((equal_iff file id).0 e)
              (ground (arith, read_file-delete_blocks whitelist files id, (equal_iff id id).1 refl))
        | inr e ↦ ground (arith, read_file-delete_blocks whitelist files id)
      ]

  -- `Purge`
  unfoldable pub purge :
      (Bytes → Option (N × ℕ)) → (N → Option ℕ) → Instance → WorkDir → WorkDir × Result (Unit {0})
  unfolding whitelist_loop delete_blocks
  purge sscanf to_size config work_dir =
      on_ok work_dir
        (do
          head ← head_get work_dir.heads head_name
          whitelist_loop (stored_block sscanf to_size work_dir.blocks) config.chain_length
              work_dir.blocks no_fields head)
        (λ whitelist. (record work_dir { blocks = delete_blocks whitelist work_dir.blocks }, ok tt))

  -- `Purge` succeeds if the blocks that it is to keep can be loaded: those from HEAD on, up to the chain
  -- length of the configuration. These files stay as they are, and so do the files whose names are
  -- not hexadecimal; no other file is left. The other directories stay as they are.
  pub purge-keeps :
      (sscanf : Bytes → Option (N × ℕ)) (to_size : N → Option ℕ) (config : Instance)
      (work_dir : WorkDir) (head : Bytes) (ids : List Bytes)
      → head_get work_dir.heads head_name ≡ ok head
      → FirstBlocks
          (stored_block sscanf to_size work_dir.blocks)
          work_dir.blocks
          config.chain_length
          head
          ids
      → (blocks : Files) × (purge sscanf to_size config work_dir
          ≡ (record work_dir { blocks = blocks }, ok tt))
        × ((id : Bytes)
            → read_file blocks id ≡ (
                if is_xdigit id && not (listed ids id) then none else read_file work_dir.blocks id))
  unfolding purge
  purge-keeps sscanf to_size config work_dir head ids e chain =
      let (after, run, has) =
        whitelist_loop-listed (stored_block sscanf to_size work_dir.blocks) no_fields chain in
      (
        delete_blocks after work_dir.blocks,
        rw e (rw run refl),
        λ id. rw (sym (has id)) (read_file-delete_blocks after work_dir.blocks id),
      )
