-- ===== src/Leech/StoredChain.antt =====
-- lib/block.c: blocks that are stored are found again, and a chain of them stays one.
use leech.Base.{
  ℕ, ◌≤◌, ◌/◌, ◌%◌, Bool, true, false, List, [], ◌∷◌, ◌==◌, length, Option, some, ◌≡◌, refl, sym,
  ap, ◌∙◌, arith, Bytes, Bool-cases, Option-cases, inl, inr, ok, failed,
}
use leech.Buffer.{equal}
use leech.Buffer.Order.{equal_iff}
use leech.Buffer.Hex.{hex_digit, bytes_to_hex, message_digest, length-bytes_to_hex}
use leech.CString.{until_null, strchr}
use leech.Json.Syntax.{
  Json, Items, string, number, array, object, no_fields, field, get, set, has_key,
}
use leech.Json.Layout.{is_plain, all_plain}
use leech.Json.Numbers.{Reads}
use leech.Json.Composer.{json_compose}
use leech.Json.ValueTrip.{json_parse-json_compose}
use leech.Head.{Files, read_file, write_file, white_space}
use leech.Head.Strip.{Stripped, single, wider}
use leech.Head.Stored.{read_file-write_file, read_file-write_file-other}
use leech.Block.Names.{version_key, timestamp_key, parent_key, payload_key}
use leech.Block.Create.{block_create, block_load, block_get_parent_id, block_get_payload}
use leech.Leech.Carries.{States}
use leech.Leech.Chain.{Chain, at_end, link}
use leech.Leech.Diff.{stored_block}

failed-ne-ok : {A B : Type 0} {a : A} → failed ≡ ok a → B
failed-ne-ok e = cc

-- A digest is neither stripped nor cut where it is read back.
data Plain : Bytes → Type 0 where
  no_more : Plain []
  one_more :
      {c : ℕ} {str : Bytes}
      → strchr white_space c ≡ false
      → (c == 0) ≡ false
      → Plain str
      → Plain (c ∷ str)

hex_digit-plain :
    (d : ℕ) → (strchr white_space (hex_digit d) ≡ false) × ((hex_digit d == 0) ≡ false)
unfolding strchr hex_digit
hex_digit-plain d = (ground arith, ground arith)

bytes_to_hex-Plain : (bytes : Bytes) → Plain (bytes_to_hex bytes)
unfolding bytes_to_hex
bytes_to_hex-Plain [] = no_more
bytes_to_hex-Plain (byte ∷ bytes) =
    let (space, null) = hex_digit-plain (byte / 16) in
    let (space', null') = hex_digit-plain (byte % 16) in
    one_more space null (one_more space' null' (bytes_to_hex-Plain bytes))

until_null-Plain : (str : Bytes) → Plain str → until_null str ≡ str
until_null-Plain [] no_more = refl
until_null-Plain (c ∷ str) (one_more s z p) = rw z (ap (λ cs. c ∷ cs) (until_null-Plain str p))

extended :
    (c : ℕ) {str : Bytes}
    → strchr white_space c ≡ false
    → Stripped white_space str
    → Stripped white_space (c ∷ str)
extended c s (single d z) = wider c [] d s z
extended c s (wider first mid last a b) = wider c (first ∷ mid) last s b

Stripped-Plain : (c : ℕ) (str : Bytes) → Plain (c ∷ str) → Stripped white_space (c ∷ str)
Stripped-Plain c [] (one_more s z p) = single c s
Stripped-Plain c (d ∷ str) (one_more s z p) = extended c s (Stripped-Plain d str p)

not_empty : (str : Bytes) → Plain str → 1 ≤ length str → Stripped white_space str
not_empty [] p lt = ground arith
not_empty (c ∷ str) p lt = Stripped-Plain c str p

module _ (sha1 : Bytes → Bytes) (sha1_size : (message : Bytes) → length (sha1 message) ≡ 20) where
  -- A digest as an identifier in the head of the chain
  pub message_digest-until_null :
      (message : Bytes) → until_null (message_digest sha1 message) ≡ message_digest sha1 message
  unfolding message_digest
  message_digest-until_null message =
      until_null-Plain (bytes_to_hex (sha1 message)) (bytes_to_hex-Plain (sha1 message))

  pub message_digest-Stripped :
      (message : Bytes) → Stripped white_space (message_digest sha1 message)
  unfolding message_digest
  message_digest-Stripped message =
      not_empty (bytes_to_hex (sha1 message)) (bytes_to_hex-Plain (sha1 message))
        (omega (arith, length-bytes_to_hex (sha1 message), sha1_size message))

module _ {N : Type 0} (print : N → Bytes) (sscanf : Bytes → Option (N × ℕ)) (digits : N → Bytes)
    (whole : N → Bool) (reads : (n : N) → whole n ≡ true → Reads print sscanf digits n)
    (to_size : N → Option ℕ) where
  -- A block of whole numbers and deltas
  abbrev pub block_of : N → N → Bytes → Items N → Json N
  block_of version timestamp parent payload = object (
      field version_key (number version) (
        field timestamp_key (number timestamp)
          (field parent_key (string parent) (field payload_key (array payload) no_fields))))

  pub block_create-block_of :
      (version timestamp : N) (parent : Bytes) (payload : Items N)
      → block_create version timestamp parent (array payload)
        ≡ ok (block_of version timestamp parent payload)
  unfolding block_create set equal
  block_create-block_of version timestamp parent payload = refl

  pub block_of-parts :
      (version timestamp : N) (parent : Bytes) (payload : Items N)
      → (block_get_parent_id (block_of version timestamp parent payload) ≡ ok (until_null parent))
        × (block_get_payload (block_of version timestamp parent payload) ≡ ok payload)
  unfolding get equal
  block_of-parts version timestamp parent payload = (refl, refl)

  -- The file of a block is loaded as that block.
  pub stored_block-block_of :
      (blocks : Files) (id : Bytes) (pretty : Bool) (version timestamp : N) (parent : Bytes)
      (payload : Items N)
      → read_file blocks id
        ≡ some (json_compose print (block_of version timestamp parent payload) pretty)
      → to_size version ≡ some 1
      → whole version ≡ true
      → whole timestamp ≡ true
      → all_plain whole payload ≡ true
      → stored_block sscanf to_size blocks id ≡ ok (block_of version timestamp parent payload)
  unfolding block_load is_plain has_key get equal
  stored_block-block_of blocks id pretty version timestamp parent payload held size wv wt plain =
      let parsed =
        json_parse-json_compose print sscanf digits whole reads
          (block_of version timestamp parent payload) pretty (rw wv (rw wt (rw plain refl))) in
      rw held (rw parsed (rw size refl))

  -- A file that is not in the directory yet, or that holds the same, changes no other block.
  read_file-free :
      (blocks : Files) (name contents id raw : Bytes)
      → ((stored : Bytes) → read_file blocks name ≡ some stored → stored ≡ contents)
      → read_file blocks id ≡ some raw
      → read_file (write_file blocks name contents) id ≡ some raw
  read_file-free blocks name contents id raw free e = elim (Bool-cases (equal name id)) [
    | inr other ↦ read_file-write_file-other blocks name contents id other ∙ e
    | inl same ↦
        let name-is : name ≡ id = (equal_iff name id).0 same in
        ap (read_file (write_file blocks name contents)) (sym name-is)
        ∙ read_file-write_file blocks name contents
        ∙ ap some (sym (free raw (ap (read_file blocks) name-is ∙ e)))
  ]

  stored_block-free :
      (blocks : Files) (name contents id : Bytes) (block : Json N)
      → ((stored : Bytes) → read_file blocks name ≡ some stored → stored ≡ contents)
      → stored_block sscanf to_size blocks id ≡ ok block
      → stored_block sscanf to_size (write_file blocks name contents) id ≡ ok block
  unfolding block_load
  stored_block-free blocks name contents id block free l =
      elim (Option-cases (read_file blocks id)) [
        | inl e ↦ failed-ne-ok (rw e at l)
        | inr (raw, e) ↦ rw (read_file-free blocks name contents id raw free e) (rw e at l)
      ]

  module _ (ids : List Bytes) (final_id : Bytes) (start : States N) where
    -- A chain is not touched by files that are not in the directory yet, or that hold the same.
    pub Chain-write_file :
        (blocks : Files) (name contents : Bytes) {n : ℕ} {id : Bytes} {to : States N}
        → ((stored : Bytes) → read_file blocks name ≡ some stored → stored ≡ contents)
        → Chain (stored_block sscanf to_size blocks) ids final_id start n id to
        → Chain
            (stored_block sscanf to_size (write_file blocks name contents))
            ids
            final_id
            start
            n
            id
            to
    Chain-write_file blocks name contents free (at_end e) = at_end e
    Chain-write_file blocks name contents free
          (link {id = id} {from} block parent payload e l p c h chain) =
        link {from = from} block parent payload e
          (stored_block-free blocks name contents id block free l) p c h
          (Chain-write_file blocks name contents free chain)
