-- ===== src/Leech/Chain.antt =====
-- Chains of blocks, and what `MergeBlocks` makes of one.
use leech.Base.{
  ℕ, zero, suc, ◌+◌, ◌≤◌, ◌<◌, Bool, true, false, List, if◌then◌else◌, ◌≡◌, ◌∙◌, refl, arith, Bytes,
  Result, ok,
}
use leech.Buffer.{equal}
use leech.CString.{string_equal}
use leech.Json.Syntax.{
  Json, Items, null, true_value, false_value, string, number, array, object, no_items, set,
}
use leech.Json.Access.{object_set}
use leech.Json.Arrays.{items_length}
use leech.Json.Fields.{listed, Once, get-set}
use leech.Block.Names.{payload_key, parent_key}
use leech.Block.Create.{block_get_parent_id, block_get_payload}
use leech.Leech.Config.{Instance}
use leech.Leech.Merge.{merge_deltas, merge_blocks}
use leech.Leech.Carries.{States, Carries, Carries-to, Weighs, payload_weight, payload_weight-Weighs}
use leech.Leech.MergeDeltas.{Merges, merge_deltas-Carries, merge_deltas_end}

module _ {N : Type 0} where
  -- A chain of `n` blocks, from the block with the given identifier down to that behind which
  -- `final_id` stands. Each block carries the same tables from the state that its parent leaves.
  pub data Chain (load_block : Bytes → Result (Json N)) (ids : List Bytes) (final_id : Bytes)
      (start : States N) : ℕ → Bytes → States N → Type 0 where
    at_end :
        {id : Bytes}
        → string_equal id final_id ≡ true
        → Chain load_block ids final_id start 0 id start
    link :
        {n : ℕ} {id : Bytes} {from to : States N} (block : Json N) (parent : Bytes)
        (payload : Items N)
        → string_equal id final_id ≡ false
        → load_block id ≡ ok block
        → block_get_parent_id block ≡ ok parent
        → block_get_payload block ≡ ok payload
        → Carries from to ids payload
        → Chain load_block ids final_id start n parent from
        → Chain load_block ids final_id start (suc n) id to

  -- The sizes of the largest deltas of the blocks, added up: a bound for what a merge makes of a table
  abbrev pub chain_weight :
      {load_block : Bytes → Result (Json N)} {ids : List Bytes} {final_id : Bytes}
      {start : States N} {n : ℕ} {id : Bytes} {to : States N}
      → Chain load_block ids final_id start n id to
      → ℕ
  chain_weight (at_end e) = 0
  chain_weight (link block parent payload e l p c h chain) =
      payload_weight payload + chain_weight chain

  -- The payload of a block is changed, and its parent stays.
  set_payload :
      (block : Json N) (payload payload' : Items N)
      → block_get_payload block ≡ ok payload
      → (block' : Json N) × (object_set block payload_key (array payload') ≡ ok block')
        × (block_get_payload block' ≡ ok payload')
        × (block_get_parent_id block' ≡ block_get_parent_id block)
  unfolding equal
  set_payload (object entries) payload payload' h = (
    object (set entries payload_key (array payload')),
    refl,
    rw (get-set entries payload_key payload_key (array payload')),
    rw (get-set entries payload_key parent_key (array payload')),
  )
  set_payload null payload payload' h = cc
  set_payload true_value payload payload' h = cc
  set_payload false_value payload payload' h = cc
  set_payload (string _) payload payload' h = cc
  set_payload (number _) payload payload' h = cc
  set_payload (array _) payload payload' h = cc

module _ {N : Type 0} (number_eq : N → N → Bool) (config : Instance)
    (load_block : Bytes → Result (Json N)) (final_id : Bytes) where
  merge_blocks_end :
      (fuel : ℕ) (child patch : Json N) (id : Bytes)
      → block_get_parent_id child ≡ ok id
      → string_equal id final_id ≡ true
      → merge_blocks number_eq config load_block (suc fuel) final_id child patch ≡ ok (child, patch)
  unfolding merge_blocks
  merge_blocks_end fuel child patch id p e = rw p (rw e refl)

  -- A block whose deltas all go into those of its parent
  merge_blocks_step :
      (fuel : ℕ) (child child' parent parent' patch : Json N) (id : Bytes)
      (child_payload payload payload' : Items N)
      → block_get_parent_id child ≡ ok id
      → string_equal id final_id ≡ false
      → load_block id ≡ ok parent
      → block_get_payload parent ≡ ok payload
      → block_get_payload child ≡ ok child_payload
      → merge_deltas number_eq config (items_length child_payload) parent payload child_payload 0
        ≡ ok (parent, payload', no_items)
      → object_set parent payload_key (array payload') ≡ ok parent'
      → object_set child payload_key (array no_items) ≡ ok child'
      → merge_blocks number_eq config load_block (suc fuel) final_id child patch
        ≡ merge_blocks number_eq config load_block fuel final_id parent' patch
  unfolding merge_blocks
  merge_blocks_step fuel child child' parent parent' patch id child_payload payload payload' p e l
        pp cp m sp sc =
      rw p (rw e (rw l (rw pp (rw cp (rw m (rw sp (rw sc refl)))))))

  module _ (ids : List Bytes) (start : States N) (once : Once ids)
      (merges : Merges config ids) where
    -- A block that carries on from the end of a chain: its deltas and those of the chain are merged
    -- into one block, which carries the start of the chain to the state that the block leaves. The deltas
    -- have at most `b` operations, and with the weight of the chain at most 192.
    pub merge_blocks-Chain :
        (fuel : ℕ) (child patch : Json N) (child_payload : Items N) {n : ℕ} {id : Bytes}
        {from : States N} (to : States N) (b : ℕ)
        (chain : Chain load_block ids final_id start n id from)
        → b + chain_weight chain ≤ 192
        → Weighs (λ j. b) ids child_payload
        → block_get_parent_id child ≡ ok id
        → block_get_payload child ≡ ok child_payload
        → Carries from to ids child_payload
        → n < fuel
        → (merged : Json N) × (payload : Items N) × (merge_blocks number_eq config load_block fuel
              final_id child patch
            ≡ ok (merged, patch))
          × (block_get_payload merged ≡ ok payload)
          × Carries start to ids payload
    merge_blocks-Chain zero child patch child_payload to b chain few light p c h lt = ground arith
    merge_blocks-Chain (suc fuel) child patch child_payload {n} {id} to b (at_end e) few light p c h
          lt =
        (child, child_payload, merge_blocks_end fuel child patch id p e, c, h)
    merge_blocks-Chain (suc fuel) child patch child_payload {id = id} {from} to b
          (link {n} {from = before} parent grandparent payload e l pp lp hp chain) few light p c h
          lt =
        let a = payload_weight payload in
        let now : States N = λ j. if listed ids j then from j else to j in
        let (payload', done, carries, light') =
          merge_deltas-Carries number_eq config before from to now ids (items_length child_payload)
            parent payload h (Carries-to before from now hp (λ j m. rw m refl)) once once merges
            (λ j m. (m, rw m refl)) (λ j m. rw m refl) (omega arith) a b (λ j. a)
            (omega (arith, few)) light (payload_weight-Weighs payload hp) (λ j m. omega arith)
            (λ j. omega arith) in
        let (parent', sp, pp', lp') = set_payload parent payload payload' lp in
        let (child', sc, _, _) = set_payload child child_payload no_items c in
        let (merged, result, run, is_payload, result_carries) =
          merge_blocks-Chain fuel parent' patch payload' to (a + b) chain (omega (arith, few))
            light' (lp' ∙ pp) pp' carries (omega arith) in
        (
          merged,
          result,
          merge_blocks_step fuel child child' parent parent' patch id child_payload payload payload'
                p e l lp c done sp sc
              ∙ run,
          is_payload,
          result_carries,
        )

    -- The same from an empty block on a chain that is not empty: the merged block carries the start of
    -- the chain to its end. The sizes of the largest deltas of the blocks add up to at most 192.
    pub merge_blocks-empty :
        (fuel : ℕ) (empty patch : Json N) {n : ℕ} {id : Bytes} (to : States N)
        (chain : Chain load_block ids final_id start (suc n) id to)
        → chain_weight chain ≤ 192
        → block_get_parent_id empty ≡ ok id
        → block_get_payload empty ≡ ok no_items
        → suc n < fuel
        → (merged : Json N) × (payload : Items N) × (merge_blocks number_eq config load_block fuel
              final_id empty patch
            ≡ ok (merged, patch))
          × (block_get_payload merged ≡ ok payload)
          × Carries start to ids payload
    merge_blocks-empty zero empty patch to chain few p c lt = ground arith
    merge_blocks-empty (suc fuel) empty patch {id = id} to
          (link {n} {from} head parent payload e l pp lp h chain) few p c lt =
        let (head', sp, pp', lp') = set_payload head payload payload lp in
        let (empty', sc, _, _) = set_payload empty no_items no_items c in
        let (merged, result, run, is_payload, carries) =
          merge_blocks-Chain fuel head' patch payload to (payload_weight payload) chain few
            (payload_weight-Weighs payload h) (lp' ∙ pp) pp' h (omega arith) in
        (
          merged,
          result,
          merge_blocks_step fuel empty empty' head head' patch id no_items payload payload p e l lp
                c (merge_deltas_end number_eq config 0 head payload) sp sc
              ∙ run,
          is_payload,
          carries,
        )
