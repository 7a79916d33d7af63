-- ===== src/Leech/MergeDeltas.antt =====
-- The loop of `MergeBlocks`: the deltas of the child go into those of the parent, table by table.
use mathlib.Core.Path.{fun_ext}
use leech.Base.{
  ℕ, zero, suc, ◌+◌, ◌≤◌, Bool, true, false, List, some, if◌then◌else◌, ltb, ◌≡◌, sym, ◌∙◌, refl,
  ap, subst, arith, Bytes, ok, inl, inr, Bool-cases,
}
use leech.Buffer.{equal}
use leech.CString.{until_null}
use leech.Json.Syntax.{Json, Items, object, no_items, item}
use leech.Json.Access.{object_get_string}
use leech.Json.Arrays.{items_length, items_set}
use leech.Json.Fields.{listed, Once, equal_refl}
use leech.Delta.Names.{id_key}
use leech.Delta.Loop.{listed-ne}
use leech.Delta.Merge.{delta_merge}
use leech.Delta.Correct.{patch, Applies, delta_merge_lem}
use leech.Leech.Config.{Instance, TableInfo, instance_get_table}
use leech.Leech.Merge.{find_delta, merge_deltas}
use leech.Leech.Carries.{
  State, States, HasDelta, Carries, nothing, carry, HasDelta-to, Carries-to, find_delta-Carries,
  delta_weight, delta_weight-HasOperations, Weighs, Weighs-le, Weighs-split,
}

-- The tables are configured, and their blocks are to be merged.
abbrev pub Merges : Instance → List Bytes → Type 0
Merges config ids =
    (id : Bytes)
    → listed ids id ≡ true
    → (table : TableInfo) × (instance_get_table config (until_null id) ≡ some table)
      × (table.merge_blocks ≡ true)

ltb_zero_suc : (n : ℕ) → ltb 0 (suc n) ≡ true
ltb_zero_suc n = ground arith

module _ {N : Type 0} (number_eq : N → N → Bool) where
  -- Two deltas of a table in a row make one.
  delta_merge-HasDelta :
      (first second third : State N) (id : Bytes) (parent child : Json N)
      → HasDelta first second id parent
      → HasDelta second third id child
      → delta_weight parent + delta_weight child ≤ 192
      → (merged : Json N) × (delta_merge number_eq parent child ≡ ok merged)
        × HasDelta first third id merged
        × (delta_weight merged ≤ delta_weight parent + delta_weight child)
  delta_merge-HasDelta first second third id parent child hp hc few =
      let applies : Applies hc.operations (patch hp.operations first) =
        subst (λ s. Applies hc.operations s) (sym hp.patched_to) hc.applies in
      let wp = delta_weight-HasOperations parent hp.operations hp.parts in
      let wc = delta_weight-HasOperations child hc.operations hc.parts in
      let (merged, m, done, parts, fits, patched, kept, light, id_kept, _) =
        delta_merge_lem number_eq parent child hp.operations hc.operations first hp.parts hc.parts
          hc.once (omega (arith, few, wp, wc)) hp.applies applies in
      let wm = delta_weight-HasOperations merged m parts in
      (
        merged,
        done,
        record {
          operations = m;
          parts = parts;
          once = kept hp.once;
          applies = fits;
          patched_to = fun_ext patched ∙ ap (patch hc.operations) hp.patched_to ∙ hc.patched_to;
          id_is = id_kept ∙ hp.id_is;
        },
        omega (arith, wp, wc, wm, light),
      )

  module _ (config : Instance) where
    -- A turn of the loop at a table that the parent has
    merge_deltas-step :
        (fuel : ℕ) (parent : Json N) (payload items : Items N) (id : Bytes) (i : ℕ)
        (found delta merged : Json N) (table : TableInfo) (first second : State N)
        → HasDelta first second id delta
        → find_delta payload id 0 ≡ ok (some (i, found))
        → instance_get_table config (until_null id) ≡ some table
        → table.merge_blocks ≡ true
        → delta_merge number_eq found delta ≡ ok merged
        → merge_deltas number_eq config (suc fuel) parent payload (item delta items) 0
          ≡ merge_deltas number_eq config fuel parent (items_set payload i merged) items 0
    unfolding merge_deltas
    merge_deltas-step fuel parent payload items id i found delta merged table first second h f t b
          m =
        let entries = h.parts.entries in
        let named : object_get_string (object entries) id_key ≡ ok id =
          rw h.parts.is_object at h.id_is in
        let done : delta_merge number_eq found (object entries) ≡ ok merged =
          rw h.parts.is_object at m in
        rw h.parts.is_object
          (rw named (rw f (rw t (rw b (rw done (rw (ltb_zero_suc (items_length items)) refl))))))

    -- A child with no deltas
    pub merge_deltas_end :
        (fuel : ℕ) (parent : Json N) (payload : Items N)
        → merge_deltas number_eq config fuel parent payload no_items 0
          ≡ ok (parent, payload, no_items)
    unfolding merge_deltas
    merge_deltas_end zero parent payload = refl
    merge_deltas_end (suc fuel) parent payload = refl

    -- The payload of the parent ends as that of both blocks, and that of the child empty. The deltas of
    -- the parent have at most `a` operations and those of the child at most `b`, 192 in all; a merged delta
    -- has at most as many as its two.
    pub merge_deltas-Carries :
        (first second third now : States N) (ids : List Bytes) {later : List Bytes}
        {child_payload : Items N} (fuel : ℕ) (parent : Json N) (payload : Items N)
        → Carries second third later child_payload
        → Carries first now ids payload
        → Once ids
        → Once later
        → Merges config ids
        → ((j : Bytes) → listed later j ≡ true → (listed ids j ≡ true) × (now j ≡ second j))
        → ((j : Bytes) → listed later j ≡ false → now j ≡ third j)
        → items_length child_payload ≤ fuel
        → (a b : ℕ) (most : Bytes → ℕ) → a + b ≤ 192
        → Weighs (λ j. b) later child_payload
        → Weighs most ids payload
        → ((j : Bytes) → listed later j ≡ true → most j ≤ a)
        → ((j : Bytes) → most j ≤ a + b)
        → (payload' : Items N) × (merge_deltas number_eq config fuel parent payload child_payload 0
            ≡ ok (parent, payload', no_items))
          × Carries first third ids payload'
          × Weighs (λ j. a + b) ids payload'
    merge_deltas-Carries first second third now ids fuel parent payload nothing hp o1 o2 ms there
          done le a b most few wc wp low high =
        (
          payload,
          merge_deltas_end fuel parent payload,
          Carries-to first now third hp (λ j l. done j refl),
          Weighs-le most (λ j. a + b) wp (λ j l. high j),
        )
    merge_deltas-Carries first second third now ids zero parent payload (carry h rest) hp o1 o2 ms
          there done le a b most few wc wp low high =
        ground arith
    merge_deltas-Carries first second third now ids (suc fuel) parent payload
          (carry {k} {ids = later} {delta} {items} h rest) hp o1 o2 ms there done le a b most few wc
          wp low high =
        let (inside, at_second) = there k (rw equal_refl) in
        let (i, found, is_found, has, replaced, weighed) =
          find_delta-Carries first now k 0 hp o1 inside in
        let at_index : 0 + i ≡ i = omega arith in
        let (table, configured, merges) = ms k inside in
        let (child_light, rest_light) = Weighs-split wc in
        let (parent_light, again) = weighed most wp in
        let low_k = low k (rw equal_refl) in
        let (merged, is_merged, has_merged, light) =
          delta_merge-HasDelta (first k) (second k) (third k) k found delta
            (HasDelta-to (first k) (now k) (second k) k found at_second has) h
            (omega (arith, few, child_light, parent_light, low_k)) in
        let next : States N = λ j. if equal k j then third j else now j in
        let next_most : Bytes → ℕ = λ j. if equal k j then a + b else most j in
        let (payload', loop, carries, all_light) =
          merge_deltas-Carries first second third next ids fuel parent (items_set payload i merged)
            rest
            (replaced merged next
              (HasDelta-to (first k) (third k) (next k) k merged (rw (equal_refl k) refl)
                has_merged)
              (λ j e. rw e refl))
            o1 o2.1 ms
            (λ j l.
              let other = listed-ne k j later o2.0 l in
              let (listed_in, at) = there j (rw other l) in (listed_in, rw other at))
            (λ j l. elim (Bool-cases (equal k j)) [
              | inl e ↦ rw e refl
              | inr e ↦ rw e (done j (rw e l))
            ])
            (omega arith) a b next_most few rest_light
            (again merged next_most
              (rw (equal_refl k) (omega (arith, light, child_light, parent_light, low_k)))
              (λ j e. rw e (omega arith)))
            (λ j l. rw (listed-ne k j later o2.0 l) (low j (ground (arith, l))))
            (λ j. ground (arith, high j)) in
        (
          payload',
          merge_deltas-step fuel parent payload items k i found delta merged table (second k)
                (third k) h (is_found ∙ ap (λ m. ok (some (m, found))) at_index) configured merges
                is_merged
              ∙ loop,
          carries,
          all_light,
        )
