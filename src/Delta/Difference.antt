-- ===== src/Delta/Difference.antt =====
-- `LCH_DeltaCreate` gives a delta that turns the old state of a table into the new one.
use mathlib.Core.Path.{fun_ext}
use leech.Base.{
  subst, ◌+◌, ◌≤◌, Bool, true, Option, none, some, ◌≡◌, refl, sym, ◌∙◌, ap, arith, Bytes, ok, inl,
  inr, Bool-cases,
}
use leech.Buffer.{equal}
use leech.Json.Syntax.{Json, Fields, object, string, no_fields, get, set, size}
use leech.Json.Fields.{has_key-get}
use leech.Json.Equal.{json_equal, is_string}
use leech.Json.EqualLaws.{json_equal-is_string}
use leech.Json.SetMinusLaws.{Strings, changed, keys_minus-get, changed_values-get}
use leech.Delta.Names.{type_key, id_key, inserts_key, deletes_key, updates_key}
use leech.Delta.Create.{delta_create, get_table_id, get_delta_type}
use leech.Delta.Merge.{Operations, delta_merge}
use leech.Delta.Cells.{Cell, cell, AllDistinct}
use leech.Delta.Compose.{Fits, untouched, inserts, deletes, updates, patched}
use leech.Delta.Parts.{HasOperations}
use leech.Delta.Weight.{weight-Applies}
use leech.Delta.Correct.{patch, Applies, delta_merge_lem}

pub delta_entries :
    {N : Type 0} (table_id type : Bytes) (i d u : Fields N)
    → let e1 = set (set no_fields type_key (string type)) id_key (string table_id) in
      let e2 =
        set (set (set e1 inserts_key (object i)) deletes_key (object d)) updates_key (object u) in
      HasOperations (object e2) (record { inserts = i; deletes = d; updates = u })
      × (get_table_id (object e2) ≡ ok table_id)
      × (get_delta_type (object e2) ≡ ok type)
unfolding get set equal
delta_entries table_id type i d u = (
  record { entries = _; is_object = refl; inserts_at = refl; deletes_at = refl; updates_at = refl },
  refl,
  refl,
)

module _ {N : Type 0} (number_eq : N → N → Bool) where
  -- The difference of two records at one key
  difference : Option (Json N) → Option (Json N) → Cell N
  difference new old = record {
    inserted = elim old [ none ↦ new | some _ ↦ none ];
    deleted = elim new [ none ↦ old | some _ ↦ none ];
    updated = changed number_eq new old;
  }

  StringOr : Option (Json N) → Type 0
  StringOr o = (v : Json N) → o ≡ some v → is_string v ≡ true

  difference-Fits :
      (new old : Option (Json N)) → StringOr new → StringOr old → Fits (difference new old) old
  unfolding difference StringOr
  difference-Fits none none sn so = untouched refl
  difference-Fits (some v) none sn so = inserts v refl refl (sn v refl)
  difference-Fits none (some w) sn so = deletes w w refl refl (so w refl) (inr refl)
  difference-Fits (some v) (some w) sn so = elim (Bool-cases (json_equal number_eq v w)) [
    | inl e ↦ untouched (rw e)
    | inr e ↦ updates v w (rw e) refl (sn v refl) (so w refl)
  ]

  difference-patched :
      (new old : Option (Json N)) → StringOr new → patched (difference new old) old ≡ new
  unfolding difference StringOr
  difference-patched none none sn = refl
  difference-patched (some v) none sn = refl
  difference-patched none (some w) sn = refl
  difference-patched (some v) (some w) sn = elim (Bool-cases (json_equal number_eq v w)) [
    | inl e ↦ rw e (ap some (sym ((json_equal-is_string number_eq v w (sn v refl)).0 e)))
    | inr e ↦ rw e
  ]

  -- From two states of strings, `LCH_DeltaCreate` makes a delta of the given table and type, each key
  -- once in each part. It applies to the old state, and the patched old state is the new one, at
  -- every key.
  pub delta_create_lem :
      (table_id type : Bytes) (new_state old_state : Fields N)
      → Strings new_state
      → Strings old_state
      → (delta : Json N) × (m : Operations N) × (delta_create number_eq table_id type new_state
            old_state
          ≡ ok delta)
        × HasOperations delta m
        × AllDistinct m
        × Applies m (get old_state)
        × ((key : Bytes) → patch m (get old_state) key ≡ get new_state key)
        × (get_table_id delta ≡ ok table_id)
        × (get_delta_type delta ≡ ok type)
  unfolding delta_create equal StringOr difference
  delta_create_lem table_id type new_state old_state sn so =
      let (i, done_i, once_i, get_i) = keys_minus-get new_state old_state sn in
      let (d, done_d, once_d, get_d) = keys_minus-get old_state new_state so in
      let (u, done_u, once_u, get_u) = changed_values-get number_eq new_state old_state sn in
      let m : Operations N = record { inserts = i; deletes = d; updates = u } in
      let cells : (k : Bytes) → cell m k ≡ difference (get new_state k) (get old_state k) = λ k.
        ground
          (arith, get_i k, get_d k, get_u k, has_key-get old_state k, has_key-get new_state k) in
      let e1 = set (set no_fields type_key (string type)) id_key (string table_id) in
      let e2 =
        set (set (set e1 inserts_key (object i)) deletes_key (object d)) updates_key (object u) in
      let (has, id_is, type_is) = delta_entries table_id type i d u in
      (
        object e2,
        m,
        rw done_i (rw done_d (rw done_u)),
        has,
        record { inserts_once = once_i; deletes_once = once_d; updates_once = once_u },
        λ k. rw (cells k) (difference-Fits (get new_state k) (get old_state k) (sn k) (so k)),
        λ k. rw (cells k) (difference-patched (get new_state k) (get old_state k) (sn k)),
        id_is,
        type_is,
      )

  -- For three states of strings, with the second counted twice at most 192 records in all,
  -- `LCH_DeltaCreate` makes a delta from the first to the second and one from the second to the third,
  -- and `LCH_DeltaMerge` merges the second delta into the first. The merged delta applies to the first state and makes of it the third, at every key.
  pub delta_merge-delta_create :
      (table_id type : Bytes) (first second third : Fields N)
      → Strings first
      → Strings second
      → Strings third
      → size first + size second + (size second + size third) ≤ 192
      → (parent child delta : Json N) × (m : Operations N) × (delta_create number_eq table_id type
            second first
          ≡ ok parent)
        × (delta_create number_eq table_id type third second ≡ ok child)
        × (delta_merge number_eq parent child ≡ ok delta)
        × HasOperations delta m
        × Applies m (get first)
        × ((key : Bytes) → patch m (get first) key ≡ get third key)
  delta_merge-delta_create table_id type first second third s1 s2 s3 few =
      let (parent, p, made_p, has_p, once_p, Applies-p, patch_p, _, _) =
        delta_create_lem table_id type second first s2 s1 in
      let (child, c, made_c, has_c, once_c, Applies-c, patch_c, _, _) =
        delta_create_lem table_id type third second s3 s2 in
      let between : patch p (get first) ≡ get second = fun_ext patch_p in
      let few_p = weight-Applies p first second once_p Applies-p patch_p in
      let few_c = weight-Applies c second third once_c Applies-c patch_c in
      let (delta, m, merged_to, has_m, applies_m, patch_m, _, _, _, _) =
        delta_merge_lem number_eq parent child p c (get first) has_p has_c once_c
          (omega (arith, few, few_p, few_c)) Applies-p
          (subst (Applies c) (sym between) Applies-c) in
      (
        parent,
        child,
        delta,
        m,
        made_p,
        made_c,
        merged_to,
        has_m,
        applies_m,
        λ k. patch_m k ∙ ap (patched (cell c k)) (patch_p k) ∙ patch_c k,
      )
