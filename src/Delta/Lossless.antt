-- ===== src/Delta/Lossless.antt =====
-- The loops of the merge do what those of Reference do: where the dictionaries stay below their load factor,
-- and the first loop also where no element has been removed from the dictionaries that it sets.
use leech.Base.{
  ℕ, zero, suc, ◌+◌, ◌*◌, ◌-◌, ◌∙◌, ◌≤◌, true, List, [], ◌∷◌, length, ltb, ◌≡◌, refl, ap, arith,
  Bytes, Result, ok, failed, subst, sym, Bool-cases, inl, inr,
}
use leech.Json.Syntax.{Json, Fields, no_fields, field, has_key, set, keys, size}
use leech.Json.Dictionary.{Dictionary, capacity_for, dictionary_ensure, put_entry, dictionary_set}
use leech.Delta.Merge.{Operations, Merging, begin, merged_entries, merge_keys, merge_operations}
use leech.Delta.Reference.{plain_keys}
use leech.Delta.Same.{Same, same_ok, bind-Same, Same-ok, Same-failed, weight}
use leech.Delta.Room.{Kept, Removing, Ready}

capacity_for-large : (n : ℕ) → 256 ≤ capacity_for n
unfolding capacity_for
capacity_for-large zero = omega arith
capacity_for-large (suc n) = ground (arith, capacity_for-large n)

zero_left : (n : ℕ) → 0 + n ≡ n
zero_left n = omega arith

suc_left : (m n : ℕ) → suc m + n ≡ suc (m + n)
suc_left m n = omega arith

cancel : (m n : ℕ) → m * (n - n) ≡ 0
cancel m n = let none_left : n - n ≡ 0 = omega arith in rw none_left (omega arith)

module _ {N : Type 0} where
  -- Room for `n` elements more below the load factor of the first array
  pub record Roomy (n : ℕ) (d : Dictionary N) : Type 0 where
    pub below : d.in_use + n ≤ 192
    pub large : 256 ≤ d.capacity

  -- No element of the array is invalidated.
  pub record Unworn (n : ℕ) (d : Dictionary N) : Type 0 where
    pub all_used : d.in_use ≡ d.count

  put_entry-entries :
      (d : Dictionary N) (key : Bytes) (v : Json N)
      → (put_entry d key v).entries ≡ set d.entries key v
  unfolding put_entry
  put_entry-entries d key v = elim (Bool-cases (has_key d.entries key)) [
    | inl e ↦ rw e refl
    | inr e ↦ rw e refl
  ]

  put_entry-Roomy :
      (n : ℕ) (d : Dictionary N) (key : Bytes) (v : Json N)
      → Roomy (suc n) d
      → Roomy n (put_entry d key v)
  unfolding put_entry
  put_entry-Roomy n d key v h = elim (Bool-cases (has_key d.entries key)) [
    | inl e ↦ rw e (record { below = omega (arith, h.below); large = h.large })
    | inr e ↦ rw e (record { below = omega (arith, h.below); large = h.large })
  ]

  put_entry-Unworn :
      (n m : ℕ) (d : Dictionary N) (key : Bytes) (v : Json N)
      → Unworn n d
      → Unworn m (put_entry d key v)
  unfolding put_entry
  put_entry-Unworn n m d key v h = elim (Bool-cases (has_key d.entries key)) [
    | inl e ↦ rw e (record { all_used = h.all_used })
    | inr e ↦ rw e (record { all_used = ap suc h.all_used })
  ]

  ensure-Roomy : (n : ℕ) (d : Dictionary N) → Roomy (suc n) d → dictionary_ensure d ≡ d
  unfolding dictionary_ensure
  ensure-Roomy n d h =
      let room : ltb (d.in_use * 4) (d.capacity * 3) ≡ true = ground (arith, h.below, h.large) in
      rw room refl

  ensure-Unworn :
      (n : ℕ) (d : Dictionary N)
      → Unworn n d
      → ((dictionary_ensure d).entries ≡ d.entries) × Unworn n (dictionary_ensure d)
  unfolding dictionary_ensure
  ensure-Unworn n d h = elim (Bool-cases (ltb (d.in_use * 4) (d.capacity * 3))) [
    | inl e ↦ (rw e refl, rw e h)
    | inr e ↦
        let nothing : d.capacity * (d.in_use - d.count) ≡ 0 =
          rw h.all_used (cancel d.capacity d.count) in
        let grows : ltb (d.capacity * (d.in_use - d.count)) 50 ≡ true = rw nothing refl in
        (rw e (rw grows refl), rw e (rw grows (record { all_used = refl })))
  ]

  pub Roomy-Kept : Kept Roomy
  unfolding dictionary_set
  Roomy-Kept = record {
    put = λ n d key v h.
        rw (ensure-Roomy n d h) (put_entry-entries d key v, put_entry-Roomy n d key v h);
    less = λ n d h. record { below = omega (arith, h.below); large = h.large };
  }

  pub Roomy-Removing : Removing Roomy
  Roomy-Removing = record {
    removed = λ n d key h. record { below = omega (arith, h.below); large = h.large };
    less = λ n d h. record { below = omega (arith, h.below); large = h.large };
  }

  pub Unworn-Kept : Kept Unworn
  unfolding dictionary_set
  Unworn-Kept = record {
    put = λ n d key v h.
        let (same, unworn) = ensure-Unworn (suc n) d h in
        (
          put_entry-entries (dictionary_ensure d) key v ∙ ap (λ fields. set fields key v) same,
          put_entry-Unworn (suc n) n (dictionary_ensure d) key v unworn,
        );
    less = λ n d h. record { all_used = h.all_used };
  }

  -- A dictionary of which nothing is known
  pub record Unknown (n : ℕ) (d : Dictionary N) : Type 0 where

  pub Unknown-Removing : Removing Unknown
  Unknown-Removing = record { removed = λ n d key h. record {}; less = λ n d h. record {} }

  length-keys : (fields : Fields N) → length (keys fields) ≡ size fields
  unfolding keys size
  length-keys no_fields = refl
  length-keys (field k v fields) = ap suc (length-keys fields)

  pub begin-Roomy :
      (operations : Operations N) (n : ℕ)
      → weight operations + n ≤ 192
      → Ready Roomy Roomy (weight operations + n) n (begin operations)
  begin-Roomy operations n le = record {
    inserts_have = record {
      below = omega (arith, le);
      large = capacity_for-large (size operations.inserts);
    };
    deletes_have = record {
      below = omega (arith, le);
      large = capacity_for-large (size operations.deletes);
    };
    updates_have = record {
      below = omega (arith, le);
      large = capacity_for-large (size operations.updates);
    };
    bounded = omega arith;
  }

  pub begin-Unworn :
      (operations : Operations N) (n : ℕ)
      → Ready Unworn Unknown (weight operations + n) n (begin operations)
  begin-Unworn operations n = record {
    inserts_have = record { all_used = refl };
    deletes_have = record {};
    updates_have = record { all_used = refl };
    bounded = omega arith;
  }

module _ {N : Type 0} (body : Merging N → Fields N → Bytes → Result (Merging N × Fields N))
    (plain : Operations N → Fields N → Bytes → Result (Operations N × Fields N))
    (A B : ℕ → Dictionary N → Type 0)
    (turn : (total n : ℕ) (parent : Merging N) (child : Fields N) (key : Bytes)
      → Ready A B total (suc n) parent
      → Same
          (Ready A B total n)
          (body parent child key)
          (plain (merged_entries parent) child key)) where
  pub merge_keys-Same :
      (total n : ℕ) (ks : List Bytes) (parent : Merging N) (child : Fields N)
      → Ready A B total (length ks + n) parent
      → Same
          (Ready A B total n)
          (merge_keys body ks parent child)
          (plain_keys plain ks (merged_entries parent) child)
  unfolding merge_keys plain_keys
  merge_keys-Same total n [] parent child h =
      same_ok _ _ _ refl (subst (λ m. Ready A B total m parent) (zero_left n) h)
  merge_keys-Same total n (key ∷ ks) parent child h =
      bind-Same _ _
        (turn total (length ks + n) parent child key
          (subst (λ m. Ready A B total m parent) (suc_left (length ks) n) h))
        (λ p rest has. merge_keys-Same total n ks p rest has)

  -- A loop of the merge, by that of Reference
  pub merge_operations-plain :
      (total n : ℕ) (parent : Merging N) (child : Fields N) (q : Operations N) (rest : Fields N)
      → Ready A B total (size child + n) parent
      → plain_keys plain (keys child) (merged_entries parent) child ≡ ok (q, rest)
      → (p : Merging N) × (merge_operations body parent child ≡ ok p)
        × (merged_entries p ≡ q)
        × Ready A B total n p
  unfolding merge_operations
  merge_operations-plain total n parent child q rest h done =
      let loop =
        merge_keys-Same total n (keys child) parent child
          (subst (λ m. Ready A B total (m + n) parent) (sym (length-keys child)) h) in
      let (p, run, same, has) = Same-ok loop done in (p, rw run refl, same, has)

  pub merge_operations-failed :
      (total n : ℕ) (parent : Merging N) (child : Fields N)
      → Ready A B total (size child + n) parent
      → plain_keys plain (keys child) (merged_entries parent) child ≡ failed
      → merge_operations body parent child ≡ failed
  unfolding merge_operations
  merge_operations-failed total n parent child h done =
      let loop =
        merge_keys-Same total n (keys child) parent child
          (subst (λ m. Ready A B total (m + n) parent) (sym (length-keys child)) h) in
      rw (Same-failed loop done) refl
