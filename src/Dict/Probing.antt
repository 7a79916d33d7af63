-- ===== src/Dict/Probing.antt =====
-- lib/dict.c: where `ComputeIndex` ends.
use leech.Base.{
  ℕ, zero, suc, ◌+◌, ◌-◌, ◌%◌, ◌<◌, Bool, true, false, ◌==◌, leb, ◌≢◌, List, if◌then◌else◌, ◌≡◌,
  refl, arith, Bool-cases, inl, inr, Bytes, ok,
}
use leech.Dict.{Slot, vacant, slot_at, stops, probe, compute_index, hash_key}

-- The indices from `index` on, around the end of the array, up to the first at which a test holds
pub data Probes (capacity : ℕ) (stop : ℕ → Bool) : ℕ → ℕ → Type 0 where
  here : {index : ℕ} → stop index ≡ true → Probes capacity stop index index
  further :
      {index last : ℕ}
      → stop index ≡ false
      → Probes capacity stop ((index + 1) % capacity) last
      → Probes capacity stop index last

module _ {capacity : ℕ} {stop : ℕ → Bool} where
  pub Probes-stop : {index last : ℕ} → Probes capacity stop index last → stop last ≡ true
  Probes-stop (here e) = e
  Probes-stop (further e probes) = Probes-stop probes

  pub Probes-unique :
      {index last other : ℕ}
      → Probes capacity stop index last
      → Probes capacity stop index other
      → last ≡ other
  Probes-unique (here e) (here e') = refl
  Probes-unique (here e) (further e' probes') = cc
  Probes-unique (further e probes) (here e') = cc
  Probes-unique (further e probes) (further e' probes') = Probes-unique probes probes'

  -- The loop passes by where it passed before, and still stops at the end.
  pub Probes-change :
      {stop' : ℕ → Bool} {index last : ℕ}
      → ((i : ℕ) → stop i ≡ false → stop' i ≡ false)
      → stop' last ≡ true
      → Probes capacity stop index last
      → Probes capacity stop' index last
  Probes-change passes ends (here e) = here ends
  Probes-change passes ends (further {index} e probes) =
      further (passes index e) (Probes-change passes ends probes)

-- The turns from an index to another
abbrev distance : ℕ → ℕ → ℕ → ℕ
distance capacity index free = if leb index free then free - index else free + capacity - index

next_index :
    (capacity index : ℕ)
    → index < capacity
    → (index + 1) % capacity ≡ (if index + 1 == capacity then 0 else index + 1)
next_index capacity index lt = elim (Bool-cases (index + 1 == capacity)) [
  | inl e ↦ let same : index + 1 ≡ capacity = ground (arith, e) in rw e (rw same (grind arith))
  | inr e ↦ rw e (let lt' : index + 1 < capacity = ground (arith, e) in grind arith)
]

closer :
    (capacity index free : ℕ)
    → index < capacity
    → free < capacity
    → index ≢ free
    → ((index + 1) % capacity < capacity)
      × (suc (distance capacity ((index + 1) % capacity) free) ≡ distance capacity index free)
closer capacity index free lt ltf ne =
    rw (next_index capacity index lt) (ground arith, ground arith)

module _ {V : Type 0} (buffer : List (Slot V)) (capacity : ℕ) (key : Bytes) where
  abbrev pub stops_at : ℕ → Bool
  stops_at index = stops key (slot_at buffer index)

  -- Where some place is free, the loop ends within the capacity.
  probe-Probes :
      (turns index free : ℕ)
      → index < capacity
      → free < capacity
      → slot_at buffer free ≡ vacant
      → distance capacity index free < turns
      → (last : ℕ) × (probe turns buffer capacity key index ≡ ok last)
        × (last < capacity)
        × Probes capacity stops_at index last
  unfolding probe
  probe-Probes zero index free lt ltf is_free few = absurd (omega arith)
  probe-Probes (suc turns) index free lt ltf is_free few = elim (Bool-cases (stops_at index)) [
    | inl e ↦ (index, rw e refl, lt, here e)
    | inr e ↦
        let ne : index ≢ free = λ same. cc in
        let (lt_next, less) = closer capacity index free lt ltf ne in
        let (last, run, lt', probes) =
          probe-Probes turns ((index + 1) % capacity) free lt_next ltf is_free
            (omega (arith, less, few)) in
        (last, rw e run, lt', further e probes)
  ]

  -- `ComputeIndex` ends.
  pub compute_index-Probes :
      (free : ℕ)
      → free < capacity
      → slot_at buffer free ≡ vacant
      → (last : ℕ) × (compute_index buffer capacity key ≡ ok last)
        × (last < capacity)
        × Probes capacity stops_at (hash_key key % capacity) last
  unfolding compute_index
  compute_index-Probes free ltf is_free =
      let lt : hash_key key % capacity < capacity = omega arith in
      probe-Probes capacity (hash_key key % capacity) free lt ltf is_free (ground arith)
