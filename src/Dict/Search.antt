-- ===== src/Dict/Search.antt =====
-- lib/dict.c: the search for a key, and a change of the place that is found.
use leech.Base.{
  ℕ, ◌%◌, ◌<◌, true, false, ◌==◌, ◌≢◌, ap, List, if◌then◌else◌, length, ◌≡◌, refl, sym, ◌∙◌, arith,
  Bool-cases, ◌⊎◌, inl, inr, Bytes, ok, some, none,
}
use leech.Buffer.{equal}
use leech.Buffer.Order.{equal_iff}
use leech.ListBuffer.{replace_at}
use leech.Dict.{Slot, vacant, invalidated, element, slot_at, stops, hash_key, compute_index}
use leech.Dict.Probing.{Probes, Probes-stop, Probes-unique, stops_at, compute_index-Probes}
use leech.Dict.Slots.{
  lookup, occupied, total, Unique, Found, Found-Unique, lookup-some, lookup-slot_at,
  slot_at-replace_at, free_place, Found-replace_at, lookup-eq,
}

module _ {V : Type 0} where
  Slot-cases :
      (slot : Slot V)
      → (slot ≡ vacant)
        ⊎ ((slot ≡ invalidated) ⊎ ((key : Bytes) × (value : V) × (slot ≡ element key value)))
  Slot-cases vacant = inl refl
  Slot-cases invalidated = inr (inl refl)
  Slot-cases (element key value) = inr (inr (key, value, refl))

  -- The array has as many places as its capacity, one of them free, and each element is found.
  pub record Sound (capacity : ℕ) (buffer : List (Slot V)) : Type 0 where
    pub sized : capacity ≡ length buffer
    pub free : total occupied buffer < capacity
    pub found : Found capacity buffer

  module _ (capacity : ℕ) (buffer : List (Slot V)) (key : Bytes)
      (sound : Sound capacity buffer) where
    -- `ComputeIndex` ends at the element with the key, or at a free place if there is none.
    pub compute_index_lem :
        (last : ℕ) × (compute_index buffer capacity key ≡ ok last)
        × (last < length buffer)
        × Probes capacity (stops_at buffer capacity key) (hash_key key % capacity) last
        × (((slot_at buffer last ≡ vacant) × (lookup buffer key ≡ none))
            ⊎ ((value : V) × (slot_at buffer last ≡ element key value)
                × (lookup buffer key ≡ some value)))
    compute_index_lem =
        let sized = sound.sized in
        let free = sound.free in
        let (i, lt, is_free) = free_place buffer (omega (arith, sized, free)) in
        let (last, run, lt', probes) =
          compute_index-Probes buffer capacity key i (omega (arith, sized, lt)) is_free in
        let stop = Probes-stop probes in
        (
          last,
          run,
          omega (arith, sized, lt'),
          probes,
          elim (Slot-cases (slot_at buffer last)) [
            | inl e ↦ inl (
              e,
              lookup-eq buffer key none (Found-Unique capacity buffer sound.found) (λ v h. cc)
                  (λ j v at.
                    let same = Probes-unique (sound.found j key v at) probes in
                    cc (ap (slot_at buffer) same)),
            )
            | inr (inl e) ↦ cc
            | inr (inr (k, v, e)) ↦
                let is : k ≡ key = (equal_iff k key).0 (sym (ap (stops key) e) ∙ stop) in
                let at : slot_at buffer last ≡ element key v = e ∙ ap (λ c. element c v) is in
                inr (
                  v,
                  at,
                  lookup-slot_at buffer last key v (Found-Unique capacity buffer sound.found) at,
                )
          ],
        )

  -- A change of one place leaves what stands under a key, unless it is about that key.
  pub lookup-replace_at :
      (buffer : List (Slot V)) (i : ℕ) (slot : Slot V) (key : Bytes)
      → i < length buffer
      → Unique buffer
      → Unique (replace_at buffer i slot)
      → ((value : V) → slot_at buffer i ≢ element key value)
      → ((value : V) → slot ≢ element key value)
      → lookup (replace_at buffer i slot) key ≡ lookup buffer key
  lookup-replace_at buffer i slot key lt unique unique' old new =
      let at = λ (j : ℕ). slot_at-replace_at buffer i j slot lt in
      lookup-eq (replace_at buffer i slot) key (lookup buffer key) unique'
        (λ value e.
          let (j, is) = lookup-some buffer key value e in
          (
            j,
            elim (Bool-cases (j == i)) [
              | inl same ↦
                  let j-is : j ≡ i = ground (arith, same) in absurd (old value (rw j-is at is))
              | inr other ↦ rw (at j) (rw other is)
            ],
          ))
        (λ j value e. elim (Bool-cases (j == i)) [
          | inl same ↦ absurd (new value (rw same at (rw (at j) at e)))
          | inr other ↦ lookup-slot_at buffer j key value unique (rw other at (rw (at j) at e))
        ])

  -- A place where an element with a key may be put
  abbrev pub Place : List (Slot V) → ℕ → Bytes → Type 0
  Place buffer i key =
      (slot_at buffer i ≡ vacant) ⊎ ((value : V) × (slot_at buffer i ≡ element key value))

  Place-opens :
      (buffer : List (Slot V)) (i : ℕ) (key k : Bytes)
      → Place buffer i key
      → stops k (slot_at buffer i) ≡ false
      → equal key k ≡ false
  Place-opens buffer i key k (inl e) h = let h' = rw e at h in cc
  Place-opens buffer i key k (inr (value, e)) h = rw e at h

  Place-ne :
      (buffer : List (Slot V)) (i : ℕ) (key k : Bytes) (value : V)
      → Place buffer i key
      → equal key k ≡ false
      → slot_at buffer i ≢ element k value
  Place-ne buffer i key k value (inl e) ne h = cc
  Place-ne buffer i key k value (inr (v, e)) ne h =
      let same : key ≡ k = cc in cc ((equal_iff key k).1 same)

  module _ (capacity : ℕ) (buffer : List (Slot V)) (key : Bytes)
      (sound : Sound capacity buffer) where
    -- A new element where the search for its key ends
    pub put_lem :
        (last : ℕ) (value : V)
        → last < length buffer
        → Probes capacity (stops_at buffer capacity key) (hash_key key % capacity) last
        → Place buffer last key
        → Found capacity (replace_at buffer last (element key value))
          × ((k : Bytes)
              → lookup (replace_at buffer last (element key value)) k
                ≡ (if equal key k then some value else lookup buffer k))
    put_lem last value lt probes place =
        let buffer' = replace_at buffer last (element key value) in
        let found : Found capacity buffer' =
          Found-replace_at capacity last buffer (element key value) sound.found lt
            (λ k. Place-opens buffer last key k place)
            (λ k v e. let same : key ≡ k = cc in rw (← same) probes) in
        let unique = Found-Unique capacity buffer' found in
        let yes_last : (last == last) ≡ true = ground arith in
        (
          found,
          λ k. elim (Bool-cases (equal key k)) [
            | inl same ↦ rw same (
                lookup-slot_at buffer' last k value unique (
                  slot_at-replace_at buffer last last (element key value) lt
                  ∙ rw yes_last (ap (λ c. element c value) ((equal_iff key k).0 same))))
            | inr other ↦ rw other (
                lookup-replace_at buffer last (element key value) k lt
                  (Found-Unique capacity buffer sound.found) unique
                  (λ v. Place-ne buffer last key k v place other)
                  (λ v h. let same : key ≡ k = cc in cc ((equal_iff key k).1 same)))
          ],
        )
