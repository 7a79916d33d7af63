-- ===== src/Dict/Slots.antt =====
-- lib/dict.c: the elements of the array, and what is stored under a key.
use leech.Base.{
  ℕ, zero, suc, ◌+◌, ◌%◌, ◌<◌, true, false, ◌==◌, ◌≢◌, ap, List, [], ◌∷◌, if◌then◌else◌, length,
  ◌≡◌, refl, arith, Bool-cases, inl, inr, Bytes, Option, some, none, Option-cases,
}
use leech.Buffer.{equal}
use leech.Buffer.Order.{equal_iff}
use leech.ListBuffer.{replace_at}
use leech.Dict.{Slot, vacant, invalidated, element, slot_at, stops, vacancies, hash_key}
use leech.Dict.Probing.{Probes, Probes-unique, Probes-change, stops_at}

module _ {V : Type 0} where
  -- What the first element with a key holds
  unfoldable pub lookup : List (Slot V) → Bytes → Option V
  lookup [] key = none
  lookup (vacant ∷ buffer) key = lookup buffer key
  lookup (invalidated ∷ buffer) key = lookup buffer key
  lookup (element k value ∷ buffer) key = if equal k key then some value else lookup buffer key

  -- The places that are not NULL, and those with an element
  abbrev pub occupied : Slot V → ℕ
  occupied vacant = 0
  occupied invalidated = 1
  occupied (element k value) = 1

  abbrev pub filled : Slot V → ℕ
  filled vacant = 0
  filled invalidated = 0
  filled (element k value) = 1

  abbrev pub total : (Slot V → ℕ) → List (Slot V) → ℕ
  total f [] = 0
  total f (slot ∷ buffer) = f slot + total f buffer

  -- No two elements have the same key.
  abbrev pub Unique : List (Slot V) → Type 0
  Unique buffer =
      (i j : ℕ) (key : Bytes) (v w : V)
      → slot_at buffer i ≡ element key v
      → slot_at buffer j ≡ element key w
      → i ≡ j

  -- Each element is where the search for its key ends.
  abbrev pub Found : ℕ → List (Slot V) → Type 0
  Found capacity buffer =
      (i : ℕ) (key : Bytes) (value : V)
      → slot_at buffer i ≡ element key value
      → Probes capacity (stops_at buffer capacity key) (hash_key key % capacity) i

  pub Found-Unique : (capacity : ℕ) (buffer : List (Slot V)) → Found capacity buffer → Unique buffer
  Found-Unique capacity buffer found i j key v w e e' =
      Probes-unique (found i key v e) (found j key w e')

  -- An element with the key that stands somewhere
  pub lookup-some :
      (buffer : List (Slot V)) (key : Bytes) (value : V)
      → lookup buffer key ≡ some value
      → (i : ℕ) × (slot_at buffer i ≡ element key value)
  unfolding lookup
  lookup-some [] key value e = cc
  lookup-some (vacant ∷ buffer) key value e =
      let (i, at) = lookup-some buffer key value e in (suc i, at)
  lookup-some (invalidated ∷ buffer) key value e =
      let (i, at) = lookup-some buffer key value e in (suc i, at)
  lookup-some (element k v ∷ buffer) key value e = elim (Bool-cases (equal k key)) [
    | inl same ↦ let is_key = (equal_iff k key).0 same in (0, ground (arith, is_key, same, e))
    | inr other ↦ let (i, at) = lookup-some buffer key value (rw other at e) in (suc i, at)
  ]

  lookup-ne_none :
      (buffer : List (Slot V)) (i : ℕ) (key : Bytes) (value : V)
      → slot_at buffer i ≡ element key value
      → lookup buffer key ≢ none
  unfolding lookup
  lookup-ne_none [] i key value e h = cc
  lookup-ne_none (vacant ∷ buffer) zero key value e h = cc
  lookup-ne_none (invalidated ∷ buffer) zero key value e h = cc
  lookup-ne_none (element k v ∷ buffer) zero key value e h =
      let same : equal k key ≡ true = (equal_iff k key).1 (cc) in ground (arith, same, h)
  lookup-ne_none (vacant ∷ buffer) (suc i) key value e h = lookup-ne_none buffer i key value e h
  lookup-ne_none (invalidated ∷ buffer) (suc i) key value e h =
      lookup-ne_none buffer i key value e h
  lookup-ne_none (element k v ∷ buffer) (suc i) key value e h =
      ground (arith, lookup-ne_none buffer i key value e)

  pub lookup-slot_at :
      (buffer : List (Slot V)) (i : ℕ) (key : Bytes) (value : V)
      → Unique buffer
      → slot_at buffer i ≡ element key value
      → lookup buffer key ≡ some value
  lookup-slot_at buffer i key value unique e = elim (Option-cases (lookup buffer key)) [
    | inl missing ↦ absurd (lookup-ne_none buffer i key value e missing)
    | inr (other, found) ↦
        let (j, at) = lookup-some buffer key other found in
        let same = unique j i key other value at e in rw found (cc (ap (slot_at buffer) same))
  ]

  pub slot_at-replace_at :
      (buffer : List (Slot V)) (i j : ℕ) (slot : Slot V)
      → i < length buffer
      → slot_at (replace_at buffer i slot) j ≡ (if j == i then slot else slot_at buffer j)
  slot_at-replace_at [] i j slot lt = absurd (omega arith)
  slot_at-replace_at (old ∷ buffer) zero zero slot lt = refl
  slot_at-replace_at (old ∷ buffer) zero (suc j) slot lt =
      let ne : (suc j == 0) ≡ false = ground arith in rw ne refl
  slot_at-replace_at (old ∷ buffer) (suc i) zero slot lt =
      let ne : (0 == suc i) ≡ false = ground arith in rw ne refl
  slot_at-replace_at (old ∷ buffer) (suc i) (suc j) slot lt =
      let same : (suc j == suc i) ≡ (j == i) = ground arith in
      rw same (slot_at-replace_at buffer i j slot (omega (arith, lt)))

  pub length-replace_at :
      (buffer : List (Slot V)) (i : ℕ) (slot : Slot V)
      → length (replace_at buffer i slot) ≡ length buffer
  length-replace_at [] i slot = refl
  length-replace_at (old ∷ buffer) zero slot = refl
  length-replace_at (old ∷ buffer) (suc i) slot = omega (arith, length-replace_at buffer i slot)

  -- Where not all places are used, one is free.
  pub free_place :
      (buffer : List (Slot V))
      → total occupied buffer < length buffer
      → (i : ℕ) × (i < length buffer) × (slot_at buffer i ≡ vacant)
  free_place [] lt = absurd (omega arith)
  free_place (vacant ∷ buffer) lt = (0, omega arith, refl)
  free_place (invalidated ∷ buffer) lt =
      let (i, lt', e) = free_place buffer (omega arith) in (suc i, omega arith, e)
  free_place (element k v ∷ buffer) lt =
      let (i, lt', e) = free_place buffer (omega arith) in (suc i, omega arith, e)

  pub total-replace_at :
      (f : Slot V → ℕ) (buffer : List (Slot V)) (i : ℕ) (slot : Slot V)
      → i < length buffer
      → total f (replace_at buffer i slot) + f (slot_at buffer i) ≡ total f buffer + f slot
  total-replace_at f [] i slot lt = absurd (omega arith)
  total-replace_at f (old ∷ buffer) zero slot lt = omega arith
  total-replace_at f (old ∷ buffer) (suc i) slot lt =
      omega (arith, total-replace_at f buffer i slot (omega (arith, lt)))

  pub vacancies_lem :
      (n : ℕ)
      → (length (vacancies {V = V} n) ≡ n)
        × (total occupied (vacancies {V = V} n) ≡ 0)
        × (total filled (vacancies {V = V} n) ≡ 0)
        × ((i : ℕ) → slot_at (vacancies {V = V} n) i ≡ vacant)
        × ((key : Bytes) → lookup (vacancies {V = V} n) key ≡ none)
  unfolding lookup
  vacancies_lem zero = (refl, refl, refl, λ i. refl, λ key. refl)
  vacancies_lem (suc n) =
      let (len, o, f, at, look) = vacancies_lem n in
      (
        omega (arith, len),
        omega (arith, o),
        omega (arith, f),
        (λ i. elim i as (λ k. slot_at (vacancies {V = V} (suc n)) k ≡ vacant) [
          | zero ↦ refl
          | suc j ↦ at j
        ]),
        look,
      )

  -- One place is changed so that no search is cut off, and a new element stands where the search for
  -- its key ends.
  pub Found-replace_at :
      (capacity i : ℕ) (buffer : List (Slot V)) (slot : Slot V)
      → Found capacity buffer
      → i < length buffer
      → ((key : Bytes) → stops key (slot_at buffer i) ≡ false → stops key slot ≡ false)
      → ((key : Bytes) (value : V)
          → slot ≡ element key value
          → Probes capacity (stops_at buffer capacity key) (hash_key key % capacity) i)
      → Found capacity (replace_at buffer i slot)
  Found-replace_at capacity i buffer slot found lt open_to ends j key value e =
      let passes : (x : ℕ)
          → stops key (slot_at buffer x) ≡ false
          → stops key (slot_at (replace_at buffer i slot) x) ≡ false =
        λ x h. rw (slot_at-replace_at buffer i x slot lt) (elim (Bool-cases (x == i)) [
          | inl same ↦ rw same (open_to key (let is : x ≡ i = ground (arith, same) in rw (← is) h))
          | inr other ↦ rw other h
        ]) in
      let ends' : stops key (slot_at (replace_at buffer i slot) j) ≡ true =
        rw e ((equal_iff key key).1 refl) in
      let e' = rw (slot_at-replace_at buffer i j slot lt) at e in
      elim (Bool-cases (j == i)) [
        | inl same ↦
            let is : j ≡ i = ground (arith, same) in
            Probes-change passes ends' (rw is (ends key value (rw same at e')))
        | inr other ↦ Probes-change passes ends' (found j key value (rw other at e'))
      ]

  pub lookup-eq :
      (buffer : List (Slot V)) (key : Bytes) (r : Option V)
      → Unique buffer
      → ((value : V) → r ≡ some value → (i : ℕ) × (slot_at buffer i ≡ element key value))
      → ((i : ℕ) (value : V) → slot_at buffer i ≡ element key value → r ≡ some value)
      → lookup buffer key ≡ r
  lookup-eq buffer key (some value) unique there only =
      let (i, at) = there value refl in lookup-slot_at buffer i key value unique at
  lookup-eq buffer key none unique there only = elim (Option-cases (lookup buffer key)) [
    | inl missing ↦ missing
    | inr (value, found) ↦ let (i, at) = lookup-some buffer key value found in cc (only i value at)
  ]
