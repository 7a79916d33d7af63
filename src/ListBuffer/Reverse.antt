-- ===== src/ListBuffer/Reverse.antt =====
-- lib/list.c: the reversal.
use leech.Base.{
  ℕ, zero, suc, ◌+◌, ◌-◌, ◌*◌, ◌/◌, ◌≤◌, ◌<◌, Bool, true, false, ◌&&◌, ◌||◌, List, [], ◌∷◌, some,
  ltb, leb, ◌==◌, length, if◌then◌else◌, ◌≡◌, refl, sym, ap, ◌∙◌, arith, Bool-cases, inl, inr, ok,
}
use leech.ListBuffer.{ListBuffer, element_at, replace_at, swap, reverse_loop, list_reverse}

-- The indices that the loop has gone over from `i` on, from both ends
abbrev turned : ℕ → ℕ → ℕ → ℕ → Bool
turned n i k j = (leb i j && ltb j k) || (leb (n - k) j && ltb j (n - i))

-- The elements after `Swap`
abbrev exchanged {ℓ} : {B : Type ℓ} → (ℕ → B) → ℕ → ℕ → ℕ → B
exchanged e a b j = if j == b then e a else if j == a then e b else e j

-- One turn exchanges the ends of what is left, and the rest follows.
turned-step {ℓ} :
    {B : Type ℓ} (e : ℕ → B) (n i turns j : ℕ)
    → 2 * (i + suc turns) ≤ n
    → j < n
    → (if turned n (suc i) (suc i + turns) j
        then exchanged e i ((n - 1) - i) ((n - 1) - j)
        else exchanged e i ((n - 1) - i) j)
      ≡ (if turned n i (i + suc turns) j then e ((n - 1) - j) else e j)
turned-step e n i turns j le lt = elim (Bool-cases (j == i)) [
  | inl first ↦
      let j-is : j ≡ i = ground (arith, first) in
      let before : turned n (suc i) (suc i + turns) j ≡ false = ground (arith, first) in
      let now : turned n i (i + suc turns) j ≡ true = ground (arith, first) in
      let not_end : (j == (n - 1) - i) ≡ false = ground (arith, first) in
      rw before (rw now (rw not_end (rw first (ap (λ k. e ((n - 1) - k)) (sym j-is)))))
  | inr not_first ↦ elim (Bool-cases (j == (n - 1) - i)) [
    | inl last ↦
        let before : turned n (suc i) (suc i + turns) j ≡ false = ground (arith, last, not_first) in
        let now : turned n i (i + suc turns) j ≡ true = ground (arith, last) in
        let j-is : i ≡ (n - 1) - j = ground (arith, last) in
        rw before (rw now (rw last (ap e j-is)))
    | inr not_last ↦
        let same : turned n (suc i) (suc i + turns) j ≡ turned n i (i + suc turns) j =
          ground (arith, not_first, not_last) in
        let a : ((n - 1) - j == (n - 1) - i) ≡ false = ground (arith, not_first) in
        let b : ((n - 1) - j == i) ≡ false = ground (arith, not_last) in
        rw same (rw a (rw b (rw not_last (rw not_first refl))))
  ]
]

-- The element in the middle stays.
middle {ℓ} :
    {B : Type ℓ} (at : ℕ → B) (n j : ℕ)
    → j < n
    → (if turned n 0 (0 + n / 2) j then at ((n - 1) - j) else at j) ≡ at ((n - 1) - j)
middle at n j lt = elim (Bool-cases (turned n 0 (0 + n / 2) j)) [
  | inl e ↦ rw e refl
  | inr e ↦ let j-is : j ≡ (n - 1) - j = ground (arith, e) in rw e (ap at j-is)
]

module _ {ℓ} {A : Type ℓ} where
  length-replace_at :
      (list : List A) (index : ℕ) (value : A) → length (replace_at list index value) ≡ length list
  length-replace_at [] index value = refl
  length-replace_at (old ∷ list) zero value = refl
  length-replace_at (old ∷ list) (suc index) value =
      omega (arith, length-replace_at list index value)

  element_at-lt :
      (list : List A) (index : ℕ) → index < length list → (a : A) × (element_at list index ≡ some a)
  element_at-lt [] index lt = ground arith
  element_at-lt (old ∷ list) zero lt = (old, refl)
  element_at-lt (old ∷ list) (suc index) lt = element_at-lt list index (omega (arith, lt))

  element_at-replace_at :
      (list : List A) (index j : ℕ) (value : A)
      → index < length list
      → element_at (replace_at list index value) j
        ≡ (if j == index then some value else element_at list j)
  element_at-replace_at [] index j value lt = ground arith
  element_at-replace_at (old ∷ list) zero zero value lt = refl
  element_at-replace_at (old ∷ list) zero (suc j) value lt =
      let ne : (suc j == 0) ≡ false = ground arith in rw ne refl
  element_at-replace_at (old ∷ list) (suc index) zero value lt =
      let ne : (0 == suc index) ≡ false = ground arith in rw ne refl
  element_at-replace_at (old ∷ list) (suc index) (suc j) value lt =
      let same : (suc j == suc index) ≡ (j == index) = ground arith in
      rw same (element_at-replace_at list index j value (omega (arith, lt)))

  swap_lem :
      (list : List A) (a b : ℕ)
      → a < length list
      → b < length list
      → (after : List A) × (swap list a b ≡ ok after)
        × (length after ≡ length list)
        × ((j : ℕ)
            → element_at after j ≡ (
                if j == b
                then element_at list a
                else if j == a
                then element_at list b
                else element_at list j))
  unfolding swap
  swap_lem list a b lta ltb =
      let (at_a, is_a) = element_at-lt list a lta in
      let (at_b, is_b) = element_at-lt list b ltb in
      let between = replace_at list a at_b in
      let lt' : b < length between = omega (arith, ltb, length-replace_at list a at_b) in
      (
        replace_at between b at_a,
        rw is_a (rw is_b refl),
        length-replace_at between b at_a ∙ length-replace_at list a at_b,
        λ j.
            element_at-replace_at between b j at_a lt'
            ∙ rw is_a (rw is_b (rw (element_at-replace_at list a j at_b lta) refl)),
      )

  reverse_loop_lem :
      (turns i : ℕ) (list : List A)
      → 2 * (i + turns) ≤ length list
      → (after : List A) × (reverse_loop turns i list ≡ ok after)
        × (length after ≡ length list)
        × ((j : ℕ)
            → j < length list
            → element_at after j ≡ (
                if turned (length list) i (i + turns) j
                then element_at list ((length list - 1) - j)
                else element_at list j))
  unfolding reverse_loop
  reverse_loop_lem zero i list le = (
    list,
    refl,
    refl,
    λ j lt. let no : turned (length list) i (i + 0) j ≡ false = ground arith in rw no refl,
  )
  reverse_loop_lem (suc turns) i list le =
      let n = length list in
      let m = (n - 1) - i in
      let (between, run, len, at) = swap_lem list i m (omega (arith, le)) (omega (arith, le)) in
      let (after, run', len', at') =
        reverse_loop_lem turns (suc i) between (omega (arith, le, len)) in
      (
        after,
        rw run run',
        len' ∙ len,
        λ j lt.
            at' j (omega (arith, lt, len))
            ∙ rw len (
                rw (at ((n - 1) - j))
                  (rw (at j) (turned-step (element_at list) n i turns j le lt))),
      )

  -- `LCH_ListReverse` succeeds, and the element at each index is then that at the same distance from the
  -- end before. The length and the capacity stay.
  pub list_reverse_lem :
      (list : ListBuffer A)
      → (after : ListBuffer A) × (list_reverse list ≡ ok after)
        × (length after.elements ≡ length list.elements)
        × (after.capacity ≡ list.capacity)
        × ((j : ℕ)
            → j < length list.elements
            → element_at after.elements j
              ≡ element_at list.elements ((length list.elements - 1) - j))
  unfolding list_reverse
  list_reverse_lem list =
      let n = length list.elements in
      let (after, run, len, at) = reverse_loop_lem (n / 2) 0 list.elements (omega arith) in
      (
        record list { elements = after },
        rw run refl,
        len,
        refl,
        λ j lt. at j lt ∙ middle (element_at list.elements) n j lt,
      )
