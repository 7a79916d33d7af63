-- ===== src/Dict/Growth.antt =====
-- lib/dict.c: `EnsureCapacity`.
use leech.Base.{
  ℕ, suc, ◌+◌, ◌<◌, ap, List, [], ◌∷◌, if◌then◌else◌, ◌≡◌, refl, sym, ◌∙◌, arith, Bool-cases, inl,
  inr, Bytes, ok, Option, some, none, Option-cases, ◌>>=◌,
}
use leech.Buffer.{equal}
use leech.Buffer.Order.{equal_iff}
use leech.ListBuffer.{replace_at}
use leech.Dict.{Slot, vacant, invalidated, element, slot_at, compute_index, move_slot, move_slots}
use leech.Dict.Slots.{
  lookup, occupied, filled, total, Unique, lookup-some, length-replace_at, total-replace_at,
}
use leech.Dict.Search.{Sound, compute_index_lem, put_lem}

module _ {V : Type 0} where
  -- What the first holds, or else the second
  abbrev pub first_of : Option V → Option V → Option V
  first_of (some v) other = some v
  first_of none other = other

  pub first_of-none : (held : Option V) → first_of held none ≡ held
  first_of-none none = refl
  first_of-none (some v) = refl

  Unique-tail : (slot : Slot V) (buffer : List (Slot V)) → Unique (slot ∷ buffer) → Unique buffer
  Unique-tail slot buffer unique i j key v w e e' =
      omega (arith, unique (suc i) (suc j) key v w e e')

  missing_behind :
      (key : Bytes) (value : V) (buffer : List (Slot V))
      → Unique (element key value ∷ buffer)
      → lookup buffer key ≡ none
  missing_behind key value buffer unique = elim (Option-cases (lookup buffer key)) [
    | inl e ↦ e
    | inr (v, e) ↦
        let (i, at) = lookup-some buffer key v e in
        absurd (omega (arith, unique 0 (suc i) key value v refl at))
  ]

  -- Nothing stands in both arrays.
  abbrev pub Apart : List (Slot V) → List (Slot V) → Type 0
  Apart old new = (key : Bytes) (v : V) → lookup old key ≡ some v → lookup new key ≡ none

  -- An array that holds what both held
  pub record Moved (capacity : ℕ) (old new after : List (Slot V)) : Type 0 where
    pub is_sound : Sound capacity after
    pub all_occupied : total occupied after ≡ total filled old + total occupied new
    pub all_filled : total filled after ≡ total filled old + total filled new
    pub all_held : (key : Bytes) → lookup after key ≡ first_of (lookup old key) (lookup new key)

  moved_key :
      (key k : Bytes) (value : V) (old : List (Slot V)) (held : Option V)
      → Unique (element key value ∷ old)
      → first_of (lookup old k) (if equal key k then some value else held)
        ≡ first_of (lookup (element key value ∷ old) k) held
  unfolding lookup
  moved_key key k value old held unique = elim (Bool-cases (equal key k)) [
    | inl same ↦
        let gone = missing_behind key value old unique in
        rw same (rw (← ((equal_iff key k).0 same)) (rw gone refl))
    | inr other ↦ rw other refl
  ]

  Apart-tail :
      (key : Bytes) (value : V) (old new after : List (Slot V))
      → Unique (element key value ∷ old)
      → Apart (element key value ∷ old) new
      → ((k : Bytes) → lookup after k ≡ (if equal key k then some value else lookup new k))
      → Apart old after
  unfolding lookup
  Apart-tail key value old new after unique apart held k v e = elim (Bool-cases (equal key k)) [
    | inl same ↦
        let is = (equal_iff key k).0 same in
        cc (missing_behind key value old unique, ap (lookup old) is, e)
    | inr other ↦ held k ∙ rw other (apart k v (rw other e))
  ]

  move_slot-vacant :
      (capacity last : ℕ) (key : Bytes) (value : V) (new : List (Slot V))
      → compute_index new capacity key ≡ ok last
      → slot_at new last ≡ vacant
      → move_slot capacity (element key value) new ≡ ok (replace_at new last (element key value))
  unfolding move_slot
  move_slot-vacant capacity last key value new run at = rw (run, ◌>>=◌) (rw at refl)

  pub move_slots_lem :
      (capacity : ℕ) (old new : List (Slot V))
      → Sound capacity new
      → total filled old + total occupied new < capacity
      → Unique old
      → Apart old new
      → (after : List (Slot V)) × (move_slots capacity old new ≡ ok after)
        × Moved capacity old new after
  unfolding move_slots lookup
  move_slots_lem capacity [] new sound room unique apart = (
    new,
    refl,
    record {
      is_sound = sound;
      all_occupied = omega arith;
      all_filled = omega arith;
      all_held = λ key. refl;
    },
  )
  move_slots_lem capacity (vacant ∷ old) new sound room unique apart =
      let (after, run, moved) =
        move_slots_lem capacity old new sound (omega (arith, room)) (Unique-tail vacant old unique)
          apart in
      let mo = moved.all_occupied in
      let mf = moved.all_filled in
      (
        after,
        run,
        record {
          is_sound = moved.is_sound;
          all_occupied = omega (arith, mo);
          all_filled = omega (arith, mf);
          all_held = moved.all_held;
        },
      )
  move_slots_lem capacity (invalidated ∷ old) new sound room unique apart =
      let (after, run, moved) =
        move_slots_lem capacity old new sound (omega (arith, room))
          (Unique-tail invalidated old unique) apart in
      let mo = moved.all_occupied in
      let mf = moved.all_filled in
      (
        after,
        run,
        record {
          is_sound = moved.is_sound;
          all_occupied = omega (arith, mo);
          all_filled = omega (arith, mf);
          all_held = moved.all_held;
        },
      )
  move_slots_lem capacity (element key value ∷ old) new sound room unique apart =
      let here : lookup (element key value ∷ old) key ≡ some value =
        rw ((equal_iff key key).1 refl) refl in
      let gone = apart key value here in
      let (last, run, lt, probes, place) = compute_index_lem capacity new key sound in
      elim place [
        | inr (v, at, held) ↦ cc
        | inl (at, missing) ↦
            let between = replace_at new last (element key value) in
            let (found, held) = put_lem capacity new key sound last value lt probes (inl at) in
            let len = length-replace_at new last (element key value) in
            let o : total occupied between ≡ total occupied new + 1 =
              omega (
                arith,
                total-replace_at occupied new last (element key value) lt,
                ap occupied at,
              ) in
            let f : total filled between ≡ total filled new + 1 =
              omega
                (arith, total-replace_at filled new last (element key value) lt, ap filled at) in
            let sized = sound.sized in
            let sound' : Sound capacity between = record {
              sized = sized ∙ sym len;
              free = omega (arith, o, room);
              found = found;
            } in
            let (after, run', moved) =
              move_slots_lem capacity old between sound' (omega (arith, o, room))
                (Unique-tail (element key value) old unique)
                (Apart-tail key value old new between unique apart held) in
            let mo = moved.all_occupied in
            let mf = moved.all_filled in
            (
              after,
              ap (λ r. r >>= move_slots capacity old)
                    (move_slot-vacant capacity last key value new run at)
                  ∙ run',
              record {
                is_sound = moved.is_sound;
                all_occupied = omega (arith, mo, o);
                all_filled = omega (arith, mf, f);
                all_held = λ k.
                    moved.all_held k
                    ∙ rw (held k) (moved_key key k value old (lookup new k) unique);
              },
            )
      ]
