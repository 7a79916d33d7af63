-- ===== src/Dict/Steps.antt =====
-- lib/dict.c: what each operation does at the place that the search finds.
use leech.Base.{
  ℕ, ◌+◌, ◌*◌, ◌-◌, ◌≤◌, ◌<◌, Bool, true, false, ◌||◌, ltb, ap, List, [], ◌∷◌, if◌then◌else◌, ◌≡◌,
  refl, sym, ◌∙◌, arith, Bool-cases, inl, inr, Bytes, ok, aborted, Option, some, none, ◌>>=◌,
}
use leech.Buffer.{equal}
use leech.Buffer.Order.{equal_iff}
use leech.ListBuffer.{replace_at}
use leech.Json.Fields.{is_some}
use leech.Dict.{
  Slot, vacant, invalidated, element, Dict, slot_at, vacancies, compute_index, has_room, expands,
  dict_ensure_capacity, set_at, dict_remove, dict_has_key, dict_get,
}
use leech.Dict.Slots.{
  lookup, occupied, filled, total, Found-Unique, length-replace_at, total-replace_at, vacancies_lem,
}
use leech.Dict.Search.{Sound, compute_index_lem, put_lem}
use leech.Dict.Growth.{move_slots_lem, first_of-none}

module _ {V : Type 0} where
  -- Each element is found, and the counters bound what is in the array, in which a place is free.
  pub record IsValid (dict : Dict V) : Type 0 where
    pub is_sound : Sound dict.capacity dict.buffer
    pub counted : total filled dict.buffer ≤ dict.count
    pub in_use_counted : total occupied dict.buffer ≤ dict.in_use
    pub count_bounded : dict.count ≤ dict.in_use
    pub in_use_bounded : dict.in_use < dict.capacity
    pub some_capacity : 4 ≤ dict.capacity

  -- The array has room, or it grows.
  abbrev pub keeps : Dict V → Bool
  keeps dict = has_room dict || expands dict

  -- The map that the table stands for
  abbrev pub Represents : Dict V → (Bytes → Option V) → Type 0
  Represents dict map = IsValid dict × ((key : Bytes) → lookup dict.buffer key ≡ map key)

  -- The room for one more that `EnsureCapacity` leaves
  pub record HasRoom (dict : Dict V) : Type 0 where
    valid : IsValid dict
    room : dict.in_use + 1 < dict.capacity

  filled-le-occupied : (buffer : List (Slot V)) → total filled buffer ≤ total occupied buffer
  filled-le-occupied [] = omega arith
  filled-le-occupied (vacant ∷ buffer) = omega (arith, filled-le-occupied buffer)
  filled-le-occupied (invalidated ∷ buffer) = omega (arith, filled-le-occupied buffer)
  filled-le-occupied (element k v ∷ buffer) = omega (arith, filled-le-occupied buffer)

  pub vacancies-Sound : (capacity : ℕ) → 0 < capacity → Sound {V = V} capacity (vacancies capacity)
  vacancies-Sound capacity lt =
      let (len, o, f, at, look) = vacancies_lem {V = V} capacity in
      record {
        sized = sym len;
        free = omega (arith, o, lt);
        found = λ i key value e. let v = at i in cc;
      }

  module _ (dict : Dict V) where
    -- The array stays, grows with all its elements, or is emptied.
    pub dict_ensure_capacity_lem :
        IsValid dict
        → (after : Dict V) × (dict_ensure_capacity dict ≡ ok after)
          × HasRoom after
          × ((key : Bytes)
              → lookup after.buffer key ≡ (if keeps dict then lookup dict.buffer key else none))
    unfolding dict_ensure_capacity
    dict_ensure_capacity_lem valid =
        let sound = valid.is_sound in
        let f = valid.counted in
        let o = valid.in_use_counted in
        let c = valid.count_bounded in
        let u = valid.in_use_bounded in
        let big = valid.some_capacity in
        let free = sound.free in
        let le = filled-le-occupied dict.buffer in
        elim (Bool-cases (has_room dict)) [
          | inl e ↦ (
            dict,
            rw e refl,
            record { valid = valid; room = ground (arith, e, big) },
            λ key. rw e refl,
          )
          | inr e ↦ elim (Bool-cases (expands dict)) [
            | inl grows ↦
                let twice = dict.capacity * 2 in
                let (len, o', f', at, look) = vacancies_lem {V = V} twice in
                let (buffer, run, moved) =
                  move_slots_lem twice dict.buffer (vacancies twice)
                    (vacancies-Sound twice (omega (arith, big))) (omega (arith, o', le, free))
                    (Found-Unique dict.capacity dict.buffer sound.found) (λ key v h. look key) in
                let mo = moved.all_occupied in
                let mf = moved.all_filled in
                (
                  record dict { capacity = twice; in_use = dict.count; buffer = buffer },
                  rw e (rw grows (rw run refl)),
                  record {
                    valid = record {
                      is_sound = moved.is_sound;
                      counted = omega (arith, f, mf, f');
                      in_use_counted = omega (arith, f, mo, o');
                      count_bounded = omega arith;
                      in_use_bounded = omega (arith, c, u);
                      some_capacity = omega (arith, big);
                    };
                    room = omega (arith, c, u, big);
                  },
                  λ key.
                      moved.all_held key
                      ∙ rw e (rw grows (rw (look key) (first_of-none (lookup dict.buffer key)))),
                )
            | inr drops ↦
                let (len, o', f', at, look) = vacancies_lem {V = V} dict.capacity in
                (
                  record dict { in_use = dict.count; buffer = vacancies dict.capacity },
                  rw e (rw drops refl),
                  record {
                    valid = record {
                      is_sound = vacancies-Sound dict.capacity (omega (arith, big));
                      counted = omega (arith, f');
                      in_use_counted = omega (arith, o');
                      count_bounded = omega arith;
                      in_use_bounded = omega (arith, c, u);
                      some_capacity = big;
                    };
                    room = ground (arith, e, drops, c, u, big);
                  },
                  λ key. rw e (rw drops (look key)),
                )
          ]
        ]

    module _ (key : Bytes) (last : ℕ)
        (run : compute_index dict.buffer dict.capacity key ≡ ok last) where
      set_at-vacant :
          (value : V)
          → slot_at dict.buffer last ≡ vacant
          → set_at dict key value
            ≡ ok (record dict {
              count = dict.count + 1;
              in_use = dict.in_use + 1;
              buffer = replace_at dict.buffer last (element key value);
            })
      unfolding set_at
      set_at-vacant value at = rw (run, ◌>>=◌) (rw at refl)

      set_at-element :
          (value old : V)
          → slot_at dict.buffer last ≡ element key old
          → set_at dict key value
            ≡ ok (record dict { buffer = replace_at dict.buffer last (element key value) })
      unfolding set_at
      set_at-element value old at = rw (run, ◌>>=◌) (rw at (rw ((equal_iff key key).1 refl) refl))

      pub dict_remove-element :
          (value : V)
          → slot_at dict.buffer last ≡ element key value
          → 0 < dict.count
          → dict_remove dict key
            ≡ ok (
              value,
              record dict {
                count = dict.count - 1;
                buffer = replace_at dict.buffer last invalidated;
              },
            )
      unfolding dict_remove
      dict_remove-element value at lt =
          rw (run, ◌>>=◌)
            (rw at (
              rw ((equal_iff key key).1 refl)
                (let pos : ltb 0 dict.count ≡ true = ground arith in rw pos refl)))

      pub reads-vacant :
          slot_at dict.buffer last ≡ vacant
          → (dict_has_key dict key ≡ ok false)
            × (dict_get dict key ≡ aborted)
            × (dict_remove dict key ≡ aborted)
      unfolding dict_has_key dict_get dict_remove
      reads-vacant at =
          (rw (run, ◌>>=◌) (rw at refl), rw (run, ◌>>=◌) (rw at refl), rw (run, ◌>>=◌) (rw at refl))

      pub reads-element :
          (value : V)
          → slot_at dict.buffer last ≡ element key value
          → (dict_has_key dict key ≡ ok true) × (dict_get dict key ≡ ok value)
      unfolding dict_has_key dict_get
      reads-element value at = (rw (run, ◌>>=◌) (rw at refl), rw (run, ◌>>=◌) (rw at refl))

    module _ (key : Bytes) (value : V) where
      -- What `LCH_DictSet` does behind `EnsureCapacity`
      pub set_at_lem :
          HasRoom dict
          → (after : Dict V) × (set_at dict key value ≡ ok after)
            × IsValid after
            × ((k : Bytes)
                → lookup after.buffer k
                  ≡ (if equal key k then some value else lookup dict.buffer k))
            × (after.count
                ≡ (if is_some (lookup dict.buffer key) then dict.count else dict.count + 1))
      set_at_lem has_room =
          let valid = has_room.valid in
          let room = has_room.room in
          let sound = valid.is_sound in
          let sized = sound.sized in
          let free = sound.free in
          let f = valid.counted in
          let o = valid.in_use_counted in
          let c = valid.count_bounded in
          let u = valid.in_use_bounded in
          let big = valid.some_capacity in
          let (last, run, lt, probes, place) =
            compute_index_lem dict.capacity dict.buffer key sound in
          let buffer = replace_at dict.buffer last (element key value) in
          let len = length-replace_at dict.buffer last (element key value) in
          let f' = total-replace_at filled dict.buffer last (element key value) lt in
          let o' = total-replace_at occupied dict.buffer last (element key value) lt in
          elim place [
            | inl (at, missing) ↦
                let (found, held) =
                  put_lem dict.capacity dict.buffer key sound last value lt probes (inl at) in
                (
                  record dict { count = dict.count + 1; in_use = dict.in_use + 1; buffer = buffer },
                  set_at-vacant key last run value at,
                  record {
                    is_sound = record {
                      sized = sized ∙ sym len;
                      free = omega (arith, o, o', room);
                      found = found;
                    };
                    counted = omega (arith, f, f', ap filled at);
                    in_use_counted = omega (arith, o, o', ap occupied at);
                    count_bounded = omega (arith, c);
                    in_use_bounded = omega (arith, u, room);
                    some_capacity = big;
                  },
                  held,
                  rw missing refl,
                )
            | inr (old, at, is) ↦
                let (found, held) =
                  put_lem dict.capacity dict.buffer key sound last value lt probes
                    (inr (old, at)) in
                (
                  record dict { buffer = buffer },
                  set_at-element key last run value old at,
                  record {
                    is_sound = record {
                      sized = sized ∙ sym len;
                      free = omega (arith, o', free, ap occupied at);
                      found = found;
                    };
                    counted = omega (arith, f, f', ap filled at);
                    in_use_counted = omega (arith, o, o', ap occupied at);
                    count_bounded = omega (arith, c);
                    in_use_bounded = omega (arith, u, room);
                    some_capacity = big;
                  },
                  held,
                  rw is refl,
                )
          ]
