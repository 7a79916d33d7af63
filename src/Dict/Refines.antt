-- ===== src/Dict/Refines.antt =====
-- lib/dict.c: the hash table as a map from keys to values.
use leech.Base.{
  ◌-◌, ◌<◌, ◌==◌, ap, List, [], ◌∷◌, if◌then◌else◌, ◌≡◌, refl, sym, ◌∙◌, arith, Bool-cases, inl,
  inr, Bytes, ok, Option, some, none, ◌>>=◌, or_abort,
}
use leech.Buffer.{equal}
use leech.Buffer.Order.{equal_iff}
use leech.ListBuffer.{replace_at}
use leech.Json.Fields.{is_some, listed}
use leech.Dict.{
  Slot, vacant, invalidated, element, Dict, dict_create, dict_capacity, set_at, dict_set,
  dict_remove, dict_has_key, dict_get, dict_get_keys, slot_keys,
}
use leech.Dict.Slots.{
  lookup, occupied, filled, Found, Found-Unique, length-replace_at, total-replace_at, vacancies_lem,
  slot_at-replace_at, Found-replace_at, lookup-eq,
}
use leech.Dict.Search.{compute_index_lem, lookup-replace_at}
use leech.Dict.Steps.{
  IsValid, keeps, vacancies-Sound, dict_ensure_capacity_lem, set_at_lem, dict_remove-element,
  reads-vacant, reads-element,
}

module _ {V : Type 0} where
  -- The map that the table stands for
  abbrev pub Represents : Dict V → (Bytes → Option V) → Type 0
  Represents dict map = IsValid dict × ((key : Bytes) → lookup dict.buffer key ≡ map key)

  -- `LCH_DictCreate` makes a table of nothing.
  pub dict_create-Represents : Represents dict_create (λ key. none)
  unfolding dict_create
  dict_create-Represents =
      let (len, o, f, at, look) = vacancies_lem {V = V} dict_capacity in
      (
        record {
          is_sound = vacancies-Sound dict_capacity (omega arith);
          counted = omega (arith, f);
          in_use_counted = omega (arith, o);
          count_bounded = omega arith;
          in_use_bounded = omega arith;
          some_capacity = omega arith;
        },
        look,
      )

  module _ (dict : Dict V) (key : Bytes) (valid : IsValid dict) where
    dict_remove_lem :
        (after : Dict V) × (dict_remove dict key
          ≡ (or_abort (lookup dict.buffer key) >>= (λ value. ok (value, after))))
        × IsValid after
        × ((k : Bytes)
            → lookup after.buffer k ≡ (if equal key k then none else lookup dict.buffer k))
    dict_remove_lem =
        let sound = valid.is_sound in
        let sized = sound.sized in
        let free = sound.free in
        let counted = valid.counted in
        let in_use = valid.in_use_counted in
        let (last, run, lt, probes, place) =
          compute_index_lem dict.capacity dict.buffer key sound in
        let buffer = replace_at dict.buffer last invalidated in
        let len = length-replace_at dict.buffer last invalidated in
        let f = total-replace_at filled dict.buffer last invalidated lt in
        let o = total-replace_at occupied dict.buffer last invalidated lt in
        elim place [
          | inl (at, missing) ↦ (
            dict,
            (reads-vacant dict key last run at).2 ∙ rw missing refl,
            valid,
            λ k. elim (Bool-cases (equal key k)) [
              | inl same ↦ rw same (rw (← ((equal_iff key k).0 same)) missing)
              | inr other ↦ rw other refl
            ],
          )
          | inr (value, at, held) ↦
              let found : Found dict.capacity buffer =
                Found-replace_at dict.capacity last dict.buffer invalidated sound.found lt
                  (λ k h. refl) (λ k v e. cc) in
              let unique = Found-Unique dict.capacity dict.buffer sound.found in
              let unique' = Found-Unique dict.capacity buffer found in
              let pos : 0 < dict.count = omega (arith, counted, f, ap filled at) in
              let c = valid.count_bounded in
              let u = valid.in_use_bounded in
              (
                record dict { count = dict.count - 1; buffer = buffer },
                dict_remove-element dict key last run value at pos ∙ rw held refl,
                record {
                  is_sound = record {
                    sized = sized ∙ sym len;
                    free = omega (arith, o, free, ap occupied at);
                    found = found;
                  };
                  counted = omega (arith, counted, f, ap filled at);
                  in_use_counted = omega (arith, in_use, o, ap occupied at);
                  count_bounded = omega (arith, c);
                  in_use_bounded = u;
                  some_capacity = valid.some_capacity;
                },
                λ k. elim (Bool-cases (equal key k)) [
                  | inl same ↦ rw same (
                      lookup-eq buffer k none unique' (λ v e. cc)
                        (λ j v e.
                          let is : key ≡ k = (equal_iff key k).0 same in
                          elim (Bool-cases (j == last)) [
                            | inl e' ↦
                                let h = rw e' at (
                                  rw (slot_at-replace_at dict.buffer last j invalidated lt) at e) in
                                cc
                            | inr e' ↦
                                let h = rw e' at (
                                  rw (slot_at-replace_at dict.buffer last j invalidated lt) at e) in
                                let j-is = unique j last key v value (rw (← is) at h) at in
                                absurd (ground (arith, j-is, e'))
                          ]))
                  | inr other ↦ rw other (
                      lookup-replace_at dict.buffer last invalidated k lt unique unique'
                        (λ v h. let same : key ≡ k = cc in cc ((equal_iff key k).1 same))
                        (λ v h. cc))
                ],
              )
        ]

    dict_set_lem :
        (value : V)
        → (after : Dict V) × (dict_set dict key value ≡ ok after)
          × IsValid after
          × ((k : Bytes)
              → lookup after.buffer k ≡ (
                  if equal key k
                  then some value
                  else if keeps dict
                  then lookup dict.buffer k
                  else none))
    unfolding dict_set
    dict_set_lem value =
        let (between, run, room, same) = dict_ensure_capacity_lem dict valid in
        let (after, run', valid', held, count) = set_at_lem between key value room in
        (
          after,
          ap (λ r. r >>= (λ d. set_at d key value)) run ∙ run',
          valid',
          λ k. rw (held k) (rw (same k) refl),
        )

  listed-slot_keys :
      (buffer : List (Slot V)) (key : Bytes)
      → listed (slot_keys buffer) key ≡ is_some (lookup buffer key)
  unfolding slot_keys lookup
  listed-slot_keys [] key = refl
  listed-slot_keys (vacant ∷ buffer) key = listed-slot_keys buffer key
  listed-slot_keys (invalidated ∷ buffer) key = listed-slot_keys buffer key
  listed-slot_keys (element k v ∷ buffer) key = ground (arith, listed-slot_keys buffer key)

  reads_lem :
      (dict : Dict V) (key : Bytes)
      → IsValid dict
      → (dict_has_key dict key ≡ ok (is_some (lookup dict.buffer key)))
        × (dict_get dict key ≡ or_abort (lookup dict.buffer key))
  reads_lem dict key valid =
      let (last, run, lt, probes, place) =
        compute_index_lem dict.capacity dict.buffer key valid.is_sound in
      elim place [
        | inl (at, missing) ↦
            let (has, gets, removes) = reads-vacant dict key last run at in rw missing (has, gets)
        | inr (value, at, held) ↦ rw held (reads-element dict key last run value at)
      ]

  -- If a table stands for a map, its operations are those of the map, and leave tables that stand for
  -- the maps that they make. `LCH_DictHasKey` and `LCH_DictGetKeys` tell the keys; `LCH_DictGet` and
  -- `LCH_DictRemove` return the value of a key, and run into an assertion where it has none;
  -- `LCH_DictRemove` takes the key out. `LCH_DictSet` succeeds and puts the value under the key, and
  -- the other keys stay, except where the array is full up to its load factor and an element
  -- has been removed from it: there, all other keys are gone.
  pub dict_refines :
      (dict : Dict V) (map : Bytes → Option V) (key : Bytes) (value : V)
      → Represents dict map
      → (dict_has_key dict key ≡ ok (is_some (map key)))
        × (listed (dict_get_keys dict) key ≡ is_some (map key))
        × (dict_get dict key ≡ or_abort (map key))
        × ((after : Dict V) × (dict_remove dict key
              ≡ (or_abort (map key) >>= (λ removed. ok (removed, after))))
            × Represents after (λ k. if equal key k then none else map k))
        × ((after : Dict V) × (dict_set dict key value ≡ ok after)
            × Represents after
                (λ k. if equal key k then some value else if keeps dict then map k else none))
  unfolding dict_get_keys
  dict_refines dict map key value (valid, stands) =
      let (has, gets) = reads_lem dict key valid in
      let (removed, run, valid', held) = dict_remove_lem dict key valid in
      let (after, run', valid'', held') = dict_set_lem dict key valid value in
      (
        rw (← (stands key)) has,
        rw (← (stands key)) (listed-slot_keys dict.buffer key),
        rw (← (stands key)) gets,
        (removed, rw (← (stands key)) run, (valid', λ k. rw (held k) (rw (stands k) refl))),
        (after, run', (valid'', λ k. rw (held' k) (rw (stands k) refl))),
      )
