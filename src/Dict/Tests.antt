-- ===== src/Dict/Tests.antt =====
-- A table that loses its keys, and the operations of a table at a concrete map.
use leech.Base.{
  ℕ, zero, suc, false, List, [], ◌∷◌, some, none, if◌then◌else◌, codes, ◌≡◌, refl, Bytes, Result,
  ok, ◌>>=◌, or_abort,
}
use leech.Buffer.{equal}
use leech.Json.Fields.{listed}
use leech.Dict.{
  Dict, hash_key, dict_create, dict_set, dict_remove, dict_get, dict_has_key, dict_get_keys,
}
use leech.Dict.Steps.{keeps}
use leech.Dict.Refines.{Represents, dict_create-Represents, dict_refines}

hash_key-a : hash_key (codes "a") ≡ 177670
unfolding hash_key
hash_key-a = refl

-- As many keys, of one byte each
fill : ℕ → Dict ℕ → Result (Dict ℕ)
unfolding dict_set
fill zero dict = ok dict
fill (suc n) dict = do dict ← dict_set dict (n ∷ []) n; fill n dict

-- A table with 192 keys of which one is removed: the next key is then alone.
filled_up : Result (List Bytes)
unfolding fill dict_remove dict_get_keys
filled_up = do
  dict ← fill 192 dict_create
  (removed, dict) ← dict_remove dict (7 ∷ [])
  dict ← dict_set dict (codes "d") 4
  ok (dict_get_keys dict)

filled_up-alone : filled_up ≡ ok (codes "d" ∷ [])
unfolding filled_up equal dict_create hash_key
filled_up-alone = refl

dict_refines_example :
    (dict_has_key {V = ℕ} dict_create (codes "a") ≡ ok false)
    × (listed (dict_get_keys {V = ℕ} dict_create) (codes "a") ≡ false)
    × (dict_get {V = ℕ} dict_create (codes "a") ≡ or_abort none)
    × ((after : Dict ℕ) × (dict_remove {V = ℕ} dict_create (codes "a")
          ≡ (or_abort none >>= (λ removed. ok (removed, after))))
        × Represents after (λ k. if equal (codes "a") k then none else none))
    × ((after : Dict ℕ) × (dict_set dict_create (codes "a") 1 ≡ ok after)
        × Represents after (λ k.
          if equal (codes "a") k then some 1 else if keeps {V = ℕ} dict_create then none else none))
dict_refines_example = dict_refines dict_create (λ k. none) (codes "a") 1 dict_create-Represents
