-- ===== src/Json/SetMinusLaws.antt =====
-- The differences of two objects, by what is found in the result.
use leech.Base.{
  Bool, true, not, ◌&&◌, List, [], ◌∷◌, Option, none, some, if◌then◌else◌, ◌≡◌, refl, arith, Bytes,
  ok, Bool-cases, inl, inr, Option-cases, ◌∙◌, sym,
}
use leech.Buffer.{equal}
use leech.Buffer.Order.{equal_iff}
use leech.Json.Syntax.{Json, Fields, no_fields, field, get, has_key, set, keys, Distinct}
use leech.Json.Fields.{is_some, listed, equal_refl, get-set, has_key-get, listed-keys, set-Distinct}
use leech.Json.Equal.{copy, json_equal, is_string}
use leech.Json.EqualLaws.{copy-is_string}
use leech.Json.SetMinus.{minus_loop, keys_minus, changed_loop, changed_values}

-- Every value is a string, as in the state of a table.
abbrev pub Strings : {N : Type 0} → Fields N → Type 0
Strings {N} fields = (k : Bytes) (v : Json N) → get fields k ≡ some v → is_string v ≡ true

abbrev pub all_strings : {N : Type 0} → Fields N → Bool
all_strings no_fields = true
all_strings (field k v fields) = is_string v && all_strings fields

pub all_strings-Strings :
    {N : Type 0} (fields : Fields N) → all_strings fields ≡ true → Strings fields
unfolding get
all_strings-Strings no_fields h k v e = cc
all_strings-Strings (field j w fields) h k v e = elim (Bool-cases (equal j k)) [
  | inl same ↦ ground arith
  | inr other ↦ all_strings-Strings fields (ground arith) k v (rw other at e)
]

module _ {N : Type 0} (test : Bytes → Bool) (left : Fields N) where
  -- The loops with no failing step: the entries of `left` at the keys that pass the test
  picked : Fields N → List Bytes → Fields N
  picked result [] = result
  picked result (key ∷ rest) =
      picked
        (if test key
          then elim (get left key) [ none ↦ result | some v ↦ set result key v ]
          else result)
        rest

  picked-get :
      (ks : List Bytes) (result : Fields N) (j : Bytes)
      → get (picked result ks) j ≡ (
          if listed ks j
          then (if test j
              then elim (get left j) [ none ↦ get result j | some v ↦ some v ]
              else get result j)
          else get result j)
  unfolding picked
  picked-get [] result j = refl
  picked-get (key ∷ rest) result j = elim (Bool-cases (test key)) [
    | inl t ↦ elim (Option-cases (get left key)) [
      | inl e ↦ rw (t, e) (ground (arith, picked-get rest result j, equal_iff key j))
      | inr (v, e) ↦
          rw (t, e)
            (ground (
              arith,
              picked-get rest (set result key v) j,
              get-set result key j v,
              equal_iff key j,
            ))
    ]
    | inr t ↦ rw t (ground (arith, picked-get rest result j, equal_iff key j))
  ]

  picked-Distinct :
      (ks : List Bytes) (result : Fields N) → Distinct result → Distinct (picked result ks)
  unfolding picked
  picked-Distinct [] result d = d
  picked-Distinct (key ∷ rest) result d = elim (Bool-cases (test key)) [
    | inl t ↦ elim (Option-cases (get left key)) [
      | inl e ↦ rw (t, e) (picked-Distinct rest result d)
      | inr (v, e) ↦
          rw (t, e) (picked-Distinct rest (set result key v) (set-Distinct result key v d))
    ]
    | inr t ↦ rw t (picked-Distinct rest result d)
  ]

-- A key that an object lists has a value there.
pub get_listed :
    {N : Type 0} (left : Fields N) (key : Bytes)
    → has_key left key ≡ true
    → (v : Json N) × (get left key ≡ some v)
get_listed left key h = ground (arith, has_key-get left key)

module _ {N : Type 0} (left right : Fields N) (strings : Strings left) where
  absent : Bytes → Bool
  absent k = not (has_key right k)

  minus_loop-picked :
      (ks : List Bytes) (result : Fields N)
      → ((k : Bytes) → listed ks k ≡ true → has_key left k ≡ true)
      → minus_loop left right result ks ≡ ok (picked absent left result ks)
  unfolding minus_loop picked absent
  minus_loop-picked [] result within = refl
  minus_loop-picked (key ∷ rest) result within =
      let (v, e) = get_listed left key (within key (rw equal_refl)) in
      let copied : copy v ≡ some v = copy-is_string v (strings key v e) in
      let within' : (k : Bytes) → listed rest k ≡ true → has_key left k ≡ true =
        λ k h. within k (ground (arith, h)) in
      ground (
        arith,
        e,
        copied,
        minus_loop-picked rest result within',
        minus_loop-picked rest (set result key v) within',
      )

  -- For a left object of strings, `LCH_JsonObjectKeysSetMinus` returns the entries whose keys the
  -- right object has not, each key once.
  pub keys_minus-get :
      (r : Fields N) × (keys_minus left right ≡ ok r)
      × Distinct r
      × ((j : Bytes) → get r j ≡ (if has_key right j then none else get left j))
  unfolding keys_minus absent get
  keys_minus-get = (
    picked absent left no_fields (keys left),
    minus_loop-picked (keys left) no_fields (λ k h. sym (listed-keys left k) ∙ h),
    picked-Distinct absent left (keys left) no_fields tt,
    λ j.
        picked-get absent left (keys left) no_fields j
        ∙ ground (arith, listed-keys left j, has_key-get left j),
  )

abbrev pub changed :
    {N : Type 0} → (N → N → Bool) → Option (Json N) → Option (Json N) → Option (Json N)
changed number_eq (some v) (some w) = if json_equal number_eq v w then none else some v
changed number_eq _ _ = none

module _ {N : Type 0} (number_eq : N → N → Bool) (left right : Fields N)
    (strings : Strings left) where
  differs : Bytes → Bool
  differs k = is_some (changed number_eq (get left k) (get right k))

  changed_loop-picked :
      (ks : List Bytes) (result : Fields N)
      → ((k : Bytes) → listed ks k ≡ true → has_key left k ≡ true)
      → changed_loop number_eq left right result ks ≡ ok (picked differs left result ks)
  unfolding changed_loop picked differs
  changed_loop-picked [] result within = refl
  changed_loop-picked (key ∷ rest) result within =
      let (v, e) = get_listed left key (within key (rw equal_refl)) in
      let copied : copy v ≡ some v = copy-is_string v (strings key v e) in
      let within' : (k : Bytes) → listed rest k ≡ true → has_key left k ≡ true =
        λ k h. within k (ground (arith, h)) in
      ground (
        arith,
        e,
        copied,
        has_key-get right key,
        changed_loop-picked rest result within',
        changed_loop-picked rest (set result key v) within',
      )

  -- For a left object of strings, `LCH_JsonObjectKeysSetIntersectAndValuesSetMinus` returns the
  -- entries whose keys the right object has with another value, each key once.
  pub changed_values-get :
      (r : Fields N) × (changed_values number_eq left right ≡ ok r)
      × Distinct r
      × ((j : Bytes) → get r j ≡ changed number_eq (get left j) (get right j))
  unfolding changed_values differs get
  changed_values-get = (
    picked differs left no_fields (keys left),
    changed_loop-picked (keys left) no_fields (λ k h. sym (listed-keys left k) ∙ h),
    picked-Distinct differs left (keys left) no_fields tt,
    λ j.
        picked-get differs left (keys left) no_fields j
        ∙ ground (arith, listed-keys left j, has_key-get left j),
  )
