-- ===== src/Json/Fields.antt =====
-- The laws of the entries of an object: what is found after a change, and that keys stay distinct.
use leech.Base.{
  suc, Bool, true, false, List, [], ◌∷◌, Option, none, some, if◌then◌else◌, ◌≡◌, inl, inr, refl,
  arith, Bytes, Bool-cases, ◌∙◌,
}
use leech.Buffer.{equal}
use leech.Buffer.Order.{equal_iff}
use leech.Json.Syntax.{
  Json, Fields, no_fields, field, get, has_key, set, remove, keys, size, Distinct,
}

abbrev pub is_some {ℓ} : {A : Type ℓ} → Option A → Bool
is_some none = false
is_some (some a) = true

-- A key stands in a list of keys.
abbrev pub listed : List Bytes → Bytes → Bool
listed [] key = false
listed (k ∷ ks) key = if equal k key then true else listed ks key

-- Each key stands once in the list.
abbrev pub Once : List Bytes → Type 0
Once [] = Unit
Once (k ∷ ks) = (listed ks k ≡ false) × Once ks

pub equal_refl : (k : Bytes) → equal k k ≡ true
equal_refl k = (equal_iff k k).1 refl

pub equal_sym : (k j : Bytes) → equal k j ≡ equal j k
equal_sym k j = ground (arith, equal_iff k j, equal_iff j k)

module _ {N : Type 0} where
  pub get-set :
      (fields : Fields N) (key j : Bytes) (value : Json N)
      → get (set fields key value) j ≡ (if equal key j then some value else get fields j)
  unfolding get set
  get-set no_fields key j value = refl
  get-set (field k v fields) key j value =
      ground (arith, get-set fields key j value, equal_iff k key, equal_iff k j, equal_iff key j)

  pub get-remove :
      (fields : Fields N) (key j : Bytes)
      → get (remove fields key) j ≡ (if equal key j then none else get fields j)
  unfolding get remove
  get-remove no_fields key j = ground arith
  get-remove (field k v fields) key j =
      ground (arith, get-remove fields key j, equal_iff k key, equal_iff k j, equal_iff key j)

  pub has_key-get :
      (fields : Fields N) (key : Bytes) → has_key fields key ≡ is_some (get fields key)
  unfolding get has_key
  has_key-get no_fields key = refl
  has_key-get (field k v fields) key = ground (arith, has_key-get fields key)

  pub listed-keys :
      (fields : Fields N) (key : Bytes) → listed (keys fields) key ≡ has_key fields key
  unfolding keys has_key
  listed-keys no_fields key = refl
  listed-keys (field k v fields) key = ground (arith, listed-keys fields key)

  pub has_key-set :
      (fields : Fields N) (key j : Bytes) (value : Json N)
      → has_key (set fields key value) j ≡ (if equal key j then true else has_key fields j)
  has_key-set fields key j value = ground (
    arith,
    has_key-get (set fields key value) j,
    get-set fields key j value,
    has_key-get fields j,
  )

  pub has_key-remove :
      (fields : Fields N) (key j : Bytes)
      → has_key (remove fields key) j ≡ (if equal key j then false else has_key fields j)
  has_key-remove fields key j =
      ground
        (arith, has_key-get (remove fields key) j, get-remove fields key j, has_key-get fields j)

  pub keys-Once : (fields : Fields N) → Distinct fields → Once (keys fields)
  unfolding keys
  keys-Once no_fields d = tt
  keys-Once (field k v fields) d = (listed-keys fields k ∙ d.0, keys-Once fields d.1)

  pub set-Distinct :
      (fields : Fields N) (key : Bytes) (value : Json N)
      → Distinct fields
      → Distinct (set fields key value)
  unfolding set has_key
  set-Distinct no_fields key value d = (refl, tt)
  set-Distinct (field k v fields) key value d = elim (Bool-cases (equal k key)) [
    | inl same ↦ rw same d
    | inr other ↦ rw other (
      ground (arith, has_key-set fields key k value, equal_sym k key),
      set-Distinct fields key value d.1,
    )
  ]

  pub remove-Distinct :
      (fields : Fields N) (key : Bytes) → Distinct fields → Distinct (remove fields key)
  unfolding remove
  remove-Distinct no_fields key d = tt
  remove-Distinct (field k v fields) key d = elim (Bool-cases (equal k key)) [
    | inl same ↦ rw same (remove-Distinct fields key d.1)
    | inr other ↦
        rw other (ground (arith, has_key-remove fields key k), remove-Distinct fields key d.1)
  ]

  -- The number of entries follows the change.
  pub size-set :
      (fields : Fields N) (key : Bytes) (value : Json N)
      → size (set fields key value)
        ≡ (if has_key fields key then size fields else suc (size fields))
  unfolding set size has_key
  size-set no_fields key value = refl
  size-set (field k v fields) key value = ground (arith, size-set fields key value)
