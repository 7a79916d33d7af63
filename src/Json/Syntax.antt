-- ===== src/Json/Syntax.antt =====
-- lib/json.c: the values, and the operations on the entries of an object. `N` stands for `double`.
use leech.Base.{
  ℕ, suc, ◌≡◌, Bool, true, false, List, [], ◌∷◌, Option, none, some, if◌then◌else◌, Bytes,
}
use leech.Buffer.{equal}

-- `LCH_Json`, by its `type`. `Items` is the list of an array. `Fields` holds the entries of an
-- object, which lib/dict.c keeps in a hash table: here they stand in the order of their insertion.
mutual
  pub data Json (N : Type 0) : Type 0 where
    null true_value false_value : Json N
    string : Bytes → Json N
    number : N → Json N
    array : Items N → Json N
    object : Fields N → Json N

  pub data Items (N : Type 0) : Type 0 where
    no_items : Items N
    item : Json N → Items N → Items N

  pub data Fields (N : Type 0) : Type 0 where
    no_fields : Fields N
    field : Bytes → Json N → Fields N → Fields N

module _ {N : Type 0} where
  -- `LCH_DictGet`, or no value where `LCH_DictHasKey` is false
  unfoldable pub get : Fields N → Bytes → Option (Json N)
  get no_fields key = none
  get (field k v fields) key = if equal k key then some v else get fields key

  -- `LCH_JsonObjectHasKey`, by `LCH_DictHasKey`
  unfoldable pub has_key : Fields N → Bytes → Bool
  has_key no_fields key = false
  has_key (field k v fields) key = if equal k key then true else has_key fields key

  -- `LCH_JsonObjectSet`, by `LCH_DictSet` on an object from which no entry has been removed: the value of an
  -- entry is replaced, or an entry is added. Json.Dictionary has `LCH_DictSet` behind removals.
  unfoldable pub set : Fields N → Bytes → Json N → Fields N
  set no_fields key value = field key value no_fields
  set (field k v fields) key value =
      if equal k key then field k value fields else field k v (set fields key value)

  -- `LCH_JsonObjectRemove`, by `LCH_DictRemove`, where the object has the key
  unfoldable pub remove : Fields N → Bytes → Fields N
  remove no_fields key = no_fields
  remove (field k v fields) key =
      let rest = remove fields key in if equal k key then rest else field k v rest

  -- `LCH_JsonObjectGetKeys`, by `LCH_DictGetKeys`
  unfoldable pub keys : Fields N → List Bytes
  keys no_fields = []
  keys (field k v fields) = k ∷ keys fields

  -- `LCH_JsonObjectLength`, by `LCH_DictLength`
  unfoldable pub size : Fields N → ℕ
  size no_fields = 0
  size (field k v fields) = suc (size fields)

  -- Each key stands once, as in the hash table.
  abbrev pub Distinct : Fields N → Type 0
  Distinct no_fields = Unit
  Distinct (field k v fields) = (has_key fields k ≡ false) × Distinct fields
