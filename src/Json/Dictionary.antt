-- ===== src/Json/Dictionary.antt =====
-- lib/dict.c: a dictionary by its entries and the three numbers that `EnsureCapacity` looks at. The module
-- Dict has the array behind it. Elsewhere in lib/json.c objects are lists of entries alone, which is what
-- a dictionary is as long as no entry has been removed from it.
use leech.Base.{ℕ, zero, suc, ◌*◌, ◌-◌, ltb, if◌then◌else◌, Bytes}
use leech.Json.Syntax.{Json, Fields, no_fields, has_key, set, remove, size}
use leech.Dict.{dict_capacity}

pub record Dictionary (N : Type 0) : Type 0 where
  pub entries : Fields N
  pub count : ℕ
  pub capacity : ℕ
  pub in_use : ℕ

-- The capacity after so many new keys, none of which has been removed
unfoldable pub capacity_for : ℕ → ℕ
capacity_for zero = dict_capacity
capacity_for (suc n) =
    let before = capacity_for n in if ltb (n * 4) (before * 3) then before else before * 2

module _ {N : Type 0} where
  -- A dictionary into which the entries have been set, and from which none has been removed
  abbrev pub fresh : Fields N → Dictionary N
  fresh fields = record {
    entries = fields;
    count = size fields;
    capacity = capacity_for (size fields);
    in_use = size fields;
  }

  -- `EnsureCapacity`: where the array is full up to its load factor and does not grow, its elements are
  -- not moved into the new one.
  unfoldable pub dictionary_ensure : Dictionary N → Dictionary N
  dictionary_ensure dictionary =
      if ltb (dictionary.in_use * 4) (dictionary.capacity * 3)
      then dictionary
      else if ltb (dictionary.capacity * (dictionary.in_use - dictionary.count)) 50
      then record dictionary { capacity = dictionary.capacity * 2; in_use = dictionary.count }
      else record dictionary { entries = no_fields; in_use = dictionary.count }

  -- `LCH_DictSet` behind `EnsureCapacity`
  unfoldable pub put_entry : Dictionary N → Bytes → Json N → Dictionary N
  put_entry dictionary key value =
      let entries = set dictionary.entries key value in
      if has_key dictionary.entries key
      then record dictionary { entries = entries }
      else record dictionary {
        entries = entries;
        count = suc dictionary.count;
        in_use = suc dictionary.in_use;
      }

  -- `LCH_DictSet`
  unfoldable pub dictionary_set : Dictionary N → Bytes → Json N → Dictionary N
  unfolding dictionary_ensure put_entry
  dictionary_set dictionary key value = put_entry (dictionary_ensure dictionary) key value

  -- `LCH_DictRemove` of a key that is there
  abbrev pub dictionary_remove : Dictionary N → Bytes → Dictionary N
  dictionary_remove dictionary key = record dictionary {
    entries = remove dictionary.entries key;
    count = dictionary.count - 1;
  }
