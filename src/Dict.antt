-- ===== src/Dict.antt =====
-- lib/dict.c: the hash table with linear probing. Allocation succeeds. The tests on `float` are those on
-- the numbers: a capacity is 256 times a power of two, and exact below 2 ^ 24.
pub mod Probing
pub mod Slots
pub mod Search
pub mod Growth
pub mod Steps
pub mod Refines
mod Tests
use leech.Base.{
  ℕ, zero, suc, ◌+◌, ◌*◌, ◌-◌, ◌%◌, Bool, true, false, not, List, [], ◌∷◌, Option, none, some, ltb,
  if◌then◌else◌, length, Bytes, Result, ok, aborted, out_of_fuel, ◌>>=◌, ◌>>◌, assert,
}
use leech.Buffer.{equal}
use leech.ListBuffer.{replace_at}

-- A place in the array: NULL, an invalidated element, whose key is gone, or an element
pub data Slot (V : Type 0) : Type 0 where
  vacant invalidated : Slot V
  element : Bytes → V → Slot V

-- `LCH_Dict`
pub record Dict (V : Type 0) : Type 0 where
  pub count : ℕ
  pub capacity : ℕ
  pub in_use : ℕ
  pub buffer : List (Slot V)

-- `LCH_DICT_CAPACITY`, by configure.ac
abbrev pub dict_capacity : ℕ
dict_capacity = 256

-- The values of `size_t`
abbrev size_mod : ℕ
size_mod = 18446744073709551616

-- The loop of `HashKey`
unfoldable pub hash_loop : ℕ → Bytes → ℕ
hash_loop hash [] = hash
hash_loop hash (c ∷ cs) = hash_loop ((hash * 32 + hash + c) % size_mod) cs

-- `HashKey`
unfoldable pub hash_key : Bytes → ℕ
unfolding hash_loop
hash_key key = hash_loop 5381 key

module _ {V : Type 0} where
  -- The array that `calloc` returns
  abbrev pub vacancies : ℕ → List (Slot V)
  vacancies zero = []
  vacancies (suc n) = vacant ∷ vacancies n

  abbrev pub slot_at : List (Slot V) → ℕ → Slot V
  slot_at [] index = vacant
  slot_at (slot ∷ buffer) zero = slot
  slot_at (slot ∷ buffer) (suc index) = slot_at buffer index

  -- `LCH_DictCreate`
  unfoldable pub dict_create : Dict V
  dict_create = record {
    count = 0;
    capacity = dict_capacity;
    in_use = 0;
    buffer = vacancies dict_capacity;
  }

  -- The test on which the loop of `ComputeIndex` ends
  abbrev pub stops : Bytes → Slot V → Bool
  stops key vacant = true
  stops key invalidated = false
  stops key (element k value) = equal k key

  -- The loop of `ComputeIndex`
  unfoldable pub probe : ℕ → List (Slot V) → ℕ → Bytes → ℕ → Result ℕ
  probe zero buffer capacity key index = out_of_fuel
  probe (suc turns) buffer capacity key index =
      let rest = probe turns buffer capacity key ((index + 1) % capacity) in
      if stops key (slot_at buffer index) then ok index else rest

  -- `ComputeIndex`
  unfoldable pub compute_index : List (Slot V) → ℕ → Bytes → Result ℕ
  unfolding probe
  compute_index buffer capacity key = probe capacity buffer capacity key (hash_key key % capacity)

  -- The body of the loop of `EnsureCapacity`
  unfoldable pub move_slot : ℕ → Slot V → List (Slot V) → Result (List (Slot V))
  unfolding compute_index
  move_slot capacity vacant new_buffer = ok new_buffer
  move_slot capacity invalidated new_buffer = ok new_buffer
  move_slot capacity (element key value) new_buffer = do
    index ← compute_index new_buffer capacity key
    (elim (slot_at new_buffer index) [
      | vacant ↦ ok (replace_at new_buffer index (element key value))
      | _ ↦ aborted
    ])

  -- The loop of `EnsureCapacity`
  unfoldable pub move_slots : ℕ → List (Slot V) → List (Slot V) → Result (List (Slot V))
  unfolding move_slot
  move_slots capacity [] new_buffer = ok new_buffer
  move_slots capacity (slot ∷ old_buffer) new_buffer = do
    new_buffer ← move_slot capacity slot new_buffer
    move_slots capacity old_buffer new_buffer

  -- The tests of `EnsureCapacity`: there is room, and the array is to grow
  abbrev pub has_room : Dict V → Bool
  has_room dict = ltb (dict.in_use * 4) (dict.capacity * 3)

  abbrev pub expands : Dict V → Bool
  expands dict = ltb (dict.capacity * (dict.in_use - dict.count)) 50

  -- `EnsureCapacity`
  unfoldable pub dict_ensure_capacity : Dict V → Result (Dict V)
  unfolding move_slots
  dict_ensure_capacity dict =
      let new_capacity = if expands dict then dict.capacity * 2 else dict.capacity in
      let moved = do
        buffer ←
            (if expands dict
              then move_slots new_capacity dict.buffer (vacancies new_capacity)
              else ok (vacancies new_capacity))
        ok (record dict { capacity = new_capacity; in_use = dict.count; buffer = buffer })
      in if has_room dict then ok dict else moved

  -- `LCH_DictSet` behind `EnsureCapacity`
  unfoldable pub set_at : Dict V → Bytes → V → Result (Dict V)
  unfolding compute_index
  set_at dict key value = do
    index ← compute_index dict.buffer dict.capacity key
    (elim (slot_at dict.buffer index) [
      | vacant ↦ ok (record dict {
        count = dict.count + 1;
        in_use = dict.in_use + 1;
        buffer = replace_at dict.buffer index (element key value);
      })
      | invalidated ↦ aborted
      | element k old ↦ do
        assert (equal key k)
        ok (record dict { buffer = replace_at dict.buffer index (element k value) })
    ])

  -- `LCH_DictSet`
  unfoldable pub dict_set : Dict V → Bytes → V → Result (Dict V)
  unfolding dict_ensure_capacity set_at
  dict_set dict key value = do dict ← dict_ensure_capacity dict; set_at dict key value

  -- `LCH_DictRemove`
  unfoldable pub dict_remove : Dict V → Bytes → Result (V × Dict V)
  unfolding compute_index
  dict_remove dict key = do
    index ← compute_index dict.buffer dict.capacity key
    (elim (slot_at dict.buffer index) [
      | vacant ↦ aborted
      | invalidated ↦ aborted
      | element k value ↦ do
        assert (equal k key)
        assert (ltb 0 dict.count)
        ok (
          value,
          record dict { count = dict.count - 1; buffer = replace_at dict.buffer index invalidated },
        )
    ])

  -- `LCH_DictHasKey`
  unfoldable pub dict_has_key : Dict V → Bytes → Result Bool
  unfolding compute_index
  dict_has_key dict key = do
    index ← compute_index dict.buffer dict.capacity key
    (elim (slot_at dict.buffer index) [ vacant ↦ ok false | _ ↦ ok true ])

  -- `LCH_DictGet`; the value of an invalidated element is a pointer to freed memory.
  unfoldable pub dict_get : Dict V → Bytes → Result V
  unfolding compute_index
  dict_get dict key = do
    index ← compute_index dict.buffer dict.capacity key
    (elim (slot_at dict.buffer index) [ element k value ↦ ok value | _ ↦ aborted ])

  -- The loop of `LCH_DictGetKeys`
  unfoldable pub slot_keys : List (Slot V) → List Bytes
  slot_keys [] = []
  slot_keys (vacant ∷ buffer) = slot_keys buffer
  slot_keys (invalidated ∷ buffer) = slot_keys buffer
  slot_keys (element key value ∷ buffer) = key ∷ slot_keys buffer

  -- `LCH_DictGetKeys`
  unfoldable pub dict_get_keys : Dict V → List Bytes
  unfolding slot_keys
  dict_get_keys dict = slot_keys dict.buffer
