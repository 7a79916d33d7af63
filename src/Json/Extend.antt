-- ===== src/Json/Extend.antt =====
-- The entries that the parser of lib/json.c collects, set one after the other.
use leech.Base.{Bool, true, false, not, ◌≡◌, refl, sym, ◌∙◌, arith, Bytes, Bool-cases, inl, inr}
use leech.Csv.Total.{&&-true}
use leech.Buffer.{equal}
use leech.Buffer.Order.{equal_iff}
use leech.Json.Syntax.{Json, Fields, no_fields, field, has_key, set}
use leech.Json.Fields.{equal_refl, has_key-set}
use leech.Json.Layout.{is_plain, fields_plain}

module _ {N : Type 0} where
  abbrev pub extend : Fields N → Fields N → Fields N
  extend entries no_fields = entries
  extend entries (field k v fields) = extend (set entries k v) fields

  -- The entries of two objects, in order
  join : Fields N → Fields N → Fields N
  join no_fields fields = fields
  join (field k v entries) fields = field k v (join entries fields)

  join-set :
      (entries more : Fields N) (k : Bytes) (v : Json N)
      → has_key entries k ≡ false
      → join (set entries k v) more ≡ join entries (field k v more)
  unfolding join has_key set
  join-set no_fields more k v h = refl
  join-set (field j w entries) more k v h = ground (arith, join-set entries more k v)

  join-no_fields : (entries : Fields N) → join entries no_fields ≡ entries
  unfolding join
  join-no_fields no_fields = refl
  join-no_fields (field j w entries) = rw (join-no_fields entries)

  absent-ne_present :
      (entries : Fields N) (k j : Bytes)
      → not (has_key entries k) ≡ true
      → has_key entries j ≡ true
      → equal k j ≡ false
  absent-ne_present entries k j new e = elim (Bool-cases (equal k j)) [
    | inl same ↦ cc ((equal_iff k j).0 same)
    | inr differs ↦ differs
  ]

  -- Keys that are new and distinct are added at the end.
  extend-join :
      (whole : N → Bool) (entries fields : Fields N)
      → fields_plain whole fields ≡ true
      → ((j : Bytes) → has_key fields j ≡ true → has_key entries j ≡ false)
      → extend entries fields ≡ join entries fields
  unfolding fields_plain has_key
  extend-join whole entries no_fields d h = sym (join-no_fields entries)
  extend-join whole entries (field k v fields) d h =
      let (new, both) = &&-true (not (has_key fields k)) _ d in
      let (_, others) = &&-true (is_plain whole v) (fields_plain whole fields) both in
      extend-join whole (set entries k v) fields others (λ j e.
        let differs = absent-ne_present fields k j new e in
        has_key-set entries k j v ∙ rw differs (h j (rw differs e)))
      ∙ join-set entries fields k v (h k (rw (equal_refl k)))

  pub extend-no_fields :
      (whole : N → Bool) (fields : Fields N)
      → fields_plain whole fields ≡ true
      → extend no_fields fields ≡ fields
  unfolding join has_key
  extend-no_fields whole fields d = extend-join whole no_fields fields d (λ j h. refl)
