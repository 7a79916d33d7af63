-- ===== src/Json/Sizes.antt =====
-- How many entries objects have whose keys are among those of another.
use leech.Base.{suc, ◌+◌, ◌≤◌, true, false, ◌≡◌, refl, arith, Bytes, Bool-cases, inl, inr}
use leech.Buffer.{equal}
use leech.Buffer.Order.{equal_iff}
use leech.Json.Syntax.{Json, Fields, no_fields, field, has_key, remove, size, Distinct}
use leech.Json.Fields.{has_key-remove, equal_refl}

module _ {N : Type 0} where
  -- Each key of the first is one of the second.
  abbrev pub Within : Fields N → Fields N → Type 0
  Within fields others = (j : Bytes) → has_key fields j ≡ true → has_key others j ≡ true

  pub size-remove_le : (fields : Fields N) (key : Bytes) → size (remove fields key) ≤ size fields
  unfolding size remove
  size-remove_le no_fields key = omega arith
  size-remove_le (field k w fields) key = ground (arith, size-remove_le fields key)

  size-remove_lt :
      (fields : Fields N) (key : Bytes)
      → has_key fields key ≡ true
      → suc (size (remove fields key)) ≤ size fields
  unfolding size remove has_key
  size-remove_lt no_fields key h = cc
  size-remove_lt (field k w fields) key h = elim (Bool-cases (equal k key)) [
    | inl e ↦ rw e (omega (arith, size-remove_le fields key))
    | inr e ↦ rw e (omega (arith, size-remove_lt fields key (rw e at h)))
  ]

  -- Without a key that the first has not
  Within-remove :
      (entries others : Fields N) (key : Bytes)
      → has_key entries key ≡ false
      → Within entries others
      → Within entries (remove others key)
  Within-remove entries others key out within j h =
      ground (arith, h, out, within j h, has_key-remove others key j, equal_iff key j)

  Within-tail :
      (k : Bytes) (v : Json N) (entries others : Fields N)
      → Within (field k v entries) others
      → Within entries others
  unfolding has_key
  Within-tail k v entries others within j h = within j (ground (arith, h))

  Within-first :
      (k : Bytes) (v : Json N) (entries others : Fields N)
      → Within (field k v entries) others
      → has_key others k ≡ true
  unfolding has_key
  Within-first k v entries others within = within k (rw equal_refl refl)

  pub size-Within :
      (fields others : Fields N)
      → Distinct fields
      → Within fields others
      → size fields ≤ size others
  unfolding size
  size-Within no_fields others d within = omega arith
  size-Within (field k v fields) others d within = omega (
    arith,
    size-remove_lt others k (Within-first k v fields others within),
    size-Within fields (remove others k) d.1
        (Within-remove fields others k d.0 (Within-tail k v fields others within)),
  )

  -- Two objects without a key in common
  pub size-Within-two :
      (fields more others : Fields N)
      → Distinct fields
      → Distinct more
      → ((j : Bytes) → has_key fields j ≡ true → has_key more j ≡ false)
      → Within fields others
      → Within more others
      → size fields + size more ≤ size others
  unfolding size has_key
  size-Within-two no_fields more others d d' apart within within' =
      omega (arith, size-Within more others d' within')
  size-Within-two (field k v fields) more others d d' apart within within' = omega (
    arith,
    size-remove_lt others k (Within-first k v fields others within),
    size-Within-two fields more (remove others k) d.1 d' (λ j h. apart j (ground (arith, h)))
        (Within-remove fields others k d.0 (Within-tail k v fields others within))
        (Within-remove more others k (apart k (rw equal_refl refl)) within'),
  )
