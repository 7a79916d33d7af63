-- ===== src/Leech/TableDelta.antt =====
-- lib/leech.c: what a turn of the loop of `Commit` makes of the states of one table.
use leech.Base.{
  ℕ, Bool, true, false, ◌||◌, Option, some, none, ltb, if◌then◌else◌, codes, ◌≡◌, refl, sym, ◌∙◌,
  arith, Bytes, Bool-cases, inl, inr, Result, ok,
}
use mathlib.Core.Path.{subst, fun_ext}
use leech.Buffer.{equal}
use leech.Buffer.Order.{equal_iff}
use leech.Json.Syntax.{
  Json, Fields, null, true_value, false_value, string, number, array, object, no_fields, field, get,
  set, has_key, size, Distinct,
}
use leech.Json.Fields.{equal_refl, has_key-get}
use leech.Json.Equal.{is_string}
use leech.Json.SetMinus.{keys_minus, changed_values}
use leech.Json.SetMinusLaws.{Strings, changed, keys_minus-get, changed_values-get}
use leech.Json.Layout.{is_plain, fields_plain}
use leech.Head.{Files}
use leech.Delta.Names.{type_key, id_key, inserts_key, deletes_key, updates_key}
use leech.Delta.Create.{delta_create}
use leech.Delta.Merge.{Operations}
use leech.Delta.Correct.{patch}
use leech.Delta.Count.{get_num_operations_lem}
use leech.Table.States.{Source, load_new_state, load_old_state}
use leech.Leech.Config.{TableInfo}
use leech.Leech.Carries.{State, HasDelta, delta_create-HasDelta}
use leech.Leech.Commit.{table_delta}

module _ {N : Type 0} (whole : N → Bool) where
  is_string-plain : (v : Json N) → is_string v ≡ true → is_plain whole v ≡ true
  unfolding is_plain
  is_string-plain (string _) h = refl
  is_string-plain null h = cc
  is_string-plain true_value h = cc
  is_string-plain false_value h = cc
  is_string-plain (number _) h = cc
  is_string-plain (array _) h = cc
  is_string-plain (object _) h = cc

  Strings-rest :
      (k : Bytes) (v : Json N) (rows : Fields N)
      → Strings (field k v rows)
      → has_key rows k ≡ false
      → Strings rows
  unfolding get
  Strings-rest k v rows s new j w e = elim (Bool-cases (equal k j)) [
    | inr other ↦ s j w (rw other e)
    | inl same ↦
        let there : has_key rows j ≡ true = has_key-get rows j ∙ rw e refl in
        cc (there, new, (equal_iff k j).0 same)
  ]

  -- The rows of a table hold no number, and each key once.
  pub Strings-plain :
      (rows : Fields N) → Strings rows → Distinct rows → fields_plain whole rows ≡ true
  unfolding is_plain get
  Strings-plain no_fields s d = refl
  Strings-plain (field k v rows) s d =
      let first : is_plain whole v ≡ true = is_string-plain v (s k v (rw (equal_refl k) refl)) in
      let others : fields_plain whole rows ≡ true =
        Strings-plain rows (Strings-rest k v rows s d.0) d.1 in
      rw d.0 (rw first (rw others refl))

ok-eq : {A : Type 0} {a b : A} {r : Result A} → r ≡ ok a → r ≡ ok b → a ≡ b
ok-eq p q = cc

if-eq-some :
    {A : Type 0} (test : Bool) (o : Option A) (a : A)
    → (if test then none else o) ≡ some a
    → o ≡ some a
if-eq-some true o a e = cc
if-eq-some false o a e = e

module _ {N : Type 0} (number_eq : N → N → Bool) (whole : N → Bool) where
  -- A delta with the given operations
  abbrev delta_of : Bytes → Bytes → Fields N → Fields N → Fields N → Json N
  delta_of type id inserts deletes updates = object (
      field type_key (string type) (
        field id_key (string id) (
          field inserts_key (object inserts)
            (field deletes_key (object deletes) (field updates_key (object updates) no_fields)))))

  delta_create-delta_of :
      (id type : Bytes) (new_state old_state i d u : Fields N)
      → keys_minus new_state old_state ≡ ok i
      → keys_minus old_state new_state ≡ ok d
      → changed_values number_eq new_state old_state ≡ ok u
      → delta_create number_eq id type new_state old_state ≡ ok (delta_of type id i d u)
  unfolding delta_create set equal
  delta_create-delta_of id type new_state old_state i d u hi hd hu = rw hi (rw hd (rw hu refl))

  delta_of-plain :
      (id type : Bytes) (i d u : Fields N)
      → fields_plain whole i ≡ true
      → fields_plain whole d ≡ true
      → fields_plain whole u ≡ true
      → is_plain whole (delta_of type id i d u) ≡ true
  unfolding is_plain has_key equal
  delta_of-plain id type i d u hi hd hu = rw hi (rw hd (rw hu refl))

  changed-eq-some :
      (left right : Option (Json N)) (v : Json N)
      → changed number_eq left right ≡ some v
      → left ≡ some v
  changed-eq-some (some w) (some w') v e = if-eq-some _ (some w) v e
  changed-eq-some (some w) none v e = cc
  changed-eq-some none right v e = cc

  delta_create-plain :
      (id type : Bytes) (new_state old_state : Fields N) (delta : Json N)
      → Strings new_state
      → Strings old_state
      → delta_create number_eq id type new_state old_state ≡ ok delta
      → is_plain whole delta ≡ true
  delta_create-plain id type new_state old_state delta sn so run =
      let (i, hi, di, gi) = keys_minus-get new_state old_state sn in
      let (d, hd, dd, gd) = keys_minus-get old_state new_state so in
      let (u, hu, du, gu) = changed_values-get number_eq new_state old_state sn in
      let same : delta_of type id i d u ≡ delta =
        ok-eq (delta_create-delta_of id type new_state old_state i d u hi hd hu) run in
      subst (λ v. is_plain whole v ≡ true) same
        (delta_of-plain id type i d u
          (Strings-plain whole i (λ k v e. sn k v (if-eq-some _ _ v (sym (gi k) ∙ e))) di)
          (Strings-plain whole d (λ k v e. so k v (if-eq-some _ _ v (sym (gd k) ∙ e))) dd)
          (Strings-plain whole u (λ k v e. sn k v (changed-eq-some _ _ v (sym (gu k) ∙ e))) du))

size-zero : {N : Type 0} (fields : Fields N) → ltb 0 (size fields) ≡ false → fields ≡ no_fields
unfolding size
size-zero no_fields e = refl
size-zero (field k v rest) e = ground arith

-- A delta without operations leaves the state as it is.
patch-empty :
    {N : Type 0} (m : Operations N) (state : State N)
    → (ltb 0 (size m.inserts) || ltb 0 (size m.deletes) || ltb 0 (size m.updates)) ≡ false
    → patch m state ≡ state
unfolding get
patch-empty m state e =
    let i : m.inserts ≡ no_fields = size-zero m.inserts (ground arith) in
    let d : m.deletes ≡ no_fields = size-zero m.deletes (ground arith) in
    let u : m.updates ≡ no_fields = size-zero m.updates (ground arith) in
    fun_ext (λ key. rw i (rw d (rw u refl)))

module _ {N Conn : Type 0} (number_eq : N → N → Bool) (print : N → Bytes)
    (sscanf : Bytes → Option (N × ℕ)) (sha1 : Bytes → Bytes) (source : Source Conn)
    (whole : N → Bool) where
  -- A turn of the loop of `Commit` makes a delta from the rows of the snapshot to those of the source.
  -- Without operations in it, the two states are the same.
  pub table_delta_lem :
      (snapshots : Files) (table_def : TableInfo) (new_rows old_rows : Fields N)
      → load_new_state source table_def ≡ ok (object new_rows)
      → load_old_state sscanf snapshots table_def ≡ ok (object old_rows)
      → Strings new_rows
      → Strings old_rows
      → (delta : Json N) × (changed : Bool) × (table_delta number_eq print sscanf sha1 source
            snapshots table_def
          ≡ ok (object new_rows, delta, changed))
        × HasDelta (get old_rows) (get new_rows) table_def.identifier delta
        × (is_plain whole delta ≡ true)
        × (changed ≡ false → get old_rows ≡ get new_rows)
  unfolding table_delta
  table_delta_lem snapshots table_def new_rows old_rows new old sn so =
      let (delta, run, h) =
        delta_create-HasDelta number_eq table_def.identifier (codes "delta") new_rows old_rows sn
          so in
      let m = h.operations in
      let counts = get_num_operations_lem delta m 0 h.parts in
      (
        delta,
        ltb 0 (size m.inserts) || ltb 0 (size m.deletes) || ltb 0 (size m.updates),
        rw new (rw old (rw run (rw counts refl))),
        h,
        delta_create-plain number_eq whole table_def.identifier (codes "delta") new_rows old_rows
            delta sn so run,
        λ e. sym (patch-empty m (get old_rows) e) ∙ h.patched_to,
      )
