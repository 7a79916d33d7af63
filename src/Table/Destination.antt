-- ===== src/Table/Destination.antt =====
-- A destination of patches that does what lib/leech.h asks of the callbacks and refuses nothing: it holds
-- the records of all hosts, by the host identifier and the primary fields.
use leech.Base.{
  ℕ, suc, Bool, true, false, ◌&&◌, List, [], ◌∷◌, ◌++◌, Option, some, none, if◌then◌else◌, length,
  take, drop, take-append, drop-append, ◌≡◌, refl, ◌↔◌, sym, ap, ◌∙◌, arith, Bytes, Bool-cases, inl,
  inr, Result, ok, failed, aborted, out_of_fuel,
}
use leech.Buffer.{equal}
use leech.Buffer.Order.{equal_iff}
use leech.Json.Syntax.{
  Json, Fields, null, true_value, false_value, string, number, array, object, get, keys,
}
use leech.Json.Fields.{listed}
use leech.Csv.Parser.{csv_parse_record}
use leech.Csv.Composer.{csv_compose_record}
use leech.Csv.RoundTrip.{csv_parse_record-csv_compose_record, csv_compose_record-injective}
use leech.Leech.Config.{TableInfo}
use leech.Table.Patch.{
  Call, connect, create_table, begin_tx, rollback_tx, commit_tx, disconnect, truncate_table,
  delete_record, insert_record, update_record, parse_concatenate_fields, patch_deletes,
  patch_updates, patch_inserts,
}

-- The subsidiary fields of the records
abbrev pub Records : Type 0
Records = List Bytes → Option (List Bytes)

abbrev pub fields_equal : List Bytes → List Bytes → Bool
fields_equal [] [] = true
fields_equal (f ∷ fs) (g ∷ gs) = equal f g && fields_equal fs gs
fields_equal [] (g ∷ gs) = false
fields_equal (f ∷ fs) [] = false

abbrev pub is_of_host : List Bytes → Bytes → Bool
is_of_host [] value = false
is_of_host (host ∷ fields) value = equal host value

-- A record is changed where there is one.
abbrev pub changed_to : Option (List Bytes) → List Bytes → Option (List Bytes)
changed_to none changes = none
changed_to (some old) changes = some changes

-- What a call makes of the records, where the first `width` fields of a record are its key
abbrev pub effect : ℕ → Call → Records → Records
effect width (truncate_table table field value) records key =
    if is_of_host key value then none else records key
effect width (delete_record table fields values) records key =
    if fields_equal key values then none else records key
effect width (insert_record table fields values) records key =
    if fields_equal key (take width values) then some (drop width values) else records key
effect width (update_record table fields values others changes) records key =
    if fields_equal key values then changed_to (records key) changes else records key
effect width (connect params) records key = records key
effect width (create_table table fields others) records key = records key
effect width begin_tx records key = records key
effect width rollback_tx records key = records key
effect width commit_tx records key = records key
effect width disconnect records key = records key

-- The records after the calls, of which the last stands first
abbrev pub after_calls : ℕ → List Call → Records → Records
after_calls width [] records = records
after_calls width (next ∷ calls) records = effect width next (after_calls width calls records)

abbrev pub accepts : List Call → Bool
accepts calls = true

fields_equal_iff : (fs gs : List Bytes) → (fields_equal fs gs ≡ true) ↔ (fs ≡ gs)
fields_equal_iff [] [] = (λ h. refl, λ h. refl)
fields_equal_iff [] (g ∷ gs) = (λ h. cc, λ h. cc)
fields_equal_iff (f ∷ fs) [] = (λ h. cc, λ h. cc)
fields_equal_iff (f ∷ fs) (g ∷ gs) = (
  λ h. ground (arith, h, equal_iff f g, fields_equal_iff fs gs),
  λ h. ground (arith, h, equal_iff f g, fields_equal_iff fs gs),
)

-- The keys of two records are equal as their texts are.
pub fields_equal-csv :
    (host f g : Bytes) (fs gs : List Bytes)
    → fields_equal (host ∷ f ∷ fs) (host ∷ g ∷ gs)
      ≡ equal (csv_compose_record (g ∷ gs)) (csv_compose_record (f ∷ fs))
fields_equal-csv host f g fs gs =
    elim (Bool-cases (equal (csv_compose_record (g ∷ gs)) (csv_compose_record (f ∷ fs)))) [
      | inl e ↦
          let same = csv_compose_record-injective g f gs fs ((equal_iff _ _).0 e) in
          (fields_equal_iff (host ∷ f ∷ fs) (host ∷ g ∷ gs)).1 (cc (same)) ∙ sym e
      | inr e ↦ elim (Bool-cases (fields_equal (host ∷ f ∷ fs) (host ∷ g ∷ gs))) [
        | inr e' ↦ e' ∙ sym e
        | inl e' ↦
            let same : g ∷ gs ≡ f ∷ fs =
              cc ((fields_equal_iff (host ∷ f ∷ fs) (host ∷ g ∷ gs)).0 e') in
            cc (
              e,
              (equal_iff (csv_compose_record (g ∷ gs)) (csv_compose_record (f ∷ fs))).1
                  (ap csv_compose_record same),
            )
      ]
    ]

-- The text of a key, of as many fields as there are primary fields
pub record IsKey (n : ℕ) (key : Bytes) : Type 0 where
  pub first : Bytes
  pub rest : List Bytes
  pub composed : key ≡ csv_compose_record (first ∷ rest)
  pub is_long : length (first ∷ rest) ≡ n

-- A key with a record under it; a key that is one empty field is left out, since
-- `ParseConcatenateFields` takes it for no field.
pub record IsRow {N : Type 0} (n : ℕ) (key : Bytes) (held : Option (Json N)) : Type 0 where
  pub is_key : IsKey n key
  pub not_blank : equal key [] ≡ false
  pub first_value : Bytes
  pub more_values : List Bytes
  pub value : held ≡ some (string (csv_compose_record (first_value ∷ more_values)))

abbrev pub All {ℓ κ} : {A : Type ℓ} → (A → Type κ) → List A → Type κ
All P [] = Unit
All P (a ∷ rest) = P a × All P rest

-- The subsidiary fields in a text
abbrev pub fields_of : Result (List Bytes) → Option (List Bytes)
fields_of (ok fields) = some fields
fields_of failed = none
fields_of aborted = none
fields_of out_of_fuel = none

-- The record that a value of an object stands for
abbrev pub row : {N : Type 0} → Option (Json N) → Option (List Bytes)
row (some (string text)) = fields_of (csv_parse_record text)
row (some null) = none
row (some true_value) = none
row (some false_value) = none
row (some (number n)) = none
row (some (array items)) = none
row (some (object entries)) = none
row none = none

abbrev pub changed_row : Option (List Bytes) → Option (List Bytes) → Option (List Bytes)
changed_row none changes = none
changed_row (some old) changes = changes

changed_row_idem :
    (x changes : Option (List Bytes))
    → changed_row (changed_row x changes) changes ≡ changed_row x changes
changed_row_idem none changes = refl
changed_row_idem (some old) none = refl
changed_row_idem (some old) (some new) = refl

changed_to-row :
    (x : Option (List Bytes)) (changes : List Bytes)
    → changed_to x changes ≡ changed_row x (some changes)
changed_to-row none changes = refl
changed_to-row (some old) changes = refl

-- One turn of a loop, and the rest
turn_lem :
    {X : Type 0} (F G : X → X) (y : X) (l t t' : Bool)
    → ((x : X) → F (F x) ≡ F x)
    → t ≡ t'
    → (t' ≡ true → G y ≡ F y)
    → (if l then F (if t then G y else y) else if t then G y else y)
      ≡ (if (if t' then true else l) then F y else y)
turn_lem F G y true true true idem e same = ap F (same refl) ∙ idem y
turn_lem F G y false true true idem e same = same refl
turn_lem F G y l true false idem e same = cc
turn_lem F G y l false true idem e same = cc
turn_lem F G y l false false idem e same = refl

module _ (host : Bytes) (n : ℕ) (before : Records) where
  abbrev pub held : List Call → Records
  held calls = after_calls (suc n) calls before

  -- The calls have changed the records of the host with the keys, and no others.
  abbrev pub Changes :
      List Call
      → List Call
      → List Bytes
      → (Bytes → Option (List Bytes) → Option (List Bytes))
      → Type 0
  Changes calls after keys change =
      ((f : Bytes) (fs : List Bytes)
        → held after (host ∷ f ∷ fs) ≡ (
            if listed keys (csv_compose_record (f ∷ fs))
            then change (csv_compose_record (f ∷ fs)) (held calls (host ∷ f ∷ fs))
            else held calls (host ∷ f ∷ fs)))
      × ((other : Bytes) (fs : List Bytes)
          → equal other host ≡ false
          → held after (other ∷ fs) ≡ held calls (other ∷ fs))

  -- A call for one key, and the changes behind it
  Changes-call :
      (next : Call) (calls after : List Call) (key : Bytes) (rest : List Bytes)
      (change : Bytes → Option (List Bytes) → Option (List Bytes))
      (one : Option (List Bytes) → Option (List Bytes)) (is_key : IsKey n key)
      → ((k : Bytes) (x : Option (List Bytes)) → change k (change k x) ≡ change k x)
      → ((x : Option (List Bytes)) → one x ≡ change key x)
      → ((records : Records) (fields : List Bytes)
          → effect (suc n) next records fields ≡ (
              if fields_equal fields (host ∷ is_key.first ∷ is_key.rest)
              then one (records fields)
              else records fields))
      → Changes (next ∷ calls) after rest change
      → Changes calls after (key ∷ rest) change
  Changes-call next calls after key rest change one is_key idem is_change is_effect (own, others) =
      let g = is_key.first in
      let gs = is_key.rest in
      (
        λ f fs.
            let text = csv_compose_record (f ∷ fs) in
            own f fs
            ∙ rw (is_effect (held calls) (host ∷ f ∷ fs)) (
                turn_lem (change text) one (held calls (host ∷ f ∷ fs)) (listed rest text)
                  (fields_equal (host ∷ f ∷ fs) (host ∷ g ∷ gs)) (equal key text) (idem text)
                  (fields_equal-csv host f g fs gs ∙ ap (λ k. equal k text) (sym is_key.composed))
                  (λ h.
                    is_change (held calls (host ∷ f ∷ fs))
                    ∙ ap (λ k. change k (held calls (host ∷ f ∷ fs))) ((equal_iff key text).0 h))),
        λ other fs ne. others other fs ne ∙ is_effect (held calls) (other ∷ fs) ∙ rw ne refl,
      )

  module _ (table_info : TableInfo) where
    -- `TablePatchDeletes` deletes the records of the host with the keys.
    pub patch_deletes-Changes :
        (primary_fields rest : List Bytes) (calls : List Call)
        → All (IsKey n) rest
        → (after : List Call) × (patch_deletes accepts table_info primary_fields host rest calls
            ≡ (after, ok tt))
          × Changes calls after rest (λ key held. none)
    unfolding patch_deletes
    patch_deletes-Changes primary_fields [] calls all =
        (calls, refl, (λ f fs. refl, λ other fs ne. refl))
    patch_deletes-Changes primary_fields (key ∷ rest) calls (is_key, all) =
        let g = is_key.first in
        let gs = is_key.rest in
        let parsed : csv_parse_record key ≡ ok (g ∷ gs) =
          rw is_key.composed (csv_parse_record-csv_compose_record g gs) in
        let next = delete_record table_info.dst_table_name primary_fields (host ∷ g ∷ gs) in
        let (after, run, changes) = patch_deletes-Changes primary_fields rest (next ∷ calls) all in
        (
          after,
          rw parsed run,
          Changes-call next calls after key rest (λ k x. none) (λ x. none) is_key (λ k x. refl)
              (λ x. refl) (λ records fields. refl) changes,
        )

    module _ {N : Type 0} (operations : Fields N) where
      -- The keys have records in the object.
      abbrev pub Rows : List Bytes → Type 0
      Rows rest = All (λ key. IsRow n key (get operations key)) rest

      -- `TablePatchUpdates` changes the records of the host with the keys, where there are any.
      pub patch_updates-Changes :
          (primary_fields rest : List Bytes) (calls : List Call)
          → Rows rest
          → (after : List Call) × (patch_updates accepts table_info primary_fields host operations
                rest calls
              ≡ (after, ok tt))
            × Changes calls after rest (λ key held. changed_row held (row (get operations key)))
      unfolding patch_updates
      patch_updates-Changes primary_fields [] calls all =
          (calls, refl, (λ f fs. refl, λ other fs ne. refl))
      patch_updates-Changes primary_fields (key ∷ rest) calls (is_row, all) =
          let is_key = is_row.is_key in
          let g = is_key.first in
          let gs = is_key.rest in
          let h = is_row.first_value in
          let hs = is_row.more_values in
          let parsed : csv_parse_record key ≡ ok (g ∷ gs) =
            rw is_key.composed (csv_parse_record-csv_compose_record g gs) in
          let value = csv_parse_record-csv_compose_record h hs in
          let next =
            update_record table_info.dst_table_name primary_fields (host ∷ g ∷ gs)
              table_info.subsidiary_fields (h ∷ hs) in
          let (after, run, changes) =
            patch_updates-Changes primary_fields rest (next ∷ calls) all in
          let is_value = is_row.value in
          (
            after,
            rw parsed (rw is_value (rw value run)),
            Changes-call next calls after key rest (λ k x. changed_row x (row (get operations k)))
                (λ x. changed_to x (h ∷ hs)) is_key
                (λ k x. changed_row_idem x (row (get operations k)))
                (λ x. rw is_value (rw value (changed_to-row x (h ∷ hs)))) (λ records fields. refl)
                changes,
          )

      parse_concatenate_fields-row :
          (key : Bytes) (is_row : IsRow n key (get operations key))
          → parse_concatenate_fields key
              (csv_compose_record (is_row.first_value ∷ is_row.more_values))
            ≡ ok (
                is_row.is_key.first
                ∷ (is_row.is_key.rest ++ is_row.first_value ∷ is_row.more_values))
      unfolding parse_concatenate_fields
      parse_concatenate_fields-row key is_row =
          let is_key = is_row.is_key in
          let parsed : csv_parse_record key ≡ ok (is_key.first ∷ is_key.rest) =
            rw is_key.composed (csv_parse_record-csv_compose_record is_key.first is_key.rest) in
          rw is_row.not_blank (
            rw parsed
              (rw (csv_parse_record-csv_compose_record is_row.first_value is_row.more_values) refl))

      -- `TablePatchInserts` sets the records of the host with the keys.
      pub patch_inserts-Changes :
          (first_subsidiary : Bytes) (more_subsidiary all_fields rest : List Bytes)
          (calls : List Call)
          → table_info.subsidiary_fields ≡ first_subsidiary ∷ more_subsidiary
          → Rows rest
          → (after : List Call) × (patch_inserts accepts table_info all_fields host operations rest
                calls
              ≡ (after, ok tt))
            × Changes calls after rest (λ key held. row (get operations key))
      unfolding patch_inserts
      patch_inserts-Changes s ss all_fields [] calls e all =
          (calls, refl, (λ f fs. refl, λ other fs ne. refl))
      patch_inserts-Changes s ss all_fields (key ∷ rest) calls e (is_row, all) =
          let is_key = is_row.is_key in
          let g = is_key.first in
          let gs = is_key.rest in
          let h = is_row.first_value in
          let hs = is_row.more_values in
          let value = csv_parse_record-csv_compose_record h hs in
          let next =
            insert_record table_info.dst_table_name all_fields (host ∷ g ∷ (gs ++ h ∷ hs)) in
          let (after, run, changes) =
            patch_inserts-Changes s ss all_fields rest (next ∷ calls) e all in
          let is_value = is_row.value in
          let keyed : take n (g ∷ (gs ++ h ∷ hs)) ≡ g ∷ gs =
            rw (← is_key.is_long) (take-append (g ∷ gs) (h ∷ hs)) in
          let others : drop n (g ∷ (gs ++ h ∷ hs)) ≡ h ∷ hs =
            rw (← is_key.is_long) (drop-append (g ∷ gs) (h ∷ hs)) in
          (
            after,
            rw is_value (rw e (rw (parse_concatenate_fields-row key is_row) run)),
            Changes-call next calls after key rest (λ k x. row (get operations k))
                (λ x. some (h ∷ hs)) is_key (λ k x. refl) (λ x. rw is_value (rw value refl))
                (λ records fields. rw keyed (rw others refl)) changes,
          )
