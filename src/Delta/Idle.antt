-- ===== src/Delta/Idle.antt =====
-- `LCH_DeltaCreate` on two objects with the same entries.
use leech.Base.{Bool, true, none, some, Option, ◌≡◌, refl, ◌∙◌, ap, arith, Bytes, ok}
use leech.Json.Syntax.{Json, Fields, string, object, no_fields, field, get, set}
use leech.Json.Fields.{has_key-get, equal_refl}
use leech.Json.Equal.{is_string}
use leech.Json.EqualLaws.{json_equal-is_string}
use leech.Json.SetMinusLaws.{Strings, changed, keys_minus-get, changed_values-get}
use leech.Delta.Names.{type_key, id_key, inserts_key, deletes_key, updates_key}
use leech.Delta.Create.{delta_create}
use leech.Delta.Parts.{HasOperations}
use leech.Delta.Difference.{delta_entries}

no_entries :
    {N : Type 0} (entries : Fields N) → ((j : Bytes) → get entries j ≡ none) → entries ≡ no_fields
unfolding get
no_entries no_fields all = refl
no_entries (field k v entries) all = let found : some v ≡ none = rw (equal_refl k) at (all k) in cc

module _ {N : Type 0} (number_eq : N → N → Bool) where
  changed-same :
      (o : Option (Json N))
      → ((v : Json N) → o ≡ some v → is_string v ≡ true)
      → changed number_eq o o ≡ none
  changed-same none strings = refl
  changed-same (some v) strings =
      rw ((json_equal-is_string number_eq v v (strings v refl)).1 refl) refl

  pub delta_create-idle :
      (table_id type : Bytes) (new_state old_state : Fields N)
      → Strings new_state
      → Strings old_state
      → get old_state ≡ get new_state
      → (delta : Json N) × (delta_create number_eq table_id type new_state old_state ≡ ok delta)
        × HasOperations delta
            (record { inserts = no_fields; deletes = no_fields; updates = no_fields })
  unfolding delta_create
  delta_create-idle table_id type new_state old_state sn so same =
      let (i, done_i, _, get_i) = keys_minus-get new_state old_state sn in
      let (d, done_d, _, get_d) = keys_minus-get old_state new_state so in
      let (u, done_u, _, get_u) = changed_values-get number_eq new_state old_state sn in
      let at : (j : Bytes) → get old_state j ≡ get new_state j = λ j. ap (λ f. f j) same in
      let no_i : i ≡ no_fields =
        no_entries i (λ j. get_i j ∙ ground (arith, at j, has_key-get old_state j)) in
      let no_d : d ≡ no_fields =
        no_entries d (λ j. get_d j ∙ ground (arith, at j, has_key-get new_state j)) in
      let no_u : u ≡ no_fields = no_entries u (λ j.
        get_u j
        ∙ ap (changed number_eq (get new_state j)) (at j)
        ∙ changed-same (get new_state j) (sn j)) in
      let e1 = set (set no_fields type_key (string type)) id_key (string table_id) in
      let e2 =
        set (set (set e1 inserts_key (object no_fields)) deletes_key (object no_fields)) updates_key
          (object no_fields) in
      let (has, _, _) = delta_entries table_id type no_fields no_fields no_fields in
      (
        object e2,
        rw (done_i ∙ ap ok no_i) (rw (done_d ∙ ap ok no_d) (rw (done_u ∙ ap ok no_u) refl)),
        has,
      )
