-- ===== src/Delta/Compose.antt =====
-- The merge at one key: a delta that fits a state, and a second one that fits what the first makes of
-- it, merge into one delta that fits the first state and does what the two do.
use leech.Base.{
  Bool, true, Option, none, some, ◌≡◌, refl, sym, ◌∙◌, ap, arith, inl, inr, ◌⊎◌, Bool-cases,
}
use mathlib.Core.Option.{some-injective}
use leech.Json.Syntax.{Json, null, string}
use leech.Json.Equal.{json_equal, is_string}
use leech.Json.EqualLaws.{json_equal-is_string}
use leech.Delta.Cells.{Cell, after_insert, after_delete, after_update, fits}
use leech.Delta.Loop.{applied}

-- The record of a table at one key after a patch: `LCH_TablePatch` runs the deletes, then the updates,
-- then the inserts.
abbrev pub patched : {N : Type 0} → Cell N → Option (Json N) → Option (Json N)
patched c record_before = elim c.inserted [
  | some v ↦ some v
  | none ↦ elim c.updated [
    | some v ↦ some v
    | none ↦ elim c.deleted [ some _ ↦ none | none ↦ record_before ]
  ]
]

module _ {N : Type 0} where
  abbrev pub idle : Cell N
  idle = record { inserted = none; deleted = none; updated = none }

  abbrev pub inserting : Json N → Cell N
  inserting v = record { inserted = some v; deleted = none; updated = none }

  abbrev pub deleting : Json N → Cell N
  deleting v = record { inserted = none; deleted = some v; updated = none }

  abbrev pub updating : Json N → Cell N
  updating v = record { inserted = none; deleted = none; updated = some v }

  -- A delta can be applied to the record at a key: it inserts where there is none, and deletes or
  -- updates where there is one. A delete knows the old value, or holds null in its place.
  pub data Fits (c : Cell N) (b : Option (Json N)) : Type 0 where
    untouched : c ≡ idle → Fits c b
    inserts : (v : Json N) → c ≡ inserting v → b ≡ none → is_string v ≡ true → Fits c b
    deletes :
        (v w : Json N)
        → c ≡ deleting v
        → b ≡ some w
        → is_string w ≡ true
        → (v ≡ null) ⊎ (v ≡ w)
        → Fits c b
    updates :
        (v w : Json N)
        → c ≡ updating v
        → b ≡ some w
        → is_string v ≡ true
        → is_string w ≡ true
        → Fits c b

module _ {N : Type 0} (number_eq : N → N → Bool) where
  abbrev pub inserts_merged : Cell N → Cell N → Cell N
  inserts_merged c d = applied (after_insert number_eq) c d.inserted

  abbrev pub deletes_merged : Cell N → Cell N → Cell N
  deletes_merged c d = applied (after_delete number_eq) (inserts_merged c d) d.deleted

  abbrev pub merged : Cell N → Cell N → Cell N
  merged c d = applied (after_update number_eq) (deletes_merged c d) d.updated

  abbrev pub ReadyInsert : Cell N → Json N → Type 0
  ReadyInsert c v = (c.inserted ≡ none) × (c.updated ≡ none)

  abbrev pub ReadyDelete : Cell N → Json N → Type 0
  ReadyDelete c v =
      (c.deleted ≡ none)
      × (fits number_eq v c.inserted ≡ true)
      × (fits number_eq v c.updated ≡ true)

  abbrev pub ReadyUpdate : Cell N → Json N → Type 0
  ReadyUpdate c v = c.deleted ≡ none

  -- What the merge needs at a key, and what it gives
  pub record Composes (c d : Cell N) (b : Option (Json N)) : Type 0 where
    pub ready_insert : (v : Json N) → d.inserted ≡ some v → ReadyInsert c v
    pub ready_delete : (v : Json N) → d.deleted ≡ some v → ReadyDelete (inserts_merged c d) v
    pub ready_update : (v : Json N) → d.updated ≡ some v → ReadyUpdate (deletes_merged c d) v
    pub fits_before : Fits (merged c d) b
    pub same : patched (merged c d) b ≡ patched d (patched c b)

  -- The second delta does not touch the key.
  Composes-untouched : (c : Cell N) (b : Option (Json N)) → Fits c b → Composes c idle b
  Composes-untouched c b f = record {
    ready_insert = λ v e. cc;
    ready_delete = λ v e. cc;
    ready_update = λ v e. cc;
    fits_before = f;
    same = refl;
  }

  null-ne_string : (v : Json N) → is_string v ≡ true → ¬ (json_equal number_eq null v ≡ true)
  unfolding json_equal
  null-ne_string (string s) h e = cc
  null-ne_string null h e = cc
  null-ne_string _ h e = cc

  -- A delete that is equal to a string knew that string.
  deleted_value :
      (w x v : Json N)
      → is_string x ≡ true
      → (w ≡ null) ⊎ (w ≡ x)
      → is_string v ≡ true
      → json_equal number_eq w v ≡ true
      → x ≡ v
  deleted_value w x v s (inl n) sv h = absurd (null-ne_string v sv (rw n at h))
  deleted_value w x v s (inr n) sv h = sym n ∙ (json_equal-is_string number_eq w v (rw n s)).0 h

  fits_deleted :
      (v w x : Json N)
      → is_string w ≡ true
      → (v ≡ null) ⊎ (v ≡ w)
      → some x ≡ some w
      → fits number_eq v (some x) ≡ true
  fits_deleted v w x s (inl n) q = rw n (ground arith)
  fits_deleted v w x s (inr n) q =
      let e : x ≡ v = some-injective x w q ∙ sym n in
      let sx : is_string x ≡ true = rw (some-injective x w q) s in
      rw ((json_equal-is_string number_eq x v sx).1 e)

  Composes-insert :
      (c : Cell N) (b : Option (Json N)) (v : Json N)
      → Fits c b
      → patched c b ≡ none
      → is_string v ≡ true
      → Composes c (inserting v) b
  Composes-insert c b v (untouched e) p s =
      let q : b ≡ none = rw e at p in
      rw e (record {
        ready_insert = λ v' k. (refl, refl);
        ready_delete = λ v' k. cc;
        ready_update = λ v' k. cc;
        fits_before = inserts v refl q s;
        same = refl;
      })
  Composes-insert c b v (inserts w e _ _) p s = let q : some w ≡ none = rw e at p in cc
  Composes-insert c b v (updates w _ e _ _ _) p s = let q : some w ≡ none = rw e at p in cc
  Composes-insert c b v (deletes w x e eb sx n) p s = elim (Bool-cases (json_equal number_eq w v)) [
    | inl same ↦ rw e (record {
      ready_insert = λ v' k. (refl, refl);
      ready_delete = λ v' k. cc;
      ready_update = λ v' k. cc;
      fits_before = untouched (rw same);
      same = rw same (eb ∙ ap some (deleted_value w x v sx n s same));
    })
    | inr other ↦ rw e (record {
      ready_insert = λ v' k. (refl, refl);
      ready_delete = λ v' k. cc;
      ready_update = λ v' k. cc;
      fits_before = updates v x (rw other) eb s sx;
      same = rw other;
    })
  ]

  Composes-delete :
      (c : Cell N) (b : Option (Json N)) (v w : Json N)
      → Fits c b
      → patched c b ≡ some w
      → is_string w ≡ true
      → (v ≡ null) ⊎ (v ≡ w)
      → Composes c (deleting v) b
  Composes-delete c b v w (untouched e) p s n =
      let q : b ≡ some w = rw e at p in
      rw e (record {
        ready_insert = λ v' k. cc;
        ready_delete = λ v' k. (refl, refl, refl);
        ready_update = λ v' k. cc;
        fits_before = deletes v w refl q s n;
        same = refl;
      })
  Composes-delete c b v w (inserts x e eb sx) p s n =
      let q : some x ≡ some w = rw e at p in
      rw e (record {
        ready_insert = λ v' k. cc;
        ready_delete = λ v' k. (refl, rw (← some-injective _ _ k) (fits_deleted v w x s n q), refl);
        ready_update = λ v' k. cc;
        fits_before = untouched refl;
        same = eb;
      })
  Composes-delete c b v w (updates x y e eb sx sy) p s n =
      let q : some x ≡ some w = rw e at p in
      rw e (record {
        ready_insert = λ v' k. cc;
        ready_delete = λ v' k. (refl, refl, rw (← some-injective _ _ k) (fits_deleted v w x s n q));
        ready_update = λ v' k. cc;
        fits_before = deletes null y refl eb sy (inl refl);
        same = refl;
      })
  Composes-delete c b v w (deletes x y e eb sx m) p s n = let q : none ≡ some w = rw e at p in cc

  Composes-update :
      (c : Cell N) (b : Option (Json N)) (v w : Json N)
      → Fits c b
      → patched c b ≡ some w
      → is_string v ≡ true
      → is_string w ≡ true
      → Composes c (updating v) b
  Composes-update c b v w (untouched e) p s sw =
      let q : b ≡ some w = rw e at p in
      rw e (record {
        ready_insert = λ v' k. cc;
        ready_delete = λ v' k. cc;
        ready_update = λ v' k. refl;
        fits_before = updates v w refl q s sw;
        same = refl;
      })
  Composes-update c b v w (inserts x e eb sx) p s sw = rw e (record {
    ready_insert = λ v' k. cc;
    ready_delete = λ v' k. cc;
    ready_update = λ v' k. refl;
    fits_before = inserts v refl eb s;
    same = refl;
  })
  Composes-update c b v w (updates x y e eb sx sy) p s sw = rw e (record {
    ready_insert = λ v' k. cc;
    ready_delete = λ v' k. cc;
    ready_update = λ v' k. refl;
    fits_before = updates v y refl eb s sy;
    same = refl;
  })
  Composes-update c b v w (deletes x y e eb sx m) p s sw = let q : none ≡ some w = rw e at p in cc

  pub composes :
      (c d : Cell N) (b : Option (Json N)) → Fits c b → Fits d (patched c b) → Composes c d b
  composes c d b f (untouched e) = rw e (Composes-untouched c b f)
  composes c d b f (inserts v e p s) = rw e (Composes-insert c b v f p s)
  composes c d b f (deletes v w e p s n) = rw e (Composes-delete c b v w f p s n)
  composes c d b f (updates v w e p s sw) = rw e (Composes-update c b v w f p s sw)
