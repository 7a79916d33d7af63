-- ===== src/Delta/Weight.antt =====
-- The number of operations of a delta, by the states between which it leads.
use leech.Base.{true, false, Option, ◌+◌, ◌≤◌, ◌≡◌, sym, ◌∙◌, ap, arith, Bytes}
use leech.Json.Syntax.{Json, Fields, get, has_key, size}
use leech.Json.Fields.{is_some, has_key-get}
use leech.Json.Sizes.{Within, size-Within, size-Within-two}
use leech.Delta.Merge.{Operations}
use leech.Delta.Cells.{Cell, cell, AllDistinct}
use leech.Delta.Compose.{Fits, untouched, inserts, deletes, updates, patched}
use leech.Delta.Correct.{patch, Applies}
use leech.Delta.Same.{weight}

module _ {N : Type 0} where
  inserted_is :
      (c : Cell N) (b : Option (Json N)) → is_some c.inserted ≡ true → is_some (patched c b) ≡ true
  inserted_is c b i = ground arith

  inserted_alone :
      (c : Cell N) (b : Option (Json N))
      → Fits c b
      → is_some c.inserted ≡ true
      → is_some c.updated ≡ false
  inserted_alone c b (untouched e) i = rw e
  inserted_alone c b (inserts v e f s) i = rw e
  inserted_alone c b (deletes v w e f s n) i = rw e
  inserted_alone c b (updates v w e f s t) i = let h : false ≡ true = rw e at i in cc

  updated_is :
      (c : Cell N) (b : Option (Json N)) → is_some c.updated ≡ true → is_some (patched c b) ≡ true
  updated_is c b i = ground arith

  deleted_was :
      (c : Cell N) (b : Option (Json N)) → Fits c b → is_some c.deleted ≡ true → is_some b ≡ true
  deleted_was c b (untouched e) i = let h : false ≡ true = rw e at i in cc
  deleted_was c b (inserts v e f s) i = let h : false ≡ true = rw e at i in cc
  deleted_was c b (deletes v w e f s n) i = rw f
  deleted_was c b (updates v w e f s t) i = let h : false ≡ true = rw e at i in cc

  -- A delta has at most as many operations as the two states have records.
  pub weight-Applies :
      (m : Operations N) (old new : Fields N)
      → AllDistinct m
      → Applies m (get old)
      → ((key : Bytes) → patch m (get old) key ≡ get new key)
      → weight m ≤ size new + size old
  weight-Applies m old new once applies patched_to =
      let inserts_in : Within m.inserts new = λ j h.
        has_key-get new j
        ∙ ap is_some (sym (patched_to j))
        ∙ inserted_is (cell m j) (get old j) (sym (has_key-get m.inserts j) ∙ h) in
      let updates_in : Within m.updates new = λ j h.
        has_key-get new j
        ∙ ap is_some (sym (patched_to j))
        ∙ updated_is (cell m j) (get old j) (sym (has_key-get m.updates j) ∙ h) in
      let deletes_in : Within m.deletes old = λ j h.
        has_key-get old j
        ∙ deleted_was (cell m j) (get old j) (applies j) (sym (has_key-get m.deletes j) ∙ h) in
      let apart : (j : Bytes) → has_key m.inserts j ≡ true → has_key m.updates j ≡ false = λ j h.
        has_key-get m.updates j
        ∙ inserted_alone (cell m j) (get old j) (applies j) (sym (has_key-get m.inserts j) ∙ h) in
      omega (
        arith,
        size-Within-two m.inserts m.updates new once.inserts_once once.updates_once apart inserts_in
            updates_in,
        size-Within m.deletes old once.deletes_once deletes_in,
      )
