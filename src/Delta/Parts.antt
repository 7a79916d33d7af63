-- ===== src/Delta/Parts.antt =====
-- The three objects of a delta: read, written back and removed under their keys.
use leech.Base.{some, if◌then◌else◌, ◌≡◌, refl, Bytes, ok}
use leech.Buffer.{equal}
use leech.Json.Syntax.{Json, Fields, object, get, set}
use leech.Json.Fields.{get-set}
use leech.Delta.Names.{type_key, id_key, inserts_key, deletes_key, updates_key}
use leech.Delta.Create.{get_table_id, get_delta_type}
use leech.Delta.Merge.{Operations, get_operations, put_operations}

module _ {N : Type 0} where
  -- The entries of a delta, with the three objects among them
  pub record HasOperations (delta : Json N) (operations : Operations N) : Type 0 where
    pub entries : Fields N
    pub is_object : delta ≡ object entries
    pub inserts_at : get entries inserts_key ≡ some (object operations.inserts)
    pub deletes_at : get entries deletes_key ≡ some (object operations.deletes)
    pub updates_at : get entries updates_key ≡ some (object operations.updates)

  pub HasOperations-get :
      (delta : Json N) (operations : Operations N)
      → HasOperations delta operations
      → get_operations delta ≡ ok operations
  HasOperations-get delta operations h = rw (h.is_object, h.inserts_at, h.deletes_at, h.updates_at)

  pub put_operations-HasOperations :
      (delta : Json N) (before after : Operations N)
      → HasOperations delta before
      → (delta' : Json N) × (put_operations delta after ≡ ok delta')
        × HasOperations delta' after
        × (get_table_id delta' ≡ get_table_id delta)
        × (get_delta_type delta' ≡ get_delta_type delta)
  unfolding equal
  put_operations-HasOperations delta before after h =
      let e1 = set h.entries inserts_key (object after.inserts) in
      let e2 = set e1 deletes_key (object after.deletes) in
      let e3 = set e2 updates_key (object after.updates) in
      let look : (k : Bytes)
          → get e3 k ≡ (
              if equal updates_key k
              then some (object after.updates)
              else if equal deletes_key k
              then some (object after.deletes)
              else if equal inserts_key k
              then some (object after.inserts)
              else get h.entries k) =
        λ k. rw (get-set, get-set, get-set) in
      (
        object e3,
        rw h.is_object,
        record {
          entries = e3;
          is_object = refl;
          inserts_at = look inserts_key;
          deletes_at = look deletes_key;
          updates_at = look updates_key;
        },
        rw (h.is_object, look id_key),
        rw (h.is_object, look type_key),
      )
