-- ===== src/Delta/Count.antt =====
-- `LCH_DeltaGetNumOperations` on a delta with its three objects.
use leech.Base.{ℕ, ◌≡◌, ok}
use leech.Json.Syntax.{Json, size}
use leech.Json.Fields.{has_key-get}
use leech.Delta.Create.{get_num_operations}
use leech.Delta.Merge.{Operations}
use leech.Delta.Parts.{HasOperations}

-- The counts are the numbers of entries of the three objects, whatever the caller's variable held.
pub get_num_operations_lem :
    {N : Type 0} (delta : Json N) (operations : Operations N) (before : ℕ)
    → HasOperations delta operations
    → get_num_operations delta before
      ≡ ok (size operations.inserts, size operations.deletes, size operations.updates)
unfolding get_num_operations
get_num_operations_lem delta operations before h =
    rw h.is_object
      (rw (has_key-get, has_key-get, has_key-get) (rw (h.inserts_at, h.deletes_at, h.updates_at)))
