-- ===== src/Leech/Tests.antt =====
-- Runs of the operations of the library, and the instances of the theorems. A table holds two rows; its
-- first block inserts them, and the second changes one and takes the other away.
use leech.Base.{
  ℕ, true, false, List, [], ◌∷◌, some, if◌then◌else◌, ◌≡◌, refl, subst, Bool-cases, inl, inr, Bytes,
  codes, Result, ok, failed, aborted, ◌==◌, arith,
}
use leech.Buffer.{equal}
use leech.Buffer.Order.{equal_iff}
use leech.CString.{string_equal, until_null}
use leech.Json.Syntax.{
  size, Json, null, Items, Fields, string, number, array, object, no_items, item, no_fields, field,
  get, has_key, keys, set,
}
use leech.Json.Equal.{json_equal, copy}
use leech.Json.SetMinus.{keys_minus, changed_values}
use leech.Json.SetMinusLaws.{all_strings-Strings}
use leech.Block.Create.{block_get_payload}
use leech.Delta.Create.{delta_create}
use leech.Leech.Config.{TableInfo, Instance, find_table, instance_get_table}
use leech.Leech.Merge.{merge_deltas, merge_blocks}
use leech.Leech.Missing.{merge_deltas-missing}
use leech.Leech.Carries.{States, HasDelta, Carries, nothing, carry, delta_create-HasDelta}
use leech.Leech.MergeDeltas.{Merges}
use leech.Leech.Chain.{Chain, at_end, link, merge_blocks-empty}

abbrev entry : Bytes → Bytes → Fields ℕ → Fields ℕ
entry k v = field k (string v)

abbrev pub table : TableInfo
table = record {
  identifier = codes "T";
  all_fields = codes "id" ∷ codes "name" ∷ [];
  primary_fields = codes "id" ∷ [];
  subsidiary_fields = codes "name" ∷ [];
  merge_blocks = true;
  src_params = codes "src";
  src_table_name = codes "beatles";
  dst_params = codes "dst";
  dst_table_name = codes "beatles";
}

abbrev pub config : Instance
config = record { chain_length = 10; pretty_print = false; auto_purge = false; tables = table ∷ [] }

abbrev pub ids : List Bytes
ids = codes "T" ∷ []

abbrev pub rows_1 : Fields ℕ
rows_1 = entry (codes "1") (codes "Paul") (entry (codes "2") (codes "John") no_fields)

abbrev pub rows_2 : Fields ℕ
rows_2 = entry (codes "1") (codes "George") no_fields

abbrev pub states_of : Fields ℕ → States ℕ
states_of rows id = get rows

abbrev delta_of : Fields ℕ → Fields ℕ → Fields ℕ → Json ℕ
delta_of i d u = object (
    field (codes "type") (string (codes "delta")) (
      field (codes "id") (string (codes "T")) (
        field (codes "inserts") (object i)
          (field (codes "deletes") (object d) (field (codes "updates") (object u) no_fields)))))

abbrev pub delta_1 : Json ℕ
delta_1 = delta_of rows_1 no_fields no_fields

abbrev pub delta_2 : Json ℕ
delta_2 = delta_of no_fields (entry (codes "2") (codes "John") no_fields) rows_2

abbrev block_of : Bytes → Json ℕ → Json ℕ
block_of parent delta = object (
    field (codes "version") (number 1) (
      field (codes "timestamp") (number 5) (
        field (codes "parent") (string parent)
          (field (codes "payload") (array (item delta no_items)) no_fields))))

created_1 : delta_create ◌==◌ (codes "T") (codes "delta") rows_1 no_fields ≡ ok delta_1
unfolding delta_create keys_minus changed_values equal get set has_key keys json_equal copy
created_1 = refl

created_2 : delta_create ◌==◌ (codes "T") (codes "delta") rows_2 rows_1 ≡ ok delta_2
unfolding delta_create keys_minus changed_values equal get set has_key keys json_equal copy
created_2 = refl

ok-eq : {a b : Json ℕ} {r : Result (Json ℕ)} → r ≡ ok a → r ≡ ok b → a ≡ b
ok-eq p q = cc

pub delta_1-HasDelta : HasDelta (get no_fields) (get rows_1) (codes "T") delta_1
delta_1-HasDelta =
    let (delta, run, h) =
      delta_create-HasDelta ◌==◌ (codes "T") (codes "delta") rows_1 no_fields
        (all_strings-Strings rows_1 refl) (all_strings-Strings no_fields refl) in
    subst (HasDelta (get no_fields) (get rows_1) (codes "T")) (ok-eq run created_1) h

pub delta_2-HasDelta : HasDelta (get rows_1) (get rows_2) (codes "T") delta_2
delta_2-HasDelta =
    let (delta, run, h) =
      delta_create-HasDelta ◌==◌ (codes "T") (codes "delta") rows_2 rows_1
        (all_strings-Strings rows_2 refl) (all_strings-Strings rows_1 refl) in
    subst (HasDelta (get rows_1) (get rows_2) (codes "T")) (ok-eq run created_2) h

abbrev final_id : Bytes
final_id = codes "0"

abbrev load_block : Bytes → Result (Json ℕ)
load_block id =
    if equal id (codes "a")
    then ok (block_of (codes "0") delta_1)
    else if equal id (codes "b")
    then ok (block_of (codes "a") delta_2)
    else failed

no_table : {A : Type 0} → false ≡ true → A
no_table e = cc

pub merges : Merges config ids
unfolding equal string_equal instance_get_table find_table
merges id l = elim (Bool-cases (equal (codes "T") id)) [
  | inl e ↦
      subst
        (λ id.
          (t : TableInfo) × (instance_get_table config (until_null id) ≡ some t)
          × (t.merge_blocks ≡ true))
        ((equal_iff (codes "T") id).0 e) (table, refl, refl)
  | inr e ↦ no_table (rw e at l)
]

unfoldable chain :
    Chain load_block ids final_id (states_of no_fields) 2 (codes "b") (states_of rows_2)
unfolding equal string_equal get
chain =
    link {from = states_of rows_1} (block_of (codes "a") delta_2) (codes "a")
      (item delta_2 no_items) refl refl refl refl (carry delta_2-HasDelta nothing)
      (link (block_of (codes "0") delta_1) (codes "0") (item delta_1 no_items) refl refl refl refl
        (carry delta_1-HasDelta nothing) (at_end refl))

merge_blocks-empty_example :
    (merged : Json ℕ) × (payload : Items ℕ) × (merge_blocks ◌==◌ config load_block 4 final_id
        (object (
          field
            (codes "parent")
            (string (codes "b"))
            (field (codes "payload") (array no_items) no_fields)))
        null
      ≡ ok (merged, null))
    × (block_get_payload merged ≡ ok payload)
    × Carries (states_of no_fields) (states_of rows_2) ids payload
unfolding equal get chain size
merge_blocks-empty_example =
    merge_blocks-empty ◌==◌ config load_block final_id ids (states_of no_fields) (refl, tt) merges 4
      (object (
        field (codes "parent") (string (codes "b"))
          (field (codes "payload") (array no_items) no_fields)))
      null (states_of rows_2) chain (omega arith) refl refl (omega arith)

-- A block whose payload is empty has no delta for the table.
merge_deltas-missing_example :
    merge_deltas ◌==◌ config 1 (object no_fields) no_items (item delta_2 no_items) 0 ≡ aborted
merge_deltas-missing_example =
    merge_deltas-missing ◌==◌ config 0 no_fields no_items no_items delta_2 (codes "T") []
      (states_of no_fields) (states_of rows_1) (get rows_1) (get rows_2) nothing delta_2-HasDelta
      refl
