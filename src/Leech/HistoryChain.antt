-- ===== src/Leech/HistoryChain.antt =====
-- lib/leech.c: which blocks `HistoryFindRecord` records, against a filter on the chain.
use leech.Base.{
  ℕ, zero, suc, ◌<◌, Bool, not, List, [], ◌∷◌, none, some, length, if◌then◌else◌, ◌≡◌, refl, arith,
  Bool-cases, inl, inr, Bytes, Result, ok, failed, aborted, out_of_fuel, ◌>>=◌,
}
use leech.Json.Syntax.{Json, Items}
use leech.Head.{Files, read_file}
use leech.Block.Create.{block_get_parent_id, block_get_timestamp, block_get_payload}
use leech.Buffer.{trim_start, trim}
use leech.Csv.Parser.{csv_parse_record, parse_field}
use leech.Csv.Composer.{csv_compose_record, compose_record}
use leech.Leech.Config.{TableInfo, Instance, instance_get_table}
use leech.Leech.History.{history_append_record, record_deltas, history_find_record}

-- A block as the history sees it
pub record Entry (N : Type 0) : Type 0 where
  pub block_id : Bytes
  pub timestamp : N
  pub payload : Items N

-- The elements before the first that fails a test
abbrev pub take_while {ℓ} : {A : Type ℓ} → (A → Bool) → List A → List A
take_while test [] = []
take_while test (a ∷ rest) = let more = take_while test rest in if test a then a ∷ more else []

abbrev pub filter {ℓ} : {A : Type ℓ} → (A → Bool) → List A → List A
filter test [] = []
filter test (a ∷ rest) = let more = filter test rest in if test a then a ∷ more else more

bind_congr :
    {A B : Type 0} (r : Result A) (f g : A → Result B)
    → ((a : A) → f a ≡ g a)
    → (r >>= f) ≡ (r >>= g)
bind_congr (ok a) f g same = same a
bind_congr failed f g same = refl
bind_congr aborted f g same = refl
bind_congr out_of_fuel f g same = refl

module _ {N : Type 0} (blocks : Files) (load_block : Bytes → Result (Json N)) where
  -- The blocks from an identifier on, up to one that has no file
  pub data BlocksFrom : Bytes → List (Entry N) → Type 0 where
    chain_end : {id : Bytes} → read_file blocks id ≡ none → BlocksFrom id []
    a_block :
        {id parent_id raw : Bytes} {block : Json N} {timestamp : N} {payload : Items N}
        {entries : List (Entry N)}
        → read_file blocks id ≡ some raw
        → load_block id ≡ ok block
        → block_get_parent_id block ≡ ok parent_id
        → block_get_timestamp block ≡ ok timestamp
        → block_get_payload block ≡ ok payload
        → BlocksFrom parent_id entries
        → BlocksFrom id
            (record { block_id = id; timestamp = timestamp; payload = payload } ∷ entries)

module _ {N : Type 0} (config : Instance) (table_id primary_key : Bytes) where
  -- The deltas of each block are recorded, one block behind the other.
  unfoldable pub record_entries : List (Entry N) → Items N → Result (Items N)
  record_entries [] history = ok history
  record_entries (entry ∷ entries) history =
      record_deltas config table_id primary_key entry.payload entry.block_id entry.timestamp history
      >>= record_entries entries

module _ {N : Type 0} (less at_least : N → N → Bool) (from to : N) where
  -- The blocks of the window: from the head back to the first that is too old, without those that are
  -- too young
  abbrev pub window : List (Entry N) → List (Entry N)
  window entries =
      filter (λ (entry : Entry N). not (at_least entry.timestamp to))
        (take_while (λ (entry : Entry N). not (less entry.timestamp from)) entries)

module _ {N : Type 0} (config : Instance) (table_id primary_key : Bytes)
    (less at_least : N → N → Bool) (blocks : Files) (load_block : Bytes → Result (Json N))
    (from to : N) where
  -- `HistoryFindRecord` on a chain of blocks that can be read records the deltas of the blocks in the
  -- window, and ends as this does, on fuel above the length of the chain.
  pub history_find_record-window :
      (fuel : ℕ) (history : Items N) {id : Bytes} {entries : List (Entry N)}
      → BlocksFrom blocks load_block id entries
      → length entries < fuel
      → history_find_record config table_id primary_key less at_least blocks load_block from to fuel
          id history
        ≡ record_entries config table_id primary_key (window less at_least from to entries) history
  unfolding history_find_record record_entries
  history_find_record-window zero history chain lt = absurd (omega arith)
  history_find_record-window (suc fuel) history (chain_end e) lt = rw (e, history_find_record) refl
  history_find_record-window (suc fuel) history
        (a_block {id} {parent_id} {raw} {block} {timestamp} {payload} {entries} e l p t d chain)
        lt =
      let rest =
        λ (history : Items N). history_find_record-window fuel history chain (omega (arith, lt)) in
      rw (e, history_find_record)
        (rw l (
          rw p (
            rw t (elim (Bool-cases (less timestamp from)) [
              | inl old ↦ rw old refl
              | inr recent ↦ elim (Bool-cases (at_least timestamp to)) [
                | inl young ↦ rw recent (rw young (rest history))
                | inr inside ↦ rw recent (
                    rw inside (
                      rw d (
                        bind_congr
                          (record_deltas config table_id primary_key payload id timestamp history)
                          (λ h.
                            history_find_record config table_id primary_key less at_least blocks
                              load_block from to fuel parent_id h)
                          (record_entries config table_id primary_key
                            (window less at_least from to entries))
                          rest)))
              ]
            ]))))

nothing_composed : csv_compose_record [] ≡ []
unfolding csv_compose_record compose_record
nothing_composed = refl

nothing_parsed : csv_parse_record [] ≡ ok ([] ∷ [])
unfolding csv_parse_record parse_field trim_start trim
nothing_parsed = refl

-- For a table without subsidiary fields a record is composed to nothing, which the parser reads as one
-- empty field: `HistoryAppendRecord` runs into its assertion on their number.
pub history_append_record-no_subsidiary :
    {N : Type 0} (config : Instance) (table_id : Bytes) (table_info : TableInfo)
    → instance_get_table config table_id ≡ some table_info
    → table_info.subsidiary_fields ≡ []
    → (history : Items N) (block_id : Bytes) (timestamp : N) (operation : Bytes)
    → history_append_record config table_id history block_id timestamp operation
        (csv_compose_record table_info.subsidiary_fields)
      ≡ aborted
unfolding history_append_record
history_append_record-no_subsidiary config table_id table_info found none_of_them history block_id
      timestamp operation =
    rw none_of_them (rw nothing_composed (rw nothing_parsed (rw found (rw none_of_them refl))))
