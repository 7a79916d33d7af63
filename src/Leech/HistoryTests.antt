-- ===== src/Leech/HistoryTests.antt =====
-- The history of a key over two blocks, and the rebase of a snapshot.
use leech.Base.{ℕ, Bool, ltb, leb, ◌==◌, List, [], ◌∷◌, ◌≡◌, refl, arith, codes, some, ok, aborted}
use leech.Buffer.{equal}
use leech.CString.{string_equal}
use leech.Json.Syntax.{Json, Items, no_fields, item, no_items, object, get, set}
use leech.Json.Access.{object_get_string, object_get_array}
use leech.Json.Composer.{json_compose}
use leech.Json.Parser.{
  json_parse, parse, trim_whitespace, check_token, parse_token, separator, parse_number,
}
use leech.Csv.Composer.{csv_compose_record}
use leech.Json.SetMinusLaws.{all_strings-Strings}
use leech.Head.{Files, read_file}
use leech.Block.Names.{blocks_key, lastknown_key}
use leech.Block.Create.{block_get_payload}
use leech.Table.States.{load_old_state}
use leech.Leech.Carries.{Carries}
use leech.Leech.Diff.{stored_block}
use leech.Leech.Config.{TableInfo, instance_get_table}
use leech.Leech.History.{history_find_record, history_append_record}
use leech.Leech.HistoryChain.{
  Entry, BlocksFrom, chain_end, a_block, record_entries, window, history_find_record-window,
  history_append_record-no_subsidiary,
}
use leech.Leech.Rebase.{rebase, rebase-Snapshots}
use leech.Leech.Tests.{table, config, ids, rows_2, states_of, delta_1, delta_2}
use leech.Leech.DiffTests.{
  scan_digit, print_digit, id_a, id_b, blocks, work_dir, load_a, load_b, at_head,
}

abbrev at_least : ℕ → ℕ → Bool
at_least a b = leb b a

abbrev entries : List (Entry ℕ)
entries =
    (record { block_id = id_b; timestamp = 5; payload = item delta_2 no_items })
    ∷ (record { block_id = id_a; timestamp = 5; payload = item delta_1 no_items })
    ∷ []

from_head : BlocksFrom blocks (stored_block scan_digit some blocks) id_b entries
unfolding read_file equal get
from_head = a_block refl load_b refl refl refl (a_block refl load_a refl refl refl (chain_end refl))

history_find_record-window_example :
    history_find_record config
      (codes "T")
      (codes "1")
      ltb
      at_least
      blocks
      (stored_block scan_digit some blocks)
      0
      9
      3
      id_b
      no_items
    ≡ record_entries config (codes "T") (codes "1") (window ltb at_least 0 9 entries) no_items
history_find_record-window_example =
    history_find_record-window config (codes "T") (codes "1") ltb at_least blocks
      (stored_block scan_digit some blocks) 0 9 3 no_items from_head (omega arith)

abbrev snapshots : Files
snapshots = (codes "T", codes "{\"1\":\"George\"}") ∷ []

is_snapshot : load_old_state scan_digit snapshots table ≡ ok (object rows_2)
unfolding load_old_state read_file equal json_parse parse trim_whitespace check_token parse_token
    separator parse_number set get
is_snapshot = refl

rebase-Snapshots_example :
    (patch block : Json ℕ) × (payload : Items ℕ) × (rebase ◌==◌ scan_digit print_digit work_dir
        snapshots
        (ok config)
        1
        5
        6
      ≡ ok (json_compose print_digit patch config.pretty_print))
    × (object_get_array patch blocks_key ≡ ok (item block no_items))
    × (object_get_string patch lastknown_key ≡ ok id_b)
    × (block_get_payload block ≡ ok payload)
    × Carries (λ id. get no_fields) (states_of rows_2) ids payload
rebase-Snapshots_example =
    rebase-Snapshots ◌==◌ scan_digit print_digit config (states_of rows_2) work_dir snapshots 1 5 6
      id_b ((rows_2, is_snapshot, all_strings-Strings rows_2 refl, refl), tt) at_head

-- A table with a primary field only
abbrev bare : TableInfo
bare = record table { all_fields = codes "id" ∷ []; subsidiary_fields = [] }

bare_found : instance_get_table (record config { tables = bare ∷ [] }) (codes "T") ≡ some bare
unfolding instance_get_table string_equal equal
bare_found = refl

history_append_record-no_subsidiary_example :
    history_append_record {N = ℕ}
      (record config { tables = bare ∷ [] })
      (codes "T")
      no_items
      id_a
      5
      (codes "insert")
      (csv_compose_record [])
    ≡ aborted
history_append_record-no_subsidiary_example =
    history_append_record-no_subsidiary (record config { tables = bare ∷ [] }) (codes "T") bare
      bare_found refl no_items id_a 5 (codes "insert")
