-- ===== src/Leech/CommitTables.antt =====
-- lib/leech.c: the loop of `Commit` over the tables.
use mathlib.Core.Path.{subst}
use leech.Base.{
  ℕ, Bool, true, false, List, [], ◌∷◌, Option, if◌then◌else◌, ◌≡◌, refl, ap, ◌∙◌, arith, Bytes, ok,
}
use leech.Buffer.{equal}
use leech.Json.Syntax.{Json, Items, Fields, object, no_items, item, get, Distinct}
use leech.Json.Arrays.{items_append}
use leech.Json.Fields.{listed, Once, equal_refl}
use leech.Json.SetMinusLaws.{Strings}
use leech.Json.Layout.{is_plain, all_plain}
use leech.Json.Numbers.{Reads}
use leech.Json.ValueTrip.{json_parse-json_compose}
use leech.Head.{Files, read_file}
use leech.Head.Stored.{read_file-write_file, read_file-write_file-other}
use leech.Table.States.{Source, load_new_state, load_old_state, store_new_state, snapshot_state}
use leech.Leech.Config.{TableInfo}
use leech.Leech.Carries.{States, HasDelta, Carries, nothing, carry}
use leech.Delta.Loop.{listed-ne}
use leech.Leech.Commit.{commit_tables}
use leech.Leech.TableDelta.{Strings-plain, table_delta_lem}

abbrev pub identifiers : List TableInfo → List Bytes
identifiers [] = []
identifiers (table_def ∷ table_defs) = table_def.identifier ∷ identifiers table_defs

module _ {N : Type 0} where
  abbrev pub append_items : Items N → Items N → Items N
  append_items no_items more = more
  append_items (item v items) more = item v (append_items items more)

  pub append_items-items_append :
      (items : Items N) (v : Json N) (more : Items N)
      → append_items (items_append items v) more ≡ append_items items (item v more)
  append_items-items_append no_items v more = refl
  append_items-items_append (item w items) v more =
      ap (item w) (append_items-items_append items v more)

  pub append_items-no_items : (items : Items N) → items ≡ append_items items no_items
  append_items-no_items no_items = refl
  append_items-no_items (item v items) = ap (item v) (append_items-no_items items)

module _ {N : Type 0} (sscanf : Bytes → Option (N × ℕ)) where
  -- The snapshot of a table holds its state.
  abbrev pub Snapshot : Files → States N → TableInfo → Type 0
  Snapshot snapshots states table_def =
      (rows : Fields N) × (load_old_state sscanf snapshots table_def ≡ ok (object rows))
      × Strings rows
      × (get rows ≡ states table_def.identifier)

  abbrev pub Snapshots : Files → States N → List TableInfo → Type 0
  Snapshots snapshots states [] = Unit
  Snapshots snapshots states (table_def ∷ table_defs) =
      Snapshot snapshots states table_def × Snapshots snapshots states table_defs

  -- The snapshot depends on the file of the table only.
  Snapshot-file :
      (before after : Files) (states : States N) (table_def : TableInfo)
      → read_file after table_def.identifier ≡ read_file before table_def.identifier
      → Snapshot before states table_def
      → Snapshot after states table_def
  unfolding load_old_state
  Snapshot-file before after states table_def same (rows, load, s, e) =
      (rows, ap (snapshot_state sscanf) same ∙ load, s, e)

  Snapshots-files :
      (before after : Files) (states : States N) (table_defs : List TableInfo)
      → ((name : Bytes)
          → listed (identifiers table_defs) name ≡ true
          → read_file after name ≡ read_file before name)
      → Snapshots before states table_defs
      → Snapshots after states table_defs
  Snapshots-files before after states [] same h = tt
  Snapshots-files before after states (table_def ∷ table_defs) same (h, rest) = (
    Snapshot-file before after states table_def
        (same table_def.identifier (rw (equal_refl table_def.identifier) refl)) h,
    Snapshots-files before after states table_defs (λ name l. same name (ground (arith, l))) rest,
  )

module _ {N Conn : Type 0} (print : N → Bytes) (sscanf : Bytes → Option (N × ℕ))
    (source : Source Conn) where
  -- The source has the given rows of each table, strings with each key once.
  abbrev pub Loads : (Bytes → Fields N) → List TableInfo → Type 0
  Loads new [] = Unit
  Loads new (table_def ∷ table_defs) =
      ((load_new_state source table_def ≡ ok (object (new table_def.identifier)))
        × Strings (new table_def.identifier)
        × Distinct (new table_def.identifier))
      × Loads new table_defs

  module _ (digits : N → Bytes) (whole : N → Bool)
      (reads : (n : N) → whole n ≡ true → Reads print sscanf digits n) where
    -- A state that is stored is loaded again.
    load_old_state-store_new_state :
        (snapshots : Files) (table_def : TableInfo) (pretty : Bool) (rows : Fields N)
        → Strings rows
        → Distinct rows
        → load_old_state sscanf
            (store_new_state print snapshots table_def pretty (object rows))
            table_def
          ≡ ok (object rows)
    unfolding load_old_state store_new_state is_plain
    load_old_state-store_new_state snapshots table_def pretty rows s d =
        rw (read_file-write_file snapshots table_def.identifier _) (
          json_parse-json_compose print sscanf digits whole reads (object rows) pretty
            (Strings-plain whole rows s d))

    -- The file of one table stays, or holds its new state.
    abbrev pub stored : Bool → Bool → Files → TableInfo → Fields N → Files
    stored changed pretty snapshots table_def rows =
        if changed
        then store_new_state print snapshots table_def pretty (object rows)
        else snapshots

    stored-other :
        (changed pretty : Bool) (snapshots : Files) (table_def : TableInfo) (rows : Fields N)
        (name : Bytes)
        → equal table_def.identifier name ≡ false
        → read_file (stored changed pretty snapshots table_def rows) name ≡ read_file snapshots name
    unfolding store_new_state
    stored-other true pretty snapshots table_def rows name ne =
        read_file-write_file-other snapshots table_def.identifier _ name ne
    stored-other false pretty snapshots table_def rows name ne = refl

    pub stored-Snapshot :
        (changed pretty : Bool) (snapshots : Files) (table_def : TableInfo)
        (rows old_rows : Fields N) (states : States N)
        → Strings rows
        → Distinct rows
        → get rows ≡ states table_def.identifier
        → load_old_state sscanf snapshots table_def ≡ ok (object old_rows)
        → Strings old_rows
        → (changed ≡ false → get old_rows ≡ get rows)
        → Snapshot sscanf (stored changed pretty snapshots table_def rows) states table_def
    stored-Snapshot true pretty snapshots table_def rows old_rows states s d e load so same =
        (rows, load_old_state-store_new_state snapshots table_def pretty rows s d, s, e)
    stored-Snapshot false pretty snapshots table_def rows old_rows states s d e load so same =
        (old_rows, load, so, same refl ∙ e)

    module _ (number_eq : N → N → Bool) (sha1 : Bytes → Bytes) (pretty : Bool)
        (new : Bytes → Fields N) (states : States N) where
      -- The loop of `Commit` makes a delta of each table, from the state of its snapshot to that of its
      -- source, and leaves this in the snapshot. No other file changes.
      pub commit_tables-Carries :
          (table_defs : List TableInfo) (snapshots : Files) (deltas : Items N)
          → Loads new table_defs
          → Snapshots sscanf snapshots states table_defs
          → Once (identifiers table_defs)
          → (after : Files) × (more : Items N) × (commit_tables number_eq print sscanf sha1 source
                pretty table_defs snapshots deltas
              ≡ (after, ok (append_items deltas more)))
            × Carries states (λ j. get (new j)) (identifiers table_defs) more
            × (all_plain whole more ≡ true)
            × Snapshots sscanf after (λ j. get (new j)) table_defs
            × ((name : Bytes)
                → listed (identifiers table_defs) name ≡ false
                → read_file after name ≡ read_file snapshots name)
      unfolding commit_tables is_plain
      commit_tables-Carries [] snapshots deltas loads held once = (
        snapshots,
        no_items,
        ap (λ items. (snapshots, ok items)) (append_items-no_items deltas),
        nothing,
        refl,
        tt,
        λ name l. refl,
      )
      commit_tables-Carries (table_def ∷ table_defs) snapshots deltas ((load, sn, dn), loads)
            ((old_rows, old, so, e), held) once =
          let id = table_def.identifier in
          let (delta, changed, run, has, plain, same) =
            table_delta_lem number_eq print sscanf sha1 source whole snapshots table_def (new id)
              old_rows load old sn so in
          let between = stored changed pretty snapshots table_def (new id) in
          let held' =
            Snapshots-files sscanf snapshots between states table_defs
              (λ name l.
                stored-other changed pretty snapshots table_def (new id) name
                  (listed-ne id name (identifiers table_defs) once.0 l))
              held in
          let (after, more, run', carries, plains, held'', others) =
            commit_tables-Carries table_defs between (items_append deltas delta) loads held'
              once.1 in
          (
            after,
            item delta more,
            rw run (
                run'
                ∙ ap (λ items. (after, ok items)) (append_items-items_append deltas delta more)),
            carry (subst (λ state. HasDelta state (get (new id)) id delta) e has) carries,
            rw plain plains,
            (
              Snapshot-file sscanf between after (λ j. get (new j)) table_def (others id once.0)
                  (stored-Snapshot changed pretty snapshots table_def (new id) old_rows
                    (λ j. get (new j)) sn dn refl old so same),
              held'',
            ),
            λ name l.
                others name (ground (arith, l))
                ∙ stored-other changed pretty snapshots table_def (new id) name (ground (arith, l)),
          )
