-- ===== src/Mysql/Execute/Run.antt =====
-- func (s *state) execute of plugins/right/mysql-mock/state.go, in the order of its statements.
-- `before` and `after` are the context's error at the two places where the code asks for it.
use x_mock_mcp.Prelude.{
  ℕ, String, true, not, Option, none, some, List, [], ◌∷◌, Assoc, lookup, insert, length, nat_eq,
  if◌then◌else◌,
}
use x_mock_mcp.Prelude.Text.{contains}
use x_mock_mcp.Mysql.Value.{Value, Column, SessionStatus, validate_value}
use x_mock_mcp.Mysql.Schema
use x_mock_mcp.Mysql.Schema.{Entity, Table, Plan, select, update, delete, find_table, key_column}
use x_mock_mcp.Mysql.Constraints.{DbError, db_error, context, validate_initial, constraint_error}
use x_mock_mcp.Mysql.State.{
  RecordVersion, Connection, Store, next_version, conn, put_conn, status, at_table, view,
  as_initial,
}
use x_mock_mcp.Mysql.Execute.Select.{Outcome, done, refused, RowsResult, run_select}
use x_mock_mcp.Mysql.Execute.Changes.{Changes, changes_of, apply_changes}

-- mysqlv1.OK and mysqlv1.Rows, and the evidence that is added to either.
pub data Answer : Type 0 where
  row_set : RowsResult → Answer
  ok_packet : ℕ → ℕ → SessionStatus → Answer

pub record Evidence : Type 0 where
  pub statement_id : String
  pub state_version : ℕ
  pub phase : String
  pub source : String

-- committed[t][k].version, 0 where there is no such row
unfoldable pub version_at : String → String → Assoc (Assoc RecordVersion) → ℕ
unfolding at_table
version_at t k m = elim (lookup k (at_table t m)) [ none ↦ 0 | some r ↦ r.version ]

unfoldable pub check_params : List Column → List Value → Option DbError
unfolding validate_value
check_params (c ∷ cs) (v ∷ vs) =
    let rest = check_params cs vs in
    elim (validate_value c v) [ some e ↦ some (db_error 1210 "HY000" e) | none ↦ rest ]
check_params _ _ = none

-- The connection as the statement finds it: without autocommit, it opens a transaction.
unfoldable pub started : String → Store → Connection
unfolding conn
started id s = let c = conn id s in if c.autocommit then c else record c { active = true }

-- c.base[identity], unless it is there already
unfoldable pub note_base : String → String → Assoc (Assoc RecordVersion) → Assoc ℕ → Assoc ℕ
unfolding version_at
note_base t k committed b = elim (lookup k b) [
  | some v ↦ b
  | none ↦ insert k (version_at t k committed) b
]

unfoldable pub note_bases :
    String → Assoc (Option Entity) → Assoc (Assoc RecordVersion) → Assoc ℕ → Assoc ℕ
unfolding note_base
note_bases t [] committed b = b
note_bases t ((k, row) ∷ m) committed b = note_bases t m committed (note_base t k committed b)

unfoldable pub write_all {ℓ} : {A : Type ℓ} → Assoc A → Assoc A → Assoc A
write_all [] m = m
write_all ((k, v) ∷ w) m = write_all w (insert k v m)

unfoldable pub versioned : ℕ → Assoc (Option Entity) → Assoc RecordVersion
versioned v [] = []
versioned v ((k, row) ∷ m) = (k, record { row = row; version = v }) ∷ versioned v m

-- s.committed[t][k] = recordVersion{row, v} for every change
unfoldable pub commit_rows :
    String → ℕ → Assoc (Option Entity) → Assoc (Assoc RecordVersion) → Assoc (Assoc RecordVersion)
unfolding write_all versioned at_table
commit_rows t v rows committed =
    insert t (write_all (versioned v rows) (at_table t committed)) committed

-- The changes of a statement inside a transaction.
unfoldable pub hold :
    String → Assoc (Option Entity) → Assoc (Assoc RecordVersion) → Connection → Connection
unfolding note_bases write_all at_table
hold t rows committed c = record c {
  base = insert t (note_bases t rows committed (at_table t c.base)) c.base;
  writes = insert t (write_all rows (at_table t c.writes)) c.writes;
}

unfoldable pub with_insert_id : ℕ → Connection → Connection
with_insert_id n c = if nat_eq n 0 then c else record c { last_insert = n }

-- Where the changes go: the open transaction, or the committed rows under the next version.
unfoldable pub keep_changes : String → String → Changes → Connection → Store → Store
unfolding hold commit_rows with_insert_id put_conn
keep_changes id t ch c s =
    if c.active
    then put_conn id (with_insert_id ch.insert_id (hold t ch.rows s.committed c)) s
    else put_conn id (with_insert_id ch.insert_id c) (record s {
      version = next_version s.version;
      committed = commit_rows t (next_version s.version) ch.rows s.committed;
    })

-- validateInitial of the view with the changes in it
unfoldable pub check_changes :
    Schema.Kind → String → Assoc (Option Entity) → Connection → Store → Option DbError
unfolding validate_initial as_initial apply_changes view at_table constraint_error contains
check_changes kind t rows c s =
    let v = view s (some c) in
    elim (validate_initial s.tables (as_initial (insert t (apply_changes rows (at_table t v)) v))) [
      | none ↦ none
      | some message ↦ some (elim kind [
        | delete ↦
            if contains message "foreign key"
            then db_error 1451 "23000" message
            else constraint_error message
        | _ ↦ constraint_error message
      ])
    ]

abbrev pub affected : Schema.Kind → Connection → Changes → ℕ
affected update c ch = if c.found_rows then ch.matched else ch.changed
affected _ c ch = ch.changed

-- From the check of the changes to the result.
unfoldable pub settle :
    Option String
    → String
    → Schema.Kind
    → String
    → Connection
    → Changes
    → Store
    → Store × Outcome Answer
unfolding check_changes keep_changes status
settle after id kind t c ch s = elim (check_changes kind t ch.rows c s) [
  | some e ↦ (s, refused e)
  | none ↦ (elim after [
    | some e ↦ (s, refused (context e))
    | none ↦
        (keep_changes id t ch c s, done (ok_packet (affected kind c ch) ch.insert_id (status c)))
  ])
]

-- The statements that write. Identifiers that an INSERT drew stay drawn when it fails.
unfoldable pub run_change :
    Option String → String → Plan → List Value → Connection → Store → Store × Outcome Answer
unfolding changes_of settle find_table view at_table
run_change after id p params c s =
    if c.read_only
    then (s, refused (db_error 1792 "25006" "write in read-only transaction"))
    else (elim (find_table s.tables p.table) [
      | none ↦ (s, refused (db_error 1146 "42S02" "unknown table"))
      | some t ↦
          let (outcome, ids) =
            changes_of p.kind t p params (at_table t.name (view s (some c))) s.next_ids in
          let s' : Store = record s { next_ids = ids } in
          elim outcome [
            | refused e ↦ (s', refused e)
            | done ch ↦ settle after id p.kind t.name c ch s'
          ]
    ])

-- table.PrimaryKey[0] of the table found, if any
unfoldable pub key_of : List Table → String → String
unfolding find_table key_column
key_of tables name = elim (find_table tables name) [ none ↦ "" | some t ↦ key_column t ]

unfoldable pub answer_rows : Outcome RowsResult → Outcome Answer
answer_rows (done r) = done (row_set r)
answer_rows (refused e) = refused e

module _ (encoded_size : RowsResult → ℕ) where
  unfoldable pub run_plan :
      Option String → String → Plan → List Value → Connection → Store → Store × Outcome Answer
  unfolding run_select run_change answer_rows at_table view status key_of
  run_plan after id p params c s = elim p.kind [
    | select ↦ (
      s,
      answer_rows (
          run_select encoded_size p (key_of s.tables p.table) (at_table p.table (view s (some c)))
            params (status c)),
    )
    | _ ↦ run_change after id p params c s
  ]

  -- The connection stays in the map, and its transaction open, when the statement fails later.
  unfoldable pub execute :
      Option String → Option String → String → Plan → List Value → Store → Store × Outcome Answer
  unfolding check_params started put_conn run_plan
  execute before after id p params s = elim before [
    | some e ↦ (s, refused (context e))
    | none ↦
        if not (nat_eq (length params) (length p.parameters))
        then (s, refused (db_error 1210 "HY000" "incorrect parameter count"))
        else (elim (check_params p.parameters params) [
          | some e ↦ (s, refused e)
          | none ↦ let c = started id s in run_plan after id p params c (put_conn id c s)
        ])
  ]

-- The deferred function: what a result of execute says about the state it leaves.
unfoldable pub evidence : String → String → Store → Evidence
unfolding conn
evidence statement id s = record {
  statement_id = statement;
  state_version = s.version;
  phase = if (conn id s).active then "transaction" else "autocommit";
  source = "stateful";
}
