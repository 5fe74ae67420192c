-- ===== src/Mysql/Transaction.antt =====
-- plugins/right/mysql-mock/transaction.go: commit, rollback, the transaction commands and the end
-- of a connection.
use Prim.Native.String
use x_mock_mcp.Prelude.{
  ℕ, String, Bool, true, false, not, ◌||◌, Option, none, some, [], ◌∷◌, Assoc, erase, map_values,
  nat_eq, if◌then◌else◌,
}
use x_mock_mcp.Mysql.Schema.{Entity}
use x_mock_mcp.Mysql.Constraints.{DbError, db_error, context, validate_initial}
use x_mock_mcp.Mysql.State.{
  RecordVersion, Base, Connection, Store, next_version, conn, put_conn, status, clone_row, view,
  as_initial,
}
use x_mock_mcp.Mysql.Execute.Select.{Outcome, done, refused}
use x_mock_mcp.Mysql.Execute.Run.{Answer, ok_packet, Evidence, version_at, commit_rows}
use x_mock_mcp.Mysql.Command.{Command, normal, classify}

-- func clearTransaction
unfoldable pub clear_transaction : Connection → Connection
clear_transaction c = record c { active = false; writes = []; base = [] }

-- A row whose version is no longer the one that the transaction met.
unfoldable pub stale_rows : String → Assoc ℕ → Assoc (Assoc RecordVersion) → Bool
unfolding version_at
stale_rows t [] committed = false
stale_rows t ((k, v) ∷ b) committed =
    not (nat_eq (version_at t k committed) v) || stale_rows t b committed

unfoldable pub is_stale : Base → Assoc (Assoc RecordVersion) → Bool
unfolding stale_rows
is_stale [] committed = false
is_stale ((t, b) ∷ rest) committed = stale_rows t b committed || is_stale rest committed

abbrev pub clone_written : Option Entity → Option Entity
unfolding clone_row
clone_written none = none
clone_written (some row) = some (clone_row row)

-- The writes of every table, under the version.
unfoldable pub commit_writes :
    ℕ → Assoc (Assoc (Option Entity)) → Assoc (Assoc RecordVersion) → Assoc (Assoc RecordVersion)
unfolding commit_rows
commit_writes v [] committed = committed
commit_writes v ((t, rows) ∷ m) committed =
    commit_writes v m (commit_rows t v (map_values clone_written rows) committed)

-- func (s *state) commit: the store, and the error if there is one. The transaction is over in
-- either case.
unfoldable pub commit : String → Connection → Store → Store × Option DbError
unfolding clear_transaction is_stale commit_writes put_conn view as_initial validate_initial
commit id c s =
    let s' = put_conn id (clear_transaction c) s in
    if is_stale c.base s.committed
    then (s', some (db_error 1213 "40001" "concurrent write conflict"))
    else (elim (validate_initial s.tables (as_initial (view s (some c)))) [
      | some message ↦ (
        s',
        some (db_error 1213 "40001" (String.◌++◌ "concurrent constraint conflict: " message)),
      )
      | none ↦ (
        record s' {
          version = next_version s.version;
          committed = commit_writes (next_version s.version) c.writes s.committed;
        },
        none,
      )
    ])

abbrev pub unsupported_error : String → DbError
unsupported_error message = db_error 1235 "42000" message

-- s.commit(c) inside control, and what the connection is set to after it succeeds.
unfoldable pub commit_then :
    (Connection → Connection) → String → Connection → Store → Store × Option DbError
unfolding commit conn put_conn
commit_then f id c s =
    let (s', e) = commit id c s in
    elim e [ some failure ↦ (s', some failure) | none ↦ (put_conn id (f (conn id s')) s', none) ]

-- The switch of control, on the connection `c` that the store holds.
unfoldable pub obey : Command → String → Connection → Store → Store × Option DbError
unfolding commit_then clear_transaction put_conn
obey Command.begin_tx id c s =
    if c.active
    then (s, some (unsupported_error "nested BEGIN unsupported"))
    else (put_conn id (record c { active = true }) s, none)
obey Command.commit_tx id c s = commit_then (λ d. d) id c s
obey Command.rollback_tx id c s = (put_conn id (clear_transaction c) s, none)
obey Command.read_committed id c s = (s, none)
obey Command.other_isolation id c s = (s, some (unsupported_error "only READ COMMITTED supported"))
obey Command.autocommit_on id c s =
    if c.autocommit then (s, none) else commit_then (λ d. record d { autocommit = true }) id c s
obey Command.autocommit_off id c s = (put_conn id (record c { autocommit = false }) s, none)
obey Command.autocommit_invalid id c s = (s, some (unsupported_error "invalid autocommit value"))
obey _ id c s = (s, some (unsupported_error "transaction operation unsupported"))

abbrev pub is_foreign : Command → Bool
is_foreign Command.foreign = true
is_foreign _ = false

-- The end of control: the result, with its evidence.
unfoldable pub answered :
    String → String → Store × Option DbError → Store × Option (Outcome (Answer × Evidence))
unfolding conn status
answered id command (s, some failure) = (s, some (refused failure))
answered id command (s, none) = (
  s,
  some (
      done (
        ok_packet 0 0 (status (conn id s)),
        record {
          statement_id = "";
          state_version = s.version;
          phase = command;
          source = "transaction_control";
        },
      )),
)

-- func (s *state) control. `none` means that the text is no transaction command. `cancelled` is
-- the context's error.
unfoldable pub control :
    Option String → String → String → Store → Store × Option (Outcome (Answer × Evidence))
unfolding normal classify conn put_conn obey answered
control cancelled id sql s =
    if is_foreign (classify (normal sql)) then (s, none) else (elim cancelled [
      | some e ↦ (s, some (refused (context e)))
      | none ↦
          answered id (normal sql)
            (obey (classify (normal sql)) id (conn id s) (put_conn id (conn id s) s))
    ])

-- func (s *state) closeConnection
unfoldable pub close_connection : String → Store → Store
close_connection id s = record s { sessions = erase id s.sessions }
