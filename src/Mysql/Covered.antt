-- ===== src/Mysql/Covered.antt =====
-- Along any statements and commands of state.go and transaction.go, every pending write is noted.
use x_mock_mcp.Mysql.Value.{Value}
use x_mock_mcp.Mysql.Statement.{
  changed, selected, early, opened, Ran, applied, execute-Ran, stopped,
}
use x_mock_mcp.Mysql.Schema.{Plan}
use x_mock_mcp.Mysql.Execute.Select.{Outcome, RowsResult}
use x_mock_mcp.Mysql.Commit.{conflict, Ended, commit-Ended, published}
use x_mock_mcp.Mysql.Steps.{Steps}
use x_mock_mcp.Mysql.Steps.{
  start, close, answered-store, command, more, statement, fills, limits, opens, touches,
}
use x_mock_mcp.Mysql.Constraints.{DbError}
use x_mock_mcp.Mysql.Command.{Command, classify, normal}
use x_mock_mcp.Mysql.Execute.Run.{
  Answer, commit_rows, execute, hold, keep_changes, started, with_insert_id,
}
use x_mock_mcp.Mysql.Isolation.{conn-put_conn}
use x_mock_mcp.Mysql.Transaction.{
  close_connection, commit, commit_then, control, is_foreign, obey, clear_transaction,
}
use x_mock_mcp.Mysql.State.{
  next_version, Connection, Store, open_connection, set_read_only, touch, at_table, conn,
  fresh_connection, put_conn,
}
use x_mock_mcp.Mysql.Execute.Changes.{Changes}
use x_mock_mcp.Prelude.{
  if◌then◌else◌, lookup-erase, Assoc, List, Option, Option-cases, if_elim, none, some, subst, sym,
  true, Bool, Bool-cases, String, arith, inl, inr, lookup, nat_eq, refl, ℕ, ◌==◌, ◌≡◌,
}
use x_mock_mcp.Mysql.Filling.{FilledIn, fill_store-FilledIn, filled_in}
use x_mock_mcp.Mysql.Noting.{Covers, hold-Covers}

abbrev pub IsCovered : Store → Type 0
IsCovered s = (id : String) → Covers (conn id s)

pub fresh_connection-Covers : Covers fresh_connection
unfolding lookup at_table
fresh_connection-Covers t k row h = absurd (ground arith)

started-Covers : (id : String) (s : Store) → Covers (conn id s) → Covers (started id s)
unfolding started
started-Covers id s h = elim (Bool-cases (conn id s).autocommit) [
  | inl e ↦ simp (started, e) h
  | inr e ↦ simp (started, e) h
]

clear_transaction-Covers : (c : Connection) → Covers (clear_transaction c)
unfolding clear_transaction lookup at_table
clear_transaction-Covers c t k row h = absurd (ground arith)

put_conn-IsCovered :
    (id : String) (c : Connection) (s : Store)
    → Covers c
    → IsCovered s
    → IsCovered (put_conn id c s)
put_conn-IsCovered id c s h covered j =
    rw conn-put_conn (elim (Bool-cases (id == j)) [ inl e ↦ rw e h | inr e ↦ rw e (covered j) ])

opened-IsCovered : (id : String) (s : Store) → IsCovered s → IsCovered (opened id s)
opened-IsCovered id s h = put_conn-IsCovered id (started id s) s (started-Covers id s (h id)) h

with_insert_id-Covers : (n : ℕ) (c : Connection) → Covers c → Covers (with_insert_id n c)
unfolding with_insert_id
with_insert_id-Covers n c h = elim (Bool-cases (nat_eq n 0)) [
  | inl e ↦ simp (with_insert_id, e) h
  | inr e ↦ simp (with_insert_id, e) h
]

same_sessions-IsCovered : (s s' : Store) → s'.sessions ≡ s.sessions → IsCovered s → IsCovered s'
unfolding conn
same_sessions-IsCovered s s' e h id =
    subst
      (λ (m : Assoc Connection).
        Covers (elim (lookup id m) [ none ↦ fresh_connection | some c ↦ c ]))
      (sym e) (h id)

keep_changes-IsCovered :
    (id t : String) (ch : Changes) (c : Connection) (s : Store)
    → Covers c
    → IsCovered s
    → IsCovered (keep_changes id t ch c s)
unfolding keep_changes
keep_changes-IsCovered id t ch c s h covered =
    if_elim IsCovered c.active
      (put_conn id (with_insert_id ch.insert_id (hold t ch.rows s.committed c)) s)
      (put_conn id (with_insert_id ch.insert_id c) (record s {
        version = next_version s.version;
        committed = commit_rows t (next_version s.version) ch.rows s.committed;
      }))
      (λ e.
        put_conn-IsCovered id _ s
          (with_insert_id-Covers ch.insert_id _ (hold-Covers t ch.rows s.committed c h)) covered)
      (λ e.
        put_conn-IsCovered id _ _ (with_insert_id-Covers ch.insert_id c h)
          (same_sessions-IsCovered s _ refl covered))

commit-IsCovered :
    (id : String) (c : Connection) (s : Store) → IsCovered s → IsCovered (commit id c s).0
commit-IsCovered id c s covered = go _ (commit-Ended id c s)
  where
    cleared : IsCovered (put_conn id (clear_transaction c) s)
    cleared = put_conn-IsCovered id _ s (clear_transaction-Covers c) covered

    go : (out : Store × Option DbError) → Ended id c s out → IsCovered out.0
    go _ (conflict e) = cleared
    go _ (published fresh fine) = same_sessions-IsCovered _ _ refl cleared

commit_then-IsCovered :
    (f : Connection → Connection) (id : String) (c : Connection) (s : Store)
    → ((d : Connection) → Covers d → Covers (f d))
    → IsCovered s
    → IsCovered (commit_then f id c s).0
unfolding commit_then
commit_then-IsCovered f id c s keeps covered = elim (Option-cases (commit id c s).1) [
  | inr (e, failed) ↦ simp (commit_then, failed) (commit-IsCovered id c s covered)
  | inl ok ↦
      simp (commit_then, ok)
        (put_conn-IsCovered id _ (commit id c s).0
          (keeps (conn id (commit id c s).0) (commit-IsCovered id c s covered id))
          (commit-IsCovered id c s covered))
]

obey-IsCovered :
    (command : Command) (id : String) (c : Connection) (s : Store)
    → Covers c
    → IsCovered s
    → IsCovered (obey command id c s).0
unfolding obey
obey-IsCovered Command.begin_tx id c s h covered = elim (Bool-cases c.active) [
  | inl e ↦ simp (obey, e) covered
  | inr e ↦ simp (obey, e) (put_conn-IsCovered id _ s h covered)
]
obey-IsCovered Command.commit_tx id c s h covered =
    commit_then-IsCovered (λ d. d) id c s (λ d k. k) covered
obey-IsCovered Command.rollback_tx id c s h covered =
    put_conn-IsCovered id _ s (clear_transaction-Covers c) covered
obey-IsCovered Command.read_committed id c s h covered = covered
obey-IsCovered Command.other_isolation id c s h covered = covered
obey-IsCovered Command.autocommit_on id c s h covered = elim (Bool-cases c.autocommit) [
  | inl e ↦ simp (obey, e) covered
  | inr e ↦
      simp (obey, e)
        (commit_then-IsCovered (λ d. record d { autocommit = true }) id c s (λ d k. k) covered)
]
obey-IsCovered Command.autocommit_off id c s h covered = put_conn-IsCovered id _ s h covered
obey-IsCovered Command.autocommit_invalid id c s h covered = covered
obey-IsCovered Command.unsupported id c s h covered = covered
obey-IsCovered Command.foreign id c s h covered = covered

control-IsCovered :
    (cancelled : Option String) (id sql : String) (s : Store)
    → IsCovered s
    → IsCovered (control cancelled id sql s).0
unfolding control
control-IsCovered (some e) id sql s covered =
    elim (Bool-cases (is_foreign (classify (normal sql)))) [
      | inl e ↦ simp (control, e) covered
      | inr e ↦ simp (control, e) covered
    ]
control-IsCovered none id sql s covered = elim (Bool-cases (is_foreign (classify (normal sql)))) [
  | inl e ↦ simp (control, e) covered
  | inr e ↦
      simp (control, e, answered-store)
        (obey-IsCovered (classify (normal sql)) id (conn id s) (put_conn id (conn id s) s)
          (covered id) (put_conn-IsCovered id (conn id s) s (covered id) covered))
]

conn-close_connection :
    (id j : String) (s : Store)
    → conn j (close_connection id s) ≡ (if id == j then fresh_connection else conn j s)
unfolding close_connection conn
conn-close_connection id j s = elim (Bool-cases (id == j)) [
  | inl e ↦ rw (close_connection, conn, lookup-erase, e) refl
  | inr e ↦ rw (close_connection, conn, lookup-erase, e) refl
]

close-IsCovered : (id : String) (s : Store) → IsCovered s → IsCovered (close_connection id s)
close-IsCovered id s covered j = rw conn-close_connection (elim (Bool-cases (id == j)) [
  | inl e ↦ rw e fresh_connection-Covers
  | inr e ↦ rw e (covered j)
])

filled-IsCovered : {s s' : Store} → FilledIn s s' → IsCovered s → IsCovered s'
filled-IsCovered {s} (filled_in t rows) covered = same_sessions-IsCovered s _ refl covered

touch-IsCovered : (id : String) (s : Store) → IsCovered s → IsCovered (touch id s)
unfolding touch
touch-IsCovered id s covered = put_conn-IsCovered id (conn id s) s (covered id) covered

open_connection-IsCovered :
    (id : String) (found_rows : Bool) (s : Store)
    → IsCovered s
    → IsCovered (open_connection id found_rows s)
unfolding open_connection
open_connection-IsCovered id found_rows s covered =
    put_conn-IsCovered id (record (conn id s) { found_rows = found_rows }) s (covered id) covered

set_read_only-IsCovered :
    (id : String) (read_only : Bool) (s : Store)
    → IsCovered s
    → IsCovered (set_read_only id read_only s)
unfolding set_read_only
set_read_only-IsCovered id read_only s covered =
    put_conn-IsCovered id (record (conn id s) { read_only = read_only }) s (covered id) covered

module _ (encoded_size : RowsResult → ℕ) where
  execute-IsCovered :
      (before after : Option String) (id : String) (p : Plan) (params : List Value) (s : Store)
      → IsCovered s
      → IsCovered (execute encoded_size before after id p params s).0
  execute-IsCovered before after id p params s covered =
      go _ (execute-Ran encoded_size before after id p params s)
    where
      open_ : IsCovered (opened id s)
      open_ = opened-IsCovered id s covered

      go : (out : Store × Outcome Answer) → Ran encoded_size id p params s out → IsCovered out.0
      go _ (early e') = covered
      go _ (selected o k is) = open_
      go _ (changed out (stopped ids e' drew)) = same_sessions-IsCovered _ _ refl open_
      go _ (changed out (applied t ch found drawn writes fine)) =
          keep_changes-IsCovered id t.name ch (started id s) _ (started-Covers id s (covered id))
            (same_sessions-IsCovered _ _ refl open_)

  -- Whatever connections do, each pending write of each has the version noted that it will be
  -- compared with at commit, if this holds at the start.
  pub Steps-IsCovered :
      {s s' : Store} {n : ℕ} → Steps encoded_size s n s' → IsCovered s → IsCovered s'
  Steps-IsCovered start covered = covered
  Steps-IsCovered (more steps (statement before after id p params)) covered =
      execute-IsCovered before after id p params _ (Steps-IsCovered steps covered)
  Steps-IsCovered (more steps (command cancelled id sql)) covered =
      control-IsCovered cancelled id sql _ (Steps-IsCovered steps covered)
  Steps-IsCovered (more steps (close id)) covered =
      close-IsCovered id _ (Steps-IsCovered steps covered)
  Steps-IsCovered (more steps (touches id)) covered =
      touch-IsCovered id _ (Steps-IsCovered steps covered)
  Steps-IsCovered (more steps (opens id found_rows)) covered =
      open_connection-IsCovered id found_rows _ (Steps-IsCovered steps covered)
  Steps-IsCovered (more steps (limits id read_only)) covered =
      set_read_only-IsCovered id read_only _ (Steps-IsCovered steps covered)
  Steps-IsCovered (more steps (fills slot rows s' filled)) covered =
      filled-IsCovered (fill_store-FilledIn slot rows _ s' filled) (Steps-IsCovered steps covered)
