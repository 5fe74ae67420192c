-- ===== src/Mysql/Steps.antt =====
-- plugins/right/mysql-mock as it runs: what may happen to the state, in any order, and its clock.
use x_mock_mcp.Mysql.Commit.{Ended, Noted, commit-Ended, commit-fresh, conflict, published}
use x_mock_mcp.Prelude.{
  ℕ, suc, ◌+◌, ◌^◌, ◌≤◌, ◌<◌, ◌≡◌, refl, inl, inr, String, true, Option, none, some, List,
  Option-cases, Bool-cases, arith, Bool,
}
use x_mock_mcp.Mysql.Value.{Value}
use x_mock_mcp.Mysql.Schema.{Entity, Plan}
use x_mock_mcp.Mysql.Constraints.{DbError}
use x_mock_mcp.Mysql.State.{
  set_read_only, open_connection, touch, Store, Connection, conn, put_conn,
}
use x_mock_mcp.Mysql.Execute.Select.{RowsResult}
use x_mock_mcp.Mysql.Strategy.Plugin.{Slot}
use x_mock_mcp.Mysql.Strategy.Complete.{fill_store}
use x_mock_mcp.Mysql.Filling.{FilledIn, fill_store-FilledIn, filled_in}
use x_mock_mcp.Api
use x_mock_mcp.Mysql.Execute.Run.{version_at, execute}
use x_mock_mcp.Mysql.Command.{Command, normal, classify}
use x_mock_mcp.Mysql.Transaction.{
  answered, commit, commit_then, obey, control, close_connection, is_foreign,
}
use x_mock_mcp.Mysql.Grows.{
  record_at, IsClocked, Grows, Grows-same, Grows-stamp, Grows-trans, Grows-refl, Grows-same_version,
  commit_writes-Stamped, commit_rows-Stamped, next_version_lem,
}
use x_mock_mcp.Mysql.Isolation.{execute-Grows}

abbrev Advances : Store → Store → Type 0
Advances s s' = Grows s s' × (s'.version ≤ s.version + 1)

Advances-same : {s s' : Store} → s'.committed ≡ s.committed → s'.version ≡ s.version → Advances s s'
Advances-same c v = (Grows-same c v, omega arith)

commit-Advances :
    (id : String) (c : Connection) (s : Store)
    → s.version + 1 < 2 ^ 64
    → Advances s (commit id c s).0
unfolding put_conn
commit-Advances id c s room = go _ (commit-Ended id c s)
  where
    go : (out : Store × Option DbError) → Ended id c s out → Advances s out.0
    go _ (conflict e') = Advances-same refl refl
    go _ (published fresh fine) = (
      Grows-stamp room refl (λ t k. commit_writes-Stamped _ t k c.writes s.committed),
      omega arith,
    )

commit_then-Advances :
    (f : Connection → Connection) (id : String) (c : Connection) (s : Store)
    → s.version + 1 < 2 ^ 64
    → Advances s (commit_then f id c s).0
unfolding commit_then put_conn
commit_then-Advances f id c s room = elim (Option-cases (commit id c s).1) [
  | inl ok ↦
      simp (commit_then, ok)
        (
          Grows-trans (commit-Advances id c s room).0 (Grows-same refl refl),
          (commit-Advances id c s room).1,
        )
  | inr (e, failed) ↦ simp (commit_then, failed) (commit-Advances id c s room)
]

obey-Advances :
    (command : Command) (id : String) (c : Connection) (s : Store)
    → s.version + 1 < 2 ^ 64
    → Advances s (obey command id c s).0
unfolding obey put_conn
obey-Advances Command.begin_tx id c s room = elim (Bool-cases c.active) [
  | inl e ↦ simp (obey, e) (Advances-same refl refl)
  | inr e ↦ simp (obey, e) (Advances-same refl refl)
]
obey-Advances Command.commit_tx id c s room = commit_then-Advances (λ d. d) id c s room
obey-Advances Command.rollback_tx id c s room = Advances-same refl refl
obey-Advances Command.read_committed id c s room = Advances-same refl refl
obey-Advances Command.other_isolation id c s room = Advances-same refl refl
obey-Advances Command.autocommit_on id c s room = elim (Bool-cases c.autocommit) [
  | inl e ↦ simp (obey, e) (Advances-same refl refl)
  | inr e ↦ simp (obey, e) (commit_then-Advances (λ d. record d { autocommit = true }) id c s room)
]
obey-Advances Command.autocommit_off id c s room = Advances-same refl refl
obey-Advances Command.autocommit_invalid id c s room = Advances-same refl refl
obey-Advances Command.unsupported id c s room = Advances-same refl refl
obey-Advances Command.foreign id c s room = Advances-same refl refl

pub answered-store :
    (id command : String) (out : Store × Option DbError) → (answered id command out).0 ≡ out.0
unfolding answered
answered-store id command (s, none) = refl
answered-store id command (s, some e) = refl

control-Advances :
    (cancelled : Option String) (id sql : String) (s : Store)
    → s.version + 1 < 2 ^ 64
    → Advances s (control cancelled id sql s).0
unfolding control put_conn
control-Advances (some e) id sql s room = elim (Bool-cases (is_foreign (classify (normal sql)))) [
  | inl e ↦ simp (control, e) (Advances-same refl refl)
  | inr e ↦ simp (control, e) (Advances-same refl refl)
]
control-Advances none id sql s room = elim (Bool-cases (is_foreign (classify (normal sql)))) [
  | inl e ↦ simp (control, e) (Advances-same refl refl)
  | inr e ↦
      simp (control, e, answered-store)
        (let g =
            obey-Advances (classify (normal sql)) id (conn id s) (put_conn id (conn id s) s) room in
          (Grows-trans (Grows-same refl refl) g.0, g.1))
]

FilledIn-Advances : {s s' : Store} → FilledIn s s' → s.version + 1 < 2 ^ 64 → Advances s s'
FilledIn-Advances {s} (filled_in t rows) room = (
  Grows-stamp room refl (λ u k. commit_rows-Stamped _ t u k rows s.committed),
  omega (arith, next_version_lem s.version room),
)

module _ (encoded_size : RowsResult → ℕ) where
  -- What may happen to the state, one at a time, as the lock has it: statements, transaction commands
  -- and the other operations of connections, and the rows that Complete of plugin.go fills in.
  pub data Step (s : Store) : Store → Type 0 where
    statement :
        (before after : Option String) (id : String) (p : Plan) (params : List Value)
        → Step s (execute encoded_size before after id p params s).0
    command : (cancelled : Option String) (id sql : String) → Step s (control cancelled id sql s).0
    close : (id : String) → Step s (close_connection id s)
    touches : (id : String) → Step s (touch id s)
    opens : (id : String) (found_rows : Bool) → Step s (open_connection id found_rows s)
    limits : (id : String) (read_only : Bool) → Step s (set_read_only id read_only s)
    fills :
        (slot : Slot) (rows : List Entity) (s' : Store)
        → fill_store slot rows s ≡ Api.ok s'
        → Step s s'

  -- `n` of them in a row.
  pub data Steps (s : Store) : ℕ → Store → Type 0 where
    start : Steps s 0 s
    more : {n : ℕ} {s' s'' : Store} → Steps s n s' → Step s' s'' → Steps s (suc n) s''

  Step-Advances : {s s' : Store} → Step s s' → s.version + 1 < 2 ^ 64 → Advances s s'
  unfolding close_connection touch open_connection set_read_only put_conn
  Step-Advances (statement before after id p params) room =
      execute-Grows encoded_size before after id p params _ room
  Step-Advances (command cancelled id sql) room = control-Advances cancelled id sql _ room
  Step-Advances (close id) room = Advances-same refl refl
  Step-Advances (touches id) room = Advances-same refl refl
  Step-Advances (opens id found_rows) room = Advances-same refl refl
  Step-Advances (limits id read_only) room = Advances-same refl refl
  Step-Advances (fills slot rows s' filled) room =
      FilledIn-Advances (fill_store-FilledIn slot rows _ s' filled) room

  pub Steps-Grows :
      {s s' : Store} {n : ℕ}
      → Steps s n s'
      → s.version + n < 2 ^ 64
      → Grows s s' × (s'.version ≤ s.version + n)
  Steps-Grows start room = (Grows-refl _, omega arith)
  Steps-Grows (more steps last) room =
      let g = Steps-Grows steps (omega arith) in
      let h = Step-Advances last (omega (arith, g.1)) in
      (Grows-trans g.0 h.0, omega (arith, g.1, h.1))

  -- A transaction that noted the version of a row, and commits successfully after any steps of any
  -- connections in between, finds the row as it was when it noted it, as long as the version counter
  -- does not wrap around on the way.
  pub commit-first_writer_wins :
      {s s' : Store} {n : ℕ}
      → Steps s n s'
      → s.version + n < 2 ^ 64
      → IsClocked s
      → (id : String) (c : Connection) (t k : String) → Noted c t k (version_at t k s.committed)
      → (commit id c s').1 ≡ none
      → record_at t k s'.committed ≡ record_at t k s.committed
  commit-first_writer_wins steps room clocked id c t k noted ok =
      Grows-same_version (Steps-Grows steps room).0 clocked t k (commit-fresh id c _ t k _ ok noted)
