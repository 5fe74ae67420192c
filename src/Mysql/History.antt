-- ===== src/Mysql/History.antt =====
-- Whole histories of the state of state.go, from newState on.
use x_mock_mcp.Mysql.Noting.{hold-new}
use x_mock_mcp.Mysql.Execute.Changes.{Changes}
use x_mock_mcp.Mysql.Isolation.{started-SameTransaction, conn-put_conn}
use x_mock_mcp.Mysql.Transaction.{commit}
use x_mock_mcp.Mysql.Value.{Value}
use x_mock_mcp.Mysql.Statement.{
  changed, selected, early, opened, Ran, applied, execute-Ran, stopped,
}
use x_mock_mcp.Mysql.Schema.{Plan}
use x_mock_mcp.Mysql.Execute.Select.{Outcome, RowsResult}
use x_mock_mcp.Mysql.Commit.{Noted}
use x_mock_mcp.Mysql.Steps.{Steps, commit-first_writer_wins, Steps-Grows}
use x_mock_mcp.Prelude.{
  if_elim, inr, lookup, nat_eq, subst, List, Option, String, arith, eq_refl, inl, none, refl, some,
  ℕ, ◌+◌, ◌<◌, ◌^◌, ◌≡◌, ◌⊎◌,
}
use x_mock_mcp.Mysql.Clock.{IsFresh-IsClocked, IsFresh-IsCovered, new_state-IsFresh}
use x_mock_mcp.Mysql.Covered.{IsCovered, Steps-IsCovered}
use x_mock_mcp.Mysql.Grows.{record_at, Grows-IsClocked, IsClocked}
use x_mock_mcp.Mysql.State.{
  Base, at_table, next_version, Connection, Scenario, Store, conn, new_state, put_conn,
}
use x_mock_mcp.Mysql.Execute.Run.{
  commit_rows, hold, keep_changes, started, with_insert_id, Answer, execute, version_at,
}

Noted-base :
    (t k : String) (v : ℕ) {b b' : Base}
    → b ≡ b'
    → lookup k (at_table t b) ≡ some v
    → lookup k (at_table t b') ≡ some v
Noted-base t k v e h = subst (λ (b : Base). lookup k (at_table t b) ≡ some v) e h

conn-put_conn_self : (id : String) (c : Connection) (s : Store) → conn id (put_conn id c s) ≡ c
conn-put_conn_self id c s = rw (conn-put_conn, eq_refl) refl

with_insert_id-base : (n : ℕ) (c : Connection) → (with_insert_id n c).base ≡ c.base
unfolding with_insert_id
with_insert_id-base n c =
    if_elim (λ (d : Connection). d.base ≡ c.base) (nat_eq n 0) c (record c { last_insert = n })
      (λ e. refl) (λ e. refl)

opened-Noted :
    (id : String) (s : Store) (t k : String) (v : ℕ)
    → Noted (conn id (opened id s)) t k v
    → Noted (conn id s) t k v
opened-Noted id s t k v = rw conn-put_conn_self (Noted-base t k v (started-SameTransaction id s).1)

keep_changes-Noted :
    (id t : String) (ch : Changes) (c : Connection) (s : Store) (u k : String) (v : ℕ)
    → Noted (conn id (keep_changes id t ch c s)) u k v
    → Noted c u k v ⊎ (v ≡ version_at u k s.committed)
unfolding keep_changes
keep_changes-Noted id t ch c s u k v =
    if_elim
      (λ (st : Store). Noted (conn id st) u k v → Noted c u k v ⊎ (v ≡ version_at u k s.committed))
      c.active (put_conn id (with_insert_id ch.insert_id (hold t ch.rows s.committed c)) s)
      (put_conn id (with_insert_id ch.insert_id c) (record s {
        version = next_version s.version;
        committed = commit_rows t (next_version s.version) ch.rows s.committed;
      }))
      (λ e. rw conn-put_conn_self (λ h.
        hold-new t ch.rows s.committed c u k v
          (Noted-base u k v (with_insert_id-base ch.insert_id _) h)))
      (λ e.
        rw conn-put_conn_self (λ h. inl (Noted-base u k v (with_insert_id-base ch.insert_id c) h)))

module _ (encoded_size : RowsResult → ℕ) where
  -- In a state that newState made and any statements, commands, other operations of connections and
  -- fills of Complete changed, every committed row has
  -- a version that the clock has reached, and every pending write of every connection has the
  -- version noted that commit will compare. (The clock must not wrap around.)
  pub Steps-IsSound :
      (db : Scenario) {s s' : Store} {n : ℕ}
      → new_state db ≡ some s
      → Steps encoded_size s n s'
      → n < 2 ^ 64
      → IsClocked s' × IsCovered s'
  Steps-IsSound db {s} made steps room =
      let fresh = new_state-IsFresh db s made in
      (
        Grows-IsClocked (Steps-Grows encoded_size steps (omega (arith, fresh.clock))).0
            (IsFresh-IsClocked s fresh),
        Steps-IsCovered encoded_size steps (IsFresh-IsCovered s fresh),
      )

  -- Take a state `s` of a history, and a transaction that noted the version which a row had then.
  -- If it commits successfully after any further steps, the row is still as it was in `s`: a write
  -- of another connection in between, a deletion included, makes the commit fail.
  pub commit-no_lost_update :
      (db : Scenario) {s_0 s s' : Store} {i n : ℕ}
      → new_state db ≡ some s_0
      → Steps encoded_size s_0 i s
      → Steps encoded_size s n s'
      → i + n < 2 ^ 64
      → (id : String) (c : Connection) (t k : String) → Noted c t k (version_at t k s.committed)
      → (commit id c s').1 ≡ none
      → record_at t k s'.committed ≡ record_at t k s.committed
  commit-no_lost_update db {s_0} made before after room =
      let fresh = new_state-IsFresh db s_0 made in
      let g = Steps-Grows encoded_size before (omega (arith, fresh.clock)) in
      commit-first_writer_wins encoded_size after (omega (arith, g.1, fresh.clock))
        (Steps-IsSound db made before (omega arith)).0

  -- What a connection has noted after a statement, it had noted before, or it is the version that
  -- the row has as the statement runs.
  pub execute-notes :
      (before after : Option String) (id : String) (p : Plan) (params : List Value) (s : Store)
      (t k : String) (v : ℕ)
      → Noted (conn id (execute encoded_size before after id p params s).0) t k v
      → Noted (conn id s) t k v ⊎ (v ≡ version_at t k s.committed)
  unfolding conn put_conn
  execute-notes before after id p params s u k v =
      go _ (execute-Ran encoded_size before after id p params s)
    where
      go :
          (out : Store × Outcome Answer)
          → Ran encoded_size id p params s out
          → Noted (conn id out.0) u k v
          → Noted (conn id s) u k v ⊎ (v ≡ version_at u k s.committed)
      go _ (early e') h = inl h
      go _ (selected o kind is) h = inl (opened-Noted id s u k v h)
      go _ (changed out (stopped ids e' drew)) h = inl (opened-Noted id s u k v h)
      go _ (changed out (applied t ch found drawn writes fine)) h =
          elim (keep_changes-Noted id t.name ch (started id s) _ u k v h) [
            | inl noted ↦ inl (Noted-base u k v (started-SameTransaction id s).1 noted)
            | inr now ↦ inr now
          ]
