-- ===== src/Mysql/Commit.antt =====
-- commit and control of plugins/right/mysql-mock/transaction.go: conflicts between transactions.
use x_mock_mcp.Prelude.{
  ℕ, ◌≡◌, refl, inl, inr, String, false, Option, none, some, [], ◌∷◌, Assoc, lookup, eq_iff,
  Option-cases, Bool-cases, arith, eq_refl, ◌==◌,
}
use x_mock_mcp.Mysql.Constraints.{DbError, validate_initial}
use x_mock_mcp.Mysql.State.{
  RecordVersion, Base, Store, Connection, conn, put_conn, view, next_version, at_table, as_initial,
  overlay,
}
use x_mock_mcp.Mysql.Execute.Run.{version_at}
use x_mock_mcp.Mysql.Transaction.{commit_writes, clear_transaction, stale_rows, is_stale, commit}
use x_mock_mcp.Mysql.Isolation.{conn-put_conn}

-- The transaction has recorded the version `v` for a row.
abbrev pub Noted : Connection → String → String → ℕ → Type 0
Noted c t k v = lookup k (at_table t c.base) ≡ some v

stale_rows-fresh :
    (t k : String) (v : ℕ) (b : Assoc ℕ) (m : Assoc (Assoc RecordVersion))
    → stale_rows t b m ≡ false
    → lookup k b ≡ some v
    → version_at t k m ≡ v
unfolding stale_rows lookup
stale_rows-fresh t k v [] m fresh h = ground arith
stale_rows-fresh t k v ((j, w) ∷ b) m fresh h =
    ground (arith, eq_iff j k, stale_rows-fresh t k v b m)

is_stale-fresh :
    (t k : String) (v : ℕ) (base : Base) (m : Assoc (Assoc RecordVersion))
    → is_stale base m ≡ false
    → lookup k (at_table t base) ≡ some v
    → version_at t k m ≡ v
unfolding is_stale lookup at_table
is_stale-fresh t k v [] m fresh h = ground arith
is_stale-fresh t k v ((u, b) ∷ base) m fresh h =
    ground (arith, eq_iff u t, stale_rows-fresh t k v b m, is_stale-fresh t k v base m)

-- The store after commit, and its error, in the three ways that it can end.
pub data Ended (id : String) (c : Connection) (s : Store) : Store × Option DbError → Type 0 where
  conflict : (e : DbError) → Ended id c s (put_conn id (clear_transaction c) s, some e)
  published :
      is_stale c.base s.committed ≡ false
      → validate_initial s.tables (as_initial (view s (some c))) ≡ none
      → Ended id c s (
        record (put_conn id (clear_transaction c) s) {
          version = next_version s.version;
          committed = commit_writes (next_version s.version) c.writes s.committed;
        },
        none,
      )

pub commit-Ended : (id : String) (c : Connection) (s : Store) → Ended id c s (commit id c s)
unfolding commit
commit-Ended id c s = elim (Bool-cases (is_stale c.base s.committed)) [
  | inl stale ↦ simp (commit, stale) (conflict _)
  | inr fresh ↦ elim (Option-cases (validate_initial s.tables (as_initial (view s (some c))))) [
    | inl fine ↦ simp (commit, fresh, fine) (published fresh fine)
    | inr (message, bad) ↦ simp (commit, fresh, bad) (conflict _)
  ]
]

-- What a connection leaves that has given its transaction up: the committed rows, their version, the
-- tables, the next identifiers and every other connection as they were; itself in no transaction
-- any more, with the committed rows in view and nothing noted.
pub record IsAbandoned (id : String) (c : Connection) (s s' : Store) : Type 0 where
  pub committed : s'.committed ≡ s.committed
  pub version : s'.version ≡ s.version
  pub tables : s'.tables ≡ s.tables
  pub next_ids : s'.next_ids ≡ s.next_ids
  pub others : (j : String) → (id == j) ≡ false → conn j s' ≡ conn j s
  pub idle : (conn id s').active ≡ false
  pub autocommit : (conn id s').autocommit ≡ c.autocommit
  pub sees : view s' (some (conn id s')) ≡ view s none
  pub unnoted : (t k : String) → lookup k (at_table t (conn id s').base) ≡ none

cleared-IsAbandoned :
    (id : String) (c : Connection) (s : Store)
    → IsAbandoned id c s (put_conn id (clear_transaction c) s)
unfolding view overlay put_conn clear_transaction lookup at_table
cleared-IsAbandoned id c s =
    let self : conn id (put_conn id (clear_transaction c) s) ≡ clear_transaction c =
      rw (conn-put_conn, eq_refl) refl in
    record {
      committed = refl;
      version = refl;
      tables = refl;
      next_ids = refl;
      others = λ j other. rw (conn-put_conn, other) refl;
      idle = rw self refl;
      autocommit = rw self refl;
      sees = rw self refl;
      unnoted = λ t k. rw self refl;
    }

-- A commit that fails leaves the data and every other connection as they were; its own connection
-- is in no transaction any more, sees the committed rows and has noted nothing.
pub commit-failed :
    (id : String) (c : Connection) (s : Store) (e : DbError)
    → (commit id c s).1 ≡ some e
    → IsAbandoned id c s (commit id c s).0
commit-failed id c s e h = go _ (commit-Ended id c s) h
  where
    go :
        (out : Store × Option DbError)
        → Ended id c s out
        → out.1 ≡ some e
        → IsAbandoned id c s out.0
    go _ (conflict e') h = cleared-IsAbandoned id c s
    go _ (published fresh fine) h = absurd (ground arith)

pub commit-fresh :
    (id : String) (c : Connection) (s : Store) (t k : String) (v : ℕ)
    → (commit id c s).1 ≡ none
    → Noted c t k v
    → version_at t k s.committed ≡ v
commit-fresh id c s t k v h noted = go _ (commit-Ended id c s) h
  where
    go :
        (out : Store × Option DbError)
        → Ended id c s out
        → out.1 ≡ none
        → version_at t k s.committed ≡ v
    go _ (conflict e') h = absurd (ground arith)
    go _ (published fresh fine) h = is_stale-fresh t k v c.base s.committed fresh noted
