-- ===== src/Mysql/Isolation.antt =====
-- What a statement of state.go cannot change: everything but its own transaction when it is inside
-- one, and the data when it fails.
use x_mock_mcp.Prelude.{
  subst, ℕ, ◌+◌, ◌^◌, ◌≤◌, ◌<◌, ◌≡◌, refl, ◌∙◌, ◌≢◌, inl, inr, String, true, Option, some, List,
  Assoc, lookup, lookup-insert, text_cases, Bool-cases, arith, if◌then◌else◌, ◌==◌,
}
use x_mock_mcp.Prelude.Int.{ℤ}
use x_mock_mcp.Mysql.Value.{Value}
use x_mock_mcp.Mysql.Schema.{Plan}
use x_mock_mcp.Mysql.Constraints.{DbError}
use x_mock_mcp.Mysql.State.{Store, Connection, conn, put_conn}
use x_mock_mcp.Mysql.Execute.Select.{Outcome, refused, RowsResult}
use x_mock_mcp.Mysql.Execute.Changes.{Changes}
use x_mock_mcp.Mysql.Execute.Run.{Answer, started, keep_changes, execute}
use x_mock_mcp.Mysql.Statement.{
  drawn_by, opened, with_ids, stopped, applied, Ran, early, selected, changed, execute-Ran,
}
use x_mock_mcp.Mysql.Grows.{Grows-trans, Grows, Grows-same, Grows-stamp, commit_rows-Stamped}

-- The transaction state of a connection.
abbrev pub SameTransaction : Connection → Connection → Type 0
SameTransaction c d = (c.writes ≡ d.writes) × (c.base ≡ d.base) × (c.autocommit ≡ d.autocommit)

-- The data and the other connections' transactions are the same.
pub record SameData (s s' : Store) : Type 0 where
  pub committed : s'.committed ≡ s.committed
  pub version : s'.version ≡ s.version
  pub tables : s'.tables ≡ s.tables
  pub transactions : (j : String) → SameTransaction (conn j s') (conn j s)

-- Every connection but one is as it was.
abbrev pub OthersKept : String → Store → Store → Type 0
OthersKept id s s' = (j : String) → id ≢ j → lookup j s'.sessions ≡ lookup j s.sessions

pub lookup-put_conn :
    (id j : String) (c : Connection) (s : Store)
    → lookup j (put_conn id c s).sessions ≡ (if id == j then some c else lookup j s.sessions)
unfolding put_conn
lookup-put_conn id j c s = lookup-insert id j c s.sessions

pub conn-put_conn :
    (id j : String) (c : Connection) (s : Store)
    → conn j (put_conn id c s) ≡ (if id == j then c else conn j s)
unfolding conn
conn-put_conn id j c s = elim (Bool-cases (id == j)) [
  | inl e ↦ rw (conn, lookup-put_conn, e) refl
  | inr e ↦ rw (conn, lookup-put_conn, e) refl
]

pub put_conn-OthersKept :
    (id : String) (c : Connection) (s : Store) → OthersKept id s (put_conn id c s)
put_conn-OthersKept id c s j other =
    rw lookup-put_conn
      (elim (text_cases id j) [ inl (t, same) ↦ absurd (other same) | inr (t, e) ↦ rw t refl ])

pub started-SameTransaction : (id : String) (s : Store) → SameTransaction (started id s) (conn id s)
unfolding started
started-SameTransaction id s = elim (Bool-cases (conn id s).autocommit) [
  | inl e ↦ simp (started, e) (refl, refl, refl)
  | inr e ↦ simp (started, e) (refl, refl, refl)
]

opened-SameData : (id : String) (s : Store) → SameData s (opened id s)
unfolding put_conn
opened-SameData id s = record {
  committed = refl;
  version = refl;
  tables = refl;
  transactions = λ j. rw conn-put_conn (elim (text_cases id j) [
    | inl (t, same) ↦ rw t (
        subst (λ (x : String). SameTransaction (started id s) (conn x s)) same
          (started-SameTransaction id s))
    | inr (t, e) ↦ rw t (refl, refl, refl)
  ]);
}

SameData-ids : (ids : Assoc ℤ) {s s' : Store} → SameData s s' → SameData s (with_ids ids s')
unfolding conn
SameData-ids ids h = record {
  committed = h.committed;
  version = h.version;
  tables = h.tables;
  transactions = h.transactions;
}

-- keep_changes changes the connection of the statement and, outside a transaction, the data.
keep_changes-OthersKept :
    (id t : String) (ch : Changes) (c : Connection) (s : Store)
    → OthersKept id s (keep_changes id t ch c s)
unfolding keep_changes
keep_changes-OthersKept id t ch c s j other = elim (Bool-cases c.active) [
  | inl e ↦ simp (keep_changes, e) (put_conn-OthersKept id _ s j other)
  | inr e ↦ simp (keep_changes, e) (put_conn-OthersKept id _ s j other)
]

keep_changes_held :
    (id t : String) (ch : Changes) (c : Connection) (s : Store)
    → c.active ≡ true
    → ((keep_changes id t ch c s).committed ≡ s.committed)
      × ((keep_changes id t ch c s).version ≡ s.version)
unfolding keep_changes put_conn
keep_changes_held id t ch c s e = simp (keep_changes, e) (refl, refl)

-- keep_changes stamps what it commits with the next version.
keep_changes-Grows :
    (id t : String) (ch : Changes) (c : Connection) (s : Store)
    → s.version + 1 < 2 ^ 64
    → Grows s (keep_changes id t ch c s)
unfolding keep_changes put_conn
keep_changes-Grows id t ch c s room = elim (Bool-cases c.active) [
  | inl e ↦ simp (keep_changes, e) (Grows-same refl refl)
  | inr e ↦
      simp (keep_changes, e)
        (Grows-stamp room refl (λ u k. commit_rows-Stamped _ t u k ch.rows s.committed))
]

keep_changes_clock :
    (id t : String) (ch : Changes) (c : Connection) (s : Store)
    → (keep_changes id t ch c s).version ≤ s.version + 1
unfolding keep_changes put_conn
keep_changes_clock id t ch c s = elim (Bool-cases c.active) [
  | inl e ↦ simp (keep_changes, e) (omega arith)
  | inr e ↦ simp (keep_changes, e) (omega arith)
]

module _ (encoded_size : RowsResult → ℕ) where
  -- A statement that fails leaves the committed rows, their version and the tables as they were,
  -- and every connection with its pending writes, its noted versions and its autocommit.
  pub execute-refused :
      (before after : Option String) (id : String) (p : Plan) (params : List Value) (s : Store)
      (e : DbError)
      → (execute encoded_size before after id p params s).1 ≡ refused e
      → SameData s (execute encoded_size before after id p params s).0
  execute-refused before after id p params s e h =
      go _ (execute-Ran encoded_size before after id p params s) h
    where
      go :
          (out : Store × Outcome Answer)
          → Ran encoded_size id p params s out
          → out.1 ≡ refused e
          → SameData s out.0
      go _ (early e') h = record {
        committed = refl;
        version = refl;
        tables = refl;
        transactions = λ j. (refl, refl, refl);
      }
      go _ (selected o k is) h = opened-SameData id s
      go _ (changed out (stopped ids e' drew)) h = SameData-ids ids (opened-SameData id s)
      go _ (changed out (applied t ch found drawn writes fine)) h = absurd (ground arith)

  -- A statement on a connection that is in a transaction, or that opens one for want of autocommit,
  -- changes neither the committed rows nor the version of the state, whether it succeeds or fails.
  pub execute-isolated :
      (before after : Option String) (id : String) (p : Plan) (params : List Value) (s : Store)
      → (started id s).active ≡ true
      → ((execute encoded_size before after id p params s).0.committed ≡ s.committed)
        × ((execute encoded_size before after id p params s).0.version ≡ s.version)
  unfolding put_conn
  execute-isolated before after id p params s open_ =
      go _ (execute-Ran encoded_size before after id p params s)
    where
      go :
          (out : Store × Outcome Answer)
          → Ran encoded_size id p params s out
          → (out.0.committed ≡ s.committed) × (out.0.version ≡ s.version)
      go _ (early e') = (refl, refl)
      go _ (selected o k is) = (refl, refl)
      go _ (changed out (stopped ids e' drew)) = (refl, refl)
      go _ (changed out (applied t ch found drawn writes fine)) =
          keep_changes_held id t.name ch (started id s) _ open_

  -- A statement leaves every other connection exactly as it was.
  pub execute-OthersKept :
      (before after : Option String) (id : String) (p : Plan) (params : List Value) (s : Store)
      → OthersKept id s (execute encoded_size before after id p params s).0
  execute-OthersKept before after id p params s =
      go _ (execute-Ran encoded_size before after id p params s)
    where
      go :
          (out : Store × Outcome Answer)
          → Ran encoded_size id p params s out
          → OthersKept id s out.0
      go _ (early e') j other = refl
      go _ (selected o k is) j other = put_conn-OthersKept id (started id s) s j other
      go _ (changed out (stopped ids e' drew)) j other =
          put_conn-OthersKept id (started id s) s j other
      go _ (changed out (applied t ch found drawn writes fine)) j other =
          keep_changes-OthersKept id t.name ch (started id s) _ j other
          ∙ put_conn-OthersKept id (started id s) s j other

  pub execute-Grows :
      (before after : Option String) (id : String) (p : Plan) (params : List Value) (s : Store)
      → s.version + 1 < 2 ^ 64
      → Grows s (execute encoded_size before after id p params s).0
        × ((execute encoded_size before after id p params s).0.version ≤ s.version + 1)
  unfolding put_conn
  execute-Grows before after id p params s room =
      go _ (execute-Ran encoded_size before after id p params s)
    where
      go :
          (out : Store × Outcome Answer)
          → Ran encoded_size id p params s out
          → Grows s out.0 × (out.0.version ≤ s.version + 1)
      go _ (early e') = (Grows-same refl refl, omega arith)
      go _ (selected o k is) = (Grows-same refl refl, omega arith)
      go _ (changed out (stopped ids e' drew)) = (Grows-same refl refl, omega arith)
      go _ (changed out (applied t ch found drawn writes fine)) = (
        Grows-trans (Grows-same refl refl) (keep_changes-Grows id t.name ch (started id s) _ room),
        keep_changes_clock id t.name ch (started id s)
            (with_ids (drawn_by id p params (started id s) (opened id s) t).1 (opened id s)),
      )
