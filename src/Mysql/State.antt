-- ===== src/Mysql/State.antt =====
-- plugins/right/mysql-mock/state.go: the versioned rows, the connections, the view of a connection
-- and newState. Rows and versions stand under their table's name, then under their primary key.
use x_mock_mcp.Prelude.{
  ℕ, ◌+◌, ◌%◌, ◌^◌, String, Bool, true, false, not, ◌||◌, Option, none, some, List, [], ◌∷◌, Assoc,
  lookup, insert, erase, map_values, if◌then◌else◌,
}
use x_mock_mcp.Prelude.Int.{ℤ, pos, eqb_ℤ, ltb_ℤ, ◌+ℤ◌}
use x_mock_mcp.Prelude.Text.{sort_strings}
use x_mock_mcp.Mysql.Value.{SessionStatus, int64_of, string_of, max_int64, parse_int64}
use x_mock_mcp.Mysql.Schema.{Entity, Field, Table, cell, key_column, clone_value}
use x_mock_mcp.Mysql.Constraints.{validate_initial}

-- A row that is `none` is a deletion tombstone, whose version is kept.
pub record RecordVersion : Type 0 where
  pub row : Option Entity
  pub version : ℕ

-- The version of each row when the transaction first wrote it, under table and key. (The code joins
-- the two by a NUL character, and splits them again at the first one.)
abbrev pub Base : Type 0
Base = Assoc (Assoc ℕ)

-- A connection, but for its prepared statements and settings, which the state operations do not use.
pub record Connection : Type 0 where
  pub autocommit : Bool
  pub active : Bool
  pub found_rows : Bool
  pub read_only : Bool
  pub last_insert : ℕ
  pub writes : Assoc (Assoc (Option Entity))
  pub base : Base

pub record Store : Type 0 where
  pub tables : List Table
  pub committed : Assoc (Assoc RecordVersion)
  pub sessions : Assoc Connection
  pub next_ids : Assoc ℤ
  pub version : ℕ

-- s.version++ on a uint64
abbrev pub next_version : ℕ → ℕ
next_version v = (v + 1) % 2 ^ 64

-- The connection that conn makes.
abbrev pub fresh_connection : Connection
fresh_connection = record {
  autocommit = true;
  active = false;
  found_rows = false;
  read_only = false;
  last_insert = 0;
  writes = [];
  base = [];
}

-- func (s *state) conn: the connection, which the map holds from then on.
unfoldable pub conn : String → Store → Connection
conn id s = elim (lookup id s.sessions) [ none ↦ fresh_connection | some c ↦ c ]

unfoldable pub put_conn : String → Connection → Store → Store
put_conn id c s = record s { sessions = insert id c s.sessions }

-- func status
unfoldable pub status : Connection → SessionStatus
status c = record { autocommit = c.autocommit; in_transaction = c.active }

unfoldable pub clone_row : Entity → Entity
unfolding clone_value
clone_row = map_values clone_value

-- The rows of a table that are not deleted.
unfoldable pub live_rows : Assoc RecordVersion → Assoc Entity
unfolding clone_row
live_rows [] = []
live_rows ((k, r) ∷ m) =
    let rest = live_rows m in elim r.row [ none ↦ rest | some row ↦ (k, clone_row row) ∷ rest ]

unfoldable pub committed_view : Assoc (Assoc RecordVersion) → Assoc (Assoc Entity)
unfolding live_rows
committed_view [] = []
committed_view ((t, rows) ∷ m) = (t, live_rows rows) ∷ committed_view m

-- The rows of one table, none where the map lacks it.
abbrev pub or_empty {ℓ} : {A : Type ℓ} → Option (Assoc A) → Assoc A
or_empty none = []
or_empty (some rows) = rows

unfoldable pub at_table {ℓ} : {A : Type ℓ} → String → Assoc (Assoc A) → Assoc A
at_table t m = or_empty (lookup t m)

-- The writes of a transaction over the rows of one table.
unfoldable pub overlay_rows : Assoc (Option Entity) → Assoc Entity → Assoc Entity
unfolding clone_row
overlay_rows [] rows = rows
overlay_rows ((k, none) ∷ m) rows = overlay_rows m (erase k rows)
overlay_rows ((k, some row) ∷ m) rows = overlay_rows m (insert k (clone_row row) rows)

unfoldable pub overlay : Assoc (Assoc (Option Entity)) → Assoc (Assoc Entity) → Assoc (Assoc Entity)
unfolding overlay_rows at_table
overlay [] v = v
overlay ((t, w) ∷ m) v = overlay m (insert t (overlay_rows w (at_table t v)) v)

-- func (s *state) view
unfoldable pub view : Store → Option Connection → Assoc (Assoc Entity)
unfolding committed_view overlay
view s none = committed_view s.committed
view s (some c) = overlay c.writes (committed_view s.committed)

unfoldable pub keys {ℓ} : {A : Type ℓ} → Assoc A → List String
keys [] = []
keys ((k, v) ∷ m) = k ∷ keys m

unfoldable pub rows_in_order : List String → Assoc Entity → List Entity
unfolding clone_row
rows_in_order [] rows = []
rows_in_order (k ∷ ks) rows =
    let rest = rows_in_order ks rows in
    elim (lookup k rows) [ none ↦ rest | some row ↦ clone_row row ∷ rest ]

unfoldable pub is_empty {ℓ} : {A : Type ℓ} → List A → Bool
is_empty [] = true
is_empty (x ∷ xs) = false

-- func asInitial: the rows of each table that has any, sorted by their keys.
unfoldable pub as_initial : Assoc (Assoc Entity) → Assoc (List Entity)
unfolding rows_in_order keys sort_strings is_empty
as_initial [] = []
as_initial ((t, rows) ∷ m) =
    let rest = as_initial m in
    if is_empty rows then rest else (t, rows_in_order (sort_strings (keys rows)) rows) ∷ rest

-- The next automatic identifier after a row's columns; `none` is the error of exhaustion.
unfoldable pub after_row : List Field → Entity → ℤ → Option ℤ
unfolding int64_of cell
after_row [] row next = some next
after_row (f ∷ fs) row next =
    let n = (int64_of (cell row f.name)).0 in
    let plain = after_row fs row next in
    let seen = after_row fs row (if ltb_ℤ n next then next else n +ℤ pos 1) in
    if not f.auto_increment then plain else if eqb_ℤ n (pos max_int64) then none else seen

-- The committed rows of one table and its next identifier.
unfoldable pub load_rows :
    Table → List Entity → Assoc RecordVersion → ℤ → Option (Assoc RecordVersion × ℤ)
unfolding after_row cell string_of key_column clone_row
load_rows t [] m next = some (m, next)
load_rows t (row ∷ rows) m next = elim (after_row t.columns row next) [
  | none ↦ none
  | some next' ↦
      load_rows t rows
        (insert (string_of (cell row (key_column t))).0
          (record { row = some (clone_row row); version = 0 }) m)
        next'
]

-- A seed of the scenario takes effect unless it is no number or lies below the rows' identifiers.
unfoldable pub seeded : Option String → ℤ → Option ℤ
unfolding parse_int64
seeded none next = some next
seeded (some text) next =
    let (n, fine) = parse_int64 text in if not fine || ltb_ℤ n next then none else some n

pub record Scenario : Type 0 where
  pub tables : List Table
  pub initial : Assoc (List Entity)
  pub next_ids : Assoc String

unfoldable pub load_tables : List Table → Scenario → Store → Option Store
unfolding load_rows seeded
load_tables [] db s = some s
load_tables (t ∷ ts) db s =
    elim (load_rows t (elim (lookup t.name db.initial) [ none ↦ [] | some rows ↦ rows ]) []
      (pos 1)) [
        | none ↦ none
        | some (rows, next) ↦ (elim (seeded (lookup t.name db.next_ids) next) [
          | none ↦ none
          | some n ↦ load_tables ts db (record s {
            committed = insert t.name rows s.committed;
            next_ids = insert t.name n s.next_ids;
          })
        ])
      ]

-- func newState; `none` is an error.
unfoldable pub new_state : Scenario → Option Store
unfolding load_tables validate_initial
new_state db = elim (validate_initial db.tables db.initial) [
  | some e ↦ none
  | none ↦
      load_tables db.tables db
        (record { tables = db.tables; committed = []; sessions = []; next_ids = []; version = 0 })
]

-- The other changes of a connection that plugin.go and system.go make: a connection is there from
-- then on, connection.open says what it counts, and a SET statement makes it read-only or not.
unfoldable pub touch : String → Store → Store
unfolding conn put_conn
touch id s = put_conn id (conn id s) s

unfoldable pub open_connection : String → Bool → Store → Store
unfolding conn put_conn
open_connection id found_rows s = put_conn id (record (conn id s) { found_rows = found_rows }) s

unfoldable pub set_read_only : String → Bool → Store → Store
unfolding conn put_conn
set_read_only id read_only s = put_conn id (record (conn id s) { read_only = read_only }) s
