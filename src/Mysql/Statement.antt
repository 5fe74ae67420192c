-- ===== src/Mysql/Statement.antt =====
-- The ways in which execute of state.go can end, and what each of them leaves of the store.
use x_mock_mcp.Prelude.{
  ℕ, ◌≡◌, refl, ◌⊎◌, inl, inr, String, false, Option, none, some, List, Assoc, length, nat_eq,
  Option-cases, Bool-cases,
}
use x_mock_mcp.Prelude.Int.{ℤ}
use x_mock_mcp.Mysql.Value.{Value}
use x_mock_mcp.Mysql.Schema
use x_mock_mcp.Mysql.Schema.{Entity, Table, Plan, select, find_table}
use x_mock_mcp.Mysql.Constraints.{DbError, context}
use x_mock_mcp.Mysql.State.{Store, Connection, put_conn, at_table, view, status}
use x_mock_mcp.Mysql.Execute.Select.{Outcome, done, refused, RowsResult, run_select}
use x_mock_mcp.Mysql.Execute.Changes.{Changes, changes_of}
use x_mock_mcp.Mysql.Execute.Run.{
  Answer, ok_packet, started, check_changes, keep_changes, affected, settle, run_change, run_plan,
  execute, answer_rows, key_of, check_params,
}

-- The store in which the statement runs.
abbrev pub opened : String → Store → Store
opened id s = put_conn id (started id s) s

abbrev pub with_ids : Assoc ℤ → Store → Store
with_ids ids s = record s { next_ids = ids }

-- A statement on the connection `c` of the store `s`, which holds it.
module _ (id : String) (p : Plan) (params : List Value) (c : Connection) (s : Store) where
  -- The rows that the statement sees in a table.
  abbrev pub rows_seen : String → Assoc Entity
  rows_seen t = at_table t (view s (some c))

  abbrev pub drawn_by : Table → Outcome Changes × Assoc ℤ
  drawn_by t = changes_of p.kind t p params (rows_seen t.name) s.next_ids

  -- The identifiers that the statement leaves are the old ones, or those that its changes drew.
  abbrev pub Drew : Assoc ℤ → Type 0
  Drew ids = (ids ≡ s.next_ids) ⊎ ((t : Table) × (ids ≡ (drawn_by t).1))

  -- What a statement that writes leaves, with its result.
  pub data Changed : Store × Outcome Answer → Type 0 where
    stopped : (ids : Assoc ℤ) (e : DbError) → Drew ids → Changed (with_ids ids s, refused e)
    applied :
        (t : Table) (ch : Changes)
        → find_table s.tables p.table ≡ some t
        → (drawn_by t).0 ≡ done ch
        → c.read_only ≡ false
        → check_changes p.kind t.name ch.rows c (with_ids (drawn_by t).1 s) ≡ none
        → Changed (
          keep_changes id t.name ch c (with_ids (drawn_by t).1 s),
          done (ok_packet (affected p.kind c ch) ch.insert_id (status c)),
        )

Outcome-cases {ℓ} :
    {A : Type ℓ} (o : Outcome A) → ((a : A) × (o ≡ done a)) ⊎ ((e : DbError) × (o ≡ refused e))
Outcome-cases (done a) = inl (a, refl)
Outcome-cases (refused e) = inr (e, refl)

settle-Changed :
    (after : Option String) (id : String) (p : Plan) (params : List Value) (c : Connection)
    (s : Store) (t : Table) (ch : Changes)
    → find_table s.tables p.table ≡ some t
    → (drawn_by id p params c s t).0 ≡ done ch
    → c.read_only ≡ false
    → Changed id p params c s
        (settle after id p.kind t.name c ch (with_ids (drawn_by id p params c s t).1 s))
unfolding settle
settle-Changed after id p params c s t ch found drawn writes =
    elim (Option-cases
      (check_changes p.kind t.name ch.rows c (with_ids (drawn_by id p params c s t).1 s))) [
        | inr (e, bad) ↦ rw (settle, bad) (stopped (drawn_by id p params c s t).1 e (inr (t, refl)))
        | inl fine ↦ rw (settle, fine) (last after fine)
      ]
  where
    ids : Assoc ℤ
    ids = (drawn_by id p params c s t).1

    last :
        (after : Option String)
        → check_changes p.kind t.name ch.rows c (with_ids ids s) ≡ none
        → Changed id p params c s (elim after [
          | some e ↦ (with_ids ids s, refused (context e))
          | none ↦ (
            keep_changes id t.name ch c (with_ids ids s),
            done (ok_packet (affected p.kind c ch) ch.insert_id (status c)),
          )
        ])
    last none fine = applied t ch found drawn writes fine
    last (some e) fine = stopped ids (context e) (inr (t, refl))

pub run_change-Changed :
    (after : Option String) (id : String) (p : Plan) (params : List Value) (c : Connection)
    (s : Store)
    → Changed id p params c s (run_change after id p params c s)
unfolding run_change
run_change-Changed after id p params c s = elim (Bool-cases c.read_only) [
  | inl ro ↦ simp (run_change, ro) (stopped s.next_ids _ (inl refl))
  | inr writes ↦ elim (Option-cases (find_table s.tables p.table)) [
    | inl absent ↦ simp (run_change, writes, absent) (stopped s.next_ids _ (inl refl))
    | inr (t, found) ↦ elim (Outcome-cases (drawn_by id p params c s t).0) [
      | inr (e, bad) ↦
          simp (run_change, writes, found, bad)
            (stopped (drawn_by id p params c s t).1 e (inr (t, refl)))
      | inl (ch, drawn) ↦
          simp (run_change, writes, found, drawn)
            (settle-Changed after id p params c s t ch found drawn writes)
    ]
  ]
]

module _ (encoded_size : RowsResult → ℕ) where
  -- What execute leaves, with its result.
  pub data Ran (id : String) (p : Plan) (params : List Value) (s : Store)
      : Store × Outcome Answer → Type 0 where
    early : (e : DbError) → Ran id p params s (s, refused e)
    selected :
        (o : Outcome RowsResult)
        → p.kind ≡ select
        → o
          ≡ run_select encoded_size p
              (key_of s.tables p.table)
              (rows_seen id p params (started id s) (opened id s) p.table)
              params
              (status (started id s))
        → Ran id p params s (opened id s, answer_rows o)
    changed :
        (out : Store × Outcome Answer)
        → Changed id p params (started id s) (opened id s) out
        → Ran id p params s out

  run_plan-Ran :
      (after : Option String) (id : String) (p : Plan) (params : List Value) (s : Store)
      → Ran id p params s (run_plan encoded_size after id p params (started id s) (opened id s))
  unfolding run_plan
  run_plan-Ran after id p params s = go p.kind refl
    where
      writes : Ran id p params s (run_change after id p params (started id s) (opened id s))
      writes = changed _ (run_change-Changed after id p params (started id s) (opened id s))

      go :
          (k : Schema.Kind)
          → p.kind ≡ k
          → Ran id p params s (run_plan encoded_size after id p params (started id s) (opened id s))
      go select e = simp (run_plan, e) (selected _ e refl)
      go Schema.Kind.insert e = simp (run_plan, e) writes
      go Schema.Kind.update e = simp (run_plan, e) writes
      go Schema.Kind.delete e = simp (run_plan, e) writes
      go Schema.Kind.unknown e = simp (run_plan, e) writes

  pub execute-Ran :
      (before after : Option String) (id : String) (p : Plan) (params : List Value) (s : Store)
      → Ran id p params s (execute encoded_size before after id p params s)
  unfolding execute
  execute-Ran (some e) after id p params s = early (context e)
  execute-Ran none after id p params s =
      elim (Bool-cases (nat_eq (length params) (length p.parameters))) [
        | inr e ↦ rw (e, execute) (early _)
        | inl e ↦ elim (Option-cases (check_params p.parameters params)) [
          | inr (failure, bad) ↦ rw (execute, e, bad) (early failure)
          | inl fine ↦ rw (execute, e, fine) (run_plan-Ran after id p params s)
        ]
      ]
