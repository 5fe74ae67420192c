-- ===== src/Mysql/Clock.antt =====
-- newState of state.go, and what holds of every state that is reached from it.
use x_mock_mcp.Mysql.Constraints.{validate_initial}
use x_mock_mcp.Mysql.Covered.{fresh_connection-Covers, IsCovered}
use x_mock_mcp.Mysql.Grows.{IsClocked, lookup-at_table, version_in}
use x_mock_mcp.Prelude.Int.{pos, ℤ}
use x_mock_mcp.Mysql.State.{
  conn, fresh_connection, new_state, RecordVersion, Scenario, Store, after_row, at_table, load_rows,
  load_tables, seeded,
}
use x_mock_mcp.Mysql.Schema.{Entity, Table}
use x_mock_mcp.Prelude.{
  ap, arith, insert, Assoc, Bool-cases, List, Option, Option-cases, String, [], inl, inr, lookup,
  lookup-insert, none, refl, some, subst, ◌==◌, ◌∷◌, ◌≡◌,
}

abbrev WhenSome {ℓ κ} : {A : Type ℓ} → (A → Type κ) → Option A → Type κ
WhenSome P none = Unit
WhenSome P (some a) = P a

WhenSome-of {ℓ κ} :
    {A : Type ℓ} (P : A → Type κ) (o : Option A) (a : A) → WhenSome P o → o ≡ some a → P a
WhenSome-of P o a h e = subst (WhenSome P) e h

abbrev AtZero : Assoc RecordVersion → Type 0
AtZero m = (k : String) → version_in (lookup k m) ≡ 0

nil-AtZero : AtZero []
unfolding lookup
nil-AtZero k = refl

insert-AtZero :
    (j : String) (row : Option Entity) (m : Assoc RecordVersion)
    → AtZero m
    → AtZero (insert j (record { row = row; version = 0 }) m)
insert-AtZero j row m h k =
    rw lookup-insert (elim (Bool-cases (j == k)) [ inl e ↦ rw e refl | inr e ↦ rw e (h k) ])

load_rows-AtZero :
    (t : Table) (rows : List Entity) (m : Assoc RecordVersion) (next : ℤ)
    → AtZero m
    → WhenSome (λ (out : Assoc RecordVersion × ℤ). AtZero out.0) (load_rows t rows m next)
unfolding load_rows
load_rows-AtZero t [] m next h = h
load_rows-AtZero t (row ∷ rows) m next h = elim (Option-cases (after_row t.columns row next)) [
  | inl bad ↦ rw (load_rows, bad) tt
  | inr (n, e) ↦ rw (load_rows, e) (load_rows-AtZero t rows _ n (insert-AtZero _ _ m h))
]

-- A state without connections whose rows all have version 0, as the state's own clock.
pub record IsFresh (s : Store) : Type 0 where
  pub zeros : (t : String) → AtZero (at_table t s.committed)
  pub clock : s.version ≡ 0
  pub idle : s.sessions ≡ []

insert-zeros :
    (t : String) (rows : Assoc RecordVersion) (m : Assoc (Assoc RecordVersion))
    → AtZero rows
    → ((u : String) → AtZero (at_table u m))
    → (u : String) → AtZero (at_table u (insert t rows m))
insert-zeros t rows m h zeros u k =
    rw lookup-at_table
      (elim (Bool-cases (t == u)) [ inl e ↦ rw e (h k) | inr e ↦ rw e (zeros u k) ])

load_tables-IsFresh :
    (ts : List Table) (db : Scenario) (s : Store)
    → IsFresh s
    → WhenSome IsFresh (load_tables ts db s)
unfolding load_tables
load_tables-IsFresh [] db s h = h
load_tables-IsFresh (t ∷ ts) db s h = elim (Option-cases (load_rows t initial [] (pos 1))) [
  | inl bad ↦ rw (load_tables, bad) tt
  | inr (loaded, e) ↦
      rw (load_tables, e)
        (elim (Option-cases (seeded (lookup t.name db.next_ids) loaded.1)) [
          | inl bad ↦ rw bad tt
          | inr (n, fine) ↦ rw fine (
              load_tables-IsFresh ts db _ (record {
                zeros =
                    insert-zeros t.name loaded.0 s.committed
                      (WhenSome-of (λ (out : Assoc RecordVersion × ℤ). AtZero out.0) _ loaded
                        (load_rows-AtZero t initial [] (pos 1) nil-AtZero) e)
                      h.zeros;
                clock = h.clock;
                idle = h.idle;
              }))
        ])
]
  where
    initial : List Entity
    initial = elim (lookup t.name db.initial) [ none ↦ [] | some rows ↦ rows ]

new_state-WhenSome : (db : Scenario) → WhenSome IsFresh (new_state db)
unfolding new_state at_table lookup
new_state-WhenSome db = elim (Option-cases (validate_initial db.tables db.initial)) [
  | inr (e, bad) ↦ rw (new_state, bad) tt
  | inl fine ↦
      rw (new_state, fine)
        (load_tables-IsFresh db.tables db _
          (record { zeros = λ t. nil-AtZero; clock = refl; idle = refl }))
]

pub new_state-IsFresh : (db : Scenario) (s : Store) → new_state db ≡ some s → IsFresh s
new_state-IsFresh db s = WhenSome-of IsFresh (new_state db) s (new_state-WhenSome db)

pub IsFresh-IsClocked : (s : Store) → IsFresh s → IsClocked s
IsFresh-IsClocked s h t k r at = omega (arith, ap version_in at, h.zeros t k)

conn_idle : (id : String) (s : Store) → s.sessions ≡ [] → conn id s ≡ fresh_connection
unfolding conn lookup
conn_idle id s h = rw (conn, h) refl

pub IsFresh-IsCovered : (s : Store) → IsFresh s → IsCovered s
IsFresh-IsCovered s h id = rw (conn_idle id s h.idle) fresh_connection-Covers
