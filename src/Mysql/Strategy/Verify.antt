-- ===== src/Mysql/Strategy/Verify.antt =====
-- verifyState and Verify of plugins/right/mysql-mock/verification.go: whether the calls that were made
-- and the committed rows are what the scenario expects. The issues are told by what they are about.
use x_mock_mcp.Mysql.Value.{Value}
use x_mock_mcp.Api.{Failure, Result, err, fail, ok, state_conflict}
use x_mock_mcp.Mysql.Schema.{Entity, cell, equal_value}
use x_mock_mcp.Mysql.Strategy.Plugin.{CallExpectation, Plugin, StateAssertion}
use x_mock_mcp.Mysql.State.{Base, Connection, Store, at_table, view}
use x_mock_mcp.Prelude.{
  Assoc, Bool, List, String, [], false, if◌then◌else◌, lookup, ltb, map, nat_eq, none, some, suc,
  true, ℕ, ◌&&◌, ◌++◌, ◌||◌, ◌∷◌,
}

pub data Issue : Type 0 where
  calls : String → Issue
  field : String → String → Issue
  rows_matched : String → Issue
  uncommitted : Issue
  violation : Failure → Issue

pub record Report : Type 0 where
  pub passed : Bool
  pub issues : List Issue

abbrev pub call_count : String → Assoc ℕ → ℕ
call_count id counts = elim (lookup id counts) [ none ↦ 0 | some n ↦ n ]

unfoldable pub call_issues : Assoc CallExpectation → Assoc ℕ → List Issue
call_issues [] counts = []
call_issues ((id, e) ∷ es) counts =
    let rest = call_issues es counts in
    let n = call_count id counts in if ltb n e.min || ltb e.max n then calls id ∷ rest else rest

-- Every column of the assertion has its value in the row.
unfoldable pub has_values : Assoc Value → Entity → Bool
unfolding equal_value cell
has_values [] row = true
has_values ((name, v) ∷ vs) row = equal_value (cell row name) v && has_values vs row

unfoldable pub field_issues : String → Assoc Value → Entity → List Issue
unfolding equal_value cell
field_issues table [] row = []
field_issues table ((name, v) ∷ vs) row =
    let rest = field_issues table vs row in
    if equal_value (cell row name) v then rest else field table name ∷ rest

-- The loop over the rows of a table: the issues, and how many rows matched.
unfoldable pub row_issues : StateAssertion → List Entity → List Issue × ℕ
unfolding has_values field_issues
row_issues a [] = ([], 0)
row_issues a (row ∷ rows) =
    let (issues, count) = row_issues a rows in
    if has_values a.where_ row
    then (field_issues a.table a.fields row ++ issues, suc count)
    else (issues, count)

unfoldable pub values_of : Assoc Entity → List Entity
values_of [] = []
values_of ((k, row) ∷ rows) = row ∷ values_of rows

unfoldable pub assertion_issues : StateAssertion → Assoc (Assoc Entity) → List Issue
unfolding row_issues values_of at_table
assertion_issues a v =
    let (issues, count) = row_issues a (values_of (at_table a.table v)) in
    if nat_eq count a.count then issues else issues ++ (rows_matched a.table ∷ [])

unfoldable pub state_issues : List StateAssertion → Assoc (Assoc Entity) → List Issue
unfolding assertion_issues
state_issues [] v = []
state_issues (a ∷ as_) v = assertion_issues a v ++ state_issues as_ v

-- len(c.base) > 0
abbrev pub has_base : Base → Bool
has_base [] = false
has_base ((t, []) ∷ b) = has_base b
has_base ((t, x ∷ xs) ∷ b) = true

unfoldable pub session_issues : Assoc Connection → List Issue
session_issues [] = []
session_issues ((id, c) ∷ cs) =
    let rest = session_issues cs in if has_base c.base then uncommitted ∷ rest else rest

abbrev pub report_of : List Issue → Report
report_of [] = record { passed = true; issues = [] }
report_of (i ∷ is) = record { passed = false; issues = i ∷ is }

-- func verifyState
unfoldable pub verify_state : Assoc CallExpectation → List StateAssertion → Assoc ℕ → Store → Report
unfolding call_issues state_issues session_issues view
verify_state expect_calls final_state counts s = report_of (
    call_issues expect_calls counts
    ++ (state_issues final_state (view s none) ++ session_issues s.sessions))

-- func (p *plugin) Verify
unfoldable pub verify : Plugin → Result Report
unfolding verify_state
verify p = elim p.store [
  | none ↦ err (fail state_conflict "right not started")
  | some s ↦
      let r = verify_state p.bundle.expect_calls p.bundle.final_state p.counts s in
      elim p.violations [
        | [] ↦ ok r
        | e ∷ es ↦ ok (record { passed = false; issues = r.issues ++ map violation (e ∷ es) })
      ]
]
