-- ===== src/Mysql/Strategy/Plugin.antt =====
-- plugins/right/mysql-mock/plugin.go: the state of the plugin, with Start, Stop and the records of
-- scenario_types.go that it reads.
use x_mock_mcp.Mysql.Transaction.{close_connection}
use x_mock_mcp.Mysql.State.{Scenario, Store, new_state}
use x_mock_mcp.Mysql.Schema.{Plan}
use x_mock_mcp.Mysql.Value.{Json, Value}
use x_mock_mcp.Mysql.Constraints.{DbError}
use x_mock_mcp.Prelude.{
  Assoc, Bool, List, Option, String, [], false, if◌then◌else◌, insert, length, lookup, ltb,
  map_values, none, not, some, suc, true, ℕ, ◌&&◌, ◌++◌, ◌+◌, ◌==◌, ◌∷◌,
}
use x_mock_mcp.Mysql.Execute.Run.{Answer}
use x_mock_mcp.Api.{
  Failure, Result, other, err, fail, invalid, ok, state_conflict, unmatched_request, cancelled,
}

pub record Parameter : Type 0 where
  pub name : String
  pub type : String
  pub nullable : Bool
  pub allowed : List Value

pub record FixtureCase : Type 0 where
  pub params : List Value
  pub rows : List (List Json)

pub record Statement : Type 0 where
  pub id : String
  pub sql : String
  pub parameters : List Parameter
  pub plan : Option Plan
  pub cases : List FixtureCase

pub record Slot : Type 0 where
  pub id : String
  pub table : String
  pub keys : List String
  pub fixed : Assoc Value
  pub materialized : Bool

pub record CallExpectation : Type 0 where
  pub min : ℕ
  pub max : ℕ

pub record StateAssertion : Type 0 where
  pub table : String
  pub where_ : Assoc Value
  pub count : ℕ
  pub fields : Assoc Value

-- Bundle: what the plugin uses of the scenario, of its replay and of its verification.
pub record Bundle : Type 0 where
  pub database : String
  pub is_fixture : Bool
  pub scenario : Scenario
  pub statements : List Statement
  pub slots : List Slot
  pub requires_generation : Bool
  pub expect_calls : Assoc CallExpectation
  pub final_state : List StateAssertion

-- The texts of config.Mode.
pub data Mode : Type 0 where
  strict_replay agent_fill : Mode

-- An error of Execute or Complete: the core's, or the state's.
pub data Fault : Type 0 where
  of_core : Failure → Fault
  of_state : DbError → Fault

pub data Reply : Type 0 where
  given : Answer → Reply
  faulted : Fault → Reply

-- A request for the data of a slot; `plan` is that of its statement. `closes` counts
-- close(need.done); until then the two fields below it are not set.
pub record Continuation : Type 0 where
  pub request_id : String
  pub connection_id : String
  pub statement : Statement
  pub plan : Plan
  pub params : List Value
  pub slot : Slot
  pub deadline : ℕ
  pub closes : ℕ
  pub candidate_digest : String
  pub reply : Option Reply

-- The plugin. A slot's continuation is told by its token, under which it stays in `pending`.
pub record Plugin : Type 0 where
  pub store : Option Store
  pub bundle : Bundle
  pub mode : Mode
  pub pending : Assoc Continuation
  pub slots : Assoc String
  pub counts : Assoc ℕ
  pub closed : Assoc Bool
  pub violations : List Failure

-- select { case <-need.done: ... default: ... }
unfoldable pub is_over : Continuation → Bool
is_over n = ltb 0 n.closes

-- need.err = err; need.result = raw; need.candidateDigest = hash; close(need.done)
unfoldable pub end_with : String → Reply → Continuation → Continuation
end_with hash reply n = record n {
  closes = n.closes + 1;
  candidate_digest = hash;
  reply = some reply;
}

-- The loops over the pending continuations in Stop and in connection.close.
unfoldable pub cancel_if : (Continuation → Bool) → Failure → Continuation → Continuation
unfolding is_over end_with
cancel_if concerned e n =
    if concerned n && not (is_over n) then end_with "" (faulted (of_core e)) n else n

-- What stands between the decoded scenario and the state: the plans that Compile gives.
unfoldable pub has_plans : (Statement → Bool) → List Statement → Bool
has_plans compiles [] = true
has_plans compiles (s ∷ ss) = compiles s && has_plans compiles ss

-- What Start hears: its configuration, the strategy that its environment names, and its scenario,
-- both decoded; and whether the plan of a statement is the one that Compile gives.
pub record Opening : Type 0 where
  pub mode : Result Mode
  pub strategy : Option Mode
  pub bundle : Result Bundle
  pub compiles : Statement → Bool

abbrev pub same_mode : Mode → Mode → Bool
same_mode strict_replay strict_replay = true
same_mode agent_fill agent_fill = true
same_mode _ _ = false

abbrev pub matches : Option Mode → Mode → Bool
matches none m = true
matches (some n) m = same_mode n m

abbrev pub is_started : Option Store → Bool
is_started none = false
is_started (some s) = true

unfoldable pub new_plugin : Store → Bundle → Mode → Plugin
new_plugin s b mode = record {
  store = some s;
  bundle = b;
  mode = mode;
  pending = [];
  slots = [];
  counts = [];
  closed = [];
  violations = [];
}

abbrev pub open_with : Mode → Bundle → Opening → Option Store → Plugin → Plugin × Option Failure
open_with mode b o none p = (p, some (other "initial state"))
open_with mode b o (some s) p =
    if is_started p.store
    then (p, some (fail state_conflict "already started"))
    else (new_plugin s b mode, none)

-- func (p *plugin) Start
unfoldable pub start : Opening → Plugin → Plugin × Option Failure
unfolding has_plans new_plugin
start o p = elim o.mode [
  | err e ↦ (p, some e)
  | ok mode ↦
      if not (matches o.strategy mode)
      then (p, some (invalid "right mode must match environment data strategy"))
      else (elim o.bundle [
        | err e ↦ (p, some e)
        | ok b ↦
            if b.requires_generation && same_mode mode strict_replay
            then (
              p,
              some (
                  fail unmatched_request
                    "strict replay requires materialized initial reference entities"),
            )
            else if not (has_plans o.compiles b.statements)
            then (p, some (invalid "compiled SQL plan mismatch"))
            else open_with mode b o (new_state b.scenario) p
      ])
]

-- func (p *plugin) Stop
unfoldable pub stop : Plugin → Plugin
unfolding cancel_if
stop p = record p {
  store = none;
  pending = map_values (cancel_if (λ n. true) (fail cancelled "plugin stopped")) p.pending;
}

abbrev pub without_connection : String → Option Store → Option Store
without_connection id none = none
without_connection id (some s) = some (close_connection id s)

-- The case connection.close of Execute.
unfoldable pub close : String → Plugin → Plugin
unfolding cancel_if
close id p = record p {
  closed = insert id true p.closed;
  store = without_connection id p.store;
  pending =
      map_values (cancel_if (λ n. n.connection_id == id) (fail cancelled "connection closed"))
        p.pending;
}

-- The deferred function of Execute: at most sixteen failures are kept.
unfoldable pub note_violation : Failure → Plugin → Plugin
note_violation e p =
    if ltb (length p.violations) 16 then record p { violations = p.violations ++ (e ∷ []) } else p

-- The part of Execute that counts the calls of a statement.
unfoldable pub count_call : String → Plugin → Plugin × ℕ
count_call id p =
    let count = suc (elim (lookup id p.counts) [ none ↦ 0 | some n ↦ n ]) in
    (record p { counts = insert id count p.counts }, count)

abbrev pub exceeds : Option CallExpectation → ℕ → Bool
exceeds none count = false
exceeds (some expected) count = ltb expected.max count
