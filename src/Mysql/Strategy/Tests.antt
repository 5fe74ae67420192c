-- ===== src/Mysql/Strategy/Tests.antt =====
-- One generation slot of plugins/right/mysql-mock: it is asked for, filled, filled again, and a second
-- candidate is refused; and the verification of the calls that were made.
use x_mock_mcp.Mysql.Strategy.Verify.{verify_state}
use x_mock_mcp.Api.{err, invalid, ok}
use x_mock_mcp.Mysql.Strategy.Steps.{here, there, Steps, completes, visits}
use x_mock_mcp.Mysql.Strategy.Refused.{complete-refused}
use x_mock_mcp.Mysql.State.{Store, view}
use x_mock_mcp.Mysql.Strategy.Ending.{Steps-single}
use x_mock_mcp.Mysql.Execute.Select.{RowsResult}
use x_mock_mcp.Mysql.Value.{Column, text}
use x_mock_mcp.Mysql.Strategy.Slots.{Caller, visit}
use x_mock_mcp.Mysql.Strategy.Complete.{Call, Payloads, Resolved, complete, refusal}
use x_mock_mcp.Mysql.Strategy.Plugin.{
  Bundle, Continuation, Plugin, Slot, Statement, agent_fill, is_over, new_plugin,
}
use x_mock_mcp.Mysql.Execute.Run.{Answer, ok_packet}
use x_mock_mcp.Prelude.{
  insert, All, String, [], false, if◌then◌else◌, lookup, none, refl, some, true, ℕ, ◌==◌, ◌↔◌, ◌∷◌,
  ◌≡◌, ◌≤◌,
}
use x_mock_mcp.Mysql.Strategy.Verified.{InBounds, Holds, HasCommitted, verify_state-passes}
use x_mock_mcp.Mysql.Schema.{Table, Plan, delete, Entity}

abbrev key_columns : Column
key_columns = record { name = "id"; type = "BIGINT"; nullable = false }

abbrev users : Table
users = record {
  name = "users";
  columns =
      (record { column = key_columns; max_length = 0; default = none; auto_increment = false })
      ∷ [];
  primary_key = "id" ∷ [];
  unique = [];
  foreign_keys = [];
}

abbrev user_one : Entity
user_one = ("id", record { type = "BIGINT"; value = text "1" }) ∷ []

abbrev no_users : Store
no_users = record {
  tables = users ∷ [];
  committed = ("users", []) ∷ [];
  sessions = [];
  next_ids = [];
  version = 0;
}

abbrev delete_all : Plan
delete_all = record {
  kind = delete;
  table = "users";
  projection = [];
  columns = [];
  predicates = [];
  assignments = [];
  order = [];
  limit = none;
  parameters = [];
}

abbrev statement : Statement
statement = record {
  id = "q";
  sql = "DELETE FROM users";
  parameters = [];
  plan = some delete_all;
  cases = [];
}

abbrev slot : Slot
slot = record { id = "s"; table = "users"; keys = "1" ∷ []; fixed = []; materialized = false }

abbrev bundle : Bundle
bundle = record {
  database = "app";
  is_fixture = false;
  scenario = record { tables = users ∷ []; initial = []; next_ids = [] };
  statements = statement ∷ [];
  slots = slot ∷ [];
  requires_generation = true;
  expect_calls = ("q", record { min = 1; max = 1 }) ∷ [];
  final_state = (record { table = "users"; where_ = []; count = 0; fields = [] }) ∷ [];
}

abbrev fresh : Plugin
fresh = new_plugin no_users bundle agent_fill

abbrev caller : Caller
caller = record {
  request_id = "r";
  connection_id = "c";
  statement = statement;
  plan = delete_all;
  params = [];
  deadline_ms = 100;
  token = "k";
}

abbrev asked : Plugin
asked = (visit 1 caller "users" slot fresh).0

abbrev payloads : Payloads
payloads = record {
  sum = λ s. s;
  decode = λ s.
      if s == "good"
      then ok (record { slot_id = "s"; rows = user_one ∷ [] })
      else err (invalid "invalid JSON");
}

abbrev any_size : RowsResult → ℕ
any_size r = 0

abbrev call : Call
call = record { cancelled = none; now_ms = 5; before_ = none; after_ = none }

abbrev resolved : Resolved
resolved = record { request_id = "r"; continuation = "k"; state_version = 0; payload = "good" }

abbrev filled : Plugin
filled = (complete any_size payloads call resolved asked).0

abbrev filled_answer : Answer
filled_answer = ok_packet 1 0 (record { autocommit = true; in_transaction = false })

refused_store : complete any_size payloads call (record resolved { payload = "bad" }) asked ≡ (
  (complete any_size payloads call (record resolved { payload = "bad" }) asked).0,
  refusal (invalid "invalid JSON"),
)
unfolding complete lookup visit new_plugin insert
refused_store = refl

complete-refused_example :
    (complete any_size payloads call (record resolved { payload = "bad" }) asked).0.store
    ≡ asked.store
complete-refused_example =
    complete-refused any_size payloads call (record resolved { payload = "bad" }) asked _
      (invalid "invalid JSON") refused_store

abbrev is_filled : Steps any_size payloads fresh filled
unfolding lookup new_plugin
is_filled =
    there (there here (visits 1 caller "users" slot fresh refl)) (completes call resolved asked)

Steps-single_example :
    ((k : String) (n : Continuation) → lookup k filled.pending ≡ some n → n.closes ≤ 1)
    × ((k j : String) (n n' : Continuation)
        → lookup k filled.pending ≡ some n
        → lookup j filled.pending ≡ some n'
        → is_over n ≡ false
        → is_over n' ≡ false
        → n.slot.id ≡ n'.slot.id
        → k ≡ j)
Steps-single_example = Steps-single no_users bundle agent_fill is_filled

verify_state-passes_example :
    ((verify_state bundle.expect_calls bundle.final_state (("q", 1) ∷ []) no_users).passed ≡ true)
    ↔ (All (InBounds (("q", 1) ∷ [])) bundle.expect_calls
        × All (Holds (view no_users none)) bundle.final_state
        × All HasCommitted no_users.sessions)
verify_state-passes_example =
    verify_state-passes bundle.expect_calls bundle.final_state (("q", 1) ∷ []) no_users
