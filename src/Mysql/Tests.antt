-- ===== src/Mysql/Tests.antt =====
-- One table of the MySQL state of plugins/right/mysql-mock, a transaction that deletes its row, and
-- an INSERT that fails.
use x_mock_mcp.Mysql.Rollback.{control-rollback}
use x_mock_mcp.Mysql.Command.{Command, classify, normal}
use x_mock_mcp.Prelude.Int.{◌+ℤ◌, pos}
use x_mock_mcp.Mysql.Execute.Run.{started, execute, version_at}
use x_mock_mcp.Mysql.History.{commit-no_lost_update, execute-notes, Steps-IsSound}
use x_mock_mcp.Mysql.Transaction.{commit, control}
use x_mock_mcp.Mysql.Isolation.{
  OthersKept, SameData, execute-OthersKept, execute-isolated, execute-refused,
}
use x_mock_mcp.Mysql.Covered.{IsCovered}
use x_mock_mcp.Mysql.Grows.{record_at, IsClocked}
use x_mock_mcp.Mysql.Schema
use x_mock_mcp.Mysql.Schema.{Entity, Table, Plan, delete, Operand}
use x_mock_mcp.Mysql.Constraints.{db_error}
use x_mock_mcp.Mysql.State.{
  view, at_table, put_conn, Scenario, Store, Connection, conn, new_state, fresh_connection,
}
use x_mock_mcp.Mysql.Value.{Value, Column, text}
use x_mock_mcp.Mysql.Execute.Select.{RowsResult}
use x_mock_mcp.Mysql.Commit.{Noted, commit-failed, IsAbandoned}
use x_mock_mcp.Mysql.Steps.{Steps}
use x_mock_mcp.Mysql.Steps.{start, more, statement, command}
use x_mock_mcp.Prelude.{
  erase, map_values, insert, lookup, [], arith, false, none, refl, some, true, ℕ, ◌∷◌, ◌≡◌, ◌⊎◌,
}

abbrev id_column : Column
id_column = record { name = "id"; type = "BIGINT"; nullable = false }

abbrev sample_table : Table
sample_table = record {
  name = "t";
  columns =
      (record { column = id_column; max_length = 0; default = none; auto_increment = true }) ∷ [];
  primary_key = "id" ∷ [];
  unique = [];
  foreign_keys = [];
}

abbrev one : Value
one = record { type = "BIGINT"; value = text "1" }

abbrev row_one : Entity
row_one = ("id", one) ∷ []

abbrev sample_scenario : Scenario
sample_scenario = record {
  tables = sample_table ∷ [];
  initial = ("t", row_one ∷ []) ∷ [];
  next_ids = [];
}

abbrev loaded : Store
loaded = record {
  tables = sample_table ∷ [];
  committed = ("t", ("1", record { row = some row_one; version = 0 }) ∷ []) ∷ [];
  sessions = [];
  next_ids = ("t", pos 2) ∷ [];
  version = 0;
}

abbrev first_parameter : Operand
first_parameter = record { parameter = some (pos 0); literal = none }

abbrev delete_one : Plan
delete_one = record {
  kind = delete;
  table = "t";
  projection = [];
  columns = [];
  predicates = (record { column = "id"; value = first_parameter }) ∷ [];
  assignments = [];
  order = [];
  limit = none;
  parameters = id_column ∷ [];
}

abbrev insert_one : Plan
insert_one = record delete_one {
  kind = Schema.Kind.insert;
  predicates = [];
  assignments = (record { column = "id"; add_from = ""; value = first_parameter }) ∷ [];
}

abbrev no_size : RowsResult → ℕ
no_size r = 0

abbrev begun : Store
begun = (control none "A" "begin;" loaded).0

abbrev deleted : Store
deleted = (execute no_size none none "A" delete_one (one ∷ []) begun).0

made : new_state sample_scenario ≡ some loaded
unfolding new_state lookup insert map_values ◌+ℤ◌
made = refl

begin_step : Steps no_size loaded 1 begun
begin_step = more start (command none "A" "begin;")

delete_step : Steps no_size begun 1 deleted
delete_step = more start (statement none none "A" delete_one (one ∷ []))

base_noted : (conn "A" deleted).base ≡ ("t", ("1", 0) ∷ []) ∷ []
unfolding conn execute control lookup insert put_conn map_values erase
base_noted = refl

Noted-zero : Noted (conn "A" deleted) "t" "1" 0
unfolding lookup at_table
Noted-zero = rw base_noted refl

version_zero : version_at "t" "1" begun.committed ≡ 0
unfolding lookup at_table version_at control put_conn
version_zero = refl

Noted-one : Noted (conn "A" deleted) "t" "1" (version_at "t" "1" begun.committed)
Noted-one = rw version_zero Noted-zero

commits : (commit "A" (conn "A" deleted) deleted).1 ≡ none
unfolding lookup at_table conn execute control insert erase version_at put_conn commit map_values
commits = refl

commit-no_lost_update_example :
    record_at "t" "1" deleted.committed ≡ record_at "t" "1" begun.committed
commit-no_lost_update_example =
    commit-no_lost_update no_size sample_scenario made begin_step delete_step (omega arith) "A"
      (conn "A" deleted) "t" "1" Noted-one commits

Steps-IsSound_example : IsClocked begun × IsCovered begun
Steps-IsSound_example = Steps-IsSound no_size sample_scenario made begin_step (omega arith)

execute-notes_example : Noted (conn "A" begun) "t" "1" 0 ⊎ (0 ≡ version_at "t" "1" begun.committed)
execute-notes_example =
    execute-notes no_size none none "A" delete_one (one ∷ []) begun "t" "1" 0 Noted-zero

execute-refused_example :
    SameData begun (execute no_size none none "A" insert_one (one ∷ []) begun).0
unfolding execute lookup control insert
execute-refused_example =
    execute-refused no_size none none "A" insert_one (one ∷ []) begun
      (db_error 1062 "23000" "duplicate primary key") refl

execute-isolated_example : (deleted.committed ≡ begun.committed) × (deleted.version ≡ begun.version)
unfolding started lookup control insert
execute-isolated_example = execute-isolated no_size none none "A" delete_one (one ∷ []) begun refl

execute-OthersKept_example : OthersKept "A" begun deleted
execute-OthersKept_example = execute-OthersKept no_size none none "A" delete_one (one ∷ []) begun

abbrev outdated : Connection
outdated = record fresh_connection { active = true; base = ("t", ("1", 5) ∷ []) ∷ [] }

commit-failed_example : IsAbandoned "A" outdated loaded (commit "A" outdated loaded).0
unfolding commit lookup
commit-failed_example =
    commit-failed "A" outdated loaded (db_error 1213 "40001" "concurrent write conflict") refl

is_rollback_short : classify (normal " rollback;") ≡ Command.rollback_tx
unfolding classify normal
is_rollback_short = refl

control-rollback_example :
    (view
        (control none "A" " rollback;" deleted).0
        (some (conn "A" (control none "A" " rollback;" deleted).0))
      ≡ view deleted none)
    × ((control none "A" " rollback;" deleted).0.committed ≡ deleted.committed)
    × ((conn "A" (control none "A" " rollback;" deleted).0).active ≡ false)
control-rollback_example = control-rollback "A" " rollback;" deleted is_rollback_short
