-- ===== src/Run/Tests.antt =====
-- One run of internal/run/manager.go: a job is started, writes, ends and is found to have succeeded.
use x_mock_mcp.Run.Launch.{lookup-environment}
use x_mock_mcp.Run.Verdict.{publish-succeeds}
use x_mock_mcp.Run.Runs.{Reach-RunsSound}
use x_mock_mcp.Run.Written.{IsWriter}
use x_mock_mcp.Run.Ended.{IsSound}
use x_mock_mcp.Run.Final.{IsOver, Step-IsOver}
use x_mock_mcp.Prelude.Int.{pos}
use x_mock_mcp.Api.{Failure, Result, ok}
use x_mock_mcp.Run.Steps.{acts, exits, finishes, fresh, next, starts, stops, writes, Reach}
use x_mock_mcp.Run.Manager.{
  Execution, Host, Manager, Status, new_execution, new_status, start, succeeded,
}
use x_mock_mcp.Run.Course.{halt, on_run, Exit, classify, output, publish}
use x_mock_mcp.Prelude.{
  ap, subst, ◌↔◌, insert, lookup, Assoc, Option, String, [], false, if◌then◌else◌, length, none,
  refl, some, ◌==◌, ◌∷◌, ◌≡◌,
}
use x_mock_mcp.Run.Log.{Answer, Bytes}
use native.Mathlib.Nat.{le_refl}
use x_mock_mcp.Run.Command.{JobSpec, Command, environment}

abbrev sample_job : JobSpec
sample_job = record {
  name = "test";
  argv = "go" ∷ "test" ∷ [];
  working_directory = "";
  env = ("MODE", "fast") ∷ [];
  timeout_ms = pos 1000;
}

abbrev sample_variables : String → Option String
sample_variables k = if k == "PATH" then some "/bin" else if k == "SECRET" then some "x" else none

abbrev sample_host : Host
sample_host = record {
  resolved = ok "/p/app";
  relative = ok "app";
  opening = none;
  starting = ok 42;
  look_up = sample_variables;
  now = 7;
}

abbrev sample_extra : Assoc String
sample_extra = ("PORT", "80") ∷ []

abbrev empty_manager : Manager
empty_manager = record { root = "/p"; dir = "/p/.x-mock/runs"; runs = [] }

abbrev sample_command : Command
sample_command = record {
  argv = "go" ∷ "test" ∷ [];
  dir = "/p/app";
  env = ("PATH", "/bin") ∷ ("MODE", "fast") ∷ ("PORT", "80") ∷ [];
}

abbrev sample_status : Status
sample_status = new_status empty_manager "r1" "e1" sample_job 42 7

abbrev sample_run : Execution
sample_run = new_execution sample_status sample_command

abbrev running_manager : Manager
running_manager = record empty_manager { runs = ("r1", sample_run) ∷ [] }

started :
    start sample_host "r1" "e1" sample_job sample_extra empty_manager
    ≡ (running_manager, ok sample_status)
unfolding start lookup insert
started = refl

abbrev whole_file : Bytes → Answer
whole_file bytes = record { count = length bytes; failure = none }

abbrev no_failure : Option Failure
no_failure = none

abbrev clean_exit : Exit
clean_exit = record { exit_code = pos 0; wait_error = none; expired = false }

abbrev logged_run : Execution
logged_run = output whole_file (104 ∷ 105 ∷ []) sample_run

abbrev ended_run : Execution
ended_run = publish none 9 (classify clean_exit logged_run)

abbrev ended_status : Status
ended_status = record sample_status { exit_code = pos 0; state = succeeded; finished_at = some 9 }

abbrev ended_manager : Manager
ended_manager = record empty_manager { runs = ("r1", ended_run) ∷ [] }

has_ended : ended_run.status ≡ ended_status
unfolding publish classify output new_execution
has_ended = refl

abbrev reach_running : Reach running_manager
reach_running = subst Reach (ap (λ (out : Manager × Result Status). out.0) started) (
    next (fresh "/p" "/p/.x-mock/runs")
      (starts sample_host "r1" "e1" sample_job sample_extra empty_manager))

abbrev whole : IsWriter whole_file
whole bytes = le_refl (length bytes)

reach_ended : Reach ended_manager
unfolding lookup insert
reach_ended =
    next
      (next
        (next reach_running
          (acts "r1" _ running_manager (writes whole_file (104 ∷ 105 ∷ []) whole)))
        (acts "r1" _ _ (exits clean_exit)))
      (acts "r1" _ _ (finishes none 9))

Reach-RunsSound_example : IsSound ended_run
unfolding lookup
Reach-RunsSound_example = Reach-RunsSound reach_ended "r1" ended_run refl

-- A Stop after the end.
Step-IsOver_example : IsOver (on_run "r1" halt ended_manager).0 "r1" ended_status
unfolding lookup publish classify output new_execution
Step-IsOver_example =
    Step-IsOver reach_ended (acts "r1" halt ended_manager stops) "r1" ended_status
      (ended_run, refl, refl, refl)

publish-succeeds_example :
    ((publish no_failure 7 (halt (classify clean_exit logged_run))).status.state ≡ succeeded) ↔ (
      (clean_exit.wait_error ≡ none)
      × (logged_run.stopped ≡ false)
      × (clean_exit.expired ≡ false)
      × (logged_run.output_exceeded ≡ false)
      × (logged_run.aborted ≡ none)
      × (no_failure ≡ none))
unfolding halt classify output new_execution
publish-succeeds_example =
    publish-succeeds clean_exit no_failure 7 logged_run (halt (classify clean_exit logged_run)) refl
      refl

lookup-environment_example :
    lookup "MODE" (environment sample_variables sample_job.env sample_extra) ≡ some "fast"
unfolding lookup
lookup-environment_example =
    lookup-environment sample_variables sample_job.env sample_extra "MODE" (refl, tt) (refl, tt)
