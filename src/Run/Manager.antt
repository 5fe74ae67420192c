-- ===== src/Run/Manager.antt =====
-- internal/run/manager.go: the executions of the manager, and Start.
use x_mock_mcp.Prelude.Int.{negsuc, ℤ}
use x_mock_mcp.Run.Command.{Command, JobSpec, environment, refuses_job, stays_inside}
use x_mock_mcp.Run.Log.{Log, new_log}
use x_mock_mcp.Prelude.{
  Assoc, Bool, Option, String, false, if◌then◌else◌, insert, lookup, none, not, some, ℕ,
}
use Prim.Native.String.{◌++◌}
use x_mock_mcp.Api.{Failure, Result, err, fail, invalid, ok, state_conflict}

-- The texts of Status.State.
pub data State : Type 0 where
  running succeeded failed cancelled timed_out : State

pub record Status : Type 0 where
  pub id : String
  pub environment_id : String
  pub job : String
  pub state : State
  pub pid : ℕ
  pub exit_code : ℤ
  pub started_at : ℕ
  pub finished_at : Option ℕ
  pub log_path : String
  pub error : Option Failure

-- Where the goroutine of a run is: in cmd.Wait, between its two sections with its copy of the
-- status, or at its end.
pub data Worker : Type 0 where
  waiting : Worker
  checking : Status → Worker
  ended : Worker

-- An execution, with its process, its goroutine and its log. `closes` counts close(e.done), and
-- `cancels` the calls of its cancel function.
pub record Execution : Type 0 where
  pub status : Status
  pub command : Command
  pub worker : Worker
  pub closes : ℕ
  pub stopped : Bool
  pub output_exceeded : Bool
  pub aborted : Option Failure
  pub cancels : ℕ
  pub log : Log

pub record Manager : Type 0 where
  pub root : String
  pub dir : String
  pub runs : Assoc Execution

-- What the operating system answers to Start: the directory without links, where it lies below
-- the root, opening a new log file, the process started, its variables and the time.
pub record Host : Type 0 where
  pub resolved : Result String
  pub relative : Result String
  pub opening : Option Failure
  pub starting : Result ℕ
  pub look_up : String → Option String
  pub now : ℕ

unfoldable pub new_status : Manager → String → String → JobSpec → ℕ → ℕ → Status
new_status m id env job pid now = record {
  id = id;
  environment_id = env;
  job = job.name;
  state = running;
  pid = pid;
  exit_code = negsuc 0;
  started_at = now;
  finished_at = none;
  log_path = m.dir ++ "/" ++ id ++ ".log";
  error = none;
}

unfoldable pub new_execution : Status → Command → Execution
unfolding new_log
new_execution status command = record {
  status = status;
  command = command;
  worker = waiting;
  closes = 0;
  stopped = false;
  output_exceeded = false;
  aborted = none;
  cancels = 0;
  log = new_log;
}

-- if err != nil { return out, err }
abbrev pub unless_failed :
    Option Failure → Manager → Manager × Result Status → Manager × Result Status
unless_failed (some e) m next = (m, err e)
unless_failed none m next = next

-- The process is started, and its run is there from now on.
unfoldable pub launched :
    Result ℕ → ℕ → String → String → JobSpec → Command → Manager → Manager × Result Status
unfolding new_status new_execution
launched (err e) now id env job command m = (m, err e)
launched (ok pid) now id env job command m =
    let status = new_status m id env job pid now in
    (record m { runs = insert id (new_execution status command) m.runs }, ok status)

-- The part of Start under the lock.
unfoldable pub launch :
    Host → String → String → JobSpec → Command → Manager → Manager × Result Status
unfolding launched
launch host id env job command m = elim (lookup id m.runs) [
  | some e ↦ (m, err (fail state_conflict "run ID already exists"))
  | none ↦ launched host.starting host.now id env job command m
]

-- Start in the directory that EvalSymlinks has found.
unfoldable pub start_in :
    Result String
    → Host
    → String
    → String
    → JobSpec
    → Assoc String
    → Manager
    → Manager × Result Status
unfolding stays_inside environment launch
start_in (err e) host id env job extra m = (m, err e)
start_in (ok dir) host id env job extra m =
    if not (stays_inside host.relative)
    then (m, err (invalid "job directory escapes project"))
    else unless_failed host.opening m (
        launch host id env job
          (record { argv = job.argv; dir = dir; env = environment host.look_up job.env extra }) m)

-- func (m *Manager) Start
unfoldable pub start :
    Host → String → String → JobSpec → Assoc String → Manager → Manager × Result Status
unfolding refuses_job start_in
start host id env job extra m =
    unless_failed (refuses_job id env job) m (start_in host.resolved host id env job extra m)
