-- ===== src/Run/Course.antt =====
-- internal/run/manager.go: the course of a run that was started. Each function that holds the lock is
-- one step; the goroutine of a run has two critical sections, `classify` and `publish`, with `finish`
-- in between.
use x_mock_mcp.Run.Manager.{
  Execution, Manager, State, Status, cancelled, checking, ended, failed, succeeded, timed_out,
  waiting,
}
use x_mock_mcp.Prelude.Int.{ℤ}
use x_mock_mcp.Run.Log.{Answer, Bytes, write}
use x_mock_mcp.Prelude.{
  Bool, List, Option, String, false, if◌then◌else◌, insert, lookup, ltb, none, some, true, ℕ, ◌+◌,
  ◌≡◌,
}
use x_mock_mcp.Api.{
  Failure, Result, code_of, deadline_exceeded, err, error_text, fail, job_failed, not_found, ok,
  output_full, cancelled as cancelled_code,
}

-- What cmd.Wait and the context say when the process is over.
pub record Exit : Type 0 where
  pub exit_code : ℤ
  pub wait_error : Option Failure
  pub expired : Bool

abbrev pub by_wait : Exit → Status → Status
by_wait x s = elim x.wait_error [
  | none ↦ record s { exit_code = x.exit_code; state = succeeded }
  | some e ↦ record s {
    exit_code = x.exit_code;
    state = failed;
    error = some (fail job_failed (error_text e));
  }
]

abbrev pub by_stop : Bool → Bool → Status → Status
by_stop true expired s = record s {
  state = cancelled;
  error = some (fail cancelled_code "run stopped");
}
by_stop false true s = record s {
  state = timed_out;
  error = some (fail deadline_exceeded "job timed out");
}
by_stop false false s = s

abbrev pub by_output : Bool → Status → Status
by_output false s = s
by_output true s = record s {
  state = failed;
  error = some (fail output_full "job output exceeded 4 MiB");
}

abbrev pub by_abort : Option Failure → Status → Status
by_abort none s = s
by_abort (some e) s = record s { state = failed; error = some (fail (code_of e) (error_text e)) }

-- The status that the first section finds.
unfoldable pub judged : Exit → Execution → Status
judged x e =
    by_abort e.aborted
      (by_output e.output_exceeded (by_stop e.stopped x.expired (by_wait x e.status)))

unfoldable pub has_succeeded : State → Bool
has_succeeded succeeded = true
has_succeeded _ = false

-- The answer of `finish`, which can only spoil a success.
unfoldable pub checked : Option Failure → Status → Status
unfolding has_succeeded
checked none s = s
checked (some e) s =
    if has_succeeded s.state
    then record s { state = failed; error = some (fail (code_of e) (error_text e)) }
    else s

-- The first section of the goroutine, once the process is over.
unfoldable pub classify : Exit → Execution → Execution
unfolding judged
classify x e = elim e.worker [ waiting ↦ record e { worker = checking (judged x e) } | _ ↦ e ]

-- The second section, with the answer of `finish`.
unfoldable pub publish : Option Failure → ℕ → Execution → Execution
unfolding checked
publish answer now e = elim e.worker [
  | checking s ↦ record e {
    status = record (checked answer s) { finished_at = some now };
    worker = ended;
    closes = e.closes + 1;
    cancels = e.cancels + 1;
  }
  | _ ↦ e
]

-- onExceeded of the log, when a Write calls it.
unfoldable pub exceed : Bool → Execution → Execution
exceed false e = e
exceed true e = record e { output_exceeded = true; cancels = e.cancels + 1 }

-- The job writes to its log.
unfoldable pub output : (Bytes → Answer) → Bytes → Execution → Execution
unfolding write exceed
output file bytes e =
    let (log, calls, answer) = write file bytes e.log in exceed calls (record e { log = log })

-- The work of Stop and Abort on a run that is there.
unfoldable pub halt : Execution → Execution
halt e = if ltb 0 e.closes then e else record e { stopped = true; cancels = e.cancels + 1 }

unfoldable pub give_up : Failure → Execution → Execution
give_up failure e =
    if ltb 0 e.closes then e else record e { aborted = some failure; cancels = e.cancels + 1 }

abbrev pub on_run : String → (Execution → Execution) → Manager → Manager × Option Failure
on_run id act m = elim (lookup id m.runs) [
  | none ↦ (m, some (fail not_found "run missing"))
  | some e ↦ (record m { runs = insert id (act e) m.runs }, none)
]

-- func (m *Manager) Stop
unfoldable pub stop : String → Manager → Manager × Option Failure
unfolding halt
stop id = on_run id halt

-- func (m *Manager) Abort
unfoldable pub abort : String → Failure → Manager → Manager × Option Failure
unfolding give_up
abort id failure = on_run id (give_up failure)

-- func (m *Manager) Status
unfoldable pub status_of : String → Manager → Result Status
status_of id m = elim (lookup id m.runs) [
  | none ↦ err (fail not_found "run does not exist in this daemon instance")
  | some e ↦ ok e.status
]

-- func (m *Manager) Wait, when it is not waiting: `expired` is the context's error, if it is done.
-- `none` is a call that waits on; of two events that are both there, select takes either.
pub data Waits (m : Manager) (id : String) (expired : Option Failure)
    : Option Failure → Type 0 where
  missing : lookup id m.runs ≡ none → Waits m id expired (some (fail not_found "run missing"))
  cut_off : (e : Failure) → expired ≡ some e → Waits m id expired (some e)
  returned :
      (e : Execution) → lookup id m.runs ≡ some e → ltb 0 e.closes ≡ true → Waits m id expired none

-- The first two loops of Close: the runs are stopped one after the other.
unfoldable pub stop_all : List String → Manager → Manager
unfolding stop
stop_all List.[] m = m
stop_all (List.◌∷◌ id ids) m = stop_all ids (stop id m).0
