-- ===== src/Run/Steps.antt =====
-- internal/run/manager.go as it runs: Start, and what happens to a run that is there, in any order.
use x_mock_mcp.Run.Written.{IsWriter}
use x_mock_mcp.Api.{Failure, Result, err, ok}
use x_mock_mcp.Run.Manager.{
  launched, start_in, unless_failed, Execution, Host, Manager, Status, launch, new_execution,
  new_status, start,
}
use x_mock_mcp.Run.Course.{Exit, classify, give_up, halt, on_run, output, publish}
use x_mock_mcp.Run.Command.{Command, JobSpec, environment, refuses_job, stays_inside}
use x_mock_mcp.Prelude.{
  arith, true, refl, Assoc, Option, String, [], if_elim, inl, inr, insert, lookup, lookup_cases,
  none, not, some, ℕ, ◌≡◌,
}
use x_mock_mcp.Run.Log.{Answer, Bytes}

-- What happens to a run: its process ends, `finish` answers, it writes to its log, it is stopped
-- or aborted.
pub data Acts : (Execution → Execution) → Type 0 where
  exits : (x : Exit) → Acts (classify x)
  finishes : (answer : Option Failure) (now : ℕ) → Acts (publish answer now)
  writes : (file : Bytes → Answer) (bytes : Bytes) → IsWriter file → Acts (output file bytes)
  stops : Acts halt
  aborts : (failure : Failure) → Acts (give_up failure)

pub data Step : Manager → Manager → Type 0 where
  starts :
      (host : Host) (id env : String) (job : JobSpec) (extra : Assoc String) (m : Manager)
      → Step m (start host id env job extra m).0
  acts :
      (id : String) (act : Execution → Execution) (m : Manager)
      → Acts act
      → Step m (on_run id act m).0

-- The managers that come about from New, which has no runs.
pub data Reach : Manager → Type 0 where
  fresh : (root dir : String) → Reach (record { root = root; dir = dir; runs = [] })
  next : {m m' : Manager} → Reach m → Step m m' → Reach m'

-- Start refuses and changes nothing, or adds one run under a new identifier.
pub data Started (host : Host) (id env : String) (job : JobSpec) (m : Manager)
    : Manager × Result Status → Type 0 where
  refused : (e : Failure) → Started host id env job m (m, err e)
  added :
      (pid now : ℕ) (command : Command)
      → refuses_job id env job ≡ none
      → stays_inside host.relative ≡ true
      → lookup id m.runs ≡ none
      → Started host id env job m (
        record m {
          runs = insert id (new_execution (new_status m id env job pid now) command) m.runs;
        },
        ok (new_status m id env job pid now),
      )

module _ (host : Host) (id env : String) (job : JobSpec) (extra : Assoc String) (m : Manager) where
  launch-Started :
      (command : Command)
      → refuses_job id env job ≡ none
      → stays_inside host.relative ≡ true
      → Started host id env job m (launch host id env job command m)
  unfolding launch launched
  launch-Started command fine inside = elim (lookup_cases id m.runs) [
    | inr (e, found) ↦ rw (found, launch) (refused _)
    | inl absent ↦ rw (absent, launch) (go host.starting absent)
  ]
    where
      go :
          (o : Result ℕ)
          → lookup id m.runs ≡ none
          → Started host id env job m (launched o host.now id env job command m)
      go (err e) absent = refused e
      go (ok pid) absent = added pid host.now command fine inside absent

  start_in-Started :
      (dir : Result String)
      → refuses_job id env job ≡ none
      → Started host id env job m (start_in dir host id env job extra m)
  unfolding start_in
  start_in-Started (err e) fine = refused e
  start_in-Started (ok dir) fine =
      if_elim (Started host id env job m) (not (stays_inside host.relative)) _ _ (λ e. refused _)
        (λ e. go host.opening (ground arith))
    where
      go :
          (o : Option Failure)
          → stays_inside host.relative ≡ true
          → Started host id env job m (
              unless_failed o m (
                launch host id env job
                  (record {
                    argv = job.argv;
                    dir = dir;
                    env = environment host.look_up job.env extra;
                  })
                  m))
      go (some e) inside = refused e
      go none inside = launch-Started _ fine inside

  pub start-Started : Started host id env job m (start host id env job extra m)
  unfolding start
  start-Started = go (refuses_job id env job) refl
    where
      go :
          (o : Option Failure)
          → refuses_job id env job ≡ o
          → Started host id env job m
              (unless_failed o m (start_in host.resolved host id env job extra m))
      go (some e) refuses = refused e
      go none fine = start_in-Started host.resolved fine
