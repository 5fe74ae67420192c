-- ===== src/Run/Ended.antt =====
-- internal/run/manager.go: the end of a run, which comes at most once and is never changed.
use x_mock_mcp.Run.Written.{write-IsWithin, IsWithin, IsWriter}
use x_mock_mcp.Api.{Failure, error_text, fail, job_failed}
use x_mock_mcp.Run.Manager.{
  failed, Execution, State, Status, Worker, checking, ended, running, succeeded, waiting,
}
use x_mock_mcp.Run.Course.{
  Exit, by_abort, by_output, by_stop, by_wait, checked, classify, exceed, give_up, halt,
  has_succeeded, judged, output, publish,
}
use x_mock_mcp.Prelude.{
  not, refl, sym, ◌&&◌, ◌||◌, ◌∙◌, Bool, Option, arith, false, if_elim, ltb, none, some, true, ℕ,
  ◌+◌, ◌≡◌, ◌≢◌,
}
use x_mock_mcp.Run.Log.{Log, cuts, Answer, Bytes, answer, write}

-- What holds of a run by where its goroutine is.
abbrev pub IsAt : Worker → ℕ → State → Type 0
IsAt ended closes s = (closes ≡ 1) × (s ≢ running)
IsAt (checking found) closes s = (closes ≡ 0) × (s ≡ running) × (found.state ≢ running)
IsAt waiting closes s = (closes ≡ 0) × (s ≡ running)

-- e.done is closed once, with the end of the run, and the log is within its limit.
pub record IsSound (e : Execution) : Type 0 where
  pub at : IsAt e.worker e.closes e.status.state
  pub log : IsWithin e.log
  pub noted : e.output_exceeded ≡ e.log.exceeded

by_wait_ran : (x : Exit) (s : Status) → (by_wait x s).state ≢ running
by_wait_ran x s = go x.wait_error
  where
    go :
        (o : Option Failure)
        → (elim o as (λ _. Status) [
          | none ↦ record s { exit_code = x.exit_code; state = succeeded }
          | some e ↦ record s {
            exit_code = x.exit_code;
            state = failed;
            error = some (fail job_failed (error_text e));
          }
        ]).state
          ≢ running
    go none p = ground arith
    go (some e) p = ground arith

by_stop_ran : (b c : Bool) (s : Status) → s.state ≢ running → (by_stop b c s).state ≢ running
by_stop_ran true c s h = λ p. ground arith
by_stop_ran false true s h = λ p. ground arith
by_stop_ran false false s h = h

by_output_ran : (b : Bool) (s : Status) → s.state ≢ running → (by_output b s).state ≢ running
by_output_ran true s h = λ p. ground arith
by_output_ran false s h = h

by_abort_ran :
    (o : Option Failure) (s : Status) → s.state ≢ running → (by_abort o s).state ≢ running
by_abort_ran none s h = h
by_abort_ran (some e) s h = λ p. ground arith

judged_ran : (x : Exit) (e : Execution) → (judged x e).state ≢ running
unfolding judged
judged_ran x e =
    by_abort_ran e.aborted _ (
      by_output_ran e.output_exceeded _
        (by_stop_ran e.stopped x.expired _ (by_wait_ran x e.status)))

checked_ran : (o : Option Failure) (s : Status) → s.state ≢ running → (checked o s).state ≢ running
unfolding checked
checked_ran none s h = h
checked_ran (some e) s h =
    if_elim (λ (t : Status). t.state ≢ running) (has_succeeded s.state) _ _ (λ ok_ p. ground arith)
      (λ bad. h)

pub classify-IsSound : (x : Exit) (e : Execution) → IsSound e → IsSound (classify x e)
unfolding classify
classify-IsSound x e s = go e.worker s.at
  where
    go :
        (w : Worker)
        → IsAt w e.closes e.status.state
        → IsSound (elim w [ waiting ↦ record e { worker = checking (judged x e) } | _ ↦ e ])
    go waiting h = record { at = (h.0, h.1, judged_ran x e); log = s.log; noted = s.noted }
    go (checking found) h = s
    go ended h = s

pub publish-IsSound :
    (answer : Option Failure) (now : ℕ) (e : Execution) → IsSound e → IsSound (publish answer now e)
unfolding publish
publish-IsSound answer now e s = go e.worker s.at
  where
    go :
        (w : Worker)
        → IsAt w e.closes e.status.state
        → IsSound (elim w [
          | checking found ↦ record e {
            status = record (checked answer found) { finished_at = some now };
            worker = ended;
            closes = e.closes + 1;
            cancels = e.cancels + 1;
          }
          | _ ↦ e
        ])
    go waiting h = s
    go ended h = s
    go (checking found) h = record {
      at = (omega (arith, h.0), checked_ran answer found h.2);
      log = s.log;
      noted = s.noted;
    }

pub output-IsSound :
    (file : Bytes → Answer)
    → IsWriter file
    → (bytes : Bytes) (e : Execution) → IsSound e
    → IsSound (output file bytes e)
unfolding output write exceed
output-IsSound file honest bytes e s =
    go (cuts bytes e.log) e.log.exceeded (write file bytes e.log).0
      (write-IsWithin file honest bytes e.log s.log) s.noted refl
  where
    go :
        (cut_ over : Bool) (log : Log)
        → IsWithin log
        → e.output_exceeded ≡ over
        → log.exceeded ≡ (cut_ || over)
        → IsSound (exceed (cut_ && not over) (record e { log = log }))
    go true false log within was is = record { at = s.at; log = within; noted = sym is }
    go true true log within was is = record { at = s.at; log = within; noted = was ∙ sym is }
    go false over log within was is = record { at = s.at; log = within; noted = was ∙ sym is }

pub halt-IsSound : (e : Execution) → IsSound e → IsSound (halt e)
unfolding halt
halt-IsSound e s =
    if_elim IsSound (ltb 0 e.closes) _ _ (λ over. s)
      (λ open_. record { at = s.at; log = s.log; noted = s.noted })

pub give_up-IsSound : (failure : Failure) (e : Execution) → IsSound e → IsSound (give_up failure e)
unfolding give_up
give_up-IsSound failure e s =
    if_elim IsSound (ltb 0 e.closes) _ _ (λ over. s)
      (λ open_. record { at = s.at; log = s.log; noted = s.noted })
