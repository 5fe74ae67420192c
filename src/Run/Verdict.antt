-- ===== src/Run/Verdict.antt =====
-- internal/run/manager.go: when a run has succeeded, and what it is given.
use x_mock_mcp.Api.{error_text, fail, job_failed, Failure}
use x_mock_mcp.Run.Manager.{checking, failed, State, Execution, Status, succeeded, waiting}
use x_mock_mcp.Run.Course.{
  Exit, by_abort, by_output, by_stop, by_wait, checked, classify, has_succeeded, judged, publish,
}
use x_mock_mcp.Prelude.{
  if_elim, subst, ◌≢◌, Bool, Option, arith, false, none, refl, some, true, ◌↔◌, ◌≡◌, ◌∙◌, sym, ℕ,
}

by_wait_succeeds :
    (x : Exit) (s : Status) → ((by_wait x s).state ≡ succeeded) ↔ (x.wait_error ≡ none)
by_wait_succeeds x s = go x.wait_error
  where
    go :
        (o : Option Failure)
        → ((elim o as (λ _. Status) [
          | none ↦ record s { exit_code = x.exit_code; state = succeeded }
          | some e ↦ record s {
            exit_code = x.exit_code;
            state = failed;
            error = some (fail job_failed (error_text e));
          }
        ]).state
            ≡ succeeded)
          ↔ (o ≡ none)
    go none = (λ p. refl, λ p. refl)
    go (some e) = (λ p. absurd (ground (arith, p)), λ p. absurd (ground (arith, p)))

by_stop_succeeds :
    (b c : Bool) (s : Status)
    → ((by_stop b c s).state ≡ succeeded) ↔ ((b ≡ false) × (c ≡ false) × (s.state ≡ succeeded))
by_stop_succeeds true c s = (λ p. absurd (ground (arith, p)), λ p. absurd (ground (arith, p.0)))
by_stop_succeeds false true s = (λ p. absurd (ground (arith, p)), λ p. absurd (ground (arith, p.1)))
by_stop_succeeds false false s = (λ p. (refl, refl, p), λ p. p.2)

by_output_succeeds :
    (b : Bool) (s : Status)
    → ((by_output b s).state ≡ succeeded) ↔ ((b ≡ false) × (s.state ≡ succeeded))
by_output_succeeds true s = (λ p. absurd (ground (arith, p)), λ p. absurd (ground (arith, p.0)))
by_output_succeeds false s = (λ p. (refl, p), λ p. p.1)

by_abort_succeeds :
    (o : Option Failure) (s : Status)
    → ((by_abort o s).state ≡ succeeded) ↔ ((o ≡ none) × (s.state ≡ succeeded))
by_abort_succeeds (some e) s = (λ p. absurd (ground (arith, p)), λ p. absurd (ground (arith, p.0)))
by_abort_succeeds none s = (λ p. (refl, p), λ p. p.1)

checked_succeeds :
    (o : Option Failure) (s : Status)
    → ((checked o s).state ≡ succeeded) ↔ ((o ≡ none) × (s.state ≡ succeeded))
unfolding checked has_succeeded
checked_succeeds none s = (λ p. (refl, p), λ p. p.1)
checked_succeeds (some e) s = (λ p. absurd (spoiled p), λ p. absurd (ground (arith, p.0)))
  where
    spoiled : (checked (some e) s).state ≢ succeeded
    spoiled =
        if_elim (λ (t : Status). t.state ≢ succeeded) (has_succeeded s.state) _ _
          (λ h p. absurd (ground (arith, p)))
          (λ h p. absurd (ground (arith, subst (λ (t : State). has_succeeded t ≡ false) p h)))

judged_succeeds :
    (x : Exit) (answer : Option Failure) (e : Execution)
    → ((checked answer (judged x e)).state ≡ succeeded) ↔ (
        (x.wait_error ≡ none)
        × (e.stopped ≡ false)
        × (x.expired ≡ false)
        × (e.output_exceeded ≡ false)
        × (e.aborted ≡ none)
        × (answer ≡ none))
unfolding judged
judged_succeeds x answer e =
    let c = checked_succeeds answer (judged x e) in
    let a =
      by_abort_succeeds e.aborted
        (by_output e.output_exceeded (by_stop e.stopped x.expired (by_wait x e.status))) in
    let o =
      by_output_succeeds e.output_exceeded (by_stop e.stopped x.expired (by_wait x e.status)) in
    let s = by_stop_succeeds e.stopped x.expired (by_wait x e.status) in
    let w = by_wait_succeeds x e.status in
    (
      λ p.
          let (no_answer, p1) = c.0 p in
          let (no_abort, p2) = a.0 p1 in
          let (short, p3) = o.0 p2 in
          let (free, in_time, p4) = s.0 p3 in (w.0 p4, free, in_time, short, no_abort, no_answer),
      λ h. c.1 (h.5, a.1 (h.4, o.1 (h.3, s.1 (h.1, h.2, w.1 h.0)))),
    )

-- The status that a run ends with says `succeeded` exactly if the process ended without an error, it
-- was not out of time, up to the section that classifies its end it was neither stopped nor aborted
-- and kept its output to the limit, and `finish` had no objection. What came after that section, in
-- `later`, does not count.
pub publish-succeeds :
    (x : Exit) (answer : Option Failure) (now : ℕ) (e later : Execution)
    → e.worker ≡ waiting
    → later.worker ≡ (classify x e).worker
    → ((publish answer now later).status.state ≡ succeeded) ↔ (
        (x.wait_error ≡ none)
        × (e.stopped ≡ false)
        × (x.expired ≡ false)
        × (e.output_exceeded ≡ false)
        × (e.aborted ≡ none)
        × (answer ≡ none))
unfolding classify publish
publish-succeeds x answer now e later at same =
    subst
      (λ (s : State). (s ≡ succeeded) ↔ (
        (x.wait_error ≡ none)
        × (e.stopped ≡ false)
        × (x.expired ≡ false)
        × (e.output_exceeded ≡ false)
        × (e.aborted ≡ none)
        × (answer ≡ none)))
      (sym published) (judged_succeeds x answer e)
  where
    checks : later.worker ≡ checking (judged x e)
    checks = same ∙ rw (at, classify) refl

    published : (publish answer now later).status.state ≡ (checked answer (judged x e)).state
    published = rw (checks, publish) refl
