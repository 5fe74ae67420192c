-- ===== src/Run/Final.antt =====
-- internal/run/manager.go: the status of a run that is over, in every later step.
use x_mock_mcp.Run.Runs.{Reach-RunsSound}
use x_mock_mcp.Run.Log.{Log, cuts, write}
use x_mock_mcp.Run.Command.{JobSpec}
use x_mock_mcp.Run.Ended.{IsAt, IsSound}
use x_mock_mcp.Api.{Failure, Result, fail, not_found}
use x_mock_mcp.Run.Manager.{
  Host, Execution, Manager, Status, Worker, checking, ended, running, waiting,
}
use x_mock_mcp.Run.Course.{
  returned, cut_off, missing, Waits, classify, exceed, give_up, halt, on_run, output, publish,
}
use x_mock_mcp.Prelude.{
  Bool, Option, String, ap, arith, false, if_elim, inl, inr, insert, lookup, lookup-insert, ltb,
  none, not, refl, some, subst, sym, text_cases, true, ◌&&◌, ◌↔◌, ◌∙◌, ◌≡◌, ◌≢◌,
}
use mathlib.Core.Option.{some-injective, none-ne-some}
use x_mock_mcp.Run.Steps.{
  added, refused, Acts, Reach, Started, Step, aborts, acts, exits, finishes, start-Started, starts,
  writes, stops,
}

-- A run that is over, as Status shows it.
abbrev pub IsOver : Manager → String → Status → Type 0
IsOver m id s = (e : Execution) × (lookup id m.runs ≡ some e) × (e.worker ≡ ended) × (e.status ≡ s)

Acts-over :
    {act : Execution → Execution}
    → Acts act
    → (e : Execution) → IsSound e
    → e.worker ≡ ended
    → ((act e).worker ≡ ended) × ((act e).status ≡ e.status)
unfolding classify publish output halt give_up exceed
Acts-over (exits x) e s over = rw (over, classify) (over, refl)
Acts-over (finishes a now) e s over = rw (over, publish) (over, refl)
Acts-over (writes file bytes honest) e s over =
    go (cuts bytes e.log && not e.log.exceeded) (write file bytes e.log).0
  where
    go :
        (b : Bool) (log : Log)
        → ((exceed b (record e { log = log })).worker ≡ ended)
          × ((exceed b (record e { log = log })).status ≡ e.status)
    go true log = (over, refl)
    go false log = (over, refl)
Acts-over stops e s over =
    if_elim (λ (x : Execution). (x.worker ≡ ended) × (x.status ≡ e.status)) (ltb 0 e.closes) _ _
      (λ h. (over, refl)) (λ h. (over, refl))
Acts-over (aborts failure) e s over =
    if_elim (λ (x : Execution). (x.worker ≡ ended) × (x.status ≡ e.status)) (ltb 0 e.closes) _ _
      (λ h. (over, refl)) (λ h. (over, refl))

-- The run that Stop, Abort or an end concerns, and any other one.
on_run_keeps :
    (id j : String) (act : Execution → Execution) (m : Manager) (e : Execution)
    → lookup j m.runs ≡ some e
    → (Good : Execution → Type 0) → Good e
    → Good (act e)
    → (e' : Execution) × (lookup j (on_run id act m).0.runs ≡ some e') × Good e'
on_run_keeps id j act m e found Good before after = go (lookup id m.runs) refl
  where
    go :
        (o : Option Execution)
        → lookup id m.runs ≡ o
        → (e' : Execution) × (lookup j
              (elim o as (λ _. Manager × Option Failure) [
                | none ↦ (m, some (fail not_found "run missing"))
                | some e ↦ (record m { runs = insert id (act e) m.runs }, none)
              ]).0.runs
            ≡ some e')
          × Good e'
    go none p = (e, found, before)
    go (some old) p = elim (text_cases id j) [
      | inl (e_, same) ↦ (
        act old,
        simp (lookup-insert, e_) refl,
        subst (λ (x : Execution). Good (act x))
            (some-injective e old (sym found ∙ sym (ap (λ (k : String). lookup k m.runs) same) ∙ p))
            after,
      )
      | inr (e_, differs) ↦ (e, simp (lookup-insert, e_) found, before)
    ]

Started-keeps :
    {host : Host} {id env : String} {job : JobSpec} {m : Manager} {out : Manager × Result Status}
    → Started host id env job m out
    → (j : String) (e : Execution) → lookup j m.runs ≡ some e
    → lookup j out.0.runs ≡ some e
Started-keeps (refused f) j e found = found
Started-keeps {id} {m = m} (added pid now command fine inside absent) j e found =
    elim (text_cases id j) [
      | inl (e_, same) ↦
          absurd (none-ne-some e (sym absent ∙ ap (λ (k : String). lookup k m.runs) same ∙ found))
      | inr (e_, differs) ↦ simp (lookup-insert, e_) found
    ]

-- A run that is over stays so, with the same status, whatever happens to it or to other runs: a
-- late Stop or Abort, a Start under its name, or a write.
pub Step-IsOver :
    {m m' : Manager}
    → Reach m
    → Step m m'
    → (id : String) (s : Status) → IsOver m id s
    → IsOver m' id s
Step-IsOver r (starts host id env job extra m) j s (e, found, over, is) =
    (e, Started-keeps (start-Started host id env job extra m) j e found, over, is)
Step-IsOver r (acts id act m a) j s (e, found, over, is) =
    let (over', is') = Acts-over a e (Reach-RunsSound r j e found) over in
    let (e', found', good) =
      on_run_keeps id j act m e found (λ x. (x.worker ≡ ended) × (x.status ≡ s)) (over, is)
        (over', is' ∙ is) in
    (e', found', good.0, good.1)

-- In every manager that is reached, Wait returns without an error for a run exactly if Status shows
-- a state other than "running".
pub Reach-over :
    {m : Manager}
    → Reach m
    → (id : String) (expired : Option Failure) (e : Execution) → lookup id m.runs ≡ some e
    → Waits m id expired none ↔ (e.status.state ≢ running)
Reach-over {m} r id expired e found = (
  λ w. go e.worker (Reach-RunsSound r id e found).at (is_over none w refl),
  λ ran. returned e found (back e.worker (Reach-RunsSound r id e found).at ran),
)
  where
    is_over : (o : Option Failure) → Waits m id expired o → o ≡ none → ltb 0 e.closes ≡ true
    is_over _ (missing absent) p = absurd (ground (arith, p))
    is_over _ (cut_off f p') p = absurd (ground (arith, p))
    is_over _ (returned e' found' closed) p =
        subst (λ (x : Execution). ltb 0 x.closes ≡ true) (some-injective e' e (sym found' ∙ found))
          closed

    go :
        (w : Worker)
        → IsAt w e.closes e.status.state
        → ltb 0 e.closes ≡ true
        → e.status.state ≢ running
    go ended h p = h.1
    go (checking found_) h p = absurd (ground (arith, h.0, p))
    go waiting h p = absurd (ground (arith, h.0, p))

    back :
        (w : Worker)
        → IsAt w e.closes e.status.state
        → e.status.state ≢ running
        → ltb 0 e.closes ≡ true
    back ended h ran = ground (arith, h.0)
    back (checking found_) h ran = absurd (ran h.1)
    back waiting h ran = absurd (ran h.1)
