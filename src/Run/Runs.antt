-- ===== src/Run/Runs.antt =====
-- internal/run/manager.go: what holds of every run, in whatever order things happen.

use x_mock_mcp.Run.Written.{new_log-IsWithin}
use x_mock_mcp.Run.Ended.{
  IsSound, classify-IsSound, give_up-IsSound, halt-IsSound, output-IsSound, publish-IsSound,
}
use x_mock_mcp.Api.{Failure, Result, fail, not_found}
use x_mock_mcp.Run.Manager.{Host, Execution, Manager, Status, new_execution, new_status, running}
use x_mock_mcp.Run.Course.{on_run}
use x_mock_mcp.Run.Command.{Command, JobSpec}
use x_mock_mcp.Prelude.{
  Assoc, Option, String, arith, inl, inr, insert, lookup, lookup-insert, none, refl, some, subst,
  sym, text_cases, ◌∙◌, ◌≡◌, ◌≢◌, ◌⊎◌,
}
use mathlib.Core.Option.{some-injective}
use x_mock_mcp.Run.Steps.{
  stops, added, refused, Acts, Reach, Started, aborts, acts, exits, finishes, fresh, next,
  start-Started, starts, writes,
}

-- Every run of the manager is sound.
abbrev pub RunsSound : Manager → Type 0
RunsSound m = (id : String) (e : Execution) → lookup id m.runs ≡ some e → IsSound e

Acts-IsSound :
    {act : Execution → Execution} → Acts act → (e : Execution) → IsSound e → IsSound (act e)
Acts-IsSound (exits x) = classify-IsSound x
Acts-IsSound (finishes answer now) = publish-IsSound answer now
Acts-IsSound (writes file bytes honest) = output-IsSound file honest bytes
Acts-IsSound stops = halt-IsSound
Acts-IsSound (aborts failure) = give_up-IsSound failure

-- What is found after one run was put in place: that run, or one that was there.
pub put_cases :
    (k j : String) (new e : Execution) (runs : Assoc Execution)
    → lookup j (insert k new runs) ≡ some e
    → ((k ≡ j) × (new ≡ e)) ⊎ ((k ≢ j) × (lookup j runs ≡ some e))
put_cases k j new e runs found = elim (text_cases k j) [
  | inl (e_, same) ↦ inl (same, some-injective new e (sym (simp (lookup-insert, e_) refl) ∙ found))
  | inr (e_, differs) ↦ inr (differs, sym (simp (lookup-insert, e_) refl) ∙ found)
]

on_run-RunsSound :
    (id : String) (act : Execution → Execution) (m : Manager)
    → ((e : Execution) → IsSound e → IsSound (act e))
    → RunsSound m
    → RunsSound (on_run id act m).0
on_run-RunsSound id act m keeps all = go (lookup id m.runs) refl
  where
    go :
        (o : Option Execution)
        → lookup id m.runs ≡ o
        → RunsSound
            (elim o as (λ _. Manager × Option Failure) [
              | none ↦ (m, some (fail not_found "run missing"))
              | some e ↦ (record m { runs = insert id (act e) m.runs }, none)
            ]).0
    go none p = all
    go (some e) p = λ j e' found. elim (put_cases id j (act e) e' m.runs found) [
      | inl (same, is) ↦ subst IsSound is (keeps e (all id e p))
      | inr (differs, was) ↦ all j e' was
    ]

new-IsSound : (s : Status) (c : Command) → s.state ≡ running → IsSound (new_execution s c)
unfolding new_execution
new-IsSound s c h = record { at = (refl, h); log = new_log-IsWithin; noted = refl }

Started-RunsSound :
    {host : Host} {id env : String} {job : JobSpec} {m : Manager} {out : Manager × Result Status}
    → Started host id env job m out
    → RunsSound m
    → RunsSound out.0
unfolding new_status
Started-RunsSound (refused e) all = all
Started-RunsSound {id} {m = m} (added pid now command fine inside absent) all = λ j e found.
    elim (put_cases id j _ e m.runs found) [
      | inl (same, is) ↦ subst IsSound is (new-IsSound _ command refl)
      | inr (differs, was) ↦ all j e was
    ]

-- However Start, Stop, Abort and the ends and the output of the processes interleave, each run's
-- channel is closed at most once, with the state that is not "running" any more; until then the
-- state is "running", and the log and what remains of its limit are together 4 MiB.
pub Reach-RunsSound : {m : Manager} → Reach m → RunsSound m
unfolding lookup
Reach-RunsSound (fresh root dir) = λ j e found. absurd (ground (arith, found))
Reach-RunsSound (next r (starts host id env job extra m)) =
    Started-RunsSound (start-Started host id env job extra m) (Reach-RunsSound r)
Reach-RunsSound (next r (acts id act m a)) =
    on_run-RunsSound id act m (Acts-IsSound a) (Reach-RunsSound r)
