-- ===== src/Binding/Once.antt =====
-- internal/binding/manager.go: the plugins of a binding are stopped and closed once.
use x_mock_mcp.Binding.Kept.{exited_entries, put_cases}
use x_mock_mcp.Api.{Failure}
use x_mock_mcp.Binding.Manager.{
  Attempt, Binding, Config, Entry, Manager, create, new_entry, with_timeout,
}
use x_mock_mcp.Binding.Upkeep.{assign, cleanup, seal_entry, unlist}
use x_mock_mcp.Prelude.{
  Assoc, Option, String, [], ap, arith, if_elim, inl, inr, lookup, not, refl, some, subst, sym,
  true, ◌+◌, ◌==◌, ◌∙◌, ◌≡◌, ◌≤◌,
}
use x_mock_mcp.Binding.Steps.{
  here, Acts, Created, Step, Steps, acts, added, assigns, cleans, create-Created, creates, exits,
  refused, seals, there, unlists,
}

-- Until it is cancelled an entry takes requests; at most one call of Destroy takes it, none while it
-- is in the map; only that call cleans it up, and it takes no requests from then on.
pub record IsSound (e : Entry) : Type 0 where
  pub live : e.active ≡ not e.cancelled
  pub kept : e.listed ≡ true → e.leaving + e.cleanups ≡ 0
  pub open_ : e.active ≡ true → e.cleanups ≡ 0
  pub once : e.leaving + e.cleanups ≤ 1

abbrev pub EntriesSound : Manager → Type 0
EntriesSound m = (id : String) (e : Entry) → lookup id m.entries ≡ some e → IsSound e

new-IsSound : (c : Config) (b : Binding) → IsSound (new_entry c b)
unfolding new_entry
new-IsSound c b = record { live = refl; kept = λ h. refl; open_ = λ h. refl; once = omega arith }

Acts-IsSound : {act : Entry → Entry} {e : Entry} → Acts act e → IsSound e → IsSound (act e)
unfolding unlist cleanup seal_entry assign
Acts-IsSound (unlists e) s =
    if_elim IsSound e.listed _ _
      (λ h. record {
        live = s.live;
        kept = λ g. absurd (ground (arith, g));
        open_ = s.open_;
        once = omega (arith, s.kept h);
      })
      (λ h. s)
Acts-IsSound (cleans e taken) s = record {
  live = refl;
  kept = λ h. absurd (omega (arith, taken, s.kept h));
  open_ = λ h. absurd (ground (arith, h));
  once = omega (arith, taken, s.once);
}
Acts-IsSound (seals e) s =
    if_elim IsSound e.listed _ _
      (λ h. record {
        live = refl;
        kept = s.kept;
        open_ = λ g. absurd (ground (arith, g));
        once = s.once;
      })
      (λ h. s)
Acts-IsSound (assigns run e) s =
    if_elim (λ (o : Entry × Option Failure). IsSound o.0) (e.run_id == "") _ _
      (λ h. record { live = s.live; kept = s.kept; open_ = s.open_; once = s.once }) (λ h. s)

Step-EntriesSound : {m m' : Manager} → Step m m' → EntriesSound m → EntriesSound m'
Step-EntriesSound (creates a c m fresh) all = go (create a c m) (create-Created a c m)
  where
    go : (out : Manager × Attempt) → Created a c m out → EntriesSound out.0
    go _ (refused tried f) = all
    go _ (added b checks is) = λ j e found. elim (put_cases b.id j _ e m.entries found) [
      | inl (same, new) ↦ subst IsSound new (new-IsSound (with_timeout c) b)
      | inr (differs, was) ↦ all j e was
    ]
Step-EntriesSound (acts k act m old there_ a) all = λ j e found.
    elim (put_cases k j (act old) e m.entries found) [
      | inl (same, new) ↦ subst IsSound new (Acts-IsSound a (all k old there_))
      | inr (differs, was) ↦ all j e was
    ]
Step-EntriesSound (exits k m) all =
    λ j e found. all j e (ap (λ (es : Assoc Entry). lookup j es) (sym (exited_entries k m)) ∙ found)

-- From an empty manager on, however many calls of Destroy there are, at most one takes a binding and
-- cleans its plugins up, which happens at most once and never while the binding is in the map or takes
-- requests.
pub Steps-EntriesSound :
    {m : Manager} → Steps (record { entries = []; failures = [] }) m → EntriesSound m
unfolding lookup
Steps-EntriesSound here = λ j e found. absurd (ground (arith, found))
Steps-EntriesSound (there steps step) = Step-EntriesSound step (Steps-EntriesSound steps)
