-- ===== src/Binding/Upkeep.antt =====
-- internal/binding/manager.go: what happens to a binding that was made, until it is destroyed.
use x_mock_mcp.Binding.Manager.{Binding, Entry, Manager}
use x_mock_mcp.Prelude.Text.{before}
use x_mock_mcp.Api.{Failure, fail, plugin_exited, state_conflict}
use x_mock_mcp.Prelude.{
  Assoc, List, Option, String, [], false, if◌then◌else◌, insert, lookup, none, some, true, ◌+◌, ◌-◌,
  ◌==◌, ◌∷◌,
}

abbrev pub on_entry : String → (Entry → Entry) → Manager → Manager
on_entry id act m = elim (lookup id m.entries) [
  | none ↦ m
  | some e ↦ record m { entries = insert id (act e) m.entries }
]

-- The section of Destroy under the lock: it takes the entry, if it is in the map, and will clean it up.
unfoldable pub unlist : Entry → Entry
unlist e = if e.listed then record e { listed = false; leaving = e.leaving + 1 } else e

-- func (m *Manager) cleanup, by a Destroy that took the entry.
unfoldable pub cleanup : Entry → Entry
cleanup e = record e {
  active = false;
  cancelled = true;
  leaving = e.leaving - 1;
  cleanups = e.cleanups + 1;
}

-- func (m *Manager) Seal
unfoldable pub seal_entry : Entry → Entry
seal_entry e = if e.listed then record e { active = false; cancelled = true } else e

unfoldable pub seal : String → Manager → Manager
unfolding seal_entry
seal id = on_entry id seal_entry

-- AssignRun with its entry found, under the entry's lock; `none` is success.
unfoldable pub assign : String → Entry → Entry × Option Failure
assign run e =
    if e.run_id == ""
    then (record e { run_id = run }, none)
    else (e, some (fail state_conflict "binding already belongs to a run"))

unfoldable pub find_listed : String → Manager → Option Entry
find_listed id m = elim (lookup id m.entries) [
  | none ↦ none
  | some e ↦ if e.listed then some e else none
]

-- func (m *Manager) AssignRun, when nothing comes in between.
unfoldable pub assign_run : String → String → Manager → Manager × Option Failure
unfolding find_listed assign
assign_run id run m = elim (find_listed id m) [
  | none ↦ (m, some (fail state_conflict "binding unavailable"))
  | some e ↦
      let (e', failure) = assign run e in (record m { entries = insert id e' m.entries }, failure)
]

-- The goroutine of Create when a plugin exits: the failure is noted, unless the entry was
-- cancelled; a Destroy follows.
unfoldable pub exited : String → Manager → Manager
exited id m = elim (lookup id m.entries) [
  | none ↦ m
  | some e ↦ if e.cancelled then m else record m {
    failures = insert id (fail plugin_exited "plugin process or IPC exited") m.failures;
  }
]

-- func (m *Manager) Failure
unfoldable pub failure_of : String → Manager → Option Failure
failure_of id m = lookup id m.failures

-- func (m *Manager) Destroy, when nothing comes in between its section and the cleanup.
unfoldable pub destroy : String → Manager → Manager
unfolding find_listed unlist cleanup
destroy id m = elim (find_listed id m) [
  | none ↦ m
  | some e ↦ record m { entries = insert id (cleanup (unlist e)) m.entries }
]

abbrev pub listed_bindings : Assoc Entry → List Binding
listed_bindings [] = []
listed_bindings ((id, e) ∷ entries) =
    let rest = listed_bindings entries in if e.listed then e.binding ∷ rest else rest

unfoldable pub insert_binding : Binding → List Binding → List Binding
insert_binding b [] = b ∷ []
insert_binding b (x ∷ xs) =
    let rest = insert_binding b xs in if before b.id x.id then b ∷ x ∷ xs else x ∷ rest

unfoldable pub sort_bindings : List Binding → List Binding
unfolding insert_binding
sort_bindings [] = []
sort_bindings (b ∷ bs) = insert_binding b (sort_bindings bs)

-- func (m *Manager) List
unfoldable pub list : Manager → List Binding
unfolding sort_bindings
list m = sort_bindings (listed_bindings m.entries)
