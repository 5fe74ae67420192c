-- ===== src/Binding/Steps.antt =====
-- internal/binding/manager.go as it runs: its sections in any order.
use x_mock_mcp.Prelude.{List, Option, String, [], insert, lookup, none, refl, some, ◌<◌, ◌∷◌, ◌≡◌}
use x_mock_mcp.Api.{Failure, Result, err, ok}
use x_mock_mcp.Binding.Manager.{
  Answers, Attempt, Binding, Config, Entry, Manager, accept, config_checks, connect, create,
  make_left, make_right, new_entry, put, with_timeout,
}
use x_mock_mcp.Binding.Upkeep.{assign, cleanup, exited, seal_entry, unlist}
use x_mock_mcp.Catalog.Reference.{Role, left, right}
use mathlib.Core.List.{reverse}
use x_mock_mcp.Plugin.Descriptor.{first_failure}

-- What happens to an entry that someone holds: a call of Destroy takes it from the map or finds it
-- gone, a call that took it cleans it up, it is sealed, or it is assigned to a run.
pub data Acts : (Entry → Entry) → Entry → Type 0 where
  unlists : (e : Entry) → Acts unlist e
  cleans : (e : Entry) → 0 < e.leaving → Acts cleanup e
  seals : (e : Entry) → Acts seal_entry e
  assigns : (run : String) (e : Entry) → Acts (λ x. (assign run x).0) e

-- Create with a new identifier, a section on an entry, and the note that a plugin has exited.
pub data Step : Manager → Manager → Type 0 where
  creates :
      (a : Answers) (c : Config) (m : Manager)
      → ((b : Binding) → (create a c m).1.result ≡ ok b → lookup b.id m.entries ≡ none)
      → Step m (create a c m).0
  acts :
      (id : String) (act : Entry → Entry) (m : Manager) (e : Entry)
      → lookup id m.entries ≡ some e
      → Acts act e
      → Step m (record m { entries = insert id (act e) m.entries })
  exits : (id : String) (m : Manager) → Step m (exited id m)

pub data Steps : Manager → Manager → Type 0 where
  here : {m : Manager} → Steps m m
  there : {m m' m'' : Manager} → Steps m m' → Step m' m'' → Steps m m''

-- How Create ends: with an error and nothing left over, or with a new entry.
pub data Created (a : Answers) (c : Config) (m : Manager) : Manager × Attempt → Type 0 where
  refused :
      (made : List Role) (e : Failure)
      → Created a c m (m, record { made = made; cleaned = reverse made; result = err e })
  added :
      (b : Binding)
      → first_failure (config_checks c) ≡ none
      → connect a (with_timeout c) ≡ ok b
      → Created a c m (
        record m { entries = insert b.id (new_entry (with_timeout c) b) m.entries },
        record { made = right ∷ left ∷ []; cleaned = []; result = ok b },
      )

module _ (a : Answers) (c : Config) (m : Manager) where
  pub create-Created : Created a c m (create a c m)
  unfolding create
  create-Created = go (first_failure (config_checks c)) refl
    where
      made :
          (o : Result Binding)
          → connect a (with_timeout c) ≡ o
          → first_failure (config_checks c) ≡ none
          → Created a c m (put (with_timeout c) m o)
      made (err e) p h = refused (right ∷ left ∷ []) e
      made (ok b) p h = added b h p

      with_left :
          (l : Option Failure)
          → first_failure (config_checks c) ≡ none
          → Created a c m (make_left l (with_timeout c) m (connect a (with_timeout c)))
      with_left (some e) h = refused (right ∷ []) e
      with_left none h = made (connect a (with_timeout c)) refl h

      with_right :
          (r : Option Failure)
          → first_failure (config_checks c) ≡ none
          → Created a c m (make_right r a.new_left (with_timeout c) m (connect a (with_timeout c)))
      with_right (some e) h = refused [] e
      with_right none h = with_left a.new_left h

      go :
          (o : Option Failure)
          → first_failure (config_checks c) ≡ o
          → Created a c m (accept o a (with_timeout c) m)
      go (some e) h = refused [] e
      go none h = with_right a.new_right h
