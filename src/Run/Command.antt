-- ===== src/Run/Command.antt =====
-- Start of internal/run/manager.go, before the run exists: its checks, and the process it starts.
use x_mock_mcp.Prelude.Int.{ltb_ℤ, pos, ℤ}
use x_mock_mcp.Api.{Failure, Result, err, invalid, ok}
use x_mock_mcp.Prelude.{
  Assoc, Bool, List, Option, String, false, if◌then◌else◌, insert, none, not, some, true, ◌&&◌,
  ◌==◌, ◌||◌,
}
use x_mock_mcp.Trace.Documents.{valid_id}
use x_mock_mcp.Plugin.Paths.{safe_relative}

pub record JobSpec : Type 0 where
  pub name : String
  pub argv : List String
  pub working_directory : String
  pub env : Assoc String
  pub timeout_ms : ℤ

-- The fields of exec.Cmd that Start sets.
pub record Command : Type 0 where
  pub argv : List String
  pub dir : String
  pub env : Assoc String

unfoldable pub is_empty_list {ℓ} : {A : Type ℓ} → List A → Bool
is_empty_list List.[] = true
is_empty_list (List.◌∷◌ x l) = false

-- The checks of Start that need no file.
unfoldable pub refuses_job : String → String → JobSpec → Option Failure
unfolding valid_id safe_relative is_empty_list
refuses_job id env job =
    if not (valid_id id)
      || env == ""
      || is_empty_list job.argv
      || job.name == ""
      || ltb_ℤ job.timeout_ms (pos 1)
      || ltb_ℤ (pos 3600000) job.timeout_ms
    then some (invalid "invalid named job or timeout")
    else if not (job.working_directory == "")
        && not (job.working_directory == ".")
        && not (safe_relative job.working_directory)
    then some (invalid "job working directory must be inside project")
    else none

-- The place of the directory below the root, where filepath.Rel finds it: inside, or refused.
unfoldable pub stays_inside : Result String → Bool
unfolding safe_relative
stays_inside (err e) = false
stays_inside (ok rel) = rel == "." || safe_relative rel

-- The variables that a job inherits.
abbrev pub inherited : List String
inherited = List.◌∷◌ "PATH" (
    List.◌∷◌ "HOME" (
      List.◌∷◌ "JAVA_HOME" (
        List.◌∷◌ "LANG"
          (List.◌∷◌ "LC_ALL" (List.◌∷◌ "TMPDIR" (List.◌∷◌ "PLAYWRIGHT_BROWSERS_PATH" List.[]))))))

-- The first loop on envs; `look_up` is os.LookupEnv.
unfoldable pub inherit : (String → Option String) → List String → Assoc String → Assoc String
inherit look_up List.[] envs = envs
inherit look_up (List.◌∷◌ k ks) envs = elim (look_up k) [
  | none ↦ inherit look_up ks envs
  | some v ↦ inherit look_up ks (insert k v envs)
]

-- for k, v := range m { envs[k] = v }
unfoldable pub add_all : Assoc String → Assoc String → Assoc String
add_all List.[] envs = envs
add_all (List.◌∷◌ (k, v) m) envs = add_all m (insert k v envs)

-- The variables of the process: the inherited ones, those of the job, and the run's own. Of the last
-- there is always one, X_MOCK_RUN_ID, in the one call of Start; without any variable at all os/exec
-- would pass on the daemon's.
unfoldable pub environment : (String → Option String) → Assoc String → Assoc String → Assoc String
unfolding inherit add_all
environment look_up job extra = add_all extra (add_all job (inherit look_up inherited List.[]))
