-- ===== src/Api/Codes.antt =====
-- pluginapi/errors.go: failures with a code, other Go errors, and the code of an error.
use Prim.Native.String.{◌++◌}
use x_mock_mcp.Prelude.{String, Bool, true, false}

-- The codes that the core gives; `foreign` is any other text, such as a plugin may send.
pub data Code : Type 0 where
  deadline_exceeded state_conflict queue_full cancelled owner_conflict : Code
  invalid_argument invalid_result unmatched_request not_found : Code
  plugin_not_installed plugin_not_enabled plugin_in_use plugin_api_mismatch : Code
  contract_mismatch plugin_exited job_failed output_full trace_full : Code
  unsupported dependency_error expectation_failed internal : Code
  foreign : String → Code

-- A Go error: a *Failure, or an error of another type (a context's, the file system's).
pub data Failure : Type 0 where
  fail : Code → String → Failure
  other : String → Failure

-- func Invalid
abbrev pub invalid : String → Failure
invalid message = fail invalid_argument message

-- func Code of an error that is not nil
unfoldable pub code_of : Failure → Code
code_of (fail c m) = c
code_of (other m) = internal

unfoldable pub is_deadline : Code → Bool
is_deadline deadline_exceeded = true
is_deadline _ = false

-- What a Go function with an error result returns.
pub data Result {ℓ} (A : Type ℓ) : Type ℓ where
  ok : A → Result A
  err : Failure → Result A

abbrev pub code_text : Code → String
code_text deadline_exceeded = "DEADLINE_EXCEEDED"
code_text state_conflict = "STATE_CONFLICT"
code_text queue_full = "QUEUE_FULL"
code_text cancelled = "CANCELLED"
code_text owner_conflict = "OWNER_CONFLICT"
code_text invalid_argument = "INVALID_ARGUMENT"
code_text invalid_result = "INVALID_RESULT"
code_text unmatched_request = "UNMATCHED_REQUEST"
code_text not_found = "NOT_FOUND"
code_text plugin_not_installed = "PLUGIN_NOT_INSTALLED"
code_text plugin_not_enabled = "PLUGIN_NOT_ENABLED"
code_text plugin_in_use = "PLUGIN_IN_USE"
code_text plugin_api_mismatch = "PLUGIN_API_MISMATCH"
code_text contract_mismatch = "CONTRACT_MISMATCH"
code_text plugin_exited = "PLUGIN_EXITED"
code_text job_failed = "JOB_FAILED"
code_text output_full = "OUTPUT_FULL"
code_text trace_full = "TRACE_FULL"
code_text unsupported = "UNSUPPORTED"
code_text dependency_error = "DEPENDENCY_ERROR"
code_text expectation_failed = "EXPECTATION_FAILED"
code_text internal = "INTERNAL"
code_text (foreign text) = text

-- err.Error()
abbrev pub error_text : Failure → String
error_text (fail c m) = code_text c ++ ": " ++ m
error_text (other m) = m
