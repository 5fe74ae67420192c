-- ===== src/Plugin/Decision.antt =====
-- Decision of pluginapi/strategy.go, and its Validate and PreparationReport's in pluginapi/validate.go.
use x_mock_mcp.Catalog.Reference.{valid_digest}
use x_mock_mcp.Plugin.Descriptor.{first_failure, Formats, is_some, refuse_if}
use x_mock_mcp.Prelude.{
  [], ◌∷◌, List, length, Bool, Option, String, bit, if◌then◌else◌, ltb, nat_eq, none, not, some,
  true, ℕ, ◌&&◌, ◌+◌, ◌==◌, ◌||◌,
}
use Prim.Native.String.{len}
use x_mock_mcp.Api.{Failure, Need, fail, invalid, foreign}

-- The texts of Decision.Kind.
pub data Kind : Type 0 where
  completed unsupported needs_data : Kind
  foreign_kind : String → Kind

-- An empty text is a missing payload. A *Failure is a `fail`.
pub record Decision : Type 0 where
  pub kind : Kind
  pub payload : String
  pub need : Option Need
  pub error : Option Failure

pub record Resolution : Type 0 where
  pub request_id : String
  pub continuation : String
  pub state_version : ℕ
  pub payload : String

abbrev pub outcomes : Decision → ℕ
outcomes d = bit (not (nat_eq (len d.payload) 0)) + bit (is_some d.need) + bit (is_some d.error)

abbrev pub is_bounded : Formats → Need → Bool
is_bounded formats n =
    not (n.request_id == "")
    && not (n.continuation == "")
    && not (nat_eq n.deadline_ms 0)
    && formats.schema_object n.schema

abbrev pub has_code : Failure → Bool
has_code (fail (foreign text) m) = not (text == "")
has_code _ = true

unfoldable pub check_kind : Formats → Decision → Option Failure
check_kind formats d = elim d.kind [
  | completed ↦
      refuse_if
        (nat_eq (len d.payload) 0 || not (formats.valid d.payload) || formats.is_null d.payload)
        (invalid "completed needs payload")
  | needs_data ↦ (elim d.need [
    | none ↦ some (invalid "needs_data requires a bounded typed continuation")
    | some n ↦
        refuse_if (not (is_bounded formats n))
          (invalid "needs_data requires a bounded typed continuation")
  ])
  | unsupported ↦ (elim d.error [
    | none ↦ some (invalid "unsupported requires failure")
    | some e ↦ refuse_if (not (has_code e)) (invalid "unsupported requires failure")
  ])
  | foreign_kind text ↦ some (invalid "unknown decision kind")
]

unfoldable pub decision_checks : Formats → Decision → List (Option Failure)
unfolding check_kind
decision_checks formats d =
    refuse_if (not (nat_eq (outcomes d) 1)) (invalid "decision must contain exactly one outcome")
    ∷ check_kind formats d
    ∷ []

-- func (d Decision) Validate
unfoldable pub check_decision : Formats → Decision → Option Failure
unfolding decision_checks first_failure
check_decision formats d = first_failure (decision_checks formats d)

-- PreparationIssue and PreparationReport of pluginapi/preparation.go
pub record Issue : Type 0 where
  pub code : String
  pub path : String
  pub message : String
  pub step_ids : List String

pub record Report : Type 0 where
  pub ready : Bool
  pub missing_inputs : List Issue
  pub ambiguities : List Issue
  pub unsupported_parts : List Issue
  pub diagnostics : List Issue
  pub instructions : String
  pub compiled_body : String
  pub input_digest : String
  pub compiled_digest : String

abbrev pub issue_count : Report → ℕ
issue_count r =
    length r.missing_inputs
    + length r.ambiguities
    + length r.unsupported_parts
    + length r.diagnostics

-- func (r PreparationReport) Validate
unfoldable pub check_report : Formats → Report → Option Failure
unfolding valid_digest
check_report formats r =
    if r.ready
    then refuse_if
        (ltb 0 (issue_count r)
          || not (formats.valid r.compiled_body)
          || not (valid_digest r.input_digest)
          || not (valid_digest r.compiled_digest))
        (invalid "ready report is incomplete")
    else refuse_if (not (nat_eq (len r.compiled_body) 0) || not (r.compiled_digest == ""))
        (invalid "non-ready report cannot expose a compiled body")
