-- ===== src/Plugin/Descriptor.antt =====
-- pluginapi/manifest.go and pluginapi/validate.go: what a plugin says of itself, and its package.
-- JSON is read by `formats`; a text that is empty stands for a missing json.RawMessage.
use x_mock_mcp.Plugin.Paths.{safe_relative, segments}
use x_mock_mcp.Prelude.Int.{eqb_ℤ, ltb_ℤ, negsuc, pos, ℤ}
use x_mock_mcp.Prelude.Text.{decimal}
use x_mock_mcp.Api.{Failure, fail, invalid, plugin_api_mismatch}
use x_mock_mcp.Prelude.{
  [], Assoc, Bool, List, Option, String, false, if◌then◌else◌, lookup, nat_eq, none, not, some, suc,
  true, ◌&&◌, ◌==◌, ◌||◌, ◌∷◌,
}
use x_mock_mcp.Catalog.Reference.{validate, in_range, Reference, every, valid_digest, Role, right}
use Prim.Native.String.{len, ◌++◌}
use Prim.Native.Char.{Char, code}
use text.Mathlib.Text.{starts_with}

pub record Contract : Type 0 where
  pub id : String
  pub version : ℤ
  pub capabilities : List String

pub record Preparation : Type 0 where
  pub input_schema : String
  pub candidate_schema : String
  pub guide : String

pub record Descriptor : Type 0 where
  pub ref : Reference
  pub api_major : ℤ
  pub contracts : List Contract
  pub config_schema : String
  pub scenario_schema : String
  pub preparation : Option Preparation
  pub features : List String

-- What encoding/json says of a text: it holds a value, it holds null, and it is not empty and holds
-- an object whose "type" is "object".
pub record Formats : Type 0 where
  pub valid : String → Bool
  pub is_null : String → Bool
  pub schema_object : String → Bool

-- The loop over a list of texts for one that is equal.
unfoldable pub has : List String → String → Bool
has [] v = false
has (x ∷ xs) v = x == v || has xs v

-- func jsonNumber
unfoldable pub json_number : ℤ → String
unfolding decimal
json_number (pos n) = decimal n
json_number (negsuc n) = "-" ++ decimal (suc n)

unfoldable pub contract_key : Contract → String
unfolding json_number
contract_key c = c.id ++ "/" ++ json_number c.version

-- The loop over texts that are neither empty nor seen.
unfoldable pub are_new : List String → List String → Bool
unfolding has
are_new seen [] = true
are_new seen (x ∷ xs) = let rest = are_new (x ∷ seen) xs in not (x == "" || has seen x) && rest

unfoldable pub check_contracts : List String → List Contract → Option Failure
unfolding contract_key has are_new
check_contracts seen [] = none
check_contracts seen (c ∷ cs) =
    let rest = check_contracts ((contract_key c) ∷ seen) cs in
    if c.id == "" || ltb_ℤ c.version (pos 1) || has seen (contract_key c)
    then some (invalid "invalid or duplicate contract")
    else if not (are_new [] c.capabilities)
    then some (invalid "invalid capability")
    else rest

abbrev pub is_right : Role → Bool
is_right right = true
is_right _ = false

unfoldable pub check_features : Role → List String → List String → Option Failure
unfolding has
check_features role seen [] = none
check_features role seen (f ∷ fs) =
    let rest = check_features role (f ∷ seen) fs in
    if f == "" || has seen f
    then some (invalid "duplicate or empty feature")
    else if starts_with f "scenario." && not (is_right role)
    then some (invalid "scenario extensions require a right plugin")
    else rest

-- func (d Descriptor) HasFeature
unfoldable pub has_feature : Descriptor → String → Bool
unfolding has
has_feature d f = has d.features f

-- unicode.IsSpace
unfoldable pub is_space : Char → Bool
is_space c =
    in_range 9 13 c
    || nat_eq (code c) 32
    || nat_eq (code c) 133
    || nat_eq (code c) 160
    || nat_eq (code c) 5760
    || in_range 8192 8202 c
    || in_range 8232 8233 c
    || nat_eq (code c) 8239
    || nat_eq (code c) 8287
    || nat_eq (code c) 12288

-- strings.TrimSpace(s) == ""
unfoldable pub is_blank : String → Bool
unfolding every is_space
is_blank = every is_space

abbrev pub is_some {ℓ} : {A : Type ℓ} → Option A → Bool
is_some none = false
is_some (some x) = true

abbrev pub check_preparation : Formats → Option Preparation → Option Failure
check_preparation formats none = none
check_preparation formats (some p) =
    if not (formats.schema_object p.input_schema)
      || not (formats.schema_object p.candidate_schema)
      || is_blank p.guide
    then some (invalid "preparation schemas and guide required")
    else none

abbrev pub is_nil {ℓ} : {A : Type ℓ} → List A → Bool
is_nil [] = true
is_nil (x ∷ xs) = false

-- The first check that fails: each is `if ... { return err }`.
unfoldable pub first_failure : List (Option Failure) → Option Failure
first_failure [] = none
first_failure ((some e) ∷ checks) = some e
first_failure (none ∷ checks) = first_failure checks

abbrev pub refuse_if : Bool → Failure → Option Failure
refuse_if true e = some e
refuse_if false e = none

-- The checks of Validate, in their order.
unfoldable pub descriptor_checks : Formats → Descriptor → List (Option Failure)
unfolding validate check_contracts check_features has_feature is_blank
descriptor_checks formats d =
    validate d.ref
    ∷ refuse_if (not (eqb_ℤ d.api_major (pos 1)))
        (fail plugin_api_mismatch "expected plugin API major 1")
    ∷ refuse_if (not (formats.schema_object d.config_schema))
        (invalid "config_schema must declare an object")
    ∷ refuse_if
        (not (nat_eq (len d.scenario_schema) 0) && not (formats.schema_object d.scenario_schema))
        (invalid "invalid scenario schema")
    ∷ refuse_if (is_nil d.contracts) (invalid "plugin must declare a contract")
    ∷ check_contracts [] d.contracts
    ∷ check_features d.ref.role [] d.features
    ∷ refuse_if
        (has_feature d "scenario.prepare" && not (is_some d.preparation)
          || not (has_feature d "scenario.prepare") && is_some d.preparation)
        (invalid "preparation feature and contract must agree")
    ∷ check_preparation formats d.preparation
    ∷ []

-- func (d Descriptor) Validate
unfoldable pub check_descriptor : Formats → Descriptor → Option Failure
unfolding descriptor_checks first_failure
check_descriptor formats d = first_failure (descriptor_checks formats d)

pub record Manifest : Type 0 where
  pub descriptor : Descriptor
  pub platform : String
  pub entrypoint : String
  pub files : Assoc String

abbrev pub is_platform : List String → Bool
is_platform (List.◌∷◌ os (arch ∷ [])) = not (os == "") && not (arch == "")
is_platform _ = false

-- The loop over the files of a package. (Its message quotes the name as fmt does, here it is bare.)
unfoldable pub check_files : Assoc String → Option Failure
unfolding safe_relative valid_digest
check_files [] = none
check_files ((name, digest) ∷ files) =
    let rest = check_files files in
    if not (safe_relative name) || name == "manifest.json" || not (valid_digest digest)
    then some (invalid ("invalid file entry " ++ name))
    else rest

-- The checks of Validate, in their order.
unfoldable pub manifest_checks : Formats → Manifest → List (Option Failure)
unfolding check_descriptor segments safe_relative check_files
manifest_checks formats m =
    check_descriptor formats m.descriptor
    ∷ refuse_if (not (is_platform (segments m.platform))) (invalid "platform must be GOOS/GOARCH")
    ∷ refuse_if (not (safe_relative m.entrypoint))
        (invalid "entrypoint must be a safe relative path")
    ∷ refuse_if (not (is_some (lookup m.entrypoint m.files)))
        (invalid "entrypoint missing from files")
    ∷ check_files m.files
    ∷ []

-- func (m Manifest) Validate
unfoldable pub check_manifest : Formats → Manifest → Option Failure
unfolding manifest_checks first_failure
check_manifest formats m = first_failure (manifest_checks formats m)
