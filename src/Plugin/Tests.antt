-- ===== src/Plugin/Tests.antt =====
-- The checks of pluginapi/validate.go on a few values.
use x_mock_mcp.Plugin.Inside.{IsOrdinary, safe_relative-inside}
use x_mock_mcp.Plugin.Decision.{Decision, check_decision, completed, needs_data}
use x_mock_mcp.Plugin.Descriptor.{Contract, Descriptor, Formats, Manifest, check_manifest}
use x_mock_mcp.Plugin.Valid.{IsExact, IsFile, check_decision-IsExact, check_manifest-IsFile}
use x_mock_mcp.Api.{invalid}
use x_mock_mcp.Catalog.Reference.{left, valid_digest}
use x_mock_mcp.Prelude.Int.{pos}
use x_mock_mcp.Prelude.{
  ◌==◌, All, List, String, [], false, lookup, none, refl, some, true, ◌∷◌, ◌≡◌,
}
use x_mock_mcp.Plugin.Paths.{safe_relative, segments}

accepted : safe_relative "bin/server" ≡ true
unfolding safe_relative
accepted = refl

refused_up : safe_relative "bin/../../etc" ≡ false
unfolding safe_relative
refused_up = refl

refused_double : safe_relative "bin//server" ≡ false
unfolding safe_relative
refused_double = refl

safe_relative-inside_example : All IsOrdinary (segments "bin/server")
safe_relative-inside_example = safe_relative-inside "bin/server" accepted

abbrev formats : Formats
formats = record { valid = λ s. true; is_null = λ s. s == "null"; schema_object = λ s. true }

abbrev digest_of_server : String
digest_of_server = "0123456789abcdef0123456789abcdef0123456789abcdef0123456789abcdef"

abbrev greeting : Contract
greeting = record { id = "greeting"; version = pos 1; capabilities = "greet" ∷ [] }

abbrev server : Descriptor
server = record {
  ref = record { role = left; id = "http"; version = "1.0.0" };
  api_major = pos 1;
  contracts = greeting ∷ [];
  config_schema = "{}";
  scenario_schema = "";
  preparation = none;
  features = "listen" ∷ [];
}

abbrev package_of : List (String × String) → Manifest
package_of files = record {
  descriptor = server;
  platform = "linux/amd64";
  entrypoint = "bin/server";
  files = files;
}

package_accepted :
    check_manifest formats (package_of (("bin/server", digest_of_server) ∷ [])) ≡ none
unfolding check_manifest valid_digest lookup
package_accepted = refl

package_up :
    check_manifest formats
      (package_of (("bin/server", digest_of_server) ∷ ("../server", digest_of_server) ∷ []))
    ≡ some (invalid ("invalid file entry ../server"))
unfolding check_manifest valid_digest lookup
package_up = refl

check_manifest-IsFile_example :
    ((name digest : String)
      → lookup name (("bin/server", digest_of_server) ∷ []) ≡ some digest
      → IsFile name digest)
    × ((digest : String) × (lookup "bin/server" (("bin/server", digest_of_server) ∷ [])
          ≡ some digest))
check_manifest-IsFile_example =
    check_manifest-IsFile formats (package_of (("bin/server", digest_of_server) ∷ []))
      package_accepted

abbrev asking : Decision
asking = record {
  kind = needs_data;
  payload = "";
  need = some (record {
    request_id = "r1";
    continuation = "c1";
    state_version = 3;
    deadline_ms = 9000;
    schema = "{}";
    context = "{}";
  });
  error = none;
}

asking_accepted : check_decision formats asking ≡ none
unfolding check_decision
asking_accepted = refl

null_refused :
    check_decision formats
      (record { kind = completed; payload = "null"; need = none; error = none })
    ≡ some (invalid "completed needs payload")
unfolding check_decision
null_refused = refl

check_decision-IsExact_example : IsExact asking
check_decision-IsExact_example = check_decision-IsExact formats asking asking_accepted
