-- ===== src/Binding/Tests.antt =====
-- One binding of internal/binding/manager.go: it is made, assigned, asked, sealed and asked again.
use x_mock_mcp.Prelude.Int.{pos}
use x_mock_mcp.Binding.Negotiate.{negotiate}
use x_mock_mcp.Binding.Steps.{Steps, acts, assigns, creates, here, seals, there}
use x_mock_mcp.Binding.Agreement.{Negotiated, negotiate-Negotiated}
use x_mock_mcp.Api.{Need, Result, ok}
use x_mock_mcp.Binding.Dispatch.{Moment, Request, Right, dispatch}
use x_mock_mcp.Prelude.{
  insert, List, String, [], false, lookup, none, refl, some, true, bit, ◌&&◌, ◌≤◌, ◌∷◌, ◌≡◌, ◌⊎◌,
}
use x_mock_mcp.Binding.Created.{IsReady, create-IsReady}
use x_mock_mcp.Binding.Kept.{IsLater}
use x_mock_mcp.Binding.Shut.{Shuts-closed, by_destroy}
use x_mock_mcp.Binding.Answered.{Executed, Filled, dispatch_ok}
use x_mock_mcp.Binding.Once.{EntriesSound, Steps-EntriesSound}
use x_mock_mcp.Binding.Manager.{
  Answers, Binding, Config, Entry, InstanceSpec, Manager, Ready, create, new_binding, new_entry,
  with_timeout,
}
use x_mock_mcp.Binding.Upkeep.{assign, destroy, seal_entry}
use x_mock_mcp.Catalog.Reference.{Reference, left, right}
use x_mock_mcp.Plugin.Descriptor.{Contract, Descriptor, Formats}
use x_mock_mcp.Plugin.Decision.{needs_data}

abbrev any_formats : Formats
any_formats = record { valid = λ s. true; is_null = λ s. false; schema_object = λ s. true }

abbrev left_ref : Reference
left_ref = record { role = left; id = "wire"; version = "1.0.0" }

abbrev right_ref : Reference
right_ref = record { role = right; id = "mock"; version = "1.0.0" }

abbrev described : Reference → List String → Descriptor
described ref caps = record {
  ref = ref;
  api_major = pos 1;
  contracts = record { id = "sql"; version = pos 1; capabilities = caps } ∷ [];
  config_schema = "{}";
  scenario_schema = "";
  preparation = none;
  features = [];
}

abbrev left_described : Descriptor
left_described = described left_ref ("query" ∷ "tls" ∷ [])

abbrev right_described : Descriptor
right_described = described right_ref ("writes" ∷ "query" ∷ [])

abbrev wanted : Contract
wanted = record { id = "sql"; version = pos 1; capabilities = "query" ∷ [] }

negotiated : negotiate left_described right_described wanted ≡ ok wanted
unfolding negotiate
negotiated = refl

negotiate-Negotiated_example :
    Negotiated left_described right_described wanted
      (negotiate left_described right_described wanted)
negotiate-Negotiated_example = negotiate-Negotiated left_described right_described wanted

abbrev ready : String → InstanceSpec → Result Ready
ready id spec = ok (record { instance_id = id; endpoints = ("mysql", "127.0.0.1:1") ∷ [] })

abbrev answers : Answers
answers = record {
  new_right = none;
  new_left = none;
  right_descriptor = ok right_described;
  left_descriptor = ok left_described;
  right_config = λ raw. none;
  left_config = λ raw. none;
  right_start = ready "i1";
  left_start = ready "i2";
  context = none;
  binding_id = "b1";
  right_instance = "i1";
  left_instance = "i2";
}

abbrev sample_config : Config
sample_config = record {
  left_ref = left_ref;
  right_ref = right_ref;
  left_config = "";
  right_config = "";
  contract = wanted;
  environment_id = "e1";
  resource_id = "db";
  scenario = "{}";
  scenario_version = pos 1;
  request_timeout_ms = pos 0;
  data_strategy_name = "";
}

abbrev no_bindings : Manager
no_bindings = record { entries = []; failures = [] }

abbrev sample_binding : Binding
sample_binding = record (new_binding answers sample_config wanted) {
  endpoints = ("mysql", "127.0.0.1:1") ∷ [];
}

abbrev sample_entry : Entry
sample_entry = new_entry (with_timeout sample_config) sample_binding

abbrev bound : Manager
bound = record no_bindings { entries = ("b1", sample_entry) ∷ [] }

was_created : (create answers sample_config no_bindings).1.result ≡ ok sample_binding
unfolding create
was_created = refl

create-IsReady_example : IsReady answers sample_config no_bindings sample_binding
create-IsReady_example = create-IsReady answers sample_config no_bindings sample_binding was_created

abbrev is_bound : Steps no_bindings bound
unfolding lookup create insert
is_bound = there here (creates answers sample_config no_bindings (λ b h. refl))

abbrev sealed_entry : Entry
sealed_entry = seal_entry (assign "r1" sample_entry).0

abbrev assigned : Manager
assigned = record no_bindings { entries = ("b1", (assign "r1" sample_entry).0) ∷ [] }

abbrev sealed : Manager
sealed = record no_bindings { entries = ("b1", sealed_entry) ∷ [] }

is_sealed : Steps bound sealed
unfolding lookup insert
is_sealed =
    there
      (there here
        (acts "b1" (λ x. (assign "r1" x).0) bound sample_entry refl (assigns "r1" sample_entry)))
      (acts "b1" seal_entry assigned (assign "r1" sample_entry).0 refl
        (seals (assign "r1" sample_entry).0))

Shuts-closed_example :
    (e' : Entry) × (lookup "b1" (destroy "b1" sealed).entries ≡ some e')
    × IsLater sealed_entry e'
    × (e'.active ≡ false)
    × ((true && e'.listed) ≡ false)
    × (bit true ≤ e'.cleanups)
unfolding lookup seal_entry assign new_entry
Shuts-closed_example = Shuts-closed "b1" sealed_entry by_destroy here refl refl

Steps-EntriesSound_example : EntriesSound bound
Steps-EntriesSound_example = Steps-EntriesSound is_bound

abbrev sample_need : Need
sample_need = record {
  request_id = "q1";
  continuation = "c1";
  state_version = 0;
  deadline_ms = 999999;
  schema = "{}";
  context = "";
}

abbrev asking : Right
asking = record {
  execute =
      λ q. ok (record { kind = needs_data; payload = ""; need = some sample_need; error = none });
  complete = λ r. ok r.payload;
}

abbrev strategy : Need → Result String
strategy n = ok "rows"

abbrev at_once : Moment
at_once = record { id = "q1"; started = 0; now = 0; deadline = some 5000000; late = none }

abbrev sample_request : Request
sample_request = record {
  id = "";
  environment_id = "";
  run_id = "";
  binding_id = "b1";
  resource_id = "";
  connection_id = "c";
  contract_id = "";
  contract_version = pos 0;
  scenario_version = pos 0;
  deadline_ms = 0;
  started_ms = 0;
  operation = "query";
  payload = "{}";
}

is_answered :
    dispatch any_formats asking (some strategy) at_once sample_entry sample_request ≡ ok "rows"
unfolding dispatch new_entry
is_answered = refl

dispatch_ok_example :
    (sample_entry.active ≡ true)
    × (Executed any_formats asking (some strategy) at_once sample_entry sample_request "rows"
        ⊎ Filled any_formats asking (some strategy) at_once sample_entry sample_request "rows")
dispatch_ok_example =
    dispatch_ok any_formats asking (some strategy) at_once sample_entry sample_request "rows"
      is_answered
