-- ===== src/Binding/Manager.antt =====
-- internal/binding/manager.go: the entries of the manager, and Create.
-- What the plugins and their factory answer to Create is its argument.
use x_mock_mcp.Binding.Negotiate.{negotiate}
use x_mock_mcp.Prelude.Int.{ltb_ℤ, pos, ℤ}
use x_mock_mcp.Api.{Failure, Result, err, invalid, ok}
use x_mock_mcp.Prelude.{
  Assoc, Bool, List, Option, String, [], false, if◌then◌else◌, insert, nat_eq, none, not, some,
  true, ℕ, ◌&&◌, ◌==◌, ◌||◌, ◌∷◌,
}
use x_mock_mcp.Catalog.Reference.{Reference, Role, left, right, validate}
use Prim.Native.String.{len}
use mathlib.Core.List.{reverse}
use x_mock_mcp.Plugin.Descriptor.{Contract, Descriptor, first_failure, refuse_if, is_right, is_nil}

pub record Binding : Type 0 where
  pub id : String
  pub environment_id : String
  pub resource_id : String
  pub left_ref : Reference
  pub right_ref : Reference
  pub contract : Contract
  pub endpoints : Assoc String

-- Config, but for its three functions: they are arguments where they are called.
pub record Config : Type 0 where
  pub left_ref : Reference
  pub right_ref : Reference
  pub left_config : String
  pub right_config : String
  pub contract : Contract
  pub environment_id : String
  pub resource_id : String
  pub scenario : String
  pub scenario_version : ℤ
  pub request_timeout_ms : ℤ
  pub data_strategy_name : String

-- InstanceSpec and Ready of pluginapi/strategy.go
pub record InstanceSpec : Type 0 where
  pub instance_id : String
  pub environment_id : String
  pub binding_id : String
  pub resource_id : String
  pub contract : Contract
  pub config : String
  pub scenario : String
  pub scenario_version : ℤ
  pub data_strategy : String

pub record Ready : Type 0 where
  pub instance_id : String
  pub endpoints : Assoc String

-- An entry lives on after Destroy took it from the map (`listed`), for those who hold it.
-- `leaving` counts the calls of Destroy that took it and have not yet called cleanup, and `cleanups`
-- the calls of cleanup, which stop and close both plugins.
pub record Entry : Type 0 where
  pub binding : Binding
  pub config : Config
  pub cancelled : Bool
  pub active : Bool
  pub run_id : String
  pub listed : Bool
  pub leaving : ℕ
  pub cleanups : ℕ

pub record Manager : Type 0 where
  pub entries : Assoc Entry
  pub failures : Assoc Failure

-- What Create hears from the factory, the plugins, its context and ID().
pub record Answers : Type 0 where
  pub new_right : Option Failure
  pub new_left : Option Failure
  pub right_descriptor : Result Descriptor
  pub left_descriptor : Result Descriptor
  pub right_config : String → Option Failure
  pub left_config : String → Option Failure
  pub right_start : InstanceSpec → Result Ready
  pub left_start : InstanceSpec → Result Ready
  pub context : Option Failure
  pub binding_id : String
  pub right_instance : String
  pub left_instance : String

abbrev pub is_left : Role → Bool
is_left left = true
is_left _ = false

unfoldable pub config_checks : Config → List (Option Failure)
unfolding validate
config_checks c =
    refuse_if (not (is_left c.left_ref.role && is_right c.right_ref.role))
      (invalid "left/right plugin roles are fixed")
    ∷ validate c.left_ref
    ∷ validate c.right_ref
    ∷ refuse_if (c.environment_id == "" || c.resource_id == "")
        (invalid "environment and resource required")
    ∷ []

-- A request of a binding waits ten seconds if the configuration does not say.
abbrev pub with_timeout : Config → Config
with_timeout c =
    if ltb_ℤ (pos 0) c.request_timeout_ms then c else record c { request_timeout_ms = pos 10000 }

-- x, err := ...; if err != nil { return out, err }
abbrev pub after {ℓ κ} : {A : Type ℓ} {B : Type κ} → Result A → (A → Result B) → Result B
after (err e) next = err e
after (ok x) next = next x

abbrev pub unless {ℓ} : {A : Type ℓ} → Option Failure → Result A → Result A
unless (some e) next = err e
unless none next = next

abbrev pub or_object : String → String
or_object raw = if nat_eq (len raw) 0 then "{}" else raw

unfoldable pub new_binding : Answers → Config → Contract → Binding
new_binding a c contract = record {
  id = a.binding_id;
  environment_id = c.environment_id;
  resource_id = c.resource_id;
  left_ref = c.left_ref;
  right_ref = c.right_ref;
  contract = contract;
  endpoints = [];
}

unfoldable pub new_spec : String → String → Answers → Config → Contract → InstanceSpec
new_spec instance_id config a c contract = record {
  instance_id = instance_id;
  environment_id = c.environment_id;
  binding_id = a.binding_id;
  resource_id = c.resource_id;
  contract = contract;
  config = config;
  scenario = c.scenario;
  scenario_version = c.scenario_version;
  data_strategy = c.data_strategy_name;
}

-- Both plugins are started, the right one first.
unfoldable pub start_both : Answers → Config → Contract → Result Binding
unfolding new_binding new_spec
start_both a c contract =
    after (a.right_start (new_spec a.right_instance (or_object c.right_config) a c contract))
      (λ ready.
        if not (ready.instance_id == a.right_instance)
        then err (invalid "right READY instance mismatch")
        else after (a.left_start (new_spec a.left_instance (or_object c.left_config) a c contract))
            (λ ready'.
              if not (ready'.instance_id == a.left_instance) || is_nil ready'.endpoints
              then err (invalid "left READY identity/endpoints invalid")
              else unless a.context
                  (ok (record (new_binding a c contract) { endpoints = ready'.endpoints }))))

-- From Describe to the end, once both plugins are there.
unfoldable pub connect : Answers → Config → Result Binding
unfolding negotiate start_both
connect a c = after a.right_descriptor (λ rd. after a.left_descriptor (λ ld.
    after (negotiate ld rd c.contract) (λ contract.
      unless (a.right_config (or_object c.right_config))
        (unless (a.left_config (or_object c.left_config)) (start_both a c contract)))))

unfoldable pub new_entry : Config → Binding → Entry
new_entry c b = record {
  binding = b;
  config = c;
  cancelled = false;
  active = true;
  run_id = "";
  listed = true;
  leaving = 0;
  cleanups = 0;
}

-- What Create leaves: the plugins that it made, those that its deferred cleanup has stopped and
-- closed again, and what it returns.
pub record Attempt : Type 0 where
  pub made : List Role
  pub cleaned : List Role
  pub result : Result Binding

abbrev pub failed_with : List Role → Failure → Attempt
failed_with made e = record { made = made; cleaned = reverse made; result = err e }

abbrev pub put : Config → Manager → Result Binding → Manager × Attempt
put c m (err e) = (m, failed_with (right ∷ left ∷ []) e)
put c m (ok b) = (
  record m { entries = insert b.id (new_entry c b) m.entries },
  record { made = right ∷ left ∷ []; cleaned = []; result = ok b },
)

abbrev pub make_left : Option Failure → Config → Manager → Result Binding → Manager × Attempt
make_left (some e) c m result = (m, failed_with (right ∷ []) e)
make_left none c m result = put c m result

abbrev pub make_right :
    Option Failure → Option Failure → Config → Manager → Result Binding → Manager × Attempt
make_right (some e) new_left c m result = (m, failed_with [] e)
make_right none new_left c m result = make_left new_left c m result

abbrev pub accept : Option Failure → Answers → Config → Manager → Manager × Attempt
accept (some e) a c m = (m, failed_with [] e)
accept none a c m = make_right a.new_right a.new_left c m (connect a c)

-- func (m *Manager) Create
unfoldable pub create : Answers → Config → Manager → Manager × Attempt
unfolding config_checks first_failure connect new_entry
create a c m = accept (first_failure (config_checks c)) a (with_timeout c) m
