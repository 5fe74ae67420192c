-- ===== src/Binding/Dispatch.antt =====
-- dispatch of internal/binding/manager.go: one request of the application, through the right plugin
-- and, where that lacks data, through the data strategy.
use x_mock_mcp.Prelude.Int.{pos_part, ℤ}
use x_mock_mcp.Prelude.{Option, String, if◌then◌else◌, ltb, none, not, some, ℕ, ◌*◌, ◌+◌, ◌==◌}
use x_mock_mcp.Api.{
  Failure, Need, Result, err, fail, invalid, ok, state_conflict, unmatched_request,
}
use x_mock_mcp.Binding.Manager.{Config, Entry, Manager, after, unless}
use x_mock_mcp.Binding.Upkeep.{find_listed}
use x_mock_mcp.Plugin.Descriptor.{Formats}
use x_mock_mcp.Plugin.Decision.{
  Decision, Resolution, check_decision, completed, unsupported, needs_data, foreign_kind,
}
use x_mock_mcp.Queue.Types.{unix_milli}

-- Request of pluginapi/strategy.go
pub record Request : Type 0 where
  pub id : String
  pub environment_id : String
  pub run_id : String
  pub binding_id : String
  pub resource_id : String
  pub connection_id : String
  pub contract_id : String
  pub contract_version : ℤ
  pub scenario_version : ℤ
  pub deadline_ms : ℕ
  pub started_ms : ℕ
  pub operation : String
  pub payload : String

-- The right plugin, as dispatch calls it.
pub record Right : Type 0 where
  pub execute : Request → Result Decision
  pub complete : Resolution → Result String

-- The identifier that ID() draws, the times of the two calls of time.Now, and the context: its
-- deadline, and its error once the strategy has answered.
pub record Moment : Type 0 where
  pub id : String
  pub started : ℕ
  pub now : ℕ
  pub deadline : Option ℕ
  pub late : Option Failure

-- The deadline of the request, in nanoseconds.
unfoldable pub deadline_of : Moment → Config → ℕ
deadline_of t c =
    let own = t.now + pos_part c.request_timeout_ms * 1000000 in
    elim t.deadline [ none ↦ own | some d ↦ if ltb d own then d else own ]

-- The request as the right plugin sees it: what it says of its binding is replaced.
unfoldable pub stamped : Moment → Entry → Request → Request
unfolding deadline_of
stamped t e q = record {
  id = t.id;
  environment_id = e.binding.environment_id;
  run_id = e.run_id;
  binding_id = e.binding.id;
  resource_id = e.binding.resource_id;
  connection_id = q.connection_id;
  contract_id = e.binding.contract.id;
  contract_version = e.binding.contract.version;
  scenario_version = e.config.scenario_version;
  deadline_ms = unix_milli (deadline_of t e.config);
  started_ms = unix_milli t.started;
  operation = q.operation;
  payload = q.payload;
}

-- The need with the deadline that it may have.
unfoldable pub capped : ℕ → Need → Need
capped deadline n = if ltb deadline n.deadline_ms then record n { deadline_ms = deadline } else n

-- With the candidate, the right plugin completes the request, unless the context is over.
unfoldable pub deliver : Right → Option Failure → String → Need → Result String → Result String
deliver right_ late id n candidate = after candidate (λ c. unless late (
    right_.complete (record {
      request_id = id;
      continuation = n.continuation;
      state_version = n.state_version;
      payload = c;
    })))

unfoldable pub fill :
    Right → Option (Need → Result String) → Moment → Request → Need → Result String
unfolding capped deliver
fill right_ strategy t q n =
    if not (n.request_id == q.id)
    then err (fail state_conflict "right returned a different request identity")
    else (elim strategy [
      | none ↦ err (fail unmatched_request "no data strategy configured")
      | some resolve ↦ let n' = capped q.deadline_ms n in deliver right_ t.late q.id n' (resolve n')
    ])

-- The switch on a decision that passed its checks; a missing pointer is read there nowhere.
unfoldable pub decide :
    Right → Option (Need → Result String) → Moment → Request → Decision → Result String
unfolding fill
decide right_ strategy t q d = elim d.kind [
  | completed ↦ ok d.payload
  | unsupported ↦ (elim d.error [ none ↦ err (invalid "nil error") | some e ↦ err e ])
  | needs_data ↦ (elim d.need [
    | none ↦ err (invalid "nil need")
    | some n ↦ fill right_ strategy t q n
  ])
  | foreign_kind text ↦ err (invalid "unreachable decision")
]

-- func (m *Manager) dispatch; its deferred observer is given `stamped` and this result.
unfoldable pub dispatch :
    Formats → Right → Option (Need → Result String) → Moment → Entry → Request → Result String
unfolding stamped check_decision decide
dispatch formats right_ strategy t e q =
    if not e.active
    then err (fail state_conflict "binding not ready")
    else after (right_.execute (stamped t e q))
        (λ d. unless (check_decision formats d) (decide right_ strategy t (stamped t e q) d))

-- func (m *Manager) Dispatch
unfoldable pub dispatch_to :
    Formats → Right → Option (Need → Result String) → Moment → Manager → Request → Result String
unfolding find_listed dispatch
dispatch_to formats right_ strategy t m q = elim (find_listed q.binding_id m) [
  | none ↦ err (fail state_conflict "binding unavailable")
  | some e ↦ dispatch formats right_ strategy t e q
]
