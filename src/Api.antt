-- ===== src/Api.antt =====
-- pluginapi/errors.go and the records of pluginapi/strategy.go that the components exchange.
-- A json.RawMessage is a text here; the components that look inside it say how.
pub mod Codes
pub use Codes.*
unfoldable pub use Codes.{code_of, is_deadline}
use x_mock_mcp.Prelude.{ℕ, String}

-- Need of pluginapi/strategy.go. The deadline is in milliseconds since 1970.
pub record Need : Type 0 where
  pub request_id : String
  pub continuation : String
  pub state_version : ℕ
  pub deadline_ms : ℕ
  pub schema : String
  pub context : String
