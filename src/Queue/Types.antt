-- ===== src/Queue/Types.antt =====
-- The data of internal/generation/queue.go, and the helpers `terminal`, `signal` and `finish`.
-- Times are nanoseconds since 1970, as time.Time has them; UnixMilli drops to milliseconds.
use x_mock_mcp.Prelude.{
  ℕ, suc, ◌*◌, ◌/◌, String, Bool, true, false, Option, List, [], Assoc, if◌then◌else◌,
}
use x_mock_mcp.Prelude.Int.{ℤ}
use x_mock_mcp.Api.{Need, Failure}

-- entry.state holds one of these seven texts.
pub data State : Type 0 where
  pending leased resolving resolved cancelled expired failed : State

-- `delivery` lists what was sent on the channel of capacity 1, and `closes` counts close(done):
-- a second send would block under the lock, and a second close panics. `timer` is a live `stop`.
pub record Entry : Type 0 where
  pub run : String
  pub need : Need
  pub state : State
  pub lease : String
  pub hash : String
  pub lease_expiry : ℕ
  pub epoch : ℕ
  pub candidate : String
  pub delivery : List String
  pub closes : ℕ
  pub response : String
  pub err : Option Failure
  pub timer : Bool

pub record Owner : Type 0 where
  pub token : String
  pub epoch : ℕ

-- `signals` counts the calls of signal(), which wakes the waiting calls of Next.
pub record Queue : Type 0 where
  pub entries : Assoc Entry
  pub owners : Assoc Owner
  pub signals : ℕ

pub record NextRequest : Type 0 where
  pub run_id : String
  pub owner_token : String
  pub limit : ℤ
  pub wait_ms : ℤ
  pub takeover : Bool
  pub expected_owner_epoch : ℤ

pub record Leased : Type 0 where
  pub need : Need
  pub lease_token : String
  pub lease_expires_ms : ℕ

pub record Batch : Type 0 where
  pub owner_token : String
  pub owner_epoch : ℕ
  pub requests : List Leased

pub record ResolveRequest : Type 0 where
  pub run_id : String
  pub request_id : String
  pub owner_token : String
  pub lease_token : String
  pub candidate : String

-- Ack, with the error that Go returns beside it.
pub record Ack : Type 0 where
  pub request_id : String
  pub state : State
  pub response : String
  pub err : Option Failure

pub record Capture : Type 0 where
  pub candidate : String
  pub generation_context : String
  pub response : String

abbrev pub unix_milli : ℕ → ℕ
unix_milli ns = ns / 1000000

-- time.UnixMilli
abbrev pub from_milli : ℕ → ℕ
from_milli ms = ms * 1000000

unfoldable pub terminal : State → Bool
terminal resolved = true
terminal cancelled = true
terminal expired = true
terminal failed = true
terminal _ = false

unfoldable pub is_leased : State → Bool
is_leased leased = true
is_leased _ = false

unfoldable pub is_pending : State → Bool
is_pending pending = true
is_pending _ = false

unfoldable pub is_resolving : State → Bool
is_resolving resolving = true
is_resolving _ = false

unfoldable pub is_resolved : State → Bool
is_resolved resolved = true
is_resolved _ = false

unfoldable pub signal : Queue → Queue
signal q = record q { signals = suc q.signals }

-- What `finish` does to the entry; the call also signals.
unfoldable pub close_entry : State → String → Option Failure → Entry → Entry
unfolding terminal
close_entry state raw failure e = if terminal e.state then e else record e {
  state = state;
  response = raw;
  err = failure;
  timer = false;
  closes = suc e.closes;
}

-- New(clock)
abbrev pub new : Queue
new = record { entries = []; owners = []; signals = 0 }
