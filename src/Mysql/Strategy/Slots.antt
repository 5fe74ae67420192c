-- ===== src/Mysql/Strategy/Slots.antt =====
-- Execute of plugins/right/mysql-mock/plugin.go, for a statement that was matched: fixtures, and the
-- loop over the generation slots of a SELECT. A turn of the loop that has to wait for another
-- request ends in `waits`, and goes on when that request is over.
use x_mock_mcp.Mysql.Schema.{Plan, equal_value}
use x_mock_mcp.Mysql.Value.{Value}
use x_mock_mcp.Api.{deadline_exceeded, fail, queue_full, unmatched_request}
use x_mock_mcp.Mysql.Strategy.Plugin.{
  Fault, Continuation, FixtureCase, Plugin, Reply, Slot, Statement, end_with, faulted, given,
  is_over, of_core, same_mode, strict_replay,
}
use x_mock_mcp.Prelude.{
  true, false, insert, Bool, List, Option, String, [], erase, if◌then◌else◌, leb, length, lookup,
  none, not, some, ℕ, ◌&&◌, ◌==◌, ◌||◌, ◌∷◌,
}

-- How a call of Execute goes on: with the next slot, by waiting for the continuation of a token,
-- by asking for data under a token, or with an error.
pub data Visit : Type 0 where
  goes_on : Visit
  waits : String → Visit
  asks : String → Visit
  fails : Fault → Visit

-- Who asks: its request, its statement and its parameters, and the token it may use.
pub record Caller : Type 0 where
  pub request_id : String
  pub connection_id : String
  pub statement : Statement
  pub plan : Plan
  pub params : List Value
  pub deadline_ms : ℕ
  pub token : String

unfoldable pub new_continuation : Caller → Slot → Continuation
new_continuation c slot = record {
  request_id = c.request_id;
  connection_id = c.connection_id;
  statement = c.statement;
  plan = c.plan;
  params = c.params;
  slot = slot;
  deadline = c.deadline_ms;
  closes = 0;
  candidate_digest = "";
  reply = none;
}

-- need.err == nil
abbrev pub has_reply : Option Reply → Bool
has_reply (some (given a)) = true
has_reply _ = false

-- A slot without a continuation: it is asked for, if that is allowed and there is room.
unfoldable pub ask : Caller → Slot → Plugin → Plugin × Visit
unfolding new_continuation
ask c slot p =
    if same_mode p.mode strict_replay
    then (p, fails (of_core (fail unmatched_request "unmaterialized slot")))
    else if leb 128 (length p.pending)
    then (p, fails (of_core (fail queue_full "too many generation continuations")))
    else (
      record p {
        pending = insert c.token (new_continuation c slot) p.pending;
        slots = insert slot.id c.token p.slots;
      },
      asks c.token,
    )

abbrev pub forget_slot : Slot → Plugin → Plugin
forget_slot slot p = record p { slots = erase slot.id p.slots }

-- An open continuation: it is waited for, or its time is over.
unfoldable pub meet : ℕ → Caller → Slot → String → Continuation → Plugin → Plugin × Visit
unfolding end_with ask
meet now_ms c slot token n p =
    if leb n.deadline now_ms
    then ask c slot (
        forget_slot slot (record p {
          pending =
              insert token
                (end_with "" (faulted (of_core (fail deadline_exceeded "reference fill expired")))
                  n)
                p.pending;
        }))
    else (p, waits token)

-- The continuation that `slots` names.
unfoldable pub find_continuation : String → Plugin → Option (String × Continuation)
find_continuation slot_id p = elim (lookup slot_id p.slots) [
  | none ↦ none
  | some token ↦ (elim (lookup token p.pending) [ none ↦ none | some n ↦ some (token, n) ])
]

-- One turn of the loop over the slots, under p.mu.
unfoldable pub visit : ℕ → Caller → String → Slot → Plugin → Plugin × Visit
unfolding find_continuation is_over ask meet
visit now_ms c table slot p =
    if not (slot.table == table) || slot.materialized
    then (p, goes_on)
    else elim (find_continuation slot.id p) [
      | none ↦ ask c slot p
      | some (token, n) ↦
          if is_over n
          then (if has_reply n.reply then (p, goes_on) else ask c slot (forget_slot slot p))
          else meet now_ms c slot token n p
    ]

-- What a call that waited does when the continuation is over.
unfoldable pub after_wait : Option Reply → Visit
after_wait (some (faulted f)) = fails f
after_wait _ = goes_on

abbrev pub is_next : Visit → Bool
is_next goes_on = true
is_next _ = false

-- The loop, until a turn does not go on: with the slots that are left then.
unfoldable pub visit_all : ℕ → Caller → String → List Slot → Plugin → Plugin × Visit × List Slot
unfolding visit
visit_all now_ms c table [] p = (p, goes_on, [])
visit_all now_ms c table (slot ∷ slots) p =
    let (p', v) = visit now_ms c table slot p in
    elim (is_next v) [ true ↦ visit_all now_ms c table slots p' | false ↦ (p', v, slots) ]

abbrev pub same_values : List Value → List Value → Bool
same_values [] [] = true
same_values (v ∷ vs) (w ∷ ws) = equal_value v w && same_values vs ws
same_values _ _ = false

-- The loop over the cases of a fixture.
unfoldable pub find_case : List Value → List FixtureCase → Option FixtureCase
unfolding equal_value
find_case params [] = none
find_case params (c ∷ cs) = if same_values params c.params then some c else find_case params cs
