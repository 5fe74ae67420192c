-- ===== src/Queue/Ops.antt =====
-- internal/generation/queue.go: Enqueue up to its wait, ReportOutcome, CancelRequest, CancelRun,
-- Pending, Capture and Forget, each the part that runs under the queue's lock.
use x_mock_mcp.Prelude.{
  ℕ, ◌+◌, String, Bool, true, not, ◌&&◌, ◌||◌, Option, none, some, [], lookup, insert, erase,
  map_values, count_if, remove_if, ◌==◌, leb, if◌then◌else◌,
}
use x_mock_mcp.Api.{
  Need, Failure, fail, deadline_exceeded, state_conflict, queue_full, invalid_result, code_of,
  is_deadline, Result, ok, err, cancelled as cancelled_code,
}
use x_mock_mcp.Queue.Types.{
  State, pending, resolved, cancelled, expired, failed, Entry, Queue, Capture, unix_milli, terminal,
  is_resolving, is_resolved, signal, close_entry,
}

-- func (q *Queue) finish, on the entry e that the map holds under id.
unfoldable pub finish : String → State → String → Option Failure → Entry → Queue → Queue
unfolding terminal signal close_entry
finish id state raw failure e q =
    if terminal e.state
    then q
    else signal (record q { entries = insert id (close_entry state raw failure e) q.entries })

-- The entry that Enqueue makes, with its timer set.
unfoldable pub new_entry : String → Need → Entry
new_entry run need = record {
  run = run;
  need = need;
  state = pending;
  lease = "";
  hash = "";
  lease_expiry = 0;
  epoch = 0;
  candidate = "";
  delivery = [];
  closes = 0;
  response = "";
  err = none;
  timer = true;
}

abbrev pub is_open : Entry → Bool
is_open e = not (terminal e.state)

abbrev pub in_run : String → Entry → Bool
in_run run e = e.run == run

abbrev pub is_open_in : String → Entry → Bool
is_open_in run e = is_open e && in_run run e

-- The counters `active`, `own` and `total` of Enqueue.
unfoldable pub active : Queue → ℕ
active q = count_if is_open q.entries

unfoldable pub own : String → Queue → ℕ
own run q = count_if (is_open_in run) q.entries

unfoldable pub total : String → Queue → ℕ
total run q = count_if (in_run run) q.entries

unfoldable pub is_full : String → Queue → Bool
unfolding active own total
is_full run q = leb 512 (active q) || leb 128 (own run q) || leb 4096 (total run q)

-- The first guard of Enqueue.
unfoldable pub refuses : ℕ → String → Need → Bool
refuses now run need =
    run == ""
    || need.request_id == ""
    || need.continuation == ""
    || leb need.deadline_ms (unix_milli now)

-- func (q *Queue) Enqueue up to the select; `ok tt` means that the call goes on to wait.
unfoldable pub enqueue : ℕ → String → Need → Queue → Result (Unit {0}) × Queue
unfolding new_entry signal is_full refuses
enqueue now run need q =
    if refuses now run need
    then (err (fail deadline_exceeded "request needs an active run and future deadline"), q)
    else (elim (lookup need.request_id q.entries) [
      | some e ↦ (err (fail state_conflict "duplicate request ID"), q)
      | none ↦
          if is_full run q
          then (err (fail queue_full "generation queue capacity reached"), q)
          else (
            ok tt,
            signal (record q { entries = insert need.request_id (new_entry run need) q.entries }),
          )
    ])

-- func (q *Queue) ReportOutcome; the error is nil where none is given.
unfoldable pub report : String → String → Option Failure → Entry → Queue → Queue
unfolding finish is_resolving
report id raw (some failure) e q = finish id failed raw (some failure) e q
report id raw none e q = if is_resolving e.state then finish id resolved raw none e q else q

unfoldable pub report_outcome : String → String → Option Failure → Queue → Queue
unfolding report
report_outcome id raw failure q = elim (lookup id q.entries) [
  | none ↦ q
  | some e ↦ if terminal e.state then q else report id raw failure e q
]

unfoldable pub cancel_state : Failure → State
unfolding code_of is_deadline
cancel_state failure = if is_deadline (code_of failure) then expired else cancelled

-- func (q *Queue) CancelRequest
unfoldable pub cancel_request : String → Failure → Queue → Queue
unfolding finish cancel_state
cancel_request id failure q = elim (lookup id q.entries) [
  | none ↦ q
  | some e ↦ finish id (cancel_state failure) "" (some failure) e q
]

unfoldable pub cancel_in : String → Failure → Entry → Entry
unfolding close_entry
cancel_in run failure e = if in_run run e then close_entry cancelled "" (some failure) e else e

-- func (q *Queue) CancelRun: every call of finish on an open entry signals.
unfoldable pub cancel_run : String → Failure → Queue → Queue
unfolding cancel_in own
cancel_run run failure q = record q {
  entries = map_values (cancel_in run failure) q.entries;
  signals = q.signals + own run q;
}

-- func (q *Queue) Pending
unfoldable pub pending_count : String → Queue → ℕ
unfolding own
pending_count run q = own run q

-- func (q *Queue) Capture
unfoldable pub capture : String → String → Queue → Result Capture
unfolding is_resolved
capture run id q = elim (lookup id q.entries) [
  | none ↦ err (fail invalid_result "request is not a successful generated response")
  | some e ↦
      if not (e.run == run) || not (is_resolved e.state)
      then err (fail invalid_result "request is not a successful generated response")
      else ok (record {
        candidate = e.candidate;
        generation_context = e.need.context;
        response = e.response;
      })
]

-- The second section of Forget, under the lock again.
unfoldable pub drop : String → Queue → Queue
drop run q = record q { entries = remove_if (in_run run) q.entries; owners = erase run q.owners }

-- func (q *Queue) Forget, when nothing comes in between its two sections.
unfoldable pub forget : String → Queue → Queue
unfolding cancel_run drop
forget run q = drop run (cancel_run run (fail cancelled_code "run cleaned up") q)
