-- ===== src/Queue/Capacity.antt =====
-- The bounds of the generation queue: 512 open requests, 128 open and 4096 in all for one run.
use x_mock_mcp.Prelude.{
  text_cases, none, ℕ, ◌+◌, ◌≤◌, ◌<◌, ◌≡◌, inl, inr, String, Bool, false, count_if, bit, lookup,
  insert, arith, count_if-insert_new, count_if-remove_if_le, ◌==◌,
}
use x_mock_mcp.Api.{Need}
use x_mock_mcp.Queue.Types.{Entry, Queue, new, terminal}
use x_mock_mcp.Queue.Ops.{
  enqueue, new_entry, is_full, active, own, total, is_open, in_run, is_open_in, drop,
}
use x_mock_mcp.Queue.Resolve.{Codec}
use x_mock_mcp.Queue.Follows.{Follows, is_open-Stable, in_run-Stable, is_open_in-Stable}
use x_mock_mcp.Queue.Sections.{
  report_outcome-Follows, cancel_request-Follows, cancel_run-Follows, claim-Follows, poll-Follows,
  check-validate, accept-Follows,
}
use x_mock_mcp.Queue.Steps.{
  Step, enqueues, claims, polls, accepts, reports, cancels, cancels_run, drops, Reach, start, step,
  enqueue_cases,
}

pub record IsBounded (q : Queue) : Type 0 where
  pub all_open : active q ≤ 512
  pub run_open : (run : String) → own run q ≤ 128
  pub run_total : (run : String) → total run q ≤ 4096

-- No counter of `q'` is above that of `q`.
record Shrinks (q q' : Queue) : Type 0 where
  all_open : active q' ≤ active q
  run_open : (run : String) → own run q' ≤ own run q
  run_total : (run : String) → total run q' ≤ total run q

Shrinks-IsBounded : {q q' : Queue} → Shrinks q q' → IsBounded q → IsBounded q'
Shrinks-IsBounded s b = record {
  all_open = omega (arith, s.all_open, b.all_open);
  run_open = λ run. omega (arith, s.run_open run, b.run_open run);
  run_total = λ run. omega (arith, s.run_total run, b.run_total run);
}

module _ (p : Entry → Bool) (run : String) (need : Need) (q : Queue) where
  -- One more entry adds at most one to a counter, and nothing if its test fails.
  added_le :
      lookup need.request_id q.entries ≡ none
      → count_if p (insert need.request_id (new_entry run need) q.entries)
        ≡ count_if p q.entries + bit (p (new_entry run need))
  added_le absent = count_if-insert_new p need.request_id (new_entry run need) q.entries absent

-- While there is room for `run`, one more of its entries passes no bound.
one_more :
    (run other : String) (count : String → ℕ) (cap : ℕ)
    → count run < cap
    → count other ≤ cap
    → count other + bit (run == other) ≤ cap
one_more run other count bound less le = elim (text_cases run other) [
  | inl (t, same) ↦ rw (t, ← same) (omega arith)
  | inr (t, differ) ↦ rw t (omega arith)
]

room_left :
    (run : String) (q : Queue)
    → is_full run q ≡ false
    → (active q < 512) × (own run q < 128) × (total run q < 4096)
unfolding is_full
room_left run q room = ground arith

Shrinks-same : {q q' : Queue} → q'.entries ≡ q.entries → Shrinks q q'
unfolding active own total
Shrinks-same p = record {
  all_open = rw p (omega arith);
  run_open = λ run. rw p (omega arith);
  run_total = λ run. rw p (omega arith);
}

added-IsBounded :
    (run : String) (need : Need) (q q' : Queue)
    → lookup need.request_id q.entries ≡ none
    → is_full run q ≡ false
    → q'.entries ≡ insert need.request_id (new_entry run need) q.entries
    → IsBounded q
    → IsBounded q'
unfolding active own total new_entry terminal
added-IsBounded run need q q' absent room added b = record {
  all_open =
      rw (added, added_le is_open run need q absent) (omega (arith, (room_left run q room).0));
  run_open = λ r.
      rw (added, added_le (is_open_in r) run need q absent)
        (one_more run r (λ x. own x q) 128 (room_left run q room).1 (b.run_open r));
  run_total = λ r.
      rw (added, added_le (in_run r) run need q absent)
        (one_more run r (λ x. total x q) 4096 (room_left run q room).2 (b.run_total r));
}

enqueue-IsBounded :
    (now : ℕ) (run : String) (need : Need) (q : Queue)
    → IsBounded q
    → IsBounded (enqueue now run need q).1
enqueue-IsBounded now run need q b = elim (enqueue_cases now run need q) [
  | inl unchanged ↦ Shrinks-IsBounded (Shrinks-same unchanged) b
  | inr (absent, room, added) ↦ added-IsBounded run need q _ absent room added b
]

module _ (codec : Codec) where
  Follows-Shrinks : {q q' : Queue} → Follows codec q q' → Shrinks q q'
  unfolding active own total
  Follows-Shrinks f = record {
    all_open = f.counts is_open (is_open-Stable codec);
    run_open = λ run. f.counts (is_open_in run) (is_open_in-Stable codec run);
    run_total = λ run. f.counts (in_run run) (in_run-Stable codec run);
  }

  drop-IsBounded : (run : String) (q : Queue) → IsBounded q → IsBounded (drop run q)
  unfolding drop active own total
  drop-IsBounded run q b = record {
    all_open = omega (arith, b.all_open, count_if-remove_if_le is_open (in_run run) q.entries);
    run_open = λ r.
        omega (arith, b.run_open r, count_if-remove_if_le (is_open_in r) (in_run run) q.entries);
    run_total =
        λ r. omega (arith, b.run_total r, count_if-remove_if_le (in_run r) (in_run run) q.entries);
  }

  Step-IsBounded : {q q' : Queue} → Step codec q q' → IsBounded q → IsBounded q'
  Step-IsBounded {q} (enqueues now run need) b = enqueue-IsBounded now run need q b
  Step-IsBounded {q} (claims fresh r) b =
      Shrinks-IsBounded (Follows-Shrinks (claim-Follows codec fresh r q)) b
  Step-IsBounded {q} (polls draw now elapsed o r) b =
      Shrinks-IsBounded (Follows-Shrinks (poll-Follows codec draw now elapsed o r q)) b
  Step-IsBounded {q} (accepts earlier before now r o schema passed) b =
      Shrinks-IsBounded
        (Follows-Shrinks
          (accept-Follows codec now r o q (check-validate codec before r earlier o schema passed)))
        b
  Step-IsBounded {q} (reports id raw failure) b =
      Shrinks-IsBounded (Follows-Shrinks (report_outcome-Follows codec id raw failure q)) b
  Step-IsBounded {q} (cancels id failure) b =
      Shrinks-IsBounded (Follows-Shrinks (cancel_request-Follows codec id failure q)) b
  Step-IsBounded {q} (cancels_run run failure) b =
      Shrinks-IsBounded (Follows-Shrinks (cancel_run-Follows codec run failure q)) b
  Step-IsBounded {q} (drops run) b = drop-IsBounded run q b

  -- In every reachable queue at most 512 requests are open, at most 128 of one run, and a run has
  -- at most 4096 requests, finished ones included.
  pub Reach-IsBounded : {q : Queue} → Reach codec new q → IsBounded q
  unfolding active own total count_if
  Reach-IsBounded start = record {
    all_open = omega arith;
    run_open = λ run. omega arith;
    run_total = λ run. omega arith;
  }
  Reach-IsBounded (step r st) = Step-IsBounded st (Reach-IsBounded r)
