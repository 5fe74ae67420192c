-- ===== src/Queue/Tests.antt =====
-- One run of internal/generation/queue.go: a request is enqueued, claimed, leased and accepted.
use x_mock_mcp.Prelude.Int.{pos, ◌≤ℤ◌}
use x_mock_mcp.Queue.Claim.{next_guard, claim, no_owner, owner_of, poll}
use x_mock_mcp.Queue.Removal.{cancel_run_lem, forget_lem}
use x_mock_mcp.Queue.Ops.{
  drop, cancel_request, cancel_run, enqueue, forget, in_run, new_entry, pending_count,
  report_outcome,
}
use x_mock_mcp.Queue.Fencing.{HasTaken, accept_ok, takeover_fences}
use x_mock_mcp.Queue.Repeat.{Stays, more, resolve_again, stays}
use x_mock_mcp.Queue.Capacity.{IsBounded, Reach-IsBounded}
use x_mock_mcp.Queue.Leases.{InTime, poll_batch}
use x_mock_mcp.Queue.Soundness.{AllSound, Reach-AllSound, Step-accepted, Step-final}
use x_mock_mcp.Prelude.{
  insert, count_if, All, String, [], arith, eq_iff, false, keep_if, length, lookup, none, refl,
  some, true, ◌<◌, ◌==◌, ◌∷◌, ◌≡◌, ◌≢◌, ◌≤◌, ◌⊎◌,
}
use x_mock_mcp.Api.{Need, Failure, fail, owner_conflict, ok, cancelled as cancelled_code}
use x_mock_mcp.Queue.Types.{
  terminal, resolving, resolved, leased, Entry, Owner, Queue, NextRequest, Batch, ResolveRequest,
  new, unix_milli,
}
use x_mock_mcp.Queue.Resolve.{Codec, accept, check, digest, resolve, reject, validate}
use x_mock_mcp.Queue.Steps.{Reach, start, step, enqueues, claims, polls, accepts, reports, cancels}

abbrev sample_codec : Codec
sample_codec = record { normalize = λ v. some v; sum = λ v. v; conforms = λ schema v. none }

abbrev sample_need : Need
sample_need = record {
  request_id = "a";
  continuation = "c";
  state_version = 1;
  deadline_ms = 100000;
  schema = "{}";
  context = "x";
}

abbrev gone : Failure
gone = fail cancelled_code "run cleaned up"

abbrev queued : Queue
queued = (enqueue 0 "r" sample_need new).1

abbrev first_claim : NextRequest
first_claim = record {
  run_id = "r";
  owner_token = "";
  limit = pos 8;
  wait_ms = pos 0;
  takeover = false;
  expected_owner_epoch = pos 0;
}

abbrev second_claim : NextRequest
second_claim = record first_claim { takeover = true; expected_owner_epoch = pos 1 }

abbrev sample_owner : Owner
sample_owner = record { token = "T"; epoch = 1 }

abbrev next_owner : Owner
next_owner = record { token = "U"; epoch = 2 }

abbrev owned : Queue
owned = (claim "T" first_claim queued).1

abbrev leased_queue : Queue
leased_queue = (poll (λ n. "L") 0 true sample_owner first_claim owned).1

abbrev answer : ResolveRequest
answer = record {
  run_id = "r";
  request_id = "a";
  owner_token = "T";
  lease_token = "L";
  candidate = "{1}";
}

abbrev taken : Queue
taken = (accept sample_codec 1 answer sample_owner leased_queue).1

abbrev taken_entry : Entry
taken_entry = record (new_entry "r" sample_need) {
  state = resolving;
  lease = "L";
  hash = "{1}";
  lease_expiry = 15000000000;
  epoch = 1;
  candidate = "{1}";
  delivery = "{1}" ∷ [];
}

abbrev done_queue : Queue
done_queue = report_outcome "a" "{2}" none taken

abbrev done_entry : Entry
done_entry = record taken_entry { state = resolved; response = "{2}"; closes = 1; timer = false }

abbrev sample_batch : Batch
sample_batch = record {
  owner_token = "T";
  owner_epoch = 1;
  requests = (record { need = sample_need; lease_token = "L"; lease_expires_ms = 15000 }) ∷ [];
}

Reach-leased : Reach sample_codec new leased_queue
Reach-leased =
    step (step (step start (enqueues 0 "r" sample_need)) (claims "T" first_claim))
      (polls (λ n. "L") 0 true sample_owner first_claim)

passed : check sample_codec 0 answer leased_queue ≡ validate sample_owner "{}"
unfolding check lookup poll claim enqueue count_if insert
passed = refl

Reach-taken : Reach sample_codec new taken
Reach-taken = step Reach-leased (accepts leased_queue 0 1 answer sample_owner "{}" passed)

found_taken : lookup "a" taken.entries ≡ some taken_entry
unfolding lookup accept poll claim enqueue count_if insert
found_taken = refl

found_done : lookup "a" done_queue.entries ≡ some done_entry
unfolding lookup report_outcome accept poll claim enqueue count_if insert
found_done = refl

Reach-AllSound_example : AllSound sample_codec taken
Reach-AllSound_example = Reach-AllSound sample_codec Reach-taken

accept_ok_example :
    (e : Entry) × (e' : Entry) × (lookup "a" leased_queue.entries ≡ some e)
    × (e.state ≡ leased)
    × (e.lease ≡ "L")
    × (1 < e.lease_expiry)
    × (unix_milli 1 < e.need.deadline_ms)
    × (owner_of "r" leased_queue ≡ sample_owner)
    × (lookup "a" (accept sample_codec 1 answer sample_owner leased_queue).1.entries ≡ some e')
    × HasTaken sample_codec "{1}" e e'
    × ((k : String)
        → "a" ≢ k
        → lookup k (accept sample_codec 1 answer sample_owner leased_queue).1.entries
          ≡ lookup k leased_queue.entries)
unfolding accept lookup poll claim enqueue count_if insert
accept_ok_example = accept_ok sample_codec 1 answer sample_owner leased_queue refl

takeover_fences_example :
    check sample_codec 1 answer (claim "U" second_claim leased_queue).1
    ≡ reject (fail owner_conflict "request or owner mismatch")
unfolding claim lookup poll enqueue count_if insert
takeover_fences_example =
    takeover_fences sample_codec "U" second_claim next_owner leased_queue 1 answer refl refl refl
      (λ p. absurd (ground (arith, (eq_iff "T" "U").1 p)))

Reach-IsBounded_example : IsBounded taken
Reach-IsBounded_example = Reach-IsBounded sample_codec Reach-taken

Step-final_example :
    (cancel_request "a" gone done_queue ≡ drop "r" done_queue)
    ⊎ (lookup "a" (cancel_request "a" gone done_queue).entries ≡ some done_entry)
unfolding terminal report_outcome new_entry
Step-final_example = Step-final sample_codec "a" done_entry (cancels "a" gone) found_done refl

Step-accepted_example :
    (done_entry.hash ≡ taken_entry.hash) × (done_entry.candidate ≡ taken_entry.candidate)
Step-accepted_example =
    Step-accepted sample_codec "a" taken_entry done_entry Reach-taken (reports "a" "{2}" none)
      found_taken found_done (λ p. absurd (ground (arith, (eq_iff "{1}" "").1 p)))

reported : Stays sample_codec answer (resolve sample_codec 0 1 answer leased_queue).1 done_queue
unfolding resolve report_outcome lookup poll claim enqueue count_if insert owner_of
reported = more done_entry stays (reports "a" "{2}" none) found_done refl

resolve_again_example :
    (resolve sample_codec 2 3 answer done_queue ≡ (ok tt, done_queue))
    × ((e : Entry) × (lookup "a" done_queue.entries ≡ some e)
        × (e.hash ≡ digest sample_codec "{1}"))
unfolding resolve lookup poll claim enqueue count_if insert
resolve_again_example = resolve_again sample_codec 0 1 2 3 answer Reach-leased refl reported

poll_batch_example :
    (length sample_batch.requests ≤ 8)
    × (pos (length sample_batch.requests) ≤ℤ pos 8)
    × All (InTime 0) sample_batch.requests
unfolding next_guard poll lookup claim enqueue count_if insert
poll_batch_example =
    poll_batch (λ n. "L") 0 true sample_owner first_claim owned sample_batch refl refl

cancel_run_lem_example :
    (pending_count "r" (cancel_run "r" gone leased_queue) ≡ 0)
    × ((k : String) (e : Entry)
        → lookup k leased_queue.entries ≡ some e
        → (e.run == "r") ≡ false
        → lookup k (cancel_run "r" gone leased_queue).entries ≡ some e)
cancel_run_lem_example = cancel_run_lem "r" gone leased_queue

forget_lem_example :
    ((k : String)
      → lookup k (forget "r" taken).entries ≡ keep_if (in_run "r") (lookup k taken.entries))
    × (owner_of "r" (forget "r" taken) ≡ no_owner)
    × ((run : String) → ("r" == run) ≡ false → owner_of run (forget "r" taken) ≡ owner_of run taken)
forget_lem_example = forget_lem "r" taken
