-- ===== src/Queue/Claim.antt =====
-- internal/generation/queue.go: Next. `claim` is the part up to the loop, `poll` one turn of the
-- loop under the lock; between two turns the call waits and other operations run.
-- binding.ID() is not modelled: the identifiers that it returns are arguments.
use Prim.Native.Nat.{min}
use x_mock_mcp.Prelude.{
  ℕ, ◌+◌, String, Bool, true, false, not, ◌&&◌, ◌||◌, Option, none, some, List, [], ◌∷◌, ◌++◌,
  Assoc, lookup, insert, map_values, length, ◌==◌, leb, nat_eq, if◌then◌else◌,
}
use x_mock_mcp.Prelude.Text.{sort_strings}
use x_mock_mcp.Prelude.Int.{ℤ, pos, ltb_ℤ, eqb_ℤ}
use x_mock_mcp.Api.{
  Failure, fail, deadline_exceeded, state_conflict, owner_conflict, invalid, Result, ok, err,
}
use x_mock_mcp.Queue.Types.{
  pending, leased, expired, Entry, Owner, Queue, NextRequest, Leased, Batch, unix_milli, from_milli,
  terminal, is_leased, is_pending, is_resolving,
}
use x_mock_mcp.Queue.Ops.{finish, in_run}

-- The zero owner stands for a key that the map lacks.
abbrev pub no_owner : Owner
no_owner = record { token = ""; epoch = 0 }

unfoldable pub owner_of : String → Queue → Owner
owner_of run q = elim (lookup run q.owners) [ none ↦ no_owner | some o ↦ o ]

abbrev pub same_owner : Owner → Owner → Bool
same_owner a b = a.token == b.token && nat_eq a.epoch b.epoch

-- The first guard of Next.
unfoldable pub next_guard : NextRequest → Bool
next_guard r = not (
    r.run_id == ""
    || ltb_ℤ r.limit (pos 1)
    || ltb_ℤ (pos 8) r.limit
    || ltb_ℤ r.wait_ms (pos 0)
    || ltb_ℤ (pos 2000) r.wait_ms)

-- An in-flight commit of the run.
unfoldable pub has_resolving : String → Assoc Entry → Bool
unfolding is_resolving
has_resolving run [] = false
has_resolving run ((id, e) ∷ m) = (in_run run e && is_resolving e.state) || has_resolving run m

-- A takeover gives leased entries back.
unfoldable pub release_in : String → Entry → Entry
unfolding is_leased
release_in run e =
    if in_run run e && is_leased e.state then record e { state = pending; lease = "" } else e

unfoldable pub own_run : String → Owner → Queue → Result Owner × Queue
own_run run o q = (ok o, record q { owners = insert run o q.owners })

unfoldable pub take_over : String → NextRequest → Owner → Queue → Result Owner × Queue
unfolding has_resolving release_in own_run
take_over fresh r o q =
    if not (eqb_ℤ (pos o.epoch) r.expected_owner_epoch)
    then (err (fail state_conflict "owner epoch changed"), q)
    else if has_resolving r.run_id q.entries
    then (err (fail state_conflict "cannot take over an in-flight commit"), q)
    else own_run r.run_id (record { token = fresh; epoch = o.epoch + 1 })
        (record q { entries = map_values (release_in r.run_id) q.entries })

unfoldable pub claim_owner :
    String → NextRequest → Bool → Option Owner → Queue → Result Owner × Queue
unfolding take_over
claim_owner fresh r true none q = (err (fail state_conflict "owner epoch changed"), q)
claim_owner fresh r true (some o) q = take_over fresh r o q
claim_owner fresh r false none q =
    if not (r.owner_token == "")
    then (err (fail owner_conflict "unknown owner token"), q)
    else own_run r.run_id (record { token = fresh; epoch = 1 }) q
claim_owner fresh r false (some o) q =
    if not (r.owner_token == o.token)
    then (err (fail owner_conflict "run already has a generation owner"), q)
    else (ok o, q)

unfoldable pub claim : String → NextRequest → Queue → Result Owner × Queue
unfolding next_guard claim_owner
claim fresh r q =
    if not (next_guard r)
    then (err (invalid "run, limit 1..8 and wait_ms 0..2000 required"), q)
    else claim_owner fresh r r.takeover (lookup r.run_id q.owners) q

-- The identifiers of the run's entries, in the order of sort.Strings.
unfoldable pub run_ids : String → Assoc Entry → List String
run_ids run [] = []
run_ids run ((id, e) ∷ m) = let rest = run_ids run m in if in_run run e then id ∷ rest else rest

-- A lease that has run out is given back.
unfoldable pub refresh : ℕ → Entry → Entry
unfolding is_leased
refresh now e =
    if is_leased e.state && leb e.lease_expiry now
    then record e { state = pending; lease = "" }
    else e

-- 15 seconds, and not past the deadline.
abbrev pub expiry_of : ℕ → Entry → ℕ
expiry_of now e = min (now + 15000000000) (from_milli e.need.deadline_ms)

unfoldable pub grant : ℕ → Owner → String → Entry → Entry
grant now o lease e = record e {
  state = leased;
  lease = lease;
  epoch = o.epoch;
  lease_expiry = expiry_of now e;
}

unfoldable pub leased_of : ℕ → String → Entry → Leased
leased_of now lease e = record {
  need = e.need;
  lease_token = lease;
  lease_expires_ms = unix_milli (expiry_of now e);
}

-- The body of the loop over ids. The lease drawn for the n-th request of the batch is `draw n`.
module _ (now : ℕ) (o : Owner) (limit : ℤ) (draw : ℕ → String) where
  unfoldable pub visit_open : String → Entry → List Leased → Queue → List Leased × Queue
  unfolding is_pending grant leased_of
  visit_open id e out q =
      if is_pending e.state && ltb_ℤ (pos (length out)) limit
      then (
        out ++ leased_of now (draw (length out)) e ∷ [],
        record q { entries = insert id (grant now o (draw (length out)) e) q.entries },
      )
      else (out, record q { entries = insert id e q.entries })

  unfoldable pub visit_entry : String → Entry → List Leased → Queue → List Leased × Queue
  unfolding visit_open refresh finish
  visit_entry id e out q =
      if terminal e.state
      then (out, q)
      else if leb (from_milli e.need.deadline_ms) now
      then (
        out,
        finish id expired "" (some (fail deadline_exceeded "generation deadline elapsed")) e q,
      )
      else visit_open id (refresh now e) out q

  unfoldable pub visit : String → List Leased → Queue → List Leased × Queue
  unfolding visit_entry
  visit id out q = elim (lookup id q.entries) [ none ↦ (out, q) | some e ↦ visit_entry id e out q ]

  unfoldable pub scan : List String → List Leased → Queue → List Leased × Queue
  unfolding visit
  scan [] out q = (out, q)
  scan (id ∷ ids) out q = let (out', q') = visit id out q in scan ids out' q'

pub data Poll : Type 0 where
  conflict : Failure → Poll
  ready : Batch → Poll
  wait : Poll

unfoldable pub is_nil : List Leased → Bool
is_nil [] = true
is_nil (x ∷ xs) = false

-- One turn of the loop of Next; `elapsed` says whether the wall deadline has passed.
unfoldable pub poll : (ℕ → String) → ℕ → Bool → Owner → NextRequest → Queue → Poll × Queue
unfolding owner_of scan run_ids sort_strings is_nil
poll draw now elapsed o r q =
    if not (same_owner (owner_of r.run_id q) o)
    then (conflict (fail owner_conflict "generation owner changed"), q)
    else (let (out, q') =
          scan now o r.limit draw (sort_strings (run_ids r.run_id q.entries)) [] q in
        if not (is_nil out) || eqb_ℤ r.wait_ms (pos 0) || elapsed
        then (ready (record { owner_token = o.token; owner_epoch = o.epoch; requests = out }), q')
        else (wait, q'))
