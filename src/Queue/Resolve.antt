-- ===== src/Queue/Resolve.antt =====
-- internal/generation/queue.go: digest, Resolve and wait. `check` is the first critical section of
-- Resolve, `accept` the second; the schema check between them runs without the lock.
-- The JSON library, SHA-256 and the JSON-schema library are not under src: they are parameters.
use x_mock_mcp.Prelude.{
  ℕ, String, Bool, not, ◌||◌, Option, none, some, [], ◌∷◌, ◌++◌, lookup, insert, ◌==◌, leb, nat_eq,
  if◌then◌else◌,
}
use x_mock_mcp.Api.{
  Failure, fail, state_conflict, owner_conflict, invalid_result, invalid, Result, ok, err,
}
use x_mock_mcp.Queue.Types.{
  resolving, Entry, Owner, Queue, ResolveRequest, Ack, unix_milli, is_leased, signal,
}
use x_mock_mcp.Queue.Claim.{owner_of, same_owner}

-- `normalize` decodes a document and encodes it again, where it is valid JSON; `sum` is the
-- hexadecimal SHA-256; `conforms` is validation.Check, `some` an error's text.
pub record Codec : Type 0 where
  pub normalize : String → Option String
  pub sum : String → String
  pub conforms : String → String → Option String

-- What the first section decides.
pub data Checked : Type 0 where
  reject : Failure → Checked
  await : Checked
  validate : Owner → String → Checked

module _ (codec : Codec) where
  -- func digest
  unfoldable pub digest : String → String
  digest raw = elim (codec.normalize raw) [ none ↦ "" | some v ↦ codec.sum v ]

  -- The test of the lease, the same in both sections.
  unfoldable pub lease_lapsed : ℕ → ResolveRequest → Entry → Bool
  unfolding is_leased
  lease_lapsed now r e =
      not (is_leased e.state)
      || not (e.lease == r.lease_token)
      || leb e.lease_expiry now
      || leb e.need.deadline_ms (unix_milli now)

  unfoldable pub check_entry : ℕ → ResolveRequest → Owner → Entry → Checked
  unfolding digest lease_lapsed
  check_entry now r o e =
      if not (e.run == r.run_id) || o.token == "" || not (o.token == r.owner_token)
      then reject (fail owner_conflict "request or owner mismatch")
      else if digest r.candidate == ""
      then reject (invalid "invalid candidate JSON")
      else if not (e.hash == "")
      then (if not (e.hash == digest r.candidate)
            || not (nat_eq e.epoch o.epoch)
            || not (e.lease == r.lease_token)
          then reject (fail state_conflict "result or lease conflicts with accepted candidate")
          else await)
      else if lease_lapsed now r e || not (nat_eq e.epoch o.epoch)
      then reject (fail state_conflict "lease expired, cancelled or does not match")
      else validate o e.need.schema

  unfoldable pub check : ℕ → ResolveRequest → Queue → Checked
  unfolding check_entry owner_of
  check now r q = elim (lookup r.request_id q.entries) [
    | none ↦ reject (fail owner_conflict "request or owner mismatch")
    | some e ↦ check_entry now r (owner_of r.run_id q) e
  ]

  unfoldable pub accepted : ResolveRequest → Entry → Entry
  unfolding digest
  accepted r e = record e {
    hash = digest r.candidate;
    candidate = r.candidate;
    state = resolving;
    delivery = e.delivery ++ r.candidate ∷ [];
  }

  -- The second section; `o` is the owner that the first section read. An entry that was
  -- forgotten meanwhile is cancelled, which is a changed lease.
  unfoldable pub accept : ℕ → ResolveRequest → Owner → Queue → Result (Unit {0}) × Queue
  unfolding accepted lease_lapsed owner_of signal
  accept now r o q = elim (lookup r.request_id q.entries) [
    | none ↦ (err (fail state_conflict "lease changed during validation"), q)
    | some e ↦
        if lease_lapsed now r e || not (same_owner (owner_of r.run_id q) o)
        then (err (fail state_conflict "lease changed during validation"), q)
        else (ok tt, signal (record q { entries = insert r.request_id (accepted r e) q.entries }))
  ]

  -- Resolve after its first section: the schema check, and the second section.
  unfoldable pub resolve_on : Checked → ℕ → ResolveRequest → Queue → Result (Unit {0}) × Queue
  unfolding accept
  resolve_on (reject failure) later r q = (err failure, q)
  resolve_on await later r q = (ok tt, q)
  resolve_on (validate o schema) later r q = elim (codec.conforms schema r.candidate) [
    | some message ↦ (err (fail invalid_result message), q)
    | none ↦ accept later r o q
  ]

  -- Resolve up to its wait, with nothing between its two sections.
  unfoldable pub resolve : ℕ → ℕ → ResolveRequest → Queue → Result (Unit {0}) × Queue
  unfolding check resolve_on
  resolve now later r q = resolve_on (check now r q) later r q

-- func (q *Queue) wait, once the entry is finished.
unfoldable pub ack_of : Entry → Ack
ack_of e = record {
  request_id = e.need.request_id;
  state = e.state;
  response = e.response;
  err = e.err;
}
