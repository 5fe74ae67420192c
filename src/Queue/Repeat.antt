-- ===== src/Queue/Repeat.antt =====
-- Resolve of internal/generation/queue.go, called again with the same request.
use x_mock_mcp.Prelude.{
  Option-cases, lookup_cases, ◌≢◌, ℕ, ◌≡◌, refl, some, lookup, arith, sym, ◌∙◌, inl, inr, eq_iff,
}
use x_mock_mcp.Api.{ok}
use x_mock_mcp.Queue.Types.{Entry, Owner, Queue, ResolveRequest, new}
use x_mock_mcp.Queue.Claim.{owner_of}
use x_mock_mcp.Queue.Resolve.{
  Checked, Codec, await, check, check_entry, digest, reject, resolve, resolve_on, validate,
}
use x_mock_mcp.Queue.Life.{IsSound, Life, Life-Same, Life-hash, Life-lease}
use x_mock_mcp.Queue.Steps.{Step, Reach, step, accepts, Step-Link}
use x_mock_mcp.Queue.Soundness.{AllSound, Reach-AllSound, Step-AllSound}
use x_mock_mcp.Queue.Again.{check_found, resolve_on_again}

module _ (codec : Codec) where
  -- Later sections, in which the request is not forgotten and its run has the same owner.
  pub data Stays (r : ResolveRequest) (q : Queue) : Queue → Type 0 where
    stays : Stays r q q
    more :
        {q' q'' : Queue} (e : Entry)
        → Stays r q q'
        → Step codec q' q''
        → lookup r.request_id q''.entries ≡ some e
        → owner_of r.run_id q'' ≡ owner_of r.run_id q'
        → Stays r q q''

  -- A call that waits would wait for an entry that differs only in what a call does not compare.
  waits_same :
      (t t' : ℕ) (r : ResolveRequest) (o : Owner) (e e' : Entry)
      → check_entry codec t r o e ≡ await
      → e'.run ≡ e.run
      → e'.hash ≡ e.hash
      → e'.lease ≡ e.lease
      → e'.epoch ≡ e.epoch
      → check_entry codec t' r o e' ≡ await
  unfolding check_entry
  waits_same t t' r o e e' h run hash lease epoch = rw (run, hash, lease, epoch) (ground (arith, h))

  -- It is the accepted candidate that it names.
  await-facts :
      (t : ℕ) (r : ResolveRequest) (o : Owner) (e : Entry)
      → check_entry codec t r o e ≡ await
      → (e.hash ≢ "") × (e.hash ≡ digest codec r.candidate)
  unfolding check_entry
  await-facts t r o e h = (
    λ p. ground (arith, h, (eq_iff e.hash "").1 p),
    ground (arith, h, eq_iff e.hash (digest codec r.candidate)),
  )

  await_found :
      (t : ℕ) (r : ResolveRequest) (q : Queue)
      → check codec t r q ≡ await
      → (e : Entry) × (lookup r.request_id q.entries ≡ some e)
  unfolding check
  await_found t r q h = elim (lookup_cases r.request_id q.entries) [
    | inl absent ↦ absurd (cc (rw (absent, check) at h))
    | inr (e, found) ↦ (e, found)
  ]

  await-Step :
      (t : ℕ) (r : ResolveRequest) {q q' : Queue} (e' : Entry)
      → AllSound codec q
      → Step codec q q'
      → lookup r.request_id q'.entries ≡ some e'
      → owner_of r.run_id q' ≡ owner_of r.run_id q
      → check codec t r q ≡ await
      → check codec t r q' ≡ await
  await-Step t r {q} {q'} e' sound st found' same h =
      let (e, found) = await_found t r q h in
      let waits : check_entry codec t r (owner_of r.run_id q) e ≡ await =
        sym (check_found codec t r q e found) ∙ h in
      let n : e.hash ≢ "" = (await-facts t r (owner_of r.run_id q) e waits).0 in
      let l : Life codec e e' = rw (found, found') at (Step-Link codec st r.request_id) in
      let s : IsSound codec e = sound r.request_id e found in
      check_found codec t r q' e' found'
      ∙ rw same (
          waits_same t t r (owner_of r.run_id q) e e' waits (Life-Same codec l).run
            (Life-hash codec l s n).0 (Life-lease codec l s n).0 (Life-lease codec l s n).1)

  -- The queue after Resolve is reached as the one before it is.
  Reach-resolve :
      (now later : ℕ) (r : ResolveRequest) (q : Queue)
      → Reach codec new q
      → Reach codec new (resolve codec now later r q).1
  unfolding resolve resolve_on
  Reach-resolve now later r q reached = go (check codec now r q) refl
    where
      go :
          (c : Checked) → check codec now r q ≡ c → Reach codec new (resolve_on codec c later r q).1
      go (reject failure) p = reached
      go await p = reached
      go (validate o schema) p = elim (Option-cases (codec.conforms schema r.candidate)) [
        | inl fits ↦ rw (fits, resolve_on) (step reached (accepts q now later r o schema p))
        | inr (message, misfits) ↦ rw (misfits, resolve_on) reached
      ]

  Stays-await :
      (t : ℕ) (r : ResolveRequest) {q q' : Queue}
      → AllSound codec q
      → Stays r q q'
      → check codec t r q ≡ await
      → (check codec t r q' ≡ await) × AllSound codec q'
  Stays-await t r sound stays h = (h, sound)
  Stays-await t r sound (more e path st found same) h =
      let (waits, sound') = Stays-await t r sound path h in
      (await-Step t r e sound' st found same waits, Step-AllSound codec st sound')

  repeats :
      (t t' : ℕ) (r : ResolveRequest) (q : Queue)
      → check codec t r q ≡ await
      → resolve codec t t' r q ≡ (ok tt, q)
  unfolding resolve resolve_on
  repeats t t' r q h = rw h refl

  named :
      (t : ℕ) (r : ResolveRequest) (q : Queue)
      → check codec t r q ≡ await
      → (e : Entry) × (lookup r.request_id q.entries ≡ some e) × (e.hash ≡ digest codec r.candidate)
  named t r q h =
      let (e, found) = await_found t r q h in
      (
        e,
        found,
        (await-facts t r (owner_of r.run_id q) e (sym (check_found codec t r q e found) ∙ h)).1,
      )

  -- Where a Resolve has passed both sections, or waits already, the same call may come again at any
  -- time after any further sections (the report of the outcome among them), as long as the request
  -- is not forgotten and the run has the same owner: it passes, changes nothing, and waits for the
  -- same entry, whose accepted candidate is the one of the call.
  pub resolve_again :
      (now later t t' : ℕ) (r : ResolveRequest) {q q' : Queue}
      → Reach codec new q
      → (resolve codec now later r q).0 ≡ ok tt
      → Stays r (resolve codec now later r q).1 q'
      → (resolve codec t t' r q' ≡ (ok tt, q'))
        × ((e : Entry) × (lookup r.request_id q'.entries ≡ some e)
            × (e.hash ≡ digest codec r.candidate))
  resolve_again now later t t' r {q} {q'} reached h path =
      let waits : check codec t r (resolve codec now later r q).1 ≡ await =
        unfold resolve in resolve_on_again codec now later t r q _ refl h in
      let still : check codec t r q' ≡ await =
        (Stays-await t r (Reach-AllSound codec (Reach-resolve now later r q reached)) path
          waits).0 in
      (repeats t t' r q' still, named t r q' still)
