-- ===== src/Queue/Again.antt =====
-- Resolve of internal/generation/queue.go: its first section, once it has passed.
use x_mock_mcp.Prelude.{
  Option-cases, ◌∙◌, lookup_cases, inr, inl, ℕ, ◌≡◌, refl, String, some, lookup, arith, eq_iff,
  eq_refl,
}
use x_mock_mcp.Api.{ok}
use x_mock_mcp.Queue.Types.{Entry, Owner, Queue, ResolveRequest, signal}
use x_mock_mcp.Queue.Claim.{owner_of}
use x_mock_mcp.Queue.Resolve.{
  Checked, Codec, accept, accepted, await, check, check_entry, digest, reject, resolve_on, validate,
}
use x_mock_mcp.Queue.Fencing.{accept_written}

module _ (codec : Codec) where
  -- An accepted request, seen again by the first section.
  again_entry :
      (now t : ℕ) (r : ResolveRequest) (o owner : Owner) (e : Entry) (schema : String)
      → check_entry codec now r owner e ≡ validate o schema
      → check_entry codec t r owner (accepted codec r e) ≡ await
  unfolding check_entry accepted
  again_entry now t r o owner e schema h = ground (
    arith,
    eq_refl (digest codec r.candidate),
    eq_iff (digest codec r.candidate) "",
    eq_iff e.lease r.lease_token,
  )

  waits_again :
      (now t : ℕ) (r : ResolveRequest) (owner : Owner) (e : Entry)
      → check_entry codec now r owner e ≡ await
      → check_entry codec t r owner e ≡ await
  unfolding check_entry
  waits_again now t r owner e h = ground arith

  owner_of-accept :
      (now : ℕ) (r : ResolveRequest) (o : Owner) (q : Queue) (run : String)
      → owner_of run (accept codec now r o q).1 ≡ owner_of run q
  unfolding accept signal owner_of
  owner_of-accept now r o q run = ground arith

  pub check_found :
      (now : ℕ) (r : ResolveRequest) (q : Queue) (e : Entry)
      → lookup r.request_id q.entries ≡ some e
      → check codec now r q ≡ check_entry codec now r (owner_of r.run_id q) e
  unfolding check
  check_found now r q e found = rw (found, check)

  await_again :
      (now t : ℕ) (r : ResolveRequest) (q : Queue)
      → check codec now r q ≡ await
      → check codec t r q ≡ await
  unfolding check
  await_again now t r q h = elim (lookup_cases r.request_id q.entries) [
    | inl absent ↦ absurd (cc (rw (absent, check) at h))
    | inr (e, found) ↦
        rw (check_found t r q e found)
          (waits_again now t r (owner_of r.run_id q) e (rw (check_found now r q e found) at h))
  ]

  accept_again :
      (now later t : ℕ) (r : ResolveRequest) (o : Owner) (schema : String) (q : Queue)
      → check codec now r q ≡ validate o schema
      → (accept codec later r o q).0 ≡ ok tt
      → check codec t r (accept codec later r o q).1 ≡ await
  accept_again now later t r o schema q passed done =
      let (e, found, _, _, _, _, _, written) = accept_written codec later r o q done in
      check_found t r (accept codec later r o q).1 (accepted codec r e)
        (written r.request_id ∙ rw eq_refl refl)
      ∙ rw (owner_of-accept later r o q r.run_id) (
          again_entry now t r o (owner_of r.run_id q) e schema
            (rw (check_found now r q e found) at passed))

  pub resolve_on_again :
      (now later t : ℕ) (r : ResolveRequest) (q : Queue) (c : Checked)
      → check codec now r q ≡ c
      → (resolve_on codec c later r q).0 ≡ ok tt
      → check codec t r (resolve_on codec c later r q).1 ≡ await
  unfolding resolve_on
  resolve_on_again now later t r q (reject failure) p h = absurd (cc h)
  resolve_on_again now later t r q await p h = await_again now t r q p
  resolve_on_again now later t r q (validate o schema) p h =
      elim (Option-cases (codec.conforms schema r.candidate)) [
        | inl fits ↦
            rw (fits, resolve_on)
              (accept_again now later t r o schema q p (rw (fits, resolve_on) at h))
        | inr (message, misfits) ↦ absurd (cc (rw (misfits, resolve_on) at h))
      ]
