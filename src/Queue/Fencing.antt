-- ===== src/Queue/Fencing.antt =====
-- Who may complete a request: owners and leases.
use x_mock_mcp.Prelude.{
  insert, if◌then◌else◌, ◌<◌, eq_refl, ap, ◌∙◌, lookup-insert, ◌+◌, Bool-cases, Option, inr, inl,
  lookup_cases, ◌≢◌, ℕ, ◌≡◌, refl, String, true, false, not, ◌||◌, some, none, lookup, arith,
  eq_iff, ◌==◌, text_cases, [], ◌∷◌, ◌++◌,
}
use x_mock_mcp.Api.{fail, owner_conflict, state_conflict, ok, err}
use x_mock_mcp.Queue.Types.{
  State, signal, unix_milli, leased, is_leased, Entry, Owner, Queue, NextRequest, ResolveRequest,
}
use x_mock_mcp.Queue.Claim.{same_owner, claim, claim_owner, take_over, owner_of, next_guard}
use x_mock_mcp.Queue.Resolve.{lease_lapsed, Codec, digest, check, reject, accept, accepted}

-- A claim of a run that is granted makes its result the owner of the run.
taken_over :
    (fresh : String) (r : NextRequest) (old o : Owner) (q : Queue)
    → (take_over fresh r old q).0 ≡ ok o
    → (owner_of r.run_id (take_over fresh r old q).1 ≡ o)
      × (o ≡ record { token = fresh; epoch = old.epoch + 1 })
unfolding take_over owner_of
taken_over fresh r old o q h = ground (
  arith,
  lookup-insert r.run_id r.run_id (record { token = fresh; epoch = old.epoch + 1 }) q.owners,
  eq_refl r.run_id,
)

claim_owner-owner :
    (fresh : String) (r : NextRequest) (old : Option Owner) (o : Owner) (q : Queue)
    → (claim_owner fresh r true old q).0 ≡ ok o
    → (owner_of r.run_id (claim_owner fresh r true old q).1 ≡ o) × (o.token ≡ fresh)
unfolding claim_owner
claim_owner-owner fresh r none o q h = cc
claim_owner-owner fresh r (some old) o q h =
    let new_owner : (owner_of r.run_id (take_over fresh r old q).1 ≡ o)
        × (o ≡ record { token = fresh; epoch = old.epoch + 1 }) =
      taken_over fresh r old o q h in
    (new_owner.0, ap (λ (x : Owner). x.token) new_owner.1)

claim-owner :
    (fresh : String) (r : NextRequest) (o : Owner) (q : Queue)
    → r.takeover ≡ true
    → (claim fresh r q).0 ≡ ok o
    → (owner_of r.run_id (claim fresh r q).1 ≡ o) × (o.token ≡ fresh)
unfolding claim
claim-owner fresh r o q t h = elim (Bool-cases (next_guard r)) [
  | inl good ↦
      rw (good, t) (claim_owner-owner fresh r (lookup r.run_id q.owners) o q (rw (good, t) at h))
  | inr bad ↦ absurd (cc (rw bad at h))
]

module _ (codec : Codec) where
  stranger :
      (now : ℕ) (r : ResolveRequest) (q : Queue)
      → (owner_of r.run_id q).token ≢ r.owner_token
      → check codec now r q ≡ reject (fail owner_conflict "request or owner mismatch")
  unfolding check
  stranger now r q n = elim (lookup_cases r.request_id q.entries) [
    | inl absent ↦ rw (absent, check) refl
    | inr (e, found) ↦
        rw (found, check) (ground (arith, eq_iff (owner_of r.run_id q).token r.owner_token))
  ]

  -- After a takeover a call of Resolve under any token but the drawn one is refused as a conflict
  -- of owners, whatever its request, its lease and its candidate.
  pub takeover_fences :
      (fresh : String) (r : NextRequest) (o : Owner) (q : Queue) (now : ℕ) (late : ResolveRequest)
      → r.takeover ≡ true
      → (claim fresh r q).0 ≡ ok o
      → late.run_id ≡ r.run_id
      → late.owner_token ≢ fresh
      → check codec now late (claim fresh r q).1
        ≡ reject (fail owner_conflict "request or owner mismatch")
  takeover_fences fresh r o q now late t h same n =
      let owned : (owner_of r.run_id (claim fresh r q).1 ≡ o) × (o.token ≡ fresh) =
        claim-owner fresh r o q t h in
      stranger now late (claim fresh r q).1 (λ z.
        n (cc (z, owned.0, owned.1, ap (λ (k : String). owner_of k (claim fresh r q).1) same)))

  record IsLive (now : ℕ) (r : ResolveRequest) (o : Owner) (q : Queue) (e : Entry) : Type 0 where
    leased : e.state ≡ State.leased
    holder : e.lease ≡ r.lease_token
    in_lease : now < e.lease_expiry
    in_time : unix_milli now < e.need.deadline_ms
    owner : owner_of r.run_id q ≡ o

  IsLive-facts :
      (now : ℕ) (r : ResolveRequest) (o : Owner) (q : Queue) (e : Entry)
      → (lease_lapsed codec now r e || not (same_owner (owner_of r.run_id q) o)) ≡ false
      → IsLive now r o q e
  unfolding lease_lapsed is_leased
  IsLive-facts now r o q e live =
      ground (arith, eq_iff e.lease r.lease_token, eq_iff (owner_of r.run_id q).token o.token)

  accept_absent :
      (now : ℕ) (r : ResolveRequest) (o : Owner) (q : Queue)
      → lookup r.request_id q.entries ≡ none
      → (accept codec now r o q).0 ≡ err (fail state_conflict "lease changed during validation")
  unfolding accept
  accept_absent now r o q absent = rw (absent, accept)

  accept_stale :
      (now : ℕ) (r : ResolveRequest) (o : Owner) (q : Queue) (e : Entry)
      → lookup r.request_id q.entries ≡ some e
      → (lease_lapsed codec now r e || not (same_owner (owner_of r.run_id q) o)) ≡ true
      → (accept codec now r o q).0 ≡ err (fail state_conflict "lease changed during validation")
  unfolding accept
  accept_stale now r o q e found stale = rw (found, accept) (rw stale)

  accept_live :
      (now : ℕ) (r : ResolveRequest) (o : Owner) (q : Queue) (e : Entry)
      → lookup r.request_id q.entries ≡ some e
      → (lease_lapsed codec now r e || not (same_owner (owner_of r.run_id q) o)) ≡ false
      → (accept codec now r o q).1.entries ≡ insert r.request_id (accepted codec r e) q.entries
  unfolding accept signal
  accept_live now r o q e found live = rw (found, accept) (rw live)

  pub accept_written :
      (now : ℕ) (r : ResolveRequest) (o : Owner) (q : Queue)
      → (accept codec now r o q).0 ≡ ok tt
      → (e : Entry) × (lookup r.request_id q.entries ≡ some e)
        × (e.state ≡ leased)
        × (e.lease ≡ r.lease_token)
        × (now < e.lease_expiry)
        × (unix_milli now < e.need.deadline_ms)
        × (owner_of r.run_id q ≡ o)
        × ((k : String)
            → lookup k (accept codec now r o q).1.entries
              ≡ (if r.request_id == k then some (accepted codec r e) else lookup k q.entries))
  accept_written now r o q h = elim (lookup_cases r.request_id q.entries) [
    | inl absent ↦ absurd (cc (accept_absent now r o q absent, h))
    | inr (e, found) ↦
        elim (Bool-cases (lease_lapsed codec now r e || not (same_owner (owner_of r.run_id q) o))) [
          | inl stale ↦ absurd (cc (accept_stale now r o q e found stale, h))
          | inr live ↦
              let facts : IsLive now r o q e = IsLive-facts now r o q e live in
              (
                e,
                found,
                facts.leased,
                facts.holder,
                facts.in_lease,
                facts.in_time,
                facts.owner,
                λ k.
                    rw (accept_live now r o q e found live)
                      (lookup-insert r.request_id k (accepted codec r e) q.entries),
              )
        ]
  ]

  -- An entry that has taken the candidate `raw` of a call of Resolve, and had sent nothing else.
  pub record HasTaken (raw : String) (e e' : Entry) : Type 0 where
    pub state : e'.state ≡ State.resolving
    pub candidate : e'.candidate ≡ raw
    pub hash : e'.hash ≡ digest codec raw
    pub delivery : e'.delivery ≡ e.delivery ++ raw ∷ []
    pub run : e'.run ≡ e.run
    pub need : e'.need ≡ e.need
    pub lease : e'.lease ≡ e.lease
    pub closes : e'.closes ≡ e.closes

  accepted-HasTaken : (r : ResolveRequest) (e : Entry) → HasTaken r.candidate e (accepted codec r e)
  unfolding accepted
  accepted-HasTaken r e = record {
    state = refl;
    candidate = refl;
    hash = refl;
    delivery = refl;
    run = refl;
    need = refl;
    lease = refl;
    closes = refl;
  }

  -- The second section of Resolve succeeds only for an entry that is still leased under the
  -- request's lease, before the lease and the deadline run out and with the owner unchanged. The
  -- entry is then resolving, with the candidate and its digest recorded and the candidate added to
  -- what was sent, and every other entry is left alone.
  pub accept_ok :
      (now : ℕ) (r : ResolveRequest) (o : Owner) (q : Queue)
      → (accept codec now r o q).0 ≡ ok tt
      → (e : Entry) × (e' : Entry) × (lookup r.request_id q.entries ≡ some e)
        × (e.state ≡ leased)
        × (e.lease ≡ r.lease_token)
        × (now < e.lease_expiry)
        × (unix_milli now < e.need.deadline_ms)
        × (owner_of r.run_id q ≡ o)
        × (lookup r.request_id (accept codec now r o q).1.entries ≡ some e')
        × HasTaken r.candidate e e'
        × ((k : String)
            → r.request_id ≢ k
            → lookup k (accept codec now r o q).1.entries ≡ lookup k q.entries)
  accept_ok now r o q h =
      let (e, found, is_leased_, holder, in_lease, in_time, owner, written) =
        accept_written now r o q h in
      (
        e,
        accepted codec r e,
        found,
        is_leased_,
        holder,
        in_lease,
        in_time,
        owner,
        written r.request_id ∙ rw eq_refl refl,
        accepted-HasTaken r e,
        λ k differs. elim (text_cases r.request_id k) [
          | inl (t, same) ↦ absurd (differs same)
          | inr (t, other) ↦ written k ∙ rw t refl
        ],
      )
