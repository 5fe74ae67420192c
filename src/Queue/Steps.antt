-- ===== src/Queue/Steps.antt =====
-- The queue as it runs: any interleaving of the critical sections of queue.go, from an empty queue.
use x_mock_mcp.Prelude.{
  ℕ, ◌≡◌, refl, sym, ap, ◌∙◌, ◌⊎◌, inl, inr, String, Bool, false, Option, none, some, lookup,
  insert, keep_if, Assoc, ◌≢◌, lookup-insert, lookup-remove_if, lookup_cases, Bool-cases,
  text_cases,
}
use x_mock_mcp.Api.{Need, Failure}
use x_mock_mcp.Queue.Types.{Entry, Owner, Queue, NextRequest, ResolveRequest}
use x_mock_mcp.Queue.Ops.{
  enqueue, new_entry, is_full, in_run, refuses, report_outcome, cancel_request, cancel_run, drop,
}
use x_mock_mcp.Queue.Claim.{claim, poll}
use x_mock_mcp.Queue.Resolve.{Codec, validate, check, accept}
use x_mock_mcp.Queue.Life.{Life, here}
use x_mock_mcp.Queue.Follows.{Follows, Follows-refl, Lives}
use mathlib.Core.Option.{none-ne-some}
use x_mock_mcp.Queue.Sections.{
  report_outcome-Follows, cancel_request-Follows, cancel_run-Follows, claim-Follows, poll-Follows,
  check-validate, accept-Follows,
}

-- Enqueue changes nothing, or adds its entry under a new identifier while there is room.
pub enqueue_cases :
    (now : ℕ) (run : String) (need : Need) (q : Queue)
    → ((enqueue now run need q).1.entries ≡ q.entries)
      ⊎ ((lookup need.request_id q.entries ≡ none)
          × (is_full run q ≡ false)
          × ((enqueue now run need q).1.entries
              ≡ insert need.request_id (new_entry run need) q.entries))
unfolding enqueue
enqueue_cases now run need q = elim (Bool-cases (refuses now run need)) [
  | inl refused ↦ rw refused (inl refl)
  | inr fine ↦ elim (lookup_cases need.request_id q.entries) [
    | inr (e, found) ↦ rw (fine, found, enqueue) (inl refl)
    | inl absent ↦ elim (Bool-cases (is_full run q)) [
      | inl full ↦ rw (fine, absent, full, enqueue) (inl refl)
      | inr room ↦ rw (fine, absent, room, enqueue) (inr (refl, refl, refl))
    ]
  ]
]

module _ (codec : Codec) where
  -- One critical section. The second section of Resolve runs only after its first section passed,
  -- on the queue as it then was. Forget is CancelRun and, later, the dropping of what is there then.
  pub data Step (q : Queue) : Queue → Type 0 where
    enqueues : (now : ℕ) (run : String) (need : Need) → Step q (enqueue now run need q).1
    claims : (fresh : String) (r : NextRequest) → Step q (claim fresh r q).1
    polls :
        (draw : ℕ → String) (now : ℕ) (elapsed : Bool) (o : Owner) (r : NextRequest)
        → Step q (poll draw now elapsed o r q).1
    accepts :
        (earlier : Queue) (before now : ℕ) (r : ResolveRequest) (o : Owner) (schema : String)
        → check codec before r earlier ≡ validate o schema
        → Step q (accept codec now r o q).1
    reports :
        (id raw : String) (failure : Option Failure) → Step q (report_outcome id raw failure q)
    cancels : (id : String) (failure : Failure) → Step q (cancel_request id failure q)
    cancels_run : (run : String) (failure : Failure) → Step q (cancel_run run failure q)
    drops : (run : String) → Step q (drop run q)

  pub data Reach (q : Queue) : Queue → Type 0 where
    start : Reach q q
    step : {q' q'' : Queue} → Reach q q' → Step q' q'' → Reach q q''

  abbrev pub IsNew : Entry → Type 0
  IsNew e = (run : String) × (need : Need) × (e ≡ new_entry run need)

  -- What may become of one key in a step: Enqueue makes an entry, Forget drops one, and otherwise
  -- the entry lives on.
  abbrev pub Link : Option Entry → Option Entry → Type 0
  Link none none = Unit
  Link none (some e') = IsNew e'
  Link (some e) none = Unit
  Link (some e) (some e') = Life codec e e'

  Link-of_Lives : (a b : Option Entry) → Lives codec a b → Link a b
  Link-of_Lives none none l = tt
  Link-of_Lives none (some b) l = absurd l
  Link-of_Lives (some a) none l = tt
  Link-of_Lives (some a) (some b) l = l

  Link-keep : (p : Entry → Bool) (a b : Option Entry) → Lives codec a b → Link a (keep_if p b)
  Link-keep p none none l = tt
  Link-keep p none (some b) l = absurd l
  Link-keep p (some a) none l = absurd l
  Link-keep p (some a) (some b) l = elim (Bool-cases (p b)) [
    | inl dropped ↦ rw dropped tt
    | inr kept ↦ rw kept l
  ]

  Link-refl : (a : Option Entry) → Link a a
  Link-refl none = tt
  Link-refl (some a) = here

  Follows-Link :
      {q q' : Queue}
      → Follows codec q q'
      → (k : String) → Link (lookup k q.entries) (lookup k q'.entries)
  Follows-Link {q} {q'} f k = Link-of_Lives (lookup k q.entries) (lookup k q'.entries) (f.links k)

  enqueue-Link :
      (now : ℕ) (run : String) (need : Need) (q : Queue) (k : String)
      → Link (lookup k q.entries) (lookup k (enqueue now run need q).1.entries)
  enqueue-Link now run need q k = elim (enqueue_cases now run need q) [
    | inl unchanged ↦ rw unchanged (Link-refl (lookup k q.entries))
    | inr (absent, room, added) ↦ rw added (
        rw (lookup-insert need.request_id k (new_entry run need) q.entries)
          (elim (text_cases need.request_id k) [
            | inl (t, same) ↦
                rw (t, sym (ap (λ (x : String). lookup x q.entries) same) ∙ absent)
                  (run, need, refl)
            | inr (t, other) ↦ rw t (Link-refl (lookup k q.entries))
          ]))
  ]

  drop-Link :
      (run : String) (q : Queue) (k : String)
      → Link (lookup k q.entries) (lookup k (drop run q).entries)
  unfolding drop
  drop-Link run q k =
      rw lookup-remove_if
        (Link-keep (in_run run) (lookup k q.entries) _ ((Follows-refl codec q).links k))

  pub Step-Link :
      {q q' : Queue} → Step q q' → (k : String) → Link (lookup k q.entries) (lookup k q'.entries)
  Step-Link {q} (enqueues now run need) k = enqueue-Link now run need q k
  Step-Link {q} (claims fresh r) k = Follows-Link (claim-Follows codec fresh r q) k
  Step-Link {q} (polls draw now elapsed o r) k =
      Follows-Link (poll-Follows codec draw now elapsed o r q) k
  Step-Link {q} (accepts earlier before now r o schema passed) k =
      Follows-Link
        (accept-Follows codec now r o q (check-validate codec before r earlier o schema passed)) k
  Step-Link {q} (reports id raw failure) k =
      Follows-Link (report_outcome-Follows codec id raw failure q) k
  Step-Link {q} (cancels id failure) k = Follows-Link (cancel_request-Follows codec id failure q) k
  Step-Link {q} (cancels_run run failure) k =
      Follows-Link (cancel_run-Follows codec run failure q) k
  Step-Link {q} (drops run) k = drop-Link run q k

  not_dropped :
      {q q' : Queue} (k : String) (e : Entry)
      → Follows codec q q'
      → lookup k q.entries ≡ some e
      → lookup k q'.entries ≢ none
  not_dropped {q} {q'} k e f found gone = rw (found, gone) at (f.links k)

  enqueue_keeps :
      (now : ℕ) (run : String) (need : Need) (q : Queue) (k : String) (e : Entry)
      → lookup k q.entries ≡ some e
      → lookup k (enqueue now run need q).1.entries ≢ none
  enqueue_keeps now run need q k e found gone = elim (enqueue_cases now run need q) [
    | inl unchanged ↦
        none-ne-some e (sym gone ∙ ap (λ (es : Assoc Entry). lookup k es) unchanged ∙ found)
    | inr (absent, room, added) ↦ elim (text_cases need.request_id k) [
      | inl (t, same) ↦
          none-ne-some e (sym absent ∙ ap (λ (x : String). lookup x q.entries) same ∙ found)
      | inr (t, other) ↦
          none-ne-some e (
            sym gone ∙ ap (λ (es : Assoc Entry). lookup k es) added ∙ simp (lookup-insert, t) found)
    ]
  ]

  drop_in_run :
      (run : String) (q : Queue) (k : String) (e : Entry)
      → lookup k q.entries ≡ some e
      → lookup k (drop run q).entries ≡ none
      → drop run q ≡ drop e.run q
  unfolding drop
  drop_in_run run q k e found gone = elim (text_cases e.run run) [
    | inl (t, same) ↦ ap (λ (x : String). drop x q) (sym same)
    | inr (t, other) ↦ absurd (none-ne-some e (sym gone ∙ rw (lookup-remove_if, found) (rw t refl)))
  ]

  -- An entry leaves the map only when Forget drops its run.
  pub Step-dropped :
      {q q' : Queue}
      → Step q q'
      → (k : String) (e : Entry) → lookup k q.entries ≡ some e
      → lookup k q'.entries ≡ none
      → q' ≡ drop e.run q
  Step-dropped {q} (enqueues now run need) k e found gone =
      absurd (enqueue_keeps now run need q k e found gone)
  Step-dropped {q} (claims fresh r) k e found gone =
      absurd (not_dropped k e (claim-Follows codec fresh r q) found gone)
  Step-dropped {q} (polls draw now elapsed o r) k e found gone =
      absurd (not_dropped k e (poll-Follows codec draw now elapsed o r q) found gone)
  Step-dropped {q} (accepts earlier before now r o schema passed) k e found gone = absurd (
      not_dropped k e
        (accept-Follows codec now r o q (check-validate codec before r earlier o schema passed))
        found gone)
  Step-dropped {q} (reports id raw failure) k e found gone =
      absurd (not_dropped k e (report_outcome-Follows codec id raw failure q) found gone)
  Step-dropped {q} (cancels id failure) k e found gone =
      absurd (not_dropped k e (cancel_request-Follows codec id failure q) found gone)
  Step-dropped {q} (cancels_run run failure) k e found gone =
      absurd (not_dropped k e (cancel_run-Follows codec run failure q) found gone)
  Step-dropped {q} (drops run) k e found gone = drop_in_run run q k e found gone
