-- ===== src/Queue/Sections.antt =====
-- Each critical section of queue.go but Enqueue and Forget follows the changes of Queue.Life.
use x_mock_mcp.Prelude.{
  ℕ, ◌<◌, ◌≡◌, refl, ◌≢◌, inl, inr, String, Bool, true, false, not, ◌&&◌, ◌||◌, Option, none, some,
  List, [], ◌∷◌, lookup, Bool-cases, length, lookup_cases, eq_iff, leb, arith,
}
use x_mock_mcp.Prelude.Text.{sort_strings}
use x_mock_mcp.Prelude.Int.{ℤ, pos, ltb_ℤ, eqb_ℤ}
use x_mock_mcp.Api.{Failure}
use x_mock_mcp.Queue.Types
use x_mock_mcp.Queue.Types.{
  State, resolved, expired, cancelled, failed, Entry, Owner, Queue, NextRequest, Leased,
  ResolveRequest, terminal, close_entry, is_resolving, from_milli, is_pending, is_leased,
}
use x_mock_mcp.Queue.Ops.{
  finish, report, report_outcome, cancel_state, cancel_request, cancel_in, cancel_run, in_run,
}
use x_mock_mcp.Queue.Claim.{
  claim, claim_owner, take_over, own_run, release_in, poll, scan, visit, visit_entry, visit_open,
  refresh, run_ids, same_owner, owner_of, has_resolving, next_guard, is_nil,
}
use x_mock_mcp.Queue.Resolve.{Codec, digest, validate, check, accept, lease_lapsed}
use x_mock_mcp.Queue.Life.{Life, here, next, back, lend, take, close}
use x_mock_mcp.Queue.Follows.{
  Follows, Follows-refl, Follows-same, Follows-trans, Follows-insert, Follows-map,
}

module _ (codec : Codec) where
  -- A commit is reported as resolved only while it is under way and without an error.
  abbrev Fair : Entry → State → Option Failure → Type 0
  Fair e state failure = state ≡ resolved → (e.state ≡ Types.resolving) × (failure ≡ none)

  close_entry-Life :
      (state : State) (raw : String) (failure : Option Failure) (e : Entry)
      → terminal state ≡ true
      → Fair e state failure
      → Life codec e (close_entry state raw failure e)
  unfolding close_entry
  close_entry-Life state raw failure e t fair = elim (Bool-cases (terminal e.state)) [
    | inl done ↦ rw done here
    | inr open_ ↦ rw open_ (next here (close state raw failure open_ t fair refl))
  ]

  pub finish-Follows :
      (id : String) (state : State) (raw : String) (failure : Option Failure) (e : Entry)
      (q : Queue)
      → lookup id q.entries ≡ some e
      → terminal state ≡ true
      → Fair e state failure
      → Follows codec q (finish id state raw failure e q)
  unfolding finish
  finish-Follows id state raw failure e q h t fair = elim (Bool-cases (terminal e.state)) [
    | inl done ↦ rw done (Follows-refl codec q)
    | inr open_ ↦
        rw open_ (
          Follows-insert codec id e _ h (next here (close state raw failure open_ t fair refl))
            refl)
  ]

  report-Follows :
      (id raw : String) (failure : Option Failure) (e : Entry) (q : Queue)
      → lookup id q.entries ≡ some e
      → Follows codec q (report id raw failure e q)
  unfolding report is_resolving terminal
  report-Follows id raw (some f) e q h = finish-Follows id failed raw (some f) e q h refl (λ z. cc)
  report-Follows id raw none e q h = elim (Bool-cases (is_resolving e.state)) [
    | inl busy ↦
        rw busy (finish-Follows id resolved raw none e q h refl (λ z. (ground arith, refl)))
    | inr idle ↦ rw idle (Follows-refl codec q)
  ]

  pub report_outcome-Follows :
      (id raw : String) (failure : Option Failure) (q : Queue)
      → Follows codec q (report_outcome id raw failure q)
  unfolding report_outcome
  report_outcome-Follows id raw failure q = elim (lookup_cases id q.entries) [
    | inl absent ↦ rw (absent, report_outcome) (Follows-refl codec q)
    | inr (e, found) ↦
        rw (found, report_outcome)
          (elim (Bool-cases (terminal e.state)) [
            | inl done ↦ rw done (Follows-refl codec q)
            | inr open_ ↦ rw open_ (report-Follows id raw failure e q found)
          ])
  ]

  pub cancel_state-terminal :
      (f : Failure) → (terminal (cancel_state f) ≡ true) × (cancel_state f ≢ resolved)
  unfolding cancel_state terminal
  cancel_state-terminal f = ground arith

  pub cancel_request-Follows :
      (id : String) (failure : Failure) (q : Queue) → Follows codec q (cancel_request id failure q)
  unfolding cancel_request
  cancel_request-Follows id failure q = elim (lookup_cases id q.entries) [
    | inl absent ↦ rw (absent, cancel_request) (Follows-refl codec q)
    | inr (e, found) ↦
        rw (found, cancel_request)
          (finish-Follows id _ "" (some failure) e q found (cancel_state-terminal failure).0
            (λ z. absurd ((cancel_state-terminal failure).1 z)))
  ]

  cancel_in-Life :
      (run : String) (failure : Failure) (e : Entry) → Life codec e (cancel_in run failure e)
  unfolding cancel_in terminal
  cancel_in-Life run failure e = elim (Bool-cases (in_run run e)) [
    | inl mine ↦ rw mine (close_entry-Life cancelled "" (some failure) e refl (λ z. cc))
    | inr others ↦ rw others here
  ]

  pub cancel_run-Follows :
      (run : String) (failure : Failure) (q : Queue) → Follows codec q (cancel_run run failure q)
  unfolding cancel_run
  cancel_run-Follows run failure q =
      Follows-map codec (cancel_in run failure) (cancel_in-Life run failure) refl

  release_in-Life : (run : String) (e : Entry) → Life codec e (release_in run e)
  unfolding release_in
  release_in-Life run e = elim (Bool-cases (in_run run e && is_leased e.state)) [
    | inl mine ↦ rw mine (next here (back (unfold is_leased in ground arith) refl))
    | inr others ↦ rw others here
  ]

  take_over-Follows :
      (fresh : String) (r : NextRequest) (o : Owner) (q : Queue)
      → Follows codec q (take_over fresh r o q).1
  unfolding take_over
  take_over-Follows fresh r o q = elim (Bool-cases (eqb_ℤ (pos o.epoch) r.expected_owner_epoch)) [
    | inr stale ↦ rw stale (Follows-refl codec q)
    | inl current ↦ rw current (elim (Bool-cases (has_resolving r.run_id q.entries)) [
      | inl busy ↦ rw busy (Follows-refl codec q)
      | inr idle ↦ rw idle (Follows-map codec (release_in r.run_id) (release_in-Life r.run_id) refl)
    ])
  ]

  claim_owner-Follows :
      (fresh : String) (r : NextRequest) (b : Bool) (o : Option Owner) (q : Queue)
      → Follows codec q (claim_owner fresh r b o q).1
  unfolding claim_owner own_run
  claim_owner-Follows fresh r true none q = Follows-refl codec q
  claim_owner-Follows fresh r true (some o) q = take_over-Follows fresh r o q
  claim_owner-Follows fresh r false none q = Follows-same codec (ground arith)
  claim_owner-Follows fresh r false (some o) q = Follows-same codec (ground arith)

  pub claim-Follows :
      (fresh : String) (r : NextRequest) (q : Queue) → Follows codec q (claim fresh r q).1
  unfolding claim
  claim-Follows fresh r q = elim (Bool-cases (next_guard r)) [
    | inl good ↦ rw good (claim_owner-Follows fresh r r.takeover (lookup r.run_id q.owners) q)
    | inr bad ↦ rw bad (Follows-refl codec q)
  ]

  refresh-Life : (now : ℕ) (e : Entry) → Life codec e (refresh now e)
  unfolding refresh
  refresh-Life now e = elim (Bool-cases (is_leased e.state && leb e.lease_expiry now)) [
    | inl late ↦ rw late (next here (back (unfold is_leased in ground arith) refl))
    | inr early ↦ rw early here
  ]

  need-refresh : (now : ℕ) (e : Entry) → (refresh now e).need ≡ e.need
  unfolding refresh
  need-refresh now e = ground arith

  module _ (now : ℕ) (o : Owner) (limit : ℤ) (draw : ℕ → String) where
    visit_open-Follows :
        (id : String) (e e1 : Entry) (out : List Leased) (q : Queue)
        → lookup id q.entries ≡ some e
        → Life codec e e1
        → now < from_milli e1.need.deadline_ms
        → Follows codec q (visit_open now o limit draw id e1 out q).1
    unfolding visit_open
    visit_open-Follows id e e1 out q h l t =
        elim (Bool-cases (is_pending e1.state && ltb_ℤ (pos (length out)) limit)) [
          | inl room ↦ rw room (
              Follows-insert codec id e _ h
                (next l (lend now o (draw (length out)) (unfold is_pending in ground arith) t refl))
                refl)
          | inr full ↦ rw full (Follows-insert codec id e e1 h l refl)
        ]

    visit_entry-Follows :
        (id : String) (e : Entry) (out : List Leased) (q : Queue)
        → lookup id q.entries ≡ some e
        → Follows codec q (visit_entry now o limit draw id e out q).1
    unfolding visit_entry
    visit_entry-Follows id e out q found = elim (Bool-cases (terminal e.state)) [
      | inl done ↦ rw done (Follows-refl codec q)
      | inr live ↦ rw live (elim (Bool-cases (leb (from_milli e.need.deadline_ms) now)) [
        | inl late ↦ rw late (
            Follows-insert codec id e _ found
              (next here (close expired "" _ live (unfold terminal in refl) (λ z. cc) refl)) refl)
        | inr early ↦ rw early (
            visit_open-Follows id e (refresh now e) out q found (refresh-Life now e)
              (rw (need-refresh now e) (ground arith)))
      ])
    ]

    visit-Follows :
        (id : String) (out : List Leased) (q : Queue)
        → Follows codec q (visit now o limit draw id out q).1
    unfolding visit
    visit-Follows id out q = elim (lookup_cases id q.entries) [
      | inl absent ↦ rw (absent, visit) (Follows-refl codec q)
      | inr (e, found) ↦ rw (found, visit) (visit_entry-Follows id e out q found)
    ]

    pub scan-Follows :
        (ids : List String) (out : List Leased) (q : Queue)
        → Follows codec q (scan now o limit draw ids out q).1
    unfolding scan
    scan-Follows [] out q = Follows-refl codec q
    scan-Follows (id ∷ ids) out q =
        Follows-trans codec (visit-Follows id out q)
          (scan-Follows ids (visit now o limit draw id out q).0 (visit now o limit draw id out q).1)

  pub poll-Follows :
      (draw : ℕ → String) (now : ℕ) (elapsed : Bool) (o : Owner) (r : NextRequest) (q : Queue)
      → Follows codec q (poll draw now elapsed o r q).1
  unfolding poll
  poll-Follows draw now elapsed o r q = elim (Bool-cases (same_owner (owner_of r.run_id q) o)) [
    | inr changed ↦ rw changed (Follows-refl codec q)
    | inl current ↦
        let ids : List String = sort_strings (run_ids r.run_id q.entries) in
        let (out, q') = scan now o r.limit draw ids [] q in
        rw current (elim (Bool-cases (not (is_nil out) || eqb_ℤ r.wait_ms (pos 0) || elapsed)) [
          | inl return ↦ rw return (scan-Follows now o r.limit draw ids [] q)
          | inr again ↦ rw again (scan-Follows now o r.limit draw ids [] q)
        ])
  ]

  -- The first section passes only a candidate that is valid JSON.
  pub check-validate :
      (now : ℕ) (r : ResolveRequest) (q : Queue) (o : Owner) (schema : String)
      → check codec now r q ≡ validate o schema
      → digest codec r.candidate ≢ ""
  unfolding check
  check-validate now r q o schema h z = ground (arith, (eq_iff (digest codec r.candidate) "").1 z)

  pub accept-Follows :
      (now : ℕ) (r : ResolveRequest) (o : Owner) (q : Queue)
      → digest codec r.candidate ≢ ""
      → Follows codec q (accept codec now r o q).1
  unfolding accept
  accept-Follows now r o q d = elim (lookup_cases r.request_id q.entries) [
    | inl absent ↦ rw (absent, accept) (Follows-refl codec q)
    | inr (e, found) ↦
        rw (found, accept)
          (elim (Bool-cases
            (lease_lapsed codec now r e || not (same_owner (owner_of r.run_id q) o))) [
              | inl stale ↦ rw stale (Follows-refl codec q)
              | inr live ↦ rw live (
                  Follows-insert codec r.request_id e _ found
                    (next here
                      (take r.candidate (unfold is_leased lease_lapsed in ground arith) d refl))
                    refl)
            ])
  ]
