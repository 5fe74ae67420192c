-- ===== src/Queue/Leases.antt =====
-- What a call of Next hands out.
use x_mock_mcp.Prelude.{
  leb, inr, inl, ℕ, ◌+◌, ◌≤◌, ◌<◌, ◌≡◌, String, Bool, true, ◌&&◌, List, [], ◌∷◌, length,
  length-append, All, All-append, lookup_cases, Bool-cases, arith,
}
use x_mock_mcp.Prelude.Text.{sort_strings}
use x_mock_mcp.Prelude.Int.{ℤ, pos, ◌≤ℤ◌, ltb_ℤ}
use x_mock_mcp.Queue.Types.{
  Entry, Owner, Queue, NextRequest, Leased, Batch, from_milli, unix_milli, terminal, is_pending,
}
use x_mock_mcp.Queue.Claim.{
  ready, poll, scan, visit, visit_entry, visit_open, refresh, leased_of, run_ids, next_guard,
}

-- A lease that ends after `now`, within 15 seconds and by the deadline of its request.
abbrev pub InTime : ℕ → Leased → Type 0
InTime now x =
    (x.lease_expires_ms ≤ unix_milli (now + 15000000000))
    × (x.lease_expires_ms ≤ x.need.deadline_ms)
    × (unix_milli now ≤ x.lease_expires_ms)
    × (unix_milli now < x.need.deadline_ms)

module _ (now : ℕ) (o : Owner) (limit : ℤ) (draw : ℕ → String) where
  -- What holds of the batch while the loop over the identifiers runs.
  abbrev Fits : List Leased → Type 0
  Fits out = (pos (length out) ≤ℤ limit) × All (InTime now) out

  leased-InTime :
      (lease : String) (e : Entry)
      → now < from_milli e.need.deadline_ms
      → InTime now (leased_of now lease e)
  unfolding leased_of
  leased-InTime lease e h = omega arith

  visit_open-Fits :
      (id : String) (e : Entry) (out : List Leased) (q : Queue)
      → now < from_milli e.need.deadline_ms
      → Fits out
      → Fits (visit_open now o limit draw id e out q).0
  unfolding visit_open
  visit_open-Fits id e out q h fits =
      elim (Bool-cases (is_pending e.state && ltb_ℤ (pos (length out)) limit)) [
        | inl room ↦
            let x : Leased = leased_of now (draw (length out)) e in
            rw room (
              rw (length-append out (x ∷ [])) (ground arith),
              All-append (InTime now) out (x ∷ []) fits.1
                  (leased-InTime (draw (length out)) e h, tt),
            )
        | inr full ↦ rw full fits
      ]

  need-refresh : (e : Entry) → (refresh now e).need ≡ e.need
  unfolding refresh
  need-refresh e = ground arith

  visit_entry-Fits :
      (id : String) (e : Entry) (out : List Leased) (q : Queue)
      → Fits out
      → Fits (visit_entry now o limit draw id e out q).0
  unfolding visit_entry
  visit_entry-Fits id e out q fits = elim (Bool-cases (terminal e.state)) [
    | inl done ↦ rw done fits
    | inr live ↦ rw live (elim (Bool-cases (leb (from_milli e.need.deadline_ms) now)) [
      | inl late ↦ rw late fits
      | inr early ↦
          rw early
            (visit_open-Fits id (refresh now e) out q (rw (need-refresh e) (ground arith)) fits)
    ])
  ]

  visit-Fits :
      (id : String) (out : List Leased) (q : Queue)
      → Fits out
      → Fits (visit now o limit draw id out q).0
  unfolding visit
  visit-Fits id out q fits = elim (lookup_cases id q.entries) [
    | inl absent ↦ rw (absent, visit) fits
    | inr (e, found) ↦ rw (found, visit) (visit_entry-Fits id e out q fits)
  ]

  scan-Fits :
      (ids : List String) (out : List Leased) (q : Queue)
      → Fits out
      → Fits (scan now o limit draw ids out q).0
  unfolding scan
  scan-Fits [] out q fits = fits
  scan-Fits (id ∷ ids) out q fits =
      scan-Fits ids (visit now o limit draw id out q).0 (visit now o limit draw id out q).1
        (visit-Fits id out q fits)

poll_requests :
    (draw : ℕ → String) (now : ℕ) (elapsed : Bool) (o : Owner) (r : NextRequest) (q : Queue)
    (b : Batch)
    → (poll draw now elapsed o r q).0 ≡ ready b
    → b.requests ≡ (scan now o r.limit draw (sort_strings (run_ids r.run_id q.entries)) [] q).0
unfolding poll
poll_requests draw now elapsed o r q b h = ground arith

-- A batch holds at most the limit of the request, each lease ends by its request's deadline and
-- within 15 seconds, and no request whose deadline has passed is handed out.
pub poll_batch :
    (draw : ℕ → String) (now : ℕ) (elapsed : Bool) (o : Owner) (r : NextRequest) (q : Queue)
    (b : Batch)
    → next_guard r ≡ true
    → (poll draw now elapsed o r q).0 ≡ ready b
    → (length b.requests ≤ 8) × (pos (length b.requests) ≤ℤ r.limit) × All (InTime now) b.requests
unfolding next_guard
poll_batch draw now elapsed o r q b guard h =
    let ids : List String = sort_strings (run_ids r.run_id q.entries) in
    let fits : Fits now o r.limit draw (scan now o r.limit draw ids [] q).0 =
      scan-Fits now o r.limit draw ids [] q (ground arith, tt) in
    rw (poll_requests draw now elapsed o r q b h) (ground (arith, fits.0), fits.0, fits.1)
