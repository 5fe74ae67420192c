-- ===== src/Queue/Soundness.antt =====
-- What holds of every entry of the generation queue, in every state that it can reach.
use x_mock_mcp.Prelude.{
  ◌∙◌, ◌≡◌, refl, ap, ◌≢◌, ◌⊎◌, inl, inr, String, true, Option, none, some, lookup, lookup_cases,
  arith,
}
use x_mock_mcp.Api.{Need}
use x_mock_mcp.Queue.Types.{Entry, Queue, new, terminal}
use x_mock_mcp.Queue.Ops.{new_entry, drop}
use x_mock_mcp.Queue.Resolve.{Codec}
use x_mock_mcp.Queue.Life.{IsSound, Life-IsSound, Life-final, Life-hash}
use x_mock_mcp.Queue.Steps.{Step, Reach, start, step, Link, Step-Link, Step-dropped}

module _ (codec : Codec) where
  -- Every entry of every reachable queue is sound.
  abbrev pub AllSound : Queue → Type 0
  AllSound q = (k : String) (e : Entry) → lookup k q.entries ≡ some e → IsSound codec e

  new_entry-IsSound : (run : String) (need : Need) → IsSound codec (new_entry run need)
  unfolding new_entry terminal
  new_entry-IsSound run need = ground arith

  IsSound-of_Link :
      (a : Option Entry) (e' : Entry)
      → Link codec a (some e')
      → ((e : Entry) → a ≡ some e → IsSound codec e)
      → IsSound codec e'
  IsSound-of_Link none e' (run, need, p) all = rw p (new_entry-IsSound run need)
  IsSound-of_Link (some e) e' l all = Life-IsSound codec l (all e refl)

  pub Step-AllSound : {q q' : Queue} → Step codec q q' → AllSound q → AllSound q'
  Step-AllSound {q} {q'} st all k e' h =
      IsSound-of_Link (lookup k q.entries) e' (rw h at (Step-Link codec st k)) (all k)

  empty-AllSound : AllSound new
  unfolding lookup
  empty-AllSound k e h = cc

  -- From an empty queue, however the critical sections interleave, every entry is finished at most
  -- once, has a live timer exactly while it is open, and has sent the application at most one
  -- candidate, namely the one whose digest was accepted.
  pub Reach-AllSound : {q : Queue} → Reach codec new q → AllSound q
  Reach-AllSound start = empty-AllSound
  Reach-AllSound (step r st) = Step-AllSound st (Reach-AllSound r)

  -- A finished request keeps its state, its response and its error in every step but one: the
  -- section of Forget that drops its run's entries.
  pub Step-final :
      {q q' : Queue} (k : String) (e : Entry)
      → Step codec q q'
      → lookup k q.entries ≡ some e
      → terminal e.state ≡ true
      → (q' ≡ drop e.run q) ⊎ (lookup k q'.entries ≡ some e)
  Step-final {q} {q'} k e st h t = elim (lookup_cases k q'.entries) [
    | inl gone ↦ inl (Step-dropped codec st k e h gone)
    | inr (e', found) ↦
        let l : Link codec (some e) (some e') = rw (h, found) at (Step-Link codec st k) in
        inr (found ∙ ap some (Life-final codec l t))
  ]

  kept_of_Link :
      (e : Entry) (b : Option Entry) (e' : Entry)
      → Link codec (some e) b
      → b ≡ some e'
      → IsSound codec e
      → e.hash ≢ ""
      → (e'.hash ≡ e.hash) × (e'.candidate ≡ e.candidate)
  kept_of_Link e none e' l p s n = cc
  kept_of_Link e (some b) e' l p s n =
      let kept : (b.hash ≡ e.hash) × (b.candidate ≡ e.candidate) × (b.delivery ≡ e.delivery) =
        Life-hash codec l s n in
      (cc kept.0, cc kept.1)

  -- A candidate that was accepted is never replaced by a later step.
  pub Step-accepted :
      {q q' : Queue} (k : String) (e e' : Entry)
      → Reach codec new q
      → Step codec q q'
      → lookup k q.entries ≡ some e
      → lookup k q'.entries ≡ some e'
      → e.hash ≢ ""
      → (e'.hash ≡ e.hash) × (e'.candidate ≡ e.candidate)
  Step-accepted {q} {q'} k e e' r st h h' n =
      kept_of_Link e (lookup k q'.entries) e' (rw h at (Step-Link codec st k)) h'
        (Reach-AllSound r k e h) n
