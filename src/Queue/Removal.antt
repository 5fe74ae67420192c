-- ===== src/Queue/Removal.antt =====
-- CancelRun and Forget of queue.go: which entries they reach.
use x_mock_mcp.Prelude.{
  inr, inl, ap, ◌∙◌, ◌≡◌, refl, String, false, some, [], ◌∷◌, Assoc, lookup, map_values, count_if,
  keep_if, lookup-remove_if, lookup-erase, lookup_cases, eq_refl, Bool-cases, arith, ◌==◌,
  lookup-map_values, lookup-map_values-none,
}
use x_mock_mcp.Api
use x_mock_mcp.Api.{Failure, cancelled}
use x_mock_mcp.Queue.Types.{Entry, Queue, terminal, close_entry}
use x_mock_mcp.Queue.Ops.{in_run, is_open_in, own, cancel_in, cancel_run, pending_count, forget}
use x_mock_mcp.Queue.Claim.{owner_of, no_owner}

module _ (run : String) (failure : Failure) where
  run-cancel_in : (e : Entry) → (cancel_in run failure e).run ≡ e.run
  unfolding cancel_in close_entry
  run-cancel_in e = ground arith

  cancel_in_closes : (e : Entry) → is_open_in run (cancel_in run failure e) ≡ false
  unfolding cancel_in close_entry terminal
  cancel_in_closes e = ground arith

  cancel_in_other : (e : Entry) → (e.run == run) ≡ false → cancel_in run failure e ≡ e
  unfolding cancel_in
  cancel_in_other e h = rw h refl

  none_open :
      (m : Assoc Entry) → count_if (is_open_in run) (map_values (cancel_in run failure) m) ≡ 0
  unfolding count_if map_values
  none_open [] = refl
  none_open ((k, e) ∷ m) = rw (cancel_in_closes e, none_open m) (omega arith)

  keep-cancel_in :
      (e : Entry)
      → keep_if (in_run run) (some (cancel_in run failure e)) ≡ keep_if (in_run run) (some e)
  keep-cancel_in e = elim (Bool-cases (in_run run e)) [
    | inl mine ↦ rw (run-cancel_in e, mine) refl
    | inr others ↦ rw (cancel_in_other e others) refl
  ]

  keep-map :
      (k : String) (m : Assoc Entry)
      → keep_if (in_run run) (lookup k (map_values (cancel_in run failure) m))
        ≡ keep_if (in_run run) (lookup k m)
  keep-map k m = elim (lookup_cases k m) [
    | inl absent ↦ rw (absent, lookup-map_values-none (cancel_in run failure) k m absent) refl
    | inr (e, found) ↦
        rw (found, lookup-map_values (cancel_in run failure) k e m found) (keep-cancel_in e)
  ]

-- CancelRun leaves no request of the run open, and the entries of other runs as they were.
pub cancel_run_lem :
    (run : String) (failure : Failure) (q : Queue)
    → (pending_count run (cancel_run run failure q) ≡ 0)
      × ((k : String) (e : Entry)
          → lookup k q.entries ≡ some e
          → (e.run == run) ≡ false
          → lookup k (cancel_run run failure q).entries ≡ some e)
unfolding pending_count own cancel_run
cancel_run_lem run failure q = (
  none_open run failure q.entries,
  λ k e h n.
      lookup-map_values (cancel_in run failure) k e q.entries h
      ∙ ap some (cancel_in_other run failure e n),
)

-- Forget drops exactly the run's entries and its owner: under each key there is afterwards what
-- stood there before, if it belongs to another run.
pub forget_lem :
    (run : String) (q : Queue)
    → ((k : String) → lookup k (forget run q).entries ≡ keep_if (in_run run) (lookup k q.entries))
      × (owner_of run (forget run q) ≡ no_owner)
      × ((other : String)
          → (run == other) ≡ false
          → owner_of other (forget run q) ≡ owner_of other q)
unfolding forget owner_of
forget_lem run q = (
  λ k.
      lookup-remove_if (in_run run) k
        (cancel_run run (Api.fail cancelled "run cleaned up") q).entries
      ∙ keep-map run (Api.fail cancelled "run cleaned up") k q.entries,
  ground (arith, lookup-erase run run q.owners, eq_refl run),
  λ other n. ground (arith, lookup-erase run other q.owners),
)
