-- ===== src/Mysql/Strategy/Again.antt =====
-- Complete of plugins/right/mysql-mock/plugin.go: what a call leaves, and what a repeated call gives.
use x_mock_mcp.Api.{fail, state_conflict}
use x_mock_mcp.Mysql.Execute.Select.{RowsResult}
use x_mock_mcp.Prelude.{
  Option, arith, false, if_elim, if◌then◌else◌, lookup, nat_eq, none, not, refl, some, true, ℕ,
  ◌==◌, ◌||◌, ◌≡◌,
}
use x_mock_mcp.Mysql.Strategy.Plugin.{Continuation, Plugin, Reply, is_over}
use x_mock_mcp.Mysql.Strategy.Complete.{
  conclude, Call, Payloads, Resolved, attempt, complete, refusal, repeated,
}

module _ (encoded_size : RowsResult → ℕ) (payloads : Payloads) where
  -- The ways in which Complete ends.
  pub data Completes (call : Call) (r : Resolved) (p : Plugin) : Plugin × Reply → Type 0 where
    mismatched :
        Completes call r p
          (p, refusal (fail state_conflict "continuation identity/version mismatch"))
    again :
        (n : Continuation)
        → lookup r.continuation p.pending ≡ some n
        → (n.request_id == r.request_id) ≡ true
        → nat_eq r.state_version 0 ≡ true
        → is_over n ≡ true
        → Completes call r p (p, repeated (payloads.sum r.payload) n)
    ends :
        (n : Continuation)
        → lookup r.continuation p.pending ≡ some n
        → (n.request_id == r.request_id) ≡ true
        → nat_eq r.state_version 0 ≡ true
        → is_over n ≡ false
        → Completes call r p (
            conclude encoded_size payloads r n p (attempt encoded_size payloads call n r.payload p))

  pub complete-Completes :
      (call : Call) (r : Resolved) (p : Plugin)
      → Completes call r p (complete encoded_size payloads call r p)
  unfolding complete
  complete-Completes call r p = go (lookup r.continuation p.pending) refl
    where
      go :
          (o : Option Continuation)
          → lookup r.continuation p.pending ≡ o
          → Completes call r p (elim o as (λ _. Plugin × Reply) [
            | none ↦ (p, refusal (fail state_conflict "continuation identity/version mismatch"))
            | some n ↦
                if not (n.request_id == r.request_id) || not (nat_eq r.state_version 0)
                then (p, refusal (fail state_conflict "continuation identity/version mismatch"))
                else if is_over n
                then (p, repeated (payloads.sum r.payload) n)
                else conclude encoded_size payloads r n p
                    (attempt encoded_size payloads call n r.payload p)
          ])
      go none e = mismatched
      go (some n) e =
          if_elim (Completes call r p)
            (not (n.request_id == r.request_id) || not (nat_eq r.state_version 0)) _ _
            (λ h. mismatched)
            (λ h.
              if_elim (Completes call r p) (is_over n) _ _
                (λ done_. again n e (ground (arith, h)) (ground (arith, h)) done_)
                (λ open_. ends n e (ground (arith, h)) (ground (arith, h)) open_))
