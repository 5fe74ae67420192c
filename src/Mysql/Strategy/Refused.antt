-- ===== src/Mysql/Strategy/Refused.antt =====
-- Complete of plugins/right/mysql-mock/plugin.go: a candidate that is refused leaves the database alone.
use x_mock_mcp.Mysql.State.{Store}
use x_mock_mcp.Mysql.Execute.Select.{Outcome, RowsResult, done, refused}
use x_mock_mcp.Prelude.{
  none, Option, String, ap, if_elim, inl, inr, leb, length, lookup, nat_eq, not, refl, some, subst,
  sym, ℕ, ◌==◌, ◌||◌, ◌∙◌, ◌≡◌, ◌⊎◌,
}
use x_mock_mcp.Api.{Failure, Result, err, ok}
use x_mock_mcp.Mysql.Strategy.Plugin.{Continuation, Plugin, Reply, faulted, of_core}
use x_mock_mcp.Mysql.Strategy.Complete.{
  Call, EntityFill, Payloads, Resolved, attempt, complete, conclude, fill_slot, fill_store, in_time,
  refusal, reply_of, run_statement, with_fill,
}
use x_mock_mcp.Mysql.Execute.Run.{Answer}
use x_mock_mcp.Plugin.Descriptor.{is_some}
use x_mock_mcp.Mysql.Strategy.Again.{Completes, complete-Completes, ends, again, mismatched}

-- The result comes from the statement that was run, so that the candidate was taken.
abbrev WasRun : Reply → Type 0
WasRun (faulted (of_core e)) = ⊥
WasRun _ = Unit

abbrev Leaves : Option Store → Option Store × Reply → Type 0
Leaves store (store', reply) = (store' ≡ store) ⊎ WasRun reply

reply_of-WasRun : (out : Outcome Answer) → WasRun (reply_of out)
reply_of-WasRun (done a) = tt
reply_of-WasRun (refused e) = tt

module _ (encoded_size : RowsResult → ℕ) (payloads : Payloads) (call : Call)
    (n : Continuation) where
  fill_slot-Leaves :
      (fill : EntityFill) (store : Option Store)
      → Leaves store (fill_slot encoded_size payloads call n fill store)
  unfolding fill_slot run_statement
  fill_slot-Leaves fill none = inl refl
  fill_slot-Leaves fill (some s) = go (fill_store n.slot fill.rows s)
    where
      go : (r : Result Store) → Leaves (some s) (run_statement encoded_size payloads call n s r)
      go (err e) = inl refl
      go (ok s') = inr (reply_of-WasRun _)

  with_fill-Leaves :
      (store : Option Store) (r : Result EntityFill)
      → Leaves store (with_fill encoded_size payloads call n store r)
  unfolding with_fill
  with_fill-Leaves store (err e) = inl refl
  with_fill-Leaves store (ok fill) =
      if_elim (Leaves store)
        (not (fill.slot_id == n.slot.id) || not (nat_eq (length fill.rows) (length n.slot.keys))) _
        _ (λ h. inl refl) (λ h. fill_slot-Leaves fill store)

  in_time-Leaves :
      (payload : String) (store : Option Store) (o : Option Failure)
      → Leaves store (in_time encoded_size payloads call n payload store o)
  unfolding in_time
  in_time-Leaves payload store (some e) = inl refl
  in_time-Leaves payload store none =
      if_elim (Leaves store) (leb n.deadline call.now_ms) _ _ (λ h. inl refl)
        (λ h. with_fill-Leaves store (payloads.decode payload))

  attempt-Leaves :
      (payload : String) (p : Plugin)
      → Leaves p.store (attempt encoded_size payloads call n payload p)
  unfolding attempt
  attempt-Leaves payload p =
      if_elim (Leaves p.store) (is_some (lookup n.connection_id p.closed)) _ _ (λ h. inl refl)
        (λ h. in_time-Leaves payload p.store call.cancelled)

-- Where Complete refuses a candidate (a wrong identity, too late, the wrong slot or keys, a value that
-- breaks a constraint), the plugin's database is as it was.
pub complete-refused :
    (encoded_size : RowsResult → ℕ) (payloads : Payloads) (call : Call) (r : Resolved)
    (p p' : Plugin) (e : Failure)
    → complete encoded_size payloads call r p ≡ (p', refusal e)
    → p'.store ≡ p.store
complete-refused encoded_size payloads call r p p' e h =
    go (complete encoded_size payloads call r p) (complete-Completes encoded_size payloads call r p)
      h
  where
    concluded :
        (n : Continuation) (out : Option Store × Reply)
        → Leaves p.store out
        → conclude encoded_size payloads r n p out ≡ (p', refusal e)
        → p'.store ≡ p.store
    concluded n (store, reply) (inl same) is =
        sym (ap (λ (o : Plugin × Reply). o.0.store) is) ∙ same
    concluded n (store, reply) (inr run) is =
        absurd (subst WasRun (ap (λ (o : Plugin × Reply). o.1) is) run)

    go :
        (out : Plugin × Reply)
        → Completes encoded_size payloads call r p out
        → out ≡ (p', refusal e)
        → p'.store ≡ p.store
    go _ mismatched is = sym (ap (λ (o : Plugin × Reply). o.0.store) is)
    go _ (again n found same version over) is = sym (ap (λ (o : Plugin × Reply). o.0.store) is)
    go _ (ends n found same version open_) is =
        concluded n (attempt encoded_size payloads call n r.payload p)
          (attempt-Leaves encoded_size payloads call n r.payload p) is
