-- ===== src/Mysql/Strategy/Steps.antt =====
-- plugins/right/mysql-mock/plugin.go as it runs: what its operations do to the continuations.
use x_mock_mcp.Mysql.State.{Store}
use x_mock_mcp.Mysql.Execute.Select.{RowsResult}
use x_mock_mcp.Api.{Failure}
use x_mock_mcp.Mysql.Strategy.Plugin.{
  close, Continuation, Opening, Plugin, Reply, Slot, count_call, end_with, is_over, note_violation,
  start, stop,
}
use x_mock_mcp.Mysql.Strategy.Slots.{Caller, visit}
use x_mock_mcp.Mysql.Strategy.Complete.{Call, Payloads, Resolved, complete}
use x_mock_mcp.Prelude.{
  insert, Assoc, String, ap, arith, false, inl, inr, lookup, lookup-insert, none, refl, some, subst,
  sym, text_cases, true, ℕ, ◌∙◌, ◌≡◌, ◌≢◌, ◌≤◌, ◌⊎◌,
}
use mathlib.Core.Option.{some-injective}

-- A turn of the loop over the slots of an Execute with a new token, Complete, connection.close, Stop,
-- Start, and the parts of Execute that leave the continuations alone: they note a violation, count a call
-- or change the state.
pub data Step (encoded_size : RowsResult → ℕ) (payloads : Payloads) : Plugin → Plugin → Type 0 where
  visits :
      (now_ms : ℕ) (c : Caller) (table : String) (slot : Slot) (p : Plugin)
      → lookup c.token p.pending ≡ none
      → Step encoded_size payloads p (visit now_ms c table slot p).0
  completes :
      (call : Call) (r : Resolved) (p : Plugin)
      → Step encoded_size payloads p (complete encoded_size payloads call r p).0
  closes : (id : String) (p : Plugin) → Step encoded_size payloads p (close id p)
  stops : (p : Plugin) → Step encoded_size payloads p (stop p)
  starts : (o : Opening) (p : Plugin) → Step encoded_size payloads p (start o p).0
  notes : (e : Failure) (p : Plugin) → Step encoded_size payloads p (note_violation e p)
  counts : (id : String) (p : Plugin) → Step encoded_size payloads p (count_call id p).0
  states : (s : Store) (p : Plugin) → Step encoded_size payloads p (record p { store = some s })

pub data Steps (encoded_size : RowsResult → ℕ) (payloads : Payloads)
    : Plugin → Plugin → Type 0 where
  here : {p : Plugin} → Steps encoded_size payloads p p
  there :
      {p p' p'' : Plugin}
      → Steps encoded_size payloads p p'
      → Step encoded_size payloads p' p''
      → Steps encoded_size payloads p p''

-- A continuation ends at most once, and one that is open is the one that its slot names.
pub record IsSound (p : Plugin) : Type 0 where
  pub once : (k : String) (n : Continuation) → lookup k p.pending ≡ some n → n.closes ≤ 1
  pub named :
      (k : String) (n : Continuation)
      → lookup k p.pending ≡ some n
      → is_over n ≡ false
      → lookup n.slot.id p.slots ≡ some k

-- What is found after one continuation was put in place: that one, or one that was there.
pub put_cases :
    (k j : String) (new n : Continuation) (pending : Assoc Continuation)
    → lookup j (insert k new pending) ≡ some n
    → ((k ≡ j) × (new ≡ n)) ⊎ ((k ≢ j) × (lookup j pending ≡ some n))
put_cases k j new n pending found = elim (text_cases k j) [
  | inl (e_, same) ↦ inl (same, some-injective new n (sym (simp (lookup-insert, e_) refl) ∙ found))
  | inr (e_, differs) ↦ inr (differs, sym (simp (lookup-insert, e_) refl) ∙ found)
]

pub end_with_over :
    (hash : String) (reply : Reply) (n : Continuation) → is_over (end_with hash reply n) ≡ true
unfolding is_over end_with
end_with_over hash reply n = ground arith

-- An open continuation ends.
pub ended-IsSound :
    (k hash : String) (reply : Reply) (n : Continuation) (p : Plugin)
    → lookup k p.pending ≡ some n
    → is_over n ≡ false
    → IsSound p
    → IsSound (record p { pending = insert k (end_with hash reply n) p.pending })
unfolding is_over end_with
ended-IsSound k hash reply n p found open_ s = record {
  once = λ j n' is. elim (put_cases k j _ n' p.pending is) [
    | inl (same, new) ↦ subst (λ (x : Continuation). x.closes ≤ 1) new (ground (arith, open_))
    | inr (differs, was) ↦ s.once j n' was
  ];
  named = λ j n' is free. elim (put_cases k j _ n' p.pending is) [
    | inl (same, new) ↦
        absurd (ground (arith, free, ap (λ (x : Continuation). is_over x) (sym new) ∙ refl))
    | inr (differs, was) ↦ s.named j n' was free
  ];
}
