-- ===== src/Mysql/Strategy/Ending.antt =====
-- plugins/right/mysql-mock/plugin.go: how continuations end, and what holds at every time.
use x_mock_mcp.Mysql.Strategy.Single.{visit-IsSound}
use x_mock_mcp.Mysql.State.{new_state, Store}
use x_mock_mcp.Mysql.Execute.Select.{RowsResult}
use x_mock_mcp.Mysql.Strategy.Again.{Completes, again, complete-Completes, ends}
use x_mock_mcp.Mysql.Strategy.Complete.{conclude, Call, Payloads, Resolved, complete}
use x_mock_mcp.Api.{Result, err, ok, Failure, fail}
use x_mock_mcp.Prelude.{
  Assoc, lookup-map_values, lookup-map_values-none, lookup_cases, ltb, true, ◌&&◌, Bool, map_values,
  Option, String, ap, arith, false, if_elim, inl, inr, length, lookup, not, refl, some, subst, sym,
  ℕ, ◌==◌, ◌∙◌, ◌≡◌, ◌≤◌,
}
use x_mock_mcp.Mysql.Strategy.Plugin.{
  open_with, start, Opening, Statement, has_plans, is_started, matches, same_mode, strict_replay,
  Bundle, Mode, count_call, new_plugin, note_violation, stop, Reply, cancel_if, Continuation,
  Plugin, Slot, end_with, is_over,
}
use mathlib.Core.Option.{none, some-injective, none-ne-some}
use x_mock_mcp.Api.{cancelled}
use x_mock_mcp.Mysql.Strategy.Plugin.{close}
use x_mock_mcp.Mysql.Strategy.Again.{ends, again, mismatched}
use x_mock_mcp.Mysql.Strategy.Steps.{
  here, there, visits, completes, closes, stops, starts, notes, counts, states, Step, Steps,
  ended-IsSound, IsSound,
}

-- Stop and connection.close end some of the open continuations.
cancelled-IsSound :
    (concerned : Continuation → Bool) (e : Failure) (p p' : Plugin)
    → p'.pending ≡ map_values (cancel_if concerned e) p.pending
    → p'.slots ≡ p.slots
    → IsSound p
    → IsSound p'
unfolding cancel_if is_over end_with
cancelled-IsSound concerned e p p' pending slots s = record {
  once = λ k n found.
      let (old, was, is) = before_map p.pending k n (sym (at k pending) ∙ found) in
      subst (λ (x : Continuation). x.closes ≤ 1) (sym is) (once_ old (s.once k old was));
  named = λ k n found open_.
      let (old, was, is) = before_map p.pending k n (sym (at k pending) ∙ found) in
      let (slot_is, was_open) =
        open_before old (ap (λ (x : Continuation). is_over x) (sym is) ∙ open_) in
      ap (λ (m : Assoc String). lookup n.slot.id m) slots
      ∙ ap (λ (x : Continuation). lookup x.slot.id p.slots) is
      ∙ ap (λ (x : Slot). lookup x.id p.slots) slot_is
      ∙ s.named k old was was_open;
}
  where
    at : (k : String) {m m' : Assoc Continuation} → m ≡ m' → lookup k m ≡ lookup k m'
    at k e = ap (λ (x : Assoc Continuation). lookup k x) e

    before_map :
        (m : Assoc Continuation) (k : String) (n : Continuation)
        → lookup k (map_values (cancel_if concerned e) m) ≡ some n
        → (old : Continuation) × (lookup k m ≡ some old) × (n ≡ cancel_if concerned e old)
    before_map m k n found = elim (lookup_cases k m) [
      | inl absent ↦
          absurd (
            none-ne-some n
              (sym (lookup-map_values-none (cancel_if concerned e) k m absent) ∙ found))
      | inr (old, was) ↦ (
        old,
        was,
        some-injective n (cancel_if concerned e old)
            (sym found ∙ lookup-map_values (cancel_if concerned e) k old m was),
      )
    ]

    once_ : (n : Continuation) → n.closes ≤ 1 → (cancel_if concerned e n).closes ≤ 1
    once_ n h =
        if_elim (λ (x : Continuation). x.closes ≤ 1) (concerned n && not (is_over n)) _ _
          (λ g. ground (arith, g)) (λ g. h)

    open_before :
        (n : Continuation)
        → is_over (cancel_if concerned e n) ≡ false
        → ((cancel_if concerned e n).slot ≡ n.slot) × (is_over n ≡ false)
    open_before n =
        if_elim (λ (x : Continuation). is_over x ≡ false → (x.slot ≡ n.slot) × (is_over n ≡ false))
          (concerned n && not (is_over n)) _ _ (λ g h. absurd (ground (arith, h)))
          (λ g h. (refl, h))

ends-IsSound :
    (encoded_size : RowsResult → ℕ) (payloads : Payloads) (call : Call) (r : Resolved) (p : Plugin)
    → IsSound p
    → IsSound (complete encoded_size payloads call r p).0
ends-IsSound encoded_size payloads call r p s =
    go (complete encoded_size payloads call r p) (complete-Completes encoded_size payloads call r p)
  where
    stored :
        (n : Continuation) (out : Option Store × Reply)
        → lookup r.continuation p.pending ≡ some n
        → is_over n ≡ false
        → IsSound (conclude encoded_size payloads r n p out).0
    stored n (store, reply) found open_ =
        let sound = ended-IsSound r.continuation (payloads.sum r.payload) reply n p found open_ s in
        record { once = sound.once; named = sound.named }

    go : (out : Plugin × Reply) → Completes encoded_size payloads call r p out → IsSound out.0
    go _ mismatched = s
    go _ (again n found same version over) = s
    go _ (ends n found same version open_) = stored n _ found open_

new-IsSound : (store : Store) (b : Bundle) (mode : Mode) → IsSound (new_plugin store b mode)
unfolding new_plugin lookup
new-IsSound store b mode = record {
  once = λ k n found. absurd (ground (arith, found));
  named = λ k n found open_. absurd (ground (arith, found));
}

-- Start leaves the plugin, or begins anew without a continuation.
start-IsSound : (o : Opening) (p : Plugin) → IsSound p → IsSound (start o p).0
unfolding start
start-IsSound o p s = go o.mode o.strategy o.bundle o.compiles
  where
    opened :
        (mode : Mode) (b : Bundle) (o' : Opening) (store : Option Store)
        → IsSound (open_with mode b o' store p).0
    opened mode b o' none = s
    opened mode b o' (some store) =
        if_elim (λ (x : Plugin × Option Failure). IsSound x.0) (is_started p.store) _ _ (λ h. s)
          (λ h. new-IsSound store b mode)

    go :
        (mode : Result Mode) (strategy : Option Mode) (bundle : Result Bundle)
        (compiles : Statement → Bool)
        → IsSound
            (start
              (record { mode = mode; strategy = strategy; bundle = bundle; compiles = compiles })
              p).0
    go (err e) strategy bundle compiles = s
    go (ok mode) strategy (err e) compiles =
        if_elim (λ (x : Plugin × Option Failure). IsSound x.0) (not (matches strategy mode)) _ _
          (λ h. s) (λ h. s)
    go (ok mode) strategy (ok b) compiles =
        if_elim (λ (x : Plugin × Option Failure). IsSound x.0) (not (matches strategy mode)) _ _
          (λ h. s)
          (λ h.
            if_elim (λ (x : Plugin × Option Failure). IsSound x.0)
              (b.requires_generation && same_mode mode strict_replay) _ _ (λ h'. s)
              (λ h'.
                if_elim (λ (x : Plugin × Option Failure). IsSound x.0)
                  (not (has_plans compiles b.statements)) _ _ (λ h''. s)
                  (λ h''.
                    opened mode b
                      (record {
                        mode = ok mode;
                        strategy = strategy;
                        bundle = ok b;
                        compiles = compiles;
                      })
                      (new_state b.scenario))))

Step-IsSound :
    {encoded_size : RowsResult → ℕ} {payloads : Payloads} {p p' : Plugin}
    → Step encoded_size payloads p p'
    → IsSound p
    → IsSound p'
unfolding close stop note_violation count_call
Step-IsSound (visits now_ms c table slot p new) s = visit-IsSound now_ms c table slot p new s
Step-IsSound {encoded_size} {payloads} (completes call r p) s =
    ends-IsSound encoded_size payloads call r p s
Step-IsSound (closes id p) s =
    cancelled-IsSound (λ n. n.connection_id == id) (fail cancelled "connection closed") p
      (close id p) refl refl s
Step-IsSound (stops p) s =
    cancelled-IsSound (λ n. true) (fail cancelled "plugin stopped") p (stop p) refl refl s
Step-IsSound (starts o p) s = start-IsSound o p s
Step-IsSound (notes e p) s =
    if_elim IsSound (ltb (length p.violations) 16) _ _
      (λ h. record { once = s.once; named = s.named }) (λ h. s)
Step-IsSound (counts id p) s = record { once = s.once; named = s.named }
Step-IsSound (states store p) s = record { once = s.once; named = s.named }

Steps-IsSound_in :
    {encoded_size : RowsResult → ℕ} {payloads : Payloads} {p p' : Plugin}
    → Steps encoded_size payloads p p'
    → IsSound p
    → IsSound p'
Steps-IsSound_in here s = s
Steps-IsSound_in (there steps step) s = Step-IsSound step (Steps-IsSound_in steps s)

-- From a plugin that was just started on, however its operations interleave, Stop and Start
-- included, a continuation ends at most once, and a slot has at most one open continuation.
pub Steps-single :
    {encoded_size : RowsResult → ℕ} {payloads : Payloads} (store : Store) (b : Bundle) (mode : Mode)
    {p : Plugin}
    → Steps encoded_size payloads (new_plugin store b mode) p
    → ((k : String) (n : Continuation) → lookup k p.pending ≡ some n → n.closes ≤ 1)
      × ((k j : String) (n n' : Continuation)
          → lookup k p.pending ≡ some n
          → lookup j p.pending ≡ some n'
          → is_over n ≡ false
          → is_over n' ≡ false
          → n.slot.id ≡ n'.slot.id
          → k ≡ j)
Steps-single store b mode {p = p} steps =
    let s = Steps-IsSound_in steps (new-IsSound store b mode) in
    (
      s.once,
      λ k j n n' found found' open_ open_' same. some-injective k j (
          sym (s.named k n found open_)
          ∙ ap (λ (x : String). lookup x p.slots) same
          ∙ s.named j n' found' open_'),
    )
