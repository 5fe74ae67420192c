-- ===== src/Binding/Answered.antt =====
-- dispatch of internal/binding/manager.go: where an answer to the application comes from.

use x_mock_mcp.Plugin.Valid.{done, asks, refuses}
use x_mock_mcp.Prelude.{
  Bool, Bool-cases, eq_iff, false, if◌then◌else◌, inl, inr, not, subst, ◌==◌, Option, String, arith,
  if_elim, ltb, none, refl, some, true, ℕ, ◌≡◌, ◌≤◌, ◌⊎◌,
}
use x_mock_mcp.Binding.Dispatch.{
  decide, deliver, fill, Moment, Request, Right, capped, dispatch, stamped,
}
use x_mock_mcp.Api.{fail, state_conflict, unmatched_request, Failure, Need, Result, err, ok}
use x_mock_mcp.Binding.Manager.{Entry, after, unless}
use x_mock_mcp.Plugin.Descriptor.{Formats}
use x_mock_mcp.Plugin.Decision.{Decision, completed, check_decision, needs_data}
use x_mock_mcp.Plugin.Valid.{IsExact, check_decision-IsExact}

pub after_ok :
    {A B : Type 0} (r : Result A) (next : A → Result B) (b : B)
    → after r next ≡ ok b
    → (a : A) × (r ≡ ok a) × (next a ≡ ok b)
after_ok (err e) next b h = absurd (ground (arith, h))
after_ok (ok a) next b h = (a, refl, h)

pub unless_ok :
    {A : Type 0} (o : Option Failure) (next : Result A) (a : A)
    → unless o next ≡ ok a
    → (o ≡ none) × (next ≡ ok a)
unless_ok none next a h = (refl, h)
unless_ok (some e) next a h = absurd (ground (arith, h))

-- The deadline that the strategy is given is not after the request's.
capped_le : (deadline : ℕ) (n : Need) → (capped deadline n).deadline_ms ≤ deadline
unfolding capped
capped_le deadline n =
    if_elim (λ (x : Need). x.deadline_ms ≤ deadline) (ltb deadline n.deadline_ms) _ _
      (λ h. omega arith) (λ h. ground (arith, h))

capped_keeps :
    (deadline : ℕ) (n : Need)
    → ((capped deadline n).continuation ≡ n.continuation)
      × ((capped deadline n).state_version ≡ n.state_version)
unfolding capped
capped_keeps deadline n =
    if_elim (λ (x : Need). (x.continuation ≡ n.continuation) × (x.state_version ≡ n.state_version))
      (ltb deadline n.deadline_ms) _ _ (λ h. (refl, refl)) (λ h. (refl, refl))

module _ (formats : Formats) (right_ : Right) (strategy : Option (Need → Result String))
    (t : Moment) (e : Entry) (q : Request) (out : String) where
  -- The right plugin has given the answer at once.
  pub record Executed : Type 0 where
    pub decision : Decision
    pub execution : right_.execute (stamped t e q) ≡ ok decision
    pub kind : decision.kind ≡ completed
    pub exact : IsExact decision
    pub answer : decision.payload ≡ out

  -- The strategy has filled the need of this request, before the request's context was over, and the
  -- right plugin completed it.
  pub record Filled : Type 0 where
    pub decision : Decision
    pub need : Need
    pub resolve : Need → Result String
    pub candidate : String
    pub execution : right_.execute (stamped t e q) ≡ ok decision
    pub asked : decision.need ≡ some need
    pub same_request : need.request_id ≡ t.id
    pub configured : strategy ≡ some resolve
    pub resolved : resolve (capped (stamped t e q).deadline_ms need) ≡ ok candidate
    pub not_late : t.late ≡ none
    pub in_time :
        (capped (stamped t e q).deadline_ms need).deadline_ms ≤ (stamped t e q).deadline_ms
    pub completion :
        right_.complete (record {
          request_id = t.id;
          continuation = need.continuation;
          state_version = need.state_version;
          payload = candidate;
        })
        ≡ ok out

  filled :
      (payload : String) (n : Need)
      → right_.execute (stamped t e q)
        ≡ ok (record { kind = needs_data; payload = payload; need = some n; error = none })
      → fill right_ strategy t (stamped t e q) n ≡ ok out
      → Filled
  unfolding fill deliver stamped
  filled payload n ran h = elim (Bool-cases (n.request_id == t.id)) [
    | inr e_ ↦ absurd (ground (arith, h, e_))
    | inl same ↦
        go strategy refl
          (subst
            (λ (b : Bool).
              (if not b
                then err (fail state_conflict "right returned a different request identity")
                else (elim strategy as (λ _. Result String) [
                  | none ↦ err (fail unmatched_request "no data strategy configured")
                  | some resolve ↦
                      deliver right_ t.late t.id (capped (stamped t e q).deadline_ms n)
                        (resolve (capped (stamped t e q).deadline_ms n))
                ]))
              ≡ ok out)
            same h)
          ((eq_iff n.request_id t.id).0 same)
  ]
    where
      completed_with : String → String → ℕ → Result String
      completed_with c continuation version = right_.complete (record {
        request_id = t.id;
        continuation = continuation;
        state_version = version;
        payload = c;
      })

      go :
          (o : Option (Need → Result String))
          → strategy ≡ o
          → (elim o as (λ _. Result String) [
            | none ↦ err (fail unmatched_request "no data strategy configured")
            | some resolve ↦
                deliver right_ t.late t.id
                  (capped (stamped t e q).deadline_ms n)
                  (resolve (capped (stamped t e q).deadline_ms n))
          ])
            ≡ ok out
          → n.request_id ≡ t.id
          → Filled
      go none p h same = absurd (ground (arith, h))
      go (some resolve) p h same =
          let (c, gave, h1) = after_ok (resolve (capped (stamped t e q).deadline_ms n)) _ out h in
          let (not_late_, h2) = unless_ok t.late _ out h1 in
          record {
            decision = record { kind = needs_data; payload = payload; need = some n; error = none };
            need = n;
            resolve = resolve;
            candidate = c;
            execution = ran;
            asked = refl;
            same_request = same;
            configured = p;
            resolved = gave;
            not_late = not_late_;
            in_time = capped_le (stamped t e q).deadline_ms n;
            completion =
                let same_need = capped_keeps (stamped t e q).deadline_ms n in
                subst (λ (s : String). completed_with c s n.state_version ≡ ok out) same_need.0
                  (subst
                    (λ (v : ℕ).
                      completed_with c (capped (stamped t e q).deadline_ms n).continuation v
                      ≡ ok out)
                    same_need.1 h2);
          }

  decided :
      (d : Decision)
      → IsExact d
      → right_.execute (stamped t e q) ≡ ok d
      → decide right_ strategy t (stamped t e q) d ≡ ok out
      → Executed ⊎ Filled
  unfolding decide
  decided _ (done payload some_) ran h = inl (record {
    decision = record { kind = completed; payload = payload; need = none; error = none };
    execution = ran;
    kind = refl;
    exact = done payload some_;
    answer = ground (arith, h);
  })
  decided _ (asks payload n a b c f) ran h = inr (filled payload n ran h)
  decided _ (refuses payload f a) ran h = absurd (ground (arith, h))

  -- An answer reaches the application only while the binding takes requests, and only as the right
  -- plugin's own: at once, or by its completion of the same request with the candidate that the
  -- strategy gave for a deadline not after the request's, while the request's context was not over.
  pub dispatch_ok :
      dispatch formats right_ strategy t e q ≡ ok out → (e.active ≡ true) × (Executed ⊎ Filled)
  unfolding dispatch
  dispatch_ok h = go e.active refl h
    where
      go :
          (b : Bool)
          → e.active ≡ b
          → (if not b
              then err (fail state_conflict "binding not ready")
              else after (right_.execute (stamped t e q)) (λ d.
                unless (check_decision formats d) (decide right_ strategy t (stamped t e q) d)))
            ≡ ok out
          → (e.active ≡ true) × (Executed ⊎ Filled)
      go false p h = absurd (ground (arith, h))
      go true p h =
          let (d, ran, h1) = after_ok (right_.execute (stamped t e q)) _ out h in
          let (valid, h2) = unless_ok (check_decision formats d) _ out h1 in
          (p, decided d (check_decision-IsExact formats d valid) ran h2)
