-- ===== src/Mysql/Strategy/Single.antt =====
-- plugins/right/mysql-mock/plugin.go: a slot is asked for by one open continuation at a time.

use x_mock_mcp.Api.{deadline_exceeded, fail}
use x_mock_mcp.Prelude.{
  insert, Option, String, ap, arith, eq_refl, false, if_elim, if◌then◌else◌, inl, inr, leb, length,
  lookup, lookup-erase, lookup-insert, none, not, refl, some, subst, sym, text_cases, ℕ, ◌==◌, ◌||◌,
  ◌∙◌, ◌≡◌, ◌≢◌, ◌≤◌,
}
use x_mock_mcp.Mysql.Strategy.Plugin.{
  Continuation, Plugin, Slot, end_with, faulted, is_over, of_core, same_mode, strict_replay,
}
use x_mock_mcp.Mysql.Strategy.Slots.{
  Caller, Visit, ask, find_continuation, forget_slot, goes_on, has_reply, meet, new_continuation,
  visit,
}
use mathlib.Core.Option.{some-injective, none-ne-some}
use x_mock_mcp.Mysql.Strategy.Steps.{end_with_over, ended-IsSound, IsSound, put_cases}

-- No open continuation is for the slot.
abbrev pub IsFree : Plugin → Slot → Type 0
IsFree p slot =
    (k : String) (n : Continuation)
    → lookup k p.pending ≡ some n
    → is_over n ≡ false
    → n.slot.id ≢ slot.id

ask-IsSound :
    (c : Caller) (slot : Slot) (p : Plugin)
    → lookup c.token p.pending ≡ none
    → IsFree p slot
    → IsSound p
    → IsSound (ask c slot p).0
unfolding ask new_continuation is_over
ask-IsSound c slot p new free s =
    if_elim (λ (o : Plugin × Visit). IsSound o.0) (same_mode p.mode strict_replay) _ _ (λ h. s)
      (λ h.
        if_elim (λ (o : Plugin × Visit). IsSound o.0) (leb 128 (length p.pending)) _ _ (λ g. s)
          (λ g. record {
            once = λ j n is. elim (put_cases c.token j (new_continuation c slot) n p.pending is) [
              | inl (same, made) ↦ subst (λ (x : Continuation). x.closes ≤ 1) made (omega arith)
              | inr (differs, was) ↦ s.once j n was
            ];
            named = λ j n is open_.
                elim (put_cases c.token j (new_continuation c slot) n p.pending is) [
                  | inl (same, made) ↦
                      subst
                        (λ (x : Continuation).
                          lookup x.slot.id (insert slot.id c.token p.slots) ≡ some j)
                        made (simp (lookup-insert, eq_refl) (ap (λ (x : String). some x) same))
                  | inr (differs, was) ↦ elim (text_cases slot.id n.slot.id) [
                    | inl (e_, same) ↦ absurd (free j n was open_ (sym same))
                    | inr (e_, apart) ↦ simp (lookup-insert, e_) (s.named j n was open_)
                  ]
                ];
          }))

forget_slot-IsSound :
    (slot : Slot) (p : Plugin) → IsFree p slot → IsSound p → IsSound (forget_slot slot p)
forget_slot-IsSound slot p free s = record {
  once = s.once;
  named = λ j n is open_. elim (text_cases slot.id n.slot.id) [
    | inl (e_, same) ↦ absurd (free j n is open_ (sym same))
    | inr (e_, apart) ↦ simp (lookup-erase, e_) (s.named j n is open_)
  ];
}

-- The continuation that is found is the one that the slot names.
found_named :
    (id : String) (p : Plugin) (token : String) (n : Continuation)
    → find_continuation id p ≡ some (token, n)
    → (lookup id p.slots ≡ some token) × (lookup token p.pending ≡ some n)
unfolding find_continuation
found_named id p token n h = go (lookup id p.slots) refl h
  where
    inner :
        (t : String) (o : Option Continuation)
        → lookup id p.slots ≡ some t
        → lookup t p.pending ≡ o
        → (elim o as (λ _. Option (String × Continuation)) [ none ↦ none | some m ↦ some (t, m) ])
          ≡ some (token, n)
        → (lookup id p.slots ≡ some token) × (lookup token p.pending ≡ some n)
    inner t none e f g = absurd (none-ne-some (token, n) g)
    inner t (some m) e f g =
        let both = some-injective (t, m) (token, n) g in
        let t_is : t ≡ token = ap (λ (x : String × Continuation). x.0) both in
        (
          e ∙ ap (λ (x : String). some x) t_is,
          ap (λ (x : String). lookup x p.pending) (sym t_is)
              ∙ f
              ∙ ap (λ (x : String × Continuation). some (x.1)) both,
        )

    go :
        (o : Option String)
        → lookup id p.slots ≡ o
        → (elim o as (λ _. Option (String × Continuation)) [
          | none ↦ none
          | some t ↦ (elim (lookup t p.pending) [ none ↦ none | some m ↦ some (t, m) ])
        ])
          ≡ some (token, n)
        → (lookup id p.slots ≡ some token) × (lookup token p.pending ≡ some n)
    go none e g = absurd (none-ne-some (token, n) g)
    go (some t) e g = inner t (lookup t p.pending) e refl g

found_nothing :
    (id : String) (p : Plugin)
    → find_continuation id p ≡ none
    → (k : String) (n : Continuation) → lookup id p.slots ≡ some k
    → lookup k p.pending ≢ some n
unfolding find_continuation
found_nothing id p h k n named found =
    none-ne-some (k, n)
      (subst
        (λ (o : Option Continuation).
          ◌≡◌ {A = Option (String × Continuation)} none
            (elim o [ none ↦ none | some m ↦ some (k, m) ]))
        found
        (subst
          (λ (o : Option String). ◌≡◌ {A = Option (String × Continuation)} none (elim o [
            | none ↦ none
            | some t ↦ (elim (lookup t p.pending) [ none ↦ none | some m ↦ some (t, m) ])
          ]))
          named (sym h)))

open_is_found :
    (slot : Slot) (p : Plugin) (token : String) (n : Continuation)
    → find_continuation slot.id p ≡ some (token, n)
    → IsSound p
    → (k : String) (n' : Continuation) → lookup k p.pending ≡ some n'
    → is_over n' ≡ false
    → n'.slot.id ≡ slot.id
    → (k ≡ token) × (n' ≡ n)
open_is_found slot p token n h s k n' found open_ same =
    let (names, there_) = found_named slot.id p token n h in
    let k_is : k ≡ token =
      some-injective k token
        (sym (s.named k n' found open_) ∙ ap (λ (x : String). lookup x p.slots) same ∙ names) in
    (k_is, some-injective n' n (sym found ∙ ap (λ (x : String). lookup x p.pending) k_is ∙ there_))

pub visit-IsSound :
    (now_ms : ℕ) (c : Caller) (table : String) (slot : Slot) (p : Plugin)
    → lookup c.token p.pending ≡ none
    → IsSound p
    → IsSound (visit now_ms c table slot p).0
unfolding visit meet
visit-IsSound now_ms c table slot p new s =
    if_elim (λ (o : Plugin × Visit). IsSound o.0) (not (slot.table == table) || slot.materialized) _
      _ (λ h. s) (λ h. go (find_continuation slot.id p) refl)
  where
    expired : Continuation → Continuation
    expired n = end_with "" (faulted (of_core (fail deadline_exceeded "reference fill expired"))) n

    without : String → Continuation → Plugin
    without token n = record p { pending = insert token (expired n) p.pending }

    renewed :
        (token : String) (n : Continuation)
        → find_continuation slot.id p ≡ some (token, n)
        → is_over n ≡ false
        → IsSound (ask c slot (forget_slot slot (without token n))).0
    renewed token n h open_ =
        let (names, there_) = found_named slot.id p token n h in
        let sound : IsSound (without token n) =
          ended-IsSound token ""
            (faulted (of_core (fail deadline_exceeded "reference fill expired"))) n p there_ open_
            s in
        let free : IsFree (without token n) slot = λ k n' found free_ same.
          elim (put_cases token k (expired n) n' p.pending found) [
            | inl (k_is, made) ↦ ground (
              arith,
              end_with_over "" (faulted (of_core (fail deadline_exceeded "reference fill expired")))
                  n,
              sym free_ ∙ ap (λ (x : Continuation). is_over x) (sym made),
            )
            | inr (differs, was) ↦
                differs (sym (open_is_found slot p token n h s k n' was free_ same).0)
          ] in
        let unused : lookup c.token (without token n).pending ≡ none =
          elim (text_cases token c.token) [
            | inl (e_, same) ↦ absurd (
                none-ne-some n
                  (sym new ∙ ap (λ (x : String). lookup x p.pending) (sym same) ∙ there_))
            | inr (e_, apart) ↦ simp (lookup-insert, e_) new
          ] in
        ask-IsSound c slot (forget_slot slot (without token n)) unused free
          (forget_slot-IsSound slot (without token n) free sound)

    go :
        (o : Option (String × Continuation))
        → find_continuation slot.id p ≡ o
        → IsSound
            (elim o as (λ _. Plugin × Visit) [
              | none ↦ ask c slot p
              | some (token, n) ↦
                  if is_over n
                  then (if has_reply n.reply then (p, goes_on) else ask c slot (forget_slot slot p))
                  else meet now_ms c slot token n p
            ]).0
    go none h =
        ask-IsSound c slot p new
          (λ k n found open_ same.
            found_nothing slot.id p h k n
              (ap (λ (x : String). lookup x p.slots) (sym same) ∙ s.named k n found open_) found)
          s
    go (some (token, n)) h =
        if_elim (λ (o : Plugin × Visit). IsSound o.0) (is_over n) _ _
          (λ over.
            if_elim (λ (o : Plugin × Visit). IsSound o.0) (has_reply n.reply) _ _ (λ g. s)
              (λ g.
                let free : IsFree p slot = λ k n' found open_ same.
                  let (k_is, n_is) = open_is_found slot p token n h s k n' found open_ same in
                  ground (arith, over, sym open_ ∙ ap (λ (x : Continuation). is_over x) n_is) in
                ask-IsSound c slot (forget_slot slot p) new free
                  (forget_slot-IsSound slot p free s)))
          (λ open_.
            if_elim (λ (o : Plugin × Visit). IsSound o.0) (leb n.deadline now_ms) _ _
              (λ late. renewed token n h open_) (λ g. s))
