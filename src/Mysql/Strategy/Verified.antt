-- ===== src/Mysql/Strategy/Verified.antt =====
-- verifyState of plugins/right/mysql-mock/verification.go, against what the assertions mean.
use mathlib.Core.List.{cons-ne-nil}
use x_mock_mcp.Mysql.Value.{Value}
use x_mock_mcp.Mysql.Strategy.Verify.{
  Issue, assertion_issues, call_count, call_issues, field_issues, has_base, has_values, report_of,
  row_issues, session_issues, state_issues, values_of, verify_state,
}
use x_mock_mcp.Mysql.Schema.{Entity, cell, equal_value}
use x_mock_mcp.Mysql.State.{Connection, Store, at_table, view}
use x_mock_mcp.Mysql.Strategy.Plugin.{CallExpectation, StateAssertion}
use x_mock_mcp.Prelude.{
  nat_eq, sym, ◌∙◌, All, Assoc, List, String, [], arith, bit, false, if_elim, ltb, none, refl, true,
  ℕ, ◌&&◌, ◌++◌, ◌+◌, ◌||◌, ◌↔◌, ◌∷◌, ◌≡◌, ◌≤◌,
}

-- The calls of a statement keep to their bounds.
abbrev pub InBounds : Assoc ℕ → String × CallExpectation → Type 0
InBounds counts (id, e) = (e.min ≤ call_count id counts) × (call_count id counts ≤ e.max)

abbrev pub matching : Assoc Value → List Entity → ℕ
matching where_ [] = 0
matching where_ (row ∷ rows) = bit (has_values where_ row) + matching where_ rows

-- As many rows match as the assertion says, and they have the values that it says.
abbrev pub Holds : Assoc (Assoc Entity) → StateAssertion → Type 0
Holds v a =
    (matching a.where_ (values_of (at_table a.table v)) ≡ a.count)
    × All (λ row. has_values a.where_ row ≡ true → has_values a.fields row ≡ true)
        (values_of (at_table a.table v))

abbrev pub HasCommitted : String × Connection → Type 0
HasCommitted (id, c) = has_base c.base ≡ false

no_cons : {A : Type 0} {x : A} {l : List A} → x ∷ l ≡ [] → ⊥
no_cons {x = x} {l} h = cons-ne-nil x l h

append_nil : {A : Type 0} (l m : List A) → l ++ m ≡ [] → (l ≡ []) × (m ≡ [])
append_nil [] m h = (refl, h)
append_nil (x ∷ l) m h = absurd (no_cons h)

nil_append : {A : Type 0} (l m : List A) → l ≡ [] → m ≡ [] → l ++ m ≡ []
nil_append [] m h g = g
nil_append (x ∷ l) m h g = absurd (no_cons h)

calls_fine :
    (es : Assoc CallExpectation) (counts : Assoc ℕ)
    → (call_issues es counts ≡ []) ↔ All (InBounds counts) es
unfolding call_issues
calls_fine [] counts = (λ h. tt, λ h. refl)
calls_fine ((id, e) ∷ es) counts =
    if_elim (λ (l : List Issue). (l ≡ []) ↔ All (InBounds counts) ((id, e) ∷ es))
      (ltb (call_count id counts) e.min || ltb e.max (call_count id counts)) _ _
      (λ out. (λ h. absurd (no_cons h), λ h. absurd (ground (arith, out, h.0.0, h.0.1))))
      (λ fine.
        let (to, from) = calls_fine es counts in
        (λ h. ((ground (arith, fine), ground (arith, fine)), to h), λ h. from h.1))

fields_fine :
    (table : String) (vs : Assoc Value) (row : Entity)
    → (field_issues table vs row ≡ []) ↔ (has_values vs row ≡ true)
unfolding field_issues has_values
fields_fine table [] row = (λ h. refl, λ h. refl)
fields_fine table ((name, v) ∷ vs) row =
    if_elim
      (λ (l : List Issue). (l ≡ []) ↔ ((equal_value (cell row name) v && has_values vs row) ≡ true))
      (equal_value (cell row name) v) _ _
      (λ same.
        let (to, from) = fields_fine table vs row in
        (λ h. ground (arith, same, to h), λ h. from (ground (arith, same, h))))
      (λ differs. (λ h. absurd (no_cons h), λ h. absurd (ground (arith, differs, h))))

rows_counted :
    (a : StateAssertion) (rows : List Entity) → (row_issues a rows).1 ≡ matching a.where_ rows
unfolding row_issues
rows_counted a [] = refl
rows_counted a (row ∷ rows) =
    if_elim (λ (x : List Issue × ℕ). x.1 ≡ bit (has_values a.where_ row) + matching a.where_ rows)
      (has_values a.where_ row) _ _ (λ h. rw h (omega (arith, rows_counted a rows)))
      (λ h. rw h (omega (arith, rows_counted a rows)))

rows_fine :
    (a : StateAssertion) (rows : List Entity)
    → ((row_issues a rows).0 ≡ [])
      ↔ All (λ row. has_values a.where_ row ≡ true → has_values a.fields row ≡ true) rows
unfolding row_issues
rows_fine a [] = (λ h. tt, λ h. refl)
rows_fine a (row ∷ rows) =
    let (to, from) = rows_fine a rows in
    let (fto, ffrom) = fields_fine a.table a.fields row in
    if_elim
      (λ (x : List Issue × ℕ). (x.0 ≡ []) ↔ (
        (has_values a.where_ row ≡ true → has_values a.fields row ≡ true)
        × All (λ row. has_values a.where_ row ≡ true → has_values a.fields row ≡ true) rows))
      (has_values a.where_ row) _ _
      (λ h. (
        λ g.
            let (f, r) = append_nil (field_issues a.table a.fields row) (row_issues a rows).0 g in
            (λ m. fto f, to r),
        λ g.
            nil_append (field_issues a.table a.fields row) (row_issues a rows).0 (ffrom (g.0 h))
              (from g.1),
      ))
      (λ h. (λ g. (λ m. absurd (ground (arith, h, m)), to g), λ g. from g.1))

assertion_fine :
    (a : StateAssertion) (v : Assoc (Assoc Entity)) → (assertion_issues a v ≡ []) ↔ Holds v a
unfolding assertion_issues
assertion_fine a v =
    let rows = values_of (at_table a.table v) in
    let (to, from) = rows_fine a rows in
    if_elim (λ (l : List Issue). (l ≡ []) ↔ Holds v a) (nat_eq (row_issues a rows).1 a.count) _ _
      (λ same. (λ h. (sym (rows_counted a rows) ∙ ground (arith, same), to h), λ h. from h.1))
      (λ differs. (
        λ h. absurd (no_cons (append_nil (row_issues a rows).0 _ h).1),
        λ h. absurd (ground (arith, differs, rows_counted a rows ∙ h.0)),
      ))

state_fine :
    (as_ : List StateAssertion) (v : Assoc (Assoc Entity))
    → (state_issues as_ v ≡ []) ↔ All (Holds v) as_
unfolding state_issues
state_fine [] v = (λ h. tt, λ h. refl)
state_fine (a ∷ as_) v =
    let (to, from) = assertion_fine a v in
    let (tos, froms) = state_fine as_ v in
    (
      λ h. let (l, m) = append_nil (assertion_issues a v) (state_issues as_ v) h in (to l, tos m),
      λ h. nil_append (assertion_issues a v) (state_issues as_ v) (from h.0) (froms h.1),
    )

sessions_fine : (cs : Assoc Connection) → (session_issues cs ≡ []) ↔ All HasCommitted cs
unfolding session_issues
sessions_fine [] = (λ h. tt, λ h. refl)
sessions_fine ((id, c) ∷ cs) =
    if_elim (λ (l : List Issue). (l ≡ []) ↔ ((has_base c.base ≡ false) × All HasCommitted cs))
      (has_base c.base) _ _
      (λ open_. (λ h. absurd (no_cons h), λ h. absurd (ground (arith, open_, h.0))))
      (λ closed. let (to, from) = sessions_fine cs in (λ h. (closed, to h), λ h. from h.1))

passed_iff : (l : List Issue) → ((report_of l).passed ≡ true) ↔ (l ≡ [])
passed_iff [] = (λ h. refl, λ h. refl)
passed_iff (i ∷ l) = (λ h. absurd (ground (arith, h)), λ h. absurd (no_cons h))

-- The verification passes exactly if every counted statement was called within its bounds, every
-- assertion on the final state holds of the committed rows, and no connection has writes that it
-- has not committed.
pub verify_state-passes :
    (es : Assoc CallExpectation) (as_ : List StateAssertion) (counts : Assoc ℕ) (s : Store)
    → ((verify_state es as_ counts s).passed ≡ true)
      ↔ (All (InBounds counts) es × All (Holds (view s none)) as_ × All HasCommitted s.sessions)
unfolding verify_state
verify_state-passes es as_ counts s =
    let (to0, from0) =
      passed_iff
        (call_issues es counts ++ (state_issues as_ (view s none) ++ session_issues s.sessions)) in
    let (to1, from1) = calls_fine es counts in
    let (to2, from2) = state_fine as_ (view s none) in
    let (to3, from3) = sessions_fine s.sessions in
    (
      λ h.
          let (a, rest) = append_nil (call_issues es counts) _ (to0 h) in
          let (b, c) = append_nil (state_issues as_ (view s none)) _ rest in (to1 a, to2 b, to3 c),
      λ h. from0 (
          nil_append (call_issues es counts) _ (from1 h.0)
            (nil_append (state_issues as_ (view s none)) _ (from2 h.1) (from3 h.2))),
    )
