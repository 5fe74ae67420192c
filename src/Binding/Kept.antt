-- ===== src/Binding/Kept.antt =====
-- internal/binding/manager.go: what an entry keeps in every later step.

use x_mock_mcp.Api.{Failure, fail, ok, plugin_exited}
use x_mock_mcp.Binding.Manager.{Attempt, Binding, Entry, Manager, create}
use x_mock_mcp.Binding.Upkeep.{assign, cleanup, exited, seal_entry, unlist}
use x_mock_mcp.Prelude.{
  Assoc, Option, String, ap, arith, eq_iff, false, if_elim, if◌then◌else◌, inl, inr, insert, lookup,
  lookup-insert, none, refl, some, subst, sym, text_cases, ◌==◌, ◌∙◌, ◌≡◌, ◌≢◌, ◌≤◌, ◌⊎◌,
}
use x_mock_mcp.Binding.Steps.{
  Acts, Created, Step, Steps, acts, added, assigns, cleans, create-Created, creates, exits, here,
  refused, seals, there, unlists,
}
use mathlib.Core.Option.{some-injective, none-ne-some}

-- What a step leaves of an entry: its binding and its configuration; its run, once it has one; and
-- what is over stays over.
pub record IsLater (e e' : Entry) : Type 0 where
  pub binding : e'.binding ≡ e.binding
  pub config : e'.config ≡ e.config
  pub run : e.run_id ≢ "" → e'.run_id ≡ e.run_id
  pub sealed : e.active ≡ false → e'.active ≡ false
  pub gone : e.listed ≡ false → e'.listed ≡ false
  pub cleaned : e.cleanups ≤ e'.cleanups

IsLater-refl : (e : Entry) → IsLater e e
IsLater-refl e = record {
  binding = refl;
  config = refl;
  run = λ h. refl;
  sealed = λ h. h;
  gone = λ h. h;
  cleaned = omega arith;
}

pub IsLater-trans : {e f g : Entry} → IsLater e f → IsLater f g → IsLater e g
IsLater-trans {e} {f} {g} p q = record {
  binding = q.binding ∙ p.binding;
  config = q.config ∙ p.config;
  run = λ h. q.run (subst (λ (r : String). r ≢ "") (sym (p.run h)) h) ∙ p.run h;
  sealed = λ h. q.sealed (p.sealed h);
  gone = λ h. q.gone (p.gone h);
  cleaned = omega (arith, p.cleaned, q.cleaned);
}

pub unlist-IsLater : (e : Entry) → IsLater e (unlist e)
unfolding unlist
unlist-IsLater e =
    if_elim (IsLater e) e.listed _ _
      (λ h. record {
        binding = refl;
        config = refl;
        run = λ h. refl;
        sealed = λ h. h;
        gone = λ h. refl;
        cleaned = omega arith;
      })
      (λ h. IsLater-refl e)

pub cleanup-IsLater : (e : Entry) → IsLater e (cleanup e)
unfolding cleanup
cleanup-IsLater e = record {
  binding = refl;
  config = refl;
  run = λ h. refl;
  sealed = λ h. refl;
  gone = λ h. h;
  cleaned = omega arith;
}

pub Acts-IsLater : {act : Entry → Entry} {e : Entry} → Acts act e → IsLater e (act e)
unfolding seal_entry assign
Acts-IsLater (unlists e) = unlist-IsLater e
Acts-IsLater (cleans e taken) = cleanup-IsLater e
Acts-IsLater (seals e) =
    if_elim (IsLater e) e.listed _ _
      (λ h. record {
        binding = refl;
        config = refl;
        run = λ h. refl;
        sealed = λ g. refl;
        gone = λ h. h;
        cleaned = omega arith;
      })
      (λ h. IsLater-refl e)
Acts-IsLater (assigns run e) =
    if_elim (λ (o : Entry × Option Failure). IsLater e o.0) (e.run_id == "") _ _
      (λ h. record {
        binding = refl;
        config = refl;
        run = λ g. absurd (g ((eq_iff e.run_id "").0 h));
        sealed = λ h. h;
        gone = λ h. h;
        cleaned = omega arith;
      })
      (λ h. IsLater-refl e)

-- What is found after one entry was put in place: that one, or one that was there.
pub put_cases :
    (k j : String) (new e : Entry) (entries : Assoc Entry)
    → lookup j (insert k new entries) ≡ some e
    → ((k ≡ j) × (new ≡ e)) ⊎ ((k ≢ j) × (lookup j entries ≡ some e))
put_cases k j new e entries found = elim (text_cases k j) [
  | inl (e_, same) ↦ inl (same, some-injective new e (sym (simp (lookup-insert, e_) refl) ∙ found))
  | inr (e_, differs) ↦ inr (differs, sym (simp (lookup-insert, e_) refl) ∙ found)
]

-- An entry after a step.
abbrev pub Later : Manager → String → Entry → Type 0
Later m id e = (e' : Entry) × (lookup id m.entries ≡ some e') × IsLater e e'

pub exited_entries : (id : String) (m : Manager) → (exited id m).entries ≡ m.entries
unfolding exited
exited_entries id m = go (lookup id m.entries)
  where
    go :
        (o : Option Entry)
        → (elim o as (λ _. Manager) [
          | none ↦ m
          | some e ↦ if e.cancelled then m else record m {
            failures = insert id (fail plugin_exited "plugin process or IPC exited") m.failures;
          }
        ]).entries
          ≡ m.entries
    go none = refl
    go (some e) =
        if_elim (λ (x : Manager). x.entries ≡ m.entries) e.cancelled _ _ (λ h. refl) (λ h. refl)

Step-Later :
    {m m' : Manager}
    → Step m m'
    → (id : String) (e : Entry) → lookup id m.entries ≡ some e
    → Later m' id e
Step-Later (creates a c m fresh) id e found = go (create a c m) (create-Created a c m) fresh
  where
    go :
        (out : Manager × Attempt)
        → Created a c m out
        → ((b : Binding) → out.1.result ≡ ok b → lookup b.id m.entries ≡ none)
        → Later out.0 id e
    go _ (refused made f) h = (e, found, IsLater-refl e)
    go _ (added b checks is) h = elim (text_cases b.id id) [
      | inl (e_, same) ↦
          absurd
            (none-ne-some e (sym (h b refl) ∙ ap (λ (k : String). lookup k m.entries) same ∙ found))
      | inr (e_, differs) ↦ (e, simp (lookup-insert, e_) found, IsLater-refl e)
    ]
Step-Later (acts k act m old there_ a) id e found = elim (text_cases k id) [
  | inl (e_, same) ↦ (
    act old,
    simp (lookup-insert, e_) refl,
    subst (λ (x : Entry). IsLater x (act old))
        (some-injective old e (sym there_ ∙ ap (λ (j : String). lookup j m.entries) same ∙ found))
        (Acts-IsLater a),
  )
  | inr (e_, differs) ↦ (e, simp (lookup-insert, e_) found, IsLater-refl e)
]
Step-Later (exits k m) id e found =
    (e, ap (λ (es : Assoc Entry). lookup id es) (exited_entries k m) ∙ found, IsLater-refl e)

-- However many steps later, an entry is there and is a later form of the same.
pub Steps-IsLater :
    {m m' : Manager}
    → Steps m m'
    → (id : String) (e : Entry) → lookup id m.entries ≡ some e
    → (e' : Entry) × (lookup id m'.entries ≡ some e') × IsLater e e'
Steps-IsLater here id e found = (e, found, IsLater-refl e)
Steps-IsLater (there steps step) id e found =
    let (e', found', later) = Steps-IsLater steps id e found in
    let (e'', found'', later') = Step-Later step id e' found' in
    (e'', found'', IsLater-trans later later')
