-- ===== src/Run/Launch.antt =====
-- Start of internal/run/manager.go: where a job runs, and the variables that it finds.
use x_mock_mcp.Run.Steps.{added, refused, Started, start-Started}
use x_mock_mcp.Api.{Result, err, ok}
use x_mock_mcp.Prelude.Int.{◌≤ℤ◌, pos}
use x_mock_mcp.Run.Manager.{Host, Manager, Status, start}
use x_mock_mcp.Run.Command.{
  refuses_job, stays_inside, JobSpec, add_all, environment, inherit, inherited,
}
use x_mock_mcp.Prelude.{
  Bool-cases, arith, eq_iff, All, true, false, if_elim, ◌⊎◌, Assoc, List, Option, String, [], ap,
  if◌then◌else◌, inl, inr, insert, lookup, lookup-insert, none, refl, some, sym, text_cases, ◌==◌,
  ◌∙◌, ◌∷◌, ◌≡◌,
}
use x_mock_mcp.Plugin.Paths.{segments}
use x_mock_mcp.Plugin.Inside.{IsOrdinary, safe_relative-inside}

-- The keys of a Go map are all different.
abbrev pub IsMap : Assoc String → Type 0
IsMap [] = Unit
IsMap ((k, v) ∷ m) = (lookup k m ≡ none) × IsMap m

abbrev pub or_else : Option String → Option String → Option String
or_else none o = o
or_else (some v) o = some v

-- os.LookupEnv for the names in a list
abbrev pub look_up_in : (String → Option String) → List String → String → Option String
look_up_in look_up [] k = none
look_up_in look_up (j ∷ js) k =
    let rest = look_up_in look_up js k in if j == k then look_up k else rest

lookup-add_all :
    (m envs : Assoc String) (k : String)
    → IsMap m
    → lookup k (add_all m envs) ≡ or_else (lookup k m) (lookup k envs)
unfolding add_all lookup
lookup-add_all [] envs k h = refl
lookup-add_all ((j, v) ∷ m) envs k (absent, h) =
    lookup-add_all m (insert j v envs) k h ∙ (elim (text_cases j k) [
      | inl (e_, same) ↦ simp (lookup-insert, e_, sym (ap (λ x. lookup x m) same) ∙ absent) refl
      | inr (e_, differs) ↦ simp (lookup-insert, e_) refl
    ])

look_up_in_cases :
    (look_up : String → Option String) (ks : List String) (k : String)
    → (look_up_in look_up ks k ≡ none) ⊎ (look_up_in look_up ks k ≡ look_up k)
look_up_in_cases look_up [] k = inl refl
look_up_in_cases look_up (j ∷ js) k =
    if_elim (λ (o : Option String). (o ≡ none) ⊎ (o ≡ look_up k)) (j == k) _ _ (λ e. inr refl)
      (λ e. look_up_in_cases look_up js k)

-- A variable that is set, or is not, already, is found again where the rest of the list names it.
named_again :
    (look_up : String → Option String) (js : List String) (k : String) (o envs : Option String)
    → look_up k ≡ o
    → or_else (look_up_in look_up js k) (or_else o envs) ≡ or_else o envs
named_again look_up js k none envs e = elim (look_up_in_cases look_up js k) [
  | inl h ↦ rw h refl
  | inr h ↦ rw (h ∙ e) refl
]
named_again look_up js k (some v) envs e = elim (look_up_in_cases look_up js k) [
  | inl h ↦ rw h refl
  | inr h ↦ rw (h ∙ e) refl
]

lookup-inherit :
    (look_up : String → Option String) (ks : List String) (envs : Assoc String) (k : String)
    → lookup k (inherit look_up ks envs) ≡ or_else (look_up_in look_up ks k) (lookup k envs)
unfolding inherit
lookup-inherit look_up [] envs k = refl
lookup-inherit look_up (j ∷ js) envs k = elim (text_cases j k) [
  | inl (e_, same) ↦
      rw e_ (here (look_up j) (ap look_up (sym same)) e_ (λ m. lookup-inherit look_up js m k))
  | inr (e_, differs) ↦ rw e_ (elsewhere (look_up j) e_ (λ m. lookup-inherit look_up js m k))
]
  where
    here :
        (o : Option String)
        → look_up k ≡ o
        → (j == k) ≡ true
        → ((m : Assoc String)
            → lookup k (inherit look_up js m) ≡ or_else (look_up_in look_up js k) (lookup k m))
        → lookup k (elim o [
          | none ↦ inherit look_up js envs
          | some v ↦ inherit look_up js (insert j v envs)
        ])
          ≡ or_else (look_up k) (lookup k envs)
    here none unset e later =
        later envs
        ∙ named_again look_up js k none (lookup k envs) unset
        ∙ ap (λ (x : Option String). or_else x (lookup k envs)) (sym unset)
    here (some v) set e later =
        later (insert j v envs)
        ∙ ap (or_else (look_up_in look_up js k)) (simp (lookup-insert, e) refl)
        ∙ named_again look_up js k (some v) (lookup k envs) set
        ∙ ap (λ (x : Option String). or_else x (lookup k envs)) (sym set)

    elsewhere :
        (o : Option String)
        → (j == k) ≡ false
        → ((m : Assoc String)
            → lookup k (inherit look_up js m) ≡ or_else (look_up_in look_up js k) (lookup k m))
        → lookup k (elim o [
          | none ↦ inherit look_up js envs
          | some v ↦ inherit look_up js (insert j v envs)
        ])
          ≡ or_else (look_up_in look_up js k) (lookup k envs)
    elsewhere none e later = later envs
    elsewhere (some v) e later = later (insert j v envs) ∙ simp (lookup-insert, e) refl

-- A variable of the process is the run's own, or else the job's, or else one of the seven names
-- that are inherited; no other variable of the daemon reaches the job.
pub lookup-environment :
    (look_up : String → Option String) (job extra : Assoc String) (k : String)
    → IsMap job
    → IsMap extra
    → lookup k (environment look_up job extra)
      ≡ or_else (lookup k extra) (or_else (lookup k job) (look_up_in look_up inherited k))
unfolding environment lookup
lookup-environment look_up job extra k h g =
    lookup-add_all extra (add_all job (inherit look_up inherited [])) k g
    ∙ ap (or_else (lookup k extra)) (
        lookup-add_all job (inherit look_up inherited []) k h
        ∙ ap (or_else (lookup k job))
            (lookup-inherit look_up inherited [] k ∙ or_none (look_up_in look_up inherited k)))
  where
    or_none : (o : Option String) → or_else o (lookup k []) ≡ o
    or_none none = refl
    or_none (some v) = refl

-- Where Start succeeds, the job runs in the root or in a directory that only ordinary names lead
-- to, for at least one millisecond and at most an hour, under an identifier that was free.
pub start-inside :
    (host : Host) (id env : String) (job : JobSpec) (extra : Assoc String) (m : Manager)
    (s : Status)
    → (start host id env job extra m).1 ≡ ok s
    → (lookup id m.runs ≡ none)
      × ((rel : String) × (host.relative ≡ ok rel) × ((rel ≡ ".") ⊎ All IsOrdinary (segments rel)))
      × (pos 1 ≤ℤ job.timeout_ms)
      × (job.timeout_ms ≤ℤ pos 3600000)
unfolding start refuses_job stays_inside
start-inside host id env job extra m s h = go _ (start-Started host id env job extra m) h
  where
    place :
        (o : Result String)
        → stays_inside o ≡ true
        → (rel : String) × (o ≡ ok rel) × ((rel ≡ ".") ⊎ All IsOrdinary (segments rel))
    place (err e) p = absurd (ground (arith, p))
    place (ok rel) p = (
      rel,
      refl,
      elim (Bool-cases (rel == ".")) [
        | inl e ↦ inl ((eq_iff rel ".").0 e)
        | inr e ↦ inr (safe_relative-inside rel (ground (arith, p, e)))
      ],
    )

    go :
        (out : Manager × Result Status)
        → Started host id env job m out
        → out.1 ≡ ok s
        → (lookup id m.runs ≡ none)
          × ((rel : String) × (host.relative ≡ ok rel)
              × ((rel ≡ ".") ⊎ All IsOrdinary (segments rel)))
          × (pos 1 ≤ℤ job.timeout_ms)
          × (job.timeout_ms ≤ℤ pos 3600000)
    go _ (refused e) p = absurd (ground (arith, p))
    go _ (added pid now command fine inside absent) p =
        (absent, place host.relative inside, ground (arith, fine), ground (arith, fine))
