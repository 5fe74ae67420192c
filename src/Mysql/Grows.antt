-- ===== src/Mysql/Grows.antt =====
-- How the committed rows of state.go and transaction.go may change: a row stays, or is written
-- under a version that no row had before.
use x_mock_mcp.Prelude.{
  map_values, subst, ℕ, ◌+◌, ◌^◌, ◌≤◌, ◌<◌, ◌≡◌, refl, sym, ap, ◌∙◌, ◌⊎◌, inl, inr, String, Bool,
  true, false, Option, none, some, [], ◌∷◌, Assoc, lookup, insert, lookup-insert, text_cases,
  Option-cases, Bool-cases, arith, if◌then◌else◌, ◌==◌,
}
use x_mock_mcp.Mysql.Schema.{Entity}
use x_mock_mcp.Mysql.State.{RecordVersion, Store, next_version, at_table, or_empty}
use x_mock_mcp.Mysql.Execute.Run.{version_at, write_all, versioned, commit_rows}
use x_mock_mcp.Mysql.Transaction.{commit_writes, clone_written}

-- The committed record under a table and a key.
abbrev pub record_at : String → String → Assoc (Assoc RecordVersion) → Option RecordVersion
record_at t k m = lookup k (at_table t m)

-- The record stays, or a new one has the version `v`.
abbrev pub Stamped : ℕ → Option RecordVersion → Option RecordVersion → Type 0
Stamped v old new = (new ≡ old) ⊎ ((r : RecordVersion) × (new ≡ some r) × (r.version ≡ v))

pub lookup-at_table {ℓ} :
    {A : Type ℓ} (t u k : String) (w : Assoc A) (m : Assoc (Assoc A))
    → lookup k (at_table u (insert t w m))
      ≡ (if t == u then lookup k w else lookup k (at_table u m))
unfolding at_table
lookup-at_table t u k w m =
    ap (λ (o : Option (Assoc _)). lookup k (or_empty o)) (lookup-insert t u w m) ∙ branch (t == u)
  where
    branch :
        (b : Bool)
        → lookup k (or_empty (if b then some w else lookup u m))
          ≡ (if b then lookup k w else lookup k (or_empty (lookup u m)))
    branch true = refl
    branch false = refl

pub write_all-Stamped :
    (v : ℕ) (k : String) (w : Assoc (Option Entity)) (m : Assoc RecordVersion)
    → Stamped v (lookup k m) (lookup k (write_all (versioned v w) m))
unfolding write_all versioned
write_all-Stamped v k [] m = inl refl
write_all-Stamped v k ((j, row) ∷ w) m =
    elim (write_all-Stamped v k w (insert j (record { row = row; version = v }) m)) [
      | inr stamped ↦ inr stamped
      | inl same ↦ elim (Bool-cases (j == k)) [
        | inl e ↦ inr (record { row = row; version = v }, rw (same, lookup-insert, e) refl, refl)
        | inr e ↦ inl (rw (same, lookup-insert, e) refl)
      ]
    ]

pub commit_rows-Stamped :
    (v : ℕ) (t u k : String) (w : Assoc (Option Entity)) (m : Assoc (Assoc RecordVersion))
    → Stamped v (record_at u k m) (record_at u k (commit_rows t v w m))
unfolding commit_rows
commit_rows-Stamped v t u k w m = rw lookup-at_table (elim (text_cases t u) [
  | inl (e, same) ↦ rw e (
      subst
        (λ (x : String).
          Stamped v (record_at x k m) (lookup k (write_all (versioned v w) (at_table t m))))
        same (write_all-Stamped v k w (at_table t m)))
  | inr (e, other) ↦ rw e (inl refl)
])

Stamped-trans :
    (v : ℕ) (a b c : Option RecordVersion) → Stamped v a b → Stamped v b c → Stamped v a c
Stamped-trans v a b c h (inr later) = inr later
Stamped-trans v a b c h (inl e) = rw e h

pub commit_writes-Stamped :
    (v : ℕ) (u k : String) (w : Assoc (Assoc (Option Entity))) (m : Assoc (Assoc RecordVersion))
    → Stamped v (record_at u k m) (record_at u k (commit_writes v w m))
unfolding commit_writes
commit_writes-Stamped v u k [] m = inl refl
commit_writes-Stamped v u k ((t, rows) ∷ w) m =
    Stamped-trans v (record_at u k m) _ _
      (commit_rows-Stamped v t u k (map_values clone_written rows) m)
      (commit_writes-Stamped v u k w _)

-- No committed row has a version that the store has not reached.
abbrev pub IsClocked : Store → Type 0
IsClocked s =
    (t k : String) (r : RecordVersion) → record_at t k s.committed ≡ some r → r.version ≤ s.version

abbrev pub version_in : Option RecordVersion → ℕ
version_in none = 0
version_in (some r) = r.version

pub version_at_lem :
    (t k : String) (m : Assoc (Assoc RecordVersion))
    → version_at t k m ≡ version_in (record_at t k m)
unfolding version_at
version_at_lem t k m = elim (Option-cases (record_at t k m)) [
  | inl e ↦ rw (version_at, e) refl
  | inr (r, e) ↦ rw (version_at, e) refl
]

pub version_at_le :
    (s : Store) → IsClocked s → (t k : String) → version_at t k s.committed ≤ s.version
version_at_le s h t k = rw version_at_lem (elim (Option-cases (record_at t k s.committed)) [
  | inl e ↦ rw e (omega arith)
  | inr (r, e) ↦ rw e (h t k r e)
])

-- A record stays, or has a version after the clock of `s` and not after that of `s'`.
abbrev pub Newer : Store → Store → Option RecordVersion → Option RecordVersion → Type 0
Newer s s' old new =
    (new ≡ old)
    ⊎ ((r : RecordVersion) × (new ≡ some r) × (s.version < r.version) × (r.version ≤ s'.version))

pub record Grows (s s' : Store) : Type 0 where
  pub clock : s.version ≤ s'.version
  pub rows : (t k : String) → Newer s s' (record_at t k s.committed) (record_at t k s'.committed)

pub Grows-same : {s s' : Store} → s'.committed ≡ s.committed → s'.version ≡ s.version → Grows s s'
Grows-same {s} {s'} c v = record {
  clock = omega arith;
  rows = λ t k. inl (ap (λ (m : Assoc (Assoc RecordVersion)). record_at t k m) c);
}

pub next_version_lem : (v : ℕ) → v + 1 < 2 ^ 64 → next_version v ≡ v + 1
next_version_lem v h = omega arith

-- Rows stamped with the next version, when the clock moves to it.
pub Grows-stamp :
    {s s' : Store}
    → s.version + 1 < 2 ^ 64
    → s'.version ≡ next_version s.version
    → ((t k : String) → Stamped s'.version (record_at t k s.committed) (record_at t k s'.committed))
    → Grows s s'
Grows-stamp {s} {s'} room clock stamped = record {
  clock = omega (arith, next_version_lem s.version room);
  rows = λ t k. elim (stamped t k) [
    | inl same ↦ inl same
    | inr (r, at, v) ↦ inr (r, at, omega (arith, next_version_lem s.version room), omega arith)
  ];
}

pub Grows-refl : (s : Store) → Grows s s
Grows-refl s = Grows-same refl refl

pub Grows-trans : {s s' s'' : Store} → Grows s s' → Grows s' s'' → Grows s s''
Grows-trans {s} {s'} {s''} g h = record {
  clock = omega (arith, g.clock, h.clock);
  rows = λ t k. elim (h.rows t k) [
    | inr (r, at, after, upto) ↦ inr (r, at, omega (arith, g.clock), upto)
    | inl same ↦ rw same (elim (g.rows t k) [
      | inl e ↦ inl e
      | inr (r, at, after, upto) ↦ inr (r, at, after, omega (arith, h.clock))
    ])
  ];
}

pub Grows-IsClocked : {s s' : Store} → Grows s s' → IsClocked s → IsClocked s'
Grows-IsClocked {s} {s'} g h t k r at = elim (g.rows t k) [
  | inl same ↦ omega (arith, h t k r (sym same ∙ at), g.clock)
  | inr (r', at', after, upto) ↦ omega (arith, ap version_in (sym at' ∙ at))
]

-- A row whose version is the same has not been written.
pub Grows-same_version :
    {s s' : Store}
    → Grows s s'
    → IsClocked s
    → (t k : String) → version_at t k s'.committed ≡ version_at t k s.committed
    → record_at t k s'.committed ≡ record_at t k s.committed
Grows-same_version {s} {s'} g h t k e = elim (g.rows t k) [
  | inl same ↦ same
  | inr (r, at, after, upto) ↦
      absurd
        (omega (arith, version_at_le s h t k, ap version_in at, version_at_lem t k s'.committed))
]
