-- ===== src/Mysql/Noting.antt =====
-- hold and its parts, of execute in state.go: a transaction notes the version of each row at its
-- first write to it.
use x_mock_mcp.Prelude.{
  ℕ, ◌≡◌, refl, sym, ap, ◌∙◌, ◌⊎◌, inl, inr, String, Option, some, [], ◌∷◌, Assoc, lookup, insert,
  lookup-insert, text_cases, arith, subst, lookup_cases, eq_refl,
}
use x_mock_mcp.Mysql.Schema.{Entity}
use x_mock_mcp.Mysql.State.{RecordVersion, Connection, at_table}
use x_mock_mcp.Mysql.Execute.Run.{version_at, note_base, note_bases, write_all, hold}
use x_mock_mcp.Mysql.Grows.{lookup-at_table}
use x_mock_mcp.Mysql.Commit.{Noted}

module _ (t : String) (m : Assoc (Assoc RecordVersion)) where
  note_base-at : (k : String) (b : Assoc ℕ) → (v : ℕ) × (lookup k (note_base t k m b) ≡ some v)
  unfolding note_base
  note_base-at k b = elim (lookup_cases k b) [
    | inr (w, found) ↦ rw (note_base, found) (w, found)
    | inl absent ↦ rw (note_base, absent, lookup-insert, eq_refl) (version_at t k m, refl)
  ]

  note_base-keeps :
      (j k : String) (v : ℕ) (b : Assoc ℕ)
      → lookup k b ≡ some v
      → lookup k (note_base t j m b) ≡ some v
  unfolding note_base
  note_base-keeps j k v b h = elim (lookup_cases j b) [
    | inr (w, found) ↦ rw (note_base, found) h
    | inl absent ↦
        rw (note_base, absent, lookup-insert)
          (elim (text_cases j k) [
            | inr (e, other) ↦ rw e h
            | inl (e, same) ↦
                absurd (ground (arith, sym absent ∙ (ap (λ (x : String). lookup x b) same ∙ h)))
          ])
  ]

  note_base-new :
      (j k : String) (v : ℕ) (b : Assoc ℕ)
      → lookup k (note_base t j m b) ≡ some v
      → (lookup k b ≡ some v) ⊎ (v ≡ version_at t k m)
  unfolding note_base
  note_base-new j k v b = elim (lookup_cases j b) [
    | inr (w, found) ↦ rw (note_base, found) (λ h. inl h)
    | inl absent ↦
        rw (note_base, absent, lookup-insert)
          (elim (text_cases j k) [
            | inr (e, other) ↦ rw e (λ h. inl h)
            | inl (e, same) ↦ rw (e, same) (λ h. inr (ground arith))
          ])
  ]

  note_bases-keeps :
      (k : String) (v : ℕ) (rows : Assoc (Option Entity)) (b : Assoc ℕ)
      → lookup k b ≡ some v
      → lookup k (note_bases t rows m b) ≡ some v
  unfolding note_bases
  note_bases-keeps k v [] b h = h
  note_bases-keeps k v ((j, row) ∷ rows) b h =
      note_bases-keeps k v rows (note_base t j m b) (note_base-keeps j k v b h)

  pub note_bases-new :
      (k : String) (v : ℕ) (rows : Assoc (Option Entity)) (b : Assoc ℕ)
      → lookup k (note_bases t rows m b) ≡ some v
      → (lookup k b ≡ some v) ⊎ (v ≡ version_at t k m)
  unfolding note_bases
  note_bases-new k v [] b h = inl h
  note_bases-new k v ((j, row) ∷ rows) b h = elim (note_bases-new k v rows (note_base t j m b) h) [
    | inl before ↦ note_base-new j k v b before
    | inr now ↦ inr now
  ]

  -- Each row that is written is noted, unless it had been written before.
  pub note_bases-covers :
      (k : String) (row : Option Entity) (rows w : Assoc (Option Entity)) (b : Assoc ℕ)
      → lookup k (write_all rows w) ≡ some row
      → (lookup k w ≡ some row) ⊎ ((v : ℕ) × (lookup k (note_bases t rows m b) ≡ some v))
  unfolding note_bases write_all
  note_bases-covers k row [] w b h = inl h
  note_bases-covers k row ((j, r) ∷ rows) w b h =
      elim (note_bases-covers k row rows (insert j r w) (note_base t j m b) h) [
        | inr noted ↦ inr noted
        | inl there ↦ elim (text_cases j k) [
          | inr (e, other) ↦ inl (ground (arith, lookup-insert j k r w))
          | inl (e, same) ↦
              let at = note_base-at j b in
              inr (
                at.0,
                note_bases-keeps k at.0 rows _
                    (subst (λ (x : String). lookup x (note_base t j m b) ≡ some at.0) same at.1),
              )
        ]
      ]

-- Every row that the transaction has written is noted.
abbrev pub Covers : Connection → Type 0
Covers c =
    (t k : String) (row : Option Entity)
    → lookup k (at_table t c.writes) ≡ some row
    → (v : ℕ) × Noted c t k v

pub hold-Covers :
    (t : String) (rows : Assoc (Option Entity)) (m : Assoc (Assoc RecordVersion)) (c : Connection)
    → Covers c
    → Covers (hold t rows m c)
unfolding hold
hold-Covers t rows m c covers u k row = rw lookup-at_table (elim (text_cases t u) [
  | inr (e, other) ↦
      rw e (λ h. let (v, at) = covers u k row h in (v, lookup-at_table t u k _ c.base ∙ rw e at))
  | inl (e, same) ↦ rw e (λ h.
      elim (note_bases-covers t m k row rows (at_table t c.writes) (at_table t c.base) h) [
        | inr (v, at) ↦ (v, lookup-at_table t u k _ c.base ∙ rw e at)
        | inl before ↦
            let (v, at) = covers t k row before in
            (
              v,
              lookup-at_table t u k _ c.base
                  ∙ rw e (note_bases-keeps t m k v rows (at_table t c.base) at),
            )
      ])
])

pub hold-new :
    (t : String) (rows : Assoc (Option Entity)) (m : Assoc (Assoc RecordVersion)) (c : Connection)
    (u k : String) (v : ℕ)
    → Noted (hold t rows m c) u k v
    → Noted c u k v ⊎ (v ≡ version_at u k m)
unfolding hold
hold-new t rows m c u k v = rw lookup-at_table (elim (text_cases t u) [
  | inr (e, other) ↦ rw e (λ h. inl h)
  | inl (e, same) ↦
      rw
        (
          e,
          ap (λ (x : String). lookup k (at_table x c.base)) (sym same),
          ap (λ (x : String). version_at x k m) (sym same),
        )
        (note_bases-new t m k v rows (at_table t c.base))
])
