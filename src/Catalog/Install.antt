-- ===== src/Catalog/Install.antt =====
-- catalog.go: Install and RecoverReferences keep the counters of references sound.
use x_mock_mcp.Catalog.Reference.{key, valid_digest}
use x_mock_mcp.Catalog.Sound.{
  IsKept, IsSound, Token, active_in, held, IsKept-in, locked_cases, ok_or,
}
use x_mock_mcp.Api.{Failure, Result, err, ok}
use x_mock_mcp.Catalog.Records.{
  Disk, Extracted, Faults, Record, install, install_body, recover_references, unused,
}
use x_mock_mcp.Prelude.{
  Assoc, Bool-cases, Option, Option-cases, String, ap, arith, false, if_elim, inl, inr, insert,
  lookup, lookup-insert, lookup-map_values, lookup-map_values-none, lookup_cases, map_values, none,
  not, refl, some, subst, text_cases, ◌==◌, ◌≡◌, ◌≤◌,
}

module _ (f : Faults) (d : Disk) (ts : Assoc Token) (s : IsSound d ts) where
  -- RecoverReferences is called when nothing holds a reference any more.
  pub recover-IsSound : ((k : String) → held k ts ≡ 0) → IsSound (recover_references f d).0 ts
  unfolding recover_references
  recover-IsSound idle =
      locked_cases (λ out. IsSound out.0 ts) f
        (λ x. ok (record x { records = map_values unused x.records })) d (λ e. s)
        (λ d' h.
          subst (λ (x : Result Disk). IsSound (ok_or d x) ts) h
            (record {
              kept = λ k. elim (lookup_cases k d.records) [
                | inl absent ↦ rw (lookup-map_values-none unused k d.records absent) tt
                | inr (r, found) ↦
                    rw (lookup-map_values unused k r d.records found)
                      (λ p. absurd (omega arith), (IsKept-in d ts k r s found).1)
              ];
              counted = λ k. omega (arith, idle k);
            }))

  added-IsSound :
      (k : String) (r : Record) (p : String)
      → lookup k d.records ≡ none
      → r.active_instances ≡ 0
      → IsSound (record { records = insert k r d.records; packages = insert k p d.packages }) ts
  added-IsSound k r p absent idle = record {
    kept = λ j. rw lookup-insert (elim (Bool-cases (k == j)) [
      | inl e ↦ rw e (λ q. absurd (omega arith), (p, rw (lookup-insert, e) refl))
      | inr e ↦ rw e (elsewhere j e (lookup j d.records) (s.kept j))
    ]);
    counted = λ j. rw lookup-insert (elim (text_cases k j) [
      | inl (e, same) ↦ rw e (
          subst (λ (x : String). held x ts ≤ r.active_instances) same
            (omega (arith, s.counted k, ap active_in absent)))
      | inr (e, differs) ↦ rw e (s.counted j)
    ]);
  }
    where
      elsewhere :
          (j : String)
          → (k == j) ≡ false
          → (o : Option Record) → IsKept d j o
          → IsKept (record { records = insert k r d.records; packages = insert k p d.packages }) j o
      elsewhere j e none h = tt
      elsewhere j e (some r) h = (h.0, (h.1.0, rw (lookup-insert, e) h.1.1))

  install_body-IsSound :
      (stop : Option Failure) (sha : String) (x : Extracted)
      → IsSound (ok_or d (install_body stop f sha x d)) ts
  unfolding install_body
  install_body-IsSound stop sha x = elim (lookup_cases (key x.ref) d.records) [
    | inr (r, found) ↦
        rw (install_body, found)
          (if_elim (λ (o : Result Disk). IsSound (ok_or d o) ts) (r.archive_sha256 == sha) _ _
            (λ e. s) (λ e. s))
    | inl absent ↦
        rw (install_body, absent)
          (elim (Option-cases stop) [
            | inr (e, bad) ↦ rw bad s
            | inl fine ↦ rw fine (elim (lookup_cases (key x.ref) d.packages) [
              | inr (p, there) ↦ rw there s
              | inl room ↦ rw room (elim (Option-cases f.moving) [
                | inr (e, bad) ↦ rw bad s
                | inl moved ↦ rw moved (added-IsSound (key x.ref) _ x.contents absent refl)
              ])
            ])
          ])
  ]

  pub install-IsSound :
      (stop : Option Failure) (sha : String) (x : Result Extracted)
      → IsSound (install stop f sha x d).0 ts
  unfolding install
  install-IsSound stop sha (err e) =
      if_elim (λ (out : Disk × Option Failure). IsSound out.0 ts) (not (valid_digest sha)) _ _
        (λ e. s) (λ e. s)
  install-IsSound stop sha (ok x) =
      if_elim (λ (out : Disk × Option Failure). IsSound out.0 ts) (not (valid_digest sha)) _ _
        (λ e. s)
        (λ e.
          locked_cases (λ out. IsSound out.0 ts) f (install_body stop f sha x) d (λ e. s)
            (λ d' h.
              subst (λ (o : Result Disk). IsSound (ok_or d o) ts) h
                (install_body-IsSound stop sha x)))
