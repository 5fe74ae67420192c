-- ===== src/Catalog/Operations.antt =====
-- catalog.go: each operation keeps the counters of references sound.
use x_mock_mcp.Catalog.Reference.{Reference, key}
use x_mock_mcp.Catalog.Sound.{
  IsKept, IsSound, Token, bit_le, counted_in, held, holds, IsKept-in, locked_cases, ok_or,
  on_record_found, put_record-IsSound,
}
use x_mock_mcp.Api.{Failure, Result, err, fail, ok, plugin_not_enabled}
use x_mock_mcp.Catalog.Records.{
  Disk, Faults, Record, acquire, acquire_record, disable, disable_record, enable, locked, on_record,
  put_record, release, release_record, remove_record, uninstall,
}
use x_mock_mcp.Prelude.{
  Assoc, Bool-cases, Option, String, ap, arith, bit, count_if-insert, count_if-insert_new, eq_refl,
  erase, false, if_elim, inl, inr, insert, lookup, lookup-erase, ltb, none, not, refl, some, subst,
  suc, text_cases, true, ◌+◌, ◌-◌, ◌==◌, ◌≡◌, ◌≤◌,
}

module _ (f : Faults) (ref : Reference) (d : Disk) (ts : Assoc Token) (s : IsSound d ts) where
  after_IsSound :
      {d' : Disk} {ts' : Assoc Token} {o : Result Disk}
      → o ≡ ok d'
      → IsSound (ok_or d o) ts'
      → IsSound d' ts'
  after_IsSound {d'} {ts'} e h = subst (λ (x : Result Disk). IsSound (ok_or d x) ts') e h

  -- An operation on one record that is sound where it succeeds.
  act_IsSound :
      (act : Record → Result Disk)
      → ((r : Record) → lookup (key ref) d.records ≡ some r → IsSound (ok_or d (act r)) ts)
      → IsSound (locked f (on_record ref act) d).0 ts
  act_IsSound act sound =
      locked_cases (λ out. IsSound out.0 ts) f (on_record ref act) d (λ e. s)
        (λ d' h.
          let (r, found, is) = on_record_found ref act d d' h in after_IsSound is (sound r found))

  pub enable-IsSound : IsSound (enable f ref d).0 ts
  unfolding enable
  enable-IsSound = act_IsSound _ (λ r found.
      put_record-IsSound ref r (record r { enabled = true }) d ts ts s found (λ p. refl)
        (counted_in d ts (key ref) r s found) (λ k e. omega arith))

  pub disable-IsSound : IsSound (disable f ref d).0 ts
  unfolding disable disable_record
  disable-IsSound = act_IsSound _ (λ r found.
      if_elim (λ (o : Result Disk). IsSound (ok_or d o) ts) (ltb 0 r.active_instances) _ _ (λ e. s)
        (λ e.
          put_record-IsSound ref r (record r { enabled = false }) d ts ts s found
            (λ p. absurd (ground arith)) (counted_in d ts (key ref) r s found)
            (λ k e. omega arith)))

  -- A record that nothing uses may go, with its package.
  erase-IsSound :
      (r : Record)
      → lookup (key ref) d.records ≡ some r
      → r.active_instances ≡ 0
      → IsSound
          (record { records = erase (key ref) d.records; packages = erase (key ref) d.packages })
          ts
  erase-IsSound r found idle = record {
    kept = λ k. rw lookup-erase (elim (Bool-cases (key ref == k)) [
      | inl e ↦ rw e tt
      | inr e ↦ rw e (elsewhere k e (lookup k d.records) (s.kept k))
    ]);
    counted = λ k. rw lookup-erase (elim (text_cases (key ref) k) [
      | inl (e, same) ↦ rw e (
          subst (λ (x : String). held x ts ≤ 0) same
            (omega (arith, counted_in d ts (key ref) r s found)))
      | inr (e, differs) ↦ rw e (s.counted k)
    ]);
  }
    where
      elsewhere :
          (k : String)
          → (key ref == k) ≡ false
          → (o : Option Record) → IsKept d k o
          → IsKept
              (record {
                records = erase (key ref) d.records;
                packages = erase (key ref) d.packages;
              })
              k
              o
      elsewhere k e none h = tt
      elsewhere k e (some r) h = (h.0, rw (lookup-erase, e) h.1)

  pub uninstall-IsSound : IsSound (uninstall f ref d).0 ts
  unfolding uninstall remove_record
  uninstall-IsSound = act_IsSound _ (λ r found.
      if_elim (λ (o : Result Disk). IsSound (ok_or d o) ts) (ltb 0 r.active_instances) _ _ (λ e. s)
        (λ idle.
          if_elim (λ (o : Result Disk). IsSound (ok_or d o) ts) r.enabled _ _ (λ e. s)
            (λ e. moved r found (ground arith) f.moving)))
    where
      moved :
          (r : Record)
          → lookup (key ref) d.records ≡ some r
          → r.active_instances ≡ 0
          → (moving : Option Failure)
          → IsSound
              (ok_or d (elim moving [
                | some e ↦ err e
                | none ↦ ok (record {
                  records = erase (key ref) d.records;
                  packages = erase (key ref) d.packages;
                })
              ]))
              ts
      moved r found idle none = erase-IsSound r found idle
      moved r found idle (some e) = s

  pub acquire-IsSound :
      (id : String)
      → lookup id ts ≡ none
      → (acquire f ref d).1 ≡ none
      → IsSound (acquire f ref d).0 (insert id (record { ref = ref; released = false }) ts)
  unfolding acquire acquire_record
  acquire-IsSound id fresh =
      locked_cases (λ out. out.1 ≡ none → IsSound out.0 ts') f
        (on_record ref (acquire_record ref d)) d (λ e h. absurd (ground arith))
        (λ d' h ok_.
          let (r, found, is) = on_record_found ref (acquire_record ref d) d d' h in
          after_IsSound is (go d' r found is))
    where
      ts' : Assoc Token
      ts' = insert id (record { ref = ref; released = false }) ts

      held_new : (k : String) → held k ts' ≡ held k ts + bit (key ref == k)
      held_new k =
          count_if-insert_new (holds k) id (record { ref = ref; released = false }) ts fresh

      go :
          (d' : Disk) (r : Record)
          → lookup (key ref) d.records ≡ some r
          → acquire_record ref d r ≡ ok d'
          → IsSound (ok_or d (acquire_record ref d r)) ts'
      go d' r found =
          if_elim (λ (o : Result Disk). o ≡ ok d' → IsSound (ok_or d o) ts') (not r.enabled)
            (err (fail plugin_not_enabled "enable plugin version first"))
            (ok (put_record ref (record r { active_instances = suc r.active_instances }) d))
            (λ e h. absurd (ground arith))
            (λ e h.
              put_record-IsSound ref r (record r { active_instances = suc r.active_instances }) d ts
                ts' s found (λ p. ground arith)
                (omega (
                  arith,
                  held_new (key ref),
                  bit_le (key ref == key ref),
                  counted_in d ts (key ref) r s found,
                ))
                (λ k differs. omega (arith, held_new k, ap bit differs)))

  -- The function that Acquire returned runs: its token is released even if the disk operation fails.
  pub release-IsSound :
      (id : String)
      → lookup id ts ≡ some (record { ref = ref; released = false })
      → IsSound (release f ref d).0 (insert id (record { ref = ref; released = true }) ts)
  unfolding release release_record
  release-IsSound id there =
      locked_cases (λ out. IsSound out.0 ts') f (on_record ref (release_record ref d)) d
        (λ e. fewer)
        (λ d' h.
          let (r, found, is) = on_record_found ref (release_record ref d) d d' h in
          after_IsSound is (
            put_record-IsSound ref r (record r { active_instances = r.active_instances - 1 }) d ts
              ts' s found (λ p. (IsKept-in d ts (key ref) r s found).0 (omega arith))
              (omega (
                arith,
                held_less (key ref),
                ap bit (eq_refl (key ref)),
                counted_in d ts (key ref) r s found,
              ))
              (λ k differs. omega (arith, held_less k))))
    where
      ts' : Assoc Token
      ts' = insert id (record { ref = ref; released = true }) ts

      held_less : (k : String) → held k ts' + bit (key ref == k) ≡ held k ts + 0
      held_less k =
          count_if-insert (holds k) id (record { ref = ref; released = false })
            (record { ref = ref; released = true }) ts there

      fewer : IsSound d ts'
      fewer = record { kept = s.kept; counted = λ k. omega (arith, held_less k, s.counted k) }
