-- ===== src/Catalog/Sound.antt =====
-- catalog.go: what the counters of references promise, and the ways in which an operation ends.
-- What Acquire returned: the reference, and whether the function has run. (sync.Once runs it once.)
use x_mock_mcp.Catalog.Reference.{Reference, key, validate}
use x_mock_mcp.Api.{Failure, Result, err, ok}
use x_mock_mcp.Catalog.Records.{
  record_of, Disk, Faults, Record, locked, on_record, put_record, saved, settled, with_found,
}
use x_mock_mcp.Prelude.{
  Assoc, Bool, Option, Option-cases, String, ap, arith, bit, count_if, false, inl, inr, lookup,
  lookup-insert, lookup_cases, none, not, refl, some, subst, text_cases, true, ℕ, ◌&&◌, ◌<◌, ◌==◌,
  ◌≡◌, ◌≤◌,
}

pub record Token : Type 0 where
  pub ref : Reference
  pub released : Bool

abbrev pub holds : String → Token → Bool
holds k t = not t.released && key t.ref == k

-- The references to the version with the key `k` that are not released.
abbrev pub held : String → Assoc Token → ℕ
held k ts = count_if (holds k) ts

abbrev pub active_in : Option Record → ℕ
active_in none = 0
active_in (some r) = r.active_instances

-- A version in use is enabled, and the package of each record is there.
abbrev pub IsKept : Disk → String → Option Record → Type 0
IsKept d k none = Unit
IsKept d k (some r) =
    (0 < r.active_instances → r.enabled ≡ true) × ((p : String) × (lookup k d.packages ≡ some p))

-- The counters cover the references.
pub record IsSound (d : Disk) (ts : Assoc Token) : Type 0 where
  pub kept : (k : String) → IsKept d k (lookup k d.records)
  pub counted : (k : String) → held k ts ≤ active_in (lookup k d.records)

pub locked_cases {κ} :
    (P : Disk × Option Failure → Type κ) (f : Faults) (body : Disk → Result Disk) (d : Disk)
    → ((e : Failure) → P (d, some e))
    → ((d' : Disk) → body d ≡ ok d' → P (d', none))
    → P (locked f body d)
unfolding locked
locked_cases P f body d same done = elim (Option-cases f.opening) [
  | inr (e, bad) ↦ rw (locked, bad) (same e)
  | inl fine ↦ rw (locked, fine) (ran (body d) refl)
]
  where
    kept_or : (saving : Option Failure) (d' : Disk) → P (d', none) → P (saved saving d d')
    kept_or none d' h = h
    kept_or (some e) d' h = same e

    ran : (out : Result Disk) → body d ≡ out → P (settled f.saving d out)
    ran (err e) h = same e
    ran (ok d') h = kept_or f.saving d' (done d' h)

abbrev pub ok_or {ℓ} : {A : Type ℓ} → A → Result A → A
ok_or a (ok b) = b
ok_or a (err e) = a

pub record_of_found :
    (ref : Reference) (m : Assoc Record) (r : Record)
    → record_of ref m ≡ ok r
    → lookup (key ref) m ≡ some r
unfolding record_of
record_of_found ref m r = elim (Option-cases (validate ref)) [
  | inr (e, bad) ↦ rw (record_of, bad) (λ h. absurd (ground arith))
  | inl fine ↦ elim (lookup_cases (key ref) m) [
    | inl absent ↦ rw (record_of, fine, absent) (λ h. absurd (ground arith))
    | inr (r', found) ↦ rw (record_of, fine, found) (λ h. ap (λ x. some (ok_or r' x)) h)
  ]
]

-- What a successful body did: it found a record, and acted on it.
pub on_record_found :
    (ref : Reference) (act : Record → Result Disk) (d d' : Disk)
    → on_record ref act d ≡ ok d'
    → (r : Record) × (lookup (key ref) d.records ≡ some r) × (act r ≡ ok d')
unfolding on_record
on_record_found ref act d d' = found_in (record_of ref d.records) refl
  where
    found_in :
        (o : Result Record)
        → record_of ref d.records ≡ o
        → with_found o act ≡ ok d'
        → (r : Record) × (lookup (key ref) d.records ≡ some r) × (act r ≡ ok d')
    found_in (err e) is h = absurd (ground arith)
    found_in (ok r) is h = (r, record_of_found ref d.records r is, h)

pub counted_in :
    (d : Disk) (ts : Assoc Token) (k : String) (r : Record)
    → IsSound d ts
    → lookup k d.records ≡ some r
    → held k ts ≤ r.active_instances
counted_in d ts k r s found = omega (arith, s.counted k, ap active_in found)

pub IsKept-in :
    (d : Disk) (ts : Assoc Token) (k : String) (r : Record)
    → IsSound d ts
    → lookup k d.records ≡ some r
    → IsKept d k (some r)
IsKept-in d ts k r s found = subst (IsKept d k) found (s.kept k)

pub bit_le : (b : Bool) → bit b ≤ 1
bit_le true = omega arith
bit_le false = omega arith

-- A record is changed so that its counter still covers its references.
pub put_record-IsSound :
    (ref : Reference) (r r' : Record) (d : Disk) (ts ts' : Assoc Token)
    → IsSound d ts
    → lookup (key ref) d.records ≡ some r
    → (0 < r'.active_instances → r'.enabled ≡ true)
    → held (key ref) ts' ≤ r'.active_instances
    → ((k : String) → (key ref == k) ≡ false → held k ts' ≤ held k ts)
    → IsSound (put_record ref r' d) ts'
unfolding put_record
put_record-IsSound ref r r' d ts ts' s found enabled_ covers others = record {
  kept = λ k. rw lookup-insert (elim (text_cases (key ref) k) [
    | inr (e, differs) ↦ rw e (kept_elsewhere k (lookup k d.records) (s.kept k))
    | inl (e, same) ↦ rw e (
      enabled_,
      subst (λ (x : String). (p : String) × (lookup x d.packages ≡ some p)) same
          (IsKept-in d ts (key ref) r s found).1,
    )
  ]);
  counted = λ k. rw lookup-insert (elim (text_cases (key ref) k) [
    | inl (e, same) ↦ rw e (subst (λ (x : String). held x ts' ≤ r'.active_instances) same covers)
    | inr (e, differs) ↦ rw e (omega (arith, others k e, s.counted k))
  ]);
}
  where
    kept_elsewhere :
        (k : String) (o : Option Record) → IsKept d k o → IsKept (put_record ref r' d) k o
    kept_elsewhere k none h = h
    kept_elsewhere k (some x) h = h
