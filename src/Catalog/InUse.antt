-- ===== src/Catalog/InUse.antt =====
-- catalog.go: the catalog as it runs, with the references that are held.
use x_mock_mcp.Catalog.Install.{install-IsSound, recover-IsSound}
use x_mock_mcp.Catalog.Operations.{
  acquire-IsSound, disable-IsSound, enable-IsSound, release-IsSound, uninstall-IsSound,
}
use x_mock_mcp.Catalog.Reference.{Reference}
use x_mock_mcp.Catalog.Sound.{IsSound, Token, active_in, counted_in, held, IsKept-in}
use x_mock_mcp.Api.{Failure, Result}
use x_mock_mcp.Catalog.Records.{
  Disk, Extracted, Faults, Record, acquire, disable, enable, install, recover_references, release,
  uninstall,
}
use x_mock_mcp.Prelude.{
  Assoc, Option, String, [], ap, arith, count_if, false, inl, inr, insert, lookup, lookup_cases,
  none, some, true, ◌<◌, ◌≡◌, ◌≤◌,
}

-- What the daemon may do with its catalog, and with the references that it holds.
pub data Step (d : Disk) (ts : Assoc Token) : Disk × Assoc Token → Type 0 where
  enables : (f : Faults) (ref : Reference) → Step d ts ((enable f ref d).0, ts)
  disables : (f : Faults) (ref : Reference) → Step d ts ((disable f ref d).0, ts)
  uninstalls : (f : Faults) (ref : Reference) → Step d ts ((uninstall f ref d).0, ts)
  installs :
      (f : Faults) (stop : Option Failure) (sha : String) (x : Result Extracted)
      → Step d ts ((install stop f sha x d).0, ts)
  acquires :
      (f : Faults) (ref : Reference) (id : String)
      → lookup id ts ≡ none
      → (acquire f ref d).1 ≡ none
      → Step d ts ((acquire f ref d).0, insert id (record { ref = ref; released = false }) ts)
  releases :
      (f : Faults) (ref : Reference) (id : String)
      → lookup id ts ≡ some (record { ref = ref; released = false })
      → Step d ts ((release f ref d).0, insert id (record { ref = ref; released = true }) ts)
  recovers :
      (f : Faults) → ((k : String) → held k ts ≡ 0) → Step d ts ((recover_references f d).0, ts)

pub data Reach (w : Disk × Assoc Token) : Disk × Assoc Token → Type 0 where
  start : Reach w w
  step :
      {d : Disk} {ts : Assoc Token} {w' : Disk × Assoc Token}
      → Reach w (d, ts)
      → Step d ts w'
      → Reach w w'

Step-IsSound :
    {d : Disk} {ts : Assoc Token} {w : Disk × Assoc Token}
    → Step d ts w
    → IsSound d ts
    → IsSound w.0 w.1
Step-IsSound (enables f ref) s = enable-IsSound f ref _ _ s
Step-IsSound (disables f ref) s = disable-IsSound f ref _ _ s
Step-IsSound (uninstalls f ref) s = uninstall-IsSound f ref _ _ s
Step-IsSound (installs f stop sha x) s = install-IsSound f _ _ s stop sha x
Step-IsSound (acquires f ref id fresh ok_) s = acquire-IsSound f ref _ _ s id fresh ok_
Step-IsSound (releases f ref id there) s = release-IsSound f ref _ _ s id there
Step-IsSound (recovers f idle) s = recover-IsSound f _ _ s idle

pub Reach-IsSound : {w w' : Disk × Assoc Token} → Reach w w' → IsSound w.0 w.1 → IsSound w'.0 w'.1
Reach-IsSound start s = s
Reach-IsSound (step before last) s = Step-IsSound last (Reach-IsSound before s)

empty-IsSound : IsSound (record { records = []; packages = [] }) []
unfolding lookup count_if
empty-IsSound = record { kept = λ k. tt; counted = λ k. omega arith }

-- In a catalog that began empty, a version with a reference that is not released is installed and
-- enabled, its package is in its directory, and its counter is at least the number of references
-- to it.
pub Reach-in_use :
    {w : Disk × Assoc Token}
    → Reach (record { records = []; packages = [] }, []) w
    → (k : String) → 0 < held k w.1
    → (r : Record) × (lookup k w.0.records ≡ some r)
      × (r.enabled ≡ true)
      × (held k w.1 ≤ r.active_instances)
      × ((p : String) × (lookup k w.0.packages ≡ some p))
Reach-in_use {w} reached k used = elim (lookup_cases k w.0.records) [
  | inl absent ↦ absurd (omega (arith, sound.counted k, ap active_in absent))
  | inr (r, found) ↦
      let covered = counted_in w.0 w.1 k r sound found in
      let kept = IsKept-in w.0 w.1 k r sound found in
      (r, found, kept.0 (omega (arith, covered)), covered, kept.1)
]
  where
    sound : IsSound w.0 w.1
    sound = Reach-IsSound reached empty-IsSound
