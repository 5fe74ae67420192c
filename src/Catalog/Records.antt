-- ===== src/Catalog/Records.antt =====
-- internal/plugin/catalog/catalog.go: the records in catalog.json, and the package directories.
-- A file operation that fails is an argument of the operation that meets it; a rollback's file
-- operations are taken to succeed. The counter of references is far from the bound of an int.
use x_mock_mcp.Catalog.Reference.{Reference, key, valid_digest, validate}
use x_mock_mcp.Api.{
  err, Failure, Result, fail, invalid, ok, plugin_in_use, plugin_not_enabled, plugin_not_installed,
  state_conflict,
}
use x_mock_mcp.Prelude.{
  insert, Assoc, Bool, Option, String, erase, false, if◌then◌else◌, lookup, ltb, map_values, none,
  not, some, suc, true, ℕ, ◌-◌, ◌==◌,
}

pub record Record : Type 0 where
  pub ref : Reference
  pub manifest : String
  pub archive_sha256 : String
  pub enabled : Bool
  pub active_instances : ℕ

-- The records, and what lies in each package directory, both under the reference's key.
pub record Disk : Type 0 where
  pub records : Assoc Record
  pub packages : Assoc String

-- What may fail: taking the lock and reading the records, moving a package, saving the records.
pub record Faults : Type 0 where
  pub opening : Option Failure
  pub moving : Option Failure
  pub saving : Option Failure

-- The end of locked: an error of the body or of saving undoes everything.
abbrev pub saved : Option Failure → Disk → Disk → Disk × Option Failure
saved (some e) d d' = (d, some e)
saved none d d' = (d', none)

abbrev pub settled : Option Failure → Disk → Result Disk → Disk × Option Failure
settled saving d (err e) = (d, some e)
settled saving d (ok d') = saved saving d d'

-- func (c *Catalog) locked, with `write`.
unfoldable pub locked : Faults → (Disk → Result Disk) → Disk → Disk × Option Failure
locked f body d = elim f.opening [ some e ↦ (d, some e) | none ↦ settled f.saving d (body d) ]

-- func record
unfoldable pub record_of : Reference → Assoc Record → Result Record
unfolding validate key
record_of ref records = elim (validate ref) [
  | some e ↦ err e
  | none ↦ (elim (lookup (key ref) records) [
    | none ↦ err (fail plugin_not_installed "plugin version is not installed")
    | some r ↦ ok r
  ])
]

unfoldable pub put_record : Reference → Record → Disk → Disk
unfolding key
put_record ref r d = record d { records = insert (key ref) r d.records }

abbrev pub with_found : Result Record → (Record → Result Disk) → Result Disk
with_found (err e) act = err e
with_found (ok r) act = act r

-- The body of an operation on one record: it is found first.
unfoldable pub on_record : Reference → (Record → Result Disk) → Disk → Result Disk
unfolding record_of
on_record ref act d = with_found (record_of ref d.records) act

unfoldable pub enable : Faults → Reference → Disk → Disk × Option Failure
unfolding locked on_record put_record
enable f ref d =
    locked f (on_record ref (λ r. ok (put_record ref (record r { enabled = true }) d))) d

unfoldable pub disable_record : Reference → Disk → Record → Result Disk
unfolding put_record
disable_record ref d r =
    if ltb 0 r.active_instances
    then err (fail plugin_in_use "destroy active bindings or finish preparation first")
    else ok (put_record ref (record r { enabled = false }) d)

unfoldable pub disable : Faults → Reference → Disk → Disk × Option Failure
unfolding locked on_record disable_record
disable f ref d = locked f (on_record ref (disable_record ref d)) d

unfoldable pub remove_record : Faults → Reference → Disk → Record → Result Disk
unfolding key
remove_record f ref d r =
    if ltb 0 r.active_instances
    then err (fail plugin_in_use "active references prevent uninstall")
    else if r.enabled
    then err (fail plugin_in_use "disable plugin before uninstall")
    else (elim f.moving [
      | some e ↦ err e
      | none ↦
          ok (record { records = erase (key ref) d.records; packages = erase (key ref) d.packages })
    ])

unfoldable pub uninstall : Faults → Reference → Disk → Disk × Option Failure
unfolding locked on_record remove_record
uninstall f ref d = locked f (on_record ref (remove_record f ref d)) d

unfoldable pub acquire_record : Reference → Disk → Record → Result Disk
unfolding put_record
acquire_record ref d r =
    if not r.enabled
    then err (fail plugin_not_enabled "enable plugin version first")
    else ok (put_record ref (record r { active_instances = suc r.active_instances }) d)

-- The first part of Acquire.
unfoldable pub acquire : Faults → Reference → Disk → Disk × Option Failure
unfolding locked on_record acquire_record
acquire f ref d = locked f (on_record ref (acquire_record ref d)) d

unfoldable pub release_record : Reference → Disk → Record → Result Disk
unfolding put_record
release_record ref d r =
    ok (put_record ref (record r { active_instances = r.active_instances - 1 }) d)

-- The body of the function that Acquire returns, which runs once.
unfoldable pub release : Faults → Reference → Disk → Disk × Option Failure
unfolding locked on_record release_record
release f ref d = locked f (on_record ref (release_record ref d)) d

abbrev pub unused : Record → Record
unused r = record r { active_instances = 0 }

-- func (c *Catalog) RecoverReferences
unfoldable pub recover_references : Faults → Disk → Disk × Option Failure
unfolding locked
recover_references f d = locked f (λ d. ok (record d { records = map_values unused d.records })) d

-- What extract of archive.go gives: the reference, the manifest and the package.
pub record Extracted : Type 0 where
  pub ref : Reference
  pub manifest : String
  pub contents : String

-- The body of Install.
unfoldable pub install_body : Option Failure → Faults → String → Extracted → Disk → Result Disk
unfolding key
install_body cancelled f sha x d = elim (lookup (key x.ref) d.records) [
  | some r ↦
      if r.archive_sha256 == sha
      then ok d
      else err (fail state_conflict "same version has a different package digest")
  | none ↦ (elim cancelled [
    | some e ↦ err e
    | none ↦ (elim (lookup (key x.ref) d.packages) [
      | some p ↦ err (fail state_conflict "unregistered package directory exists")
      | none ↦ (elim f.moving [
        | some e ↦ err e
        | none ↦ ok (record {
          records =
              insert (key x.ref)
                (record {
                  ref = x.ref;
                  manifest = x.manifest;
                  archive_sha256 = sha;
                  enabled = false;
                  active_instances = 0;
                })
                d.records;
          packages = insert (key x.ref) x.contents d.packages;
        })
      ])
    ])
  ])
]

-- func (c *Catalog) Install, with the result of extract.
unfoldable pub install :
    Option Failure → Faults → String → Result Extracted → Disk → Disk × Option Failure
unfolding valid_digest locked install_body
install cancelled f sha extracted d =
    if not (valid_digest sha)
    then (d, some (invalid "archive sha256 required"))
    else (elim extracted [
      | err e ↦ (d, some e)
      | ok x ↦ locked f (install_body cancelled f sha x) d
    ])

-- func (c *Catalog) Package: the manifest, and the package in its directory.
unfoldable pub package_of : Option Failure → Reference → Disk → Result (String × Option String)
unfolding record_of key
package_of opening ref d = elim opening [
  | some e ↦ err e
  | none ↦ (elim (record_of ref d.records) [
    | err e ↦ err e
    | ok r ↦ ok (r.manifest, lookup (key ref) d.packages)
  ])
]
