-- ===== src/Catalog/Tests.antt =====
-- A plugin version of internal/plugin/catalog that is installed, enabled and acquired.
use x_mock_mcp.Catalog.Reference.{Reference, right, key}
use x_mock_mcp.Catalog.Records.{Record, Disk, Faults, Extracted, install, enable, acquire}
use x_mock_mcp.Catalog.InUse.{Reach, start, step, installs, enables, acquires, Reach-in_use}
use x_mock_mcp.Catalog.Sound.{Token, held}
use x_mock_mcp.Api.{ok}
use x_mock_mcp.Prelude.{
  count_if, Assoc, String, [], arith, false, insert, lookup, none, refl, some, true, ◌≡◌, ◌≤◌,
}

abbrev sample_ref : Reference
sample_ref = record { role = right; id = "p"; version = "1.0.0" }

abbrev no_faults : Faults
no_faults = record { opening = none; moving = none; saving = none }

abbrev sha : String
sha = "0123456789abcdef0123456789abcdef0123456789abcdef0123456789abcdef"

abbrev sample_archive : Extracted
sample_archive = record { ref = sample_ref; manifest = "{}"; contents = "binary" }

abbrev empty_disk : Disk
empty_disk = record { records = []; packages = [] }

abbrev installed : Disk
installed = (install none no_faults sha (ok sample_archive) empty_disk).0

abbrev enabled_disk : Disk
enabled_disk = (enable no_faults sample_ref installed).0

abbrev acquired_disk : Disk
acquired_disk = (acquire no_faults sample_ref enabled_disk).0

abbrev sample_tokens : Assoc Token
sample_tokens = insert "x" (record { ref = sample_ref; released = false }) []

no_token : lookup {V = Token} "x" [] ≡ none
unfolding lookup
no_token = refl

acquired_fine : (acquire no_faults sample_ref enabled_disk).1 ≡ none
unfolding acquire lookup enable install insert
acquired_fine = refl

reached : Reach (empty_disk, []) (acquired_disk, sample_tokens)
reached =
    step
      (step (step start (installs no_faults none sha (ok sample_archive)))
        (enables no_faults sample_ref))
      (acquires no_faults sample_ref "x" no_token acquired_fine)

one_held : held "right/p/1.0.0" sample_tokens ≡ 1
unfolding count_if insert key
one_held = refl

Reach-in_use_example :
    (r : Record) × (lookup "right/p/1.0.0" acquired_disk.records ≡ some r)
    × (r.enabled ≡ true)
    × (held "right/p/1.0.0" sample_tokens ≤ r.active_instances)
    × ((p : String) × (lookup "right/p/1.0.0" acquired_disk.packages ≡ some p))
Reach-in_use_example = Reach-in_use reached "right/p/1.0.0" (omega (arith, one_held))
