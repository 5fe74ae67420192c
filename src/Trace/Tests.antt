-- ===== src/Trace/Tests.antt =====
-- One run of internal/trace, and one document of internal/scenario.
use x_mock_mcp.Catalog.Reference.{right}
use x_mock_mcp.Trace.Events
use x_mock_mcp.Trace.Events.{Event, append, open_store}
use x_mock_mcp.Trace.Documents
use x_mock_mcp.Trace.Documents.{Document, put, get}
use x_mock_mcp.Trace.Numbered.{IsNumbered, file, append-IsNumbered}
use x_mock_mcp.Trace.Versions.{put-get, put-keeps_versions, put-conflict}
use x_mock_mcp.Api.{other, ok, err, Result, Failure}
use x_mock_mcp.Prelude.{insert, lookup, [], arith, none, refl, some, true, ℕ, ◌≡◌}
use x_mock_mcp.Prelude.Int.{ℤ, pos, ◌+ℤ◌}

abbrev empty_store : Events.Store
empty_store = record { limit = 1000; files = []; seqs = [] }

abbrev no_event_faults : Events.Faults
no_event_faults = record { reading = none; opening = none; writing = none }

abbrev sample_event : Event
sample_event = record { seq = 0; at = ""; kind = "started"; body = "" }

abbrev fixed_size : Event → ℕ
fixed_size e = 100

empty_store-IsNumbered : IsNumbered empty_store
unfolding lookup
empty_store-IsNumbered = record { files = λ run. tt; seqs = λ run n at. absurd (ground arith) }

-- The disk is full after 40 bytes of the line.
abbrev full_disk : Events.Faults
full_disk = record no_event_faults { writing = some (other "no space left on device", 40) }

torn_file :
    file "r" (append fixed_size full_disk true "now" "r" sample_event empty_store).0
    ≡ record { lines = []; torn = some (record { event = none; size = 40 }) }
unfolding append insert lookup
torn_file = refl

append-IsNumbered_example :
    IsNumbered (append fixed_size full_disk true "now" "r" sample_event empty_store).0
    × ((limit : ℤ) → IsNumbered (open_store limit empty_store.files))
append-IsNumbered_example =
    append-IsNumbered fixed_size full_disk true "now" "r" sample_event empty_store
      empty_store-IsNumbered

abbrev sample_document : Document
sample_document = record {
  id = "d";
  version = pos 0;
  plugin = record { role = right; id = "p"; version = "1.0.0" };
  contract_id = "mysql";
  contract_version = pos 1;
  input = "";
  body = "{}";
}

abbrev no_put_faults : Documents.Faults
no_put_faults = record { opening = none; saving = none }

abbrev accepts_all : Document → Result Document
accepts_all d = ok d

-- A form of documents without an input.
abbrev compact : Document → Document
compact d = record d { input = "" }

abbrev stored : Documents.Store
stored = (put compact accepts_all no_put_faults sample_document (pos 0) []).0

abbrev first_version : Document
first_version = record sample_document { version = pos 0 +ℤ pos 1 }

put-get_example : get none "d" (pos 0 +ℤ pos 1) stored ≡ ok (compact first_version)
unfolding put lookup
put-get_example =
    put-get compact accepts_all no_put_faults sample_document first_version (pos 0) [] refl

put-keeps_versions_example :
    get none "d" (pos 1) (put compact accepts_all no_put_faults sample_document (pos 1) stored).0
    ≡ ok first_version
unfolding get lookup put insert
put-keeps_versions_example =
    put-keeps_versions compact accepts_all no_put_faults sample_document (pos 1) stored "d" (pos 1)
      first_version refl

put-conflict_example :
    (e : Failure) × ((put compact accepts_all no_put_faults sample_document (pos 0) stored).1
      ≡ err e)
unfolding put lookup
put-conflict_example =
    put-conflict compact accepts_all accepts_all no_put_faults no_put_faults sample_document
      sample_document first_version (pos 0) [] refl refl
