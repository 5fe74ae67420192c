-- ===== src/Lib.antt =====
-- Verification of the control plane of X-Mock-MCP: the queue of generation requests, the bindings of
-- plugins, the runs of jobs, the in-memory MySQL state and the strategy of the right plugin, the
-- checks of what plugins say, the plugin catalog, and the trace and scenario stores.
--
-- The program's parts and their files. A binding (internal/binding/manager.go) pairs a left plugin,
-- which speaks a protocol, with a right plugin, which answers; a run (internal/run/manager.go) is a
-- process that talks to the left plugin. When the right plugin lacks data, its request waits in the
-- queue of internal/generation/queue.go until a coding agent leases it (Next) and delivers a
-- candidate (Resolve); the right plugin completes the request with it and reports the outcome. The
-- right plugin plugins/right/mysql-mock keeps tables in memory, with transactions per connection,
-- and continuations for the slots of a scenario that it asks data for. Plugins are installed by
-- internal/plugin/catalog, what happens in a run is recorded by internal/trace, and scenario
-- documents are kept by internal/scenario.
--
-- - Api: pluginapi/errors.go, and the record Need of pluginapi/strategy.go.
-- - Queue: internal/generation/queue.go. Types has the data; Ops has Enqueue, ReportOutcome,
--   CancelRequest, CancelRun, Pending, Capture and Forget; Claim has Next, as `claim` (before the
--   loop) and `poll` (one turn of it); Resolve has Resolve, as `check` and `accept` (its sections
--   under the lock). Steps is the relation of all critical sections in any order; Life, Follows and
--   Sections say what a section does to an entry; Soundness, Capacity, Fencing, Again, Repeat, Leases and
--   Removal hold the theorems.
-- - Mysql: Value (contracts/mysqlv1/types.go and validate.go), Schema (scenario_types.go, findTable
--   of ddl.go and the helpers of state.go), Constraints (validateInitial of prepare.go,
--   constraintError), State (state.go: newState, conn, view, asInitial), Execute (execute of
--   state.go: Select, Changes, Run), Command and Transaction (transaction.go). Statement lists the
--   ways in which execute ends; Grows, Isolation, Noting, Covered, Commit, Filling, Clock,
--   Rollback and History hold the theorems and their lemmas; Steps is the relation of all steps of the
--   state.
-- - Mysql.Strategy: Plugin (plugin.go: Start, Stop and the state; scenario_types.go), Match (match.go),
--   Slots (Execute of a matched statement: fixtures and the loop over the slots), Complete, and Verify
--   (verification.go). Steps is the relation of their steps; Verified, Again, Refused, Single and
--   Ending hold the theorems.
-- - Plugin: Paths (SafeRelative of pluginapi/validate.go with path.Clean), Descriptor (manifest.go and
--   its Validate functions) and Decision (strategy.go, preparation.go); Inside and Valid hold the
--   theorems.
-- - Run: internal/run/manager.go. Command has the checks of Start and the process, Log has
--   limitedWriter, Manager has Start, Course the end of a run, Stop, Abort, Status, Wait and Close.
--   Steps is the relation of all steps; Ended, Written, Runs, Final, Launch and Verdict hold the theorems.
-- - Binding: internal/binding/manager.go. Negotiate has negotiate; Manager has Create; Upkeep has Destroy,
--   Seal, AssignRun and the observers of exits; Dispatch has dispatch. Steps is the relation of all steps;
--   Agreement, Created, Kept, Shut, Once and Answered hold the theorems.
-- - Catalog: Reference (pluginapi/manifest.go, validate.go), Records (catalog.go); Sound, Operations,
--   Install and InUse hold the theorem on references and its lemmas.
-- - Trace: Events (internal/trace/store.go), Lines and Numbered; Documents (internal/scenario/store.go) and
--   Versions.
-- - Prelude: tests, maps, integers and texts that the parts share. Tests.antt of each part runs it on
--   a small example.
--
-- How the code is read. A Go map is an association list; where the code ranges over a map, the
-- order is that of the list, and the statements hold for every list. A function under a lock is one
-- step; a function with several critical sections is one step for each, and other steps may come in
-- between. Times are nanoseconds since 1970. The identifiers that binding.ID() draws are arguments.
-- A request identifier is not used again between the two sections of one Resolve. The channel of
-- capacity 1 of an entry is the list of what was sent, and close(done) is counted. A json.RawMessage
-- is a text in the queue, and the JSON value that it holds in the MySQL state. JSON, SHA-256 and the
-- JSON schema library are parameters: the record Codec of Queue.Resolve, the size of a result and
-- of a trace line. The versions of the MySQL state are uint64 and wrap around at 2 ^ 64: the
-- theorems on histories ask that fewer steps are taken. The versions noted by a transaction stand
-- under the table and the key, where the code joins these by a NUL character. sort.Slice may order
-- equal rows in any way; one of them is modelled. File operations that may fail are arguments; a
-- rollback of the catalog is taken to leave the files as before, and so is the replacing of a
-- document's file that fails; a write of a trace that fails may leave any piece of its line.
--
-- What the plugins of a binding, their factory and the data strategy answer are the fields of the
-- records Answers (Create) and Right (dispatch); what the operating system answers to Start is the
-- record Host; what JSON and JSON schemas say of a text is the record Formats, and what they make of
-- a candidate is Payloads. The SQL parser is the function `compile` of Mysql.Strategy.Match.
--
-- No definition needs fuel: every loop is over a list. Numbers of events, of references and of
-- versions of documents are natural, and stay far below the bound of an int64.
--
-- Not modelled: the plugin protocol over pipes, the archive reader, the SQL compiler with the DDL and
-- system statements of the MySQL plugin, its Prepare and preview, and of its Execute the prepared
-- statements and the choice of a database; the export and the freezing of scenarios, the MySQL wire
-- protocol, the HTTP and MCP transports and the command line.
pub mod Prelude
pub mod Api
pub mod Catalog
pub mod Trace
pub mod Queue
pub mod Mysql
pub mod Plugin
pub mod Run
pub mod Binding
