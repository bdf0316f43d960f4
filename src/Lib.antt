-- ===== src/Lib.antt =====
-- Squad Runtime: the local runtime that coordinates a squad of agents over SQLite tables and a
-- hash-chained event log (the package squad_runtime).
--
-- Parts. The facade `Runtime` (squad_runtime/runtime.py) owns the database and hands every request to
-- a service. The services read and write the tables through repositories and append an event to the
-- event store for what they did. The gate engine reads results, nodes and events and writes one row
-- for each gate; the scheduler reads the nodes and picks what to dispatch; the evidence policy judges
-- the facts of a run against a profile. Agents act through the tool adapter, which checks what the
-- profile of a node's agent allows, and are dispatched through providers; a run is exported to a log,
-- and a log is replayed.
--
-- Files.
--   State: squad_runtime/state.py; State/Lifecycle: chains of allowed transitions.
--   Json, Canonicalization: JSON values, squad_runtime/canonicalization.py.
--   Models, Contracts: squad_runtime/models.py, squad_runtime/agent_contracts.py.
--   World: the tables of squad_runtime/infrastructure/migrations.py as lists of rows in rowid order,
--     the event table and its NDJSON mirror, and the actions on them: `Exec A` takes the state and
--     returns a value or an exception together with the state that was reached.
--   Events: squad_runtime/event_store.py. Sequence, Chain, Log: numbers and hashes; Paging: cursors;
--     Tamper: what a final hash fixes; Mirror: the NDJSON file.
--   Runs, Nodes: run_repository, run_service, node_repository and node_service. Nodes/Outcome: the
--     branches of transition_node; Nodes/Effect: what it changes, table by table; Nodes/Audit: the
--     log as an audit trail; Nodes/Versions: run versions and legal statuses; Nodes/Keeps: what
--     other services inherit.
--   Results: squad_runtime/services/agent_result_service.py; Results/Apply and Results/Status.
--   Gates, GateEngine: gate_repository, gate_service and gate_engine. Legacy and Strict are the two
--     modes, Evaluate records the decisions. A module called Release states what a release needs;
--     Evaluate/Evidence describes it for the strict mode without the gates, and Evaluate/Passed says
--     when each gate passes.
--   Scheduler: squad_runtime/scheduler.py; Scan is its loop.
--   Facade: what squad_runtime/runtime.py adds to the services; Facade/Recovery and Facade/Findings.
--   EvidencePolicy: squad_runtime/evidence_policy.py and the requirements of profile_registry.py.
--   Workspace, Snapshots: the files under the workspace root, security/paths.py, path patterns, and
--     squad_runtime/snapshot.py.
--   AgentRegistry: squad_runtime/agent_registry.py.
--   Tools: squad_runtime/tool_permissions.py. Tools/Permissions: the checks of
--     tool_adapter.py; Tools/Calls and Tools/Dispatch: its tools and call_tool; Tools/Sessions:
--     its sessions. Tools/Trace: what tools may do, as a step relation; Guards, Effects, Acts
--     and Authority go from the checks up to call_tool; Steps and Rounds: what holds through a
--     session; RoundTrip: files.
--   Decisions: squad_runtime/lead_decision.py (Decisions/Directives) and decisions.py
--     (Decisions/Verdict).
--   Archive, Replay: squad_runtime/services/archive_service.py and squad_runtime/replay.py.
--     Archive/Replayed: an export that is replayed; Archive/Manifest: parts of the archive manifest;
--     Replay/Agrees: the two chain checks.
--   SchemaMigration, RateLimiter: schema_migration.py and providers/rate_limiter.py.
--   Providers: squad_runtime/adapter.py and the deterministic provider of providers/impl.py.
--   Context: squad_runtime/context.py.
--   Samples and the modules called Tests hold the data and the runs at concrete inputs.
--
-- Parameters. `Env` holds what comes from outside: uuids, clock readings, SHA-256, Unicode
-- normalization, whether an artifact path resolves into the artifacts directory, and `str` of a
-- list or dictionary. Where a theorem needs something of them it says so: that a new uuid is
-- unused, or that digests have one width. `Host` is the machine that the tools run on: the
-- resolution of paths, globs, whether a file can be written, processes, the wall clock in
-- milliseconds, case maps and the texts of exceptions. A provider that runs a process is a
-- parameter of a dispatch, and the rate limiter takes its sleeper, which is asked not to return
-- early.
--
-- Bounds. Numbers are natural numbers; payloads hold no negative numbers and no floats, and a
-- confidence is counted in millionths. Loops are recursion on lists; only the page reader and the
-- digits of a number run on fuel, and the fuel is shown or chosen to be enough.
--
-- Not modelled: SQLite and the file system themselves (a transaction is one step; a directory, a
-- link and a file that is no UTF-8 text are outside the table of files, and a copy of a snapshot
-- that is interrupted leaves nothing), brackets in path patterns, the environment and the
-- checksums of the archive manifest, the backup service, the processes of the providers, prompts,
-- the HTTP and command-line front ends, and analytics. Keyword arguments of a tool that have
-- another type than its signature says are refused before the tool's own checks. Text files are
-- read with universal newlines and written as on POSIX systems, where a line ends in a line feed.
-- The text of a Markdown export is not rendered. A negative exit code and a clock that goes back
-- are not told apart from 0. A CURRENT_TIMESTAMP column is left out of its record.
pub mod Prelude
pub mod State
pub mod Json
pub mod Canonicalization
pub mod Models
pub mod World
pub mod Events
pub mod Runs
pub mod Nodes
pub mod Contracts
pub mod Results
pub mod Gates
pub mod GateEngine
pub mod Facade
pub mod Scheduler
pub mod EvidencePolicy
pub mod Samples
pub mod Workspace
pub mod AgentRegistry
pub mod Snapshots
pub mod Tools
pub mod Replay
pub mod Archive
pub mod RateLimiter
pub mod SchemaMigration
pub mod Decisions
pub mod Providers
pub mod Context
