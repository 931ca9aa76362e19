-- ===== src/Lib.antt =====
-- DF Local Foundation: the local PostgreSQL foundation that the Forge applications attach to. An
-- application configures it (core/config), registers with it (core/lifecycle/compatibility.py), and is
-- then served by a lifecycle manager that reports whether the core schema is ready. The manager checks
-- the schema under a PostgreSQL advisory lock; the health reporter turns its states into responses that
-- keep a privacy boundary; the backup manager makes signed backups and restores them; the export manager
-- makes exports of one namespace; the maintenance helpers prune the operational tables. The HTTP
-- application (app) holds the manager while it serves, and adds read-only views of other tables: each
-- service reads rows over a connection of its own, computes a response of them, and its router turns the
-- errors of a read into 503 and a missing row into 404.
--
-- The files and the code that they model, with paths from the repository's root:
-- - Config: core/config/settings.py, the settings and their validators in class order.
-- - Compatibility (Parse, Decisions, Reregistration): core/lifecycle/compatibility.py.
-- - MigrationLock (Polling, Scope): core/lifecycle/migration_lock.py. `async with migration_lock(...)`
--   is a function of its body.
-- - Lifecycle (Readiness, Coherence, Startup, Faults): core/lifecycle/manager.py, a function for each
--   method of `LifecycleManager`.
-- - Health (Contract, Serialized, Response): core/health/reporter.py, with the contract
--   contracts/health.schema.json as data.
-- - Storage, Signing (Key, Canonical): core/backup/signing.py over a file system.
-- - Backup (Restoring, Envelope, Checks, Restore, Sealed, RoundTrip): core/backup/manager.py.
-- - Export (Sealed, Refusal): core/export/manager.py, over the same file system.
-- - Maintenance (Status, Retention): core/lifecycle/maintenance.py.
-- - Analytics (Posture, Queue, Leases, Overview, Summary, Handlers, Failures): app/analytics_services.py
--   and app/api/analytics_router.py, with the models of app/analytics_models.py.
-- - Web: the rest of app. Value (Rows) and Sorting (Laws, Texts) are what its services share of Python's
--   values and `sorted`; Reader (Connections, Filters) is a reader's connection and its queries; Routes
--   (Answers) is how a handler of app/api turns exceptions into answers. Then a module for each service
--   with its router: Lineage (Handlers) for app/lineage_services.py, ContextPacks (Metadata) for
--   app/context_pack_services.py, Proposals (Shape) for app/healing_proposal_services.py, Applications
--   (Listing) for app/public_applications_services.py, Promotions (Detail, Handlers, Retry, Audit, Queue)
--   for app/proving_slice_queue_services.py; and Lifespan (Boot) for app/main.py.
-- - RepoContext: scripts/repo_context_tools.py. Yaml (Stores, Holders, Sound, Safety) is the parser of the repository's
--   manifest, over a store of the containers that it fills; Manifest checks what was parsed; Instructions
--   renders the files for agents; Drift (Laws) generates them and checks their drift.
-- - Contract: the enumerations that those modules share. Database: what they call of asyncpg.
-- - Runtime: Python's exceptions and methods. A method is a function of the object's state that gives an
--   outcome (a value, an exception, or a loop that did not end) and the state after it.
-- - Prelude, Text: shared names, integers, lists, tests, and texts as code points.
-- - Tests: a small installation, and the theorems at concrete runs of it.
--
-- What is a parameter, and what is supposed of it. The database (Database) is any state with the calls
-- that the code makes; that a session counts how often it has taken an advisory lock and given it
-- back (LockLaws), as PostgreSQL does, and that time does not run backwards (IsMonotonic), are hypotheses
-- where they are needed. Of the pool it is supposed only that it takes no lock: asyncpg frees the locks of
-- a connection that comes back, and no theorem uses that.
-- The readers of app call a Connection; that its connections are counted (Counts, Queries) is a hypothesis
-- where it is needed. `json.loads`, `isoformat`, `fromisoformat` and `str` are functions that their
-- modules take, and so are what the clock reads and, for the instruction files, SHA-256 and the text of a
-- list or a dict.
-- The digests, JSON, random bytes and the PostgreSQL tools are the fields of Codec and Backend, the
-- validator of jsonschema is a test on dicts. A logging call with keyword fields raises TypeError where
-- its level is enabled, as `logging.Logger` does, so the level is a parameter of what logs.
--
-- Bounds. The polling loop of the lock runs on timeout / 100 + 2 rounds of fuel, for a timeout in
-- milliseconds: each round but the last sleeps 100 of them, or what is left of the timeout, so that the
-- deadline passes before the fuel is used up. Time is in whole units and does not wrap.
--
-- Not modelled: reading the environment (pydantic-settings), cancellation of a task, failures of reading
-- a file other than a missing file, lists of other values than texts in a sidecar, the texts of error
-- messages, the wiring of FastAPI and what it checks of a request, what the SQL selects, and of the
-- scripts `verify`, with its calls of git and its receipts, and the entry points. White space that is not
-- ASCII is not stripped, and the numbers of a version are in ASCII digits, no more of them than the
-- interpreter converts (4300, if the setting is not changed). The times of the database are taken to be
-- aware and in UTC; a time that the promotion queue reads from a text keeps its offset. A row of the readers of app is a list of columns with values, of which floats are
-- left out. Ages are whole numbers, where the code goes
-- through floats that are exact for them.
pub mod Prelude
pub mod Contract
pub mod Runtime
pub mod Text
pub mod Config
pub mod Compatibility
pub mod Database
pub mod MigrationLock
pub mod Lifecycle
pub mod Health
pub mod Storage
pub mod Signing
pub mod Backup
pub mod Export
pub mod Maintenance
pub mod Analytics
pub mod Web
pub mod RepoContext
pub mod Tests
