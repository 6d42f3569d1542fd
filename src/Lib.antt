-- ===== src/Lib.antt =====
-- Cued: a daemon that ingests messages and contacts from several platforms into one local
-- database, and a command line that asks it to. This library models the core of the TypeScript
-- program and proves what makes it correct.
--
-- The parts, with the file that models each and the source it translates:
--
--   Base      the shared names, tests, lists and numbers.
--   Platform  src/platforms/core/types.ts: the catalogue of platforms, their features, and the words
--             that stand for the values of every enumeration. A union of string literals is a data
--             type, and Platform.Words gives each value its literal.
--   Runs      src/db/database.ts and src/db/schema.ts, the table `sync_runs`: queueing
--             (Runs.Queue), claiming under a lease (Runs.Claim), progress, finishing, failing and
--             recovery (Runs.Finish), giving up (Runs.Abandon) and deletion (Runs.Delete). A table is a list of rows in the order of insertion; an UPDATE
--             is `update_where`, and a SELECT with ORDER BY and LIMIT 1 is `first_by`.
--   RunQueue  src/runtime/run-queue.ts, `RunQueueService`: what the command line asks the
--             daemon to run. It reads the integrations, puts runs into the table of Runs, and wakes
--             the schedulers, whose calls are recorded as a list.
--   Contacts  src/db/database.ts and src/db/schema.ts, the tables `contact_merge_decisions` and
--             `contact_memories`: the map of aliases and its resolution (Contacts.Alias), and the
--             planning and recording of merges (Contacts.Merge). A `Map` is the list of its settings.
--   Projection  src/runtime/projection/service.ts: the ranges of raw events that projection runs cover
--             (Projection.Details), and the barrier that holds back the hooks on new messages until
--             their rows are projected (Projection.Hooks), with `queueMessageReceivedHooks` of
--             src/runtime/daemon/server.ts, which fills it. A promise that is rejected ends a
--             release. A release shares the batches with the calls that come in while it waits, and
--             what they do to them is an argument.
--   SingletonLock  src/core/singleton-lock.ts: the lock file that keeps a second daemon from starting,
--             with its two slots (SingletonLock.File), and the leases on it (SingletonLock.Lease).
--             The file system is a map from file numbers to slots, and the file that the path names.
--             A slot is what is read of it: metadata, or nothing. What other processes do
--             during an acquisition is an argument.
--   WhatsApp  src/platforms/whatsapp/sync/proof.ts: what a resync over several pages has covered, where
--             an incremental sync starts, and the proof that is stored (WhatsApp.Proof).
--   AccountKey  src/platforms/core/account-keys.ts: which texts name an account.
--   Daemon    src/runtime/daemon/server.ts, the work queues of `startDaemon`: the timers of a queue
--             (Daemon.Timer), the sign-ins (Daemon.AuthSessions), the variables and what wakes the
--             queues (Daemon.Queues), the drains (Daemon.Drains), and everything that happens as the
--             steps of a relation (Daemon.Steps). A callback of the event loop is one step. The map
--             of the runs that are ingested is kept apart from the processings that have not ended.
--   Projector  src/runtime/projection/projector.ts, src/runtime/projection/worker.ts and the table
--             `raw_events` of src/db/database.ts: the batches of events and the watermark
--             (Projector.Store), ranges (Projector.Ranges), rebuilds and what a worker projects
--             (Projector.Rebuild), and src/runtime/projection/projection-cache.ts, the caches and
--             their overlays (Projector.Cache). The projected tables are modelled by the events that
--             they were built from; how an event fares, and whether a transaction commits, are
--             arguments.
--   RawEvents  src/runtime/projection/events.ts: the schemas of raw events (RawEvents.Schema), the
--             payloads that upcasts rebuild (RawEvents.Payload), and the check before a write and the
--             normalisation of stored events (RawEvents.Canonical). The cases of a `switch` on
--             texts are the rows of a table, and an exception is no answer.
--   Capabilities  src/core/platform-capabilities.ts: whether a platform can be used on a host, by the
--             catalogue of Platform and the state of its integration (Capabilities.Availability).
--   Proofs    src/platforms/core/proofs.ts: the contracts of the proofs that syncs store
--             (Proofs.Contracts) and their lookup.
--
-- How they interact: RunQueue asks Platform which words are platforms, asks Runs whether an account
-- has a pending run, and queues. Its targets name accounts by the keys that AccountKey accepts. The
-- workers of the daemon claim from Runs and report back under the claim that they were given.
-- Daemon's drains claim from Runs, and its steps are the callbacks between which the database may be
-- written by anyone. Daemon's `queue_projection_run` merges ranges by Projection and writes them to Runs, and Projector
-- projects the range of a run. Projection's ranges stand in the details of the runs that project. SingletonLock keeps a second
-- daemon away from the tables. A proof, such as WhatsApp builds, is stored only where Proofs lists its kind.
--
-- Conventions. A method becomes a function from the state to the new state and its answer; an
-- exception is a constructor of the answer. What the program takes from its environment is an
-- argument: the time that `Date.now()` reads, the identifiers that `randomUUID` draws, and the text
-- that `JSON.stringify` makes. Times are natural numbers of milliseconds. Where a method reads the
-- clock more than once in a call, one time stands for all its readings. Columns that may be NULL are
-- options. Where SQLite leaves the choice among equal rows open, the first in the table is taken, and
-- no theorem rests on that choice. `chunk_array` takes as many rounds as there are items, which is
-- enough since each round takes one at least. `resolve_from` takes one round more than the map has
-- entries, since every round but the last passes another key of the map. `fill_ingest` takes one
-- round more than there are runs, since each round but the last claims a run that no later round of
-- the same drain can claim. `rebuild_from` takes as many batches as there are events, and
-- `realtime_from` as many as there are rows in the range, since a batch starts behind the one before.
-- `release_completed_range` takes as many rounds as it awaits promises, and gives no answer where they
-- are too few.
--
-- Not modelled: the providers' APIs, the SQL that projects one event, the processing of a run between its claim and
-- its end, the realtime sessions, the daemon's socket, the native helpers and the
-- user interface, which are input and output or code in other languages.
pub mod AccountKey
pub mod Base
pub mod Contacts
pub mod Daemon
pub mod Platform
pub mod Projection
pub mod Projector
pub mod Capabilities
pub mod Proofs
pub mod RawEvents
pub mod Runs
pub mod RunQueue
pub mod SingletonLock
pub mod WhatsApp
