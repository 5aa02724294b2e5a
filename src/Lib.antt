-- ===== src/Lib.antt =====
-- Retrovert: models of its playlist engine and of the core of its updater, with what they guarantee.
--
-- The parts and the files that model them:
--   Playlist, Playlist/*        crates/playlist/src/lib.rs. `Engine` is the record of that name, and
--                               each of its methods is a function of the same name that returns the
--                               engine it leaves beside its result. Store, Items, Transport, Persist
--                               and Cursors hold the methods; Session runs a history of calls.
--   Queue.antt, Queue/Policy    crates/updater/src/queue/entry.rs, the scheduling policy.
--   Queue/Slots, Workers, Calls crates/updater/src/queue/mod.rs. `Shared` is the record of that name
--                               with the `WorkerState` that the queue lock guards. Each hold of the
--                               lock, and each access outside of it, is one function; Session has
--                               the callers and workers as a sequence of events in any order, and
--                               Machine the life of one slot as a step relation that every event
--                               follows (Claims).
--   Queue/Transport, Transfer   `transfer` of queue/mod.rs, crates/updater/src/queue/validate.rs and the
--                               data of crates/updater/src/transport/download.rs that they read.
--   Transport, Transport/*      crates/updater/src/transport. Meta is meta.rs with its bytes, Http the
--                               checks of download.rs on a response, Download its `prepare` and
--                               `start` over a cache entry (cache.rs), Reading its `read_chunk` with
--                               `finalize_complete` and `Drop`, Digest digest.rs. Session is a client
--                               that starts, polls and drops transfers of one entry; Splice is the
--                               proof on the bytes that such a session leaves.
--   Schedule                    crates/updater/src/updater/schedule.rs and crates/updater/src/policy.rs.
--   Manifest                    crates/tuf/src/manifest.rs; Manifest/Plan is
--                               crates/updater/src/check/plan.rs.
--   Channel, Channel/*          crates/updater/src/channel: mod.rs, and Trust, Time and Source for the
--                               files of those names. `authenticate` takes the file of the floor and
--                               what the outside answers, and returns the file beside its result.
--   Check                       crates/updater/src/check/mod.rs and record.rs over Channel, with the files
--                               of the trust and the state directories.
--   Apply, Apply/*              crates/updater/src/apply. Install is install.rs, Acquire and Publish are
--                               the loop of mod.rs and an apply around it; Session is a history of
--                               applies, killed ones too, and of collections of the install root. What
--                               the queue answers an apply, its `remove` included, is an argument.
--   Common                      machine words, list operations and lemmas that the parts share.
-- The updater's driver asks the schedule when to check, a check authenticates the channel and selects
-- a plan from its manifest, and the plan's artifacts are queued as transfers, each of which a worker
-- runs as a download; an apply places what was transferred in a generation and records it. The driver
-- itself is not modelled.
--
-- Numbers are natural numbers, and times are integers; where the source saturates or checks an
-- addition the bound is written out. A call that panics is an outcome of its own. The fuels are
-- those of `drain` in Playlist/Playback.antt, the number of polls a host makes, and of `turns` in
-- Apply/Publish.antt, the rounds before a process ends; the theorems on them give a number of polls
-- after which nothing is left to play, and of rounds after which an acquisition has ended.
--
-- Not modelled: floating-point progress, thread handles and joins, clocks (a time is an argument),
-- the second of an instant (a function that is an argument), JSON, SHA-256, the TUF client, the HTTP client and the kernel's file system (their answers are
-- arguments), two applies at the same time, the updater's driver, the signed metadata that the
-- publisher writes (crates/tuf less its manifest, and crates/publish), and the crates of the catalog,
-- the player and the user interfaces.
pub mod Common
pub mod Playlist
pub mod Queue
pub mod Schedule
pub mod Manifest
pub mod Transport
pub mod Channel
pub mod Check
pub mod Apply
