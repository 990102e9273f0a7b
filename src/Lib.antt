-- ===== src/Lib.antt =====
-- A model of the parts of treeminer that must not lose money: the durable journal of finds, the loop
-- that drains it to the server, and the client that lets a platform rent the machine, with the
-- theorems that hold of them.
--
-- The program mines finds, writes each to a journal on disk, and submits them one at a time to a
-- server that may be down, slow or lying. A platform may send it commands, signed or not. The parts,
-- below treeminer-rs/crates, and their models:
--   Core/Types                 tm-core/src/types.rs: kinds, statuses, payloads, records.
--   Core/Address, Encoding,    tm-core/src/address.rs, encoding.rs, matching.rs, and `classify_find`
--   Matching                   of treeminer/src/state.rs: addresses, PHC strings, kinds of finds.
--   Core/Batch                 tm-core/src/batch.rs: the size of a batch.
--   Journal/Table, Finds,      tm-journal/src/journal.rs: the `finds` table and the operations of
--   Counts                     `FindJournal`, one function each, on the state `Db`.
--   Journal/Fallback           tm-journal/src/fallback.rs: the file that takes a find when the
--                              database refuses it, and its import.
--   Journal/Bridge             treeminer/src/bridge.rs: the journal behind `JournalAccess`.
--   Submit/Breaker             tm-submit/src/breaker.rs: `CircuitBreaker`, one function a method.
--   Submit/Drain               tm-submit/src/drain.rs: `DrainScheduler`, selection and pacing.
--   Submit/Margin              tm-submit/src/margin.rs: `compute_margin`.
--   Submit/ClockTime           tm-submit/src/clocktime.rs: dates, the `Date` header, XUNI windows.
--   Submit/Json, Classifier    tm-submit/src/classifier.rs: the field scanner and `classify`.
--   Submit/Manager             tm-submit/src/manager.rs with the traits of transport.rs and
--                              journal.rs: `SubmissionManager`, whose `run_once` is composed of
--                              `update_margin`, `probe_step`, `submit_step` and `confirm_step`.
--   Platform/Envelope, Nonces  tm-platform/src/envelope.rs: signatures, and the replay cache.
--   Platform/Proto             tm-platform/src/proto.rs: messages, and commands read from JSON.
--   Platform/Lease,            tm-platform/src/lease.rs, coordinator.rs, backoff.rs: whom the machine
--   Coordinator, Backoff       works for and for how long, and the delays of a reconnection.
--   Platform/Manager           tm-platform/src/manager.rs with reporter.rs: the states, handlers, the
--                              command queue, and what is published.
--   Miner/Find                 treeminer/src/find.rs with the counters and the fatal flag of state.rs:
--                              `FindSink`, from a device's find to the journal or the file.
--   Prelude                    texts as bytes, whole numbers, lists; Examples: tests.
-- A find is encoded, checked on the CPU, journaled, or else put in the fallback file, which the next
-- start imports. The manager of submissions owns a breaker and a scheduler, asks the journal for due finds, submits the one that the
-- scheduler selects if the breaker admits it, classifies the answer, looks an accepted find up
-- again before it acknowledges it, and journals the verdict. The platform's manager queues the
-- payloads that arrive, checks the envelope of each against its key and its replay cache, and moves
-- the lease and the mining context of the coordinator.
--
-- State is passed explicitly. A step of the manager is a function from its state to a new one and
-- a value or the journal's error; what was done before an error stays done. SQLite is a Boolean
-- for each call: it carries the statements of the call out or none of them. Clock readings and the
-- jitter are arguments of the breaker, and read off the network's state in the manager. Floats are
-- bit patterns, the float unit is a parameter (`Floats`), and what is assumed of it is a named
-- hypothesis. Instants and counters are natural numbers without a bound, where the code has `i64`:
-- the clocks are milliseconds since the start and since 1970, far below it. Signed numbers are kept
-- where the code meets them, in dates and wall clocks.
--
-- The JSON library, the HMAC and the comparison of digests, hex, Keccak, the decoding of a command's
-- fields and the formats of floats are parameters. The hash map of the replay cache is a list of
-- entries, oldest first. The fallback file is its bytes, and the file system's answers are arguments.
--
-- The field loop of the JSON scanner runs on fuel, of which it is given one round for each byte
-- left; every field has at least one byte (Submit/Json/Fuel). The dispatch of commands runs on the
-- length of its queue (Platform/Manager/Queue). All other loops are structural.
--
-- Not modelled: SQLite itself, the schema and the pragmas, `recover_on_startup`, threads, locks and
-- wake-ups (each operation holds a lock for its whole length), the callbacks but for the list of
-- their events, the cached breaker state and the other accessors, logging, the HTTP client, the MQTT
-- transport and the source of the platform's secret, the search for finds, the Argon2 host code,
-- and the crates that mine and display.
mod Prelude
pub mod Core
pub mod Submit
pub mod Journal
pub mod Platform
pub mod Miner
pub mod Examples
