-- ===== src/Lib.antt =====
-- Verification of the capture core of Memory Archive (the Rust crate ma-core).
--
-- ma-core subscribes to a Control-Center server, records each command that an operator's agent
-- performs, and stores the steps as the memory of a session.
--
-- Parts and files
-- - Prelude, Text: names that all modules share, and the functions of Rust's standard library on
--   texts that the source calls. A text is the list of its code points. Text/Decimal has `Display`
--   and `parse` of `u32` and `i32`, Text/Trim has `trim`.
-- - Compat (ma-core/src/capture/compat.rs): the versions of the server and of the agent, and the two
--   gates over them. Compat/Messages holds the refusals word for word; they are kept shut.
-- - Event (ma-proto/proto/control_center.proto): the message CommandEvent.
-- - Stream, Stream/Connect, Stream/Watch (ma-core/src/capture/stream.rs): one attempt to connect
--   (`try_connect`, `check_version`), the choice of transport (`negotiate`), the retries
--   (`connect`), and the events that reach the recorder (`next_event`).
-- - Fidelity (ma-core/src/capture/fidelity.rs): the check for a typed command that was cut short.
-- - Convert, Convert/Drag, Convert/Keys, Convert/Lines, Convert/Commands
--   (ma-core/src/convert/mod.rs): an event as a readable line (`to_human_readable`) and as the
--   command that replays it (`to_cc_command`).
-- - Vision (ma-core/src/vision/mod.rs): the choice of a frame for an event (`decide`).
-- - State (ma-core/src/capture/session_state.rs, ma-core/src/session/metadata.rs): the metadata of a
--   capture in memory, and the calls that the watch loop makes on it.
-- - Registry/Schema, Registry/Sessions, Registry/Claims, Registry/Scans, Registry/Annotators
--   (ma-core/src/registry/schema.rs, ma-core/src/registry/mod.rs): the record of a session and the
--   methods of `SessionRegistry`, on any `Redis` (Registry/Redis). Registry/Redis/Reference has the
--   database that does what Redis documents, and `Documented`, by which a command that succeeds does
--   the same. Registry/Script (ma-core/src/ipc/mod.rs) is the Lua script that sets a claim, one step
--   as Redis runs it. Registry/Elsewhere has
--   the single commands on other keys, by which the methods of annotators and others, also those that
--   fail on the way, are steps of Registry/Kept. Registry/Calls has sequences of calls, Registry/Kept the steps of many clients.
-- - Router (ma-core/src/storage/router.rs): the choice of a backend for a tenant and for a session.
-- - SessionDir (ma-core/src/session/mod.rs): `mark_incomplete` and `purge_memory_dir`.
-- - Reasoning (ma-core/src/session/reasoning.rs): the entries of reasoning.jsonl and `upsert_entry`,
--   with a map by step kept as the list of its values in the order of their keys. serde_json and the
--   outcomes of the file operations are parameters.
-- - Capture, Capture/Ending (ma-core/src/capture/mod.rs, ma-core/src/capture/disconnect.rs): the watch
--   loop on one event (`take_turn`), on all (`take_turns`), and its endings (`finish`), which set the
--   registry's status. It calls the writer, the state, the conversions and the fidelity check.
-- - Writer (ma-core/src/capture/writer.rs): the four command files of a session, in buffers for the
--   cloud and on disk, their rows, and their finalisation.
-- - Tests: the inputs at which the theorems are applied, and runs of the conversions on inputs of
--   the source's own tests.
--
-- External code of the registry: the commands of Redis are the record `Redis`, each with a failure that
-- may leave anything; the replies of one call's SCANs are a list, so a scan ends. chrono is the record
-- `Chrono`, `str::to_uppercase` and SHA-256 are functions. A method of the registry is run as a whole:
-- the commands of two methods do not interleave. Errors of anyhow are kept by their kind, not by their
-- words. The watch loop meets its events in a list of turns, each with what it meets outside; the
-- vision pipeline is a function, and the message queue is the list of what was offered to it.
--
-- External code: tonic, the file system and the server are the record `Wire`, a parameter of each
-- attempt, and an attempt returns what it sent. Each attempt of `connect` meets its own `Wire`. The
-- messages that a stream delivers in time are a list; after the last one nothing arrives and the
-- silence timeout elapses.
--
-- serde_json, the clock, the file system and the storage backend are the record `World`, a parameter
-- of each call of the writer.
--
-- Bounds: the step counter is taken modulo 2^32. `u32` parts of a version are read below 2^32, and the shift of the backoff is taken modulo
-- 2^64. `connect` has twenty rounds for its loop, which ends by its own test
-- after ten at most. `show_nat` has one
-- round more than its argument, which is enough for every number. The loops over a drag's sentence
-- and over the braces of a key have a round for each character, and each round takes one at least.
-- `str::to_uppercase` is a parameter of the lines of keys.
--
-- Not modelled: logging and metrics; the texts of the transport errors, named by the place where they
-- arise, and the wording of `into_report`; the choice of the source of events in front of the
-- watch loop, the counts of tokens, `read_all` of reasoning.jsonl and the
-- placeholders that a capture adds to it; the socket server but for its claim script, Kafka,
-- configuration, TLS files, cloud SDKs, image drawing and the other crates and languages, which are
-- glue around their libraries.
pub mod Prelude
pub mod Text
pub mod Compat
pub mod Event
pub mod Stream
pub mod Convert
pub mod Fidelity
pub mod Writer
pub mod Vision
pub mod State
pub mod Registry
pub mod Router
pub mod Reasoning
pub mod SessionDir
pub mod Capture
mod Tests
