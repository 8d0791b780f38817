-- ===== src/Lib.antt =====
-- ohmyserial shares one serial port between many clients. This library models the core of the Rust
-- program: who may write to the device, how device bytes reach the clients, and what the ledger
-- records.
--
-- The parts and the code they model:
-- * Policy (src/policy.rs): TxMode, SlowClientPolicy, Policy, WriteLock and admit_write, the pure
--   decision on a write; Policy.Frames is FrameAssembler. Policy.Admission, Policy.Framing and
--   Policy.Chunks hold the theorems.
-- * Fanout (src/broker.rs, ClientFanout and ClientRx): the bounded queue in front of one client.
--   Its mutex makes each operation one step. Under the block policy `enqueue` waits: the argument
--   `List Wake` lists its wake-ups, with what the other threads did before each and whether the
--   wait timed out; `none` is a call that is still waiting.
-- * Ledger.Schema and Ledger.Filter (src/ledger/schema.rs): events, their validation, the filter.
--   Base64, RFC 3339 and the JSON encoder are the fields of `Externals`; decoding undoes encoding,
--   and an encoded event has at most isize::MAX bytes.
-- * Ledger (src/ledger/mod.rs): State, Operations (append, seal, checkpoint), Query and Open. The
--   segment store is the interface `EventStore` there. Clocks are read through `Moment`.
-- * Ledger.Store and Ledger.Verify (src/ledger/store.rs): SegmentStore, which writes the events of a
--   session to segments that are linked by hashes, and the reading of sealed segments with every check.
--   JSON and SHA-256 are the fields of `Codec`; the results of the file operations of a call are its
--   `Io`; a sealed file is its index and its bytes. Lines, Segments, Chains, Holding, Sealing,
--   Appending and Reread lead to the theorem that what was written is read back. Recovery models
--   recover_open_segment, of which Recovering shows what a torn file becomes.
-- * Broker (src/broker.rs): State (BrokerState and the handle Broker as one record), Events
--   (record_event, set_port_status), Clients (the registry), Rx (on_device_rx), Device
--   (validate_device_write and the outcomes of a write), Admit and Transmit (client_tx_inner),
--   Leases, Handoff, Control and Status. Broker.Steps is a step relation on the broker: a step is an
--   operation or its part between two waits, and a reception of device bytes is also given in parts.
-- * Telnet (src/client/rfc2217.rs): TelnetDecoder, escape_iac, negotiation_reply and rfc_reply.
-- * Config (src/config.rs): the endpoints and expand_fanout, with Expansion.
-- * Supervisor (src/supervisor.rs): the claims of profiles on ports, listeners, directories and links,
--   with Adding (the keys that are claimed), Selectors (USB selectors) and Collisions.
-- * Replay (src/replay/mod.rs): ReplaySession, ReplayCursor and play; Capture, Playing and Stepping
--   hold the theorems. An f64 speed is a parameter (`Speeds`).
-- * Workflow (src/workflow/mod.rs): the definitions and their validation; Matcher (prefix_table and the
--   byte loop of expect_bytes), with Suffixes, Longest, Table and Matching for its proof; Expect
--   (consume_event and expect_bytes, a list of `Round`s standing for what each round of the loop
--   sees), with Expecting and Finding; Run and Runner (run_inner and run, over the trait
--   WorkflowRuntime as a record), with Keeping, Reading, Recording and Repeating. The time that is
--   left in a round is part of the `Round`, not computed from timeout_ms; the two updates of the
--   runner's tables at the end of a run are one step.
--
-- How the parts interact: the broker asks admit_write twice for each write, when a client sends it
-- (admit_tx) and when it is queued and written (validate_device_write); it records what happens in
-- the ledger; it delivers device bytes through one Fanout for each client.
--
-- Conventions: numbers are natural numbers, and where a u64 or an atomic counter wraps or saturates
-- the definitions say so (`fetch_add`, `saturating_add`). An Instant is a count of nanoseconds. A
-- fresh UUID or token is an argument. A method that waits takes what other tasks do to the broker
-- meanwhile as an argument. A HashMap is an association list, its order being that of iteration.
-- Fuel: the decimal printer takes 20 digits, enough for a u64; falling back in the matcher takes one
-- round more than the length matched, and the play of a capture one more than its events, both
-- proved enough.
--
-- Not modelled: the opening of a segment store over existing files with its session lock, the
-- serial owner's thread, the commands of RFC 2217 and its sockets, the broker as a workflow runtime,
-- the start and shutdown of the supervisor's hubs, the validation of a configuration and the quick
-- share, the HTTP, PTY and TCP adapters, the command line, the text log, and of the ledger status and
-- subscriptions.
-- Examples holds concrete runs.
pub mod Common
pub mod Policy
pub mod Fanout
pub mod Ledger
pub mod Broker
pub mod Telnet
pub mod Replay
pub mod Config
pub mod Supervisor
pub mod Workflow
pub mod Examples
