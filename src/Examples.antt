-- ===== src/Examples.antt =====
-- Concrete runs of the definitions: a codec and a store in place of the other crates' code, and the
-- theorems at concrete inputs.
mod Codec
mod Fixtures
mod Writes
mod Evidence
mod Queues
mod Handoffs
mod Telnets
mod Encoding
mod Records
mod Stores
mod Replays
mod Workflows
mod Profiles
mod Endpoints
