-- ===== src/Broker.antt =====
-- src/broker.rs: the client registry, RX fan-out and TX arbitration.
pub mod State
pub mod Events
pub mod Clients
pub mod Rx
pub mod Device
pub mod Admit
pub mod Transmit
pub mod Leases
pub mod Handoff
pub mod Control
pub mod Status
pub mod Authority
pub mod Trimming
pub mod Evidence
pub mod Epochs
pub mod Exclusion
pub mod Granting
pub mod Queueing
pub mod Invariant
pub mod Steps
pub mod Upkeep
pub mod Rights
pub mod Ownership
pub mod Passing
pub mod Requests
