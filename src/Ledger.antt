-- ===== src/Ledger.antt =====
-- src/ledger/: the append-only event ledger.
pub mod Schema
pub mod Store
pub mod Verify
pub mod Lines
pub mod Segments
pub mod Chains
pub mod Holding
pub mod Sealing
pub mod Appending
pub mod Reread
pub mod Recovery
pub mod Recovering
pub mod Filter
pub mod State
pub mod Operations
pub mod Query
pub mod Pages
pub mod Paging
pub mod Ring
pub mod Invariant
pub mod Open
pub mod Evidence
