-- ===== src/Ledger/State.antt =====
-- src/ledger/mod.rs: the ledger's state, its bounded ring, and the operations on them. The state's
-- mutex makes each operation one step. The segment store is behind the interface `EventStore`.
use oh_myserial.Common.{
  ℕ, ◌-◌, Bool, true, false, ◌||◌, List, [], ◌∷◌, ◌++◌, Option, none, some, String, Result, ltb,
  length, saturating_add,
}
use oh_myserial.Ledger.Schema.{EventEnvelope, Externals, SchemaError}

-- What the ledger asks of `SegmentStore`. An operation that fails says why.
pub record EventStore : Type 1 where
  pub Store : Type 0
  pub append : Store → EventEnvelope → Store × Result (Unit {0}) String
  pub mark_degraded : Store → Store
  pub seal : Store → Store × Result (Unit {0}) String
  pub checkpoint : Store → Store × Result (Unit {0}) String

pub record MemoryOptions : Type 0 where
  pub max_events : ℕ
  pub max_bytes : ℕ

pub data PersistenceState : Type 0 where
  disabled active degraded sealed_state : PersistenceState

pub data LedgerError : Type 0 where
  invalid_options open_store seal_failed checkpoint_failed : String → LedgerError
  invalid_event : SchemaError → LedgerError
  already_sealed sequence_exhausted : LedgerError
  persistence_degraded : EventEnvelope → String → LedgerError

-- `LedgerError::recorded_event`.
abbrev pub recorded_event : LedgerError → Option EventEnvelope
recorded_event (persistence_degraded e detail) = some e
recorded_event _ = none

pub record RetainedEvent : Type 0 where
  pub event : EventEnvelope
  pub bytes : ℕ

-- `live` is what the broadcast channel has been sent. The recovery reports are not modelled.
pub record Ledger (S : Type 0) : Type 0 where
  pub session_id : String
  pub started : ℕ
  pub next_seq : ℕ
  pub newest_seq : ℕ
  pub ring : List RetainedEvent
  pub ring_bytes : ℕ
  pub evicted_events : ℕ
  pub memory : MemoryOptions
  pub store : Option S
  pub persistence_state : PersistenceState
  pub persistence_directory : Option String
  pub persistence_error : Option String
  pub sealed : Bool
  pub live : List EventEnvelope

-- When an operation reads the clocks: `Instant::now()`, and the text of `Utc::now()`.
pub record Moment : Type 0 where
  pub instant : ℕ
  pub ts_utc : String

-- The ring, its bytes and the count of evicted events.
pub record Ring : Type 0 where
  pub events : List RetainedEvent
  pub bytes : ℕ
  pub evicted : ℕ

-- The loop of `retain`.
unfoldable pub evict : MemoryOptions → List RetainedEvent → ℕ → ℕ → Ring
evict m [] bytes evicted = record { events = []; bytes = bytes; evicted = evicted }
evict m (e ∷ rest) bytes evicted =
    elim (ltb m.max_events (length (e ∷ rest)) || ltb m.max_bytes bytes) [
      | true ↦ evict m rest (bytes - e.bytes) (saturating_add evicted 1)
      | false ↦ record { events = e ∷ rest; bytes = bytes; evicted = evicted }
    ]

module _ (x : Externals) where
  -- `State::retain` and `retain_event`, which are the same code.
  unfoldable pub retain : MemoryOptions → Ring → EventEnvelope → Ring
  retain m r event =
      let bytes : ℕ = x.encoded_len event in
      evict m (r.events ++ record { event = event; bytes = bytes } ∷ [])
        (saturating_add r.bytes bytes) r.evicted

abbrev pub ring_of : {S : Type 0} → Ledger S → Ring
ring_of l = record { events = l.ring; bytes = l.ring_bytes; evicted = l.evicted_events }
