-- ===== src/Ledger/Open.antt =====
-- src/ledger/mod.rs: `Ledger::open`. What `recover_stale_sessions` and `SegmentStore::open` return
-- is an argument: an error text, or the store with the events of the session found on disk.
use oh_myserial.Common.{
  ℕ, suc, ◌+◌, ◌≤◌, ◌≡◌, false, List, [], ◌∷◌, Option, none, some, String, Result, ok, err, ◌>>◌,
  guard, OnOk, OnOk-bind, not, ◌==◌, arith, length, saturating_add, u64_max, sym, subst, ◌<◌,
}
use oh_myserial.Ledger.Schema.{EventEnvelope, Externals}
use oh_myserial.Ledger.State.{
  EventStore, MemoryOptions, LedgerError, invalid_options, open_store, disabled, active, Ledger,
  retain, ring_of,
}
use oh_myserial.Ledger.Ring.{retain-IsRing}
use oh_myserial.Ledger.Invariant.{IsValid}

pub record LedgerOptions : Type 0 where
  pub session_id : String  -- given, or fresh
  pub memory : MemoryOptions
  pub stream_capacity : ℕ
  pub directory : Option String

abbrev pub validate_memory : MemoryOptions → Result (Unit {0}) LedgerError
validate_memory m = do
  guard (not (m.max_events == 0)) (invalid_options "memory max_events must be greater than zero")
  guard (not (m.max_bytes == 0)) (invalid_options "memory max_bytes must be greater than zero")
  ok tt

module _ (x : Externals) (es : EventStore) where
  open es use {Store}

  abbrev fresh : LedgerOptions → ℕ → Ledger Store
  fresh o started = record {
    session_id = o.session_id;
    started = started;
    next_seq = 1;
    newest_seq = 0;
    ring = [];
    ring_bytes = 0;
    evicted_events = 0;
    memory = o.memory;
    store = none;
    persistence_state = disabled;
    persistence_directory = o.directory;
    persistence_error = none;
    sealed = false;
    live = [];
  }

  -- The loop over the events found on disk.
  restore_one : Ledger Store → EventEnvelope → Ledger Store
  restore_one l event =
      let r = retain x l.memory (ring_of l) event in
      record l {
        next_seq = saturating_add event.seq 1;
        newest_seq = event.seq;
        ring = r.events;
        ring_bytes = r.bytes;
        evicted_events = r.evicted;
      }

  unfoldable pub restore : Ledger Store → List EventEnvelope → Ledger Store
  unfolding restore_one
  restore l [] = l
  restore l (event ∷ rest) = restore (restore_one l event) rest

  with_store :
      LedgerOptions
      → ℕ
      → Result (Store × List EventEnvelope) String
      → Result (Ledger Store) LedgerError
  with_store o started (err detail) = err (open_store detail)
  with_store o started (ok (store, prior)) =
      ok (record (restore (fresh o started) prior) {
        store = some store;
        persistence_state = active;
      })

  open_by :
      LedgerOptions
      → ℕ
      → Option String
      → Result (Store × List EventEnvelope) String
      → Result (Ledger Store) LedgerError
  unfolding with_store
  open_by o started none opened = ok (fresh o started)
  open_by o started (some directory) opened = with_store o started opened

  unfoldable pub open_ledger :
      LedgerOptions
      → ℕ
      → Result (Store × List EventEnvelope) String
      → Result (Ledger Store) LedgerError
  unfolding open_by
  open_ledger o started opened = do
    validate_memory o.memory
    guard (not (o.stream_capacity == 0))
        (invalid_options "stream_capacity must be greater than zero")
    open_by o started o.directory opened

  -- The events of a verified session: numbered from one.
  abbrev pub Numbered : ℕ → List EventEnvelope → Type 0
  Numbered n [] = Unit {0}
  Numbered n (e ∷ rest) = (e.seq ≡ n) × Numbered (suc n) rest

  restore_one-IsValid :
      (l : Ledger Store) (event : EventEnvelope)
      → IsValid l
      → l.newest_seq + 1 < u64_max
      → event.seq ≡ suc l.newest_seq
      → IsValid (restore_one l event)
  unfolding restore_one
  restore_one-IsValid l event v h n =
      let (ring, kept) =
        retain-IsRing l.memory x v.memory_small (ring_of l) event v.ring_ok (omega arith)
          (omega arith) in
      record {
        ring_ok = ring;
        accounted = kept;
        next = ground arith;
        newest_le = omega arith;
        memory_small = v.memory_small;
      }

  restore-IsValid :
      (l : Ledger Store) (prior : List EventEnvelope)
      → IsValid l
      → l.newest_seq + length prior < u64_max
      → Numbered (suc l.newest_seq) prior
      → IsValid (restore l prior)
  unfolding restore
  restore-IsValid l [] v h n = v
  restore-IsValid l (event ∷ rest) v h n =
      restore-IsValid (restore_one l event) rest (restore_one-IsValid l event v (omega arith) n.0)
        (omega arith) (subst (λ z. Numbered (suc z) rest) (sym n.0) n.1)

  fresh-IsValid :
      (o : LedgerOptions) (started : ℕ)
      → o.memory.max_bytes ≤ 9223372036854775807
      → IsValid (fresh o started)
  fresh-IsValid o started small = ground arith

  open_by-IsValid :
      (o : LedgerOptions) (started : ℕ) (directory : Option String) (store : Store)
      (prior : List EventEnvelope)
      → o.memory.max_bytes ≤ 9223372036854775807
      → length prior < u64_max
      → Numbered 1 prior
      → OnOk (open_by o started directory (ok (store, prior))) IsValid
  unfolding open_by
  open_by-IsValid o started none store prior small few n = fresh-IsValid o started small
  open_by-IsValid o started (some directory) store prior small few n =
      let v =
        restore-IsValid (fresh o started) prior (fresh-IsValid o started small) (omega arith) n in
      record {
        ring_ok = v.ring_ok;
        accounted = v.accounted;
        next = v.next;
        newest_le = v.newest_le;
        memory_small = v.memory_small;
      }

  -- A ledger that opens is valid, if the events found on disk are numbered from one and fewer
  -- than the largest u64, and the memory limit is at most isize::MAX bytes.
  pub open_ledger-IsValid :
      (o : LedgerOptions) (started : ℕ) (store : Store) (prior : List EventEnvelope)
      → o.memory.max_bytes ≤ 9223372036854775807
      → length prior < u64_max
      → Numbered 1 prior
      → OnOk (open_ledger o started (ok (store, prior))) IsValid
  unfolding open_ledger
  open_ledger-IsValid o started store prior small few n =
      OnOk-bind IsValid (validate_memory o.memory) _ λ valid.
        OnOk-bind IsValid (guard (not (o.stream_capacity == 0)) _) _
          λ positive. open_by-IsValid o started o.directory store prior small few n
