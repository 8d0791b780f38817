-- ===== src/Ledger/Operations.antt =====
-- src/ledger/mod.rs: `open`, `append`, `seal` and `checkpoint`.
use oh_myserial.Common.{
  ℕ, ◌+◌, ◌-◌, ◌/◌, ◌%◌, true, [], ◌∷◌, ◌++◌, Option, none, some, String, Result, ok, err, ◌==◌,
  if◌then◌else◌, min, u64_max,
}
use oh_myserial.Ledger.Schema.{
  EventPayload, EventEnvelope, Externals, SchemaError, new_event, validate,
}
use oh_myserial.Ledger.State.{
  EventStore, PersistenceState, active, degraded, sealed_state, LedgerError, invalid_event,
  already_sealed, sequence_exhausted, persistence_degraded, seal_failed, checkpoint_failed, Ledger,
  Moment, retain, ring_of,
}

module _ (x : Externals) (es : EventStore) where
  open es use {Store}

  -- `elapsed().as_micros().min(u64::MAX)`.
  mono_us : Ledger Store → Moment → ℕ
  mono_us l t = min ((t.instant - l.started) / 1000) u64_max

  unfoldable pub next_event : Ledger Store → ℕ → EventPayload → Moment → EventEnvelope
  unfolding mono_us
  next_event l epoch payload t =
      new_event l.session_id l.next_seq t.ts_utc (mono_us l t) epoch payload

  -- The durable write: the new state and the error to report, if any.
  abbrev stored : Ledger Store → Store × Result (Unit {0}) String → Ledger Store × Option String
  stored l (s, ok done) = (record l { store = some s }, none)
  stored l (s, err detail) = (
    record l {
      store = some (es.mark_degraded s);
      persistence_state = degraded;
      persistence_error = some detail;
    },
    some detail,
  )

  persist_store : Ledger Store → Option Store → EventEnvelope → Ledger Store × Option String
  persist_store l none event = (l, none)
  persist_store l (some s) event = stored l (es.append s event)

  persist_by : PersistenceState → Ledger Store → EventEnvelope → Ledger Store × Option String
  unfolding persist_store
  persist_by degraded l event = (l, l.persistence_error)
  persist_by _ l event = persist_store l l.store event

  unfoldable pub persist : Ledger Store → EventEnvelope → Ledger Store × Option String
  unfolding persist_by
  persist l event = persist_by l.persistence_state l event

  -- `state.retain(event)`, then the send to the live subscribers.
  unfoldable pub publish : Ledger Store → EventEnvelope → Ledger Store
  publish l event =
      let r = retain x l.memory (ring_of l) event in
      record l {
        ring = r.events;
        ring_bytes = r.bytes;
        evicted_events = r.evicted;
        live = l.live ++ event ∷ [];
      }

  abbrev report : EventEnvelope → Option String → Result EventEnvelope LedgerError
  report event none = ok event
  report event (some detail) = err (persistence_degraded event detail)

  -- `next_seq = seq + 1` wraps in a release build.
  unfoldable pub assign : Ledger Store → Ledger Store
  assign l = record l {
    next_seq = (l.next_seq + 1) % 18446744073709551616;
    newest_seq = l.next_seq;
  }

  unfoldable pub record_valid :
      Ledger Store → EventEnvelope → Ledger Store × Result EventEnvelope LedgerError
  unfolding assign persist publish
  record_valid l event =
      let (l', error) = persist (assign l) event in (publish l' event, report event error)

  append_checked :
      Ledger Store
      → EventEnvelope
      → Result (Unit {0}) SchemaError
      → Ledger Store × Result EventEnvelope LedgerError
  append_checked l event (err e) = (l, err (invalid_event e))
  append_checked l event (ok valid) = record_valid l event

  unfoldable pub append :
      Ledger Store → ℕ → EventPayload → Moment → Ledger Store × Result EventEnvelope LedgerError
  unfolding append_checked
  append l epoch payload t =
      if l.sealed
      then (l, err already_sealed)
      else if l.newest_seq == u64_max
      then (l, err sequence_exhausted)
      else let event = next_event l epoch payload t in append_checked l event (validate x event)

  -- The store's part of `seal`; without a store it succeeds.
  seal_store : Option Store → Option Store × Result (Unit {0}) String
  seal_store none = (none, ok tt)
  seal_store (some s) = let (s', r) = es.seal s in (some s', r)

  abbrev sealed_as : PersistenceState → PersistenceState
  sealed_as active = sealed_state
  sealed_as state = state

  sealed_with :
      Ledger Store
      → Option Store × Result (Unit {0}) String
      → Ledger Store × Result (Unit {0}) LedgerError
  sealed_with l (s, ok done) = (
    record l { sealed = true; store = s; persistence_state = sealed_as l.persistence_state },
    ok tt,
  )
  sealed_with l (s, err error) = (
    record l {
      sealed = true;
      store = s;
      persistence_state = degraded;
      persistence_error = some error;
    },
    err (seal_failed error),
  )

  unfoldable pub seal : Ledger Store → Ledger Store × Result (Unit {0}) LedgerError
  unfolding seal_store sealed_with
  seal l = if l.sealed then (l, ok tt) else sealed_with l (seal_store l.store)

  checkpointed :
      Ledger Store → Store × Result (Unit {0}) String → Ledger Store × Result (Unit {0}) LedgerError
  checkpointed l (s, ok done) = (record l { store = some s }, ok tt)
  checkpointed l (s, err detail) = (
    record l {
      store = some (es.mark_degraded s);
      persistence_state = degraded;
      persistence_error = some detail;
    },
    err (checkpoint_failed detail),
  )

  checkpoint_store : Ledger Store → Option Store → Ledger Store × Result (Unit {0}) LedgerError
  unfolding checkpointed
  checkpoint_store l none = (l, ok tt)
  checkpoint_store l (some s) = checkpointed l (es.checkpoint s)

  abbrev degraded_detail : Option String → String
  degraded_detail none = "persistence is degraded"
  degraded_detail (some detail) = detail

  checkpoint_by : PersistenceState → Ledger Store → Ledger Store × Result (Unit {0}) LedgerError
  unfolding checkpoint_store
  checkpoint_by degraded l = (l, err (checkpoint_failed (degraded_detail l.persistence_error)))
  checkpoint_by _ l = checkpoint_store l l.store

  unfoldable pub checkpoint : Ledger Store → Ledger Store × Result (Unit {0}) LedgerError
  unfolding checkpoint_by
  checkpoint l = if l.sealed then (l, err already_sealed) else checkpoint_by l.persistence_state l
