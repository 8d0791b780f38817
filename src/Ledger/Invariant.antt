-- ===== src/Ledger/Invariant.antt =====
-- src/ledger/mod.rs: the invariant of the ledger, kept by every operation.
use oh_myserial.Common.{
  ℕ, ◌+◌, ◌%◌, ◌≤◌, ◌≡◌, ◌≢◌, refl, sym, ◌∙◌, false, none, Result, ok, err, arith, inl, inr, length,
  u64_max, ◌==◌, Bool-cases, Result-cases,
}
use oh_myserial.Ledger.Schema.{EventPayload, EventEnvelope, Externals, new_event, validate}
use oh_myserial.Ledger.State.{
  EventStore, Ledger, Moment, retain, ring_of, LedgerError, recorded_event, invalid_event,
  already_sealed, sequence_exhausted,
}
use oh_myserial.Ledger.Operations.{
  next_event, persist, publish, assign, record_valid, append, seal, checkpoint,
}
use oh_myserial.Ledger.Ring.{IsRing, retain-IsRing}

-- The ring holds the newest events without a gap, within its limits, and no event is unaccounted:
-- every number up to the newest is in the ring or was evicted.
pub record IsValid {S : Type 0} (l : Ledger S) : Type 0 where
  pub ring_ok : IsRing l.memory (ring_of l)
  pub accounted : l.evicted_events + length l.ring ≡ l.newest_seq
  pub next : l.next_seq ≡ (l.newest_seq + 1) % 18446744073709551616
  pub newest_le : l.newest_seq ≤ u64_max
  pub memory_small : l.memory.max_bytes ≤ 9223372036854775807

module _ (x : Externals) (es : EventStore) where
  open es use {Store}

  -- The durable write touches only the store and what is said of it.
  pub record SameButStore (l l' : Ledger Store) : Type 0 where
    pub same_session : l'.session_id ≡ l.session_id
    pub same_ring : ring_of l' ≡ ring_of l
    pub same_memory : l'.memory ≡ l.memory
    pub same_next : l'.next_seq ≡ l.next_seq
    pub same_newest : l'.newest_seq ≡ l.newest_seq
    pub same_live : l'.live ≡ l.live
    pub same_sealed : l'.sealed ≡ l.sealed

  pub persist-SameButStore :
      (l : Ledger Store) (event : EventEnvelope) → SameButStore l (persist x es l event).0
  unfolding persist
  persist-SameButStore l event = ground arith

  -- Either the append is refused and the ledger is as it was, or the event is valid and recorded.
  pub data Appended (l : Ledger Store) (epoch : ℕ) (payload : EventPayload) (t : Moment)
      (r : Ledger Store × Result EventEnvelope LedgerError) : Type 0 where
    refused :
        (e : LedgerError) → recorded_event e ≡ none → r ≡ (l, err e) → Appended l epoch payload t r
    recorded :
        l.sealed ≡ false
        → l.newest_seq ≢ u64_max
        → validate x (next_event x es l epoch payload t) ≡ ok tt
        → r ≡ record_valid x es l (next_event x es l epoch payload t)
        → Appended l epoch payload t r

  pub append-Appended :
      (l : Ledger Store) (epoch : ℕ) (payload : EventPayload) (t : Moment)
      → Appended l epoch payload t (append x es l epoch payload t)
  unfolding append
  append-Appended l epoch payload t = elim (Bool-cases l.sealed) [
    | inl shut ↦ refused already_sealed refl (ground arith)
    | inr still ↦ elim (Bool-cases (l.newest_seq == u64_max)) [
      | inl last ↦ refused sequence_exhausted refl (ground arith)
      | inr more ↦ elim (Result-cases (validate x (next_event x es l epoch payload t))) [
        | inl (valid, e) ↦ recorded still (ground arith) (ground arith) (ground arith)
        | inr (error, e) ↦ refused (invalid_event error) refl (ground arith)
      ]
    ]
  ]

  next_event-seq :
      (l : Ledger Store) (epoch : ℕ) (payload : EventPayload) (t : Moment)
      → (next_event x es l epoch payload t).seq ≡ l.next_seq
  unfolding next_event new_event
  next_event-seq l epoch payload t = refl

  publish-IsValid :
      (l l' : Ledger Store) (event : EventEnvelope)
      → IsValid l
      → l.newest_seq ≢ u64_max
      → SameButStore (assign x es l) l'
      → event.seq ≡ l.next_seq
      → IsValid (publish x es l' event)
  unfolding publish assign
  publish-IsValid l l' event v more same h =
      let ring : IsRing l.memory (retain x l.memory (ring_of l) event) = fits.0 in
      record {
        ring_ok = rw (same.same_memory, same.same_ring) ring;
        accounted = rw (same.same_memory, same.same_ring) (fits.1 ∙ h ∙ sym same.same_newest);
        next = ground arith;
        newest_le = omega arith;
        memory_small = ground arith;
      }
    where
      fits :
          IsRing l.memory (retain x l.memory (ring_of l) event)
          × ((retain x l.memory (ring_of l) event).evicted
                + length (retain x l.memory (ring_of l) event).events
              ≡ event.seq)
      fits =
          retain-IsRing l.memory x v.memory_small (ring_of l) event v.ring_ok (omega arith)
            (omega arith)

  record_valid-IsValid :
      (l : Ledger Store) (event : EventEnvelope)
      → IsValid l
      → l.newest_seq ≢ u64_max
      → event.seq ≡ l.next_seq
      → IsValid (record_valid x es l event).0
  unfolding record_valid
  record_valid-IsValid l event v more h =
      publish-IsValid l (persist x es (assign x es l) event).0 event v more
        (persist-SameButStore (assign x es l) event) h

  -- An append to a valid ledger, refused, degraded or successful, leaves it valid: the ring
  -- holds the newest events without a gap and within both limits, and every number up to the
  -- newest is in the ring or counted as evicted.
  pub append-IsValid :
      (l : Ledger Store) (epoch : ℕ) (payload : EventPayload) (t : Moment)
      → IsValid l
      → IsValid (append x es l epoch payload t).0
  append-IsValid l epoch payload t v = elim (append-Appended l epoch payload t) [
    | refused e none_recorded r ↦ rw r v
    | recorded still more valid r ↦
        rw r (record_valid-IsValid l _ v more (next_event-seq l epoch payload t))
  ]

  pub seal-IsValid : (l : Ledger Store) → IsValid l → IsValid (seal x es l).0
  unfolding seal
  seal-IsValid l v = ground arith

  pub checkpoint-IsValid : (l : Ledger Store) → IsValid l → IsValid (checkpoint x es l).0
  unfolding checkpoint
  checkpoint-IsValid l v = ground arith
