-- ===== src/Ledger/Evidence.antt =====
-- src/ledger/mod.rs: what `append` promises its callers and the live subscribers.
use oh_myserial.Common.{ℕ, ◌≡◌, refl, ap, [], ◌∷◌, ◌++◌, Option, none, some, Result, ok, err, arith}
use oh_myserial.Ledger.Schema.{EventPayload, EventEnvelope, Externals, new_event, validate}
use oh_myserial.Ledger.State.{EventStore, Ledger, Moment, LedgerError, recorded_event}
use oh_myserial.Ledger.Operations.{next_event, publish, assign, record_valid, append}
use oh_myserial.Ledger.Invariant.{persist-SameButStore, refused, recorded, append-Appended}

-- The event that an append recorded, whether its durable write succeeded or not.
abbrev pub recorded_by : Result EventEnvelope LedgerError → Option EventEnvelope
recorded_by (ok e) = some e
recorded_by (err e) = recorded_event e

module _ (x : Externals) (es : EventStore) where
  open es use {Store}

  pub record Recorded (l l' : Ledger Store) (epoch : ℕ) (payload : EventPayload) (e : EventEnvelope)
      : Type 0 where
    pub numbered : e.seq ≡ l.next_seq
    pub newest : l'.newest_seq ≡ e.seq
    pub sent : l'.live ≡ l.live ++ e ∷ []
    pub same_payload : e.event ≡ payload
    pub same_epoch : e.connection_epoch ≡ epoch
    pub same_session : e.session_id ≡ l.session_id
    pub valid : validate x e ≡ ok tt

  abbrev pub Evidence :
      Ledger Store → Ledger Store → ℕ → EventPayload → Option EventEnvelope → Type 0
  Evidence l l' epoch payload none = l' ≡ l
  Evidence l l' epoch payload (some e) = Recorded l l' epoch payload e

  recorded_by-record_valid :
      (l : Ledger Store) (e : EventEnvelope) → recorded_by (record_valid x es l e).1 ≡ some e
  unfolding record_valid
  recorded_by-record_valid l e = ground arith

  record_valid-Recorded :
      (l : Ledger Store) (epoch : ℕ) (payload : EventPayload) (t : Moment)
      → validate x (next_event x es l epoch payload t) ≡ ok tt
      → Recorded l
          (record_valid x es l (next_event x es l epoch payload t)).0
          epoch
          payload
          (next_event x es l epoch payload t)
  unfolding next_event new_event record_valid publish assign
  record_valid-Recorded l epoch payload t h =
      let same = persist-SameButStore x es (assign x es l) (next_event x es l epoch payload t) in
      record {
        numbered = refl;
        newest = same.same_newest;
        sent = ap (λ z. z ++ next_event x es l epoch payload t ∷ []) same.same_live;
        same_payload = refl;
        same_epoch = refl;
        same_session = refl;
        valid = h;
      }

  -- An append either leaves the ledger as it was and records nothing, or records one valid event
  -- with the next number and sends it to the subscribers, also when the durable write fails.
  pub append-Evidence :
      (l : Ledger Store) (epoch : ℕ) (payload : EventPayload) (t : Moment)
      → Evidence l
          (append x es l epoch payload t).0
          epoch
          payload
          (recorded_by (append x es l epoch payload t).1)
  append-Evidence l epoch payload t = elim (append-Appended x es l epoch payload t) [
    | refused e n r ↦ rw r (rw n refl)
    | recorded still more valid r ↦ rw r (
        rw (recorded_by-record_valid l (next_event x es l epoch payload t))
          (record_valid-Recorded l epoch payload t valid))
  ]
