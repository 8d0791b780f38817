-- ===== src/Broker/Evidence.antt =====
-- src/broker.rs: what the recording of an event leaves alone.
use oh_myserial.Common.{
  ℕ, ◌≡◌, refl, Bool, true, false, Result, ok, err, if◌then◌else◌, ap, subst, sym, ◌∙◌,
}
use oh_myserial.Ledger.Schema.{Externals, EventPayload, EventEnvelope}
use oh_myserial.Ledger.State.{EventStore, Ledger, LedgerError, persistence_degraded, Moment}
use oh_myserial.Ledger.Operations.{append}
use oh_myserial.Ledger.Invariant.{IsValid, append-IsValid}
use oh_myserial.Broker.State.{Broker}
use oh_myserial.Broker.Events.{
  persistence_gap, first_degraded, after_append, record_event, log_event,
}

-- The broker with another ledger and another report flag.
abbrev pub with_evidence : {S : Type 0} → Broker S → Ledger S → Bool → Broker S
with_evidence b ledger reported = record b { ledger = ledger; persistence_gap_reported = reported }

-- The second broker is the first with a ledger that is valid if the first's was.
pub record Logged {S : Type 0} (b b' : Broker S) : Type 0 where
  pub ledger : Ledger S
  pub reported : Bool
  pub same : b' ≡ with_evidence b ledger reported
  pub ledger_ok : IsValid b.ledger → IsValid ledger

module _ (x : Externals) (es : EventStore) where
  open es use {Store}

  unchanged : (b : Broker Store) → Logged b b
  unchanged b = record {
    ledger = b.ledger;
    reported = b.persistence_gap_reported;
    same = refl;
    ledger_ok = λ v. v;
  }

  either-Logged :
      (told : Bool) (b b1 b2 : Broker Store)
      → Logged b b1
      → Logged b b2
      → Logged b (if told then b1 else b2)
  either-Logged true b b1 b2 p q = p
  either-Logged false b b1 b2 p q = q

  first_degraded-Logged :
      (b : Broker Store) (epoch : ℕ) (payload : EventPayload) (t : Moment)
      → Logged b (first_degraded x es b epoch payload t)
  unfolding first_degraded
  first_degraded-Logged b epoch payload t =
      either-Logged b.persistence_gap_reported b b _ (unchanged b) (record {
        ledger = (append x es b.ledger epoch payload t).0;
        reported = true;
        same = refl;
        ledger_ok = λ v. append-IsValid x es b.ledger epoch payload t v;
      })

  pub Logged-trans : (a b c : Broker Store) → Logged a b → Logged b c → Logged a c
  Logged-trans a b c p q = record {
    ledger = q.ledger;
    reported = q.reported;
    same = q.same ∙ ap (λ z. with_evidence z q.ledger q.reported) p.same;
    ledger_ok = λ v. q.ledger_ok (subst (λ z. IsValid z.ledger) (sym p.same) (p.ledger_ok v));
  }

  after_append-Logged :
      (b : Broker Store) (epoch : ℕ) (t : Moment) (r : Result EventEnvelope LedgerError)
      → Logged b (after_append x es b epoch t r)
  unfolding after_append first_degraded
  after_append-Logged b epoch t (ok e) = unchanged b
  after_append-Logged b epoch t (err (persistence_degraded e detail)) =
      first_degraded-Logged b epoch (persistence_gap x es e detail) t
  after_append-Logged b epoch t (err e) = unchanged b

  -- Recording an event changes the ledger and the report flag only, and keeps the ledger valid.
  pub log_event-Logged :
      (b : Broker Store) (epoch : ℕ) (payload : EventPayload) (t : Moment)
      → Logged b (log_event x es b epoch payload t)
  unfolding record_event
  log_event-Logged b epoch payload t =
      Logged-trans b appended _
        (record {
          ledger = appended.ledger;
          reported = b.persistence_gap_reported;
          same = refl;
          ledger_ok = λ v. append-IsValid x es b.ledger epoch payload t v;
        })
        (after_append-Logged appended epoch t (append x es b.ledger epoch payload t).1)
    where
      appended : Broker Store
      appended = record b { ledger = (append x es b.ledger epoch payload t).0 }
