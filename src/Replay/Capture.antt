-- ===== src/Replay/Capture.antt =====
-- src/replay/mod.rs: which captures `from_validated_events` accepts, and what the session then holds.
use oh_myserial.Common.{
  suc, ◌+◌, ◌≤◌, ◌<◌, ◌≡◌, ◌↔◌, true, List, [], ◌∷◌, Option, String, ok, is_ok, OnOk, arith, eq_iff,
  length, All, u64_max,
}
use oh_myserial.Ledger.Schema.{Externals, EventEnvelope, validate}
use oh_myserial.Replay.{ReplaySession, validated, check_next, check_rest, from_validated_events}

-- Each event has the number behind the one before it, and the clock does not go back.
abbrev pub IsChained : EventEnvelope → List EventEnvelope → Type 0
IsChained previous [] = Unit
IsChained previous (e ∷ rest) =
    (e.seq ≡ suc previous.seq)
    × (e.seq ≤ u64_max)
    × (previous.mono_us ≤ e.mono_us)
    × IsChained e rest

-- The description of a capture: it is not empty, its events are valid and of one session, their
-- numbers are consecutive and their clock is monotone.
abbrev pub IsCapture : Externals → List EventEnvelope → Type 0
IsCapture x [] = ⊥
IsCapture x (first ∷ rest) =
    All (λ e. validate x e ≡ ok tt) (first ∷ rest)
    × All (λ e. e.session_id ≡ first.session_id) rest
    × IsChained first rest

module _ (x : Externals) where
  validated_iff : (e : EventEnvelope) → (validated x e ≡ ok tt) ↔ (validate x e ≡ ok tt)
  unfolding validated
  validated_iff e = ground arith

  abbrev Follows : String → EventEnvelope → EventEnvelope → Type 0
  Follows session_id previous e =
      (validate x e ≡ ok tt)
      × (e.session_id ≡ session_id)
      × (e.seq ≡ suc previous.seq)
      × (e.seq ≤ u64_max)
      × (previous.mono_us ≤ e.mono_us)

  check_next_iff :
      (session_id : String) (previous e : EventEnvelope)
      → (check_next x session_id previous e ≡ ok tt) ↔ Follows session_id previous e
  unfolding check_next
  check_next_iff session_id previous e =
      ground (arith, validated_iff e, eq_iff e.session_id session_id)

  abbrev AllFollow : String → EventEnvelope → List EventEnvelope → Type 0
  AllFollow session_id previous [] = Unit
  AllFollow session_id previous (e ∷ rest) =
      Follows session_id previous e × AllFollow session_id e rest

  AllFollow-iff :
      (session_id : String) (previous : EventEnvelope) (rest : List EventEnvelope)
      → AllFollow session_id previous rest ↔ (
          All (λ e. validate x e ≡ ok tt) rest
          × All (λ e. e.session_id ≡ session_id) rest
          × IsChained previous rest)
  AllFollow-iff session_id previous [] = ground arith
  AllFollow-iff session_id previous (e ∷ rest) = ground (arith, AllFollow-iff session_id e rest)

  check_rest_iff :
      (session_id : String) (previous : EventEnvelope) (rest : List EventEnvelope)
      → (is_ok (check_rest x session_id previous rest) ≡ true) ↔ AllFollow session_id previous rest
  unfolding check_rest
  check_rest_iff session_id previous [] = ground arith
  check_rest_iff session_id previous (e ∷ rest) =
      ground (arith, check_next_iff session_id previous e, check_rest_iff session_id e rest)

  -- A list of events is accepted exactly when it is a capture: it is not empty, every event is
  -- valid and of the session of the first, each number is the one behind the number before it and a
  -- u64, and the clock never goes back.
  pub from_validated_events-ok_iff :
      (events : List EventEnvelope) (source : Option String)
      → (is_ok (from_validated_events x events source) ≡ true) ↔ IsCapture x events
  unfolding from_validated_events
  from_validated_events-ok_iff [] source = ground arith
  from_validated_events-ok_iff (first ∷ rest) source = ground (
    arith,
    validated_iff first,
    check_rest_iff first.session_id first rest,
    AllFollow-iff first.session_id first rest,
  )

  check_rest-last :
      (session_id : String) (previous : EventEnvelope) (rest : List EventEnvelope)
      → OnOk (check_rest x session_id previous rest) (λ last. last ≡ previous.seq + length rest)
  unfolding check_rest
  check_rest-last session_id previous [] = ground arith
  check_rest-last session_id previous (e ∷ rest) =
      ground (arith, check_next_iff session_id previous e, check_rest-last session_id e rest)

  pub from_validated_events-holds :
      (events : List EventEnvelope) (source : Option String) (s : ReplaySession)
      → from_validated_events x events source ≡ ok s
      → (s.events ≡ events) × (0 < length events) × (s.first_seq + length events ≡ suc s.last_seq)
  unfolding from_validated_events
  from_validated_events-holds [] source s h = ground arith
  from_validated_events-holds (first ∷ rest) source s h =
      ground (arith, check_rest-last first.session_id first rest)
