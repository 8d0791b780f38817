-- ===== src/Replay.antt =====
-- src/replay/mod.rs: captures, validated as a whole, and the cursors that emit their events. A speed
-- is an f64: its test and the division of a duration by it are the fields of `Speeds`. The clock is
-- left out: a delay is what `sleep_in_safe_chunks` sleeps, and a report has no `elapsed`.
use oh_myserial.Common.{
  ℕ, zero, suc, ◌+◌, ◌-◌, ◌*◌, ◌≡◌, refl, Bool, true, false, not, ◌||◌, List, [], ◌∷◌, ◌++◌, Option,
  none, some, String, Result, ok, err, ◌>>=◌, ◌>>◌, guard, min, leb, ◌==◌, str_eq, if◌then◌else◌,
  length, get_elem?, take, drop, u64_max, saturating_add,
}
use oh_myserial.Ledger.Schema.{Externals, EventEnvelope, SchemaError, validate}
pub mod Capture
pub mod Playing
pub mod Stepping

pub data ReplayMode : Type 0 where
  immediate original manual : ReplayMode

pub data ReplayError : Type 0 where
  read_error : String → String → ReplayError
  empty_session : ReplayError
  schema : SchemaError → ReplayError
  mixed_sessions : String → String → ℕ → ReplayError
  sequence_discontinuity : ℕ → ℕ → ReplayError
  sequence_overflow : ℕ → ReplayError
  monotonic_clock_regression : ℕ → ℕ → ℕ → ℕ → ReplayError
  invalid_speed : ReplayError
  invalid_mode : String → ReplayError
  manual_play_requires_step manual_step_required step_requires_manual_mode : ReplayError
  -- A panic: an index is out of range.
  index_out_of_bounds : ReplayError

-- `ReplayMode::from_str`.
unfoldable pub parse_mode : String → Result ReplayMode ReplayError
parse_mode value =
    if str_eq value "immediate"
    then ok immediate
    else if str_eq value "original"
    then ok original
    else if str_eq value "manual"
    then ok manual
    else err (invalid_mode value)

-- `fmt::Display for ReplayMode`.
unfoldable pub show_mode : ReplayMode → String
show_mode immediate = "immediate"
show_mode original = "original"
show_mode manual = "manual"

abbrev pub is_manual : ReplayMode → Bool
is_manual immediate = false
is_manual original = false
is_manual manual = true

abbrev pub is_immediate : ReplayMode → Bool
is_immediate immediate = true
is_immediate original = false
is_immediate manual = false

-- What the code uses of f64: whether a speed is finite and within MIN_REPLAY_SPEED and
-- MAX_REPLAY_SPEED, `Duration::div_f64`, and 1.0, which is such a speed.
pub record Speeds : Type 1 where
  pub Speed : Type 0
  pub is_accepted : Speed → Bool
  pub div_f64 : ℕ → Speed → ℕ
  pub one : Speed
  pub is_accepted-one : is_accepted one ≡ true

pub record ReplaySession : Type 0 where
  pub source : Option String
  pub session_id : String
  pub first_seq : ℕ
  pub last_seq : ℕ
  pub events : List EventEnvelope

pub record ReplayReport : Type 0 where
  pub emitted : ℕ
  pub first_seq : Option ℕ
  pub last_seq : Option ℕ

module _ (x : Externals) where
  -- `event.validate()?`.
  unfoldable pub validated : EventEnvelope → Result (Unit {0}) ReplayError
  validated e = elim (validate x e) [ ok u ↦ ok tt | err error ↦ err (schema error) ]

  -- One round of the loop of `from_validated_events`: `e` behind `previous`.
  unfoldable pub check_next : String → EventEnvelope → EventEnvelope → Result (Unit {0}) ReplayError
  check_next session_id previous e = do
    validated e
    guard (str_eq e.session_id session_id) (mixed_sessions session_id e.session_id e.seq)
    guard (not (leb u64_max previous.seq)) (sequence_overflow previous.seq)
    guard (e.seq == suc previous.seq) (sequence_discontinuity (suc previous.seq) e.seq)
    guard (leb previous.mono_us e.mono_us)
        (monotonic_clock_regression previous.seq previous.mono_us e.seq e.mono_us)

  -- The loop, which gives the last sequence number.
  unfoldable pub check_rest : String → EventEnvelope → List EventEnvelope → Result ℕ ReplayError
  check_rest session_id previous [] = ok previous.seq
  check_rest session_id previous (e ∷ rest) = elim (check_next session_id previous e) [
    | ok u ↦ check_rest session_id e rest
    | err error ↦ err error
  ]

  unfoldable pub from_validated_events :
      List EventEnvelope → Option String → Result ReplaySession ReplayError
  from_validated_events [] source = err empty_session
  from_validated_events (first ∷ rest) source = do
    validated first
    last_seq ← check_rest first.session_id first rest
    ok (record {
      source = source;
      session_id = first.session_id;
      first_seq = first.seq;
      last_seq = last_seq;
      events = first ∷ rest;
    })

  unfoldable pub from_envelopes : List EventEnvelope → Result ReplaySession ReplayError
  from_envelopes events = from_validated_events events none

  -- `ReplaySession::load`, on what `read_verified` answered.
  unfoldable pub load :
      String → Result (List EventEnvelope) String → Result ReplaySession ReplayError
  load path (err detail) = err (read_error path detail)
  load path (ok events) = from_validated_events events (some path)

module _ (sp : Speeds) where
  open sp use {Speed, is_accepted, div_f64, one}

  pub record ReplayOptions : Type 0 where
    pub mode : ReplayMode
    pub speed : Speed

  pub record ReplayCursor : Type 0 where
    pub events : List EventEnvelope
    pub options : ReplayOptions
    pub next_index : ℕ

  abbrev pub default_options : ReplayOptions
  default_options = record { mode = immediate; speed = one }

  unfoldable pub validate_options : ReplayOptions → Result ReplayOptions ReplayError
  validate_options o = do guard (is_accepted o.speed) invalid_speed; ok o

  unfoldable pub cursor : ReplaySession → ReplayOptions → Result ReplayCursor ReplayError
  unfolding validate_options
  cursor s options = do
    o ← validate_options options
    ok (record { events = s.events; options = o; next_index = 0 })

  unfoldable pub manual_cursor : ReplaySession → ReplayCursor
  manual_cursor s = record {
    events = s.events;
    options = record { mode = manual; speed = one };
    next_index = 0;
  }

  abbrev pub remaining : ReplayCursor → ℕ
  remaining c = length c.events - c.next_index

  abbrev pub is_finished : ReplayCursor → Bool
  is_finished c = c.next_index == length c.events

  -- The end of `delay_before_next`; a duration is in nanoseconds.
  unfoldable pub delay_between :
      Speed → Option EventEnvelope → Option EventEnvelope → Result (Option ℕ) ReplayError
  delay_between speed none next = err index_out_of_bounds
  delay_between speed (some previous) none = err index_out_of_bounds
  delay_between speed (some previous) (some next) =
      if leb previous.mono_us next.mono_us
      then ok (some (div_f64 ((next.mono_us - previous.mono_us) * 1000) speed))
      else err (monotonic_clock_regression previous.seq previous.mono_us next.seq next.mono_us)

  unfoldable pub delay_before_next : ReplayCursor → Result (Option ℕ) ReplayError
  unfolding delay_between
  delay_before_next c =
      if is_manual c.options.mode
      then err manual_step_required
      else if is_finished c
      then ok none
      else if is_immediate c.options.mode || (c.next_index == 0)
      then ok (some 0)
      else delay_between c.options.speed (get_elem? c.events (c.next_index - 1))
          (get_elem? c.events c.next_index)

  -- `next_event` from its delay, with the event at the index.
  unfoldable pub emit_next :
      ReplayCursor
      → Result (Option ℕ) ReplayError
      → Option EventEnvelope
      → Result (Option (EventEnvelope × ReplayCursor)) ReplayError
  emit_next c (err error) here = err error
  emit_next c (ok none) here = ok none
  emit_next c (ok (some delay)) none = err index_out_of_bounds
  emit_next c (ok (some delay)) (some e) = ok (some (e, record c { next_index = suc c.next_index }))

  unfoldable pub next_event :
      ReplayCursor → Result (Option (EventEnvelope × ReplayCursor)) ReplayError
  unfolding delay_before_next emit_next
  next_event c = emit_next c (delay_before_next c) (get_elem? c.events c.next_index)

  -- `ReplayCursor::step`: the events and the cursor behind them.
  unfoldable pub step : ReplayCursor → ℕ → Result (List EventEnvelope × ReplayCursor) ReplayError
  step c count = do
    guard (is_manual c.options.mode) step_requires_manual_mode
    let end = min (saturating_add c.next_index count) (length c.events)
    ok (take (end - c.next_index) (drop c.next_index c.events), record c { next_index = end })

  -- The loop of `play`: what it emitted and how it ended. `none` is a loop that still runs.
  unfoldable pub play_loop :
      ℕ
      → ReplayCursor
      → List EventEnvelope
      → Option (List EventEnvelope × Result (Unit {0}) ReplayError)
  unfolding next_event
  play_loop zero c emitted = none
  play_loop (suc fuel) c emitted = elim (next_event c) [
    | err error ↦ some (emitted, err error)
    | ok none ↦ some (emitted, ok tt)
    | ok (some (e, behind)) ↦ play_loop fuel behind (emitted ++ (e ∷ []))
  ]

  -- `(emitted != 0).then_some(seq)`.
  unless_zero : ℕ → ℕ → Option ℕ
  unless_zero zero seq = none
  unless_zero (suc n) seq = some seq

  unfoldable pub report : ReplaySession → ℕ → ReplayReport
  unfolding unless_zero
  report s emitted = record {
    emitted = emitted;
    first_seq = unless_zero emitted s.first_seq;
    last_seq = unless_zero emitted s.last_seq;
  }

  played :
      ReplaySession
      → Option (List EventEnvelope × Result (Unit {0}) ReplayError)
      → Option (List EventEnvelope × Result ReplayReport ReplayError)
  unfolding report
  played s none = none
  played s (some (emitted, err error)) = some (emitted, err error)
  played s (some (emitted, ok u)) = some (emitted, ok (report s (length emitted)))

  -- `ReplaySession::play` with a callback that records the events it is given.
  unfoldable pub play :
      ℕ
      → ReplaySession
      → ReplayOptions
      → Option (List EventEnvelope × Result ReplayReport ReplayError)
  unfolding play_loop played cursor
  play fuel s options =
      if is_manual options.mode
      then some ([], err manual_play_requires_step)
      else elim (cursor s options) [
        | err error ↦ some ([], err error)
        | ok c ↦ played s (play_loop fuel c [])
      ]
