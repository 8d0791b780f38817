-- ===== src/Replay/Playing.antt =====
-- src/replay/mod.rs: `play` and `step` emit the events of the session, each once and in order.
use oh_myserial.Common.{
  ℕ, zero, suc, ◌+◌, ◌≤◌, ◌<◌, ◌≡◌, ◌∙◌, refl, ap, sym, Bool, true, false, List, [], ◌∷◌, ◌++◌,
  Option, none, some, String, Result, ok, err, is_ok, arith, length, get_elem?, drop,
}
use mathlib.Core.List.{append_assoc, append-nil}
use oh_myserial.Ledger.Schema.{Externals, EventEnvelope}
use oh_myserial.Replay.{
  ReplayError, ReplaySession, ReplayCursor, ReplayOptions, Speeds, is_manual, delay_before_next,
  delay_between, next_event, emit_next, play_loop, played, unless_zero, report, play, cursor,
  from_validated_events, validate_options,
}
use oh_myserial.Replay.Capture.{
  IsChained, IsCapture, from_validated_events-ok_iff, from_validated_events-holds,
}

-- The events at two neighbouring indices.
abbrev NextAreOrdered : Option EventEnvelope → Option EventEnvelope → Type 0
NextAreOrdered none e = ⊥
NextAreOrdered (some p) none = ⊥
NextAreOrdered (some p) (some e) = p.mono_us ≤ e.mono_us

neighbours :
    (previous : EventEnvelope) (rest : List EventEnvelope) (i : ℕ)
    → IsChained previous rest
    → i < length rest
    → NextAreOrdered (get_elem? (previous ∷ rest) i) (get_elem? rest i)
neighbours previous [] i c h = absurd (omega arith)
neighbours previous (e ∷ rest) zero c h = c.2
neighbours previous (e ∷ rest) (suc i) c h = neighbours e rest i c.3 (omega arith)

get_elem?-drop {ℓ} :
    {A : Type ℓ} (xs : List A) (i : ℕ)
    → i < length xs
    → (a : A) × (get_elem? xs i ≡ some a) × (drop i xs ≡ a ∷ drop (suc i) xs)
get_elem?-drop [] i h = absurd (omega arith)
get_elem?-drop (a ∷ xs) zero h = (a, refl, refl)
get_elem?-drop (a ∷ xs) (suc i) h = get_elem?-drop xs i (omega arith)

drop-all {ℓ} : {A : Type ℓ} (xs : List A) → drop (length xs) xs ≡ []
drop-all [] = refl
drop-all (a ∷ xs) = drop-all xs

abbrev has_delay : Result (Option ℕ) ReplayError → Bool
has_delay (ok (some delay)) = true
has_delay (ok none) = false
has_delay (err error) = false

module _ (sp : Speeds) where
  delay_between-ordered :
      (speed : sp.Speed) (p e : Option EventEnvelope)
      → NextAreOrdered p e
      → has_delay (delay_between sp speed p e) ≡ true
  unfolding delay_between
  delay_between-ordered speed none e h = absurd h
  delay_between-ordered speed (some p) none h = absurd h
  delay_between-ordered speed (some p) (some e) h = ground arith

  emitted-has_delay :
      (c : ReplayCursor sp) (e : EventEnvelope) (delay : Result (Option ℕ) ReplayError)
      (here : Option EventEnvelope)
      → has_delay delay ≡ true
      → here ≡ some e
      → emit_next sp c delay here ≡ ok (some (e, record c { next_index = suc c.next_index }))
  unfolding emit_next
  emitted-has_delay c e delay here h found = ground arith

  module _ (first : EventEnvelope) (rest : List EventEnvelope) (o : ReplayOptions sp) where
    abbrev at : ℕ → ReplayCursor sp
    at i = record { events = first ∷ rest; options = o; next_index = i }

    delay_at :
        (i : ℕ)
        → is_manual o.mode ≡ false
        → IsChained first rest
        → i < length (first ∷ rest)
        → has_delay (delay_before_next sp (at i)) ≡ true
    unfolding delay_before_next
    delay_at zero auto c h = ground arith
    delay_at (suc i) auto c h = ground (
      arith,
      delay_between-ordered o.speed (get_elem? (first ∷ rest) i) (get_elem? rest i),
      neighbours first rest i c,
    )

    next_at :
        (i : ℕ)
        → is_manual o.mode ≡ false
        → IsChained first rest
        → i < length (first ∷ rest)
        → (e : EventEnvelope) × (next_event sp (at i) ≡ ok (some (e, at (suc i))))
          × (drop i (first ∷ rest) ≡ e ∷ drop (suc i) (first ∷ rest))
    unfolding next_event emit_next
    next_at i auto c h =
        let (e, here, behind) = get_elem?-drop (first ∷ rest) i h in
        (e, emitted-has_delay (at i) e _ _ (delay_at i auto c h) here, behind)

    next_at-end : is_manual o.mode ≡ false → next_event sp (at (length (first ∷ rest))) ≡ ok none
    unfolding next_event delay_before_next
    next_at-end auto = ground arith

    play_step :
        (fuel i : ℕ) (e : EventEnvelope) (seen : List EventEnvelope)
        → next_event sp (at i) ≡ ok (some (e, at (suc i)))
        → play_loop sp (suc fuel) (at i) seen ≡ play_loop sp fuel (at (suc i)) (seen ++ (e ∷ []))
    unfolding play_loop
    play_step fuel i e seen h = ground arith

    play_stop :
        (fuel i : ℕ) (seen : List EventEnvelope)
        → next_event sp (at i) ≡ ok none
        → play_loop sp (suc fuel) (at i) seen ≡ some (seen, ok tt)
    unfolding play_loop
    play_stop fuel i seen h = ground arith

    play_rest :
        (fuel n i : ℕ) (seen : List EventEnvelope)
        → is_manual o.mode ≡ false
        → IsChained first rest
        → i + n ≡ length (first ∷ rest)
        → n < fuel
        → play_loop sp fuel (at i) seen ≡ some (seen ++ drop i (first ∷ rest), ok tt)
    play_rest zero n i seen auto c at_end enough = absurd (omega arith)
    play_rest (suc fuel) zero i seen auto c at_end enough =
        let stop : i ≡ length (first ∷ rest) = omega arith in
        rw stop (
          rw (drop-all (first ∷ rest), append-nil seen)
            (play_stop fuel (length (first ∷ rest)) seen (next_at-end auto)))
    play_rest (suc fuel) (suc n) i seen auto c at_end enough =
        let (e, emits, behind) = next_at i auto c (omega arith) in
        play_step fuel i e seen emits
        ∙ (play_rest fuel n (suc i) (seen ++ (e ∷ [])) auto c (omega arith) (omega arith)
            ∙ ap (λ z. some (z, ok tt))
                (append_assoc seen (e ∷ []) (drop (suc i) (first ∷ rest))
                  ∙ ap (λ z. seen ++ z) (sym behind)))

  -- A session of a capture is played to its end.
  play_capture :
      (x : Externals) (fuel : ℕ) (s : ReplaySession) (events : List EventEnvelope)
      (o : ReplayOptions sp)
      → IsCapture x events
      → s.events ≡ events
      → is_manual o.mode ≡ false
      → sp.is_accepted o.speed ≡ true
      → length events < fuel
      → play sp fuel s o
        ≡ some (
          events,
          ok (record {
            emitted = length events;
            first_seq = some s.first_seq;
            last_seq = some s.last_seq;
          }),
        )
  unfolding play played cursor validate_options report unless_zero
  play_capture x fuel s [] o capture holds auto accepted enough = absurd capture
  play_capture x fuel s (first ∷ rest) o capture holds auto accepted enough = ground (
    arith,
    play_rest first rest o fuel (length (first ∷ rest)) 0 [] auto capture.2 (omega arith) enough,
  )

  -- A session made of a list of events is played to its end, in a mode other than manual and at an
  -- accepted speed: the loop returns once it may run one round more than there are events, each event
  -- was emitted once and in order, and the report counts them and names the first and last number.
  pub play-from_validated_events :
      (x : Externals) (fuel : ℕ) (events : List EventEnvelope) (source : Option String)
      (s : ReplaySession) (o : ReplayOptions sp)
      → from_validated_events x events source ≡ ok s
      → is_manual o.mode ≡ false
      → sp.is_accepted o.speed ≡ true
      → length events < fuel
      → play sp fuel s o
        ≡ some (
          events,
          ok (record {
            emitted = length events;
            first_seq = some s.first_seq;
            last_seq = some s.last_seq;
          }),
        )
  play-from_validated_events x fuel events source s o made auto accepted enough =
      play_capture x fuel s events o
        ((from_validated_events-ok_iff x events source).0 (ap is_ok made))
        (from_validated_events-holds x events source s made).0 auto accepted enough
