-- ===== src/Ledger/Recovering.antt =====
-- src/ledger/store.rs: a segment that a crash tore off in the middle of a line is recovered.
use oh_myserial.Common.{
  ℕ, ◌+◌, ◌≡◌, ◌∙◌, refl, sym, ap, subst, Bool, true, false, List, [], ◌∷◌, ◌++◌, Option, none,
  some, String, ok, arith, eq_iff, ◌==◌, All, length, length-append, saturating_add,
}
use mathlib.Core.List.{append_assoc, append-nil}
use oh_myserial.Ledger.Schema.{Externals, EventEnvelope, validate}
use oh_myserial.Ledger.Store.{
  Codec, DiskRecord, Header, Footer, header, event, footer, segment_schema, segment_version,
}
use oh_myserial.Ledger.Verify.{
  VerifiedSegment, lines_from, first_seq_of, last_seq_of, verify_segment_file,
}
use oh_myserial.Ledger.Lines.{line_of, bytes_of, from_json-line, lines_from-record}
use oh_myserial.Ledger.Segments.{
  AreNumbered, IsHeader, IsFooter, segment_bytes, verified, verify_segment_file-ok,
  text_opt_eq_refl,
}
use oh_myserial.Ledger.Recovery.{
  Scan, go_on, stop, recover_line, recover_lines, first_scan, rebuilt, stop_reason, recovered,
  recover_open_segment, fits, keep_line, stop_at, RecoveryFiles,
}

-- Bytes without a newline.
abbrev pub IsTorn : List ℕ → Type 0
IsTorn = All (λ b. (b == 10) ≡ false)

abbrev pub all_work : RecoveryFiles
all_work = record { moved = true; target_exists = false; written = true }

lines_from-torn : (line torn : List ℕ) → IsTorn torn → lines_from line torn ≡ []
unfolding lines_from
lines_from-torn line [] h = refl
lines_from-torn line (b ∷ torn) h = ground (arith, h.0, lines_from-torn (line ++ b ∷ []) torn h.1)

module _ (x : Externals) (k : Codec) (session_id : String) (index : ℕ)
    (previous : Option String) where
  event_lines : List EventEnvelope → List (List ℕ)
  event_lines [] = []
  event_lines (e ∷ events) = line_of k (event e) ∷ event_lines events

  lines_from-event_lines :
      (events : List EventEnvelope) (torn : List ℕ)
      → IsTorn torn
      → lines_from [] (bytes_of k events ++ torn) ≡ event_lines events
  unfolding event_lines
  lines_from-event_lines [] torn h = lines_from-torn [] torn h
  lines_from-event_lines (e ∷ events) torn h =
      ap (lines_from []) (append_assoc (line_of k (event e)) (bytes_of k events) torn)
      ∙ (lines_from-record k (event e) (bytes_of k events ++ torn)
          ∙ ap (λ z. line_of k (event e) ∷ z) (lines_from-event_lines events torn h))

  -- The variables behind the line of an event.
  abbrev kept : Scan → EventEnvelope → Scan
  kept s e = record s {
    has_valid = true;
    valid = s.valid ++ line_of k (event e);
    parsed_bytes = s.parsed_bytes + length (line_of k (event e));
    events = s.events ++ e ∷ [];
    expected_seq = saturating_add s.expected_seq 1;
  }

  recover_line-event :
      (s : Scan) (e : EventEnvelope)
      → s.has_valid ≡ true
      → s.saw_footer ≡ false
      → validate x e ≡ ok tt
      → e.session_id ≡ session_id
      → e.seq ≡ s.expected_seq
      → recover_line x k session_id index previous s false (line_of k (event e)) (some (event e))
        ≡ go_on (kept s e)
  unfolding recover_line keep_line
  recover_line-event s e started unsealed valid same at =
      ground (arith, started, unsealed, valid, eq_iff e.session_id session_id, same, at)

  recover_step :
      (s behind : Scan) (is_first : Bool) (r : DiskRecord) (lines : List (List ℕ))
      → recover_line x k session_id index previous s is_first (line_of k r) (some r) ≡ go_on behind
      → recover_lines x k session_id index previous s is_first (line_of k r ∷ lines)
        ≡ recover_lines x k session_id index previous behind false lines
  unfolding recover_lines
  recover_step s behind is_first r lines goes =
      ap
        (λ z. elim z [
          | go_on after ↦ recover_lines x k session_id index previous after false lines
          | stop after ↦ after
        ])
        (ap (recover_line x k session_id index previous s is_first (line_of k r))
            (from_json-line k r)
          ∙ goes)

  -- The variables behind the lines of events.
  record IsBehind (s d : Scan) (events : List EventEnvelope) : Type 0 where
    has_valid : d.has_valid ≡ true
    valid : d.valid ≡ s.valid ++ bytes_of k events
    all : d.events ≡ s.events ++ events
    parsed : d.parsed_bytes ≡ s.parsed_bytes + length (bytes_of k events)
    saw_footer : d.saw_footer ≡ s.saw_footer
    stopped : d.stopped ≡ s.stopped

  recover_events :
      (s : Scan) (events : List EventEnvelope)
      → s.has_valid ≡ true
      → s.saw_footer ≡ false
      → AreNumbered x session_id s.expected_seq events
      → IsBehind s (recover_lines x k session_id index previous s false (event_lines events)) events
  unfolding event_lines recover_lines
  recover_events s [] started unsealed good = record {
    has_valid = started;
    valid = sym (append-nil s.valid);
    all = sym (append-nil s.events);
    parsed = omega arith;
    saw_footer = refl;
    stopped = refl;
  }
  recover_events s (e ∷ events) started unsealed good =
      let rest =
        recover_events (kept s e) events refl unsealed
          (subst (λ z. AreNumbered x session_id z events) (omega (arith, good.3)) good.4) in
      subst (λ z. IsBehind s z (e ∷ events))
        (sym (
          recover_step s (kept s e) false (event e) (event_lines events)
            (recover_line-event s e started unsealed good.0 good.1 good.2)))
        (record {
          has_valid = rest.has_valid;
          valid = rest.valid ∙ append_assoc s.valid (line_of k (event e)) (bytes_of k events);
          all = rest.all ∙ append_assoc s.events (e ∷ []) events;
          parsed =
              omega (arith, rest.parsed, length-append (line_of k (event e)) (bytes_of k events));
          saw_footer = rest.saw_footer;
          stopped = rest.stopped;
        })

  -- The footer that is written behind the lines that were found.
  abbrev foot : List EventEnvelope → List ℕ → Footer
  foot events content = record {
    schema = segment_schema;
    version = segment_version;
    session_id = session_id;
    segment_index = index;
    event_count = length events;
    first_seq = first_seq_of events;
    last_seq = last_seq_of events;
    content_sha256 = k.sha256 content;
    previous_segment_sha256 = previous;
  }

  -- The header belongs to the session and its chain.
  pub record IsOwn (h : Header) : Type 0 where
    pub header_ok : IsHeader x k h
    pub of_session : h.session_id ≡ session_id
    pub at : h.segment_index ≡ index
    pub linked : h.previous_segment_sha256 ≡ previous

  abbrev pub content : Header → List EventEnvelope → List ℕ
  content h events = line_of k (header h) ++ bytes_of k events

  foot_IsFooter :
      (h : Header) (events : List EventEnvelope)
      → IsOwn h
      → IsFooter x k h events (foot events (content h events))
  foot_IsFooter h events o = record {
    schema = refl;
    version = refl;
    session = sym o.of_session;
    index = sym o.at;
    count = refl;
    first = refl;
    last = refl;
    content = refl;
    previous = sym o.linked;
  }

  fits-ok : (h : Header) → IsOwn h → fits x k session_id index previous h ≡ true
  unfolding fits
  fits-ok h o = ground (
    arith,
    o.header_ok.schema,
    o.header_ok.version,
    o.of_session,
    o.at,
    eq_iff h.schema segment_schema,
    eq_iff h.session_id session_id,
    text_opt_eq_refl x k h.previous_segment_sha256 previous o.linked,
  )

  abbrev begun : ℕ → Header → Scan
  begun from h = record {
    has_valid = true;
    valid = line_of k (header h);
    events = [];
    expected_seq = from;
    parsed_bytes = length (line_of k (header h));
    saw_footer = false;
    stopped = none;
  }

  recover_line-header :
      (from : ℕ) (h : Header)
      → IsOwn h
      → recover_line x k session_id index previous
          (first_scan from)
          true
          (line_of k (header h))
          (some (header h))
        ≡ go_on (begun from h)
  unfolding recover_line keep_line first_scan stop_at
  recover_line-header from h o = ground (arith, fits-ok h o)

  recover_content :
      (from : ℕ) (h : Header) (events : List EventEnvelope) (torn : List ℕ)
      → IsOwn h
      → AreNumbered x session_id from events
      → IsTorn torn
      → IsBehind
          (begun from h)
          (recover_lines x k session_id index previous
            (first_scan from)
            true
            (lines_from [] (content h events ++ torn)))
          events
  recover_content from h events torn o good none_whole =
      subst (λ z. IsBehind (begun from h) z events)
        (sym (
          ap (recover_lines x k session_id index previous (first_scan from) true) (
            ap (lines_from []) (append_assoc (line_of k (header h)) (bytes_of k events) torn)
            ∙ (lines_from-record k (header h) (bytes_of k events ++ torn)
                ∙ ap (λ z. line_of k (header h) ∷ z)
                    (lines_from-event_lines events torn none_whole)))
          ∙ recover_step (first_scan from) (begun from h) true (header h) (event_lines events)
              (recover_line-header from h o)))
        (recover_events (begun from h) events refl refl good)

  rebuilt-behind :
      (from : ℕ) (h : Header) (events : List EventEnvelope) (d : Scan)
      → IsBehind (begun from h) d events
      → rebuilt x k session_id index previous d
        ≡ segment_bytes x k h events (foot events (content h events))
  unfolding rebuilt
  rebuilt-behind from h events d b =
      ap (λ z. d.valid ++ line_of k (footer (foot z d.valid))) b.all
      ∙ ap (λ z. z ++ line_of k (footer (foot events z))) b.valid

  recovered-behind :
      (from : ℕ) (h : Header) (events : List EventEnvelope) (torn : List ℕ) (d : Scan)
      → IsBehind (begun from h) d events
      → recovered x k session_id index previous (content h events ++ torn) all_work d
        ≡ ok (record {
          recovered_segment = some (segment_bytes x k h events (foot events (content h events)));
          recovered_events = length events;
          discarded_tail_bytes = length torn;
          stopped_at_error = none;
        })
  unfolding recovered stop_reason
  recovered-behind from h events torn d b = ground (
    arith,
    b.has_valid,
    b.all,
    b.parsed,
    b.saw_footer,
    b.stopped,
    rebuilt-behind from h events d b,
    length-append (content h events) torn,
    length-append (line_of k (header h)) (bytes_of k events),
  )

  -- An open segment with its header and events, and behind them a line that a crash tore off, is
  -- recovered if the file operations succeed: every event is kept, exactly the torn bytes are
  -- discarded, no error is reported, and the sealed file passes its verification and gives back the events.
  -- The header belongs to the session and its chain, and the events are valid and numbered on from the expected number.
  pub recover_open_segment-torn :
      (from : ℕ) (h : Header) (events : List EventEnvelope) (torn : List ℕ)
      → IsOwn h
      → AreNumbered x session_id from events
      → IsTorn torn
      → (file : List ℕ) × (read : VerifiedSegment) × (recover_open_segment x k session_id index
            previous
            (content h events ++ torn)
            from
            all_work
          ≡ ok (record {
            recovered_segment = some file;
            recovered_events = length events;
            discarded_tail_bytes = length torn;
            stopped_at_error = none;
          }))
        × (verify_segment_file x k file ≡ ok read)
        × (read.events ≡ events)
  unfolding recover_open_segment
  recover_open_segment-torn from h events torn o good none_whole =
      let f = foot events (content h events) in
      (
        segment_bytes x k h events f,
        verified x k h events f,
        recovered-behind from h events torn _
            (recover_content from h events torn o good none_whole),
        verify_segment_file-ok x k h events f from o.header_ok (foot_IsFooter h events o)
            (subst (λ z. AreNumbered x z from events) (sym o.of_session) good),
        refl,
      )
