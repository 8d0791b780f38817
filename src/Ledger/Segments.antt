-- ===== src/Ledger/Segments.antt =====
-- src/ledger/store.rs: a sealed segment passes its verification and gives back its events.
use oh_myserial.Common.{
  ℕ, suc, ◌<◌, ◌≡◌, ◌∙◌, refl, sym, ap, true, List, [], ◌∷◌, ◌++◌, Option, none, some, String, ok,
  ◌>>=◌, bind-ok, guard-ok, arith, eq_iff, length, u64_max,
}
use mathlib.Core.List.{append_assoc}
use oh_myserial.Ledger.Schema.{Externals, EventEnvelope, validate}
use oh_myserial.Ledger.Store.{
  Codec, DiskRecord, Header, Footer, header, event, footer, segment_schema, segment_version,
}
use oh_myserial.Ledger.Verify.{
  ReadError, VerifiedSegment, check_header, check_event, continues, validated, read_lines,
  check_footer, footer_matches, opt_eq, text_opt_eq, first_seq_of, last_seq_of, verify_lines,
  verify_segment_file, lines_from, ends_with, trim_line_ending,
}
use oh_myserial.Ledger.Lines.{
  line_of, bytes_of, head_line, tail_lines, from_json-line, lines_from-record, lines_from-events,
  content_of-events, ends_with-snoc,
}

-- Valid events of a session, numbered from `from` on.
abbrev pub AreNumbered : Externals → String → ℕ → List EventEnvelope → Type 0
AreNumbered x session_id from [] = Unit
AreNumbered x session_id from (e ∷ events) =
    (validate x e ≡ ok tt)
    × (e.session_id ≡ session_id)
    × (e.seq ≡ from)
    × (from < u64_max)
    × AreNumbered x session_id (suc from) events

-- The number before the first.
abbrev IsBefore : Option ℕ → ℕ → Type 0
IsBefore none from = Unit
IsBefore (some previous) from = (from ≡ suc previous)

module _ (x : Externals) (k : Codec) where
  check_event-ok :
      (session_id : String) (previous : Option ℕ) (from : ℕ) (e : EventEnvelope)
      → validate x e ≡ ok tt
      → e.session_id ≡ session_id
      → e.seq ≡ from
      → from < u64_max
      → IsBefore previous from
      → check_event x k session_id previous (some (event e)) ≡ ok e
  unfolding check_event continues validated
  check_event-ok session_id none from e valid same at room before =
      ground (arith, valid, eq_iff e.session_id session_id, same)
  check_event-ok session_id (some previous) from e valid same at room before =
      ground (arith, valid, eq_iff e.session_id session_id, same, at, room, before)

  read_step :
      (session_id : String) (previous : Option ℕ) (line next : List ℕ) (lines : List (List ℕ))
      (e : EventEnvelope) (rest : List EventEnvelope × List ℕ)
      → check_event x k session_id previous (k.from_json (trim_line_ending line)) ≡ ok e
      → read_lines x k session_id (some e.seq) next lines ≡ ok rest
      → read_lines x k session_id previous line (next ∷ lines) ≡ ok (e ∷ rest.0, rest.1)
  unfolding read_lines
  read_step session_id previous line next lines e rest one more =
      ap
        (λ z. z >>= λ first. read_lines x k session_id (some first.seq) next lines >>= λ others.
          ok (first ∷ others.0, others.1))
        one
      ∙ ap (λ z. z >>= λ others. ok (e ∷ others.0, others.1)) more

  read_lines-events :
      (session_id : String) (events : List EventEnvelope) (previous : Option ℕ) (from : ℕ)
      (last : DiskRecord)
      → AreNumbered x session_id from events
      → IsBefore previous from
      → read_lines x k session_id previous (head_line k events last) (tail_lines k events last)
        ≡ ok (events, line_of k last)
  unfolding read_lines
  read_lines-events session_id [] previous from last good before = refl
  read_lines-events session_id (e ∷ events) previous from last good before =
      read_step session_id previous (line_of k (event e)) (head_line k events last)
        (tail_lines k events last) e (events, line_of k last)
        (ap (check_event x k session_id previous) (from_json-line k (event e))
          ∙ check_event-ok session_id previous from e good.0 good.1 good.2 good.3 before)
        (read_lines-events session_id events (some e.seq) (suc from) last good.4
          (ap suc (sym good.2)))

  -- The file of a segment.
  abbrev pub segment_bytes : Header → List EventEnvelope → Footer → List ℕ
  segment_bytes h events f = (line_of k (header h) ++ bytes_of k events) ++ line_of k (footer f)

  lines_of_segment :
      (h : Header) (events : List EventEnvelope) (f : Footer)
      → lines_from [] (segment_bytes h events f)
        ≡ line_of k (header h) ∷ head_line k events (footer f) ∷ tail_lines k events (footer f)
  lines_of_segment h events f =
      ap (lines_from [])
        (append_assoc (line_of k (header h)) (bytes_of k events) (line_of k (footer f)))
      ∙ (lines_from-record k (header h) (bytes_of k events ++ line_of k (footer f))
          ∙ ap (λ z. line_of k (header h) ∷ z) (lines_from-events k events (footer f)))

  ends_well :
      (h : Header) (events : List EventEnvelope) (f : Footer)
      → ends_with 10 (segment_bytes h events f) ≡ true
  ends_well h events f =
      ap (ends_with 10) (
        sym (
          append_assoc (line_of k (header h) ++ bytes_of k events) (k.to_json (footer f))
            (10 ∷ [])))
      ∙ ends_with-snoc 10 ((line_of k (header h) ++ bytes_of k events) ++ k.to_json (footer f))

  pub record IsHeader (h : Header) : Type 0 where
    pub schema : h.schema ≡ segment_schema
    pub version : h.version ≡ segment_version
    pub created : x.is_rfc3339 h.created_at ≡ true

  pub record IsFooter (h : Header) (events : List EventEnvelope) (f : Footer) : Type 0 where
    pub schema : f.schema ≡ segment_schema
    pub version : f.version ≡ segment_version
    pub session : f.session_id ≡ h.session_id
    pub index : f.segment_index ≡ h.segment_index
    pub count : f.event_count ≡ length events
    pub first : f.first_seq ≡ first_seq_of events
    pub last : f.last_seq ≡ last_seq_of events
    pub content : f.content_sha256 ≡ k.sha256 (line_of k (header h) ++ bytes_of k events)
    pub previous : f.previous_segment_sha256 ≡ h.previous_segment_sha256

  check_header-ok : (h : Header) → IsHeader h → check_header x k (some (header h)) ≡ ok h
  unfolding check_header
  check_header-ok h good =
      ground (arith, good.schema, good.version, good.created, eq_iff h.schema segment_schema)

  check_footer-ok :
      (h : Header) (events : List EventEnvelope) (f : Footer)
      → IsFooter h events f
      → check_footer x k (some (footer f)) ≡ ok f
  unfolding check_footer
  check_footer-ok h events f good =
      ground (arith, good.schema, good.version, eq_iff f.schema segment_schema)

  opt_eq_refl : (a b : Option ℕ) → a ≡ b → opt_eq a b ≡ true
  unfolding opt_eq
  opt_eq_refl none none e = refl
  opt_eq_refl none (some b) e = grind (arith, e)
  opt_eq_refl (some a) none e = grind (arith, e)
  opt_eq_refl (some a) (some b) e = ground (arith, e)

  pub text_opt_eq_refl : (a b : Option String) → a ≡ b → text_opt_eq a b ≡ true
  unfolding text_opt_eq
  text_opt_eq_refl none none e = refl
  text_opt_eq_refl none (some b) e = grind (arith, e)
  text_opt_eq_refl (some a) none e = grind (arith, e)
  text_opt_eq_refl (some a) (some b) e = ground (arith, e, eq_iff a b)

  footer_matches-ok :
      (h : Header) (events : List EventEnvelope) (f : Footer) (content : String)
      → IsFooter h events f
      → content ≡ k.sha256 (line_of k (header h) ++ bytes_of k events)
      → footer_matches x k h events content f ≡ true
  unfolding footer_matches
  footer_matches-ok h events f content good same = ground (
    arith,
    good.session,
    good.index,
    good.count,
    good.content,
    same,
    eq_iff f.session_id h.session_id,
    eq_iff f.content_sha256 content,
    opt_eq_refl f.first_seq (first_seq_of events) good.first,
    opt_eq_refl f.last_seq (last_seq_of events) good.last,
    text_opt_eq_refl f.previous_segment_sha256 h.previous_segment_sha256 good.previous,
  )

  -- What the verification of a segment says.
  abbrev pub verified : Header → List EventEnvelope → Footer → VerifiedSegment
  verified h events f = record {
    verification = record {
      session_id = h.session_id;
      segment_index = h.segment_index;
      event_count = f.event_count;
      first_seq = f.first_seq;
      last_seq = f.last_seq;
      content_sha256 = f.content_sha256;
      segment_sha256 = k.sha256 (segment_bytes h events f);
      previous_segment_sha256 = h.previous_segment_sha256;
    };
    events = events;
  }

  verify_lines-ok :
      (h : Header) (events : List EventEnvelope) (f : Footer)
      → IsHeader h
      → IsFooter h events f
      → check_header x k (k.from_json (trim_line_ending (line_of k (header h)))) ≡ ok h
      → read_lines x k h.session_id none
          (head_line k events (footer f))
          (tail_lines k events (footer f))
        ≡ ok (events, line_of k (footer f))
      → check_footer x k (k.from_json (trim_line_ending (line_of k (footer f)))) ≡ ok f
      → verify_lines x k
          (segment_bytes h events f)
          (line_of k (header h) ∷ head_line k events (footer f) ∷ tail_lines k events (footer f))
        ≡ ok (verified h events f)
  unfolding verify_lines
  verify_lines-ok h events f good_header good one read last = bind-ok h _ one (
      bind-ok (events, line_of k (footer f)) _ read
        (bind-ok f _ last (
          guard-ok ReadError.footer_mismatch _ (
            footer_matches-ok h events f _ good (
              ap (λ z. k.sha256 (line_of k (header h) ++ z))
                (content_of-events k events (footer f)))))))

  -- A file that was written well is verified.
  pub verify_segment_file-ok :
      (h : Header) (events : List EventEnvelope) (f : Footer) (from : ℕ)
      → IsHeader h
      → IsFooter h events f
      → AreNumbered x h.session_id from events
      → verify_segment_file x k (segment_bytes h events f) ≡ ok (verified h events f)
  unfolding verify_segment_file
  verify_segment_file-ok h events f from good_header good numbered =
      guard-ok ReadError.incomplete _ (ends_well h events f)
      ∙ (ap (verify_lines x k (segment_bytes h events f)) (lines_of_segment h events f)
          ∙ verify_lines-ok h events f good_header good
              (ap (check_header x k) (from_json-line k (header h)) ∙ check_header-ok h good_header)
              (read_lines-events h.session_id events none from (footer f) numbered tt)
              (ap (check_footer x k) (from_json-line k (footer f))
                ∙ check_footer-ok h events f good))
