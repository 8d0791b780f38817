-- ===== src/Ledger/Verify.antt =====
-- src/ledger/store.rs: reading sealed segments back, with every check of schema, order and hashes.
use oh_myserial.Common.{
  ℕ, Bool, true, false, ◌&&◌, List, [], ◌∷◌, ◌++◌, Option, none, some, String, Result, ok, err,
  ◌>>=◌, ◌>>◌, guard, ◌==◌, str_eq, if◌then◌else◌, length, saturating_add,
}
use oh_myserial.Ledger.Schema.{Externals, EventEnvelope, SchemaError, validate}
use oh_myserial.Ledger.Store.{
  Codec, DiskRecord, Header, Footer, header, event, footer, segment_schema, segment_version,
}

pub data ReadError : Type 0 where
  incomplete missing_lines invalid_header invalid_timestamp invalid_event event_session
        not_contiguous invalid_footer footer_mismatch index_mismatch session_mismatch chain_mismatch
        sequence_mismatch :
      ReadError

pub record SegmentVerification : Type 0 where
  pub session_id : String
  pub segment_index : ℕ
  pub event_count : ℕ
  pub first_seq : Option ℕ
  pub last_seq : Option ℕ
  pub content_sha256 : String
  pub segment_sha256 : String
  pub previous_segment_sha256 : Option String

pub record VerifiedSegment : Type 0 where
  pub verification : SegmentVerification
  pub events : List EventEnvelope

pub record SessionRead : Type 0 where
  pub events : List EventEnvelope
  pub segments : List SegmentVerification

-- `complete_lines`, with the bytes of the line so far.
unfoldable pub lines_from : List ℕ → List ℕ → List (List ℕ)
lines_from line [] = []
lines_from line (b ∷ bytes) = elim (b == 10) [
  | true ↦ (line ++ 10 ∷ []) ∷ lines_from [] bytes
  | false ↦ lines_from (line ++ b ∷ []) bytes
]

unfoldable pub ends_with : ℕ → List ℕ → Bool
ends_with c [] = false
ends_with c (b ∷ []) = b == c
ends_with c (b ∷ d ∷ bytes) = ends_with c (d ∷ bytes)

-- `if line.ends_with(c) { line = &line[..line.len() - 1] }`.
unfoldable pub strip_last : ℕ → List ℕ → List ℕ
strip_last c [] = []
strip_last c (b ∷ []) = if b == c then [] else b ∷ []
strip_last c (b ∷ d ∷ bytes) = b ∷ strip_last c (d ∷ bytes)

unfoldable pub trim_line_ending : List ℕ → List ℕ
unfolding strip_last
trim_line_ending line = strip_last 13 (strip_last 10 line)

unfoldable pub opt_eq : Option ℕ → Option ℕ → Bool
opt_eq none none = true
opt_eq none (some b) = false
opt_eq (some a) none = false
opt_eq (some a) (some b) = a == b

unfoldable pub text_opt_eq : Option String → Option String → Bool
text_opt_eq none none = true
text_opt_eq none (some t) = false
text_opt_eq (some s) none = false
text_opt_eq (some s) (some t) = str_eq s t

unfoldable pub first_seq_of : List EventEnvelope → Option ℕ
first_seq_of [] = none
first_seq_of (e ∷ events) = some e.seq

unfoldable pub last_seq_of : List EventEnvelope → Option ℕ
last_seq_of [] = none
last_seq_of (e ∷ []) = some e.seq
last_seq_of (e ∷ d ∷ events) = last_seq_of (d ∷ events)

-- The bytes of all lines but the last.
unfoldable pub content_of : List ℕ → List (List ℕ) → List ℕ
content_of line [] = []
content_of line (next ∷ lines) = line ++ content_of next lines

-- The canonical numbers of a segment's events, which give the next expected one.
unfoldable pub check_seqs : ℕ → List EventEnvelope → Result ℕ ReadError
check_seqs expected [] = ok expected
check_seqs expected (e ∷ events) = do
  guard (e.seq == expected) sequence_mismatch
  check_seqs (saturating_add expected 1) events

module _ (x : Externals) (k : Codec) where
  unfoldable pub check_header : Option DiskRecord → Result Header ReadError
  check_header none = err invalid_header
  check_header (some (header h)) = do
    guard (str_eq h.schema segment_schema && (h.version == segment_version)) invalid_header
    guard (x.is_rfc3339 h.created_at) invalid_timestamp
    ok h
  check_header (some (event e)) = err invalid_header
  check_header (some (footer f)) = err invalid_header

  unfoldable pub continues : Option ℕ → ℕ → Bool
  continues none seq = true
  continues (some previous) seq = seq == saturating_add previous 1

  -- `event.validate()`.
  unfoldable pub validated : Result (Unit {0}) SchemaError → Result (Unit {0}) ReadError
  validated (ok u) = ok tt
  validated (err e) = err invalid_event

  unfoldable pub check_event :
      String → Option ℕ → Option DiskRecord → Result EventEnvelope ReadError
  unfolding continues validated
  check_event session_id previous none = err invalid_event
  check_event session_id previous (some (header h)) = err invalid_event
  check_event session_id previous (some (footer f)) = err invalid_event
  check_event session_id previous (some (event e)) = do
    validated (validate x e)
    guard (str_eq e.session_id session_id) event_session
    guard (continues previous e.seq) not_contiguous
    ok e

  -- The loop over the lines between the first and the last, and the last line.
  unfoldable pub read_lines :
      String → Option ℕ → List ℕ → List (List ℕ) → Result (List EventEnvelope × List ℕ) ReadError
  read_lines session_id previous line [] = ok ([], line)
  read_lines session_id previous line (next ∷ lines) = do
    e ← check_event session_id previous (k.from_json (trim_line_ending line))
    let last = e.seq
    rest ← read_lines session_id (some last) next lines
    ok (e ∷ rest.0, rest.1)

  unfoldable pub check_footer : Option DiskRecord → Result Footer ReadError
  check_footer none = err invalid_footer
  check_footer (some (header h)) = err invalid_footer
  check_footer (some (event e)) = err invalid_footer
  check_footer (some (footer f)) = do
    guard (str_eq f.schema segment_schema && (f.version == segment_version)) invalid_footer
    ok f

  -- The comparison of the footer with the header and the events.
  unfoldable pub footer_matches : Header → List EventEnvelope → String → Footer → Bool
  unfolding opt_eq text_opt_eq first_seq_of last_seq_of
  footer_matches h events computed_content f =
      str_eq f.session_id h.session_id
      && (f.segment_index == h.segment_index)
      && (f.event_count == length events)
      && opt_eq f.first_seq (first_seq_of events)
      && opt_eq f.last_seq (last_seq_of events)
      && str_eq f.content_sha256 computed_content
      && text_opt_eq f.previous_segment_sha256 h.previous_segment_sha256

  unfoldable pub verify_lines : List ℕ → List (List ℕ) → Result VerifiedSegment ReadError
  unfolding check_header check_footer footer_matches read_lines content_of
  verify_lines bytes [] = err missing_lines
  verify_lines bytes (first ∷ []) = err missing_lines
  verify_lines bytes (first ∷ next ∷ lines) = do
    h ← check_header (k.from_json (trim_line_ending first))
    read ← read_lines h.session_id none next lines
    f ← check_footer (k.from_json (trim_line_ending read.1))
    let computed_content = k.sha256 (first ++ content_of next lines)
    guard (footer_matches h read.0 computed_content f) footer_mismatch
    ok (record {
      verification = record {
        session_id = h.session_id;
        segment_index = h.segment_index;
        event_count = f.event_count;
        first_seq = f.first_seq;
        last_seq = f.last_seq;
        content_sha256 = f.content_sha256;
        segment_sha256 = k.sha256 bytes;
        previous_segment_sha256 = h.previous_segment_sha256;
      };
      events = read.0;
    })

  -- `verify_segment_file`, on the bytes of the file.
  unfoldable pub verify_segment_file : List ℕ → Result VerifiedSegment ReadError
  unfolding verify_lines lines_from
  verify_segment_file bytes = do
    guard (ends_with 10 bytes) incomplete
    verify_lines bytes (lines_from [] bytes)

  -- The loop of `read_session` over the sealed files, sorted by index.
  unfoldable pub read_files :
      String → ℕ → ℕ → Option String → List (ℕ × List ℕ) → Result SessionRead ReadError
  unfolding check_seqs
  read_files session_id expected_index expected_seq previous_hash [] =
      ok (record { events = []; segments = [] })
  read_files session_id expected_index expected_seq previous_hash ((index, bytes) ∷ files) = do
    guard (index == expected_index) index_mismatch
    v ← verify_segment_file bytes
    guard (str_eq v.verification.session_id session_id) session_mismatch
    guard (v.verification.segment_index == index) index_mismatch
    guard (text_opt_eq v.verification.previous_segment_sha256 previous_hash) chain_mismatch
    next_seq ← check_seqs expected_seq v.events
    rest ←
        read_files session_id (saturating_add expected_index 1) next_seq
          (some v.verification.segment_sha256) files
    ok (record { events = v.events ++ rest.events; segments = v.verification ∷ rest.segments })

  unfoldable pub read_session : String → List (ℕ × List ℕ) → Result SessionRead ReadError
  unfolding read_files
  read_session session_id files = read_files session_id 0 1 none files
