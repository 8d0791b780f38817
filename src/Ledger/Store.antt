-- ===== src/Ledger/Store.antt =====
-- src/ledger/store.rs: the segment store that writes a session to disk. The JSON encoder and SHA-256
-- are other crates: they are the fields of `Codec`. The results of the file operations are an `Io`.
use oh_myserial.Common.{
  ℕ, ◌≤◌, ◌≡◌, Bool, true, false, not, ◌||◌, ◌&&◌, List, [], ◌∷◌, ◌++◌, Option, none, some, String,
  Result, ok, err, ◌>>◌, guard, ltb, leb, ◌==◌, str_eq, if◌then◌else◌, is_some_and, length, All,
  saturating_add,
}
use oh_myserial.Ledger.Schema.{EventEnvelope}

abbrev pub segment_schema : String
segment_schema = "ohmyserial.segment"

abbrev pub segment_version : ℕ
segment_version = 1

pub record StoreOptions : Type 0 where
  pub segment_max_bytes : ℕ
  pub segment_max_events : ℕ
  pub flush_every_events : ℕ
  pub fsync_on_flush : Bool

pub record Header : Type 0 where
  pub schema : String
  pub version : ℕ
  pub session_id : String
  pub segment_index : ℕ
  pub created_at : String
  pub previous_segment_sha256 : Option String

pub record Footer : Type 0 where
  pub schema : String
  pub version : ℕ
  pub session_id : String
  pub segment_index : ℕ
  pub event_count : ℕ
  pub first_seq : Option ℕ
  pub last_seq : Option ℕ
  pub content_sha256 : String
  pub previous_segment_sha256 : Option String

pub data DiskRecord : Type 0 where
  header : Header → DiskRecord
  event : EventEnvelope → DiskRecord
  footer : Footer → DiskRecord

-- What the store takes from other crates. A record's JSON is one line of bytes without control
-- characters, and reading it back gives the record; `sha256` is the hexadecimal digest.
pub record Codec : Type 0 where
  pub to_json : DiskRecord → List ℕ
  pub from_json : List ℕ → Option DiskRecord
  pub from_json-to_json : (r : DiskRecord) → from_json (to_json r) ≡ some r
  pub to_json_printable : (r : DiskRecord) → All (λ b. 32 ≤ b) (to_json r)
  pub sha256 : List ℕ → String

pub data StoreError : Type 0 where
  invalid_options : String → StoreError
  io_error sequence_error degraded_error sealed_error recovery_error : StoreError

-- `StoreOptions::validate`.
unfoldable pub validate_options : StoreOptions → Result (Unit {0}) StoreError
validate_options o = do
  guard (not (o.segment_max_bytes == 0))
      (invalid_options "segment_max_bytes must be greater than zero")
  guard (not (o.segment_max_events == 0))
      (invalid_options "segment_max_events must be greater than zero")
  guard (not (o.flush_every_events == 0))
      (invalid_options "flush_every_events must be greater than zero")

-- A segment that is written: `content` is what went through the writer, which is what the hasher
-- has seen.
pub record OpenSegment : Type 0 where
  pub segment_index : ℕ
  pub content : List ℕ
  pub bytes_written : ℕ
  pub event_count : ℕ
  pub first_seq : Option ℕ
  pub last_seq : Option ℕ
  pub events_since_flush : ℕ

-- The store and the sealed files of its session, by their index.
pub record SegmentStore : Type 0 where
  pub session_id : String
  pub options : StoreOptions
  pub current : Option OpenSegment
  pub next_segment_index : ℕ
  pub expected_next_seq : ℕ
  pub previous_segment_sha256 : Option String
  pub degraded : Bool
  pub sealed : Bool
  pub files : List (ℕ × List ℕ)

-- Whether the file operations of a call succeed, and the clock's text.
pub record Io : Type 0 where
  pub footer_written : Bool
  pub renamed : Bool
  pub hashed : Bool
  pub created : Bool
  pub header_written : Bool
  pub line_written : Bool
  pub flushed : Bool
  pub created_at : String

-- The store of a session without files, as `open` makes it.
unfoldable pub fresh_store : String → StoreOptions → SegmentStore
fresh_store session_id options = record {
  session_id = session_id;
  options = options;
  current = none;
  next_segment_index = 0;
  expected_next_seq = 1;
  previous_segment_sha256 = none;
  degraded = false;
  sealed = false;
  files = [];
}

abbrev pub Stored : Type 0
Stored = SegmentStore × Result (Unit {0}) StoreError

-- `?` behind a call that changes the store.
abbrev pub then_store : Stored → (SegmentStore → Stored) → Stored
then_store (st, err e) next = (st, err e)
then_store (st, ok u) next = next st

unfoldable pub mark_degraded : SegmentStore → SegmentStore
mark_degraded st = record st { degraded = true }

unfoldable pub first_or : Option ℕ → ℕ → Option ℕ
first_or none seq = some seq
first_or (some first) seq = some first

module _ (k : Codec) (io : Io) where
  unfoldable pub json_line : DiskRecord → List ℕ
  json_line r = k.to_json r ++ 10 ∷ []

  unfoldable pub footer_of : SegmentStore → OpenSegment → DiskRecord
  footer_of st segment = footer (record {
    schema = segment_schema;
    version = segment_version;
    session_id = st.session_id;
    segment_index = segment.segment_index;
    event_count = segment.event_count;
    first_seq = segment.first_seq;
    last_seq = segment.last_seq;
    content_sha256 = k.sha256 segment.content;
    previous_segment_sha256 = st.previous_segment_sha256;
  })

  unfoldable pub seal_segment : SegmentStore → Option OpenSegment → Stored
  unfolding json_line footer_of
  seal_segment st none = (st, ok tt)
  seal_segment st (some segment) =
      let bytes = segment.content ++ json_line (footer_of st segment) in
      let taken = record st { current = none } in
      let moved = record taken { files = st.files ++ (segment.segment_index, bytes) ∷ [] } in
      if not (io.footer_written && io.renamed)
      then (taken, err io_error)
      else if not io.hashed
      then (moved, err io_error)
      else (
        record moved {
          previous_segment_sha256 = some (k.sha256 bytes);
          next_segment_index = saturating_add segment.segment_index 1;
        },
        ok tt,
      )

  unfoldable pub seal_current : SegmentStore → Stored
  unfolding seal_segment
  seal_current st = seal_segment st st.current

  unfoldable pub header_of : SegmentStore → DiskRecord
  header_of st = header (record {
    schema = segment_schema;
    version = segment_version;
    session_id = st.session_id;
    segment_index = st.next_segment_index;
    created_at = io.created_at;
    previous_segment_sha256 = st.previous_segment_sha256;
  })

  unfoldable pub ensure_segment : SegmentStore → Option OpenSegment → Stored
  unfolding json_line header_of
  ensure_segment st (some segment) = (st, ok tt)
  ensure_segment st none =
      let line = json_line (header_of st) in
      if not (io.created && io.header_written) then (st, err io_error) else (
        record st {
          current = some (record {
            segment_index = st.next_segment_index;
            content = line;
            bytes_written = length line;
            event_count = 0;
            first_seq = none;
            last_seq = none;
            events_since_flush = 0;
          });
        },
        ok tt,
      )

  unfoldable pub ensure_current : SegmentStore → Stored
  unfolding ensure_segment
  ensure_current st = ensure_segment st st.current

  -- The segment behind a line for `e`.
  unfoldable pub written : OpenSegment → EventEnvelope → OpenSegment
  unfolding json_line first_or
  written segment e = record {
    segment_index = segment.segment_index;
    content = segment.content ++ json_line (event e);
    bytes_written = saturating_add segment.bytes_written (length (json_line (event e)));
    event_count = saturating_add segment.event_count 1;
    first_seq = first_or segment.first_seq e.seq;
    last_seq = some e.seq;
    events_since_flush = saturating_add segment.events_since_flush 1;
  }

  -- The end of `append`, on the current segment.
  unfoldable pub write_event : SegmentStore → Option OpenSegment → EventEnvelope → Stored
  unfolding written
  write_event st none e = (st, err io_error)
  write_event st (some segment) e =
      let after = written segment e in
      let due = leb st.options.flush_every_events after.events_since_flush in
      let kept = if due then record after { events_since_flush = 0 } else after in
      if not io.line_written
      then (st, err io_error)
      else if due && not io.flushed
      then (record st { current = some after }, err io_error)
      else (
        record st {
          current = some kept;
          expected_next_seq = saturating_add st.expected_next_seq 1;
        },
        ok tt,
      )

  -- Whether the current segment is full.
  unfoldable pub is_full : StoreOptions → ℕ → OpenSegment → Bool
  is_full o line_length segment =
      ltb 0 segment.event_count
      && (leb o.segment_max_events segment.event_count
          || ltb o.segment_max_bytes (saturating_add segment.bytes_written line_length))

  unfoldable pub check_append : SegmentStore → EventEnvelope → Result (Unit {0}) StoreError
  check_append st e = do
    guard (not st.degraded) degraded_error
    guard (not st.sealed) sealed_error
    guard (str_eq e.session_id st.session_id && (e.seq == st.expected_next_seq)) sequence_error

  unfoldable pub append : SegmentStore → EventEnvelope → Stored
  unfolding check_append seal_current ensure_current write_event is_full json_line
  append st e =
      then_store (st, check_append st e)
        λ checked.
          then_store
            (if is_some_and checked.current (is_full checked.options (length (json_line (event e))))
              then seal_current checked
              else (checked, ok tt))
            λ rotated.
              then_store (ensure_current rotated) λ ready. write_event ready ready.current e

  unfoldable pub checkpoint : SegmentStore → Stored
  unfolding seal_current
  checkpoint st =
      if st.degraded
      then (st, err degraded_error)
      else if st.sealed
      then (st, err sealed_error)
      else seal_current st

  unfoldable pub seal : SegmentStore → Stored
  unfolding seal_current
  seal st =
      if st.sealed
      then (st, ok tt)
      else if st.degraded
      then (st, err degraded_error)
      else then_store (seal_current st) λ done. (record done { sealed = true }, ok tt)
