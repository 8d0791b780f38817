-- ===== src/Examples/Stores.antt =====
-- Two events in two segments, read back.
use oh_myserial.Common.{
  ℕ, ◌≡◌, ◌<◌, refl, true, List, [], ◌∷◌, ◌++◌, none, some, ok, arith, length, u64_max,
}
use oh_myserial.Common.Text.{is_empty, has_control}
use oh_myserial.Ledger.Schema.{EventEnvelope, validate, validate_payload, is_bad_label}
use oh_myserial.Ledger.Store.{
  Header, segment_schema, segment_version, Io, StoreOptions, SegmentStore, fresh_store, append,
  checkpoint, then_store, check_append, seal_current, seal_segment, ensure_current, ensure_segment,
  write_event, written, is_full,
}
use oh_myserial.Ledger.Verify.{read_session}
use oh_myserial.Ledger.Chains.{Gives}
use oh_myserial.Ledger.Reread.{append_all, AreValid, events_of, append_all-read_session}
use oh_myserial.Examples.Fixtures.{externals, note}
use oh_myserial.Ledger.Segments.{AreNumbered}
use oh_myserial.Ledger.Verify.{VerifiedSegment, verify_segment_file}
use oh_myserial.Ledger.Recovery.{recover_open_segment}
use oh_myserial.Ledger.Recovering.{IsOwn, content, all_work, recover_open_segment-torn}
use oh_myserial.Examples.Records.{byte_codec}

abbrev stored_event : ℕ → EventEnvelope
stored_event seq = record {
  schema = "ohmyserial.event";
  version = 1;
  session_id = "session";
  seq = seq;
  ts_utc = "2024-01-01T12:00:00Z";
  mono_us = 0;
  port_id = "default";
  connection_epoch = 1;
  event = note;
}

abbrev disk_works : Io
disk_works = record {
  footer_written = true;
  renamed = true;
  hashed = true;
  created = true;
  header_written = true;
  line_written = true;
  flushed = true;
  created_at = "2024-01-01T12:00:00Z";
}

-- One event in each segment.
abbrev small_segments : StoreOptions
small_segments = record {
  segment_max_bytes = 1000;
  segment_max_events = 1;
  flush_every_events = 1;
  fsync_on_flush = true;
}

abbrev two_calls : List (Io × EventEnvelope)
two_calls = (disk_works, stored_event 1) ∷ (disk_works, stored_event 2) ∷ []

abbrev two_segments : SegmentStore
two_segments =
    (then_store (append_all externals byte_codec (fresh_store "session" small_segments) two_calls)
      (checkpoint byte_codec disk_works)).0

two_written :
    then_store
      (append_all externals byte_codec (fresh_store "session" small_segments) two_calls)
      (checkpoint byte_codec disk_works)
    ≡ (two_segments, ok tt)
unfolding append_all append checkpoint check_append seal_current seal_segment ensure_current
    ensure_segment write_event written is_full fresh_store
two_written = refl

two_AreValid : AreValid externals byte_codec two_calls
unfolding validate validate_payload is_bad_label is_empty has_control
two_AreValid = (refl, refl, (refl, refl, tt))

two_few : length two_calls < u64_max
two_few = omega arith

append_all-read_session_example :
    Gives externals byte_codec "session"
      (events_of externals byte_codec two_calls)
      (read_session externals byte_codec "session" two_segments.files)
append_all-read_session_example =
    append_all-read_session externals byte_codec "session" small_segments two_calls disk_works
      two_segments two_AreValid two_few two_written

abbrev open_header : Header
open_header = record {
  schema = segment_schema;
  version = segment_version;
  session_id = "session";
  segment_index = 0;
  created_at = "2024-01-01T12:00:00Z";
  previous_segment_sha256 = none;
}

open_IsOwn : IsOwn externals byte_codec "session" 0 none open_header
open_IsOwn = record {
  header_ok = record { schema = refl; version = refl; created = refl };
  of_session = refl;
  at = refl;
  linked = refl;
}

one_AreNumbered : AreNumbered externals "session" 1 (stored_event 1 ∷ [])
unfolding validate validate_payload is_bad_label is_empty has_control
one_AreNumbered = (refl, refl, refl, omega arith, tt)

recover_open_segment-torn_example :
    (file : List ℕ) × (read : VerifiedSegment) × (recover_open_segment externals byte_codec
        "session" 0 none
        (content externals byte_codec "session" 0 none open_header (stored_event 1 ∷ [])
          ++ 1 ∷ 2 ∷ [])
        1
        all_work
      ≡ ok (record {
        recovered_segment = some file;
        recovered_events = 1;
        discarded_tail_bytes = 2;
        stopped_at_error = none;
      }))
    × (verify_segment_file externals byte_codec file ≡ ok read)
    × (read.events ≡ stored_event 1 ∷ [])
recover_open_segment-torn_example =
    recover_open_segment-torn externals byte_codec "session" 0 none 1 open_header
      (stored_event 1 ∷ []) (1 ∷ 2 ∷ []) open_IsOwn one_AreNumbered (refl, (refl, tt))
