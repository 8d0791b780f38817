-- ===== src/Ledger/Recovery.antt =====
-- src/ledger/store.rs: recover_open_segment, which rebuilds a sealed segment from what a crash left of
-- an open one.
use oh_myserial.Common.{
  ℕ, ◌+◌, ◌-◌, Bool, true, false, not, ◌||◌, ◌&&◌, List, [], ◌∷◌, ◌++◌, Option, none, some, String,
  Result, ok, ◌>>◌, guard, ◌==◌, str_eq, if◌then◌else◌, is_ok, is_some, length, saturating_add,
}
use oh_myserial.Ledger.Schema.{Externals, EventEnvelope, validate}
use oh_myserial.Ledger.Store.{
  Codec, DiskRecord, Header, header, event, footer, StoreError, io_error, recovery_error,
  segment_schema, segment_version,
}
use oh_myserial.Ledger.Verify.{lines_from, trim_line_ending, text_opt_eq, first_seq_of, last_seq_of}

pub data StopReason : Type 0 where
  unreadable_line header_mismatch invalid_event wrong_event unexpected_order missing_header :
      StopReason

-- The variables of the loop; `valid` holds the bytes of the valid lines.
pub record Scan : Type 0 where
  pub has_valid : Bool
  pub valid : List ℕ
  pub events : List EventEnvelope
  pub expected_seq : ℕ
  pub parsed_bytes : ℕ
  pub saw_footer : Bool
  pub stopped : Option StopReason

pub record Recovered : Type 0 where
  pub recovered_segment : Option (List ℕ)
  pub recovered_events : ℕ
  pub discarded_tail_bytes : ℕ
  pub stopped_at_error : Option StopReason

-- What the file operations of a recovery do; a target that exists is not overwritten.
pub record RecoveryFiles : Type 0 where
  pub moved : Bool
  pub target_exists : Bool
  pub written : Bool

-- A round of the loop: whether it goes on.
pub data Next : Type 0 where
  go_on stop : Scan → Next

unfoldable pub stop_at : Scan → StopReason → Next
stop_at s reason = stop (record s { stopped = some reason })

unfoldable pub first_scan : ℕ → Scan
first_scan expected_seq = record {
  has_valid = false;
  valid = [];
  events = [];
  expected_seq = expected_seq;
  parsed_bytes = 0;
  saw_footer = false;
  stopped = none;
}

module _ (x : Externals) (k : Codec) (session_id : String) (segment_index : ℕ)
    (expected_previous : Option String) where
  unfoldable pub fits : Header → Bool
  fits h =
      str_eq h.schema segment_schema
      && (h.version == segment_version)
      && str_eq h.session_id session_id
      && (h.segment_index == segment_index)
      && text_opt_eq h.previous_segment_sha256 expected_previous

  unfoldable pub keep_line : Scan → List ℕ → Scan
  keep_line s line = record s {
    has_valid = true;
    valid = s.valid ++ line;
    parsed_bytes = s.parsed_bytes + length line;
  }

  unfoldable pub recover_line : Scan → Bool → List ℕ → Option DiskRecord → Next
  unfolding stop_at fits keep_line
  recover_line s is_first line none = stop_at s unreadable_line
  recover_line s is_first line (some (header h)) =
      if not is_first
      then stop_at s unexpected_order
      else if not (fits h)
      then stop_at s header_mismatch
      else go_on (keep_line s line)
  recover_line s is_first line (some (event e)) =
      if not (s.has_valid && not s.saw_footer)
      then stop_at s unexpected_order
      else if not (is_ok (validate x e))
      then stop_at s invalid_event
      else if not (str_eq e.session_id session_id && (e.seq == s.expected_seq))
      then stop_at s wrong_event
      else go_on (record (keep_line s line) {
        events = s.events ++ e ∷ [];
        expected_seq = saturating_add s.expected_seq 1;
      })
  recover_line s is_first line (some (footer f)) =
      if not (s.has_valid && not s.saw_footer)
      then stop_at s unexpected_order
      else stop (record s { saw_footer = true; parsed_bytes = s.parsed_bytes + length line })

  unfoldable pub recover_lines : Scan → Bool → List (List ℕ) → Scan
  unfolding recover_line
  recover_lines s is_first [] = s
  recover_lines s is_first (line ∷ lines) =
      elim (recover_line s is_first line (k.from_json (trim_line_ending line))) [
        | go_on behind ↦ recover_lines behind false lines
        | stop behind ↦ behind
      ]

  -- The sealed segment of the valid lines.
  unfoldable pub rebuilt : Scan → List ℕ
  rebuilt s =
      s.valid
      ++ (k.to_json (
            footer (record {
              schema = segment_schema;
              version = segment_version;
              session_id = session_id;
              segment_index = segment_index;
              event_count = length s.events;
              first_seq = first_seq_of s.events;
              last_seq = last_seq_of s.events;
              content_sha256 = k.sha256 s.valid;
              previous_segment_sha256 = expected_previous;
            }))
          ++ 10 ∷ [])

  unfoldable pub stop_reason : Scan → Option StopReason
  stop_reason s =
      if s.saw_footer
      then none
      else if not s.has_valid && not (is_some s.stopped)
      then some missing_header
      else s.stopped

  unfoldable pub recovered : List ℕ → RecoveryFiles → Scan → Result Recovered StoreError
  unfolding rebuilt stop_reason
  recovered bytes files s = do
    guard files.moved io_error
    guard (not (s.has_valid && files.target_exists)) recovery_error
    guard (not s.has_valid || files.written) io_error
    ok (record {
      recovered_segment = if s.has_valid then some (rebuilt s) else none;
      recovered_events = length s.events;
      discarded_tail_bytes = length bytes - s.parsed_bytes;
      stopped_at_error = stop_reason s;
    })

  -- `recover_open_segment` on the bytes that were read from the open file.
  unfoldable pub recover_open_segment : List ℕ → ℕ → RecoveryFiles → Result Recovered StoreError
  unfolding recovered recover_lines first_scan lines_from
  recover_open_segment bytes expected_seq files =
      recovered bytes files (recover_lines (first_scan expected_seq) true (lines_from [] bytes))
