-- ===== src/Workflow.antt =====
-- src/workflow/mod.rs: bounded linear workflows on a device: the definitions, their limits, the
-- errors and the bytes that a definition names.
use Prim.Native.Char.{code}
use oh_myserial.Common.{
  ℕ, ◌+◌, ◌-◌, ◌*◌, ◌/◌, ◌%◌, Bool, not, ◌||◌, ◌&&◌, List, [], ◌∷◌, ◌++◌, Option, none, some,
  String, Result, ok, err, ◌>>=◌, ◌>>◌, guard, ltb, leb, ◌==◌, if◌then◌else◌, is_some_and, length,
  saturating_add,
}
use oh_myserial.Common.Text.{byte_len, has_control, is_blank, is_empty}
use oh_myserial.Ledger.Schema.{Externals, SchemaError}
pub mod Matcher
pub mod Suffixes
pub mod Longest
pub mod Table
pub mod Matching
pub mod Validation
pub mod Expect
pub mod Expecting
pub mod Finding
pub mod Run
pub mod Runner
pub mod Keeping
pub mod Reading
pub mod Recording
pub mod Repeating

pub data ByteValue : Type 0 where
  text hex base64 : String → ByteValue

pub data WorkflowAssertion : Type 0 where
  port_connected : WorkflowAssertion
  connection_epoch : ℕ → WorkflowAssertion

pub data WorkflowStep : Type 0 where
  lease : WorkflowStep
  send : ByteValue → WorkflowStep
  -- The pattern, `timeout_ms` and `capture`.
  expect : ByteValue → Option ℕ → Option String → WorkflowStep
  assert : WorkflowAssertion → WorkflowStep
  wait : ℕ → WorkflowStep
  control : String → Option String → WorkflowStep

pub record WorkflowDefinition : Type 0 where
  pub id : String
  pub name : Option String
  pub steps : List WorkflowStep

pub record WorkflowLimits : Type 0 where
  pub max_steps : ℕ
  pub max_duration_ms : ℕ
  pub max_pattern_bytes : ℕ
  pub max_capture_bytes : ℕ
  pub max_evidence_items : ℕ

abbrev pub default_limits : WorkflowLimits
default_limits = record {
  max_steps = 32;
  max_duration_ms = 30000;
  max_pattern_bytes = 4096;
  max_capture_bytes = 65536;
  max_evidence_items = 256;
}

pub data WorkflowError : Type 0 where
  invalid_definition invalid_bytes cursor_unavailable rx_gap assertion runtime :
      String → WorkflowError
  invalid_limits read_denied write_denied control_denied request_in_progress invalid_request_id
        cancelled timeout wrong_session disconnected expect_timeout evidence_limit :
      WorkflowError
  -- `Runtime` with the text of a schema error.
  bad_payload : SchemaError → WorkflowError
  step_limit duration_limit bytes_limit pattern_limit evidence_gap epoch_changed :
      ℕ → ℕ → WorkflowError

-- `char::is_ascii_whitespace`.
is_ascii_whitespace : ℕ → Bool
is_ascii_whitespace c = (c == 32) || (c == 9) || (c == 10) || (c == 12) || (c == 13)

-- The UTF-8 bytes of a character.
utf8 : ℕ → List ℕ
utf8 c =
    if ltb c 0x80
    then c ∷ []
    else if ltb c 0x800
    then (0xc0 + c / 64) ∷ (0x80 + c % 64) ∷ []
    else if ltb c 0x10000
    then (0xe0 + c / 4096) ∷ (0x80 + c / 64 % 64) ∷ (0x80 + c % 64) ∷ []
    else (0xf0 + c / 262144) ∷ (0x80 + c / 4096 % 64) ∷ (0x80 + c / 64 % 64) ∷ (0x80 + c % 64) ∷ []

-- `str::as_bytes`.
unfoldable pub as_bytes : String → List ℕ
unfolding utf8
as_bytes String.[] = []
as_bytes (String.◌∷◌ c s) = utf8 (code c) ++ as_bytes s

-- The bytes of the text without its ASCII white space.
unfoldable pub compact : String → List ℕ
unfolding utf8 is_ascii_whitespace
compact String.[] = []
compact (String.◌∷◌ c s) =
    if is_ascii_whitespace (code c) then compact s else utf8 (code c) ++ compact s

-- `char::to_digit(16)` of a byte.
unfoldable pub to_digit : ℕ → Option ℕ
to_digit c =
    if leb 48 c && leb c 57
    then some (c - 48)
    else if leb 97 c && leb c 102
    then some (c - 87)
    else if leb 65 c && leb c 70
    then some (c - 55)
    else none

hex_byte : Option ℕ → Option ℕ → Result ℕ WorkflowError
hex_byte none low = err (invalid_bytes "invalid hexadecimal byte string")
hex_byte (some high) none = err (invalid_bytes "invalid hexadecimal byte string")
hex_byte (some high) (some low) = ok (high * 16 + low)

-- The loop over `chunks_exact(2)`.
unfoldable pub hex_pairs : List ℕ → Result (List ℕ) WorkflowError
unfolding hex_byte to_digit
hex_pairs [] = ok []
hex_pairs (high ∷ []) = ok []
hex_pairs (high ∷ low ∷ rest) = do
  byte ← hex_byte (to_digit high) (to_digit low)
  bytes ← hex_pairs rest
  ok (byte ∷ bytes)

unfoldable pub decode_hex : String → Result (List ℕ) WorkflowError
decode_hex input = do
  let bytes = compact input
  guard (not ((length bytes == 0) || not (length bytes % 2 == 0)))
      (invalid_bytes "hex must contain an even number of digits")
  hex_pairs bytes

base64_bytes : Option (List ℕ) → Result (List ℕ) WorkflowError
base64_bytes none = err (invalid_bytes "invalid standard base64")
base64_bytes (some bytes) = ok bytes

-- `WorkflowLimits::validate`.
unfoldable pub validate_limits : WorkflowLimits → Result (Unit {0}) WorkflowError
validate_limits l =
    guard
      (not (
        (l.max_steps == 0)
        || (l.max_duration_ms == 0)
        || (l.max_pattern_bytes == 0)
        || (l.max_capture_bytes == 0)
        || (l.max_evidence_items == 0)))
      invalid_limits

module _ (x : Externals) where
  unfoldable pub decode : ByteValue → Result (List ℕ) WorkflowError
  unfolding decode_hex as_bytes base64_bytes
  decode (text s) = ok (as_bytes s)
  decode (hex s) = decode_hex s
  decode (base64 s) = base64_bytes (x.decode s)

  is_bad_capture : String → Bool
  is_bad_capture name = is_empty name || ltb 64 (byte_len name) || has_control name

  add_timeout : Option ℕ → ℕ → ℕ
  add_timeout none total = total
  add_timeout (some ms) total = saturating_add total ms

  -- One round of the loop of `validate`, which gives `total_wait`.
  unfoldable pub validate_step : WorkflowLimits → ℕ → WorkflowStep → Result ℕ WorkflowError
  unfolding is_bad_capture add_timeout
  validate_step l total lease = ok total
  validate_step l total (send bytes) = do
    sent ← decode bytes
    guard (not (length sent == 0)) (invalid_definition "send bytes cannot be empty")
    guard (not (ltb l.max_capture_bytes (length sent)))
        (bytes_limit (length sent) l.max_capture_bytes)
    ok total
  validate_step l total (expect pattern timeout_ms capture) = do
    bytes ← decode pattern
    guard (not (length bytes == 0)) (invalid_definition "expect pattern cannot be empty")
    guard (not (ltb l.max_pattern_bytes (length bytes)))
        (pattern_limit (length bytes) l.max_pattern_bytes)
    guard (not (is_some_and capture is_bad_capture)) (invalid_definition "capture name is invalid")
    ok (add_timeout timeout_ms total)
  validate_step l total (assert a) = ok total
  validate_step l total (wait duration_ms) = ok (saturating_add total duration_ms)
  validate_step l total (control name value) = do
    guard (not (is_empty name || ltb 128 (byte_len name) || has_control name))
        (invalid_definition "control name is invalid")
    guard (not (is_some_and value (λ v. ltb 1024 (byte_len v))))
        (invalid_definition "control value is too long")
    ok total

  unfoldable pub validate_steps : WorkflowLimits → ℕ → List WorkflowStep → Result ℕ WorkflowError
  validate_steps l total [] = ok total
  validate_steps l total (s ∷ steps) = do
    more ← validate_step l total s
    validate_steps l more steps

  -- `WorkflowDefinition::validate`.
  unfoldable pub validate_definition :
      WorkflowDefinition → WorkflowLimits → Result (Unit {0}) WorkflowError
  validate_definition d l = do
    validate_limits l
    guard (not (is_blank d.id || ltb 128 (byte_len d.id) || has_control d.id))
        (invalid_definition "id must be 1..=128 non-control characters")
    guard (not ((length d.steps == 0) || ltb l.max_steps (length d.steps)))
        (step_limit (length d.steps) l.max_steps)
    total ← validate_steps l 0 d.steps
    guard (not (ltb l.max_duration_ms total)) (duration_limit total l.max_duration_ms)
