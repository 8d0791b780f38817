-- ===== src/Ledger/Schema.antt =====
-- src/ledger/schema.rs: the event envelope, its payloads and their validation. Base64, the RFC 3339
-- parser and the JSON encoder are other crates: they are the fields of `Externals`.
use oh_myserial.Common.{
  ℕ, ◌≤◌, ◌≡◌, Bool, not, ◌||◌, List, Option, none, some, String, Result, ok, err, ◌>>=◌, ◌>>◌,
  guard, ltb, ◌==◌, str_eq, if◌then◌else◌, is_some_and, length, any,
}
use oh_myserial.Common.Text.{byte_len, has_control, is_empty}

pub record BytesPayload : Type 0 where
  pub data_base64 : String
  pub len : ℕ

pub record TxPayload : Type 0 where
  pub actor : String
  pub client_id : Option String
  pub bytes : BytesPayload

pub data ConnectionState : Type 0 where
  connected disconnected reconnecting open_failed : ConnectionState

pub record ConnectionPayload : Type 0 where
  pub state : ConnectionState
  pub path : String
  pub baud : ℕ
  pub detail : Option String

pub record ControlPayload : Type 0 where
  pub actor : Option String
  pub name : String
  pub value : Option String

pub data GapScope : Type 0 where
  rx_observation tx_outcome client_delivery persistence : GapScope

pub data GapCertainty : Type 0 where
  unknown partial_or_unknown not_delivered : GapCertainty

pub record GapPayload : Type 0 where
  pub scope : GapScope
  pub certainty : GapCertainty
  pub reason : String
  pub bytes : Option BytesPayload
  pub actor : Option String
  pub client_ids : List String

pub data EventPayload : Type 0 where
  rx : BytesPayload → EventPayload
  tx : TxPayload → EventPayload
  connection : ConnectionPayload → EventPayload
  control : ControlPayload → EventPayload
  gap : GapPayload → EventPayload

pub data EventType : Type 0 where
  rx_type tx_type connection_type control_type gap_type : EventType

abbrev pub event_type : EventPayload → EventType
event_type (rx p) = rx_type
event_type (tx p) = tx_type
event_type (connection p) = connection_type
event_type (control p) = control_type
event_type (gap p) = gap_type

abbrev pub event_schema : String
event_schema = "ohmyserial.event"

abbrev pub event_version : ℕ
event_version = 1

abbrev pub default_port_id : String
default_port_id = "default"

pub record EventEnvelope : Type 0 where
  pub schema : String
  pub version : ℕ
  pub session_id : String
  pub seq : ℕ
  pub ts_utc : String
  pub mono_us : ℕ
  pub port_id : String
  pub connection_epoch : ℕ
  pub event : EventPayload

-- `EventEnvelope::new`; the wall clock's text is an argument.
unfoldable pub new_event : String → ℕ → String → ℕ → ℕ → EventPayload → EventEnvelope
new_event session_id seq ts_utc mono_us epoch event = record {
  schema = event_schema;
  version = event_version;
  session_id = session_id;
  seq = seq;
  ts_utc = ts_utc;
  mono_us = mono_us;
  port_id = default_port_id;
  connection_epoch = epoch;
  event = event;
}

pub data SchemaError : Type 0 where
  schema_error port_id_error timestamp_error : String → SchemaError
  version_error : ℕ → SchemaError
  zero_sequence base64_error actor_error client_id_error control_name_error detail_too_long
        connection_error gap_error :
      SchemaError
  byte_length : ℕ → ℕ → SchemaError

-- What the ledger takes from other crates: standard base64 round trips, and an encoded event is a
-- vector, so that it has at most isize::MAX bytes.
pub record Externals : Type 0 where
  pub encode : List ℕ → String
  pub decode : String → Option (List ℕ)
  pub decode-encode : (bytes : List ℕ) → decode (encode bytes) ≡ some bytes
  pub is_rfc3339 : String → Bool
  pub encoded_len : EventEnvelope → ℕ
  pub encoded_len-le : (e : EventEnvelope) → encoded_len e ≤ 9223372036854775807

-- `v.is_empty() || v.len() > 128 || v.chars().any(char::is_control)`.
unfoldable pub is_bad_label : String → Bool
is_bad_label v = is_empty v || ltb 128 (byte_len v) || has_control v

is_too_long : String → Bool
is_too_long v = ltb 1024 (byte_len v)

module _ (x : Externals) where
  unfoldable pub from_bytes : List ℕ → BytesPayload
  from_bytes bytes = record { data_base64 = x.encode bytes; len = length bytes }

  check_len : BytesPayload → Option (List ℕ) → Result (List ℕ) SchemaError
  check_len p none = err base64_error
  check_len p (some bytes) =
      if length bytes == p.len then ok bytes else err (byte_length p.len (length bytes))

  unfoldable pub decode_payload : BytesPayload → Result (List ℕ) SchemaError
  unfolding check_len
  decode_payload p = check_len p (x.decode p.data_base64)

  unfoldable pub validate_bytes : BytesPayload → Result (Unit {0}) SchemaError
  validate_bytes p = do bytes ← decode_payload p; ok tt

  validate_gap_bytes : Option BytesPayload → Result (Unit {0}) SchemaError
  unfolding validate_bytes
  validate_gap_bytes none = ok tt
  validate_gap_bytes (some p) = validate_bytes p

  -- `EventPayload::validate`.
  unfoldable pub validate_payload : EventPayload → Result (Unit {0}) SchemaError
  unfolding is_too_long validate_bytes validate_gap_bytes
  validate_payload (rx p) = validate_bytes p
  validate_payload (tx p) = do
    guard (not (is_bad_label p.actor)) actor_error
    guard (not (is_some_and p.client_id is_bad_label)) client_id_error
    validate_bytes p.bytes
  validate_payload (connection p) = do
    guard (not (is_empty p.path || is_too_long p.path || (p.baud == 0))) connection_error
    guard (not (is_some_and p.detail is_too_long)) detail_too_long
    ok tt
  validate_payload (control p) = do
    guard (not (is_some_and p.actor is_bad_label)) actor_error
    guard (not (is_bad_label p.name)) control_name_error
    guard (not (is_some_and p.value is_too_long)) detail_too_long
    ok tt
  validate_payload (gap p) = do
    guard
        (not (
          is_empty p.reason
          || is_too_long p.reason
          || is_some_and p.actor is_bad_label
          || any is_bad_label p.client_ids))
        gap_error
    validate_gap_bytes p.bytes

  -- `EventEnvelope::validate`.
  unfoldable pub validate : EventEnvelope → Result (Unit {0}) SchemaError
  validate e = do
    guard (str_eq e.schema event_schema) (schema_error e.schema)
    guard (e.version == event_version) (version_error e.version)
    guard (str_eq e.port_id default_port_id) (port_id_error e.port_id)
    guard (not (e.seq == 0)) zero_sequence
    guard (x.is_rfc3339 e.ts_utc) (timestamp_error e.ts_utc)
    validate_payload e.event
