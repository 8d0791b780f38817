-- ===== src/Examples/Records.antt =====
-- The records of a segment, encoded, in place of their JSON.
use Prim.Native.Char.{Char, code, nul, IsScalar, IsLt}
use Prim.Native.Nat.{compare, Ordering}
use oh_myserial.Common.{
  ℕ, zero, suc, ◌≡◌, ◌∙◌, refl, sym, ap, List, [], ◌∷◌, Option, none, some, String,
}
use mathlib.Core.List.{append-nil}
use oh_myserial.Ledger.Schema.{
  BytesPayload, TxPayload, ConnectionState, ConnectionPayload, ControlPayload, GapScope,
  GapCertainty, GapPayload, EventPayload, rx, tx, connection, control, gap, EventEnvelope,
}
use oh_myserial.Ledger.Store.{DiskRecord, Header, Footer, header, event, footer, Codec}
use oh_myserial.Examples.Encoding.{Encoding, numbers, pairs, written_as, lists, options}

abbrev BothLt : Ordering → Ordering → Type 0
BothLt Ordering.lt o = IsLt o
BothLt Ordering.eq o = ⊥
BothLt Ordering.gt o = ⊥

abbrev IsScalarBy : Ordering → Ordering → Ordering → Type 0
IsScalarBy Ordering.lt o p = Unit
IsScalarBy Ordering.eq o p = BothLt o p
IsScalarBy Ordering.gt o p = BothLt o p

both_test : (o p : Ordering) → Option (BothLt o p)
both_test Ordering.lt Ordering.lt = some tt
both_test Ordering.lt Ordering.eq = none
both_test Ordering.lt Ordering.gt = none
both_test Ordering.eq p = none
both_test Ordering.gt p = none

scalar_test : (m o p : Ordering) → Option (IsScalarBy m o p)
unfolding both_test
scalar_test Ordering.lt o p = some tt
scalar_test Ordering.eq o p = both_test o p
scalar_test Ordering.gt o p = both_test o p

both_test_complete : (o p : Ordering) (w : BothLt o p) → both_test o p ≡ some w
unfolding both_test
both_test_complete Ordering.lt Ordering.lt w = refl
both_test_complete Ordering.lt Ordering.eq w = absurd w
both_test_complete Ordering.lt Ordering.gt w = absurd w
both_test_complete Ordering.eq p w = absurd w
both_test_complete Ordering.gt p w = absurd w

scalar_test_complete : (m o p : Ordering) (w : IsScalarBy m o p) → scalar_test m o p ≡ some w
unfolding scalar_test
scalar_test_complete Ordering.lt o p w = refl
scalar_test_complete Ordering.eq o p w = both_test_complete o p w
scalar_test_complete Ordering.gt o p w = both_test_complete o p w

char_or_nul : (n : ℕ) → Option (IsScalar n) → Char
char_or_nul n none = nul
char_or_nul n (some p) = Char.char n p

to_char : ℕ → Char
unfolding char_or_nul scalar_test
to_char n = char_or_nul n (scalar_test (compare n 55296) (compare 57343 n) (compare n 1114112))

to_char-code : (c : Char) → to_char (code c) ≡ c
unfolding to_char char_or_nul
to_char-code (Char.char n p) =
    ap (char_or_nul n)
      (scalar_test_complete (compare n 55296) (compare 57343 n) (compare n 1114112) p)

to_codes : String → List ℕ
to_codes String.[] = []
to_codes (String.◌∷◌ c s) = code c ∷ to_codes s

from_codes : List ℕ → String
from_codes [] = ""
from_codes (n ∷ ns) = String.◌∷◌ (to_char n) (from_codes ns)

from_codes-to_codes : (s : String) → from_codes (to_codes s) ≡ s
unfolding from_codes to_codes
from_codes-to_codes String.[] = refl
from_codes-to_codes (String.◌∷◌ c s) =
    ap (λ z. String.◌∷◌ z (from_codes (to_codes s))) (to_char-code c)
    ∙ ap (λ z. String.◌∷◌ c z) (from_codes-to_codes s)

strings : Encoding String
strings = written_as (lists numbers) to_codes from_codes from_codes-to_codes

byte_payloads : Encoding BytesPayload
byte_payloads =
    written_as (pairs strings numbers) (λ (r : BytesPayload). (r.data_base64, r.len))
      (λ v. record { data_base64 = v.0; len = v.1 }) (λ r. refl)

tx_payloads : Encoding TxPayload
tx_payloads =
    written_as (pairs strings (pairs (options strings) byte_payloads))
      (λ (r : TxPayload). (r.actor, (r.client_id, r.bytes)))
      (λ v. record { actor = v.0; client_id = v.1.0; bytes = v.1.1 }) (λ r. refl)

state_number : ConnectionState → ℕ
state_number ConnectionState.connected = 0
state_number ConnectionState.disconnected = 1
state_number ConnectionState.reconnecting = 2
state_number ConnectionState.open_failed = 3

state_of : ℕ → ConnectionState
state_of zero = ConnectionState.connected
state_of (suc zero) = ConnectionState.disconnected
state_of (suc (suc zero)) = ConnectionState.reconnecting
state_of (suc (suc (suc n))) = ConnectionState.open_failed

state_of-number : (v : ConnectionState) → state_of (state_number v) ≡ v
unfolding state_of state_number
state_of-number ConnectionState.connected = refl
state_of-number ConnectionState.disconnected = refl
state_of-number ConnectionState.reconnecting = refl
state_of-number ConnectionState.open_failed = refl

states : Encoding ConnectionState
states = written_as numbers state_number state_of state_of-number

connection_payloads : Encoding ConnectionPayload
connection_payloads =
    written_as (pairs states (pairs strings (pairs numbers (options strings))))
      (λ (r : ConnectionPayload). (r.state, (r.path, (r.baud, r.detail))))
      (λ v. record { state = v.0; path = v.1.0; baud = v.1.1.0; detail = v.1.1.1 }) (λ r. refl)

control_payloads : Encoding ControlPayload
control_payloads =
    written_as (pairs (options strings) (pairs strings (options strings)))
      (λ (r : ControlPayload). (r.actor, (r.name, r.value)))
      (λ v. record { actor = v.0; name = v.1.0; value = v.1.1 }) (λ r. refl)

scope_number : GapScope → ℕ
scope_number GapScope.rx_observation = 0
scope_number GapScope.tx_outcome = 1
scope_number GapScope.client_delivery = 2
scope_number GapScope.persistence = 3

scope_of : ℕ → GapScope
scope_of zero = GapScope.rx_observation
scope_of (suc zero) = GapScope.tx_outcome
scope_of (suc (suc zero)) = GapScope.client_delivery
scope_of (suc (suc (suc n))) = GapScope.persistence

scope_of-number : (v : GapScope) → scope_of (scope_number v) ≡ v
unfolding scope_of scope_number
scope_of-number GapScope.rx_observation = refl
scope_of-number GapScope.tx_outcome = refl
scope_of-number GapScope.client_delivery = refl
scope_of-number GapScope.persistence = refl

scopes : Encoding GapScope
scopes = written_as numbers scope_number scope_of scope_of-number

certainty_number : GapCertainty → ℕ
certainty_number GapCertainty.unknown = 0
certainty_number GapCertainty.partial_or_unknown = 1
certainty_number GapCertainty.not_delivered = 2

certainty_of : ℕ → GapCertainty
certainty_of zero = GapCertainty.unknown
certainty_of (suc zero) = GapCertainty.partial_or_unknown
certainty_of (suc (suc n)) = GapCertainty.not_delivered

certainty_of-number : (v : GapCertainty) → certainty_of (certainty_number v) ≡ v
unfolding certainty_of certainty_number
certainty_of-number GapCertainty.unknown = refl
certainty_of-number GapCertainty.partial_or_unknown = refl
certainty_of-number GapCertainty.not_delivered = refl

certainties : Encoding GapCertainty
certainties = written_as numbers certainty_number certainty_of certainty_of-number

gap_payloads : Encoding GapPayload
gap_payloads =
    written_as
      (pairs scopes (
        pairs certainties (
          pairs strings (pairs (options byte_payloads) (pairs (options strings) (lists strings))))))
      (λ (r : GapPayload). (r.scope, (r.certainty, (r.reason, (r.bytes, (r.actor, r.client_ids))))))
      (λ v. record {
        scope = v.0;
        certainty = v.1.0;
        reason = v.1.1.0;
        bytes = v.1.1.1.0;
        actor = v.1.1.1.1.0;
        client_ids = v.1.1.1.1.1;
      })
      (λ r. refl)

-- A payload as one option for each of its kinds.
abbrev PayloadParts : Type 0
PayloadParts =
    Option BytesPayload
    × (Option TxPayload × (Option ConnectionPayload × (Option ControlPayload × Option GapPayload)))

payload_parts : EventPayload → PayloadParts
payload_parts (rx p) = (some p, (none, (none, (none, none))))
payload_parts (tx p) = (none, (some p, (none, (none, none))))
payload_parts (connection p) = (none, (none, (some p, (none, none))))
payload_parts (control p) = (none, (none, (none, (some p, none))))
payload_parts (gap p) = (none, (none, (none, (none, some p))))

payload_of : PayloadParts → EventPayload
payload_of (some p, others) = rx p
payload_of (none, (some p, others)) = tx p
payload_of (none, (none, (some p, others))) = connection p
payload_of (none, (none, (none, (some p, others)))) = control p
payload_of (none, (none, (none, (none, some p)))) = gap p
payload_of (none, (none, (none, (none, none)))) =
    control (record { actor = none; name = ""; value = none })

payload_of-parts : (p : EventPayload) → payload_of (payload_parts p) ≡ p
unfolding payload_of payload_parts
payload_of-parts (rx p) = refl
payload_of-parts (tx p) = refl
payload_of-parts (connection p) = refl
payload_of-parts (control p) = refl
payload_of-parts (gap p) = refl

payloads : Encoding EventPayload
payloads =
    written_as
      (pairs (options byte_payloads) (
        pairs (options tx_payloads) (
          pairs (options connection_payloads)
            (pairs (options control_payloads) (options gap_payloads)))))
      payload_parts payload_of payload_of-parts

events : Encoding EventEnvelope
events =
    written_as
      (pairs strings (
        pairs numbers (
          pairs strings (
            pairs numbers
              (pairs strings (pairs numbers (pairs strings (pairs numbers payloads))))))))
      (λ (r : EventEnvelope). (
        r.schema,
        (
          r.version,
          (
            r.session_id,
            (r.seq, (r.ts_utc, (r.mono_us, (r.port_id, (r.connection_epoch, r.event))))),
          ),
        ),
      ))
      (λ v. record {
        schema = v.0;
        version = v.1.0;
        session_id = v.1.1.0;
        seq = v.1.1.1.0;
        ts_utc = v.1.1.1.1.0;
        mono_us = v.1.1.1.1.1.0;
        port_id = v.1.1.1.1.1.1.0;
        connection_epoch = v.1.1.1.1.1.1.1.0;
        event = v.1.1.1.1.1.1.1.1;
      })
      (λ r. refl)

headers : Encoding Header
headers =
    written_as
      (pairs strings
        (pairs numbers (pairs strings (pairs numbers (pairs strings (options strings))))))
      (λ (r : Header). (
        r.schema,
        (r.version, (r.session_id, (r.segment_index, (r.created_at, r.previous_segment_sha256)))),
      ))
      (λ v. record {
        schema = v.0;
        version = v.1.0;
        session_id = v.1.1.0;
        segment_index = v.1.1.1.0;
        created_at = v.1.1.1.1.0;
        previous_segment_sha256 = v.1.1.1.1.1;
      })
      (λ r. refl)

footers : Encoding Footer
footers =
    written_as
      (pairs strings (
        pairs numbers (
          pairs strings (
            pairs numbers (
              pairs numbers (
                pairs (options numbers)
                  (pairs (options numbers) (pairs strings (options strings)))))))))
      (λ (r : Footer). (
        r.schema,
        (
          r.version,
          (
            r.session_id,
            (
              r.segment_index,
              (
                r.event_count,
                (r.first_seq, (r.last_seq, (r.content_sha256, r.previous_segment_sha256))),
              ),
            ),
          ),
        ),
      ))
      (λ v. record {
        schema = v.0;
        version = v.1.0;
        session_id = v.1.1.0;
        segment_index = v.1.1.1.0;
        event_count = v.1.1.1.1.0;
        first_seq = v.1.1.1.1.1.0;
        last_seq = v.1.1.1.1.1.1.0;
        content_sha256 = v.1.1.1.1.1.1.1.0;
        previous_segment_sha256 = v.1.1.1.1.1.1.1.1;
      })
      (λ r. refl)

abbrev RecordParts : Type 0
RecordParts = Option Header × (Option EventEnvelope × Option Footer)

record_parts : DiskRecord → RecordParts
record_parts (header h) = (some h, (none, none))
record_parts (event e) = (none, (some e, none))
record_parts (footer f) = (none, (none, some f))

record_of : RecordParts → DiskRecord
record_of (some h, others) = header h
record_of (none, (some e, others)) = event e
record_of (none, (none, some f)) = footer f
record_of (none, (none, none)) = header (record {
  schema = "";
  version = 0;
  session_id = "";
  segment_index = 0;
  created_at = "";
  previous_segment_sha256 = none;
})

record_of-parts : (r : DiskRecord) → record_of (record_parts r) ≡ r
unfolding record_of record_parts
record_of-parts (header h) = refl
record_of-parts (event e) = refl
record_of-parts (footer f) = refl

records : Encoding DiskRecord
records =
    written_as (pairs (options headers) (pairs (options events) (options footers))) record_parts
      record_of record_of-parts

value_of : Option (DiskRecord × List ℕ) → Option DiskRecord
value_of none = none
value_of (some (r, rest)) = some r

from_bytes : List ℕ → Option DiskRecord
from_bytes bytes = value_of (records.dec bytes)

from_bytes-enc : (r : DiskRecord) → from_bytes (records.enc r) ≡ some r
unfolding from_bytes value_of
from_bytes-enc r =
    ap (λ z. value_of (records.dec z)) (sym (append-nil (records.enc r)))
    ∙ ap value_of (records.dec-enc r [])

-- Records as printable bytes, and a digest that is always the same.
pub byte_codec : Codec
byte_codec = record {
  to_json = records.enc;
  from_json = from_bytes;
  from_json-to_json = from_bytes-enc;
  to_json_printable = records.printable;
  sha256 = λ bytes. "digest";
}
