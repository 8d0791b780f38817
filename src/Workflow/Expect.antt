-- ===== src/Workflow/Expect.antt =====
-- src/workflow/mod.rs: the evidence cursor and the loop of `expect_bytes`. Each round of the loop
-- reads the clock, the token and the port, and receives an event: a `Round` holds what it sees. The
-- origins of the matched bytes, which the code collects and does not use, are left out.
use oh_myserial.Common.{
  ℕ, Bool, true, false, not, List, [], ◌∷◌, Option, none, some, String, Result, ok, err, ◌>>=◌,
  ◌>>◌, guard, ltb, leb, ◌==◌, str_eq, if◌then◌else◌, length, saturating_add, from_millis,
}
use oh_myserial.Ledger.Schema.{
  Externals, EventEnvelope, EventPayload, ConnectionState, GapScope, decode_payload, SchemaError,
}
use oh_myserial.Workflow.{WorkflowError}
use oh_myserial.Workflow.WorkflowError.{
  cancelled, timeout, wrong_session, evidence_gap, epoch_changed, disconnected, rx_gap,
  expect_timeout, cursor_unavailable, bad_payload,
}
use oh_myserial.Workflow.Matcher.{prefix_table, scan, Scanned, found, partial}
use oh_myserial.Workflow.Matcher.{◌>>=◌ as bind_option}

pub record EvidenceCursor : Type 0 where
  pub session_id : String
  pub port_id : String
  pub connection_epoch : ℕ
  pub seq : ℕ
  pub byte_offset : ℕ

pub record WorkflowPortState : Type 0 where
  pub connected : Bool
  pub connection_epoch : ℕ

-- What the `select!` of a round gives.
pub data Received : Type 0 where
  token_cancelled lagged closed timed_out : Received
  event : EventEnvelope → Received

pub record Round : Type 0 where
  pub is_cancelled : Bool
  pub elapsed : ℕ
  pub remaining : ℕ
  pub received : Received
  pub port : WorkflowPortState

unfoldable pub check_cancel : Bool → ℕ → ℕ → Result (Unit {0}) WorkflowError
check_cancel is_cancelled elapsed max_ms = do
  guard (not is_cancelled) cancelled
  guard (not (ltb (from_millis max_ms) elapsed)) timeout

unfoldable pub consume_event : EvidenceCursor → EventEnvelope → Result EvidenceCursor WorkflowError
consume_event c e = do
  guard (str_eq c.session_id e.session_id) wrong_session
  guard (str_eq c.port_id e.port_id) wrong_session
  let expected = saturating_add c.seq 1
  if leb e.seq c.seq then ok c else do
    guard (e.seq == expected) (evidence_gap expected e.seq)
    guard (e.connection_epoch == c.connection_epoch)
        (epoch_changed c.connection_epoch e.connection_epoch)
    ok (record c { seq = e.seq; byte_offset = 0 })

unfoldable pub receive : Received → Result EventEnvelope WorkflowError
receive token_cancelled = err cancelled
receive lagged = err (cursor_unavailable "live event subscriber lagged")
receive closed = err (cursor_unavailable "live event stream closed")
receive timed_out = err expect_timeout
receive (event e) = ok e

-- How far the search is: the pattern was found, or a part of it is matched.
pub data Progress : Type 0 where
  matched_all : EvidenceCursor → Progress
  going : EvidenceCursor → ℕ → Progress

unfoldable pub is_connected : ConnectionState → Bool
is_connected ConnectionState.connected = true
is_connected ConnectionState.disconnected = false
is_connected ConnectionState.reconnecting = false
is_connected ConnectionState.open_failed = false

unfoldable pub is_client_delivery : GapScope → Bool
is_client_delivery GapScope.rx_observation = false
is_client_delivery GapScope.tx_outcome = false
is_client_delivery GapScope.client_delivery = true
is_client_delivery GapScope.persistence = false

unfoldable pub scanned_to : EvidenceCursor → List ℕ → Scanned → Progress
scanned_to c read found = matched_all c
scanned_to c read (partial longer) = going (record c { byte_offset = length read }) longer

-- The scan of an Rx event; `none` is a panic of the scan.
unfoldable pub scan_read :
    List ℕ
    → List ℕ
    → EvidenceCursor
    → ℕ
    → Result (List ℕ) SchemaError
    → Option (Result Progress WorkflowError)
unfolding scanned_to
scan_read pattern table c matched (err e) = some (err (bad_payload e))
scan_read pattern table c matched (ok read) =
    bind_option (scan pattern table read matched) λ s. some (ok (scanned_to c read s))

-- The checks of the port at the end of a round.
unfoldable pub check_port : WorkflowPortState → Progress → Result Progress WorkflowError
check_port port (matched_all c) = ok (matched_all c)
check_port port (going c matched) = do
  guard port.connected disconnected
  guard (port.connection_epoch == c.connection_epoch)
      (epoch_changed c.connection_epoch port.connection_epoch)
  ok (going c matched)

-- A round up to the consumed event.
unfoldable pub begin_round :
    ℕ → Round → EvidenceCursor → Result (EvidenceCursor × EventEnvelope) WorkflowError
begin_round max_ms r c = do
  check_cancel r.is_cancelled r.elapsed max_ms
  guard (not (r.remaining == 0)) expect_timeout
  e ← receive r.received
  behind ← consume_event c e
  ok (behind, e)

module _ (x : Externals) (pattern table : List ℕ) where
  -- The `match &event.event`, on an event that the cursor consumed.
  unfoldable pub match_event :
      EvidenceCursor → ℕ → ℕ → EventPayload → Option (Result Progress WorkflowError)
  unfolding scan_read is_connected is_client_delivery
  match_event c matched epoch (EventPayload.rx p) =
      scan_read pattern table c matched (decode_payload x p)
  match_event c matched epoch (EventPayload.tx p) = some (ok (going c matched))
  match_event c matched epoch (EventPayload.connection p) = some (do
    guard (is_connected p.state) disconnected
    guard (epoch == c.connection_epoch) (epoch_changed c.connection_epoch epoch)
    ok (going c matched))
  match_event c matched epoch (EventPayload.control p) = some (ok (going c matched))
  match_event c matched epoch (EventPayload.gap p) =
      some (do guard (is_client_delivery p.scope) (rx_gap p.reason); ok (going c matched))

  unfoldable pub matched_round :
      ℕ
      → Round
      → Result (EvidenceCursor × EventEnvelope) WorkflowError
      → Option (Result Progress WorkflowError)
  unfolding match_event check_port
  matched_round matched r (err error) = some (err error)
  matched_round matched r (ok (c, e)) =
      bind_option (match_event c matched e.connection_epoch e.event)
        λ m. some (do progress ← m; check_port r.port progress)

  unfoldable pub expect_round :
      ℕ → Round → EvidenceCursor → ℕ → Option (Result Progress WorkflowError)
  unfolding begin_round matched_round
  expect_round max_ms r c matched = matched_round matched r (begin_round max_ms r c)

  -- The loop; `none` is a loop that still runs after the rounds, or a panic.
  unfoldable pub expect_loop :
      ℕ → List Round → EvidenceCursor → ℕ → Option (Result (List ℕ × EvidenceCursor) WorkflowError)
  unfolding expect_round
  expect_loop max_ms [] c matched = none
  expect_loop max_ms (r ∷ rounds) c matched = elim (expect_round max_ms r c matched) [
    | none ↦ none
    | some (err error) ↦ some (err error)
    | some (ok (matched_all behind)) ↦ some (ok (pattern, behind))
    | some (ok (going behind longer)) ↦ expect_loop max_ms rounds behind longer
  ]

unfoldable pub expect_bytes :
    Externals
    → List ℕ
    → ℕ
    → List Round
    → EvidenceCursor
    → Option (Result (List ℕ × EvidenceCursor) WorkflowError)
unfolding expect_loop
expect_bytes x pattern max_ms rounds c =
    bind_option (prefix_table pattern) λ table. expect_loop x pattern table max_ms rounds c 0
