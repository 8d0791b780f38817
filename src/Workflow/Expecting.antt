-- ===== src/Workflow/Expecting.antt =====
-- src/workflow/mod.rs: when `expect_bytes` finds its pattern, and what the cursor then says.
use oh_myserial.Common.{
  ℕ, ◌≤◌, ◌≡◌, ◌∙◌, refl, sym, ap, subst, true, not, List, [], ◌∷◌, map, Option, none, some, Result,
  ok, err, ◌>>=◌, ◌>>◌, guard, arith, ◌==◌, flatten,
}
use oh_myserial.Ledger.Schema.{
  Externals, EventEnvelope, EventPayload, decode_payload, SchemaError, rx, tx, connection, control,
  gap,
}
use oh_myserial.Workflow.{WorkflowError}
use oh_myserial.Workflow.Matcher.{scan, found, partial}
use oh_myserial.Workflow.Matcher.{◌>>=◌ as bind_option}
use oh_myserial.Workflow.Matching.{
  search_reads, Occurs, search_reads-found, search_reads-partial, search_reads-Occurs,
}
use oh_myserial.Workflow.Table.{prefix_table-IsFull}
use oh_myserial.Workflow.Expect.{
  EvidenceCursor, WorkflowPortState, Round, Received, Progress, matched_all, going, check_cancel,
  consume_event, receive, event, scanned_to, scan_read, match_event, check_port, begin_round,
  matched_round, expect_round, expect_loop, expect_bytes,
}

-- The cursor is of the same session, port and connection, and not behind.
abbrev pub Continues : EvidenceCursor → EvidenceCursor → Type 0
Continues c d =
    (d.session_id ≡ c.session_id)
    × (d.port_id ≡ c.port_id)
    × (d.connection_epoch ≡ c.connection_epoch)
    × (c.seq ≤ d.seq)

consume_event-Continues :
    (c d : EvidenceCursor) (e : EventEnvelope) → consume_event c e ≡ ok d → Continues c d
unfolding consume_event
consume_event-Continues c d e h = ground (arith, h)

module _ (x : Externals) where
  unfoldable pub payload_read : Result (List ℕ) SchemaError → List ℕ
  payload_read (err e) = []
  payload_read (ok read) = read

  unfoldable pub event_read : EventPayload → List ℕ
  unfolding payload_read
  event_read (rx p) = payload_read (decode_payload x p)
  event_read (tx p) = []
  event_read (connection p) = []
  event_read (control p) = []
  event_read (gap p) = []

  unfoldable pub received_read : Received → List ℕ
  unfolding event_read
  received_read (event e) = event_read e.event
  received_read Received.token_cancelled = []
  received_read Received.lagged = []
  received_read Received.closed = []
  received_read Received.timed_out = []

  -- The device bytes that a round reads.
  unfoldable pub read_of : Round → List ℕ
  unfolding received_read
  read_of r = received_read r.received

  module _ (pattern table : List ℕ) where
    abbrev IsProgress :
        EvidenceCursor → ℕ → List ℕ → Option (Result Progress WorkflowError) → Type 0
    IsProgress c m read none = Unit
    IsProgress c m read (some (err e)) = Unit
    IsProgress c m read (some (ok (matched_all d))) =
        (scan pattern table read m ≡ some found) × Continues c d
    IsProgress c m read (some (ok (going d longer))) =
        (scan pattern table read m ≡ some (partial longer)) × Continues c d

    scan_read-IsProgress :
        (c : EvidenceCursor) (m : ℕ) (r : Result (List ℕ) SchemaError)
        → IsProgress c m (payload_read r) (scan_read pattern table c m r)
    unfolding scan_read scanned_to payload_read
    scan_read-IsProgress c m (err e) = tt
    scan_read-IsProgress c m (ok read) = ground arith

    match_event-IsProgress :
        (c : EvidenceCursor) (m epoch : ℕ) (p : EventPayload)
        → IsProgress c m (event_read p) (match_event x pattern table c m epoch p)
    unfolding match_event event_read scan_read scanned_to scan payload_read
    match_event-IsProgress c m epoch (rx p) = scan_read-IsProgress c m (decode_payload x p)
    match_event-IsProgress c m epoch (tx p) = ground arith
    match_event-IsProgress c m epoch (connection p) = ground arith
    match_event-IsProgress c m epoch (control p) = ground arith
    match_event-IsProgress c m epoch (gap p) = ground arith

    check_port-IsProgress :
        (c : EvidenceCursor) (m : ℕ) (read : List ℕ) (port : WorkflowPortState)
        (r : Option (Result Progress WorkflowError))
        → IsProgress c m read r
        → IsProgress c m read
            (bind_option r λ done. some (do progress ← done; check_port port progress))
    unfolding check_port
    check_port-IsProgress c m read port none h = tt
    check_port-IsProgress c m read port (some (err e)) h = tt
    check_port-IsProgress c m read port (some (ok (matched_all d))) h = h
    check_port-IsProgress c m read port (some (ok (going d longer))) h = ground (arith, h)

    widened :
        (c b : EvidenceCursor) (m : ℕ) (read : List ℕ) (r : Option (Result Progress WorkflowError))
        → Continues c b
        → IsProgress b m read r
        → IsProgress c m read r
    widened c b m read none k h = tt
    widened c b m read (some (err e)) k h = tt
    widened c b m read (some (ok (matched_all d))) k h = ground (arith, k, h)
    widened c b m read (some (ok (going d longer))) k h = ground (arith, k, h)

    -- What a begun round consumed.
    abbrev IsBegun :
        EvidenceCursor → Round → Result (EvidenceCursor × EventEnvelope) WorkflowError → Type 0
    IsBegun c r (err error) = Unit
    IsBegun c r (ok (d, e)) = Continues c d × (read_of r ≡ event_read e.event)

    consumed :
        (c : EvidenceCursor) (r : Round) (e : EventEnvelope)
        (m : Result EvidenceCursor WorkflowError)
        → read_of r ≡ event_read e.event
        → ((d : EvidenceCursor) → m ≡ ok d → Continues c d)
        → IsBegun c r (do behind ← m; ok (behind, e))
    consumed c r e (err error) same h = tt
    consumed c r e (ok d) same h = (h d refl, same)

    received_IsBegun :
        (c : EvidenceCursor) (r : Round) (got : Received)
        → r.received ≡ got
        → IsBegun c r (do e ← receive got; behind ← consume_event c e; ok (behind, e))
    unfolding receive read_of received_read
    received_IsBegun c r Received.token_cancelled same = tt
    received_IsBegun c r Received.lagged same = tt
    received_IsBegun c r Received.closed same = tt
    received_IsBegun c r Received.timed_out same = tt
    received_IsBegun c r (event e) same =
        consumed c r e (consume_event c e) (ap received_read same)
          (λ d done. consume_event-Continues c d e done)

    -- A check before the rest of a round.
    checked_IsBegun :
        (c : EvidenceCursor) (r : Round) (m : Result (Unit {0}) WorkflowError)
        (k : Result (EvidenceCursor × EventEnvelope) WorkflowError)
        → IsBegun c r k
        → IsBegun c r (m >> k)
    checked_IsBegun c r (err error) k h = tt
    checked_IsBegun c r (ok u) k h = h

    begin_round-IsBegun :
        (max_ms : ℕ) (r : Round) (c : EvidenceCursor) → IsBegun c r (begin_round max_ms r c)
    unfolding begin_round
    begin_round-IsBegun max_ms r c =
        checked_IsBegun c r (check_cancel r.is_cancelled r.elapsed max_ms) _ (
          checked_IsBegun c r (guard (not (r.remaining == 0)) WorkflowError.expect_timeout) _
            (received_IsBegun c r r.received refl))

    matched_round-IsProgress :
        (c : EvidenceCursor) (m : ℕ) (r : Round)
        (begun : Result (EvidenceCursor × EventEnvelope) WorkflowError)
        → IsBegun c r begun
        → IsProgress c m (read_of r) (matched_round x pattern table m r begun)
    unfolding matched_round
    matched_round-IsProgress c m r (err error) h = tt
    matched_round-IsProgress c m r (ok (d, e)) h =
        check_port-IsProgress c m (read_of r) r.port
          (match_event x pattern table d m e.connection_epoch e.event)
          (widened c d m (read_of r) (match_event x pattern table d m e.connection_epoch e.event)
            h.0
            (subst
              (λ z. IsProgress d m z (match_event x pattern table d m e.connection_epoch e.event))
              (sym h.1) (match_event-IsProgress d m e.connection_epoch e.event)))

    expect_round-IsProgress :
        (max_ms : ℕ) (r : Round) (c : EvidenceCursor) (m : ℕ)
        → IsProgress c m (read_of r) (expect_round x pattern table max_ms r c m)
    unfolding expect_round
    expect_round-IsProgress max_ms r c m =
        matched_round-IsProgress c m r (begin_round max_ms r c) (begin_round-IsBegun max_ms r c)

    -- What a loop that ended well found.
    abbrev pub IsFound :
        EvidenceCursor
        → ℕ
        → List Round
        → Option (Result (List ℕ × EvidenceCursor) WorkflowError)
        → Type 0
    IsFound c m rounds none = Unit
    IsFound c m rounds (some (err e)) = Unit
    IsFound c m rounds (some (ok (captured, d))) =
        (captured ≡ pattern)
        × (search_reads pattern table (map read_of rounds) m ≡ some true)
        × Continues c d

    kept :
        (c d : EvidenceCursor) (m longer : ℕ) (r : Round) (rounds : List Round)
        (result : Option (Result (List ℕ × EvidenceCursor) WorkflowError))
        → (scan pattern table (read_of r) m ≡ some (partial longer)) × Continues c d
        → IsFound d longer rounds result
        → IsFound c m (r ∷ rounds) result
    kept c d m longer r rounds none h f = tt
    kept c d m longer r rounds (some (err error)) h f = tt
    kept c d m longer r rounds (some (ok (captured, b))) h f = ground (
      arith,
      h,
      f,
      search_reads-partial pattern table (read_of r) (map read_of rounds) m longer h.0,
    )

    after_round :
        (c : EvidenceCursor) (m max_ms : ℕ) (r : Round) (rounds : List Round)
        (o : Option (Result Progress WorkflowError))
        → IsProgress c m (read_of r) o
        → ((d : EvidenceCursor) (longer : ℕ)
            → IsFound d longer rounds (expect_loop x pattern table max_ms rounds d longer))
        → IsFound c m (r ∷ rounds) (elim o [
          | none ↦ none
          | some (err error) ↦ some (err error)
          | some (ok (matched_all behind)) ↦ some (ok (pattern, behind))
          | some (ok (going behind longer)) ↦
              expect_loop x pattern table max_ms rounds behind longer
        ])
    after_round c m max_ms r rounds none h next = tt
    after_round c m max_ms r rounds (some (err error)) h next = tt
    after_round c m max_ms r rounds (some (ok (matched_all d))) h next =
        (refl, search_reads-found pattern table (read_of r) (map read_of rounds) m h.0, h.1)
    after_round c m max_ms r rounds (some (ok (going d longer))) h next =
        kept c d m longer r rounds (expect_loop x pattern table max_ms rounds d longer) h
          (next d longer)

    pub expect_loop-IsFound :
        (max_ms : ℕ) (rounds : List Round) (c : EvidenceCursor) (m : ℕ)
        → IsFound c m rounds (expect_loop x pattern table max_ms rounds c m)
    unfolding expect_loop
    expect_loop-IsFound max_ms [] c m = tt
    expect_loop-IsFound max_ms (r ∷ rounds) c m =
        after_round c m max_ms r rounds (expect_round x pattern table max_ms r c m)
          (expect_round-IsProgress max_ms r c m) (λ d. expect_loop-IsFound max_ms rounds d)

  -- The device bytes of all rounds.
  abbrev pub bytes_read : List Round → List ℕ
  bytes_read rounds = flatten (map read_of rounds)

  -- If `expect_bytes` succeeds for a pattern that is not empty, then the pattern occurs in the device
  -- bytes of the rounds, it is what was captured, and the cursor is of the same session, port and
  -- connection epoch and not behind where it was.
  pub expect_bytes-Occurs :
      (first : ℕ) (rest : List ℕ) (max_ms : ℕ) (rounds : List Round) (c d : EvidenceCursor)
      (captured : List ℕ)
      → expect_bytes x (first ∷ rest) max_ms rounds c ≡ some (ok (captured, d))
      → (captured ≡ first ∷ rest) × Occurs (first ∷ rest) (bytes_read rounds) × Continues c d
  unfolding expect_bytes
  expect_bytes-Occurs first rest max_ms rounds c d captured h =
      let t = prefix_table-IsFull first rest in
      let ran : expect_loop x (first ∷ rest) t.table max_ms rounds c 0 ≡ some (ok (captured, d)) =
        sym (
          ap (λ z. bind_option z λ table. expect_loop x (first ∷ rest) table max_ms rounds c 0)
            t.built)
        ∙ h in
      let (whole, finds, same) =
        subst (λ z. IsFound (first ∷ rest) t.table c 0 rounds z) ran
          (expect_loop-IsFound (first ∷ rest) t.table max_ms rounds c 0) in
      (whole, (search_reads-Occurs first rest t.table (map read_of rounds) t.built).0 finds, same)
