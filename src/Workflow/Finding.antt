-- ===== src/Workflow/Finding.antt =====
-- src/workflow/mod.rs: `expect_bytes` finds a pattern that the device sends while nothing goes wrong.
use oh_myserial.Common.{
  ℕ, suc, ◌≤◌, ◌<◌, ◌≡◌, ◌∙◌, refl, sym, ap, subst, true, false, List, [], ◌∷◌, map, Option, none,
  some, String, Result, ok, err, ◌>>=◌, arith, eq_iff, length, from_millis, u64_max, is_ok,
}
use oh_myserial.Ledger.Schema.{
  Externals, EventEnvelope, EventPayload, ConnectionState, GapScope, decode_payload, SchemaError,
  rx, tx, connection, control, gap,
}
use oh_myserial.Workflow.{WorkflowError}
use oh_myserial.Workflow.Matcher.{scan, Scanned, found, partial}
use oh_myserial.Workflow.Matcher.{◌>>=◌ as bind_option}
use oh_myserial.Workflow.Table.{prefix_table-IsFull}
use oh_myserial.Workflow.Matching.{
  search_reads, Occurs, search_reads-partial, search_reads-none, search_reads-nil,
  search_reads-Occurs,
}
use oh_myserial.Workflow.Expect.{
  EvidenceCursor, WorkflowPortState, Round, Received, Progress, matched_all, going, check_cancel,
  consume_event, receive, event, scanned_to, scan_read, match_event, check_port, begin_round,
  matched_round, expect_round, expect_loop, expect_bytes, is_connected, is_client_delivery,
}
use oh_myserial.Workflow.Expecting.{bytes_read, read_of, payload_read, event_read, received_read}

-- The place of a cursor without its byte offset.
pub record Place : Type 0 where
  pub session_id : String
  pub port_id : String
  pub epoch : ℕ
  pub seq : ℕ

abbrev pub place : EvidenceCursor → Place
place c = record {
  session_id = c.session_id;
  port_id = c.port_id;
  epoch = c.connection_epoch;
  seq = c.seq;
}

abbrev pub next_place : Place → Place
next_place p = record p { seq = suc p.seq }

module _ (x : Externals) (max_ms : ℕ) where
  -- An event that does not stop a search.
  abbrev IsHarmless : EventPayload → Type 0
  IsHarmless (rx p) = is_ok (decode_payload x p) ≡ true
  IsHarmless (tx p) = Unit
  IsHarmless (connection p) = p.state ≡ ConnectionState.connected
  IsHarmless (control p) = Unit
  IsHarmless (gap p) = p.scope ≡ GapScope.client_delivery

  -- The next event of the session, the port and the connection.
  abbrev IsNext : Place → Received → Type 0
  IsNext p Received.token_cancelled = ⊥
  IsNext p Received.lagged = ⊥
  IsNext p Received.closed = ⊥
  IsNext p Received.timed_out = ⊥
  IsNext p (event e) =
      (e.session_id ≡ p.session_id)
      × (e.port_id ≡ p.port_id)
      × (e.seq ≡ suc p.seq)
      × (e.seq ≤ u64_max)
      × (e.connection_epoch ≡ p.epoch)
      × IsHarmless e.event

  abbrev IsQuietRound : Place → Round → Type 0
  IsQuietRound p r =
      (r.is_cancelled ≡ false)
      × (r.elapsed ≤ from_millis max_ms)
      × (0 < r.remaining)
      × IsNext p r.received
      × (r.port.connected ≡ true)
      × (r.port.connection_epoch ≡ p.epoch)

  -- Rounds that nothing disturbs, each with the next event.
  abbrev pub IsQuiet : Place → List Round → Type 0
  IsQuiet p [] = Unit
  IsQuiet p (r ∷ rounds) = IsQuietRound p r × IsQuiet (next_place p) rounds

  consume_event-next :
      (c : EvidenceCursor) (e : EventEnvelope)
      → IsNext (place c) (event e)
      → consume_event c e ≡ ok (record c { seq = e.seq; byte_offset = 0 })
  unfolding consume_event
  consume_event-next c e n =
      ground (arith, n, eq_iff c.session_id e.session_id, eq_iff c.port_id e.port_id)

  begun :
      (c : EvidenceCursor) (r : Round) (e : EventEnvelope)
      → r.received ≡ event e
      → IsNext (place c) (event e)
      → IsQuietRound (place c) r
      → begin_round max_ms r c ≡ ok (record c { seq = e.seq; byte_offset = 0 }, e)
  unfolding begin_round check_cancel receive
  begun c r e got n q = ground (arith, got, q.0, q.1, q.2, consume_event-next c e n)

  cases :
      (p : Place) (got : Received)
      → IsNext p got
      → (e : EventEnvelope) × (got ≡ event e) × IsNext p (event e)
  cases p Received.token_cancelled n = absurd n
  cases p Received.lagged n = absurd n
  cases p Received.closed n = absurd n
  cases p Received.timed_out n = absurd n
  cases p (event e) n = (e, refl, n)

  module _ (pattern table : List ℕ) where
    -- How a quiet round goes on: to a cursor at the place `p`.
    abbrev IsStep : Place → Option Scanned → Option (Result Progress WorkflowError) → Type 0
    IsStep p none o = Unit
    IsStep p (some found) o = (d : EvidenceCursor) × (o ≡ some (ok (matched_all d)))
    IsStep p (some (partial longer)) o =
        (d : EvidenceCursor) × (o ≡ some (ok (going d longer))) × (place d ≡ p)

    scan_read-IsStep :
        (c : EvidenceCursor) (m : ℕ) (r : Result (List ℕ) SchemaError) (scanned : Option Scanned)
        → is_ok r ≡ true
        → scan pattern table (payload_read x r) m ≡ scanned
        → IsStep (place c) scanned (scan_read pattern table c m r)
    unfolding scan_read scanned_to payload_read
    scan_read-IsStep c m (err e) scanned good same = grind (arith, good)
    scan_read-IsStep c m (ok read) none good same = tt
    scan_read-IsStep c m (ok read) (some found) good same = (c, ground (arith, same))
    scan_read-IsStep c m (ok read) (some (partial longer)) good same =
        (record c { byte_offset = length read }, ground (arith, same), refl)

    nothing_read :
        (c : EvidenceCursor) (m : ℕ) (scanned : Option Scanned)
        (o : Option (Result Progress WorkflowError))
        → scan pattern table [] m ≡ scanned
        → o ≡ some (ok (going c m))
        → IsStep (place c) scanned o
    unfolding scan
    nothing_read c m none o s same = tt
    nothing_read c m (some found) o s same = grind (arith, s)
    nothing_read c m (some (partial longer)) o s same = (c, ground (arith, s, same), refl)

    match_event-IsStep :
        (c : EvidenceCursor) (m epoch : ℕ) (p : EventPayload) (scanned : Option Scanned)
        → IsHarmless p
        → epoch ≡ c.connection_epoch
        → scan pattern table (event_read x p) m ≡ scanned
        → IsStep (place c) scanned (match_event x pattern table c m epoch p)
    unfolding match_event event_read is_connected is_client_delivery
    match_event-IsStep c m epoch (rx p) scanned good same s =
        scan_read-IsStep c m (decode_payload x p) scanned good s
    match_event-IsStep c m epoch (tx p) scanned good same s = nothing_read c m scanned _ s refl
    match_event-IsStep c m epoch (connection p) scanned good same s =
        nothing_read c m scanned _ s (ground (arith, good, same))
    match_event-IsStep c m epoch (control p) scanned good same s = nothing_read c m scanned _ s refl
    match_event-IsStep c m epoch (gap p) scanned good same s =
        nothing_read c m scanned _ s (ground (arith, good))

    check_port-going :
        (port : WorkflowPortState) (d : EvidenceCursor) (longer : ℕ)
        → port.connected ≡ true
        → port.connection_epoch ≡ d.connection_epoch
        → check_port port (going d longer) ≡ ok (going d longer)
    unfolding check_port
    check_port-going port d longer up same = ground (arith, up, same)

    check_port-IsStep :
        (p : Place) (port : WorkflowPortState) (scanned : Option Scanned)
        (o : Option (Result Progress WorkflowError))
        → port.connected ≡ true
        → port.connection_epoch ≡ p.epoch
        → IsStep p scanned o
        → IsStep p scanned
            (bind_option o λ done. some (do progress ← done; check_port port progress))
    unfolding check_port
    check_port-IsStep p port none o up same h = tt
    check_port-IsStep p port (some found) o up same (d, e) =
        (d, ap (λ z. bind_option z λ done. some (do progress ← done; check_port port progress)) e)
    check_port-IsStep p port (some (partial longer)) o up same (d, e, there) = (
      d,
      ap (λ z. bind_option z λ done. some (do progress ← done; check_port port progress)) e
          ∙ ap some (check_port-going port d longer up (same ∙ sym (ap (λ z. z.epoch) there))),
      there,
    )

    quiet_event-IsStep :
        (c : EvidenceCursor) (m : ℕ) (r : Round) (e : EventEnvelope) (scanned : Option Scanned)
        → IsQuietRound (place c) r
        → IsNext (place c) (event e)
        → r.received ≡ event e
        → scan pattern table (event_read x e.event) m ≡ scanned
        → IsStep (next_place (place c)) scanned (expect_round x pattern table max_ms r c m)
    unfolding expect_round matched_round
    quiet_event-IsStep c m r e scanned q n got s =
        let behind : EvidenceCursor = record c { seq = e.seq; byte_offset = 0 } in
        let there : place behind ≡ next_place (place c) =
          ap (λ z. record (place c) { seq = z }) n.2 in
        subst (λ z. IsStep (next_place (place c)) scanned (matched_round x pattern table m r z))
          (sym (begun c r e got n q))
          (check_port-IsStep (next_place (place c)) r.port scanned _ q.4 q.5 (
            subst
              (λ z.
                IsStep z scanned (match_event x pattern table behind m e.connection_epoch e.event))
              there (match_event-IsStep behind m e.connection_epoch e.event scanned n.5 n.4 s)))

    quiet_round-IsStep :
        (c : EvidenceCursor) (m : ℕ) (r : Round) (scanned : Option Scanned)
        → IsQuietRound (place c) r
        → scan pattern table (read_of x r) m ≡ scanned
        → IsStep (next_place (place c)) scanned (expect_round x pattern table max_ms r c m)
    unfolding read_of received_read
    quiet_round-IsStep c m r scanned q s =
        let (e, got, n) = cases (place c) r.received q.3 in
        quiet_event-IsStep c m r e scanned q n got
          (sym (ap (λ z. scan pattern table (received_read x z) m) got) ∙ s)

    -- A search that finds the pattern in the reads ends.
    abbrev Finds : Option (Result (List ℕ × EvidenceCursor) WorkflowError) → Type 0
    Finds o = (d : EvidenceCursor) × (o ≡ some (ok (pattern, d)))

    loop_found :
        (c d : EvidenceCursor) (m : ℕ) (r : Round) (rounds : List Round)
        → expect_round x pattern table max_ms r c m ≡ some (ok (matched_all d))
        → expect_loop x pattern table max_ms (r ∷ rounds) c m ≡ some (ok (pattern, d))
    unfolding expect_loop
    loop_found c d m r rounds e = ground (arith, e)

    loop_on :
        (c d : EvidenceCursor) (m longer : ℕ) (r : Round) (rounds : List Round)
        → expect_round x pattern table max_ms r c m ≡ some (ok (going d longer))
        → expect_loop x pattern table max_ms (r ∷ rounds) c m
          ≡ expect_loop x pattern table max_ms rounds d longer
    unfolding expect_loop
    loop_on c d m longer r rounds e = ground (arith, e)

    after_quiet_round :
        (c : EvidenceCursor) (m : ℕ) (r : Round) (rounds : List Round) (scanned : Option Scanned)
        → scan pattern table (read_of x r) m ≡ scanned
        → IsStep (next_place (place c)) scanned (expect_round x pattern table max_ms r c m)
        → search_reads pattern table (map (read_of x) (r ∷ rounds)) m ≡ some true
        → ((d : EvidenceCursor) (longer : ℕ)
            → place d ≡ next_place (place c)
            → search_reads pattern table (map (read_of x) rounds) longer ≡ some true
            → Finds (expect_loop x pattern table max_ms rounds d longer))
        → Finds (expect_loop x pattern table max_ms (r ∷ rounds) c m)
    after_quiet_round c m r rounds none s h finds next = absurd (
        ground (
          arith,
          finds,
          search_reads-none pattern table (read_of x r) (map (read_of x) rounds) m s,
        ))
    after_quiet_round c m r rounds (some found) s (d, e) finds next =
        (d, loop_found c d m r rounds e)
    after_quiet_round c m r rounds (some (partial longer)) s (d, e, there) finds next =
        let (b, f) = next d longer there (
          sym (search_reads-partial pattern table (read_of x r) (map (read_of x) rounds) m longer s)
          ∙ finds) in
        (b, loop_on c d m longer r rounds e ∙ f)

    expect_loop-Finds :
        (rounds : List Round) (c : EvidenceCursor) (m : ℕ)
        → IsQuiet (place c) rounds
        → search_reads pattern table (map (read_of x) rounds) m ≡ some true
        → Finds (expect_loop x pattern table max_ms rounds c m)
    expect_loop-Finds [] c m q finds =
        absurd (ground (arith, finds, search_reads-nil pattern table m))
    expect_loop-Finds (r ∷ rounds) c m q finds =
        after_quiet_round c m r rounds (scan pattern table (read_of x r) m) refl
          (quiet_round-IsStep c m r _ q.0 refl) finds
          (λ d longer there.
            expect_loop-Finds rounds d longer (subst (λ z. IsQuiet z rounds) (sym there) q.1))

  -- If nothing disturbs the rounds of `expect_bytes`, each of which receives the next event in time, and
  -- the pattern is not empty and occurs in the device bytes of the rounds, then the call returns and
  -- captures the pattern.
  pub expect_bytes-finds :
      (first : ℕ) (rest : List ℕ) (rounds : List Round) (c : EvidenceCursor)
      → IsQuiet (place c) rounds
      → Occurs (first ∷ rest) (bytes_read x rounds)
      → (d : EvidenceCursor) × (expect_bytes x (first ∷ rest) max_ms rounds c
          ≡ some (ok (first ∷ rest, d)))
  unfolding expect_bytes
  expect_bytes-finds first rest rounds c q occurs =
      let t = prefix_table-IsFull first rest in
      let (d, e) =
        expect_loop-Finds (first ∷ rest) t.table rounds c 0 q
          ((search_reads-Occurs first rest t.table (map (read_of x) rounds) t.built).1 occurs) in
      (
        d,
        ap (λ z. bind_option z λ table. expect_loop x (first ∷ rest) table max_ms rounds c 0)
              t.built
            ∙ e,
      )
