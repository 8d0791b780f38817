-- ===== src/Ledger/Appending.antt =====
-- src/ledger/store.rs: an append adds its event to what the store holds.
use oh_myserial.Common.{
  ℕ, suc, ◌<◌, ◌≡◌, ◌∙◌, refl, sym, ap, subst, Bool, true, false, not, ◌&&◌, List, [], ◌∷◌, ◌++◌,
  Option, none, some, String, Result, ok, err, arith, eq_iff, leb, if◌then◌else◌, is_some_and,
  length, length-append, saturating_add, u64_max,
}
use mathlib.Core.List.{append_assoc, append-nil}
use oh_myserial.Ledger.Schema.{Externals, EventEnvelope, validate}
use oh_myserial.Ledger.Store.{
  Codec, header, event, OpenSegment, SegmentStore, StoreError, Io, json_line, header_of,
  seal_current, ensure_segment, ensure_current, written, write_event, is_full, check_append, append,
  first_or,
}
use oh_myserial.Ledger.Verify.{first_seq_of, last_seq_of}
use oh_myserial.Ledger.Lines.{line_of, bytes_of}
use oh_myserial.Ledger.Segments.{AreNumbered}
use oh_myserial.Ledger.Chains.{IsChain}
use oh_myserial.Ledger.Holding.{
  OnStored, OnStored-or, OnStored-then, OnStored-map, first_seq_of-snoc, last_seq_of-snoc,
  AreNumbered-snoc, bytes_of-snoc, IsWritten, IsCurrent, HasEvents, IsReady, Holds,
}
use oh_myserial.Ledger.Sealing.{IsSealed, seal_current-IsSealed}

module _ (x : Externals) (k : Codec) (io : Io) where
  -- A store with a segment to write to.
  abbrev IsOpen : String → List EventEnvelope → SegmentStore → Type 0
  IsOpen session_id events st =
      (st.session_id ≡ session_id)
      × (s : OpenSegment) × (st.current ≡ some s)
      × (done : List EventEnvelope) × (own : List EventEnvelope) × IsReady x k st events done own

  first_of_none : none ≡ first_seq_of []
  unfolding first_seq_of
  first_of_none = refl

  last_of_none : none ≡ last_seq_of []
  unfolding last_seq_of
  last_of_none = refl

  ensure_segment-IsOpen :
      (st : SegmentStore) (session_id : String) (events : List EventEnvelope)
      (current : Option OpenSegment)
      → x.is_rfc3339 io.created_at ≡ true
      → st.current ≡ current
      → Holds x k session_id events st
      → OnStored (IsOpen session_id events) (ensure_segment k io st current)
  unfolding ensure_segment json_line header_of
  ensure_segment-IsOpen st session_id events (some s) stamp at h =
      (h.of_session, s, at, h.done, h.own, h.ready)
  ensure_segment-IsOpen st session_id events none stamp at h =
      OnStored-or (IsOpen session_id events) (not (io.created && io.header_written)) _ _ _ (
        h.of_session,
        _,
        refl,
        h.done,
        h.own,
        record {
          all = h.ready.all;
          chain = h.ready.chain;
          expected = h.ready.expected;
          few = h.ready.few;
          numbered = h.ready.numbered;
          room = h.ready.room;
          current =
              subst (λ z. IsWritten x k _ _ z)
                (sym (subst (λ z. IsCurrent x k st z h.own) at h.ready.current))
                (record {
                  head = _;
                  head_ok = record { schema = refl; version = refl; created = stamp };
                  of_session = refl;
                  linked = refl;
                  head_at = refl;
                  at = refl;
                  content = sym (append-nil _);
                  count = refl;
                  first = first_of_none;
                  last = last_of_none;
                });
        },
      )

  -- A line for an event that belongs behind the others.
  record IsNext (session_id : String) (events : List EventEnvelope) (e : EventEnvelope)
      : Type 0 where
    valid : validate x e ≡ ok tt
    of_session : e.session_id ≡ session_id
    at : e.seq ≡ suc (length events)
    room : e.seq < u64_max

  written-IsWritten :
      (st behind : SegmentStore) (s : OpenSegment) (own : List EventEnvelope) (e : EventEnvelope)
      (n : ℕ)
      → behind.session_id ≡ st.session_id
      → behind.next_segment_index ≡ st.next_segment_index
      → behind.previous_segment_sha256 ≡ st.previous_segment_sha256
      → length own < u64_max
      → IsWritten x k st s own
      → IsWritten x k behind (record (written k io s e) { events_since_flush = n }) (own ++ e ∷ [])
  unfolding written json_line
  written-IsWritten st behind s own e n same_session same_index same_hash room w = record {
    head = w.head;
    head_ok = w.head_ok;
    of_session = w.of_session ∙ sym same_session;
    linked = w.linked ∙ sym same_hash;
    head_at = w.head_at ∙ sym same_index;
    at = w.at ∙ sym same_index;
    content =
        ap (λ z. z ++ line_of k (event e)) w.content
        ∙ (append_assoc (line_of k (header w.head)) (bytes_of k own) (line_of k (event e))
            ∙ ap (λ z. line_of k (header w.head) ++ z) (sym (bytes_of-snoc x k own e)));
    count = omega (arith, w.count, room, length-append own (e ∷ []));
    first = ap (λ z. first_or z e.seq) w.first ∙ sym (first_seq_of-snoc own e);
    last = sym (last_seq_of-snoc own e);
  }

  either_IsWritten :
      (st : SegmentStore) (s : OpenSegment) (own : List EventEnvelope) (due : Bool)
      → ((n : ℕ) → IsWritten x k st (record s { events_since_flush = n }) own)
      → IsWritten x k st (if due then record s { events_since_flush = 0 } else s) own
  either_IsWritten st s own true h = h 0
  either_IsWritten st s own false h = h s.events_since_flush

  open_Holds :
      (st behind : SegmentStore) (s : OpenSegment) (session_id : String)
      (events done own : List EventEnvelope) (e : EventEnvelope)
      → IsNext session_id events e
      → st.session_id ≡ session_id
      → IsReady x k st events done own
      → behind.session_id ≡ st.session_id
      → behind.next_segment_index ≡ st.next_segment_index
      → IsChain x k behind.session_id 0 1 none behind.files done behind.next_segment_index
          (suc (length done))
          behind.previous_segment_sha256
      → behind.expected_next_seq ≡ saturating_add st.expected_next_seq 1
      → behind.current ≡ some s
      → IsWritten x k behind s (own ++ e ∷ [])
      → Holds x k session_id (events ++ e ∷ []) behind
  open_Holds st behind s session_id events done own e n same r session index chain expected at w =
      let sizes = length-append events (e ∷ []) in
      let split = ap length r.all ∙ length-append done own in
      record {
        of_session = session ∙ same;
        done = done;
        own = own ++ e ∷ [];
        ready = record {
          all = ap (λ z. z ++ e ∷ []) r.all ∙ append_assoc done own (e ∷ []);
          chain = chain;
          expected = omega (arith, expected, r.expected, n.at, n.room, sizes);
          few = omega (arith, index, r.few);
          numbered =
              subst (λ z. AreNumbered x z (suc (length done)) (own ++ e ∷ [])) (sym session)
                (AreNumbered-snoc x k st.session_id (suc (length done)) e.seq own e r.numbered
                  (omega (arith, n.at, split)) n.valid (n.of_session ∙ sym same) refl n.room);
          room = omega (arith, sizes, n.at, n.room);
          current = subst (λ z. IsCurrent x k behind z (own ++ e ∷ [])) (sym at) w;
        };
        kept =
            subst (λ z. HasEvents x k z (own ++ e ∷ [])) (sym at)
              (omega (arith, length-append own (e ∷ [])));
      }

  write_open-Holds :
      (st : SegmentStore) (s : OpenSegment) (session_id : String)
      (events done own : List EventEnvelope) (e : EventEnvelope)
      → IsNext session_id events e
      → st.session_id ≡ session_id
      → IsReady x k st events done own
      → IsWritten x k st s own
      → OnStored (Holds x k session_id (events ++ e ∷ [])) (write_event k io st (some s) e)
  unfolding write_event
  write_open-Holds st s session_id events done own e n same r w =
      let due = leb st.options.flush_every_events (written k io s e).events_since_flush in
      OnStored-or (Holds x k session_id (events ++ e ∷ [])) (not io.line_written) _ _ _ (
        OnStored-or (Holds x k session_id (events ++ e ∷ [])) (due && not io.flushed) _ _ _ (
          open_Holds st _ _ session_id events done own e n same r refl refl r.chain refl refl (
            either_IsWritten _ (written k io s e) (own ++ e ∷ []) due (λ since.
              written-IsWritten st _ s own e since refl refl refl
                (omega (arith, r.room, ap length r.all, length-append done own)) w))))

  write_event-Holds :
      (st : SegmentStore) (session_id : String) (events : List EventEnvelope) (e : EventEnvelope)
      → IsNext session_id events e
      → IsOpen session_id events st
      → OnStored (Holds x k session_id (events ++ e ∷ [])) (write_event k io st st.current e)
  write_event-Holds st session_id events e n (same, s, at, done, own, r) =
      subst (λ z. OnStored (Holds x k session_id (events ++ e ∷ [])) (write_event k io st z e))
        (sym at)
        (write_open-Holds st s session_id events done own e n same r
          (subst (λ z. IsCurrent x k st z own) at r.current))

  checked_IsNext :
      (st : SegmentStore) (session_id : String) (events : List EventEnvelope) (e : EventEnvelope)
      (r : Result (Unit {0}) StoreError)
      → check_append k io st e ≡ r
      → validate x e ≡ ok tt
      → suc (length events) < u64_max
      → Holds x k session_id events st
      → OnStored (λ d. Holds x k session_id events d × IsNext session_id events e) (st, r)
  unfolding check_append
  checked_IsNext st session_id events e (err error) checked valid room h = tt
  checked_IsNext st session_id events e (ok u) checked valid room h =
      let (same, at) = passed in
      (
        h,
        record {
          valid = valid;
          of_session = same ∙ h.of_session;
          at = at ∙ h.ready.expected;
          room = omega (arith, at, h.ready.expected, room);
        },
      )
    where
      passed : (e.session_id ≡ st.session_id) × (e.seq ≡ st.expected_next_seq)
      passed = ground (arith, checked, eq_iff e.session_id st.session_id)

  sealed_or_same :
      (st : SegmentStore) (session_id : String) (events : List EventEnvelope) (full : Bool)
      → Holds x k session_id events st
      → OnStored (Holds x k session_id events) (if full then seal_current k io st else (st, ok tt))
  sealed_or_same st session_id events true h =
      OnStored-map (IsSealed x k io session_id events) (Holds x k session_id events)
        (seal_current k io st) (λ d is. is.0) (seal_current-IsSealed x k io st session_id events h)
  sealed_or_same st session_id events false h = h

  -- An append that succeeds adds its event to what the store holds.
  pub append-Holds :
      (st : SegmentStore) (session_id : String) (events : List EventEnvelope) (e : EventEnvelope)
      → x.is_rfc3339 io.created_at ≡ true
      → validate x e ≡ ok tt
      → suc (length events) < u64_max
      → Holds x k session_id events st
      → OnStored (Holds x k session_id (events ++ e ∷ [])) (append k io st e)
  unfolding append ensure_current
  append-Holds st session_id events e stamp valid room h =
      OnStored-then (λ d. Holds x k session_id events d × IsNext session_id events e)
        (Holds x k session_id (events ++ e ∷ [])) (st, check_append k io st e) _
        (checked_IsNext st session_id events e (check_append k io st e) refl valid room h)
        λ checked facts.
          let full =
            is_some_and checked.current
              (is_full k io checked.options (length (json_line k io (event e)))) in
          OnStored-then (Holds x k session_id events) (Holds x k session_id (events ++ e ∷ []))
            (if full then seal_current k io checked else (checked, ok tt)) _
            (sealed_or_same checked session_id events full facts.0)
            λ rotated kept.
              OnStored-then (IsOpen session_id events) (Holds x k session_id (events ++ e ∷ []))
                (ensure_segment k io rotated rotated.current) _
                (ensure_segment-IsOpen rotated session_id events rotated.current stamp refl kept)
                λ ready is_open. write_event-Holds ready session_id events e facts.1 is_open
