-- ===== src/Ledger/Holding.antt =====
-- src/ledger/store.rs: which events a store holds, in its sealed files and in its open segment.
use oh_myserial.Common.{
  ℕ, suc, ◌+◌, ◌≤◌, ◌<◌, ◌≡◌, ◌∙◌, refl, sym, ap, Bool, true, false, List, [], ◌∷◌, ◌++◌, Option,
  none, some, String, ok, err, arith, if◌then◌else◌, length, u64_max,
}
use mathlib.Core.List.{append_assoc, append-nil}
use oh_myserial.Ledger.Schema.{Externals, EventEnvelope, validate}
use oh_myserial.Ledger.Store.{
  Codec, Header, header, event, OpenSegment, SegmentStore, StoreError, Stored, then_store, first_or,
}
use oh_myserial.Ledger.Verify.{first_seq_of, last_seq_of}
use oh_myserial.Ledger.Lines.{line_of, bytes_of}
use oh_myserial.Ledger.Segments.{AreNumbered, IsHeader}
use oh_myserial.Ledger.Chains.{IsChain}

-- What holds of the store behind a call that succeeds.
abbrev pub OnStored : (SegmentStore → Type 0) → Stored → Type 0
OnStored P (st, err e) = Unit
OnStored P (st, ok u) = P st

pub OnStored-or :
    (P : SegmentStore → Type 0) (failed : Bool) (st : SegmentStore) (e : StoreError) (o : Stored)
    → OnStored P o
    → OnStored P (if failed then (st, err e) else o)
OnStored-or P true st e o h = tt
OnStored-or P false st e o h = h

pub OnStored-map :
    (P Q : SegmentStore → Type 0) (o : Stored)
    → ((st : SegmentStore) → P st → Q st)
    → OnStored P o
    → OnStored Q o
OnStored-map P Q (st, err e) n h = tt
OnStored-map P Q (st, ok u) n h = n st h

pub OnStored-then :
    (P Q : SegmentStore → Type 0) (o : Stored) (next : SegmentStore → Stored)
    → OnStored P o
    → ((st : SegmentStore) → P st → OnStored Q (next st))
    → OnStored Q (then_store o next)
OnStored-then P Q (st, err e) next h n = tt
OnStored-then P Q (st, ok u) next h n = n st h

pub first_seq_of-snoc :
    (events : List EventEnvelope) (e : EventEnvelope)
    → first_seq_of (events ++ e ∷ []) ≡ first_or (first_seq_of events) e.seq
unfolding first_seq_of first_or
first_seq_of-snoc [] e = refl
first_seq_of-snoc (d ∷ events) e = refl

pub last_seq_of-snoc :
    (events : List EventEnvelope) (e : EventEnvelope) → last_seq_of (events ++ e ∷ []) ≡ some e.seq
unfolding last_seq_of
last_seq_of-snoc [] e = refl
last_seq_of-snoc (c ∷ []) e = refl
last_seq_of-snoc (c ∷ d ∷ events) e = last_seq_of-snoc (d ∷ events) e

module _ (x : Externals) (k : Codec) where
  pub AreNumbered-snoc :
      (session_id : String) (from m : ℕ) (events : List EventEnvelope) (e : EventEnvelope)
      → AreNumbered x session_id from events
      → m ≡ from + length events
      → validate x e ≡ ok tt
      → e.session_id ≡ session_id
      → e.seq ≡ m
      → m < u64_max
      → AreNumbered x session_id from (events ++ e ∷ [])
  AreNumbered-snoc session_id from m [] e good end valid same at room =
      (valid, same, omega (arith, at, end), omega (arith, end, room), tt)
  AreNumbered-snoc session_id from m (d ∷ events) e good end valid same at room = (
    good.0,
    good.1,
    good.2,
    good.3,
    AreNumbered-snoc session_id (suc from) m events e good.4 (omega (arith, end)) valid same at
        room,
  )

  pub bytes_of-snoc :
      (events : List EventEnvelope) (e : EventEnvelope)
      → bytes_of k (events ++ e ∷ []) ≡ bytes_of k events ++ line_of k (event e)
  bytes_of-snoc [] e = append-nil (line_of k (event e))
  bytes_of-snoc (d ∷ events) e =
      ap (λ z. line_of k (event d) ++ z) (bytes_of-snoc events e)
      ∙ sym (append_assoc (line_of k (event d)) (bytes_of k events) (line_of k (event e)))

  -- The open segment holds its header and the events `own`.
  pub record IsWritten (st : SegmentStore) (s : OpenSegment) (own : List EventEnvelope)
      : Type 0 where
    pub head : Header
    pub head_ok : IsHeader x k head
    pub of_session : head.session_id ≡ st.session_id
    pub linked : head.previous_segment_sha256 ≡ st.previous_segment_sha256
    pub head_at : head.segment_index ≡ st.next_segment_index
    pub at : s.segment_index ≡ st.next_segment_index
    pub content : s.content ≡ line_of k (header head) ++ bytes_of k own
    pub count : s.event_count ≡ length own
    pub first : s.first_seq ≡ first_seq_of own
    pub last : s.last_seq ≡ last_seq_of own

  abbrev pub IsCurrent : SegmentStore → Option OpenSegment → List EventEnvelope → Type 0
  IsCurrent st none own = own ≡ []
  IsCurrent st (some s) own = IsWritten st s own

  abbrev pub HasEvents : Option OpenSegment → List EventEnvelope → Type 0
  HasEvents none own = Unit
  HasEvents (some s) own = 0 < length own

  -- The store holds `events`: in its sealed files those of `done`, and in its segment those of `own`.
  pub record IsReady (st : SegmentStore) (events done own : List EventEnvelope) : Type 0 where
    pub all : events ≡ done ++ own
    pub chain :
        IsChain x k st.session_id 0 1 none st.files done st.next_segment_index
          (suc (length done))
          st.previous_segment_sha256
    pub expected : st.expected_next_seq ≡ suc (length events)
    pub few : st.next_segment_index ≤ length done
    pub numbered : AreNumbered x st.session_id (suc (length done)) own
    pub room : length events < u64_max
    pub current : IsCurrent st st.current own

  pub record Holds (session_id : String) (events : List EventEnvelope) (st : SegmentStore)
      : Type 0 where
    pub of_session : st.session_id ≡ session_id
    pub done : List EventEnvelope
    pub own : List EventEnvelope
    pub ready : IsReady st events done own
    pub kept : HasEvents st.current own
