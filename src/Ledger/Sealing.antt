-- ===== src/Ledger/Sealing.antt =====
-- src/ledger/store.rs: sealing a segment keeps what the store holds.
use oh_myserial.Common.{
  ℕ, suc, ◌+◌, ◌<◌, ◌≡◌, ◌∙◌, refl, sym, ap, subst, not, ◌&&◌, List, [], ◌∷◌, ◌++◌, Option, none,
  some, String, arith, length, length-append, saturating_add,
}
use mathlib.Core.List.{append-nil}
use oh_myserial.Ledger.Schema.{Externals, EventEnvelope}
use oh_myserial.Ledger.Store.{
  Codec, OpenSegment, SegmentStore, Io, json_line, footer_of, seal_segment, seal_current,
  segment_schema, segment_version,
}
use oh_myserial.Ledger.Segments.{IsFooter}
use oh_myserial.Ledger.Chains.{IsLink, IsChain, IsChain-snoc}
use oh_myserial.Ledger.Holding.{
  OnStored, OnStored-or, IsWritten, IsCurrent, HasEvents, IsReady, Holds,
}

module _ (x : Externals) (k : Codec) (io : Io) where
  -- The footer of an open segment is right.
  closing_IsFooter :
      (st : SegmentStore) (s : OpenSegment) (own : List EventEnvelope) (w : IsWritten x k st s own)
      → IsFooter x k w.head own (record {
        schema = segment_schema;
        version = segment_version;
        session_id = st.session_id;
        segment_index = s.segment_index;
        event_count = s.event_count;
        first_seq = s.first_seq;
        last_seq = s.last_seq;
        content_sha256 = k.sha256 s.content;
        previous_segment_sha256 = st.previous_segment_sha256;
      })
  closing_IsFooter st s own w = record {
    schema = refl;
    version = refl;
    session = sym w.of_session;
    index = w.at ∙ sym w.head_at;
    count = w.count;
    first = w.first;
    last = w.last;
    content = ap k.sha256 w.content;
    previous = sym w.linked;
  }

  segment_IsLink :
      (st : SegmentStore) (s : OpenSegment) (events done own : List EventEnvelope)
      → IsReady x k st events done own
      → IsWritten x k st s own
      → IsLink x k st.session_id st.next_segment_index
          (suc (length done))
          st.previous_segment_sha256
          s.segment_index
          (s.content ++ json_line k io (footer_of k io st s))
          own
  unfolding json_line footer_of
  segment_IsLink st s events done own r w = record {
    head = w.head;
    foot = _;
    named = w.at;
    at = w.head_at;
    of_session = w.of_session;
    linked = w.linked;
    is_bytes = ap (λ z. z ++ json_line k io (footer_of k io st s)) w.content;
    head_ok = w.head_ok;
    foot_ok = closing_IsFooter st s own w;
    numbered = r.numbered;
    bounded = omega (arith, r.few, r.room, ap length r.all, length-append done own);
  }

  -- Sealing keeps what the store holds, and leaves no open segment.
  abbrev pub IsSealed : String → List EventEnvelope → SegmentStore → Type 0
  IsSealed session_id events st = Holds x k session_id events st × (st.current ≡ none)

  sealed_Holds :
      (st : SegmentStore) (s : OpenSegment) (session_id : String)
      (events done own : List EventEnvelope) (bytes : List ℕ)
      → st.session_id ≡ session_id
      → IsReady x k st events done own
      → IsWritten x k st s own
      → 0 < length own
      → bytes ≡ s.content ++ json_line k io (footer_of k io st s)
      → Holds x k session_id events (record st {
        current = none;
        files = st.files ++ (s.segment_index, bytes) ∷ [];
        previous_segment_sha256 = some (k.sha256 bytes);
        next_segment_index = saturating_add s.segment_index 1;
      })
  sealed_Holds st s session_id events done own bytes same r w some_events is =
      let sizes = length-append done own in
      let index : suc st.next_segment_index ≡ saturating_add s.segment_index 1 =
        omega (arith, w.at, r.few, r.room, ap length r.all, sizes) in
      let number : suc (length done) + length own ≡ suc (length (done ++ own)) =
        omega (arith, sizes) in
      record {
        of_session = same;
        done = done ++ own;
        own = [];
        ready = record {
          all = r.all ∙ sym (append-nil (done ++ own));
          chain =
              subst
                (λ z.
                  IsChain x k st.session_id 0 1 none (st.files ++ (s.segment_index, bytes) ∷ [])
                    (done ++ own) z (suc (length (done ++ own))) (some (k.sha256 bytes)))
                index
                (subst
                  (λ z.
                    IsChain x k st.session_id 0 1 none (st.files ++ (s.segment_index, bytes) ∷ [])
                      (done ++ own) (suc st.next_segment_index) z (some (k.sha256 bytes)))
                  number
                  (IsChain-snoc x k st.session_id 0 1 none st.files done st.next_segment_index
                    (suc (length done)) st.previous_segment_sha256 s.segment_index bytes own r.chain
                    (subst
                      (λ z.
                        IsLink x k st.session_id st.next_segment_index (suc (length done))
                          st.previous_segment_sha256 s.segment_index z own)
                      (sym is) (segment_IsLink st s events done own r w))));
          expected = r.expected;
          few = omega (arith, index, r.few, sizes, some_events);
          numbered = tt;
          room = r.room;
          current = refl;
        };
        kept = tt;
      }

  seal_segment-IsSealed :
      (st : SegmentStore) (session_id : String) (events : List EventEnvelope)
      (current : Option OpenSegment)
      → st.current ≡ current
      → Holds x k session_id events st
      → OnStored (IsSealed session_id events) (seal_segment k io st current)
  unfolding seal_segment
  seal_segment-IsSealed st session_id events none at h = (h, at)
  seal_segment-IsSealed st session_id events (some s) at h =
      OnStored-or (IsSealed session_id events) (not (io.footer_written && io.renamed)) _ _ _ (
        OnStored-or (IsSealed session_id events) (not io.hashed) _ _ _ (
          sealed_Holds st s session_id events h.done h.own
              (s.content ++ json_line k io (footer_of k io st s)) h.of_session h.ready
              (subst (λ z. IsCurrent x k st z h.own) at h.ready.current)
              (subst (λ z. HasEvents x k z h.own) at h.kept) refl,
          refl,
        ))

  pub seal_current-IsSealed :
      (st : SegmentStore) (session_id : String) (events : List EventEnvelope)
      → Holds x k session_id events st
      → OnStored (IsSealed session_id events) (seal_current k io st)
  unfolding seal_current
  seal_current-IsSealed st session_id events h =
      seal_segment-IsSealed st session_id events st.current refl h
