-- ===== src/Ledger/Reread.antt =====
-- src/ledger/store.rs: what was appended and sealed is read back.
use oh_myserial.Common.{
  suc, ◌+◌, ◌<◌, ◌≡◌, ◌∙◌, refl, sym, ap, subst, true, List, [], ◌∷◌, ◌++◌, none, String, ok, arith,
  length, length-append, u64_max,
}
use mathlib.Core.List.{append_assoc, append-nil}
use oh_myserial.Ledger.Schema.{Externals, EventEnvelope, validate}
use oh_myserial.Ledger.Store.{
  Codec, SegmentStore, StoreOptions, Io, Stored, then_store, seal_current, append, checkpoint,
  fresh_store,
}
use oh_myserial.Ledger.Verify.{read_session}
use oh_myserial.Ledger.Chains.{IsChain, Gives, read_files-Gives}
use oh_myserial.Ledger.Holding.{
  OnStored, OnStored-or, OnStored-then, OnStored-map, IsCurrent, Holds,
}
use oh_myserial.Ledger.Sealing.{IsSealed, seal_current-IsSealed}
use oh_myserial.Ledger.Appending.{append-Holds}

module _ (x : Externals) (k : Codec) where
  -- Calls of `append`, each with what its file operations do.
  unfoldable pub append_all : SegmentStore → List (Io × EventEnvelope) → Stored
  append_all st [] = (st, ok tt)
  append_all st ((io, e) ∷ calls) = then_store (append k io st e) λ done. append_all done calls

  abbrev pub events_of : List (Io × EventEnvelope) → List EventEnvelope
  events_of [] = []
  events_of ((io, e) ∷ calls) = e ∷ events_of calls

  -- The clock's text of each call is a timestamp, and its event is valid.
  abbrev pub AreValid : List (Io × EventEnvelope) → Type 0
  AreValid [] = Unit
  AreValid ((io, e) ∷ calls) =
      (x.is_rfc3339 io.created_at ≡ true) × (validate x e ≡ ok tt) × AreValid calls

  fresh_store-Holds :
      (session_id : String) (options : StoreOptions)
      → Holds x k session_id [] (fresh_store session_id options)
  unfolding fresh_store
  fresh_store-Holds session_id options = record {
    of_session = refl;
    done = [];
    own = [];
    ready = record {
      all = refl;
      chain = (refl, refl, refl, refl);
      expected = refl;
      few = omega arith;
      numbered = tt;
      room = omega arith;
      current = refl;
    };
    kept = tt;
  }

  append_all-Holds :
      (st : SegmentStore) (session_id : String) (events : List EventEnvelope)
      (calls : List (Io × EventEnvelope))
      → AreValid calls
      → length events + length calls < u64_max
      → Holds x k session_id events st
      → OnStored (Holds x k session_id (events ++ events_of calls)) (append_all st calls)
  unfolding append_all
  append_all-Holds st session_id events [] good room h =
      subst (λ z. Holds x k session_id z st) (sym (append-nil events)) h
  append_all-Holds st session_id events ((io, e) ∷ calls) good room h =
      OnStored-then (Holds x k session_id (events ++ e ∷ []))
        (Holds x k session_id (events ++ (e ∷ events_of calls))) (append k io st e) _
        (append-Holds x k io st session_id events e good.0 good.1 (omega arith) h)
        λ behind more.
          subst (λ z. OnStored (Holds x k session_id z) (append_all behind calls))
            (append_assoc events (e ∷ []) (events_of calls))
            (append_all-Holds behind session_id (events ++ e ∷ []) calls good.2
              (omega (arith, length-append events (e ∷ []))) more)

  sealed_Gives :
      (session_id : String) (events : List EventEnvelope) (st : SegmentStore)
      → Holds x k session_id events st
      → st.current ≡ none
      → Gives x k session_id events (read_session x k session_id st.files)
  unfolding read_session
  sealed_Gives session_id events st h closed =
      let nothing : h.own ≡ [] = subst (λ z. IsCurrent x k st z h.own) closed h.ready.current in
      let all : events ≡ h.done =
        h.ready.all ∙ (ap (λ z. h.done ++ z) nothing ∙ append-nil h.done) in
      subst (λ z. Gives x k session_id z (read_session x k session_id st.files)) (sym all)
        (read_files-Gives x k session_id 0 1 none st.files h.done st.next_segment_index
          (suc (length h.done)) st.previous_segment_sha256
          (subst
            (λ z.
              IsChain x k z 0 1 none st.files h.done st.next_segment_index (suc (length h.done))
                st.previous_segment_sha256)
            h.of_session h.ready.chain))

  checkpoint-Gives :
      (session_id : String) (events : List EventEnvelope) (io : Io) (st : SegmentStore)
      → Holds x k session_id events st
      → OnStored
          (λ d. Gives x k session_id events (read_session x k session_id d.files))
          (checkpoint k io st)
  unfolding checkpoint
  checkpoint-Gives session_id events io st h =
      OnStored-or (λ d. Gives x k session_id events (read_session x k session_id d.files))
        st.degraded _ _ _
        (OnStored-or (λ d. Gives x k session_id events (read_session x k session_id d.files))
          st.sealed _ _ _
          (OnStored-map (IsSealed x k io session_id events)
            (λ d. Gives x k session_id events (read_session x k session_id d.files))
            (seal_current k io st) (λ d is. sealed_Gives session_id events d is.0 is.1)
            (seal_current-IsSealed x k io st session_id events h)))

  -- A new store that appends fewer than u64::MAX valid events and then makes a checkpoint, all with
  -- success and over whatever segments it starts, has written files of which a verified read of the
  -- session gives back exactly these events, in order.
  pub append_all-read_session :
      (session_id : String) (options : StoreOptions) (calls : List (Io × EventEnvelope)) (io : Io)
      (st : SegmentStore)
      → AreValid calls
      → length calls < u64_max
      → then_store (append_all (fresh_store session_id options) calls) (checkpoint k io)
        ≡ (st, ok tt)
      → Gives x k session_id (events_of calls) (read_session x k session_id st.files)
  append_all-read_session session_id options calls io st good room ran =
      subst
        (OnStored λ d. Gives x k session_id (events_of calls) (read_session x k session_id d.files))
        ran
        (OnStored-then (Holds x k session_id (events_of calls))
          (λ d. Gives x k session_id (events_of calls) (read_session x k session_id d.files))
          (append_all (fresh_store session_id options) calls) (checkpoint k io)
          (append_all-Holds (fresh_store session_id options) session_id [] calls good (omega arith)
            (fresh_store-Holds session_id options))
          (λ behind h. checkpoint-Gives session_id (events_of calls) io behind h))
