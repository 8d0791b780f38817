-- ===== src/Ledger/Chains.antt =====
-- src/ledger/store.rs: sealed files that follow each other are read back as one session.
use oh_myserial.Common.{
  ℕ, suc, ◌+◌, ◌<◌, ◌≡◌, ◌∙◌, refl, sym, ap, subst, true, List, [], ◌∷◌, ◌++◌, Option, some, String,
  Result, ok, bind-ok, guard-ok, arith, eq_iff, ==_iff, str_eq, length, saturating_add, u64_max,
}
use mathlib.Core.List.{append_assoc, append-nil}
use oh_myserial.Ledger.Schema.{Externals, EventEnvelope}
use oh_myserial.Ledger.Store.{Codec, Header, Footer}
use oh_myserial.Ledger.Verify.{ReadError, SessionRead, check_seqs, read_files, verify_segment_file}
use oh_myserial.Ledger.Segments.{
  AreNumbered, IsHeader, IsFooter, segment_bytes, verified, verify_segment_file-ok,
  text_opt_eq_refl,
}

str_eq-same : (s t : String) → s ≡ t → str_eq s t ≡ true
str_eq-same s t same = ground (arith, eq_iff s t, same)

module _ (x : Externals) (k : Codec) (session_id : String) where
  -- A file of the events `own`, numbered from `n`, that follows the file with the hash `before`.
  pub record IsLink (i n : ℕ) (before : Option String) (index : ℕ) (bytes : List ℕ)
      (own : List EventEnvelope) : Type 0 where
    pub head : Header
    pub foot : Footer
    pub named : index ≡ i
    pub at : head.segment_index ≡ i
    pub of_session : head.session_id ≡ session_id
    pub linked : head.previous_segment_sha256 ≡ before
    pub is_bytes : bytes ≡ segment_bytes x k head own foot
    pub head_ok : IsHeader x k head
    pub foot_ok : IsFooter x k head own foot
    pub numbered : AreNumbered x session_id n own
    pub bounded : i < u64_max

  -- Files from index `i` and number `n` on, up to index `j` and number `m`.
  abbrev pub IsChain :
      ℕ
      → ℕ
      → Option String
      → List (ℕ × List ℕ)
      → List EventEnvelope
      → ℕ
      → ℕ
      → Option String
      → Type 0
  IsChain i n before [] events j m after = (events ≡ []) × (j ≡ i) × (m ≡ n) × (after ≡ before)
  IsChain i n before ((index, bytes) ∷ files) events j m after =
      (own : List EventEnvelope) × (more : List EventEnvelope) × (events ≡ own ++ more)
      × IsLink i n before index bytes own
      × IsChain (suc i) (n + length own) (some (k.sha256 bytes)) files more j m after

  check_seqs-AreNumbered :
      (n m : ℕ) (events : List EventEnvelope)
      → AreNumbered x session_id n events
      → m ≡ n + length events
      → check_seqs n events ≡ ok m
  unfolding check_seqs
  check_seqs-AreNumbered n m [] good e = ap ok (omega arith)
  check_seqs-AreNumbered n m (e ∷ events) good at =
      guard-ok ReadError.sequence_mismatch _ ((==_iff e.seq n).1 good.2)
      ∙ (ap (λ z. check_seqs z events) (omega (arith, good.3))
          ∙ check_seqs-AreNumbered (suc n) m events good.4 (omega arith))

  -- The verification of a link.
  linked_verified :
      (i n : ℕ) (before : Option String) (index : ℕ) (bytes : List ℕ) (own : List EventEnvelope)
      (l : IsLink i n before index bytes own)
      → verify_segment_file x k bytes ≡ ok (verified x k l.head own l.foot)
  linked_verified i n before index bytes own l =
      ap (verify_segment_file x k) l.is_bytes
      ∙ verify_segment_file-ok x k l.head own l.foot n l.head_ok l.foot_ok
          (subst (λ z. AreNumbered x z n own) (sym l.of_session) l.numbered)

  -- What a read of a session gives back.
  abbrev pub Gives : List EventEnvelope → Result SessionRead ReadError → Type 0
  Gives events r = (read : SessionRead) × (r ≡ ok read) × (read.events ≡ events)

  read_link :
      (i n : ℕ) (before : Option String) (index : ℕ) (bytes : List ℕ)
      (own more : List EventEnvelope) (files : List (ℕ × List ℕ))
      → IsLink i n before index bytes own
      → Gives more
          (read_files x k session_id (suc i) (n + length own) (some (k.sha256 bytes)) files)
      → Gives (own ++ more) (read_files x k session_id i n before ((index, bytes) ∷ files))
  unfolding read_files
  read_link i n before index bytes own more files l (read, done, same) =
      let hash = k.sha256 (segment_bytes x k l.head own l.foot) in
      let read_on : read_files x k session_id (saturating_add i 1) (n + length own) (some hash)
            files
          ≡ ok read =
        ap (λ z. read_files x k session_id z (n + length own) (some hash) files)
          (omega (arith, l.bounded))
        ∙ (ap (λ z. read_files x k session_id (suc i) (n + length own) (some (k.sha256 z)) files)
              (sym l.is_bytes)
            ∙ done) in
      (
        record {
          events = own ++ read.events;
          segments = (verified x k l.head own l.foot).verification ∷ read.segments;
        },
        guard-ok ReadError.index_mismatch _ ((==_iff index i).1 l.named)
            ∙ bind-ok (verified x k l.head own l.foot) _
                (linked_verified i n before index bytes own l)
                (guard-ok ReadError.session_mismatch _
                    (str_eq-same l.head.session_id session_id l.of_session)
                  ∙ (guard-ok ReadError.index_mismatch _
                        ((==_iff l.head.segment_index index).1 (l.at ∙ sym l.named))
                      ∙ (guard-ok ReadError.chain_mismatch _
                            (text_opt_eq_refl x k l.head.previous_segment_sha256 before l.linked)
                          ∙ bind-ok (n + length own) _
                              (check_seqs-AreNumbered n (n + length own) own l.numbered refl)
                              (bind-ok read _ read_on refl)))),
        ap (λ z. own ++ z) same,
      )

  pub read_files-Gives :
      (i n : ℕ) (before : Option String) (files : List (ℕ × List ℕ)) (events : List EventEnvelope)
      (j m : ℕ) (after : Option String)
      → IsChain i n before files events j m after
      → Gives events (read_files x k session_id i n before files)
  unfolding read_files
  read_files-Gives i n before [] events j m after c =
      (record { events = []; segments = [] }, refl, sym c.0)
  read_files-Gives i n before ((index, bytes) ∷ files) events j m after (own, more, all, l, c) =
      subst (λ z. Gives z (read_files x k session_id i n before ((index, bytes) ∷ files))) (sym all)
        (read_link i n before index bytes own more files l (
          read_files-Gives (suc i) (n + length own) (some (k.sha256 bytes)) files more j m after c))

  link-IsChain :
      (i n : ℕ) (before : Option String) (index : ℕ) (bytes : List ℕ) (own : List EventEnvelope)
      → IsLink i n before index bytes own
      → IsChain i n before
          ((index, bytes) ∷ [])
          own
          (suc i)
          (n + length own)
          (some (k.sha256 bytes))
  link-IsChain i n before index bytes own l =
      (own, [], sym (append-nil own), l, (refl, refl, refl, refl))

  -- One more file at the end.
  pub IsChain-snoc :
      (i n : ℕ) (before : Option String) (files : List (ℕ × List ℕ)) (events : List EventEnvelope)
      (j m : ℕ) (after : Option String) (index : ℕ) (bytes : List ℕ) (own : List EventEnvelope)
      → IsChain i n before files events j m after
      → IsLink j m after index bytes own
      → IsChain i n before
          (files ++ (index, bytes) ∷ [])
          (events ++ own)
          (suc j)
          (m + length own)
          (some (k.sha256 bytes))
  IsChain-snoc i n before [] events j m after index bytes own c l = (
    own,
    [],
    ap (λ z. z ++ own) c.0 ∙ sym (append-nil own),
    subst (λ z. IsLink z n before index bytes own) c.1
        (subst (λ z. IsLink j z before index bytes own) c.2
          (subst (λ z. IsLink j m z index bytes own) c.3 l)),
    (refl, ap suc c.1, ap (λ z. z + length own) c.2, refl),
  )
  IsChain-snoc i n before ((index', bytes') ∷ files) events j m after index bytes own c l =
      let (first, more, all, link, rest) = c in
      (
        first,
        more ++ own,
        ap (λ z. z ++ own) all ∙ append_assoc first more own,
        link,
        IsChain-snoc (suc i) (n + length first) (some (k.sha256 bytes')) files more j m after index
            bytes own rest l,
      )
