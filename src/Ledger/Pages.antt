-- ===== src/Ledger/Pages.antt =====
-- src/ledger/mod.rs: what the loop of `query` over the ring collects.
use mathlib.Core.List.{append-nil, append_assoc}
use oh_myserial.Common.{
  ℕ, suc, ◌-◌, ◌≤◌, ◌<◌, ◌≡◌, refl, sym, subst, ◌∙◌, ◌⊎◌, inl, inr, Bool, true, false, ◌&&◌, List,
  [], ◌∷◌, ◌++◌, arith, ltb, leb, ◌==◌, if◌then◌else◌, is_some_and, is_none_or, length,
  length-append, take, take-nil, drop, drop-nil, Bool-cases,
}
use oh_myserial.Ledger.Schema.{EventEnvelope, Externals}
use oh_myserial.Ledger.Filter.{matches}
use oh_myserial.Ledger.State.{RetainedEvent}
use oh_myserial.Ledger.Query.{EventQuery, scan}
use oh_myserial.Ledger.Ring.{Consecutive}

module _ (x : Externals) (q : EventQuery) where
  abbrev pub wanted : ℕ → RetainedEvent → Bool
  wanted after r =
      ltb after r.event.seq
      && is_none_or q.through_seq (λ through. leb r.event.seq through)
      && matches x q.filter r.event

  -- Every event behind `after`, up to the bound and within the filter.
  abbrev pub found : ℕ → List RetainedEvent → List EventEnvelope
  found after [] = []
  found after (r ∷ rest) = if wanted after r then r.event ∷ found after rest else found after rest

  -- The code's two tests on the sequence number.
  abbrev past : RetainedEvent → Bool
  past r = is_some_and q.through_seq (λ through. ltb through r.event.seq)

  past-wanted : (r : RetainedEvent) (after : ℕ) → past r ≡ true → wanted after r ≡ false
  past-wanted r after h = ground arith

  found_past :
      (n after : ℕ) (ring : List RetainedEvent)
      → Consecutive n ring
      → is_some_and q.through_seq (λ through. ltb through n) ≡ true
      → found after ring ≡ []
  found_past n after [] c h = refl
  found_past n after (r ∷ rest) c h = ground (arith, found_past (suc n) after rest c.1)

  found_behind :
      (n a b : ℕ) (ring : List RetainedEvent)
      → Consecutive n ring
      → a < n
      → b < n
      → found a ring ≡ found b ring
  found_behind n a b [] c h k = refl
  found_behind n a b (r ∷ rest) c h k = ground (arith, found_behind (suc n) a b rest c.1)

  module _ (limit : ℕ) where
    pub record IsPage (ring : List RetainedEvent) (events : List EventEnvelope) (cursor : ℕ)
        (page : List EventEnvelope × ℕ) : Type 0 where
      pub shown : page.0 ≡ events ++ take (limit - length events) (found q.after_seq ring)
      pub rest_of : found page.1 ring ≡ drop (limit - length events) (found q.after_seq ring)
      pub onward : cursor ≤ page.1

    module _ (r : RetainedEvent) (rest : List RetainedEvent) (events : List EventEnvelope)
        (cursor : ℕ) where
      scan_skip :
          leb r.event.seq q.after_seq ≡ true
          → scan x q limit (r ∷ rest) events cursor ≡ scan x q limit rest events cursor
      unfolding scan
      scan_skip h = rw (h, scan)

      scan-past :
          leb r.event.seq q.after_seq ≡ false
          → past r ≡ true
          → scan x q limit (r ∷ rest) events cursor ≡ (events, cursor)
      unfolding scan
      scan-past h p = rw (h, scan) (rw (p, scan))

      scan_other :
          leb r.event.seq q.after_seq ≡ false
          → past r ≡ false
          → matches x q.filter r.event ≡ false
          → scan x q limit (r ∷ rest) events cursor ≡ scan x q limit rest events r.event.seq
      unfolding scan
      scan_other h p m = rw (h, scan) (rw (p, scan) (rw (m, scan)))

      scan_last :
          leb r.event.seq q.after_seq ≡ false
          → past r ≡ false
          → matches x q.filter r.event ≡ true
          → (length (events ++ r.event ∷ []) == limit) ≡ true
          → scan x q limit (r ∷ rest) events cursor ≡ (events ++ r.event ∷ [], r.event.seq)
      unfolding scan
      scan_last h p m l = rw (h, scan) (rw (p, scan) (rw (m, scan) (rw (l, scan))))

      scan_more :
          leb r.event.seq q.after_seq ≡ false
          → past r ≡ false
          → matches x q.filter r.event ≡ true
          → (length (events ++ r.event ∷ []) == limit) ≡ false
          → scan x q limit (r ∷ rest) events cursor
            ≡ scan x q limit rest (events ++ r.event ∷ []) r.event.seq
      unfolding scan
      scan_more h p m l = rw (h, scan) (rw (p, scan) (rw (m, scan) (rw (l, scan))))

    scan-nil :
        (events : List EventEnvelope) (cursor : ℕ)
        → scan x q limit [] events cursor ≡ (events, cursor)
    unfolding scan
    scan-nil events cursor = refl

    -- One step past an event that is not shown.
    IsPage-hidden :
        (r : RetainedEvent) (rest : List RetainedEvent) (events : List EventEnvelope) (cursor c : ℕ)
        (page : List EventEnvelope × ℕ)
        → wanted q.after_seq r ≡ false
        → r.event.seq ≤ page.1
        → cursor ≤ c
        → IsPage rest events c page
        → IsPage (r ∷ rest) events cursor page
    IsPage-hidden r rest events cursor c page w s le p = record {
      shown = rw (w, found) p.shown;
      rest_of = ground (arith, p.rest_of);
      onward = omega (arith, p.onward);
    }

    IsPage-shown :
        (r : RetainedEvent) (rest : List RetainedEvent) (events : List EventEnvelope) (cursor : ℕ)
        (page : List EventEnvelope × ℕ)
        → wanted q.after_seq r ≡ true
        → length events < limit
        → cursor ≤ r.event.seq
        → IsPage rest (events ++ r.event ∷ []) r.event.seq page
        → IsPage (r ∷ rest) events cursor page
    IsPage-shown r rest events cursor page w room le p =
        let k : limit - length events ≡ suc (limit - length (events ++ r.event ∷ [])) =
          omega (arith, length-append events (r.event ∷ [])) in
        record {
          shown = rw (w, found) (rw k (p.shown ∙ append_assoc events (r.event ∷ []) _));
          rest_of = rw (w, found) (rw k (ground (arith, p.rest_of)));
          onward = omega (arith, p.onward);
        }

    IsPage-past :
        (n : ℕ) (r : RetainedEvent) (rest : List RetainedEvent) (events : List EventEnvelope)
        (cursor : ℕ)
        → Consecutive n (r ∷ rest)
        → past r ≡ true
        → IsPage (r ∷ rest) events cursor (events, cursor)
    IsPage-past n r rest events cursor c over = record {
      shown =
          rw (none_left q.after_seq, take-nil {A = EventEnvelope} (limit - length events))
            (sym (append-nil events));
      rest_of = rw (
        none_left q.after_seq,
        none_left cursor,
        drop-nil {A = EventEnvelope} (limit - length events),
      );
      onward = omega arith;
    }
      where
        none_left : (after : ℕ) → found after (r ∷ rest) ≡ []
        none_left after =
            found_past n after (r ∷ rest) c
              (subst (λ z. is_some_and q.through_seq (λ through. ltb through z) ≡ true) c.0 over)

    IsPage-full :
        (n : ℕ) (r : RetainedEvent) (rest : List RetainedEvent) (events : List EventEnvelope)
        (cursor : ℕ)
        → Consecutive n (r ∷ rest)
        → wanted q.after_seq r ≡ true
        → cursor ≤ r.event.seq
        → length (events ++ r.event ∷ []) ≡ limit
        → IsPage (r ∷ rest) events cursor (events ++ r.event ∷ [], r.event.seq)
    IsPage-full n r rest events cursor c w le full = record {
      shown = rw (w, found) (rw k refl);
      rest_of =
          rw (w, found)
            (rw k (ground (arith, found_behind (suc n) r.event.seq q.after_seq rest c.1, c.0)));
      onward = le;
    }
      where
        k : limit - length events ≡ 1
        k = omega (arith, length-append events (r.event ∷ []))

    pub scan-IsPage :
        (ring : List RetainedEvent) (n : ℕ) (events : List EventEnvelope) (cursor : ℕ)
        → Consecutive n ring
        → length events < limit
        → q.after_seq ≤ cursor
        → (cursor ≡ q.after_seq) ⊎ (cursor < n)
        → IsPage ring events cursor (scan x q limit ring events cursor)
    scan-IsPage [] n events cursor c room le at = rw (scan-nil events cursor) (record {
      shown = rw (take-nil {A = EventEnvelope} (limit - length events)) (sym (append-nil events));
      rest_of = sym (drop-nil (limit - length events));
      onward = omega arith;
    })
    scan-IsPage (r ∷ rest) n events cursor c room le at =
        elim (Bool-cases (leb r.event.seq q.after_seq)) [
          | inl before ↦ rw (scan_skip r rest events cursor before) (
              let page = scan-IsPage rest (suc n) events cursor c.1 room le (ground arith) in
              IsPage-hidden r rest events cursor cursor _ (ground arith)
                (ground (arith, page.onward)) (omega arith) page)
          | inr behind ↦ elim (Bool-cases (past r)) [
            | inl over ↦
                rw (scan-past r rest events cursor behind over)
                  (IsPage-past n r rest events cursor c over)
            | inr within ↦ elim (Bool-cases (matches x q.filter r.event)) [
              | inr miss ↦ rw (scan_other r rest events cursor behind within miss) (
                  let page =
                    scan-IsPage rest (suc n) events r.event.seq c.1 room (ground arith)
                      (inr (ground arith)) in
                  IsPage-hidden r rest events cursor r.event.seq _ (ground arith) page.onward
                    (ground arith) page)
              | inl hit ↦ elim (Bool-cases (length (events ++ r.event ∷ []) == limit)) [
                | inl full ↦ rw (scan_last r rest events cursor behind within hit full) (
                    IsPage-full n r rest events cursor c (ground arith) (ground arith)
                      (ground arith))
                | inr more ↦ rw (scan_more r rest events cursor behind within hit more) (
                    IsPage-shown r rest events cursor _ (ground arith) room (ground arith) (
                      scan-IsPage rest (suc n) (events ++ r.event ∷ []) r.event.seq c.1
                        (ground (arith, length-append events (r.event ∷ []))) (ground arith)
                        (inr (ground arith))))
              ]
            ]
          ]
        ]
