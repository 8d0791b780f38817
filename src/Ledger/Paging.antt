-- ===== src/Ledger/Paging.antt =====
-- src/ledger/mod.rs: the pages of `query` are the matching events in order, none skipped or
-- repeated, and a page says whether it lacks evicted events and whether more follow.
use oh_myserial.Common.{
  ℕ, suc, ◌+◌, ◌-◌, ◌≤◌, ◌<◌, ◌≡◌, ◌↔◌, refl, inl, subst, Bool, true, ◌&&◌, List, [], ◌∷◌, arith,
  ltb, leb, is_none_or, length, take, drop, any, u64_max, saturating_add,
}
use oh_myserial.Ledger.Schema.{Externals}
use oh_myserial.Ledger.Filter.{matches}
use oh_myserial.Ledger.State.{Ledger, RetainedEvent}
use oh_myserial.Ledger.Query.{EventQuery, effective_limit, scan, query, unwrap_or, oldest_seq}
use oh_myserial.Ledger.Ring.{Consecutive}
use oh_myserial.Ledger.Invariant.{IsValid}
use oh_myserial.Ledger.Pages.{found, scan-IsPage}

effective_limit-pos : (limit : ℕ) → 0 < effective_limit limit
unfolding effective_limit
effective_limit-pos limit = ground arith

-- The test of `incomplete`: an event behind the cursor is no longer in the ring.
incomplete_iff :
    (after newest evicted : ℕ) (ring : List RetainedEvent)
    → Consecutive (suc evicted) ring
    → evicted + length ring ≡ newest
    → newest ≤ u64_max
    → after < u64_max
    → ((leb (saturating_add after 1) newest
          && is_none_or (oldest_seq ring) (λ seq. ltb (saturating_add after 1) seq))
        ≡ true)
      ↔ (after < evicted)
incomplete_iff after newest evicted [] c h top low = ground arith
incomplete_iff after newest evicted (r ∷ rest) c h top low = ground arith

module _ (x : Externals) (q : EventQuery) where
  -- The loop from its start.
  scan_page :
      (limit n : ℕ) (ring : List RetainedEvent)
      → Consecutive n ring
      → 0 < limit
      → let page = scan x q limit ring [] q.after_seq in
        (page.0 ≡ take limit (found x q q.after_seq ring))
        × (found x q page.1 ring ≡ drop limit (found x q q.after_seq ring))
  scan_page limit n ring c room =
      let page = scan-IsPage x q limit ring n [] q.after_seq c room (omega arith) (inl refl) in
      let all_left : limit - 0 ≡ limit = omega arith in
      (
        subst (λ z. (scan x q limit ring [] q.after_seq).0 ≡ take z (found x q q.after_seq ring))
            all_left page.shown,
        subst
            (λ z.
              found x q (scan x q limit ring [] q.after_seq).1 ring
              ≡ drop z (found x q q.after_seq ring))
            all_left page.rest_of,
      )

  -- The test of `has_more`.
  abbrev more : ℕ → ℕ → List RetainedEvent → Bool
  more cursor upper =
      any (λ r. ltb cursor r.event.seq && leb r.event.seq upper && matches x q.filter r.event)

  more-found :
      (cursor n newest : ℕ) (ring : List RetainedEvent)
      → Consecutive n ring
      → n + length ring ≤ suc newest
      → (more cursor (unwrap_or q.through_seq newest) ring ≡ true)
        ↔ (0 < length (found x q cursor ring))
  more-found cursor n newest [] c h = ground arith
  more-found cursor n newest (r ∷ rest) c h =
      ground (arith, more-found cursor (suc n) newest rest c.1)

  -- On a valid ledger, from a cursor below the largest u64, a page shows the first events asked for, as many as its limit, in order; a
  -- query behind its cursor finds exactly the others; it reports more exactly when there are
  -- others; and it reports itself incomplete exactly when an event behind `after_seq` was evicted.
  pub query_page :
      {S : Type 0} (l : Ledger S)
      → IsValid l
      → q.after_seq < u64_max
      → let page = query x l q in
        let limit = effective_limit q.limit in
        (page.events ≡ take limit (found x q q.after_seq l.ring))
        × (found x q page.next_after_seq l.ring ≡ drop limit (found x q q.after_seq l.ring))
        × ((page.has_more ≡ true) ↔ (0 < length (found x q page.next_after_seq l.ring)))
        × ((page.incomplete ≡ true) ↔ (q.after_seq < l.evicted_events))
  unfolding query
  query_page l v low =
      let (shown, others) =
        scan_page (effective_limit q.limit) (suc l.evicted_events) l.ring v.ring_ok.consecutive
          (effective_limit-pos q.limit) in
      (
        shown,
        others,
        more-found _ (suc l.evicted_events) l.newest_seq l.ring v.ring_ok.consecutive (omega arith),
        incomplete_iff q.after_seq l.newest_seq l.evicted_events l.ring v.ring_ok.consecutive
            v.accounted v.newest_le low,
      )
