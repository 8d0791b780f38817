-- ===== src/Ledger/Query.antt =====
-- src/ledger/mod.rs: `Ledger::query`.
use oh_myserial.Common.{
  ℕ, ◌-◌, Bool, true, false, ◌&&◌, List, [], ◌∷◌, ◌++◌, Option, none, some, ltb, leb, ◌==◌,
  if◌then◌else◌, min, saturating_add, length, any, is_some_and, is_none_or,
}
use oh_myserial.Ledger.Schema.{EventEnvelope, Externals}
use oh_myserial.Ledger.Filter.{EventFilter, matches}
use oh_myserial.Ledger.State.{Ledger, RetainedEvent}

pub record EventQuery : Type 0 where
  pub after_seq : ℕ
  pub through_seq : Option ℕ
  pub limit : ℕ
  pub filter : EventFilter

pub record QueryPage : Type 0 where
  pub events : List EventEnvelope
  pub incomplete : Bool
  pub missing_through_seq : Option ℕ
  pub oldest_available_seq : Option ℕ
  pub newest_seq : ℕ
  pub next_after_seq : ℕ
  pub has_more : Bool

abbrev pub default_query_limit : ℕ
default_query_limit = 1000

abbrev pub max_query_limit : ℕ
max_query_limit = 100000

unfoldable pub effective_limit : ℕ → ℕ
effective_limit limit = if limit == 0 then default_query_limit else min limit max_query_limit

abbrev pub oldest_seq : List RetainedEvent → Option ℕ
oldest_seq [] = none
oldest_seq (e ∷ rest) = some e.event.seq

abbrev pub unwrap_or : Option ℕ → ℕ → ℕ
unwrap_or none d = d
unwrap_or (some n) d = n

module _ (x : Externals) where
  -- The loop over the ring: the events found so far and the cursor.
  unfoldable pub scan :
      EventQuery → ℕ → List RetainedEvent → List EventEnvelope → ℕ → List EventEnvelope × ℕ
  scan q limit [] events cursor = (events, cursor)
  scan q limit (r ∷ rest) events cursor = elim (leb r.event.seq q.after_seq) [
    | true ↦ scan q limit rest events cursor
    | false ↦ elim (is_some_and q.through_seq (λ through. ltb through r.event.seq)) [
      | true ↦ (events, cursor)
      | false ↦ elim (matches x q.filter r.event) [
        | false ↦ scan q limit rest events r.event.seq
        | true ↦ elim (length (events ++ r.event ∷ []) == limit) [
          | true ↦ (events ++ r.event ∷ [], r.event.seq)
          | false ↦ scan q limit rest (events ++ r.event ∷ []) r.event.seq
        ]
      ]
    ]
  ]

  unfoldable pub query : {S : Type 0} → Ledger S → EventQuery → QueryPage
  unfolding scan effective_limit
  query l q =
      let oldest = oldest_seq l.ring in
      let requested_next = saturating_add q.after_seq 1 in
      let incomplete =
        leb requested_next l.newest_seq && is_none_or oldest (λ seq. ltb requested_next seq) in
      let (events, cursor) = scan q (effective_limit q.limit) l.ring [] q.after_seq in
      let upper = unwrap_or q.through_seq l.newest_seq in
      record {
        events = events;
        incomplete = incomplete;
        missing_through_seq =
            if incomplete
            then some (elim oldest [ none ↦ l.newest_seq | some seq ↦ seq - 1 ])
            else none;
        oldest_available_seq = oldest;
        newest_seq = l.newest_seq;
        next_after_seq = cursor;
        has_more =
            any (λ r. ltb cursor r.event.seq && leb r.event.seq upper && matches x q.filter r.event)
              l.ring;
      }
