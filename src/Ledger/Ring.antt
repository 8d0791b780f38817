-- ===== src/Ledger/Ring.antt =====
-- src/ledger/mod.rs: what the bounded ring keeps: the newest events, consecutive, within both limits.
use oh_myserial.Common.{
  ℕ, suc, ◌+◌, ◌-◌, ◌≤◌, ◌≡◌, refl, List, [], ◌∷◌, ◌++◌, arith, length, length-append, u64_max,
  saturating_add,
}
use oh_myserial.Ledger.Schema.{EventEnvelope, Externals}
use oh_myserial.Ledger.State.{MemoryOptions, RetainedEvent, Ring, evict, retain}

-- The sequence numbers go up by one from `n`.
abbrev pub Consecutive : ℕ → List RetainedEvent → Type 0
Consecutive n [] = Unit
Consecutive n (e ∷ rest) = (e.event.seq ≡ n) × Consecutive (suc n) rest

abbrev pub total : List RetainedEvent → ℕ
total [] = 0
total (e ∷ rest) = e.bytes + total rest

total-append : (xs ys : List RetainedEvent) → total (xs ++ ys) ≡ total xs + total ys
total-append [] ys = omega arith
total-append (e ∷ xs) ys = omega (arith, total-append xs ys)

Consecutive-append :
    (n : ℕ) (xs : List RetainedEvent) (e : RetainedEvent)
    → Consecutive n xs
    → e.event.seq ≡ n + length xs
    → Consecutive n (xs ++ e ∷ [])
Consecutive-append n [] e c h = (omega arith, tt)
Consecutive-append n (y ∷ xs) e c h = (c.0, Consecutive-append (suc n) xs e c.1 (omega arith))

module _ (m : MemoryOptions) where
  pub record IsRing (r : Ring) : Type 0 where
    pub consecutive : Consecutive (suc r.evicted) r.events
    pub few : length r.events ≤ m.max_events
    pub small : r.bytes ≤ m.max_bytes
    pub exact : r.bytes ≡ total r.events

  evict-IsRing :
      (events : List RetainedEvent) (bytes evicted : ℕ)
      → Consecutive (suc evicted) events
      → evicted + length events ≤ u64_max
      → bytes ≡ total events
      → IsRing (evict m events bytes evicted)
        × ((evict m events bytes evicted).evicted + length (evict m events bytes evicted).events
            ≡ evicted + length events)
  unfolding evict
  evict-IsRing [] bytes evicted c h e = (omega arith, refl)
  evict-IsRing (r ∷ rest) bytes evicted c h e =
      ground (arith, evict-IsRing rest (bytes - r.bytes) (saturating_add evicted 1))

  module _ (x : Externals) (small_ring : m.max_bytes ≤ 9223372036854775807) where
    -- Under a byte limit of at most isize::MAX, a ring that takes the next event, whose number
    -- is a u64, is consecutive and within both limits again, and every number up to that event
    -- is in it or counted as evicted.
    pub retain-IsRing :
        (r : Ring) (event : EventEnvelope)
        → IsRing r
        → event.seq ≡ suc (r.evicted + length r.events)
        → event.seq ≤ u64_max
        → IsRing (retain x m r event)
          × ((retain x m r event).evicted + length (retain x m r event).events ≡ event.seq)
    unfolding retain
    retain-IsRing r event v h top =
        let e : RetainedEvent = record { event = event; bytes = x.encoded_len event } in
        ground (
          arith,
          evict-IsRing (r.events ++ e ∷ []) (saturating_add r.bytes (x.encoded_len event)) r.evicted
              (Consecutive-append (suc r.evicted) r.events e v.consecutive (omega arith)),
          length-append r.events (e ∷ []),
          total-append r.events (e ∷ []),
          x.encoded_len-le event,
        )
