-- ===== src/Examples/Evidence.antt =====
-- The ledger and the broker's steps.
use oh_myserial.Common.{
  ℕ, ◌+◌, ◌≡◌, ◌<◌, ◌↔◌, refl, true, [], ◌∷◌, none, some, ok, arith, length, take, drop, OnOk,
}
use oh_myserial.Ledger.Schema.{EventEnvelope, new_event}
use oh_myserial.Ledger.State.{Ledger, RetainedEvent, retain, ring_of}
use oh_myserial.Ledger.Operations.{append}
use oh_myserial.Ledger.Query.{EventQuery, query, effective_limit}
use oh_myserial.Ledger.Ring.{IsRing, retain-IsRing}
use oh_myserial.Ledger.Invariant.{IsValid, append-IsValid}
use oh_myserial.Ledger.Open.{LedgerOptions, open_ledger, open_ledger-IsValid}
use oh_myserial.Ledger.Evidence.{recorded_by, Evidence, append-Evidence}
use oh_myserial.Ledger.Pages.{found}
use oh_myserial.Ledger.Paging.{query_page}
use oh_myserial.Broker.State.{Broker}
use oh_myserial.Broker.Events.{new_with_ledger, attach_serial_control, set_port_status}
use oh_myserial.Broker.Steps.{
  registers, unregisters, attaches_owner, keeps_history, port_changes, Reaches, stays, goes,
  reached-IsValid,
}
use oh_myserial.Broker.Rx.{keep_history}
use oh_myserial.Broker.Clients.{unregister_client, register_client_with_primary_eligibility}
use oh_myserial.Examples.Fixtures.{
  externals, counting_store, small_memory, empty_ledger, empty_ledger-IsValid, noon, note,
  line_policy, port_up, port_down,
}

append-IsValid_example : IsValid (append externals counting_store empty_ledger 1 note noon).0
append-IsValid_example =
    append-IsValid externals counting_store empty_ledger 1 note noon empty_ledger-IsValid

append-Evidence_example :
    Evidence externals counting_store empty_ledger
      (append externals counting_store empty_ledger 1 note noon).0
      1
      note
      (recorded_by (append externals counting_store empty_ledger 1 note noon).1)
append-Evidence_example = append-Evidence externals counting_store empty_ledger 1 note noon

abbrev event_of : ℕ → EventEnvelope
event_of seq = new_event "session" seq "2024-01-01T12:00:00Z" 0 1 note

abbrev kept : ℕ → RetainedEvent
kept seq = record { event = event_of seq; bytes = 100 }

-- The ring of two events is full; the first event is gone.
abbrev full_ledger : Ledger ℕ
full_ledger = record empty_ledger {
  next_seq = 4;
  newest_seq = 3;
  ring = kept 2 ∷ kept 3 ∷ [];
  ring_bytes = 200;
  evicted_events = 1;
}

full_ledger-IsRing : IsRing small_memory (ring_of full_ledger)
unfolding new_event
full_ledger-IsRing = ground arith

full_ledger-IsValid : IsValid full_ledger
full_ledger-IsValid = record {
  ring_ok = full_ledger-IsRing;
  accounted = refl;
  next = refl;
  newest_le = ground arith;
  memory_small = ground arith;
}

retain-IsRing_example :
    IsRing small_memory (retain externals small_memory (ring_of full_ledger) (event_of 4))
    × ((retain externals small_memory (ring_of full_ledger) (event_of 4)).evicted
          + length (retain externals small_memory (ring_of full_ledger) (event_of 4)).events
        ≡ (event_of 4).seq)
unfolding new_event
retain-IsRing_example =
    retain-IsRing small_memory externals (ground arith) (ring_of full_ledger) (event_of 4)
      full_ledger-IsRing refl (ground arith)

abbrev from_start : EventQuery
from_start = record {
  after_seq = 0;
  through_seq = none;
  limit = 1;
  filter = record {
    event_types = [];
    connection_epoch = none;
    actor = none;
    contains_bytes = none;
  };
}

query_page_example :
    ((query externals full_ledger from_start).events
      ≡ take (effective_limit 1) (found externals from_start 0 full_ledger.ring))
    × (found externals from_start
          (query externals full_ledger from_start).next_after_seq
          full_ledger.ring
        ≡ drop (effective_limit 1) (found externals from_start 0 full_ledger.ring))
    × (((query externals full_ledger from_start).has_more ≡ true) ↔ (
        0
        < length (
            found externals from_start
              (query externals full_ledger from_start).next_after_seq
              full_ledger.ring)))
    × (((query externals full_ledger from_start).incomplete ≡ true) ↔ (0 < 1))
query_page_example = query_page externals from_start full_ledger full_ledger-IsValid (ground arith)

abbrev on_disk : LedgerOptions
on_disk = record {
  session_id = "session";
  memory = small_memory;
  stream_capacity = 8;
  directory = some "/var/lib/ledger";
}

open_ledger-IsValid_example :
    OnOk (open_ledger externals counting_store on_disk 0 (ok (1, event_of 1 ∷ []))) IsValid
unfolding new_event
open_ledger-IsValid_example =
    open_ledger-IsValid externals counting_store on_disk 0 1 (event_of 1 ∷ []) (ground arith)
      (ground arith) (refl, tt)

abbrev started : Broker ℕ
started = new_with_ledger line_policy port_down 4 empty_ledger

abbrev connected_once : Broker ℕ
connected_once = set_port_status externals counting_store started port_up noon

abbrev with_client : Broker ℕ
with_client =
    register_client_with_primary_eligibility externals counting_store connected_once "a" "alice"
      "pty" true true none true noon

with_client-reached : Reaches externals counting_store started with_client
with_client-reached =
    goes connected_once with_client (goes started connected_once stays (port_changes port_up noon))
      (registers "a" "alice" "pty" true true none true noon)

-- The owner's channel is there, bytes arrive and the client leaves before their delivery.
abbrev left_early : Broker ℕ
left_early =
    unregister_client externals counting_store
      (keep_history (attach_serial_control with_client) (104 ∷ 105 ∷ [])) "a" noon

left_early-reached : Reaches externals counting_store started left_early
left_early-reached =
    goes _ left_early
      (goes _ _ (goes _ _ with_client-reached attaches_owner) (keeps_history (104 ∷ 105 ∷ [])))
      (unregisters "a" noon)

reached-IsValid_example : oh_myserial.Broker.Invariant.IsValid left_early
reached-IsValid_example =
    reached-IsValid externals counting_store line_policy port_down 4 empty_ledger left_early
      empty_ledger-IsValid left_early-reached
