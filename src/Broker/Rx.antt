-- ===== src/Broker/Rx.antt =====
-- src/broker.rs: bytes from the device, their history and their fan-out. While a delivery blocks,
-- the other threads work on the blocked queue only: what they do is an argument, for each client.
use oh_myserial.Common.{
  ℕ, ◌+◌, Bool, true, false, List, [], ◌∷◌, ◌++◌, Option, none, some, String, if◌then◌else◌, leb,
  ltb, length, fetch_add,
}
use oh_myserial.Common.Text.{◌^^◌, show}
use oh_myserial.Common.Map.{update}
use oh_myserial.Policy.{SlowClientPolicy}
use oh_myserial.Fanout.{
  Bytes, ClientFanout, FanoutResult, queued, dropped_oldest, dropped_newest, blocked_then_queued,
  disconnected, already_closed, Wake, Enqueued, enqueue,
}
use oh_myserial.Ledger.Schema.{
  Externals, rx, gap, from_bytes, client_delivery, rx_observation, not_delivered, unknown,
}
use oh_myserial.Ledger.State.{EventStore, Moment}
use oh_myserial.Broker.State.{Broker, ClientId, ClientSlot, Stats}
use oh_myserial.Broker.Events.{log_event}
use oh_myserial.Broker.Clients.{unregister_client}

-- One byte goes into the history; at the cap the oldest goes out.
abbrev pub pop_front : List ℕ → List ℕ
pop_front [] = []
pop_front (b ∷ rest) = rest

unfoldable pub push_history : ℕ → List ℕ → List ℕ → List ℕ
push_history cap history [] = history
push_history cap history (b ∷ rest) =
    push_history cap ((if leb cap (length history) then pop_front history else history) ++ b ∷ [])
      rest

-- The counters of one delivery to all clients.
pub record Delivery : Type 0 where
  pub drop_oldest : ℕ
  pub drop_newest : ℕ
  pub block_events : ℕ
  pub disconnects : ℕ
  pub delivery_gaps : List ClientId
  pub dead : List ClientId

abbrev pub no_delivery : Delivery
no_delivery = record {
  drop_oldest = 0;
  drop_newest = 0;
  block_events = 0;
  disconnects = 0;
  delivery_gaps = [];
  dead = [];
}

abbrev from_bool : Bool → ℕ
from_bool true = 1
from_bool false = 0

-- The arms of the match on one result.
unfoldable pub tally : Delivery → ClientId → FanoutResult → Delivery
tally d id queued = d
tally d id dropped_oldest = record d {
  drop_oldest = d.drop_oldest + 1;
  delivery_gaps = d.delivery_gaps ++ id ∷ [];
}
tally d id dropped_newest = record d {
  drop_newest = d.drop_newest + 1;
  delivery_gaps = d.delivery_gaps ++ id ∷ [];
}
tally d id blocked_then_queued = record d { block_events = d.block_events + 1 }
tally d id (disconnected dropped blocked) = record d {
  drop_newest = d.drop_newest + dropped;
  block_events = d.block_events + from_bool blocked;
  disconnects = d.disconnects + 1;
  delivery_gaps = if ltb 0 dropped then d.delivery_gaps ++ id ∷ [] else d.delivery_gaps;
  dead = d.dead ++ id ∷ [];
}
tally d id already_closed = record d { dead = d.dead ++ id ∷ [] }

abbrev pub Clients : Type 0
Clients = List (ClientId × ClientSlot)

-- The readable clients, in the order of the map.
unfoldable pub recipients : Clients → List (ClientId × ClientFanout)
recipients [] = []
recipients ((id, slot) ∷ rest) =
    if slot.info.can_read then (id, slot.fanout) ∷ recipients rest else recipients rest

unfoldable pub set_fanout : ClientFanout → ClientSlot → ClientSlot
set_fanout f slot = record slot { fanout = f }

unfoldable pub delivered :
    Clients → Delivery → ClientId → Option Enqueued → Option (Clients × Delivery)
unfolding set_fanout
delivered clients d id none = none
delivered clients d id (some e) =
    some (update id (set_fanout e.fanout) clients, tally d id e.result)

-- The loop over the recipients; `none` while it blocks on one of them.
unfoldable pub deliver :
    SlowClientPolicy
    → Bytes
    → (ClientId → List Wake)
    → List (ClientId × ClientFanout)
    → Clients
    → Delivery
    → Option (Clients × Delivery)
unfolding delivered
deliver policy bytes wakes [] clients d = some (clients, d)
deliver policy bytes wakes ((id, fanout) ∷ rest) clients d =
    elim (delivered clients d id (enqueue fanout bytes policy (wakes id))) [
      | none ↦ none
      | some (clients', d') ↦ deliver policy bytes wakes rest clients' d'
    ]

unfoldable pub count_delivery : Stats → Delivery → Stats
count_delivery s d =
    if ltb 0 (d.drop_oldest + d.drop_newest + d.block_events + d.disconnects)
    then record s {
      rx_drops = fetch_add s.rx_drops (d.drop_oldest + d.drop_newest);
      rx_drop_oldest = fetch_add s.rx_drop_oldest d.drop_oldest;
      rx_drop_newest = fetch_add s.rx_drop_newest d.drop_newest;
      rx_block_events = fetch_add s.rx_block_events d.block_events;
      slow_disconnects = fetch_add s.slow_disconnects d.disconnects;
    }
    else s

-- The sections of a reception under the state's lock, up to the deliveries.
unfoldable pub count_rx : {S : Type 0} → Broker S → Bytes → Broker S
count_rx b bytes = record b {
  stats = record (b.stats) { rx_bytes = fetch_add b.stats.rx_bytes (length bytes) };
}

unfoldable pub broadcast_rx : {S : Type 0} → Broker S → Bytes → Broker S
broadcast_rx b bytes = record b { rx_broadcast = b.rx_broadcast ++ bytes ∷ [] }

unfoldable pub keep_history : {S : Type 0} → Broker S → Bytes → Broker S
keep_history b bytes = record b {
  history = if ltb 0 b.history_cap then push_history b.history_cap b.history bytes else b.history;
}

module _ (x : Externals) (es : EventStore) where
  open es use {Store}

  unfoldable pub unregister_all : Broker Store → List ClientId → Moment → Broker Store
  unregister_all b [] t = b
  unregister_all b (id ∷ rest) t = unregister_all (unregister_client x es b id t) rest t

  -- The RX evidence, the counter, the broadcast and the history, up to the deliveries.
  unfoldable pub receive : Broker Store → Bytes → Moment → Broker Store
  unfolding keep_history broadcast_rx count_rx
  receive b bytes t =
      let recorded = log_event x es b b.connection_epoch (rx (from_bytes x bytes)) t in
      keep_history (broadcast_rx (count_rx recorded bytes) bytes) bytes

  unfoldable pub delivery_gap :
      Broker Store → ℕ → Bytes → Delivery → List ClientId → Moment → Broker Store
  delivery_gap b epoch bytes d [] t = b
  delivery_gap b epoch bytes d (id ∷ ids) t =
      log_event x es b epoch
        (gap (record {
          scope = client_delivery;
          certainty = not_delivered;
          reason =
              "slow-client policy dropped delivery (oldest="
              ^^ show d.drop_oldest
              ^^ ", newest="
              ^^ show d.drop_newest
              ^^ ")";
          bytes = some (from_bytes x bytes);
          actor = none;
          client_ids = id ∷ ids;
        }))
        t

  -- Behind the deliveries: the counters, the dead clients and the gap event.
  unfoldable pub settle :
      Broker Store
      → ℕ
      → Bytes
      → Option (List (ClientId × ClientSlot) × Delivery)
      → Moment
      → Option (Broker Store)
  unfolding delivery_gap
  settle b epoch bytes none t = none
  settle b epoch bytes (some (clients, d)) t =
      let counted = record b { clients = clients; stats = count_delivery b.stats d } in
      some (delivery_gap (unregister_all counted d.dead t) epoch bytes d d.delivery_gaps t)

  unfoldable pub on_device_bytes :
      Broker Store → Bytes → (ClientId → List Wake) → Moment → Option (Broker Store)
  unfolding receive settle recipients
  on_device_bytes b bytes wakes t =
      let b' = receive b bytes t in
      settle b' b.connection_epoch bytes
        (deliver b'.policy.slow_client bytes wakes (recipients b'.clients) b'.clients no_delivery) t

  unfoldable pub on_device_rx :
      Broker Store → Bytes → (ClientId → List Wake) → Moment → Option (Broker Store)
  unfolding on_device_bytes
  on_device_rx b [] wakes t = some b
  on_device_rx b (c ∷ cs) wakes t = on_device_bytes b (c ∷ cs) wakes t

  unfoldable pub on_serial_read_gap : Broker Store → String → Moment → Broker Store
  on_serial_read_gap b reason t =
      log_event x es b b.connection_epoch
        (gap (record {
          scope = rx_observation;
          certainty = unknown;
          reason = reason;
          bytes = none;
          actor = none;
          client_ids = [];
        }))
        t
