-- ===== src/Broker/Steps.antt =====
-- src/broker.rs: the broker as a state machine. A step is an operation of one task, or its part
-- between two waits, and the tasks that share a broker take steps in any order. A reception of device
-- bytes is a sequence of steps, between which the other tasks take theirs: `logs` for its evidence,
-- `counts_rx`, `broadcasts` and `keeps_history`, then `delivers` for each client, and at last
-- `counts_delivery`, `unregisters` for each dead client, and `logs` for the gap. A delivery that waits
-- under `block` is the step with which it ends: its last look at the queue, or the end of its time; on
-- the queue of a client that has left it changes nothing in the broker.
-- `device_sends` is a whole reception that no other task comes between, but for its wake-ups. Any
-- other operation that gives the state's lock up to record its event takes both in one step.
use oh_myserial.Common.{ℕ, ◌≡◌, subst, Bool, List, ◌∷◌, Option, some, String, Result, arith}
use oh_myserial.Common.Map.{lookup, update, AllValues-update, AllValues-lookup}
use oh_myserial.Policy.{Policy}
use oh_myserial.Fanout.{Bytes, Wake, Action, act, Enqueued, enqueue}
use oh_myserial.Fanout.Bounds.{act-IsValid, enqueue-IsValid as fanout-IsValid, Leaves}
use oh_myserial.Ledger.Schema.{Externals, EventPayload}
use oh_myserial.Ledger.State.{EventStore, Ledger, Moment}
use oh_myserial.Ledger.Operations.{seal, checkpoint}
use oh_myserial.Ledger.Invariant.{seal-IsValid, checkpoint-IsValid}
use oh_myserial.Broker.State.{Broker, ClientId, ClientSlot, EndpointView, PortStatus, DeviceWrite}
use oh_myserial.Broker.Events.{
  log_event, new_with_ledger, set_port_status, attach_serial_control, detach_serial_control,
  set_endpoints,
}
use oh_myserial.Broker.Clients.{register_client_with_primary_eligibility, unregister_client}
use oh_myserial.Broker.Rx.{
  on_device_rx, on_serial_read_gap, count_rx, broadcast_rx, keep_history, set_fanout, Delivery,
  count_delivery,
}
use oh_myserial.Broker.Device.{
  on_device_tx_written, on_device_tx_failed, on_device_tx_not_written, count_deny,
}
use oh_myserial.Broker.Admit.{admit_tx}
use oh_myserial.Broker.Transmit.{enqueue_write}
use oh_myserial.Broker.Exclusion.{LeaseCall, call}
use oh_myserial.Broker.Invariant.{IsValid}
use oh_myserial.Broker.Handoff.{enter_handoff, finish_handoff, expire_handoff, abort_handoff}
use oh_myserial.Broker.Requests.{
  enter_handoff-IsValid, finish_handoff-IsValid, expire_handoff-IsValid, abort_handoff-IsValid,
}
use oh_myserial.Broker.Upkeep.{
  logged, register-IsValid, unregister-IsValid, OptionValid, on_device_rx-IsValid,
  set_port_status-IsValid, count_rx-IsValid, broadcast_rx-IsValid, keep_history-IsValid,
}
use oh_myserial.Broker.Rights.{reshaped, admit_tx-IsValid, call-IsValid}

attach-IsValid : {S : Type 0} (b : Broker S) → IsValid b → IsValid (attach_serial_control b)
unfolding attach_serial_control
attach-IsValid b v = record {
  ledger_ok = v.ledger_ok;
  queues_ok = v.queues_ok;
  history_ok = v.history_ok;
  epoch_ok = v.epoch_ok;
}

detach-IsValid : {S : Type 0} (b : Broker S) → IsValid b → IsValid (detach_serial_control b)
unfolding detach_serial_control
detach-IsValid b v = record {
  ledger_ok = v.ledger_ok;
  queues_ok = v.queues_ok;
  history_ok = v.history_ok;
  epoch_ok = v.epoch_ok;
}

set_endpoints-IsValid :
    {S : Type 0} (b : Broker S) (endpoints : List EndpointView)
    → IsValid b
    → IsValid (set_endpoints b endpoints)
unfolding set_endpoints
set_endpoints-IsValid b endpoints v = record {
  ledger_ok = v.ledger_ok;
  queues_ok = v.queues_ok;
  history_ok = v.history_ok;
  epoch_ok = v.epoch_ok;
}

delivers-IsValid :
    {S : Type 0} (b : Broker S) (id : ClientId) (slot : ClientSlot) (bytes : Bytes)
    (wakes : List Wake) (e : Enqueued)
    → lookup id b.clients ≡ some slot
    → enqueue slot.fanout bytes b.policy.slow_client wakes ≡ some e
    → IsValid b
    → IsValid (record b { clients = update id (set_fanout e.fanout) b.clients })
unfolding set_fanout
delivers-IsValid b id slot bytes wakes e found end v = record {
  ledger_ok = v.ledger_ok;
  queues_ok =
      AllValues-update _ id (set_fanout e.fanout) b.clients
        (λ s w.
          subst (λ o. Leaves o (λ d. oh_myserial.Fanout.Bounds.IsValid d.fanout)) end
            (fanout-IsValid slot.fanout bytes b.policy.slow_client wakes
              (AllValues-lookup _ id slot b.clients v.queues_ok found)))
        v.queues_ok;
  history_ok = v.history_ok;
  epoch_ok = v.epoch_ok;
}

module _ (x : Externals) (es : EventStore) where
  open es use {Store}

  read_gap-IsValid :
      (b : Broker Store) (reason : String) (t : Moment)
      → IsValid b
      → IsValid (on_serial_read_gap x es b reason t)
  unfolding on_serial_read_gap
  read_gap-IsValid b reason t v = logged x es b _ _ t v

  enqueue-IsValid : (b : Broker Store) (w : DeviceWrite) → IsValid b → IsValid (enqueue_write b w)
  unfolding enqueue_write
  enqueue-IsValid b w v = reshaped b b.lock b.handoff b.stats _ v

  count_deny-IsValid : (b : Broker Store) → IsValid b → IsValid (count_deny b)
  unfolding count_deny
  count_deny-IsValid b v = reshaped b b.lock b.handoff _ b.device_queue v

  written-IsValid :
      (b : Broker Store) (w : DeviceWrite) (t : Moment)
      → IsValid b
      → IsValid (on_device_tx_written x es b w t).0
  unfolding on_device_tx_written
  written-IsValid b w t v = reshaped _ _ _ _ _ (logged x es b _ _ t v)

  failed-IsValid :
      (b : Broker Store) (w : DeviceWrite) (reason : String) (t : Moment)
      → IsValid b
      → IsValid (on_device_tx_failed x es b w reason t).0
  unfolding on_device_tx_failed
  failed-IsValid b w reason t v = logged x es b _ _ t v

  not_written-IsValid :
      (b : Broker Store) (w : DeviceWrite) (reason : String) (t : Moment)
      → IsValid b
      → IsValid (on_device_tx_not_written x es b w reason t).0
  unfolding on_device_tx_not_written
  not_written-IsValid b w reason t v = count_deny-IsValid _ (logged x es b _ _ t v)

  -- An operation, or its part between two waits.
  pub data Step (b : Broker Store) : Broker Store → Type 0 where
    registers :
        (id : ClientId) (name kind : String) (can_read can_write : Bool) (cap : Option ℕ)
        (primary_eligible : Bool) (t : Moment)
        → Step b (
            register_client_with_primary_eligibility x es b id name kind can_read can_write cap
              primary_eligible t)
    unregisters : (id : ClientId) (t : Moment) → Step b (unregister_client x es b id t)
    -- A client receives from its queue, or drops it.
    client_acts :
        (id : ClientId) (a : Action)
        → Step b (record b {
          clients = update id (λ s. record s { fanout = (act a s.fanout).0 }) b.clients;
        })
    counts_rx : (bytes : Bytes) → Step b (count_rx b bytes)
    broadcasts : (bytes : Bytes) → Step b (broadcast_rx b bytes)
    keeps_history : (bytes : Bytes) → Step b (keep_history b bytes)
    delivers :
        (id : ClientId) (slot : ClientSlot) (bytes : Bytes) (wakes : List Wake) (e : Enqueued)
        → lookup id b.clients ≡ some slot
        → enqueue slot.fanout bytes b.policy.slow_client wakes ≡ some e
        → Step b (record b { clients = update id (set_fanout e.fanout) b.clients })
    counts_delivery : (d : Delivery) → Step b (record b { stats = count_delivery b.stats d })
    device_sends :
        (bytes : Bytes) (wakes : ClientId → List Wake) (t : Moment) (b' : Broker Store)
        → on_device_rx x es b bytes wakes t ≡ some b'
        → Step b b'
    read_gap : (reason : String) (t : Moment) → Step b (on_serial_read_gap x es b reason t)
    port_changes : (status : PortStatus) (t : Moment) → Step b (set_port_status x es b status t)
    admits :
        (id : ClientId) (bytes : Bytes) (token : Option String) (atomic : Bool) (now : ℕ)
        → Step b (admit_tx b id bytes token atomic now).0
    queues : (w : DeviceWrite) → Step b (enqueue_write b w)
    denies : Step b (count_deny b)
    device_takes :
        (w : DeviceWrite) (left : List DeviceWrite)
        → b.device_queue ≡ w ∷ left
        → Step b (record b { device_queue = left })
    written : (w : DeviceWrite) (t : Moment) → Step b (on_device_tx_written x es b w t).0
    failed :
        (w : DeviceWrite) (reason : String) (t : Moment)
        → Step b (on_device_tx_failed x es b w reason t).0
    not_written :
        (w : DeviceWrite) (reason : String) (t : Moment)
        → Step b (on_device_tx_not_written x es b w reason t).0
    leases : (c : LeaseCall) (t : Moment) → Step b (call x es b c t)
    enters_handoff :
        (actor : String) (lease_token : Option String) (duration_ms : ℕ) (token : String) (now : ℕ)
        → Step b (enter_handoff b actor lease_token duration_ms token now).0
    finishes_handoff :
        (actor : String) (duration_ms epoch : ℕ) (path token : String)
        (r : Result (Unit {0}) String) (t : Moment)
        → Step b (finish_handoff x es b actor duration_ms epoch path token r t).0
    expires_handoff : (now : ℕ) → Step b (expire_handoff b now).0
    aborts_handoff : Step b (abort_handoff b)
    attaches_owner : Step b (attach_serial_control b)
    detaches_owner : Step b (detach_serial_control b)
    sets_endpoints : (endpoints : List EndpointView) → Step b (set_endpoints b endpoints)
    -- The ledger is shared with the other parts of the program.
    seals : Step b (record b { ledger = (seal x es b.ledger).0 })
    checkpoints : Step b (record b { ledger = (checkpoint x es b.ledger).0 })
    -- A line of the audit trail. Control lines and line settings change the broker by this alone,
    -- and a resumption by this behind `aborts_handoff`.
    logs :
        (epoch : ℕ) (payload : EventPayload) (t : Moment)
        → Step b (log_event x es b epoch payload t)

  pub Step-IsValid : (b b' : Broker Store) → Step b b' → IsValid b → IsValid b'
  Step-IsValid b _ (registers id name kind r w room p t) v =
      register-IsValid x es b id name kind r w room p t v
  Step-IsValid b _ (unregisters id t) v = unregister-IsValid x es b id t v
  Step-IsValid b _ (client_acts id a) v = record {
    ledger_ok = v.ledger_ok;
    queues_ok = AllValues-update _ id _ b.clients (λ s w. act-IsValid a s.fanout w) v.queues_ok;
    history_ok = v.history_ok;
    epoch_ok = v.epoch_ok;
  }
  Step-IsValid b _ (counts_rx bytes) v = count_rx-IsValid b bytes v
  Step-IsValid b _ (broadcasts bytes) v = broadcast_rx-IsValid b bytes v
  Step-IsValid b _ (keeps_history bytes) v = keep_history-IsValid b bytes v
  Step-IsValid b _ (delivers id slot bytes wakes e found end) v =
      delivers-IsValid b id slot bytes wakes e found end v
  Step-IsValid b _ (counts_delivery d) v = reshaped b b.lock b.handoff _ b.device_queue v
  Step-IsValid b b' (device_sends bytes wakes t _ e) v =
      subst (OptionValid x es) e (on_device_rx-IsValid x es b bytes wakes t v)
  Step-IsValid b _ (read_gap reason t) v = read_gap-IsValid b reason t v
  Step-IsValid b _ (port_changes status t) v = set_port_status-IsValid x es b status t v
  Step-IsValid b _ (admits id bytes token atomic now) v =
      admit_tx-IsValid b id bytes token atomic now v
  Step-IsValid b _ (queues w) v = enqueue-IsValid b w v
  Step-IsValid b _ denies v = count_deny-IsValid b v
  Step-IsValid b _ (device_takes w left e) v = reshaped b b.lock b.handoff b.stats left v
  Step-IsValid b _ (written w t) v = written-IsValid b w t v
  Step-IsValid b _ (failed w reason t) v = failed-IsValid b w reason t v
  Step-IsValid b _ (not_written w reason t) v = not_written-IsValid b w reason t v
  Step-IsValid b _ (leases c t) v = call-IsValid x es b c t v
  Step-IsValid b _ (enters_handoff actor lease_token duration_ms token now) v =
      enter_handoff-IsValid b actor lease_token duration_ms token now v
  Step-IsValid b _ (finishes_handoff actor duration_ms epoch path token r t) v =
      finish_handoff-IsValid x es b actor duration_ms epoch path token r t v
  Step-IsValid b _ (expires_handoff now) v = expire_handoff-IsValid b now v
  Step-IsValid b _ aborts_handoff v = abort_handoff-IsValid b v
  Step-IsValid b _ attaches_owner v = attach-IsValid b v
  Step-IsValid b _ detaches_owner v = detach-IsValid b v
  Step-IsValid b _ (sets_endpoints endpoints) v = set_endpoints-IsValid b endpoints v
  Step-IsValid b _ seals v = record {
    ledger_ok = seal-IsValid x es b.ledger v.ledger_ok;
    queues_ok = v.queues_ok;
    history_ok = v.history_ok;
    epoch_ok = v.epoch_ok;
  }
  Step-IsValid b _ checkpoints v = record {
    ledger_ok = checkpoint-IsValid x es b.ledger v.ledger_ok;
    queues_ok = v.queues_ok;
    history_ok = v.history_ok;
    epoch_ok = v.epoch_ok;
  }
  Step-IsValid b _ (logs epoch payload t) v = logged x es b epoch payload t v

  -- A sequence of steps.
  pub data Reaches (b : Broker Store) : Broker Store → Type 0 where
    stays : Reaches b b
    goes : (b' b'' : Broker Store) → Reaches b b' → Step b' b'' → Reaches b b''

  Reaches-IsValid : (b b' : Broker Store) → Reaches b b' → IsValid b → IsValid b'
  Reaches-IsValid b _ stays v = v
  Reaches-IsValid b _ (goes b' b'' path step) v =
      Step-IsValid b' b'' step (Reaches-IsValid b b' path v)

  started-IsValid :
      (policy : Policy) (port : PortStatus) (cap : ℕ) (ledger : Ledger Store)
      → oh_myserial.Ledger.Invariant.IsValid ledger
      → IsValid (new_with_ledger policy port cap ledger)
  unfolding new_with_ledger
  started-IsValid policy port cap ledger v = record {
    ledger_ok = v;
    queues_ok = tt;
    history_ok = ground arith;
    epoch_ok = ground arith;
  }

  -- Every broker that any sequence of the steps of `Step` reaches from a new one over a valid ledger
  -- has a valid ledger, a history within its cap, valid client queues within their capacities, and
  -- an epoch that is a u64.
  pub reached-IsValid :
      (policy : Policy) (port : PortStatus) (cap : ℕ) (ledger : Ledger Store) (b : Broker Store)
      → oh_myserial.Ledger.Invariant.IsValid ledger
      → Reaches (new_with_ledger policy port cap ledger) b
      → IsValid b
  reached-IsValid policy port cap ledger b v path =
      Reaches-IsValid _ b path (started-IsValid policy port cap ledger v)
