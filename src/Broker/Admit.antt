-- ===== src/Broker/Admit.antt =====
-- src/broker.rs: the admission of a client's write, the first critical section of `client_tx_inner`.
use oh_myserial.Common.{
  ℕ, Bool, true, false, not, List, [], ◌∷◌, Option, none, some, String, Result, ok, err,
  if◌then◌else◌, ltb, is_some, is_some_and, length, from_millis,
}
use oh_myserial.Common.Text.{◌^^◌, show}
use oh_myserial.Common.Map.{lookup, update}
use oh_myserial.Policy.{
  TxMode, queue_by_line, queue_by_frame, exclusive, primary_wins, Policy, active, AdmitDecision,
  allow, deny, admit_write,
}
use oh_myserial.Policy.Frames.{FrameAssembler, push}
use oh_myserial.Fanout.{Bytes}
use oh_myserial.Broker.State.{Broker, ClientId, ClientSlot, ClientInfo}
use oh_myserial.Broker.Device.{admit_context, count_deny}

-- What the first critical section of `client_tx_inner` hands to the loop over the frames.
pub record TxPlan : Type 0 where
  pub name : String
  pub primary_eligible : Bool
  pub frames : List Bytes
  pub connection_epoch : ℕ
  pub write_timeout : ℕ

-- An expired lock goes away.
unfoldable pub purge : {S : Type 0} → Broker S → ℕ → Broker S
purge b now = record b {
  lock = if is_some_and b.lock (λ l. not (active l now)) then none else b.lock;
}

whole : ℕ → String → FrameAssembler → Bytes → FrameAssembler × Result (List Bytes) String
whole max_write_bytes what a bytes = (
  a,
  if ltb max_write_bytes (length bytes)
      then err (what ^^ " write exceeds tx.max_write_bytes (" ^^ show max_write_bytes ^^ ")")
      else ok (bytes ∷ []),
)

stream_frames :
    Policy → TxMode → FrameAssembler → Bytes → FrameAssembler × Result (List Bytes) String
unfolding whole
stream_frames p queue_by_line a bytes = push a bytes p.frame_delim p.max_frame_bytes
stream_frames p queue_by_frame a bytes = push a bytes p.frame_delim p.max_frame_bytes
stream_frames p exclusive a bytes = whole p.max_write_bytes "stream" a bytes
stream_frames p primary_wins a bytes = whole p.max_write_bytes "stream" a bytes

unfoldable pub split_frames :
    Policy → Bool → FrameAssembler → Bytes → FrameAssembler × Result (List Bytes) String
unfolding whole stream_frames
split_frames p true a bytes = whole p.max_write_bytes "atomic" a bytes
split_frames p false a bytes = stream_frames p p.mode a bytes

module _ {S : Type 0} where
  abbrev pub refuse : {A : Type 0} → Broker S → String → Broker S × Result A String
  refuse b reason = (count_deny b, err reason)

  unfoldable pub plan_frames :
      Broker S → ClientInfo → Result (List Bytes) String → ℕ → Broker S × Result TxPlan String
  plan_frames b info (err reason) timeout = refuse b reason
  plan_frames b info (ok frames) timeout = (
    b,
    ok (record {
      name = info.name;
      primary_eligible = info.primary_eligible;
      frames = frames;
      connection_epoch = b.connection_epoch;
      write_timeout = timeout;
    }),
  )

  unfoldable pub plan_admitted :
      Broker S
      → ClientId
      → ClientSlot
      → Bytes
      → Bool
      → AdmitDecision
      → Broker S × Result TxPlan String
  unfolding plan_frames
  plan_admitted b id slot bytes atomic (deny reason) = refuse b reason
  plan_admitted b id slot bytes atomic allow =
      let (assembler, frames) = split_frames b.policy atomic slot.assembler bytes in
      plan_frames
        (record b { clients = update id (λ s. record s { assembler = assembler }) b.clients })
        slot.info frames (from_millis b.policy.write_timeout_ms)

  unfoldable pub plan_client :
      Broker S
      → ClientId
      → Bytes
      → Option String
      → Bool
      → ℕ
      → Option ClientSlot
      → Broker S × Result TxPlan String
  unfolding plan_admitted
  plan_client b id bytes lease_token atomic now none = (b, err "client not registered")
  plan_client b id bytes lease_token atomic now (some slot) =
      if slot.info.can_write
      then plan_admitted b id slot bytes atomic
          (admit_write (admit_context b slot.info.name slot.info.primary_eligible lease_token now))
      else refuse b "client is read-only"

  -- The checks on a state whose expired lock is gone.
  unfoldable pub plan_purged :
      Broker S → ClientId → Bytes → Option String → Bool → ℕ → Broker S × Result TxPlan String
  unfolding plan_client
  plan_purged b id bytes lease_token atomic now =
      if is_some b.handoff
      then refuse b "serial handoff is active; write was not queued"
      else if not b.port.connected
      then refuse b ("serial port '" ^^ b.port.path ^^ "' is disconnected; write was not queued")
      else plan_client b id bytes lease_token atomic now (lookup id b.clients)

  unfoldable pub admit_tx :
      Broker S → ClientId → Bytes → Option String → Bool → ℕ → Broker S × Result TxPlan String
  unfolding plan_purged
  admit_tx b id bytes lease_token atomic now =
      plan_purged (purge b now) id bytes lease_token atomic now
