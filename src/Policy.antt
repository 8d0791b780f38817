-- ===== src/Policy.antt =====
-- src/policy.rs: the TX modes, the write lease and the admission decision. The frame assembler
-- is in Policy/Frames.antt, the theorems are in Policy/Admission.antt and Policy/Framing.antt.
pub mod Frames
pub mod Admission
pub mod Framing
pub mod Chunks
use oh_myserial.Common.{
  ℕ, ◌+◌, ◌-◌, Bool, true, false, ◌&&◌, Option, none, some, String, Result, ok, err, ◌>>=◌, ltb,
  str_eq, is_some_and, if◌then◌else◌, max, from_millis, as_millis,
}
use oh_myserial.Common.Text.{◌^^◌, show}

pub data TxMode : Type 0 where
  queue_by_line queue_by_frame exclusive primary_wins : TxMode

pub data SlowClientPolicy : Type 0 where
  drop_oldest drop_newest disconnect_slow block : SlowClientPolicy

unfoldable pub parse_tx_mode : String → Result TxMode String
parse_tx_mode s =
    if str_eq s "queue_by_line"
    then ok queue_by_line
    else if str_eq s "queue_by_frame"
    then ok queue_by_frame
    else if str_eq s "exclusive"
    then ok exclusive
    else if str_eq s "primary_wins"
    then ok primary_wins
    else err ("unknown tx mode: " ^^ s)

unfoldable pub parse_slow_client_policy : String → Result SlowClientPolicy String
parse_slow_client_policy s =
    if str_eq s "drop_oldest"
    then ok drop_oldest
    else if str_eq s "drop_newest"
    then ok drop_newest
    else if str_eq s "disconnect_slow"
    then ok disconnect_slow
    else if str_eq s "block"
    then ok block
    else err ("unknown slow_client policy: " ^^ s)

-- The `[tx]` table of the configuration.
pub record TxConfig : Type 0 where
  pub mode : String
  pub primary : Option String
  pub write_lock_ms : ℕ
  pub write_timeout_ms : ℕ
  pub max_frame_bytes : ℕ
  pub max_write_bytes : ℕ
  pub frame_delim : ℕ
  pub slow_client : String
  pub client_queue : ℕ
  pub slow_block_ms : ℕ

pub record Policy : Type 0 where
  pub mode : TxMode
  pub primary : Option String
  pub write_lock_ms : ℕ
  pub write_timeout_ms : ℕ
  pub max_frame_bytes : ℕ
  pub max_write_bytes : ℕ
  pub frame_delim : ℕ
  pub slow_client : SlowClientPolicy
  pub client_queue : ℕ
  pub slow_block_ms : ℕ

unfoldable pub from_config : TxConfig → Result Policy String
from_config cfg = do
  mode ← parse_tx_mode cfg.mode
  slow_client ← parse_slow_client_policy cfg.slow_client
  ok (record {
    mode = mode;
    primary = cfg.primary;
    write_lock_ms = cfg.write_lock_ms;
    write_timeout_ms = cfg.write_timeout_ms;
    max_frame_bytes = cfg.max_frame_bytes;
    max_write_bytes = cfg.max_write_bytes;
    frame_delim = cfg.frame_delim;
    slow_client = slow_client;
    client_queue = max cfg.client_queue 1;
    slow_block_ms = cfg.slow_block_ms;
  })

abbrev pub lock_ttl : Policy → ℕ
lock_ttl p = from_millis (max p.write_lock_ms 1)

pub record WriteLock : Type 0 where
  pub owner : String
  pub token : String
  pub expires_at : ℕ

unfoldable pub active : WriteLock → ℕ → Bool
active lock now = ltb now lock.expires_at

unfoldable pub authorizes : WriteLock → Option String → ℕ → Bool
unfolding active
authorizes lock token now =
    active lock now && is_some_and token (λ candidate. str_eq candidate lock.token)

pub data AdmitDecision : Type 0 where
  allow : AdmitDecision
  deny : String → AdmitDecision

pub record AdmitContext : Type 0 where
  pub mode : TxMode
  pub client : String
  pub primary : Option String
  pub client_is_primary : Bool
  pub primary_connected : Bool
  pub lock : Option WriteLock
  pub lease_token : Option String
  pub now : ℕ

pub lease_held : WriteLock → ℕ → String
lease_held lock now =
    "write lease held by '"
    ^^ lock.owner
    ^^ "' for another "
    ^^ show (as_millis (lock.expires_at - now))
    ^^ "ms; a valid lease token is required"

-- The guard of `PrimaryWins`.
admit_primary : AdmitContext → Option String → AdmitDecision
admit_primary ctx none = allow
admit_primary ctx (some primary) =
    if ctx.client_is_primary
    then allow
    else if ctx.primary_connected
    then deny ("primary_wins: writable primary client '" ^^ primary ^^ "' is connected")
    else allow

-- The decision by the configured mode, once no lease is active.
admit_mode : AdmitContext → TxMode → AdmitDecision
unfolding admit_primary
admit_mode ctx queue_by_line = allow
admit_mode ctx queue_by_frame = allow
admit_mode ctx exclusive = deny "exclusive mode: acquire a write lease first (POST /v1/lock)"
admit_mode ctx primary_wins = admit_primary ctx ctx.primary

admit_lock : AdmitContext → Option WriteLock → AdmitDecision
unfolding admit_mode authorizes
admit_lock ctx none = admit_mode ctx ctx.mode
admit_lock ctx (some lock) =
    if active lock ctx.now
    then if authorizes lock ctx.lease_token ctx.now then allow else deny (lease_held lock ctx.now)
    else admit_mode ctx ctx.mode

unfoldable pub admit_write : AdmitContext → AdmitDecision
unfolding admit_lock
admit_write ctx = admit_lock ctx ctx.lock
