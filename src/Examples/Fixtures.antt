-- ===== src/Examples/Fixtures.antt =====
-- A broker over a ledger in memory, with one client and a lease.
use oh_myserial.Common.{ℕ, suc, ◌≤◌, true, false, [], ◌∷◌, none, some, ok, arith}
use oh_myserial.Policy.{Policy, queue_by_line, drop_oldest, WriteLock}
use oh_myserial.Policy.Frames.{empty_assembler}
use oh_myserial.Ledger.Schema.{Externals, EventPayload, control}
use oh_myserial.Ledger.State.{EventStore, Ledger, MemoryOptions, Moment, disabled}
use oh_myserial.Ledger.Invariant.{IsValid}
use oh_myserial.Broker.State.{Broker, ClientSlot, DeviceWrite, PortStatus, no_stats}
use oh_myserial.Examples.Codec.{encode, decode, decode-encode}

pub hundred_fits : 100 ≤ 9223372036854775807
hundred_fits = ground arith

abbrev pub externals : Externals
externals = record {
  encode = encode;
  decode = decode;
  decode-encode = decode-encode;
  is_rfc3339 = λ s. true;
  encoded_len = λ e. 100;
  encoded_len-le = λ e. hundred_fits;
}

-- A store that keeps the number of its events and always succeeds.
abbrev pub counting_store : EventStore
counting_store = record {
  Store = ℕ;
  append = λ s e. (suc s, ok tt);
  mark_degraded = λ s. s;
  seal = λ s. (s, ok tt);
  checkpoint = λ s. (s, ok tt);
}

abbrev pub small_memory : MemoryOptions
small_memory = record { max_events = 2; max_bytes = 1000 }

abbrev pub empty_ledger : Ledger ℕ
empty_ledger = record {
  session_id = "session";
  started = 0;
  next_seq = 1;
  newest_seq = 0;
  ring = [];
  ring_bytes = 0;
  evicted_events = 0;
  memory = small_memory;
  store = some 0;
  persistence_state = disabled;
  persistence_directory = none;
  persistence_error = none;
  sealed = false;
  live = [];
}

pub empty_ledger-IsValid : IsValid empty_ledger
empty_ledger-IsValid = ground arith

abbrev pub noon : Moment
noon = record { instant = 1000; ts_utc = "2024-01-01T12:00:00Z" }

abbrev pub note : EventPayload
note = control (record { actor = none; name = "note"; value = none })

abbrev pub line_policy : Policy
line_policy = record {
  mode = queue_by_line;
  primary = none;
  write_lock_ms = 5;
  write_timeout_ms = 1;
  max_frame_bytes = 16;
  max_write_bytes = 16;
  frame_delim = 10;
  slow_client = drop_oldest;
  client_queue = 2;
  slow_block_ms = 1;
}

abbrev pub port_up : PortStatus
port_up = record { path = "/dev/ttyUSB0"; baud = 9600; connected = true; detail = "open" }

abbrev pub port_down : PortStatus
port_down = record {
  path = "/dev/ttyUSB0";
  baud = 9600;
  connected = false;
  detail = "reconnecting";
}

abbrev pub alice : ClientSlot
alice = record {
  info = record {
    id = "a";
    name = "alice";
    kind = "pty";
    can_read = true;
    can_write = true;
    primary_eligible = true;
  };
  fanout = record { capacity = 2; pending = []; closed = false };
  assembler = empty_assembler;
}

abbrev pub lease : WriteLock
lease = record { owner = "alice"; token = "t1"; expires_at = 9000 }

abbrev pub desk : Broker ℕ
desk = record {
  clients = ("a", alice) ∷ [];
  policy = line_policy;
  lock = some lease;
  handoff = none;
  port = port_up;
  connection_epoch = 1;
  history = [];
  history_cap = 4;
  endpoints = [];
  stats = no_stats;
  persistence_gap_reported = false;
  ledger = empty_ledger;
  device_queue = [];
  rx_broadcast = [];
  port_watch = port_up;
  owner_attached = true;
}

abbrev pub unplugged : Broker ℕ
unplugged = record desk { port = port_down; lock = none }

abbrev pub hello : DeviceWrite
hello = record {
  bytes = 104 ∷ 105 ∷ 10 ∷ [];
  client_id = "a";
  connection_epoch = 1;
  lease_token = some "t1";
  primary_eligible = true;
  deadline = 8000;
  actor = "alice";
  completion = false;
}
