-- ===== src/Config.antt =====
-- src/config.rs: the configured endpoints, and the bulk fan-out that adds endpoints to them on Unix.
use oh_myserial.Common.{
  ℕ, zero, suc, ◌+◌, ◌-◌, Bool, true, false, not, ◌&&◌, ◌||◌, List, [], ◌∷◌, ◌++◌, Option, none,
  some, String, Result, ok, err, ◌>>=◌, ◌>>◌, guard, ltb, leb, ◌==◌, if◌then◌else◌,
}
use oh_myserial.Common.Text.{◌^^◌, show}
use oh_myserial.Common.Distinct.{contains}
pub mod Expansion

pub record UsbSelector : Type 0 where
  pub vid : ℕ
  pub pid : ℕ
  pub serial_number : Option String

pub data ClientConfig : Type 0 where
  pty : (name : String) → (link : String) → (can_write : Bool) → (can_read : Bool) → ClientConfig
  tcp :
      (name : String)
      → (bind : String) → (can_write : Bool) → (can_read : Bool) → (raw : Bool) → ClientConfig
  websocket :
      (name : String)
      → (bind : Option String) → (can_write : Bool) → (can_read : Bool) → (history_bytes : ℕ)
      → ClientConfig

unfoldable pub name_of : ClientConfig → String
name_of (pty name link can_write can_read) = name
name_of (tcp name bind can_write can_read raw) = name
name_of (websocket name bind can_write can_read history_bytes) = name

pub record FanoutConfig : Type 0 where
  pub pty_count : ℕ
  pub pty_link_prefix : String
  pub pty_name_prefix : String
  pub pty_can_write : Bool
  pub pty_can_read : Bool
  pub tcp_count : ℕ
  pub tcp_host : String
  pub tcp_base_port : ℕ
  pub tcp_name_prefix : String
  pub tcp_can_write : Bool
  pub tcp_can_read : Bool
  pub tcp_raw : Bool
  pub ws_binds : List String
  pub ws_name_prefix : String
  pub ws_history_bytes : ℕ
  pub ws_can_write : Bool
  pub ws_can_read : Bool

pub data ConfigError : Type 0 where
  ports_overflow : (tcp_count : ℕ) → (tcp_base_port : ℕ) → ConfigError
  offset_too_large : (offset : ℕ) → ConfigError
  base_port_overflow : ConfigError

abbrev pub max_port : ℕ
max_port = 65535

unfoldable pub check_ports : FanoutConfig → Result (Unit {0}) ConfigError
check_ports f =
    guard (not (ltb 0 f.tcp_count && ltb (max_port - f.tcp_base_port) (f.tcp_count - 1)))
      (ports_overflow f.tcp_count f.tcp_base_port)

abbrev pub names : List ClientConfig → List String
names [] = []
names (c ∷ clients) = name_of c ∷ names clients

-- A name that is there already is passed over.
unfoldable pub add_client : ClientConfig → List ClientConfig → List ClientConfig
add_client c clients = if contains (name_of c) (names clients) then clients else clients ++ c ∷ []

-- `count` rounds from `index` on; `existing` holds the names before the expansion.
unfoldable pub add_ptys : FanoutConfig → List String → ℕ → ℕ → List ClientConfig → List ClientConfig
add_ptys f existing zero index clients = clients
add_ptys f existing (suc count) index clients =
    let name = f.pty_name_prefix ^^ show index in
    let added =
      if contains name existing
      then clients
      else add_client (pty name (f.pty_link_prefix ^^ show index) f.pty_can_write f.pty_can_read)
          clients in
    add_ptys f existing count (index + 1) added

unfoldable pub tcp_port : FanoutConfig → ℕ → Result ℕ ConfigError
tcp_port f index =
    if not (leb index max_port)
    then err (offset_too_large index)
    else if not (leb (f.tcp_base_port + index) max_port)
    then err base_port_overflow
    else ok (f.tcp_base_port + index)

unfoldable pub add_tcp :
    FanoutConfig → ℕ → List ClientConfig → Result (List ClientConfig) ConfigError
add_tcp f index clients =
    if contains (f.tcp_name_prefix ^^ show index) (names clients)
    then ok clients
    else (tcp_port f index >>= λ port. ok (
        add_client
          (tcp (f.tcp_name_prefix ^^ show index) (f.tcp_host ^^ ":" ^^ show port) f.tcp_can_write
            f.tcp_can_read f.tcp_raw)
          clients))

unfoldable pub add_tcps :
    FanoutConfig → ℕ → ℕ → List ClientConfig → Result (List ClientConfig) ConfigError
add_tcps f zero index clients = ok clients
add_tcps f (suc count) index clients =
    add_tcp f index clients >>= λ added. add_tcps f count (index + 1) added

unfoldable pub add_websockets :
    FanoutConfig → List String → ℕ → List ClientConfig → List ClientConfig
add_websockets f [] index clients = clients
add_websockets f (bind ∷ binds) index clients = add_websockets f binds (index + 1) (
    add_client
      (websocket (f.ws_name_prefix ^^ show index) (some bind) f.ws_can_write f.ws_can_read
        f.ws_history_bytes)
      clients)

-- The three loops of the expansion.
unfoldable pub add_endpoints :
    FanoutConfig → List ClientConfig → Result (List ClientConfig) ConfigError
add_endpoints f clients =
    add_tcps f f.tcp_count 0 (add_ptys f (names clients) f.pty_count 0 clients) >>= λ added.
    ok (add_websockets f f.ws_binds 0 added)

-- `Config::expand_fanout`, on the clients of the configuration.
unfoldable pub expand_fanout :
    FanoutConfig → List ClientConfig → Result (List ClientConfig) ConfigError
unfolding add_endpoints
expand_fanout f clients = check_ports f >> add_endpoints f clients
