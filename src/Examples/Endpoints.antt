-- ===== src/Examples/Endpoints.antt =====
-- src/config.rs: a fan-out of a PTY and two TCP listeners, one of which is configured already.
use oh_myserial.Common.{ℕ, ◌≡◌, refl, true, false, List, [], ◌∷◌, some, ok, err, arith}
use oh_myserial.Common.Text.{show}
use oh_myserial.Config.{
  ClientConfig, pty, tcp, websocket, name_of, FanoutConfig, check_ports, add_client, add_ptys,
  tcp_port, add_tcp, add_tcps, add_websockets, add_endpoints, expand_fanout, ports_overflow,
}
use oh_myserial.Config.Expansion.{requested, Succeeds, expand_fanout-Succeeds}

abbrev fanout : ℕ → FanoutConfig
fanout base = record {
  pty_count = 1;
  pty_link_prefix = "/tmp/ohmyserial-";
  pty_name_prefix = "pty";
  pty_can_write = true;
  pty_can_read = true;
  tcp_count = 2;
  tcp_host = "127.0.0.1";
  tcp_base_port = base;
  tcp_name_prefix = "tcp";
  tcp_can_write = true;
  tcp_can_read = true;
  tcp_raw = false;
  ws_binds = "127.0.0.1:9000" ∷ [];
  ws_name_prefix = "ws";
  ws_history_bytes = 65536;
  ws_can_write = true;
  ws_can_read = true;
}

abbrev configured : List ClientConfig
configured = tcp "tcp1" "127.0.0.1:7000" true true true ∷ []

expanded :
    expand_fanout (fanout 65534) configured
    ≡ ok (
        tcp "tcp1" "127.0.0.1:7000" true true true
        ∷ pty "pty0" "/tmp/ohmyserial-0" true true
        ∷ tcp "tcp0" "127.0.0.1:65534" true true false
        ∷ websocket "ws0" (some "127.0.0.1:9000") true true 65536
        ∷ [])
unfolding expand_fanout add_endpoints check_ports add_client add_ptys tcp_port add_tcp add_tcps
    add_websockets name_of show
expanded = refl

no_room : expand_fanout (fanout 65535) configured ≡ err (ports_overflow 2 65535)
unfolding expand_fanout check_ports
no_room = refl

expand_fanout-Succeeds_example :
    Succeeds (requested (fanout 65534)) configured (expand_fanout (fanout 65534) configured)
expand_fanout-Succeeds_example = expand_fanout-Succeeds (fanout 65534) configured (omega arith)
