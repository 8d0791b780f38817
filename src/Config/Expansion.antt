-- ===== src/Config/Expansion.antt =====
-- src/config.rs: what the bulk fan-out adds.
use oh_myserial.Common.{
  ℕ, zero, suc, ◌+◌, ◌≤◌, ◌≡◌, refl, sym, subst, Bool, true, false, List, [], ◌∷◌, ◌++◌, String,
  All, Result, ok, err, ◌>>=◌, ◌>>◌, arith, Bool-cases, inl, inr, if◌then◌else◌, str_eq, eq_iff,
}
use oh_myserial.Common.Text.{◌^^◌, show}
use oh_myserial.Common.Distinct.{contains}
use oh_myserial.Config.{
  ClientConfig, pty, name_of, names, FanoutConfig, ConfigError, check_ports, max_port, add_client,
  add_ptys, tcp_port, add_tcp, add_tcps, add_websockets, add_endpoints, expand_fanout,
}

-- The clients at the start stay in front, and each behind them has a name that none before it has.
pub data Extends (start : List ClientConfig) : List ClientConfig → Type 0 where
  stays : Extends start start
  adds :
      (clients : List ClientConfig) (c : ClientConfig)
      → Extends start clients
      → contains (name_of c) (names clients) ≡ false
      → Extends start (clients ++ c ∷ [])

-- Every name is that of a client.
abbrev pub HasNames : List String → List ClientConfig → Type 0
HasNames ns clients = All (λ n. contains n (names clients) ≡ true) ns

contains-kept :
    (n : String) (clients : List ClientConfig) (c : ClientConfig)
    → contains n (names clients) ≡ true
    → contains n (names (clients ++ c ∷ [])) ≡ true
contains-kept n [] c h = ground arith
contains-kept n (d ∷ clients) c h = elim (Bool-cases (str_eq (name_of d) n)) [
  | inl same ↦ ground (arith, same)
  | inr other ↦ ground (arith, h, other, contains-kept n clients c (ground (arith, h, other)))
]

contains-new :
    (clients : List ClientConfig) (c : ClientConfig)
    → contains (name_of c) (names (clients ++ c ∷ [])) ≡ true
contains-new [] c = ground (arith, eq_iff (name_of c) (name_of c))
contains-new (d ∷ clients) c = ground (arith, contains-new clients c)

Extends-contains :
    (start clients : List ClientConfig) (n : String)
    → Extends start clients
    → contains n (names start) ≡ true
    → contains n (names clients) ≡ true
Extends-contains start _ n stays h = h
Extends-contains start _ n (adds clients c e fresh) h =
    contains-kept n clients c (Extends-contains start clients n e h)

Extends-trans : (a b c : List ClientConfig) → Extends a b → Extends b c → Extends a c
Extends-trans a b _ e stays = e
Extends-trans a b _ e (adds clients c g fresh) =
    adds clients c (Extends-trans a b clients e g) fresh

-- The clients are extended, and then have these names.
abbrev pub IsGrown : List String → List ClientConfig → List ClientConfig → Type 0
IsGrown ns start clients = Extends start clients × HasNames ns clients

IsGrown-then :
    (ns ms : List String) (a b c : List ClientConfig)
    → IsGrown ns a b
    → IsGrown ms b c
    → IsGrown (ns ++ ms) a c
IsGrown-then [] ms a b c g h = (Extends-trans a b c g.0 h.0, h.1)
IsGrown-then (n ∷ ns) ms a b c g h =
    let rest = IsGrown-then ns ms a b c (g.0, (g.1).1) h in
    (rest.0, (Extends-contains b c n h.0 (g.1).0, rest.1))

add_client-IsGrown :
    (c : ClientConfig) (clients : List ClientConfig)
    → IsGrown (name_of c ∷ []) clients (add_client c clients)
unfolding add_client
add_client-IsGrown c clients = elim (Bool-cases (contains (name_of c) (names clients))) [
  | inl there ↦ rw there (stays, (there, tt))
  | inr fresh ↦ rw fresh (adds clients c stays fresh, (contains-new clients c, tt))
]

-- The names of `count` endpoints from `index` on.
abbrev pub numbered : String → ℕ → ℕ → List String
numbered prefix zero index = []
numbered prefix (suc count) index = (prefix ^^ show index) ∷ numbered prefix count (index + 1)

if_IsGrown :
    (n : String) (t : Bool) (clients added : List ClientConfig)
    → (t ≡ true → contains n (names clients) ≡ true)
    → IsGrown (n ∷ []) clients added
    → IsGrown (n ∷ []) clients (if t then clients else added)
if_IsGrown n true clients added there g = (stays, (there refl, tt))
if_IsGrown n false clients added there g = g

add_pty-IsGrown :
    (f : FanoutConfig) (index : ℕ) (clients : List ClientConfig)
    → IsGrown ((f.pty_name_prefix ^^ show index) ∷ []) clients (
        add_client
          (pty
            (f.pty_name_prefix ^^ show index)
            (f.pty_link_prefix ^^ show index)
            f.pty_can_write
            f.pty_can_read)
          clients)
unfolding name_of
add_pty-IsGrown f index clients = add_client-IsGrown _ clients

add_ptys-IsGrown :
    (f : FanoutConfig) (start : List ClientConfig) (count index : ℕ) (clients : List ClientConfig)
    → Extends start clients
    → IsGrown
        (numbered f.pty_name_prefix count index)
        clients
        (add_ptys f (names start) count index clients)
unfolding add_ptys
add_ptys-IsGrown f start zero index clients e = (stays, tt)
add_ptys-IsGrown f start (suc count) index clients e =
    let n = f.pty_name_prefix ^^ show index in
    let c = pty n (f.pty_link_prefix ^^ show index) f.pty_can_write f.pty_can_read in
    let one =
      if_IsGrown n (contains n (names start)) clients (add_client c clients)
        (Extends-contains start clients n e) (add_pty-IsGrown f index clients) in
    IsGrown-then (n ∷ []) (numbered f.pty_name_prefix count (index + 1)) clients _ _ one
      (add_ptys-IsGrown f start count (index + 1) _ (Extends-trans start clients _ e one.0))

-- The names of the dedicated listeners.
abbrev pub ws_names : String → List String → ℕ → List String
ws_names prefix [] index = []
ws_names prefix (bind ∷ binds) index = (prefix ^^ show index) ∷ ws_names prefix binds (index + 1)

add_websockets-IsGrown :
    (f : FanoutConfig) (binds : List String) (index : ℕ) (clients : List ClientConfig)
    → IsGrown (ws_names f.ws_name_prefix binds index) clients (add_websockets f binds index clients)
unfolding add_websockets name_of
add_websockets-IsGrown f [] index clients = (stays, tt)
add_websockets-IsGrown f (bind ∷ binds) index clients =
    IsGrown-then ((f.ws_name_prefix ^^ show index) ∷ [])
      (ws_names f.ws_name_prefix binds (index + 1)) clients _ _ (add_client-IsGrown _ clients)
      (add_websockets-IsGrown f binds (index + 1) _)

tcp_port-ok :
    (f : FanoutConfig) (index : ℕ)
    → f.tcp_base_port + index ≤ max_port
    → tcp_port f index ≡ ok (f.tcp_base_port + index)
unfolding tcp_port
tcp_port-ok f index room = ground arith

-- The result is a success that extends the clients by the names that are missing.
abbrev pub Succeeds :
    List String → List ClientConfig → Result (List ClientConfig) ConfigError → Type 0
Succeeds ns start (ok clients) = IsGrown ns start clients
Succeeds ns start (err e) = ⊥

add_tcp-Succeeds :
    (f : FanoutConfig) (index : ℕ) (clients : List ClientConfig)
    → f.tcp_base_port + index ≤ max_port
    → Succeeds ((f.tcp_name_prefix ^^ show index) ∷ []) clients (add_tcp f index clients)
unfolding add_tcp name_of
add_tcp-Succeeds f index clients room =
    elim (Bool-cases (contains (f.tcp_name_prefix ^^ show index) (names clients))) [
      | inl there ↦ rw there (stays, (there, tt))
      | inr fresh ↦ rw (fresh, tcp_port-ok f index room) (add_client-IsGrown _ clients)
    ]

Succeeds-then :
    (ns ms : List String) (a b : List ClientConfig) (m : Result (List ClientConfig) ConfigError)
    → IsGrown ns a b
    → Succeeds ms b m
    → Succeeds (ns ++ ms) a m
Succeeds-then ns ms a b (ok c) g h = IsGrown-then ns ms a b c g h
Succeeds-then ns ms a b (err e) g h = h

Succeeds-bind :
    (ns ms : List String) (start : List ClientConfig) (m : Result (List ClientConfig) ConfigError)
    (g : List ClientConfig → Result (List ClientConfig) ConfigError)
    → Succeeds ns start m
    → ((clients : List ClientConfig) → Succeeds ms clients (g clients))
    → Succeeds (ns ++ ms) start (m >>= g)
Succeeds-bind ns ms start (ok clients) g d h =
    Succeeds-then ns ms start clients (g clients) d (h clients)
Succeeds-bind ns ms start (err e) g d h = elim d [ ]

add_tcps-Succeeds :
    (f : FanoutConfig) (count index : ℕ) (clients : List ClientConfig)
    → f.tcp_base_port + (index + count) ≤ suc max_port
    → Succeeds (numbered f.tcp_name_prefix count index) clients (add_tcps f count index clients)
unfolding add_tcps
add_tcps-Succeeds f zero index clients room = (stays, tt)
add_tcps-Succeeds f (suc count) index clients room =
    Succeeds-bind ((f.tcp_name_prefix ^^ show index) ∷ [])
      (numbered f.tcp_name_prefix count (index + 1)) clients (add_tcp f index clients) _
      (add_tcp-Succeeds f index clients (omega (arith, room)))
      (λ added. add_tcps-Succeeds f count (index + 1) added (omega (arith, room)))

check_ports-ok :
    (f : FanoutConfig) → f.tcp_base_port + f.tcp_count ≤ suc max_port → check_ports f ≡ ok tt
unfolding check_ports
check_ports-ok f room = ground arith

-- The names that the fan-out asks for.
abbrev pub requested : FanoutConfig → List String
requested f =
    numbered f.pty_name_prefix f.pty_count 0
    ++ (numbered f.tcp_name_prefix f.tcp_count 0 ++ ws_names f.ws_name_prefix f.ws_binds 0)

-- If the TCP ports from the base port on, if there are any, go up to 65535 at most, the expansion
-- succeeds, whatever clients are configured. They stay in front, each client behind them has a name
-- that none before it has, and every name that the fan-out asks for is then that of a client.
pub expand_fanout-Succeeds :
    (f : FanoutConfig) (clients : List ClientConfig)
    → f.tcp_base_port + f.tcp_count ≤ suc max_port
    → Succeeds (requested f) clients (expand_fanout f clients)
unfolding expand_fanout add_endpoints
expand_fanout-Succeeds f clients room =
    let with_ptys = add_ptys-IsGrown f clients f.pty_count 0 clients stays in
    subst (λ z. Succeeds (requested f) clients (z >> add_endpoints f clients))
      (sym (check_ports-ok f room))
      (Succeeds-then (numbered f.pty_name_prefix f.pty_count 0) _ clients _
        (add_endpoints f clients) with_ptys
        (Succeeds-bind (numbered f.tcp_name_prefix f.tcp_count 0)
          (ws_names f.ws_name_prefix f.ws_binds 0) _
          (add_tcps f f.tcp_count 0 (add_ptys f (names clients) f.pty_count 0 clients)) _
          (add_tcps-Succeeds f f.tcp_count 0 _ (omega (arith, room)))
          (λ added. add_websockets-IsGrown f f.ws_binds 0 added)))
