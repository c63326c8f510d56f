-- ===== src/Router/State.antt =====
-- 3700Router/networks/router.py: the state of a router, and `send`.
pub mod Neighbors
use cs.Prelude.{ℕ, ◌≡◌, Bool, true, false, Option, none, some, List, [], ◌∷◌, ◌++◌, if◌then◌else◌}
use cs.Prelude.Eq.{Eq, ◌==◌, ℕ_eq}
use cs.Prelude.Exec.{Exec, Result, ok, err, key_error, or_raise, pure, modify, ◌>>=◌, ◌>>◌}
use cs.Prelude.Dict.{Dict, lookup, insert}
use cs.Router.Address.{IpAddress, QuadrupleOctet_eq}
use cs.Router.Packet.{ConnectionType, NetworkDescription, UpdateMsg, Packet}

-- A socket is known by its file number.
abbrev pub Socket : Type 0
Socket = ℕ

-- What one `sendto` puts on the network: the socket, the port and the packet.
pub record Datagram : Type 0 where
  pub socket : Socket
  pub port : ℕ
  pub packet : Packet

-- The attributes of a `Router`, and what it has sent. (They are attributes of the class, which one
-- process uses once.) A set of revoked networks is a list without repetitions.
pub record Router : Type 0 where
  pub asn : ℕ
  pub ip_conn_type_map : Dict IpAddress ConnectionType
  pub ip_socket_map : Dict IpAddress Socket
  pub ip_port_map : Dict IpAddress ℕ
  pub forwarding_table : Dict UpdateMsg IpAddress
  pub revoked_addresses : Dict IpAddress (List NetworkDescription)
  pub sent : List Datagram

-- `router.m[key]`
abbrev pub fetch : {V : Type 0} → (Router → Dict IpAddress V) → IpAddress → Exec Router V
fetch m key r = (or_raise key_error (lookup key (m r)), r)

-- The loop of `__init__` over the connections.
unfoldable pub add_connections : List (ℕ × IpAddress × ConnectionType) → Router → Router
add_connections [] r = r
add_connections ((port, neighbor_ip, relation) ∷ rest) r = add_connections rest (record r {
  ip_port_map = insert neighbor_ip port r.ip_port_map;
  ip_conn_type_map = insert neighbor_ip relation r.ip_conn_type_map;
})

-- `Router.__init__`
unfoldable pub init : ℕ → List (ℕ × IpAddress × ConnectionType) → Router
unfolding add_connections
init asn connections = add_connections connections (record {
  asn = asn;
  ip_conn_type_map = [];
  ip_socket_map = [];
  ip_port_map = [];
  forwarding_table = [];
  revoked_addresses = [];
  sent = [];
})

-- `Router.send`
unfoldable pub send : IpAddress → Packet → Exec Router Unit
send ip_address message = do
  address_socket ← fetch (λ r. r.ip_socket_map) ip_address
  port ← fetch (λ r. r.ip_port_map) ip_address
  modify (λ (r : Router). record r {
    sent = r.sent ++ (record { socket = address_socket; port = port; packet = message } ∷ []);
  })

-- `Router._select_src_ip`
unfoldable pub select_src_ip : Socket → Dict IpAddress Socket → Option IpAddress
select_src_ip connection [] = none
select_src_ip connection ((address, socket) ∷ rest) =
    if socket == connection then some address else select_src_ip connection rest
