-- ===== src/Router/State/Neighbors.antt =====
-- The neighbours of a router, and what `send` does for one of them.
use cs.Prelude.{
  ℕ, ◌+◌, ◌*◌, ◌/◌, ◌≡◌, Bool, ◌||◌, Option, none, some, List, [], ◌∷◌, ◌++◌, arith, All,
}
use cs.Prelude.Exec.{ok}
use cs.Prelude.Dict.{lookup}
use cs.Router.Address.{IpAddress, QuadrupleOctet_eq, IsAddress}
use cs.Router.Packet.{ConnectionType, peer, customer, connection_beq, UpdateMsg, Packet}
use cs.Router.State.{Router, Socket, Datagram, send}

abbrev pub value_or : {A : Type 0} → A → Option A → A
value_or a none = a
value_or a (some b) = b

-- The address is well formed, and the router knows its relation, its socket and its port.
abbrev pub IsNeighbor : Router → IpAddress → Type 0
IsNeighbor r ip =
    IsAddress ip
    × ((c : ConnectionType) × (lookup ip r.ip_conn_type_map ≡ some c))
    × ((s : Socket) × (lookup ip r.ip_socket_map ≡ some s))
    × ((p : ℕ) × (lookup ip r.ip_port_map ≡ some p))

-- Every address with a socket is a neighbour, and every route was learned from one.
abbrev pub IsConnected : Router → Type 0
IsConnected r =
    All (λ (e : IpAddress × Socket). IsNeighbor r e.0) r.ip_socket_map
    × All (λ (e : UpdateMsg × IpAddress). IsNeighbor r e.1) r.forwarding_table

-- The relation, the socket and the port of a neighbour.
abbrev pub relation_of : Router → IpAddress → ConnectionType
relation_of r ip = value_or peer (lookup ip r.ip_conn_type_map)

abbrev pub addressed : Router → IpAddress → Packet → Datagram
addressed r ip message = record {
  socket = value_or 0 (lookup ip r.ip_socket_map);
  port = value_or 0 (lookup ip r.ip_port_map);
  packet = message;
}

abbrev pub gateway_of : IpAddress → IpAddress
gateway_of ip = record { binary = ip.binary / 256 * 256 + 1 }

-- One of the two is a customer: the condition under which traffic may pass between them.
abbrev pub may_transit : ConnectionType → ConnectionType → Bool
may_transit a b = connection_beq a customer || connection_beq b customer

abbrev pub sending : Router → List Datagram → Router
sending r ds = record r { sent = r.sent ++ ds }

-- A packet for a neighbour goes out on its socket, to its port, and nothing else changes.
pub send_lem :
    (r : Router) (ip : IpAddress) (message : Packet)
    → IsNeighbor r ip
    → send ip message r ≡ (ok tt, sending r (addressed r ip message ∷ []))
unfolding send
send_lem r ip message (_, _, (s, es), (p, ep)) = ground arith
