-- ===== src/Router/Run/Start.antt =====
-- The start of a router: what `__init__` and the first part of `run` leave.
use cs.Prelude.{ℕ, ◌≡◌, refl, sym, ap, subst, List, [], ◌∷◌, ◌++◌, map, All, All-In, All-map}
use cs.Prelude.Exec.{ok}
use cs.Prelude.Dict.{Dict, Distinct, insert, lookup-In, lookup-insert_self}
use cs.Router.Address.{IpAddress, QuadrupleOctet_eq, IsAddress}
use cs.Router.Packet.{UpdateMsg, UpdateMsg_eq, ConnectionType}
use cs.Router.State.{Router, Socket, Datagram, add_connections, init}
use cs.Router.State.Neighbors.{IsNeighbor}
use cs.Router.Run.{start}
use cs.Router.Run.Safety.{IsRunning}
use cs.Router.Run.Opening.{
  Has, Has-insert, keys_found, keys-insert, open_all, handshake, started, Known, start_loop_lem,
  open_all-keys, opened,
}

-- What `__init__` knows: every key of the relations has a well-formed address and a port.
abbrev Ported : Router → Type 0
Ported r =
    All (λ (x : IpAddress × ConnectionType). IsAddress x.0 × Has x.0 r.ip_port_map)
      r.ip_conn_type_map

-- The address of every connection has a property.
abbrev pub Connections : (IpAddress → Type 0) → List (ℕ × IpAddress × ConnectionType) → Type 0
Connections P [] = Unit
Connections P ((port, ip, relation) ∷ rest) = P ip × Connections P rest

add_one-Ported :
    (port : ℕ) (ip : IpAddress) (relation : ConnectionType) (r : Router)
    → IsAddress ip
    → Ported r
    → Ported (record r {
      ip_port_map = insert ip port r.ip_port_map;
      ip_conn_type_map = insert ip relation r.ip_conn_type_map;
    })
add_one-Ported port ip relation r fits h =
    keys-insert (λ k. IsAddress k × Has k (insert ip port r.ip_port_map)) ip relation
      r.ip_conn_type_map (fits, (port, lookup-insert_self ip port r.ip_port_map))
      (All-map (λ (x : IpAddress × ConnectionType). IsAddress x.0 × Has x.0 r.ip_port_map)
        (λ (x : IpAddress × ConnectionType). IsAddress x.0 × Has x.0 (insert ip port r.ip_port_map))
        r.ip_conn_type_map (λ x (a, p). (a, Has-insert x.0 ip port r.ip_port_map p)) h)

add_connections-Ported :
    (connections : List (ℕ × IpAddress × ConnectionType)) (r : Router)
    → Connections IsAddress connections
    → Ported r
    → Ported (add_connections connections r)
unfolding add_connections
add_connections-Ported [] r h k = k
add_connections-Ported ((port, ip, relation) ∷ rest) r (fits, h) k =
    add_connections-Ported rest
      (record r {
        ip_port_map = insert ip port r.ip_port_map;
        ip_conn_type_map = insert ip relation r.ip_conn_type_map;
      })
      h (add_one-Ported port ip relation r fits k)

-- A relation that is known stays known, and those of all connections get known.
related_kept :
    (ip : IpAddress) (connections : List (ℕ × IpAddress × ConnectionType)) (r : Router)
    → Has ip r.ip_conn_type_map
    → Has ip (add_connections connections r).ip_conn_type_map
unfolding add_connections
related_kept ip [] r h = h
related_kept ip ((port, j, relation) ∷ rest) r h =
    related_kept ip rest
      (record r {
        ip_port_map = insert j port r.ip_port_map;
        ip_conn_type_map = insert j relation r.ip_conn_type_map;
      })
      (Has-insert ip j relation r.ip_conn_type_map h)

all_related :
    (connections : List (ℕ × IpAddress × ConnectionType)) (r : Router)
    → Connections (λ ip. Has ip (add_connections connections r).ip_conn_type_map) connections
unfolding add_connections
all_related [] r = tt
all_related ((port, ip, relation) ∷ rest) r =
    let r1 = record r {
      ip_port_map = insert ip port r.ip_port_map;
      ip_conn_type_map = insert ip relation r.ip_conn_type_map;
    } in
    (
      related_kept ip rest r1 (relation, lookup-insert_self ip relation r.ip_conn_type_map),
      all_related rest r1,
    )

-- The attributes that `__init__` leaves empty.
abbrev Blank : Router → Type 0
Blank r = (r.ip_socket_map ≡ []) × (r.forwarding_table ≡ []) × (r.sent ≡ [])

still-Blank :
    (connections : List (ℕ × IpAddress × ConnectionType)) (r : Router)
    → Blank r
    → Blank (add_connections connections r)
unfolding add_connections
still-Blank [] r h = h
still-Blank ((port, ip, relation) ∷ rest) r h =
    still-Blank rest
      (record r {
        ip_port_map = insert ip port r.ip_port_map;
        ip_conn_type_map = insert ip relation r.ip_conn_type_map;
      })
      h

init_lem :
    (asn : ℕ) (connections : List (ℕ × IpAddress × ConnectionType))
    → Connections IsAddress connections
    → Ported (init asn connections)
      × Blank (init asn connections)
      × Connections (λ ip. Has ip (init asn connections).ip_conn_type_map) connections
unfolding init
init_lem asn connections h = (
  add_connections-Ported connections _ h tt,
  still-Blank connections _ (refl, refl, refl),
  all_related connections _,
)

All-both :
    {A : Type 0} (P Q : A → Type 0) (xs : List A) → All P xs → All Q xs → All (λ x. P x × Q x) xs
All-both P Q [] h k = tt
All-both P Q (x ∷ xs) (p, h) (q, k) = ((p, q), All-both P Q xs h k)

Connections-map :
    (P Q : IpAddress → Type 0) (connections : List (ℕ × IpAddress × ConnectionType))
    → ((ip : IpAddress) → P ip → Q ip)
    → Connections P connections
    → Connections Q connections
Connections-map P Q [] f h = tt
Connections-map P Q ((port, ip, relation) ∷ rest) f (p, h) = (f ip p, Connections-map P Q rest f h)

module _ (open_socket : IpAddress → Socket) where
  start-IsRunning :
      (r : Router)
      → Ported r
      → Blank r
      → (start open_socket r ≡ (ok tt, started open_socket r.ip_conn_type_map r))
        × IsRunning (started open_socket r.ip_conn_type_map r)
        × ((ip : IpAddress)
            → Has ip r.ip_conn_type_map
            → IsAddress ip × Has ip r.ip_port_map
            → IsNeighbor (started open_socket r.ip_conn_type_map r) ip)
  unfolding start
  start-IsRunning r ported (no_socket, no_route, no_packet) =
      let known =
        All-map
          (λ (x : IpAddress × ConnectionType).
            (IsAddress x.0 × Has x.0 r.ip_port_map) × Has x.0 r.ip_conn_type_map)
          (λ (x : IpAddress × ConnectionType). Known open_socket r x.0) r.ip_conn_type_map
          (λ x ((a, p), c). (a, c, p))
          (All-both (λ (x : IpAddress × ConnectionType). IsAddress x.0 × Has x.0 r.ip_port_map)
            (λ (x : IpAddress × ConnectionType). Has x.0 r.ip_conn_type_map) r.ip_conn_type_map
            ported (keys_found r.ip_conn_type_map)) in
      let sockets = open_all open_socket r.ip_conn_type_map r.ip_socket_map in
      (
        start_loop_lem open_socket r.ip_conn_type_map r known,
        (
          (
            (
              All-map (λ (x : IpAddress × Socket). Known open_socket r x.0 × Has x.0 sockets)
                  (λ (x : IpAddress × Socket).
                    IsNeighbor (started open_socket r.ip_conn_type_map r) x.0)
                  sockets (λ x ((a, c, p), h). (a, c, h, p))
                  (All-both (λ (x : IpAddress × Socket). Known open_socket r x.0)
                    (λ (x : IpAddress × Socket). Has x.0 sockets) sockets
                    (open_all-keys open_socket (Known open_socket r) r.ip_conn_type_map
                      r.ip_socket_map known
                      (subst
                        (λ (d : Dict IpAddress Socket).
                          All (λ (x : IpAddress × Socket). Known open_socket r x.0) d)
                        (sym no_socket) tt))
                    (keys_found sockets)),
              subst
                  (λ (d : Dict UpdateMsg IpAddress).
                    All
                      (λ (x : UpdateMsg × IpAddress).
                        IsNeighbor (started open_socket r.ip_conn_type_map r) x.1)
                      d)
                  (sym no_route) tt,
            ),
            subst (λ (d : Dict UpdateMsg IpAddress). Distinct d) (sym no_route) tt,
          ),
          subst
              (λ (d : Dict UpdateMsg IpAddress).
                All (λ (x : UpdateMsg × IpAddress). IsAddress x.0.network) d)
              (sym no_route) tt,
        ),
        (λ ip related (a, p).
            (a, related, opened open_socket ip r.ip_conn_type_map r.ip_socket_map related, p)),
      )

key-Ported :
    (r : Router) (ip : IpAddress)
    → Ported r
    → Has ip r.ip_conn_type_map
    → IsAddress ip × Has ip r.ip_port_map
key-Ported r ip ported (c, e) =
    All-In (λ (x : IpAddress × ConnectionType). IsAddress x.0 × Has x.0 r.ip_port_map) (ip, c)
      r.ip_conn_type_map ported (lookup-In ip c r.ip_conn_type_map e)

-- A router that is given connections whose addresses are 32-bit numbers starts without an exception:
-- each of the connections is then a neighbour, with a relation, a socket and a port; each address has
-- been sent one handshake from its gateway, on its socket and to its port; and the invariant under which
-- the router handles packets holds.
pub start_lem :
    (open_socket : IpAddress → Socket) (asn : ℕ)
    (connections : List (ℕ × IpAddress × ConnectionType))
    → Connections IsAddress connections
    → (r : Router) × (start open_socket (init asn connections) ≡ (ok tt, r))
      × IsRunning r
      × Connections (IsNeighbor r) connections
      × (r.sent ≡ map (handshake open_socket r) r.ip_conn_type_map)
start_lem open_socket asn connections h =
    let (ported, blank, related) = init_lem asn connections h in
    let r = init asn connections in
    let (e, running, neighbor) = start-IsRunning open_socket r ported blank in
    (
      started open_socket r.ip_conn_type_map r,
      e,
      running,
      Connections-map (λ ip. Has ip r.ip_conn_type_map)
          (IsNeighbor (started open_socket r.ip_conn_type_map r)) connections
          (λ ip k. neighbor ip k (key-Ported r ip ported k)) related,
      ap (λ (l : List Datagram). l ++ map (handshake open_socket r) r.ip_conn_type_map) blank.2,
    )
