-- ===== src/Router/Run/Opening.antt =====
-- The loop at the start of `run` in 3700Router/networks/router.py: sockets and handshakes.
use mathlib.Core.List.{append-nil, append_assoc}
use cs.Prelude.{
  ◌≡◌, ◌≢◌, refl, sym, ap, ◌∙◌, subst, inl, inr, false, Option, some, List, [], ◌∷◌, ◌++◌, map,
  arith, All, All-map, Bool-cases,
}
use cs.Prelude.Eq.{◌==◌, eq_self}
use cs.Prelude.Exec.{Result, ok, bind-ok, lift, ◌>>◌}
use cs.Prelude.Dict.{Dict, lookup, insert, lookup-insert_self, lookup-insert_ne}
use cs.Router.Address.{IpAddress, QuadrupleOctet_eq, IsAddress, network_gateway}
use cs.Router.Address.RoundTrip.{network_gateway_lem}
use cs.Router.Packet.{UpdateMsg_eq, ConnectionType, PacketType, empty, Packet}
use cs.Router.State.{Router, Socket, Datagram, send}
use cs.Router.State.Neighbors.{value_or, gateway_of, sending, addressed, send_lem}
use cs.Router.Run.{start_loop}

-- A value is found under a key.
abbrev pub Has : {V : Type 0} → IpAddress → Dict IpAddress V → Type 0
Has {V} k d = (v : V) × (lookup k d ≡ some v)

module _ {V : Type 0} where
  pub Has-insert : (j k : IpAddress) (v : V) (d : Dict IpAddress V) → Has j d → Has j (insert k v d)
  Has-insert j k v d (w, e) = elim (Bool-cases (k == j)) [
    | inl same ↦ (
      v,
      subst (λ (x : IpAddress). lookup x (insert k v d) ≡ some v)
          ((QuadrupleOctet_eq.beq_iff k j).0 same) (lookup-insert_self k v d),
    )
    | inr other ↦ (w, lookup-insert_ne j k v d (differs other) ∙ e)
  ]
    where
      differs : (k == j) ≡ false → j ≢ k
      differs other e = ground (arith, other, QuadrupleOctet_eq.beq_iff k j, e)

  -- Every key of a dict is found in it.
  pub keys_found : (d : Dict IpAddress V) → All (λ (x : IpAddress × V). Has x.0 d) d
  keys_found [] = tt
  keys_found ((k, v) ∷ d) = (
    (v, rw (eq_self k) refl),
    All-map (λ (x : IpAddress × V). Has x.0 d) (λ (x : IpAddress × V). Has x.0 ((k, v) ∷ d)) d
        (λ x h. behind x.0 h) (keys_found d),
  )
    where
      behind : (j : IpAddress) → Has j d → Has j ((k, v) ∷ d)
      behind j (w, e) = elim (Bool-cases (k == j)) [
        | inl same ↦ (v, rw same refl)
        | inr other ↦ (w, rw other e)
      ]

  pub keys-insert :
      (P : IpAddress → Type 0) (k : IpAddress) (v : V) (d : Dict IpAddress V)
      → P k
      → All (λ (x : IpAddress × V). P x.0) d
      → All (λ (x : IpAddress × V). P x.0) (insert k v d)
  keys-insert P k v [] p h = (p, tt)
  keys-insert P k v ((j, w) ∷ d) p (q, h) = elim (Bool-cases (j == k)) [
    | inl same ↦ rw same (q, h)
    | inr other ↦ rw other (q, keys-insert P k v d p h)
  ]

module _ (open_socket : IpAddress → Socket) where
  -- The map of the sockets after those of some connections are open.
  abbrev pub open_all :
      Dict IpAddress ConnectionType → Dict IpAddress Socket → Dict IpAddress Socket
  open_all [] sockets = sockets
  open_all ((ip, relation) ∷ rest) sockets = open_all rest (insert ip (open_socket ip) sockets)

  -- The handshake for a neighbour: from its gateway, on its socket, to its port.
  abbrev pub handshake : Router → IpAddress × ConnectionType → Datagram
  handshake r connection = record {
    socket = open_socket connection.0;
    port = value_or 0 (lookup connection.0 r.ip_port_map);
    packet = record {
      src = gateway_of connection.0;
      dst = connection.0;
      type = PacketType.handshake;
      msg = empty;
    };
  }

  -- The router after it has opened the sockets and shaken hands.
  abbrev pub started : Dict IpAddress ConnectionType → Router → Router
  started connections r = record r {
    ip_socket_map = open_all connections r.ip_socket_map;
    sent = r.sent ++ map (handshake r) connections;
  }

  -- The address is well formed, and its relation and its port are known.
  abbrev pub Known : Router → IpAddress → Type 0
  Known r ip = IsAddress ip × Has ip r.ip_conn_type_map × Has ip r.ip_port_map

  pub start_loop_lem :
      (connections : Dict IpAddress ConnectionType) (r : Router)
      → All (λ (x : IpAddress × ConnectionType). Known r x.0) connections
      → start_loop open_socket connections r ≡ (ok tt, started connections r)
  unfolding start_loop
  start_loop_lem [] r h =
      ap (λ (l : List Datagram). (ok tt, record r { sent = l })) (sym (append-nil r.sent))
  start_loop_lem ((ip, relation) ∷ rest) r ((fits, related, ported), h) =
      let r1 = record r { ip_socket_map = insert ip (open_socket ip) r.ip_socket_map } in
      let found = lookup-insert_self ip (open_socket ip) r.ip_socket_map in
      let message : Packet = record {
        src = gateway_of ip;
        dst = ip;
        type = PacketType.handshake;
        msg = empty;
      } in
      bind-ok (lift (network_gateway ip))
        (λ gateway.
          send ip (record { src = gateway; dst = ip; type = PacketType.handshake; msg = empty })
          >> start_loop open_socket rest)
        r1 (gateway_of ip) r1 (ap (λ (x : Result IpAddress). (x, r1)) (network_gateway_lem ip fits))
      ∙ bind-ok (send ip message) (λ _. start_loop open_socket rest) r1 tt
          (sending r1 (addressed r1 ip message ∷ []))
          (send_lem r1 ip message (fits, related, (open_socket ip, found), ported))
      ∙ ap
          (λ (o : Option Socket).
            start_loop open_socket rest
              (sending r1 (record (handshake r (ip, relation)) { socket = value_or 0 o } ∷ [])))
          found
      ∙ start_loop_lem rest (sending r1 (handshake r (ip, relation) ∷ [])) h
      ∙ ap
          (λ (l : List Datagram). (
            ok tt,
            record r {
              ip_socket_map = open_all rest (insert ip (open_socket ip) r.ip_socket_map);
              sent = l;
            },
          ))
          (append_assoc r.sent (handshake r (ip, relation) ∷ []) (map (handshake r) rest))

  pub open_all-keys :
      (P : IpAddress → Type 0) (connections : Dict IpAddress ConnectionType)
      (sockets : Dict IpAddress Socket)
      → All (λ (x : IpAddress × ConnectionType). P x.0) connections
      → All (λ (x : IpAddress × Socket). P x.0) sockets
      → All (λ (x : IpAddress × Socket). P x.0) (open_all connections sockets)
  open_all-keys P [] sockets h k = k
  open_all-keys P ((ip, relation) ∷ rest) sockets (p, h) k =
      open_all-keys P rest (insert ip (open_socket ip) sockets) h
        (keys-insert P ip (open_socket ip) sockets p k)

  kept_open :
      (ip : IpAddress) (connections : Dict IpAddress ConnectionType)
      (sockets : Dict IpAddress Socket)
      → Has ip sockets
      → Has ip (open_all connections sockets)
  kept_open ip [] sockets h = h
  kept_open ip ((j, relation) ∷ rest) sockets h =
      kept_open ip rest (insert j (open_socket j) sockets)
        (Has-insert ip j (open_socket j) sockets h)

  pub opened :
      (ip : IpAddress) (connections : Dict IpAddress ConnectionType)
      (sockets : Dict IpAddress Socket)
      → Has ip connections
      → Has ip (open_all connections sockets)
  opened ip [] sockets (c, e) = absurd (ground (arith, e))
  opened ip ((j, relation) ∷ rest) sockets (c, e) = elim (Bool-cases (j == ip)) [
    | inl same ↦ kept_open ip rest (insert j (open_socket j) sockets) (
      open_socket j,
      subst (λ (x : IpAddress). lookup x (insert j (open_socket j) sockets) ≡ some (open_socket j))
          ((QuadrupleOctet_eq.beq_iff j ip).0 same) (lookup-insert_self j (open_socket j) sockets),
    )
    | inr other ↦ opened ip rest (insert j (open_socket j) sockets) (c, rw other at e)
  ]
