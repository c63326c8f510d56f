-- ===== src/Router/Run/Whole.antt =====
-- A router runs from its start through every sequence of batches, up to a datagram that cannot be read.
use cs.Prelude.{
  ℕ, ◌≡◌, ◌⊎◌, inl, inr, refl, ap, sym, subst, In, false, Option, some, List, [], ◌∷◌, arith, All,
  Bool-cases,
}
use cs.Prelude.Eq.{◌==◌, ℕ_eq}
use cs.Prelude.Exec.{Error, Result, ok, err, state_of}
use cs.Prelude.Dict.{Dict}
use cs.Router.Address.{IpAddress, IsAddress}
use cs.Router.Packet.{
  ConnectionType, NetworkDescription, UpdateMsg, PacketType, update, withdraw, data_packet,
  routeless, dump, table, handshake, Message, update_msg, withdrawals, Packet,
}
use cs.Router.State.{Router, Socket, init, select_src_ip}
use cs.Router.State.Neighbors.{IsNeighbor}
use cs.Router.Run.{Handler, added, assign_handler, select_handlers, run_batches, start, run}
use cs.Router.Run.Safety.{IsRunning, IsExpected, run_handlers-same}
use cs.Router.Run.Start.{Connections, start_lem}

-- The message has the class that the type says. A table is never read: `Packet.deserialize` raises on it.
abbrev pub IsTyped : PacketType → Message → Type 0
IsTyped update m = (u : UpdateMsg) × (m ≡ update_msg u) × IsAddress u.network
IsTyped withdraw m = (ds : List NetworkDescription) × (m ≡ withdrawals ds)
IsTyped table m = ⊥
IsTyped _ m = Unit

-- The socket is one of the map.
abbrev pub IsOpen : Socket → Dict IpAddress Socket → Type 0
IsOpen conn [] = ⊥
IsOpen conn ((ip, socket) ∷ rest) = (socket ≡ conn) ⊎ IsOpen conn rest

-- What came by a socket of the map, read as a packet of its type or not at all.
abbrev pub IsReceived : Dict IpAddress Socket → Socket × Result Packet → Type 0
IsReceived sockets (conn, ok packet) = IsOpen conn sockets × IsTyped packet.type packet.msg
IsReceived sockets (conn, err e) = IsOpen conn sockets

source_found :
    (P : IpAddress → Type 0) (conn : Socket) (sockets : Dict IpAddress Socket)
    → All (λ (x : IpAddress × Socket). P x.0) sockets
    → IsOpen conn sockets
    → (ip : IpAddress) × (select_src_ip conn sockets ≡ some ip) × P ip
unfolding select_src_ip
source_found P conn [] h o = absurd o
source_found P conn ((ip, socket) ∷ rest) (p, h) o = elim (Bool-cases (socket == conn)) [
  | inl same ↦ (ip, rw same refl, p)
  | inr other ↦ let (jp, e, q) = source_found P conn rest h (later o other) in (jp, rw other e, q)
]
  where
    later : (socket ≡ conn) ⊎ IsOpen conn rest → (socket == conn) ≡ false → IsOpen conn rest
    later (inr o) other = o
    later (inl e) other = absurd (ground (arith, other, e, ℕ_eq.beq_iff socket conn))

-- The handler of a packet from a neighbour is expected.
added-IsExpected :
    (r : Router) (source : IpAddress) (packet : Packet) (t : PacketType) (handlers : List Handler)
    → packet.type ≡ t
    → IsNeighbor r source
    → IsTyped t packet.msg
    → All (IsExpected r) handlers
    → All (IsExpected r) (added (assign_handler source packet) handlers)
unfolding assign_handler
added-IsExpected r source packet update handlers e h m k = rw e ((h, m), k)
added-IsExpected r source packet withdraw handlers e h m k = rw e ((h, m), k)
added-IsExpected r source packet data_packet handlers e h m k = rw e (h, k)
added-IsExpected r source packet dump handlers e h m k = rw e (h, k)
added-IsExpected r source packet routeless handlers e h m k = rw e k
added-IsExpected r source packet table handlers e h m k = absurd m
added-IsExpected r source packet handshake handlers e h m k = rw e k

-- The reading of one of the datagrams raised this.
abbrev pub Unread : Error → List (Socket × Result Packet) → Type 0
Unread e batch = (conn : Socket) × In (conn, err e) batch

select_handlers-IsExpected :
    (r : Router) (batch : List (Socket × Result Packet))
    → All (λ (x : IpAddress × Socket). IsNeighbor r x.0) r.ip_socket_map
    → All (IsReceived r.ip_socket_map) batch
    → ((handlers : List Handler) × (select_handlers batch r.ip_socket_map ≡ ok handlers)
        × All (IsExpected r) handlers)
      ⊎ ((e : Error) × (select_handlers batch r.ip_socket_map ≡ err e) × Unread e batch)
unfolding select_handlers
select_handlers-IsExpected r [] h k = inl ([], refl, tt)
select_handlers-IsExpected r ((conn, err e) ∷ rest) h (o, k) =
    let (source, f, n) = source_found (IsNeighbor r) conn r.ip_socket_map h o in
    inr (e, rw f refl, (conn, inl refl))
select_handlers-IsExpected r ((conn, ok packet) ∷ rest) h ((o, t), k) =
    let (source, e, n) = source_found (IsNeighbor r) conn r.ip_socket_map h o in
    elim (select_handlers-IsExpected r rest h k) [
      | inl (handlers, f, x) ↦ inl (
        added (assign_handler source packet) handlers,
        rw (e, f) refl,
        added-IsExpected r source packet packet.type handlers refl n t x,
      )
      | inr (x, f, (c, m)) ↦ inr (x, rw (e, f) refl, (c, inr m))
    ]

-- The router has handled all batches, or reading a datagram of one of them raised what it ends with; the
-- invariant holds in both cases.
pub record Ended (batches : List (List (Socket × Result Packet)))
    (out : Option (Result {0} Unit × Router)) : Type 0 where
  pub result : Result {0} Unit
  pub router : Router
  pub ends : out ≡ some (result, router)
  pub running : IsRunning router
  pub handled_or_unread :
      (result ≡ ok tt)
      ⊎ ((e : Error) × (batch : List (Socket × Result Packet)) × (result ≡ err e)
          × In batch batches
          × Unread e batch)

later_Ended :
    (batch : List (Socket × Result Packet)) (rest : List (List (Socket × Result Packet)))
    (out : Option (Result {0} Unit × Router))
    → Ended rest out
    → Ended (batch ∷ rest) out
later_Ended batch rest out d = record {
  result = d.result;
  router = d.router;
  ends = d.ends;
  running = d.running;
  handled_or_unread = elim d.handled_or_unread [
    | inl done ↦ inl done
    | inr (e, b, raised, m, unread) ↦ inr (e, b, raised, inr m, unread)
  ];
}

run_batches_lem :
    (batches : List (List (Socket × Result Packet))) (r : Router)
    → IsRunning r
    → All (All (IsReceived r.ip_socket_map)) batches
    → Ended batches (run_batches batches r)
unfolding run_batches
run_batches_lem [] r running h = record {
  result = ok tt;
  router = r;
  ends = refl;
  running = running;
  handled_or_unread = inl refl;
}
run_batches_lem (batch ∷ rest) r running (b, h) =
    elim (select_handlers-IsExpected r batch running.0.0.0 b) [
      | inr (e, f, unread) ↦ record {
        result = err e;
        router = r;
        ends = rw (f, run_batches) refl;
        running = running;
        handled_or_unread = inr (e, batch, refl, inl refl, unread);
      }
      | inl (handlers, e, expected) ↦
          let (r1, f, running1, same) = run_handlers-same handlers r running expected in
          rw (e, f, run_batches)
            (later_Ended batch rest (run_batches rest r1) (
              run_batches_lem rest r1 running1
                (subst (λ (d : Dict IpAddress Socket). All (All (IsReceived d)) rest) same.1 h)))
    ]

abbrev after_start :
    List (List (Socket × Result Packet))
    → Result {0} Unit × Router
    → Option (Result {0} Unit × Router)
after_start batches x = elim x.0 [ err e ↦ some (err e, x.1) | ok _ ↦ run_batches batches x.1 ]

-- A router that is given connections whose addresses are 32-bit numbers, from its start on, handles
-- every sequence of batches that come by its sockets, where each datagram is read as a packet with the
-- class of message that its type says (in an update, with a network that is a 32-bit number) or its
-- reading raises: it ends after the last batch without an exception, or with the exception of a
-- datagram whose reading raises; no handler raises, and the fuel of an aggregation never runs out. The
-- invariant holds in the end.
pub run_lem :
    (open_socket : IpAddress → Socket) (asn : ℕ)
    (connections : List (ℕ × IpAddress × ConnectionType))
    (batches : List (List (Socket × Result Packet)))
    → Connections IsAddress connections
    → All
        (All (IsReceived (state_of (start open_socket (init asn connections))).ip_socket_map))
        batches
    → Ended batches (run open_socket batches (init asn connections))
unfolding run
run_lem open_socket asn connections batches h k =
    let (r, e, running, _, _) = start_lem open_socket asn connections h in
    subst (Ended batches) (ap (λ (x : Result {0} Unit × Router). after_start batches x) (sym e)) (
      run_batches_lem batches r running (
        subst
          (λ (x : Result Unit × Router). All (All (IsReceived (state_of x).ip_socket_map)) batches)
          e k))
