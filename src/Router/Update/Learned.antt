-- ===== src/Router/Update/Learned.antt =====
-- What an update changes, and whom it is told to.
use cs.Prelude.{◌≡◌, inl, inr, some, [], ◌∷◌, map, All, keep, Bool-cases}
use cs.Prelude.Eq.{◌==◌}
use cs.Prelude.Exec.{ok, state_of}
use cs.Prelude.Dict.{Dict, lookup, insert, Distinct, insert-Distinct, lookup-insert_self}
use cs.Router.Address.{IpAddress, QuadrupleOctet_eq}
use cs.Router.Packet.{UpdateMsg, UpdateMsg_eq, PacketType, update_ping}
use cs.Router.State.{Router}
use cs.Router.State.Neighbors.{IsNeighbor, IsConnected, relation_of, sending}
use cs.Router.Inform.Export.{is_told, notice, inform_neighbors_lem}
use cs.Router.Update.{announcement, process}

-- The invariant of the router: what it knows of its neighbours, and no route listed twice.
abbrev pub IsSound : Router → Type 0
IsSound r = IsConnected r × Distinct r.forwarding_table

-- The router after the route is in its table.
abbrev pub learned : Router → IpAddress → UpdateMsg → Router
learned r sender msg = record r { forwarding_table = insert msg sender r.forwarding_table }

All-insert :
    (P : IpAddress → Type 0) (msg : UpdateMsg) (ip : IpAddress) (table : Dict UpdateMsg IpAddress)
    → All (λ e. P e.1) table
    → P ip
    → All (λ e. P e.1) (insert msg ip table)
All-insert P msg ip [] h p = (p, tt)
All-insert P msg ip ((u, other) ∷ rest) h p = elim (Bool-cases (u == msg)) [
  | inl same ↦ rw same (p, h.1)
  | inr new ↦ rw new (h.0, All-insert P msg ip rest h.1 p)
]

learned-IsSound :
    (r : Router) (sender : IpAddress) (msg : UpdateMsg)
    → IsSound r
    → IsNeighbor r sender
    → IsSound (learned r sender msg)
learned-IsSound r sender msg ((sockets, routes), distinct) h = (
  (sockets, All-insert (IsNeighbor r) msg sender r.forwarding_table routes h),
  insert-Distinct msg sender r.forwarding_table distinct,
)

-- An update from a neighbour never raises. The route is then in the table, learned from the sender;
-- an announcement of the network, its mask and the path with this AS in front of it goes to exactly the other neighbours for
-- which the sender or the neighbour is a customer; and the invariant is kept.
pub update_process :
    (r : Router) (sender : IpAddress) (msg : UpdateMsg)
    → IsSound r
    → IsNeighbor r sender
    → (process sender msg r ≡ (
      ok tt,
      sending (learned r sender msg) (
          map
            (notice r PacketType.update (
              update_ping (record {
                network = msg.network;
                netmask = msg.netmask;
                as_path = r.asn ∷ msg.as_path;
              })))
            (keep (is_told r sender (relation_of r sender)) r.ip_socket_map)),
    ))
      × (lookup msg (state_of (process sender msg r)).forwarding_table ≡ some sender)
      × IsSound (state_of (process sender msg r))
unfolding process
update_process r sender msg sound h =
    let done =
      inform_neighbors_lem sender PacketType.update (update_ping (announcement r.asn msg))
        (learned r sender msg) (learned-IsSound r sender msg sound h).0 h in
    (
      done,
      rw done (lookup-insert_self msg sender r.forwarding_table),
      rw done (learned-IsSound r sender msg sound h),
    )
