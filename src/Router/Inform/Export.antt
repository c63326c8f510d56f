-- ===== src/Router/Inform/Export.antt =====
-- Which neighbours are told of a route.
use mathlib.Core.List.{append-nil, append_assoc}
use cs.Prelude.{
  ◌≡◌, ◌∙◌, ap, inl, inr, Bool, not, ◌&&◌, List, [], ◌∷◌, map, arith, All, keep, Bool-cases,
  if◌then◌else◌,
}
use cs.Prelude.Eq.{◌==◌}
use cs.Prelude.Exec.{ok}
use cs.Prelude.Dict.{Dict}
use cs.Router.Address.{IpAddress, QuadrupleOctet_eq}
use cs.Router.Address.RoundTrip.{network_gateway_lem}
use cs.Router.Packet.{ConnectionType, PacketType, Message}
use cs.Router.State.{Router, Socket, Datagram}
use cs.Router.State.Neighbors.{
  IsNeighbor, IsConnected, relation_of, addressed, gateway_of, may_transit, sending, send_lem,
}
use cs.Router.Inform.{passed_over, inform_one, inform_loop, inform_neighbors}

-- The neighbour is not the one that the news came from, and one of the two is a customer.
abbrev pub is_told : Router → IpAddress → ConnectionType → IpAddress × Socket → Bool
is_told r sender_ip src_type (ip, socket) =
    not (ip == sender_ip) && may_transit src_type (relation_of r ip)

-- What a neighbour receives.
abbrev pub notice : Router → PacketType → Message → IpAddress × Socket → Datagram
notice r type data_sent (ip, socket) =
    addressed r ip (record { src = gateway_of ip; dst = ip; type = type; msg = data_sent })

inform_one_lem :
    (r : Router) (ip : IpAddress) (socket : Socket) (type : PacketType) (m : Message)
    → IsNeighbor r ip
    → inform_one ip type m r ≡ (ok tt, sending r (notice r type m (ip, socket) ∷ []))
inform_one_lem r ip socket type m h = rw (network_gateway_lem ip h.0) (rw (send_lem r ip _ h))

-- The code's test is the complement of the rule.
passed_over-may_transit : (a b : ConnectionType) → passed_over a b ≡ not (may_transit a b)
passed_over-may_transit a b = ground arith

-- One round of the loop.
round :
    (sender : IpAddress) (src : ConnectionType) (type : PacketType) (m : Message) (ip : IpAddress)
    (socket : Socket) (rest : Dict IpAddress Socket) (r : Router)
    → IsNeighbor r ip
    → inform_loop sender src type m ((ip, socket) ∷ rest) r ≡ (
        if not (ip == sender) && may_transit src (relation_of r ip)
        then inform_loop sender src type m rest (sending r (notice r type m (ip, socket) ∷ []))
        else inform_loop sender src type m rest r)
unfolding inform_loop
round sender src type m ip socket rest r h =
    ground
      (arith, inform_one_lem r ip socket type m h, passed_over-may_transit src (relation_of r ip))

pub inform_loop_lem :
    (sender : IpAddress) (src : ConnectionType) (type : PacketType) (m : Message)
    (items : Dict IpAddress Socket) (r : Router)
    → All (λ (e : IpAddress × Socket). IsNeighbor r e.0) items
    → inform_loop sender src type m items r
      ≡ (ok tt, sending r (map (notice r type m) (keep (is_told r sender src) items)))
inform_loop_lem sender src type m [] r h = unfold inform_loop in rw append-nil
inform_loop_lem sender src type m ((ip, socket) ∷ rest) r (h, hs) =
    round sender src type m ip socket rest r h
    ∙ elim (Bool-cases (is_told r sender src (ip, socket))) [
      | inl told ↦ rw told (
          inform_loop_lem sender src type m rest (sending r (notice r type m (ip, socket) ∷ [])) hs
          ∙ ap (λ (ds : List Datagram). (ok tt, record r { sent = ds }))
              (append_assoc r.sent (notice r type m (ip, socket) ∷ [])
                (map (notice r type m) (keep (is_told r sender src) rest))))
      | inr passed ↦ rw passed (inform_loop_lem sender src type m rest r hs)
    ]

-- The news goes to the neighbours for which the source or the neighbour is a customer, except the
-- source, in the order of the sockets, one datagram each; nothing else changes and nothing raises.
pub inform_neighbors_lem :
    (sender : IpAddress) (type : PacketType) (m : Message) (r : Router)
    → IsConnected r
    → IsNeighbor r sender
    → inform_neighbors sender type m r ≡ (
      ok tt,
      sending r
          (map (notice r type m) (keep (is_told r sender (relation_of r sender)) r.ip_socket_map)),
    )
unfolding inform_neighbors
inform_neighbors_lem sender type m r connected (_, (c, e), _, _) =
    ground (arith, inform_loop_lem sender c type m r.ip_socket_map r connected.0)
