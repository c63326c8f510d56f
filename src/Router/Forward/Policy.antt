-- ===== src/Router/Forward/Policy.antt =====
-- What a data packet makes the router send.
use cs.Prelude.{◌≡◌, ◌⊎◌, inl, inr, [], ◌∷◌, arith, All-In, if◌then◌else◌}
use cs.Prelude.Exec.{ok}
use cs.Router.Address.{IpAddress, QuadrupleOctet_eq}
use cs.Router.Address.RoundTrip.{network_gateway_lem}
use cs.Router.Packet.{UpdateMsg, PacketType, empty, Packet}
use cs.Router.State.{Router, Datagram}
use cs.Router.State.Neighbors.{
  IsNeighbor, IsConnected, relation_of, addressed, gateway_of, may_transit, sending, send_lem,
}
use cs.Router.Forward.{pass_on, refuse, forward_packet, process}
use cs.Router.Forward.Longest.{IsBestEntry, Unrouted, best_loop_lem}

-- The one datagram for a packet whose best route leads to `next_ip`: the packet itself, to that
-- neighbour, if the sender or the neighbour is a customer, and else a refusal to the sender.
abbrev pub decision : Router → IpAddress → Packet → IpAddress → Datagram
decision r sender packet next_ip =
    if may_transit (relation_of r sender) (relation_of r next_ip)
    then addressed r next_ip (record {
      src = gateway_of sender;
      dst = packet.dst;
      type = PacketType.data_packet;
      msg = packet.msg;
    })
    else addressed r sender
        (record { src = gateway_of sender; dst = sender; type = PacketType.routeless; msg = empty })

pass_on_lem :
    (r : Router) (sender : IpAddress) (packet : Packet) (next_ip : IpAddress)
    → IsNeighbor r sender
    → IsNeighbor r next_ip
    → pass_on sender packet next_ip r ≡ (
      ok tt,
      sending r (
          addressed r next_ip (record {
            src = gateway_of sender;
            dst = packet.dst;
            type = PacketType.data_packet;
            msg = packet.msg;
          })
          ∷ []),
    )
pass_on_lem r sender packet next_ip hs hn =
    rw (network_gateway_lem sender hs.0) (rw (send_lem r next_ip _ hn))

refuse_lem :
    (r : Router) (sender : IpAddress)
    → IsNeighbor r sender
    → refuse sender r ≡ (
      ok tt,
      sending r (
          addressed r sender (record {
            src = gateway_of sender;
            dst = sender;
            type = PacketType.routeless;
            msg = empty;
          })
          ∷ []),
    )
refuse_lem r sender hs = rw (network_gateway_lem sender hs.0) (rw (send_lem r sender _ hs))

-- The legality check sends exactly one datagram.
forward_packet_lem :
    (r : Router) (sender : IpAddress) (packet : Packet) (next_ip : IpAddress)
    → IsNeighbor r sender
    → IsNeighbor r next_ip
    → forward_packet sender packet next_ip r
      ≡ (ok tt, sending r (decision r sender packet next_ip ∷ []))
unfolding forward_packet
forward_packet_lem r sender packet next_ip hs hn =
    ground (arith, pass_on_lem r sender packet next_ip hs hn, refuse_lem r sender hs, hs.1, hn.1)

-- A data packet from a neighbour never raises. Where no route matches its destination nothing is
-- sent; where one does, the best entry's neighbour decides the one datagram that is sent: the packet
-- goes on if the sender or that neighbour is a customer, and otherwise the sender is told that there
-- is no route.
pub forward_process :
    (r : Router) (sender : IpAddress) (packet : Packet)
    → IsConnected r
    → IsNeighbor r sender
    → (Unrouted packet.dst r.forwarding_table × (process sender packet r ≡ (ok tt, r)))
      ⊎ ((u : UpdateMsg) × (ip : IpAddress) × IsBestEntry packet.dst r.forwarding_table u ip
          × (process sender packet r ≡ (ok tt, sending r (decision r sender packet ip ∷ []))))
unfolding process
forward_process r sender packet connected hs =
    let (b, e, found) = best_loop_lem packet.dst r.forwarding_table in
    elim found [
      | inl (missed, none_match) ↦ inl (none_match, rw (e, missed))
      | inr (u, ip, chosen, best) ↦ inr (
        u,
        ip,
        best,
        rw (e, chosen)
            (forward_packet_lem r sender packet ip hs (
              All-In (λ (x : UpdateMsg × IpAddress). IsNeighbor r x.1) (u, ip) r.forwarding_table
                connected.1 best.listed)),
      )
    ]
