-- ===== src/Router/Inform.antt =====
-- `_inform_neighbors` of 3700Router/networks/request_handler.py: who hears of a route.
pub mod Export
use cs.Prelude.{ℕ, Bool, true, false, not, ◌&&◌, ◌||◌, List, [], ◌∷◌, if◌then◌else◌}
use cs.Prelude.Eq.{◌==◌}
use cs.Prelude.Exec.{Exec, pure, lift, gets, ◌>>=◌, ◌>>◌}
use cs.Prelude.Dict.{Dict}
use cs.Router.Address.{IpAddress, QuadrupleOctet_eq, network_gateway}
use cs.Router.Packet.{
  ConnectionType, peer, provider, customer, connection_beq, PacketType, Message, Packet,
}
use cs.Router.State.{Router, Socket, fetch, send}

-- The test under which a neighbour is passed over: the source is a peer or a provider, and the
-- neighbour is no customer.
abbrev pub passed_over : ConnectionType → ConnectionType → Bool
passed_over src_type network_type =
    (connection_beq src_type peer || connection_beq src_type provider)
    && not (connection_beq network_type customer)

-- The packet for one neighbour.
abbrev pub inform_one : IpAddress → PacketType → Message → Exec Router Unit
inform_one network_ip inform_type inform_data = do
  gateway ← lift (network_gateway network_ip)
  send network_ip
      (record { src = gateway; dst = network_ip; type = inform_type; msg = inform_data })

-- The loop over the items of `ip_socket_map`.
pub inform_loop :
    IpAddress → ConnectionType → PacketType → Message → Dict IpAddress Socket → Exec Router Unit
inform_loop sender_ip src_type inform_type inform_data [] = pure tt
inform_loop sender_ip src_type inform_type inform_data ((network_ip, socket_obj) ∷ rest) =
    let continue = inform_loop sender_ip src_type inform_type inform_data rest in
    if network_ip == sender_ip then continue else do
      network_type ← fetch (λ r. r.ip_conn_type_map) network_ip
      if passed_over src_type network_type
          then continue
          else (inform_one network_ip inform_type inform_data >> continue)

-- `UpdatePacketHandler._inform_neighbors`
unfoldable pub inform_neighbors : IpAddress → PacketType → Message → Exec Router Unit
unfolding inform_loop
inform_neighbors sender_ip inform_type inform_data = do
  src_type ← fetch (λ r. r.ip_conn_type_map) sender_ip
  neighbors ← gets (λ (r : Router). r.ip_socket_map)
  inform_loop sender_ip src_type inform_type inform_data neighbors
