-- ===== src/Router/Update.antt =====
-- `UpdatePacketHandler` of 3700Router/networks/request_handler.py.
pub mod Learned
use cs.Prelude.{ℕ, List, ◌∷◌}
use cs.Prelude.Exec.{Exec, gets, modify, ◌>>=◌, ◌>>◌}
use cs.Prelude.Dict.{insert}
use cs.Router.Address.{IpAddress}
use cs.Router.Packet.{UpdateMsg, UpdateMsg_eq, UpdatePing, update_ping, PacketType}
use cs.Router.State.{Router}
use cs.Router.Inform.{inform_neighbors}

-- What the neighbours are told: the route through this router, without the private attributes.
abbrev pub announcement : ℕ → UpdateMsg → UpdatePing
announcement asn m = record { network = m.network; netmask = m.netmask; as_path = asn ∷ m.as_path }

-- `UpdatePacketHandler.process`
unfoldable pub process : IpAddress → UpdateMsg → Exec Router Unit
process sender_ip msg = do
  modify (λ (r : Router). record r { forwarding_table = insert msg sender_ip r.forwarding_table })
  asn ← gets (λ (r : Router). r.asn)
  inform_neighbors sender_ip PacketType.update (update_ping (announcement asn msg))
