-- ===== src/Router/Withdraw.antt =====
-- `WithdrawPacketHandler` of 3700Router/networks/request_handler.py.
pub mod Removed
pub mod Spared
pub mod Told
pub mod Stale
use cs.Prelude.{ℕ, Bool, true, false, ◌&&◌, Option, none, some, List, [], ◌∷◌, if◌then◌else◌}
use cs.Prelude.Eq.{Eq, ◌==◌}
use cs.Prelude.Exec.{Exec, pure, gets, modify, ◌>>=◌, ◌>>◌}
use cs.Prelude.Dict.{Dict, lookup, contains, insert, erase}
use cs.Router.Address.{IpAddress, QuadrupleOctet_eq}
use cs.Router.Packet.{
  NetworkDescription, NetworkDescription_eq, UpdateMsg, UpdateMsg_eq, PacketType, withdrawals,
}
use cs.Router.State.{Router, fetch}
use cs.Router.Inform.{inform_loop}

-- `x in s`
abbrev pub member : NetworkDescription → List NetworkDescription → Bool
member x [] = false
member x (y ∷ ys) = if y == x then true else member x ys

-- `s.update(set(xs))`
abbrev pub set_update : List NetworkDescription → List NetworkDescription → List NetworkDescription
set_update s [] = s
set_update s (x ∷ xs) = set_update (if member x s then s else x ∷ s) xs

-- The entry is for that network, and was learned from that neighbour.
abbrev pub is_withdrawn : IpAddress → NetworkDescription → UpdateMsg → IpAddress → Bool
is_withdrawn sender_ip description update ip_address =
    ((update.network == description.network) && (update.netmask == description.netmask))
    && (ip_address == sender_ip)

-- `_get_associated_update`
unfoldable pub get_associated_update :
    IpAddress → NetworkDescription → Dict UpdateMsg IpAddress → Option UpdateMsg
get_associated_update sender_ip description [] = none
get_associated_update sender_ip description ((update, ip_address) ∷ rest) =
    if is_withdrawn sender_ip description update ip_address
    then some update
    else get_associated_update sender_ip description rest

abbrev pub remove_found : Option UpdateMsg → Dict UpdateMsg IpAddress → Dict UpdateMsg IpAddress
remove_found none table = table
remove_found (some update) table = erase update table

-- The loop of `process` over the withdrawals.
unfoldable pub remove_withdrawn :
    IpAddress → List NetworkDescription → Dict UpdateMsg IpAddress → Dict UpdateMsg IpAddress
unfolding get_associated_update
remove_withdrawn sender_ip [] table = table
remove_withdrawn sender_ip (description ∷ rest) table =
    remove_withdrawn sender_ip rest
      (remove_found (get_associated_update sender_ip description table) table)

-- `WithdrawPacketHandler._inform_neighbors`
unfoldable pub inform_neighbors : IpAddress → List NetworkDescription → Exec Router Unit
inform_neighbors sender_ip revoked = do
  src_type ← fetch (λ r. r.ip_conn_type_map) sender_ip
  neighbors ← gets (λ (r : Router). r.ip_socket_map)
  inform_loop sender_ip src_type PacketType.withdraw (withdrawals revoked) neighbors

-- The set that the sender has in `revoked_addresses`, made empty if there is none.
abbrev pub revoked_by :
    IpAddress → Dict IpAddress (List NetworkDescription) → List NetworkDescription
revoked_by sender_ip table = elim (lookup sender_ip table) [ none ↦ [] | some s ↦ s ]

-- `WithdrawPacketHandler.process`
unfoldable pub process : IpAddress → List NetworkDescription → Exec Router Unit
unfolding remove_withdrawn inform_neighbors
process sender_ip revoked = do
  modify (λ (r : Router). record r {
    revoked_addresses =
        insert sender_ip (set_update (revoked_by sender_ip r.revoked_addresses) revoked)
          r.revoked_addresses;
  })
  modify (λ (r : Router). record r {
    forwarding_table = remove_withdrawn sender_ip revoked r.forwarding_table;
  })
  inform_neighbors sender_ip revoked
