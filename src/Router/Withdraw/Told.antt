-- ===== src/Router/Withdraw/Told.antt =====
-- Whom a withdrawal is told to, and what it leaves of the router.
use cs.Prelude.{◌≡◌, ◌∙◌, ap, subst, List, map, arith, keep}
use cs.Prelude.Exec.{ok, state_of}
use cs.Prelude.Dict.{Dict, Distinct, insert}
use cs.Router.Address.{IpAddress, QuadrupleOctet_eq}
use cs.Router.Packet.{NetworkDescription, UpdateMsg, UpdateMsg_eq, PacketType, withdrawals}
use cs.Router.State.{Router}
use cs.Router.State.Neighbors.{IsNeighbor, IsConnected, relation_of, sending}
use cs.Router.Inform.Export.{is_told, notice, inform_loop_lem}
use cs.Router.Update.Learned.{IsSound}
use cs.Router.Withdraw.{revoked_by, set_update, inform_neighbors, process}
use cs.Router.Withdraw.Removed.{
  without, without-All, remove_withdrawn-Distinct, remove_withdrawn-without,
}

-- The router after the withdrawal is noted, and for each network the first route from the sender removed.
abbrev pub unlearned : Router → IpAddress → List NetworkDescription → Router
unlearned r sender ds = record r {
  revoked_addresses =
      insert sender (set_update (revoked_by sender r.revoked_addresses) ds) r.revoked_addresses;
  forwarding_table = without sender ds r.forwarding_table;
}

abbrev noted : Router → IpAddress → List NetworkDescription → Dict UpdateMsg IpAddress → Router
noted r sender ds table = record r {
  revoked_addresses =
      insert sender (set_update (revoked_by sender r.revoked_addresses) ds) r.revoked_addresses;
  forwarding_table = table;
}

unlearned-IsSound :
    (r : Router) (sender : IpAddress) (ds : List NetworkDescription)
    → IsSound r
    → IsSound (unlearned r sender ds)
unlearned-IsSound r sender ds ((sockets, routes), distinct) =
    let e = remove_withdrawn-without sender ds r.forwarding_table distinct in
    (
      (sockets, without-All (λ e. IsNeighbor r e.1) sender ds r.forwarding_table routes),
      subst (λ (t : Dict UpdateMsg IpAddress). Distinct t) e
          (remove_withdrawn-Distinct sender ds r.forwarding_table distinct),
    )

inform_lem :
    (sender : IpAddress) (ds : List NetworkDescription) (r : Router)
    → IsConnected r
    → IsNeighbor r sender
    → inform_neighbors sender ds r ≡ (
      ok tt,
      sending r (
          map
            (notice r PacketType.withdraw (withdrawals ds))
            (keep (is_told r sender (relation_of r sender)) r.ip_socket_map)),
    )
unfolding inform_neighbors
inform_lem sender ds r connected (_, (c, e), _, _) = ground (
  arith,
  inform_loop_lem sender c PacketType.withdraw (withdrawals ds) r.ip_socket_map r connected.0,
)

-- A withdrawal from a neighbour never raises. It is noted for the sender; for each of its networks in
-- turn the first route that is left for it from the sender is removed from the table, and no other route;
-- and it is passed on unchanged to exactly the other neighbours for which the sender or the neighbour is a customer.
-- The invariant is kept.
pub withdraw_process :
    (r : Router) (sender : IpAddress) (ds : List NetworkDescription)
    → IsSound r
    → IsNeighbor r sender
    → (process sender ds r ≡ (
      ok tt,
      sending (unlearned r sender ds) (
          map
            (notice r PacketType.withdraw (withdrawals ds))
            (keep (is_told r sender (relation_of r sender)) r.ip_socket_map)),
    ))
      × IsSound (state_of (process sender ds r))
unfolding process
withdraw_process r sender ds sound h =
    let done =
      ap (λ (t : Dict UpdateMsg IpAddress). inform_neighbors sender ds (noted r sender ds t))
        (remove_withdrawn-without sender ds r.forwarding_table sound.1)
      ∙ inform_lem sender ds (unlearned r sender ds) (unlearned-IsSound r sender ds sound).0 h in
    (done, rw done (unlearned-IsSound r sender ds sound))
