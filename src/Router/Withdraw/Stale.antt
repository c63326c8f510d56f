-- ===== src/Router/Withdraw/Stale.antt =====
-- Two routes of one neighbour for one network, and its withdrawal.
use cs.Prelude.{◌≡◌, ◌≢◌, sym, ◌∙◌, ap, subst, true, List, [], ◌∷◌, arith}
use cs.Prelude.Eq.{eq_self}
use cs.Prelude.Exec.{Result, state_of}
use cs.Prelude.Dict.{insert}
use cs.Router.Address.{IpAddress, QuadrupleOctet_eq}
use cs.Router.Packet.{NetworkDescription, UpdateMsg, UpdateMsg_eq, update_beq_iff}
use cs.Router.State.{Router}
use cs.Router.State.Neighbors.{IsNeighbor}
use cs.Router.Update
use cs.Router.Update.Learned.{IsSound, update_process}
use cs.Router.Withdraw.{is_withdrawn, process}
use cs.Router.Withdraw.Removed.{without}
use cs.Router.Withdraw.Told.{withdraw_process}
use cs.Router.Withdraw.Spared.{network_of}

removes_first :
    (s : IpAddress) (u v : UpdateMsg)
    → u ≢ v
    → without s (network_of u ∷ []) (insert v s (insert u s [])) ≡ (v, s) ∷ []
removes_first s u v differ =
    ground (arith, update_beq_iff u v, eq_self s, eq_self u.network, eq_self u.netmask)

withdrawn_own : (s : IpAddress) (v : UpdateMsg) → is_withdrawn s (network_of v) v s ≡ true
withdrawn_own s v = ground (arith, eq_self s, eq_self v.network, eq_self v.netmask)

withdrawn_too :
    (s : IpAddress) (u v : UpdateMsg)
    → network_of u ≡ network_of v
    → is_withdrawn s (network_of u) v s ≡ true
withdrawn_too s u v same =
    subst (λ (d : NetworkDescription). is_withdrawn s d v s ≡ true) (sym same) (withdrawn_own s v)

after_update :
    (r : Router) (s : IpAddress) (u : UpdateMsg)
    → IsSound r
    → IsNeighbor r s
    → ((state_of (Update.process s u r)).forwarding_table ≡ insert u s r.forwarding_table)
      × IsSound (state_of (Update.process s u r))
      × IsNeighbor (state_of (Update.process s u r)) s
after_update r s u sound hs =
    let (e, _, sound') = update_process r s u sound hs in
    (ap (λ (m : Result Unit × Router). (state_of m).forwarding_table) e, sound', rw e hs)

after_withdrawal :
    (r : Router) (s : IpAddress) (ds : List NetworkDescription)
    → IsSound r
    → IsNeighbor r s
    → (state_of (process s ds r)).forwarding_table ≡ without s ds r.forwarding_table
after_withdrawal r s ds sound hs =
    ap (λ (m : Result Unit × Router). (state_of m).forwarding_table)
      (withdraw_process r s ds sound hs).0

-- Where the forwarding table was empty, a neighbour announces two different routes for one network, the second of which replaces the first
-- in BGP, and then withdraws the network: the table keeps the second route, although the withdrawal
-- is about it too.
pub withdraw_leaves_second :
    (r : Router) (s : IpAddress) (u v : UpdateMsg)
    → IsSound r
    → IsNeighbor r s
    → r.forwarding_table ≡ []
    → u ≢ v
    → network_of u ≡ network_of v
    → ((state_of (
          process s
            (network_of u ∷ [])
            (state_of (Update.process s v (state_of (Update.process s u r)))))).forwarding_table
        ≡ (v, s) ∷ [])
      × (is_withdrawn s (network_of u) v s ≡ true)
withdraw_leaves_second r s u v sound hs empty differ same =
    let (t1, sound1, hs1) = after_update r s u sound hs in
    let (t2, sound2, hs2) = after_update (state_of (Update.process s u r)) s v sound1 hs1 in
    (
      after_withdrawal (state_of (Update.process s v (state_of (Update.process s u r)))) s
            (network_of u ∷ []) sound2 hs2
          ∙ ap (without s (network_of u ∷ [])) (t2 ∙ ap (insert v s) (t1 ∙ ap (insert u s) empty))
          ∙ removes_first s u v differ,
      withdrawn_too s u v same,
    )
