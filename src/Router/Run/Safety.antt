-- ===== src/Router/Run/Safety.antt =====
-- A batch of packets from neighbours never ends the router.
use cs.Prelude.{
  ◌≡◌, refl, sym, ap, ◌∙◌, subst, inl, inr, Option, some, List, [], ◌∷◌, All, All-map, Bool-cases,
}
use cs.Prelude.Eq.{◌==◌}
use cs.Prelude.Exec.{Result, ok}
use cs.Prelude.Dict.{Dict, insert}
use cs.Router.Address.{IpAddress, IsAddress}
use cs.Router.Packet.{NetworkDescription, UpdateMsg, UpdateMsg_eq, update_msg, withdrawals}
use cs.Router.State.{Router}
use cs.Router.State.Neighbors.{IsNeighbor}
use cs.Router.Update.Learned.{IsSound, update_process}
use cs.Router.Withdraw.Removed.{without-All}
use cs.Router.Withdraw.Told.{withdraw_process}
use cs.Router.Forward.Policy.{forward_process}
use cs.Router.Dump.Answer.{dump_process}
use cs.Router.Update
use cs.Router.Withdraw
use cs.Router.Run.{
  Handler, update_handler, dump_handler, data_handler, withdraw_handler, handle, run_handlers,
}

abbrev Networks : Dict UpdateMsg IpAddress → Type 0
Networks table = All (λ (e : UpdateMsg × IpAddress). IsAddress e.0.network) table

-- The invariant between two packets: the one of `IsSound`, and all networks are addresses.
abbrev pub IsRunning : Router → Type 0
IsRunning r =
    IsSound r × All (λ (e : UpdateMsg × IpAddress). IsAddress e.0.network) r.forwarding_table

-- The packet came from a neighbour, and has the class of message that its type says.
abbrev pub IsExpected : Router → Handler → Type 0
IsExpected r (update_handler sender m) =
    IsNeighbor r sender × ((u : UpdateMsg) × (m ≡ update_msg u) × IsAddress u.network)
IsExpected r (dump_handler sender) = IsNeighbor r sender
IsExpected r (data_handler sender packet) = IsNeighbor r sender
IsExpected r (withdraw_handler sender m) =
    IsNeighbor r sender × ((ds : List NetworkDescription) × (m ≡ withdrawals ds))

insert-Networks :
    (u : UpdateMsg) (ip : IpAddress) (table : Dict UpdateMsg IpAddress)
    → IsAddress u.network
    → Networks table
    → Networks (insert u ip table)
insert-Networks u ip [] hu h = (hu, tt)
insert-Networks u ip ((v, w) ∷ rest) hu h = elim (Bool-cases (v == u)) [
  | inl same ↦ rw same h
  | inr other ↦ rw other (h.0, insert-Networks u ip rest hu h.1)
]

-- The maps that say who the neighbours are.
abbrev pub SameMaps : Router → Router → Type 0
SameMaps r r' =
    (r.ip_conn_type_map ≡ r'.ip_conn_type_map)
    × (r.ip_socket_map ≡ r'.ip_socket_map)
    × (r.ip_port_map ≡ r'.ip_port_map)

-- A handler returns, keeps the invariant, and leaves the neighbours as they are.
abbrev Survives : Router → Option (Result (Unit {0}) × Router) → Type 0
Survives r m = (r' : Router) × (m ≡ some (ok tt, r')) × IsRunning r' × SameMaps r r'

same_neighbors :
    (r r' : Router) (ip : IpAddress) → SameMaps r r' → IsNeighbor r ip → IsNeighbor r' ip
same_neighbors r r' ip (a, b, c) h = rw (← a, ← b, ← c) h

-- A router with the same maps expects the same packets.
same-IsExpected : (r r' : Router) (h : Handler) → SameMaps r r' → IsExpected r h → IsExpected r' h
same-IsExpected r r' (update_handler s m) e (hs, x) = (same_neighbors r r' s e hs, x)
same-IsExpected r r' (dump_handler s) e hs = same_neighbors r r' s e hs
same-IsExpected r r' (data_handler s p) e hs = same_neighbors r r' s e hs
same-IsExpected r r' (withdraw_handler s m) e (hs, x) = (same_neighbors r r' s e hs, x)

survive :
    (r r' : Router) (m : Option (Result (Unit {0}) × Router))
    → m ≡ some (ok tt, r')
    → IsRunning r'
    → SameMaps r r'
    → Survives r m
survive r r' m e running same = (r', e, running, same)

update-Survives :
    (r : Router) (s : IpAddress) (u : UpdateMsg)
    → IsRunning r
    → IsNeighbor r s
    → IsAddress u.network
    → Survives r (some (Update.process s u r))
update-Survives r s u (sound, networks) hs hu =
    let (e, _, sound') = update_process r s u sound hs in
    survive r _ _ (ap some e) (rw e at sound', insert-Networks u s r.forwarding_table hu networks)
      (refl, refl, refl)

withdraw-Survives :
    (r : Router) (s : IpAddress) (ds : List NetworkDescription)
    → IsRunning r
    → IsNeighbor r s
    → Survives r (some (Withdraw.process s ds r))
withdraw-Survives r s ds (sound, networks) hs =
    let (e, sound') = withdraw_process r s ds sound hs in
    survive r _ _ (ap some e)
      (
        rw e at sound',
        without-All (λ (x : UpdateMsg × IpAddress). IsAddress x.0.network) s ds r.forwarding_table
            networks,
      )
      (refl, refl, refl)

handle-Survives :
    (h : Handler) (r : Router) → IsRunning r → IsExpected r h → Survives r (handle h r)
unfolding handle
handle-Survives (update_handler s m) r running (hs, (u, e, hu)) =
    subst (λ m. Survives r (handle (update_handler s m) r)) (sym e)
      (update-Survives r s u running hs hu)
handle-Survives (dump_handler s) r (sound, networks) hs =
    let (shown, e, _) = dump_process r s networks hs in
    survive r _ _ e (sound, networks) (refl, refl, refl)
handle-Survives (data_handler s packet) r (sound, networks) hs =
    elim (forward_process r s packet sound.0 hs) [
      | inl (_, e) ↦ survive r r _ (ap some e) (sound, networks) (refl, refl, refl)
      | inr (u, ip, _, e) ↦ survive r _ _ (ap some e) (sound, networks) (refl, refl, refl)
    ]
handle-Survives (withdraw_handler s m) r running (hs, (ds, e)) =
    subst (λ m. Survives r (handle (withdraw_handler s m) r)) (sym e)
      (withdraw-Survives r s ds running hs)

-- Handlers of packets that are expected keep the invariant and the maps.
pub run_handlers-same :
    (hs : List Handler) (r : Router)
    → IsRunning r
    → All (IsExpected r) hs
    → (r' : Router) × (run_handlers hs r ≡ some (ok tt, r')) × IsRunning r' × SameMaps r r'
unfolding run_handlers
run_handlers-same [] r running expected = (r, refl, running, (refl, refl, refl))
run_handlers-same (h ∷ hs) r running (eh, ehs) =
    let (r1, e1, running1, same1) = handle-Survives h r running eh in
    let (r2, e2, running2, same2) =
      run_handlers-same hs r1 running1
        (All-map (IsExpected r) (IsExpected r1) hs (λ g x. same-IsExpected r r1 g same1 x) ehs) in
    (
      r2,
      rw (e1, run_handlers) e2,
      running2,
      (same1.0 ∙ same2.0, same1.1 ∙ same2.1, same1.2 ∙ same2.2),
    )

-- A batch of packets, each from a neighbour and with the class of message that its type says, is
-- handled to its end: nothing raises, no fuel runs out, and the invariant holds after it, so that
-- the next batch finds it too.
pub run_handlers_lem :
    (hs : List Handler) (r : Router)
    → IsRunning r
    → All (IsExpected r) hs
    → (r' : Router) × (run_handlers hs r ≡ some (ok tt, r')) × IsRunning r'
run_handlers_lem hs r running expected =
    let (r', e, running', same) = run_handlers-same hs r running expected in (r', e, running')
