-- ===== src/Router/Dump/Answer.antt =====
-- The answer to a dump.
use cs.Prelude.{
  ◌<◌, ◌≡◌, refl, sym, subst, inl, inr, some, List, [], ◌∷◌, ◌++◌, map, arith, All, All-In, All-map,
  All-append, In, In-append_left, In-append_right, length, length-append, Bool-cases, Option-cases,
  if◌then◌else◌,
}
use cs.Prelude.Eq.{◌==◌}
use cs.Prelude.Exec.{ok}
use cs.Prelude.Dict.{Dict, lookup, insert}
use cs.Router.Address.{IpAddress, IsAddress, QuadrupleOctet_eq}
use cs.Router.Address.RoundTrip.{network_gateway_lem}
use cs.Router.Packet.{UpdateMsg, UpdateMsg_eq, update_beq_iff, DumpPing, PacketType, full_table}
use cs.Router.State.{Router}
use cs.Router.State.Neighbors.{IsNeighbor, addressed, gateway_of, sending, send_lem}
use cs.Router.Dump.{
  append_to, group_entries, add_all, aggregate_groups, aggregate_forwarding_table, process,
}
use cs.Router.Dump.Merge.{Covers, Carried, aggregate_msg_group_lem}

abbrev Table : Type 0
Table = Dict UpdateMsg IpAddress

abbrev Groups : Type 0
Groups = Dict IpAddress (List UpdateMsg)

abbrev HasKey : UpdateMsg → Table → Type 0
HasKey u table = (ip : IpAddress) × In (u, ip) table

insert-HasKey_self : (u : UpdateMsg) (ip : IpAddress) (t : Table) → HasKey u (insert u ip t)
insert-HasKey_self u ip [] = (ip, inl refl)
insert-HasKey_self u ip ((v, w) ∷ t) = elim (Bool-cases (v == u)) [
  | inl same ↦ (ip, rw same (inl (ground (arith, (update_beq_iff v u).0 same))))
  | inr other ↦ let (i, m) = insert-HasKey_self u ip t in (i, rw other (inr m))
]

insert-HasKey :
    (u v : UpdateMsg) (ip : IpAddress) (t : Table) → HasKey v t → HasKey v (insert u ip t)
insert-HasKey u v ip [] (i, m) = absurd m
insert-HasKey u v ip ((x, w) ∷ t) (i, m) = elim (Bool-cases (x == u)) [
  | inl same ↦ rw same (elim m [ inl e ↦ (ip, inl (ground arith)) | inr later ↦ (i, inr later) ])
  | inr other ↦ rw other (elim m [
    | inl e ↦ (i, inl e)
    | inr later ↦ let (j, m') = insert-HasKey u v ip t (i, later) in (j, inr m')
  ])
]

add_all-HasKey :
    (us : List UpdateMsg) (ip : IpAddress) (v : UpdateMsg) (t : Table)
    → HasKey v t
    → HasKey v (add_all us ip t)
add_all-HasKey [] ip v t h = h
add_all-HasKey (u ∷ us) ip v t h = add_all-HasKey us ip v (insert u ip t) (insert-HasKey u v ip t h)

add_all-HasKey_of_In :
    (us : List UpdateMsg) (ip : IpAddress) (v : UpdateMsg) (t : Table)
    → In v us
    → HasKey v (add_all us ip t)
add_all-HasKey_of_In [] ip v t m = absurd m
add_all-HasKey_of_In (u ∷ us) ip v t (inl e) =
    add_all-HasKey us ip v (insert u ip t)
      (subst (λ x. HasKey x (insert u ip t)) (sym e) (insert-HasKey_self u ip t))
add_all-HasKey_of_In (u ∷ us) ip v t (inr m) = add_all-HasKey_of_In us ip v (insert u ip t) m

-- Some key of the table covers the route.
abbrev pub Shown : Table → UpdateMsg → Type 0
Shown t u = (w : UpdateMsg) × HasKey w t × Covers w u

-- A group that can be aggregated.
abbrev IsGroup : IpAddress × List UpdateMsg → Type 0
IsGroup g = (0 < length g.1) × All (λ u. IsAddress u.network) g.1

aggregate_groups_lem :
    (groups : Groups) (t : Table)
    → All IsGroup groups
    → (out : Table) × (aggregate_groups groups t ≡ some (ok out))
      × ((w : UpdateMsg) → HasKey w t → HasKey w out)
      × All (λ g. All (Shown out) g.1) groups
unfolding aggregate_groups
aggregate_groups_lem [] t h = (t, refl, λ w k. k, tt)
aggregate_groups_lem ((ip, group) ∷ rest) t (g, gs) =
    let (us, e, carried) = aggregate_msg_group_lem group g.0 g.1 in
    let (out, e', kept, shown) = aggregate_groups_lem rest (add_all us ip t) gs in
    (
      out,
      rw (e, aggregate_groups) e',
      λ w k. kept w (add_all-HasKey us ip w t k),
      (
        All-map (Carried us) (Shown out) group
            (λ u (w, m, c). (w, kept w (add_all-HasKey_of_In us ip w t m), c)) carried,
        shown,
      ),
    )

-- The message stands in one of the groups.
abbrev Grouped : Groups → UpdateMsg → Type 0
Grouped groups u = (g : IpAddress × List UpdateMsg) × In g groups × In u g.1

-- `append_to` in one pass.
push : IpAddress → UpdateMsg → Groups → Groups
push ip u [] = (ip, u ∷ []) ∷ []
push ip u ((j, g) ∷ rest) = if j == ip then (j, g ++ (u ∷ [])) ∷ rest else (j, g) ∷ push ip u rest

append_to-push :
    (ip : IpAddress) (u : UpdateMsg) (groups : Groups) → append_to ip u groups ≡ push ip u groups
unfolding push
append_to-push ip u [] = refl
append_to-push ip u ((j, g) ∷ rest) = elim (Bool-cases (j == ip)) [
  | inl same ↦ ground arith
  | inr other ↦ elim (Option-cases (lookup ip rest)) [
    | inl absent ↦ ground (arith, append_to-push ip u rest)
    | inr (h, found) ↦ ground (arith, append_to-push ip u rest)
  ]
]

push-IsGroup :
    (ip : IpAddress) (u : UpdateMsg) (groups : Groups)
    → IsAddress u.network
    → All IsGroup groups
    → All IsGroup (push ip u groups)
unfolding push
push-IsGroup ip u [] hu h = ((omega arith, (hu, tt)), tt)
push-IsGroup ip u ((j, g) ∷ rest) hu (hg, hs) = elim (Bool-cases (j == ip)) [
  | inl same ↦ rw same (
    (
      omega (arith, length-append g (u ∷ [])),
      All-append (λ v. IsAddress v.network) g (u ∷ []) hg.1 (hu, tt),
    ),
    hs,
  )
  | inr other ↦ rw other (hg, push-IsGroup ip u rest hu hs)
]

push-Grouped_self :
    (ip : IpAddress) (u : UpdateMsg) (groups : Groups) → Grouped (push ip u groups) u
unfolding push
push-Grouped_self ip u [] = ((ip, u ∷ []), inl refl, inl refl)
push-Grouped_self ip u ((j, g) ∷ rest) = elim (Bool-cases (j == ip)) [
  | inl same ↦ rw same ((j, g ++ (u ∷ [])), inl refl, In-append_right u g (u ∷ []) (inl refl))
  | inr other ↦ let (h, m, k) = push-Grouped_self ip u rest in rw other (h, inr m, k)
]

push-Grouped :
    (ip : IpAddress) (u v : UpdateMsg) (groups : Groups)
    → Grouped groups v
    → Grouped (push ip u groups) v
unfolding push
push-Grouped ip u v [] (h, m, k) = absurd m
push-Grouped ip u v ((j, g) ∷ rest) (h, m, k) = elim (Bool-cases (j == ip)) [
  | inl same ↦ rw same (elim m [
    | inl e ↦
        ((j, g ++ (u ∷ [])), inl refl, In-append_left v g (u ∷ []) (subst (λ x. In v x.1) e k))
    | inr later ↦ (h, inr later, k)
  ])
  | inr other ↦ rw other (elim m [
    | inl e ↦ (h, inl e, k)
    | inr later ↦ let (h', m', k') = push-Grouped ip u v rest (h, later, k) in (h', inr m', k')
  ])
]

group_entries_lem :
    (table : Table) (groups : Groups)
    → All (λ e. IsAddress e.0.network) table
    → All IsGroup groups
    → All IsGroup (group_entries table groups)
      × ((u : UpdateMsg) → Grouped groups u → Grouped (group_entries table groups) u)
      × All (λ e. Grouped (group_entries table groups) e.0) table
unfolding group_entries
group_entries_lem [] groups h gs = (gs, λ u k. k, tt)
group_entries_lem ((u, ip) ∷ rest) groups (hu, hs) gs =
    let grown : All IsGroup (append_to ip u groups) =
      rw (append_to-push ip u groups) (push-IsGroup ip u groups hu gs) in
    let (all, kept, placed) = group_entries_lem rest (append_to ip u groups) hs grown in
    (
      all,
      λ v k. kept v (rw (append_to-push ip u groups) (push-Grouped ip u v groups k)),
      (kept u (rw (append_to-push ip u groups) (push-Grouped_self ip u groups)), placed),
    )

-- A route of the answer: all attributes of the route, and the neighbour that it was learned from.
abbrev pub shown_as : UpdateMsg × IpAddress → DumpPing
shown_as e = record {
  network = e.0.network;
  netmask = e.0.netmask;
  as_path = e.0.as_path;
  localpref = e.0.localpref;
  self_origin = e.0.self_origin;
  origin = e.0.origin;
  peer = e.1;
}

-- A dump from a neighbour is answered by one datagram to the sender and changes nothing else. The
-- aggregation behind it ends within its fuel and never raises, and for every route of the forwarding
-- table the answer has an entry with the same attributes that matches all its addresses.
pub dump_process :
    (r : Router) (sender : IpAddress)
    → All (λ (e : UpdateMsg × IpAddress). IsAddress e.0.network) r.forwarding_table
    → IsNeighbor r sender
    → (shown : Table) × (process sender r
        ≡ some (
          ok tt,
          sending r (
              addressed r sender (record {
                src = gateway_of sender;
                dst = sender;
                type = PacketType.table;
                msg = full_table (map shown_as shown);
              })
              ∷ []),
        ))
      × All (λ (e : UpdateMsg × IpAddress). Shown shown e.0) r.forwarding_table
unfolding process aggregate_forwarding_table
dump_process r sender valid hs =
    let (groups_ok, _, placed) = group_entries_lem r.forwarding_table [] valid tt in
    let (out, e, _, shown) =
      aggregate_groups_lem (group_entries r.forwarding_table []) [] groups_ok in
    (
      out,
      rw (e, process) (rw (network_gateway_lem sender hs.0) (rw (send_lem r sender _ hs))),
      All-map (λ (x : UpdateMsg × IpAddress). Grouped (group_entries r.forwarding_table []) x.0)
          (λ (x : UpdateMsg × IpAddress). Shown out x.0) r.forwarding_table
          (λ x (g, m, k).
            All-In (Shown out) x.0 g.1
              (All-In (λ g. All (Shown out) g.1) g (group_entries r.forwarding_table []) shown m) k)
          placed,
    )
