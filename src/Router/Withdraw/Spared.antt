-- ===== src/Router/Withdraw/Spared.antt =====
-- Which entries a withdrawal takes and which it spares.
use cs.Prelude.{
  ◌≡◌, ◌≢◌, sym, ap, subst, inl, inr, true, false, List, [], ◌∷◌, arith, All, In, Bool-cases,
}
use cs.Prelude.Dict.{Distinct}
use cs.Router.Address.{IpAddress, address_beq_iff}
use cs.Router.Packet.{NetworkDescription, UpdateMsg, UpdateMsg_eq}
use cs.Router.Withdraw.{is_withdrawn, remove_withdrawn}
use cs.Router.Withdraw.Removed.{
  Table, drop_first, drop_first-Distinct, drop_first-All, remove_withdrawn-cons,
  remove_withdrawn-All,
}

-- The network that an entry is for.
abbrev pub network_of : UpdateMsg → NetworkDescription
network_of u = record { network = u.network; netmask = u.netmask }

-- The entry was not learned from `s`, or is not for the network `d`.
abbrev pub Spared : IpAddress → NetworkDescription → UpdateMsg × IpAddress → Type 0
Spared s d e = e.1 ≡ s → network_of e.0 ≢ d

-- No two entries from `s` are for the same network.
abbrev pub OneRouteEach : IpAddress → Table → Type 0
OneRouteEach s [] = Unit
OneRouteEach s ((u, ip) ∷ rest) =
    (ip ≡ s → All (Spared s (network_of u)) rest) × OneRouteEach s rest

withdrawn_entry :
    (s : IpAddress) (d : NetworkDescription) (u : UpdateMsg) (ip : IpAddress)
    → is_withdrawn s d u ip ≡ true
    → (ip ≡ s) × (network_of u ≡ d)
withdrawn_entry s d u ip h = ground (
  arith,
  address_beq_iff u.network d.network,
  address_beq_iff u.netmask d.netmask,
  address_beq_iff ip s,
)

entry-Spared :
    (s : IpAddress) (d : NetworkDescription) (u : UpdateMsg) (ip : IpAddress)
    → is_withdrawn s d u ip ≡ false
    → Spared s d (u, ip)
entry-Spared s d u ip h same for_d = ground (
  arith,
  address_beq_iff u.network d.network,
  address_beq_iff u.netmask d.netmask,
  address_beq_iff ip s,
  ap (λ (n : NetworkDescription). n.network) for_d,
  ap (λ (n : NetworkDescription). n.netmask) for_d,
)

drop_first-OneRouteEach :
    (s : IpAddress) (d : NetworkDescription) (table : Table)
    → OneRouteEach s table
    → OneRouteEach s (drop_first s d table)
drop_first-OneRouteEach s d [] h = tt
drop_first-OneRouteEach s d ((u, ip) ∷ rest) (one, h) = elim (Bool-cases (is_withdrawn s d u ip)) [
  | inl hit ↦ rw hit h
  | inr miss ↦ rw miss (
    λ e. drop_first-All (Spared s (network_of u)) s d rest (one e),
    drop_first-OneRouteEach s d rest h,
  )
]

drop_first-Spared :
    (s : IpAddress) (d : NetworkDescription) (table : Table)
    → OneRouteEach s table
    → All (Spared s d) (drop_first s d table)
drop_first-Spared s d [] h = tt
drop_first-Spared s d ((u, ip) ∷ rest) (one, h) = elim (Bool-cases (is_withdrawn s d u ip)) [
  | inl hit ↦
      let (from_s, for_d) = withdrawn_entry s d u ip hit in rw hit (rw for_d at (one from_s))
  | inr miss ↦ rw miss (entry-Spared s d u ip miss, drop_first-Spared s d rest h)
]

-- Where the neighbour has at most one route for each network, none is left for a withdrawn network.
pub remove_withdrawn-Spared :
    (s : IpAddress) (ds : List NetworkDescription) (table : Table)
    → Distinct table
    → OneRouteEach s table
    → All (λ d. All (Spared s d) (remove_withdrawn s ds table)) ds
remove_withdrawn-Spared s [] table h one = tt
remove_withdrawn-Spared s (d ∷ ds) table h one =
    subst (λ (t : Table). All (λ x. All (Spared s x) t) (d ∷ ds))
      (sym (remove_withdrawn-cons s d ds table h))
      (
        remove_withdrawn-All (Spared s d) s ds (drop_first s d table)
            (drop_first-Distinct s d table h) (drop_first-Spared s d table one),
        remove_withdrawn-Spared s ds (drop_first s d table) (drop_first-Distinct s d table h)
            (drop_first-OneRouteEach s d table one),
      )

drop_first-In :
    (s : IpAddress) (d : NetworkDescription) (e : UpdateMsg × IpAddress) (table : Table)
    → Spared s d e
    → In e table
    → In e (drop_first s d table)
drop_first-In s d e [] spared m = absurd m
drop_first-In s d e ((u, ip) ∷ rest) spared m = elim (Bool-cases (is_withdrawn s d u ip)) [
  | inl hit ↦ rw hit (elim m [
    | inl same ↦
        let (from_s, for_d) = withdrawn_entry s d u ip hit in
        absurd (subst (Spared s d) same spared from_s for_d)
    | inr later ↦ later
  ])
  | inr miss ↦
      rw miss
        (elim m [ inl same ↦ inl same | inr later ↦ inr (drop_first-In s d e rest spared later) ])
]

-- An entry from another neighbour, or for a network that is not withdrawn, stays.
pub remove_withdrawn-In :
    (s : IpAddress) (ds : List NetworkDescription) (e : UpdateMsg × IpAddress) (table : Table)
    → Distinct table
    → All (λ d. Spared s d e) ds
    → In e table
    → In e (remove_withdrawn s ds table)
remove_withdrawn-In s [] e table h spared m = unfold remove_withdrawn in m
remove_withdrawn-In s (d ∷ ds) e table h spared m = rw (remove_withdrawn-cons s d ds table h) (
    remove_withdrawn-In s ds e (drop_first s d table) (drop_first-Distinct s d table h) spared.1
      (drop_first-In s d e table spared.0 m))
