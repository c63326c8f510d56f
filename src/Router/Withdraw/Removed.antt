-- ===== src/Router/Withdraw/Removed.antt =====
-- What a withdrawal removes from the forwarding table.
use cs.Prelude.{
  ◌≡◌, ◌≢◌, refl, ap, ◌∙◌, ◌&&◌, inl, inr, none, some, List, [], ◌∷◌, arith, All, Bool-cases,
  Option-cases, if◌then◌else◌,
}
use cs.Prelude.Eq.{◌==◌, eq_self}
use cs.Prelude.Dict.{Dict, lookup, Distinct}
use cs.Router.Address.{IpAddress, QuadrupleOctet_eq}
use cs.Router.Packet.{
  NetworkDescription, NetworkDescription_eq, UpdateMsg, UpdateMsg_eq, update_beq_iff,
}
use cs.Router.Withdraw.{is_withdrawn, get_associated_update, remove_found, remove_withdrawn}

abbrev pub Table : Type 0
Table = Dict UpdateMsg IpAddress

-- The table without its first entry for that network from that neighbour.
abbrev pub drop_first : IpAddress → NetworkDescription → Table → Table
drop_first s d [] = []
drop_first s d ((u, ip) ∷ rest) =
    if ((u.network == d.network) && (u.netmask == d.netmask)) && (ip == s)
    then rest
    else (u, ip) ∷ drop_first s d rest

-- The table without, for each of the networks in turn, the first entry from that neighbour.
abbrev pub without : IpAddress → List NetworkDescription → Table → Table
without s [] table = table
without s (d ∷ ds) table = without s ds (drop_first s d table)

abbrev remove_one : IpAddress → NetworkDescription → Table → Table
remove_one s d table = remove_found (get_associated_update s d table) table

get_associated_update-lookup :
    (s : IpAddress) (d : NetworkDescription) (table : Table) (u : UpdateMsg)
    → get_associated_update s d table ≡ some u
    → lookup u table ≢ none
unfolding get_associated_update
get_associated_update-lookup s d [] u e = cc
get_associated_update-lookup s d ((v, ip) ∷ rest) u e =
    ground (arith, update_beq_iff v u, get_associated_update-lookup s d rest u)

-- The key that is found belongs to the first entry that the withdrawal is about.
remove_one-drop_first :
    (s : IpAddress) (d : NetworkDescription) (table : Table)
    → Distinct table
    → remove_one s d table ≡ drop_first s d table
unfolding get_associated_update
remove_one-drop_first s d [] h = refl
remove_one-drop_first s d ((v, ip) ∷ rest) (fresh, h) = elim (Bool-cases (is_withdrawn s d v ip)) [
  | inl hit ↦ ground (arith, eq_self v)
  | inr miss ↦ elim (Option-cases (get_associated_update s d rest)) [
    | inl absent ↦ ground (arith, remove_one-drop_first s d rest h)
    | inr (u, found) ↦ ground (
      arith,
      remove_one-drop_first s d rest h,
      update_beq_iff v u,
      get_associated_update-lookup s d rest u found,
    )
  ]
]

lookup-drop_first :
    (s : IpAddress) (d : NetworkDescription) (k : UpdateMsg) (table : Table)
    → lookup k table ≡ none
    → lookup k (drop_first s d table) ≡ none
lookup-drop_first s d k [] h = refl
lookup-drop_first s d k ((v, ip) ∷ rest) h = ground (arith, lookup-drop_first s d k rest)

pub drop_first-Distinct :
    (s : IpAddress) (d : NetworkDescription) (table : Table)
    → Distinct table
    → Distinct (drop_first s d table)
drop_first-Distinct s d [] h = tt
drop_first-Distinct s d ((v, ip) ∷ rest) (fresh, h) = elim (Bool-cases (is_withdrawn s d v ip)) [
  | inl hit ↦ rw hit h
  | inr miss ↦ rw miss (lookup-drop_first s d v rest fresh, drop_first-Distinct s d rest h)
]

pub drop_first-All :
    (P : UpdateMsg × IpAddress → Type 0) (s : IpAddress) (d : NetworkDescription) (table : Table)
    → All P table
    → All P (drop_first s d table)
drop_first-All P s d [] h = tt
drop_first-All P s d ((v, ip) ∷ rest) h = elim (Bool-cases (is_withdrawn s d v ip)) [
  | inl hit ↦ rw hit h.1
  | inr miss ↦ rw miss (h.0, drop_first-All P s d rest h.1)
]

pub remove_withdrawn-cons :
    (s : IpAddress) (d : NetworkDescription) (ds : List NetworkDescription) (table : Table)
    → Distinct table
    → remove_withdrawn s (d ∷ ds) table ≡ remove_withdrawn s ds (drop_first s d table)
unfolding remove_withdrawn
remove_withdrawn-cons s d ds table h =
    ap (remove_withdrawn s ds) (remove_one-drop_first s d table h)

-- A withdrawal adds nothing: what holds of every entry still does.
pub remove_withdrawn-All :
    (P : UpdateMsg × IpAddress → Type 0) (s : IpAddress) (ds : List NetworkDescription)
    (table : Table)
    → Distinct table
    → All P table
    → All P (remove_withdrawn s ds table)
remove_withdrawn-All P s [] table h all = unfold remove_withdrawn in all
remove_withdrawn-All P s (d ∷ ds) table h all = rw (remove_withdrawn-cons s d ds table h) (
    remove_withdrawn-All P s ds (drop_first s d table) (drop_first-Distinct s d table h)
      (drop_first-All P s d table all))

pub remove_withdrawn-Distinct :
    (s : IpAddress) (ds : List NetworkDescription) (table : Table)
    → Distinct table
    → Distinct (remove_withdrawn s ds table)
remove_withdrawn-Distinct s [] table h = unfold remove_withdrawn in h
remove_withdrawn-Distinct s (d ∷ ds) table h =
    rw (remove_withdrawn-cons s d ds table h)
      (remove_withdrawn-Distinct s ds (drop_first s d table) (drop_first-Distinct s d table h))

pub remove_withdrawn-without :
    (s : IpAddress) (ds : List NetworkDescription) (table : Table)
    → Distinct table
    → remove_withdrawn s ds table ≡ without s ds table
remove_withdrawn-without s [] table h = unfold remove_withdrawn in refl
remove_withdrawn-without s (d ∷ ds) table h =
    remove_withdrawn-cons s d ds table h
    ∙ remove_withdrawn-without s ds (drop_first s d table) (drop_first-Distinct s d table h)

pub without-All :
    (P : UpdateMsg × IpAddress → Type 0) (s : IpAddress) (ds : List NetworkDescription)
    (table : Table)
    → All P table
    → All P (without s ds table)
without-All P s [] table h = h
without-All P s (d ∷ ds) table h =
    without-All P s ds (drop_first s d table) (drop_first-All P s d table h)
