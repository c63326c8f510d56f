-- ===== src/Router/Dump/Merge.antt =====
-- What the aggregation keeps of the routes.
use cs.Prelude.{
  suc, ◌-◌, ◌/◌, ◌^◌, ◌<◌, ◌≡◌, ◌⊎◌, refl, sym, inl, inr, true, some, List, [], ◌∷◌, ◌++◌, arith,
  All, All-In, All-map, All-of_In, All-keep, All-append, In, In-keep, keep-passes, subst,
  In-append_left, In-append_right, keep, length, nat_eq, nat_eq_iff, Bool-cases, if◌then◌else◌,
}
use cs.Prelude.Eq.{ℕ_eq, list_eq_iff, bool_eq_iff}
use cs.Prelude.Exec.{ok}
use cs.Router.Address.{IpAddress, IsAddress, address_beq_iff, mask_length, prefix_shift_amount}
use cs.Router.Address.Mask.{mask_length-le, mask_length-cleared, div_pow_suc}
use cs.Router.Packet.{UpdateMsg, UpdateMsg_eq, origin_beq_iff}
use cs.Router.Forward.Match.{Matches}
use cs.Router.Dump.{is_match, aggregate_msg_group}
use cs.Router.Dump.Rounds.{unmatched, widened, wider_shift}
use cs.Router.Dump.Ends.{aggregate_msg_group-Ends}

-- Two messages have everything but the network and its mask in common.
abbrev pub SameAttributes : UpdateMsg → UpdateMsg → Type 0
SameAttributes a b =
    (a.as_path ≡ b.as_path)
    × (a.localpref ≡ b.localpref)
    × (a.self_origin ≡ b.self_origin)
    × (a.origin ≡ b.origin)

-- The attributes are the same, and `w` matches every address that `u` matches.
pub record Covers (w u : UpdateMsg) : Type 0 where
  pub attributes : SameAttributes w u
  pub addresses : (d : IpAddress) → IsAddress d → Matches d u → Matches d w

pub Covers-refl : (u : UpdateMsg) → Covers u u
Covers-refl u = record { attributes = (refl, refl, refl, refl); addresses = λ d h m. m }

pub Covers-trans : (a b c : UpdateMsg) → Covers a b → Covers b c → Covers a c
Covers-trans a b c p q = record {
  attributes = ground (arith, p.attributes, q.attributes);
  addresses = λ d h m. p.addresses d h (q.addresses d h m);
}

-- What the test of `_find_matching_messages` says of two messages.
pub record Adjacent (a b : UpdateMsg) : Type 0 where
  pub attributes : SameAttributes a b
  pub masks : a.netmask ≡ b.netmask
  pub prefixes : a.network.binary / 2 ^ wider_shift a ≡ b.network.binary / 2 ^ wider_shift a

pub is_match-Adjacent : (a b : UpdateMsg) → is_match a b ≡ true → Adjacent a b
is_match-Adjacent a b h = record {
  attributes = ground (
    arith,
    list_eq_iff a.as_path b.as_path,
    bool_eq_iff a.self_origin b.self_origin,
    origin_beq_iff a.origin b.origin,
  );
  masks = ground (arith, address_beq_iff a.netmask b.netmask);
  prefixes = ground arith;
}

pub wider_shift_lem : (u : UpdateMsg) → wider_shift u ≡ suc (32 - mask_length u.netmask)
unfolding prefix_shift_amount
wider_shift_lem u = omega arith

-- The bits that the shorter mask leaves out.
pub widened_shift :
    (u : UpdateMsg)
    → 32 - mask_length (widened u).netmask
      ≡ (if nat_eq (mask_length u.netmask) 0 then 32 else suc (32 - mask_length u.netmask))
widened_shift u =
    ground (arith, wider_shift_lem u, mask_length-le u.netmask, mask_length-cleared (wider_shift u))

-- With a mask that is not empty, the shorter mask leaves out one bit more.
pub widened-Matches :
    (d : IpAddress) (u : UpdateMsg)
    → 0 < mask_length u.netmask
    → Matches d (widened u) ≡ (
        u.network.binary / 2 ^ suc (32 - mask_length u.netmask)
        ≡ d.binary / 2 ^ suc (32 - mask_length u.netmask))
widened-Matches d u h =
    let e : 32 - mask_length (widened u).netmask ≡ suc (32 - mask_length u.netmask) =
      ground (arith, widened_shift u) in
    rw e refl

widened-Matches_all :
    (d : IpAddress) (u : UpdateMsg)
    → mask_length u.netmask ≡ 0
    → IsAddress d
    → IsAddress u.network
    → Matches d (widened u)
widened-Matches_all d u h hd hu =
    let e : 32 - mask_length (widened u).netmask ≡ 32 = ground (arith, widened_shift u) in
    rw e (omega arith)

-- Messages that are adjacent to the same one have prefixes in common.
widened_addresses :
    (first s u : UpdateMsg) (d : IpAddress)
    → Adjacent first s
    → Adjacent first u
    → IsAddress d
    → IsAddress s.network
    → Matches d u
    → Matches d (widened s)
widened_addresses first s u d ps pu hd hs m = elim (Bool-cases (nat_eq (mask_length s.netmask) 0)) [
  | inl empty ↦ widened-Matches_all d s ((nat_eq_iff _ _).0 empty) hd hs
  | inr filled ↦
      let same_s : s.netmask ≡ first.netmask = sym ps.masks in
      let same_u : u.netmask ≡ first.netmask = sym pu.masks in
      let k = 32 - mask_length first.netmask in
      let m' : u.network.binary / 2 ^ k ≡ d.binary / 2 ^ k = rw same_u at m in
      rw (widened-Matches d s (ground arith)) (
        rw same_s (
          omega (
            arith,
            m',
            div_pow_suc u.network.binary k,
            div_pow_suc d.binary k,
            rw (wider_shift_lem first) at ps.prefixes,
            rw (wider_shift_lem first) at pu.prefixes,
          )))
]

widened-Covers :
    (first s u : UpdateMsg)
    → Adjacent first s
    → Adjacent first u
    → IsAddress s.network
    → Covers (widened s) u
widened-Covers first s u ps pu hs = record {
  attributes = ground (arith, ps.attributes, pu.attributes);
  addresses = λ d hd m. widened_addresses first s u d ps pu hd hs m;
}

-- A message of the list covers `u`.
abbrev pub Carried : List UpdateMsg → UpdateMsg → Type 0
Carried out u = (w : UpdateMsg) × In w out × Covers w u

-- Every route of the group is carried, and the networks are addresses.
abbrev Carries : List UpdateMsg → List UpdateMsg → Type 0
Carries group out = All (Carried out) group × All (λ u. IsAddress u.network) out

pub Adjacent-refl : (u : UpdateMsg) → Adjacent u u
Adjacent-refl u = record { attributes = (refl, refl, refl, refl); masks = refl; prefixes = refl }

matched-Adjacent :
    (first u : UpdateMsg) (rest : List UpdateMsg)
    → In u (first ∷ keep (is_match first) rest)
    → Adjacent first u
matched-Adjacent first u rest (inl e) = subst (Adjacent first) (sym e) (Adjacent-refl first)
matched-Adjacent first u rest (inr m) = is_match-Adjacent first u (
    All-In (λ c. is_match first c ≡ true) u (keep (is_match first) rest)
      (keep-passes (is_match first) rest) m)

In-turn :
    (w first : UpdateMsg) (rest : List UpdateMsg)
    → In w (first ∷ rest)
    → In w (rest ++ (first ∷ []))
In-turn w first rest (inl e) = In-append_right w rest (first ∷ []) (inl e)
In-turn w first rest (inr m) = In-append_left w rest (first ∷ []) m

turn-Carries :
    (group : List UpdateMsg) (first : UpdateMsg) (rest : List UpdateMsg)
    → Carries group (first ∷ rest)
    → Carries group (rest ++ (first ∷ []))
turn-Carries group first rest (carried, valid) = (
  All-map (Carried (first ∷ rest)) (Carried (rest ++ (first ∷ []))) group
      (λ u (w, m, c). (w, In-turn w first rest m, c)) carried,
  All-append (λ u. IsAddress u.network) rest (first ∷ []) valid.1 (valid.0, tt),
)

merged-Carried :
    (first s : UpdateMsg) (rest : List UpdateMsg) (w : UpdateMsg)
    → In s (first ∷ keep (is_match first) rest)
    → IsAddress s.network
    → In w (first ∷ rest)
    → Carried (keep (unmatched first) rest ++ (widened s ∷ [])) w
merged-Carried first s rest w ms hs m = elim (place m) [
  | inl matched ↦ (
    widened s,
    In-append_right (widened s) (keep (unmatched first) rest) (widened s ∷ []) (inl refl),
    widened-Covers first s w (matched-Adjacent first s rest ms)
        (matched-Adjacent first w rest matched) hs,
  )
  | inr other ↦
      (w, In-append_left w (keep (unmatched first) rest) (widened s ∷ []) other, Covers-refl w)
]
  where
    place :
        In w (first ∷ rest)
        → In w (first ∷ keep (is_match first) rest) ⊎ In w (keep (unmatched first) rest)
    place (inl e) = inl (inl e)
    place (inr later) = elim (In-keep (is_match first) w rest later) [
      | inl k ↦ inl (inr k)
      | inr k ↦ inr k
    ]

merge-Carries :
    (group : List UpdateMsg) (first s : UpdateMsg) (rest : List UpdateMsg)
    → In s (first ∷ keep (is_match first) rest)
    → Carries group (first ∷ rest)
    → Carries group (keep (unmatched first) rest ++ (widened s ∷ []))
merge-Carries group first s rest ms (carried, valid) =
    let hs =
      All-In (λ u. IsAddress u.network) s (first ∷ keep (is_match first) rest)
        (valid.0, All-keep (λ u. IsAddress u.network) (is_match first) rest valid.1) ms in
    (
      All-map (Carried (first ∷ rest)) (Carried (keep (unmatched first) rest ++ (widened s ∷ [])))
          group
          (λ u (w, m, c).
            let (w', m', c') = merged-Carried first s rest w ms hs m in
            (w', m', Covers-trans w' w u c' c))
          carried,
      All-append (λ u. IsAddress u.network) (keep (unmatched first) rest) (widened s ∷ [])
          (All-keep (λ u. IsAddress u.network) (unmatched first) rest valid.1) (hs, tt),
    )

-- The aggregation of a group that is not empty ends within its fuel, never raises, and loses no
-- route: for each message of the group, the result has one with the same attributes that matches
-- every address which the message matches.
pub aggregate_msg_group_lem :
    (group : List UpdateMsg)
    → 0 < length group
    → All (λ u. IsAddress u.network) group
    → (out : List UpdateMsg) × (aggregate_msg_group group ≡ some (ok out)) × All (Carried out) group
aggregate_msg_group_lem group h valid =
    let (out, e, (carried, _)) =
      aggregate_msg_group-Ends (Carries group) (turn-Carries group) (merge-Carries group) group h
        (All-of_In (Carried group) group (λ u m. (u, m, Covers-refl u)), valid) in
    (out, e, carried)
