-- ===== src/Router/Dump/Exact.antt =====
-- Two neighbouring networks are put together without gaining or losing an address.
use cs.Prelude.{
  ℕ, suc, ◌+◌, ◌-◌, ◌/◌, ◌^◌, ◌<◌, ◌≡◌, ◌≢◌, ◌↔◌, ◌⊎◌, sym, inl, inr, true, [], ◌∷◌, arith, In,
  subst,
}
use cs.Prelude.Exec.{ok}
use cs.Router.Address.{IpAddress, mask_length}
use cs.Router.Address.Mask.{mask_length-le, mask_length-cleared, div_pow_suc}
use cs.Router.Packet.{UpdateMsg}
use cs.Router.Forward.Match.{Matches}
use cs.Router.Dump.{is_match, calculate_aggregation}
use cs.Router.Dump.Rounds.{widened, wider_shift, calculate_aggregation_lem}
use cs.Router.Dump.Merge.{
  Adjacent, Adjacent-refl, is_match-Adjacent, wider_shift_lem, widened-Matches,
}

-- The bits of the network that the mask keeps.
abbrev pub prefix : UpdateMsg → ℕ
prefix u = u.network.binary / 2 ^ (32 - mask_length u.netmask)

-- Two different numbers with the same half are the only ones with that half.
halves : (x y z : ℕ) → x / 2 ≡ y / 2 → x ≢ y → (z / 2 ≡ x / 2) ↔ ((x ≡ z) ⊎ (y ≡ z))
halves x y z h differ = (λ e. ground arith, λ e. ground arith)

-- The half prefix of `s` is the one that `a` and `b` share.
half_matches :
    (a b s d k : ℕ)
    → a / 2 ^ suc k ≡ b / 2 ^ suc k
    → s / 2 ^ suc k ≡ a / 2 ^ suc k
    → a / 2 ^ k ≢ b / 2 ^ k
    → (s / 2 ^ suc k ≡ d / 2 ^ suc k) ↔ ((a / 2 ^ k ≡ d / 2 ^ k) ⊎ (b / 2 ^ k ≡ d / 2 ^ k))
half_matches a b s d k ab sa differ =
    let halved =
      halves (a / 2 ^ k) (b / 2 ^ k) (d / 2 ^ k)
        (omega (arith, div_pow_suc a k, div_pow_suc b k, ab)) differ in
    (
      λ e. halved.0 (omega (arith, div_pow_suc a k, div_pow_suc d k, sa, e)),
      λ e. omega (arith, div_pow_suc a k, div_pow_suc d k, sa, halved.1 e),
    )

-- What one of the two becomes matches exactly what the two match.
one_of_two :
    (a b s : UpdateMsg) (d : IpAddress)
    → Adjacent a b
    → Adjacent a s
    → 0 < mask_length a.netmask
    → prefix a ≢ prefix b
    → Matches d (widened s) ↔ (Matches d a ⊎ Matches d b)
one_of_two a b s d ab sa long differ =
    let k = 32 - mask_length a.netmask in
    let masks_s : s.netmask ≡ a.netmask = sym sa.masks in
    let masks_b : b.netmask ≡ a.netmask = sym ab.masks in
    let differ' : a.network.binary / 2 ^ k ≢ b.network.binary / 2 ^ k = rw masks_b at differ in
    rw (widened-Matches d s (rw masks_s long)) (
      rw (masks_s, masks_b)
        (half_matches a.network.binary b.network.binary s.network.binary d.binary k
          (rw (wider_shift_lem a) at ab.prefixes) (sym (rw (wider_shift_lem a) at sa.prefixes))
          differ'))

one-Adjacent : (a b s : UpdateMsg) → Adjacent a b → In s (a ∷ b ∷ []) → Adjacent a s
one-Adjacent a b s ab m = elim m [
  | inl e ↦ subst (Adjacent a) (sym e) (Adjacent-refl a)
  | inr m' ↦ elim m' [ inl e ↦ subst (Adjacent a) (sym e) ab | inr absent ↦ absurd absent ]
]

shorter_by_one :
    (a s : UpdateMsg)
    → Adjacent a s
    → 0 < mask_length a.netmask
    → mask_length (widened s).netmask + 1 ≡ mask_length a.netmask
shorter_by_one a s sa long =
    let masks : s.netmask ≡ a.netmask = sym sa.masks in
    rw masks (
      omega (
        arith,
        wider_shift_lem a,
        mask_length-le a.netmask,
        mask_length-cleared (wider_shift a) (omega (arith, wider_shift_lem a)),
      ))

-- Two messages that the search takes for adjacent, with a mask that is not empty and with different
-- prefixes, are put together into one whose mask is shorter by one, and which matches an address
-- exactly if one of the two does.
pub aggregation_exact :
    (a b : UpdateMsg)
    → is_match a b ≡ true
    → 0 < mask_length a.netmask
    → prefix a ≢ prefix b
    → (w : UpdateMsg) × (calculate_aggregation (a ∷ b ∷ []) ≡ ok w)
      × (mask_length w.netmask + 1 ≡ mask_length a.netmask)
      × ((d : IpAddress) → Matches d w ↔ (Matches d a ⊎ Matches d b))
aggregation_exact a b h long differ =
    let ab = is_match-Adjacent a b h in
    let (s, m, e) = calculate_aggregation_lem a (b ∷ []) in
    let sa = one-Adjacent a b s ab m in
    (widened s, e, shorter_by_one a s sa long, λ d. one_of_two a b s d ab sa long differ)
