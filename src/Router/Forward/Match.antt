-- ===== src/Router/Forward/Match.antt =====
-- Which entries match an address, and which of two matching entries is preferred.
use cs.Prelude.{
  ℕ, ◌-◌, ◌/◌, ◌^◌, ◌≤◌, ◌<◌, ◌≡◌, ◌⊎◌, inr, refl, Bool, true, false, none, some, arith, length,
}
use cs.Prelude.Eq.{ℕ_eq}
use cs.Prelude.Exec.{ok}
use cs.Router.Address.{IpAddress, mask_length, prefix_shift_amount}
use cs.Router.Packet.{UpdateMsg}
use cs.Router.Forward.{route, matched_subnet, compare_routes, determine_best_route}

-- The address lies in the network of the entry: they agree above the bits that the mask leaves out.
abbrev pub Matches : IpAddress → UpdateMsg → Type 0
Matches d u =
    u.network.binary / 2 ^ (32 - mask_length u.netmask)
    ≡ d.binary / 2 ^ (32 - mask_length u.netmask)

-- A match returns the length of the mask.
pub matched_subnet-some :
    (d : IpAddress) (u : UpdateMsg) (m : ℕ)
    → matched_subnet d u ≡ some m
    → Matches d u × (m ≡ mask_length u.netmask)
unfolding matched_subnet prefix_shift_amount
matched_subnet-some d u m h = ground arith

pub matched_subnet-none :
    (d : IpAddress) (u : UpdateMsg) → matched_subnet d u ≡ none → ¬ Matches d u
unfolding matched_subnet prefix_shift_amount
matched_subnet-none d u h = ground arith

abbrev flag : Bool → ℕ
flag true = 1
flag false = 0

-- `a` is at least as good as `b` by the first three rules: a higher local preference, then an own
-- origin, then a path that is no longer.
abbrev pub AtLeast : UpdateMsg → UpdateMsg → Type 0
AtLeast a b =
    (b.localpref < a.localpref)
    ⊎ ((b.localpref ≡ a.localpref)
        × ((flag b.self_origin < flag a.self_origin)
            ⊎ ((flag b.self_origin ≡ flag a.self_origin) × (length a.as_path ≤ length b.as_path))))

pub AtLeast-refl : (a : UpdateMsg) → AtLeast a a
AtLeast-refl a = inr (refl, inr (refl, omega arith))

pub AtLeast-trans : (a b c : UpdateMsg) → AtLeast a b → AtLeast b c → AtLeast a c
AtLeast-trans a b c p q = omega arith

-- The comparison returns one of its two routes, and the one that it returns is at least as good.
pub compare_routes_best :
    (l : UpdateMsg) (l_ip : IpAddress) (c : UpdateMsg) (c_ip : IpAddress)
    → ((determine_best_route (some l) (some l_ip) c c_ip ≡ ok (route l_ip l)) × AtLeast l c)
      ⊎ ((determine_best_route (some l) (some l_ip) c c_ip ≡ ok (route c_ip c)) × AtLeast c l)
unfolding determine_best_route compare_routes
compare_routes_best l l_ip c c_ip = ground arith
