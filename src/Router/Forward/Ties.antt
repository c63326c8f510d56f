-- ===== src/Router/Forward/Ties.antt =====
-- How the origins and the addresses of the neighbours decide between routes that are otherwise equal.
use cs.Prelude.{◌≡◌, ◌≢◌, some, arith, ltb, length, if◌then◌else◌}
use cs.Prelude.Eq.{◌==◌}
use cs.Prelude.Exec.{ok}
use cs.Router.Address.{IpAddress}
use cs.Router.Packet.{Origin_eq, unknown, UpdateMsg}
use cs.Router.Forward.{route, compare_routes, determine_best_route}

-- The two routes agree on the first three rules.
abbrev pub IsTied : UpdateMsg → UpdateMsg → Type 0
IsTied l c =
    (l.localpref ≡ c.localpref)
    × (l.self_origin ≡ c.self_origin)
    × (length l.as_path ≡ length c.as_path)

-- Of two tied routes with different origins, an unknown origin wins wherever it stands, and between
-- a local and a remote one the contender wins, so that the answer depends on their order.
pub tied_origins :
    (l c : UpdateMsg) (l_ip c_ip : IpAddress)
    → IsTied l c
    → l.origin ≢ c.origin
    → determine_best_route (some l) (some l_ip) c c_ip
      ≡ ok (if l.origin == unknown then route l_ip l else route c_ip c)
unfolding determine_best_route compare_routes
tied_origins l c l_ip c_ip tied differ = ground arith

-- Of two tied routes with the same origin, the neighbour with the lower address wins.
pub tied_neighbors :
    (l c : UpdateMsg) (l_ip c_ip : IpAddress)
    → IsTied l c
    → l.origin ≡ c.origin
    → determine_best_route (some l) (some l_ip) c c_ip
      ≡ ok (if ltb l_ip.binary c_ip.binary then route l_ip l else route c_ip c)
unfolding determine_best_route compare_routes
tied_neighbors l c l_ip c_ip tied same = ground arith
