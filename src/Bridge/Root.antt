-- ===== src/Bridge/Root.antt =====
-- The election of the root in 3700Bridge/networks/bridge.py: `calculated_root_changed`.
pub mod Election
pub mod Stale
use cs.Prelude.{
  ℕ, ◌+◌, ◌≡◌, Bool, true, false, not, Option, none, some, List, [], ◌∷◌, ◌++◌, map, get_elem?,
  if◌then◌else◌,
}
use cs.Prelude.Eq.{◌==◌, ℕ_eq, List_eq, Option_eq}
use cs.Prelude.Exec.{
  Exec, Result, ok, err, index_error, runtime_error, or_raise, pure, lift, gets, ◌>>=◌, ◌>>◌,
}
use cs.Prelude.Sort.{sorted_or_raise}
use cs.Prelude.Text.{Text}
use cs.Bridge.Bpdu.{Bpdu, Bpdu_eq, bpdu_lt}
use cs.Bridge.Port.{Port, PortStatus, disabled, status_beq}
use cs.Bridge.State.{Bridge, default_root_bpdu}

-- `update_port` and `update_bpdu`
abbrev pub update_port : Option ℕ → Exec Bridge Bool
update_port new b = (ok (not (new == b.root_port)), record b { root_port = new })

abbrev pub update_bpdu : Bpdu → Exec Bridge Bool
update_bpdu new b = (ok (not (new == b.root_bpdu)), record b { root_bpdu = new })

-- `update_port(…) or update_bpdu(…)`: the second is not called where the first is true.
abbrev pub update_root : Option ℕ → Bpdu → Exec Bridge Bool
update_root port bpdu = do
  changed ← update_port port
  if changed then pure true else update_bpdu bpdu

-- `_all_port_bpdus_pairs`
abbrev pub port_pairs : Port → List (ℕ × Bpdu)
port_pairs p = map (λ e. (p.index, e.0)) p.seen_bpdus

abbrev pub all_port_bpdus_pairs : List Port → List (ℕ × Bpdu)
all_port_bpdus_pairs [] = []
all_port_bpdus_pairs (p ∷ ps) = port_pairs p ++ all_port_bpdus_pairs ps

-- The sort key is the BPDU.
abbrev pub pair_lt : ℕ × Bpdu → ℕ × Bpdu → Result Bool
pair_lt (i, a) (j, b) = bpdu_lt a b

-- `possible_root_bpdu.replace(cost=possible_root_bpdu.cost + 1)`
abbrev pub cost_adjusted : Bpdu → Bpdu
cost_adjusted bpdu = record bpdu { cost = bpdu.cost + 1 }

-- The last part, where the best BPDU names another bridge as the root.
unfoldable pub adopt : ℕ → Bpdu → Exec Bridge Bool
adopt index bpdu = do
  current ← gets (λ (b : Bridge). b.root_bpdu)
  better ← lift (bpdu_lt (cost_adjusted bpdu) current)
  if better
      then (do
        ports ← gets (λ (b : Bridge). b.ports)
        port ← lift (or_raise index_error (get_elem? ports index))
        identity ← gets (λ (b : Bridge). b.identity)
        if not (status_beq port.status disabled)
            then lift (err runtime_error)
            else update_root (some index) (record (cost_adjusted bpdu) { id = identity }))
      else pure false

abbrev pub decide_root : Text → List (ℕ × Bpdu) → Exec Bridge Bool
decide_root identity [] = update_root none (default_root_bpdu identity)
decide_root identity ((index, bpdu) ∷ others) =
    if bpdu.root == identity
    then update_root none (default_root_bpdu identity)
    else adopt index bpdu

-- `calculated_root_changed`
unfoldable pub calculated_root_changed : Exec Bridge Bool
unfolding adopt
calculated_root_changed = do
  found ← gets (λ (b : Bridge). sorted_or_raise pair_lt (all_port_bpdus_pairs b.ports))
  pairs ← lift found
  identity ← gets (λ (b : Bridge). b.identity)
  decide_root identity pairs
