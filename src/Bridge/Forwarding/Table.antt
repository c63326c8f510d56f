-- ===== src/Bridge/Forwarding/Table.antt =====
-- Which port the recalculated table gives for a station.
use cs.Prelude.{
  ℕ, ◌≡◌, refl, ◌∙◌, inl, inr, Bool, true, false, not, ◌&&◌, ◌||◌, Option, none, some, List, [],
  ◌∷◌, arith, Bool-cases, if◌then◌else◌,
}
use cs.Prelude.Eq.{◌==◌, ℕ_eq, List_eq, Option_eq, list_eq_iff}
use cs.Prelude.Dict.{Dict, lookup, contains, insert, lookup-insert_self, lookup-insert_ne}
use cs.Prelude.Text.{Text}
use cs.Bridge.Bpdu.{Bpdu}
use cs.Bridge.Port.{Port, PortStatus, designated, disabled, status_beq}
use cs.Bridge.State.{Bridge}
use cs.Bridge.Forwarding.{add_seen, is_blocked, add_ports, calculate_forwarding_table}

-- The port has seen a BPDU of that bridge.
abbrev pub has_seen : Text → Dict Bpdu (ℕ × ℕ) → Bool
has_seen id [] = false
has_seen id ((bpdu, seen) ∷ rest) = if bpdu.id == id then true else has_seen id rest

-- A port that frames may pass: it is designated, or the root port.
abbrev pub is_open : Option ℕ → Port → Bool
is_open root_port p = status_beq p.status designated || (some p.index == root_port)

pub is_blocked-is_open :
    (root_port : Option ℕ) (p : Port) → is_blocked root_port p ≡ not (is_open root_port p)
is_blocked-is_open root_port p = by_status p.status (some p.index == root_port)
  where
    by_status :
        (s : PortStatus) (is_root : Bool)
        → (status_beq s disabled && not is_root) ≡ not (status_beq s designated || is_root)
    by_status designated is_root = refl
    by_status disabled is_root = refl

-- The first such port that has seen a BPDU of that bridge.
abbrev pub first_seen : Text → Option ℕ → List Port → Option ℕ
first_seen id root_port [] = none
first_seen id root_port (p ∷ ps) =
    if is_open root_port p && has_seen id p.seen_bpdus
    then some p.index
    else first_seen id root_port ps

abbrev or_else : Option ℕ → Option ℕ → Option ℕ
or_else (some a) b = some a
or_else none b = b

or_else-none : (a : Option ℕ) → a ≡ or_else a none
or_else-none none = refl
or_else-none (some a) = refl

pub contains-lookup :
    (k : Text) (d : Dict Text ℕ) → contains k d ≡ elim (lookup k d) [ none ↦ false | some v ↦ true ]
contains-lookup k [] = refl
contains-lookup k ((j, v) ∷ d) = ground (arith, contains-lookup k d)

lookup-added :
    (id k : Text) (i : ℕ) (d : Dict Text ℕ)
    → lookup id (if contains k d then d else insert k i d)
      ≡ or_else (lookup id d) (if k == id then some i else none)
lookup-added id k i d = elim (Bool-cases (k == id)) [
  | inl same ↦ ground (arith, contains-lookup k d, lookup-insert_self k i d, list_eq_iff k id)
  | inr other ↦ ground (arith, contains-lookup k d, lookup-insert_ne id k i d, list_eq_iff k id)
]

add_seen-lookup :
    (id : Text) (i : ℕ) (seen : Dict Bpdu (ℕ × ℕ)) (d : Dict Text ℕ)
    → lookup id (add_seen i seen d)
      ≡ or_else (lookup id d) (if has_seen id seen then some i else none)
add_seen-lookup id i [] d = or_else-none (lookup id d)
add_seen-lookup id i ((bpdu, s) ∷ rest) d =
    add_seen-lookup id i rest (if contains bpdu.id d then d else insert bpdu.id i d)
    ∙ ground (arith, lookup-added id bpdu.id i d)

add_ports-lookup :
    (id : Text) (root_port : Option ℕ) (ps : List Port) (d : Dict Text ℕ)
    → lookup id (add_ports root_port ps d) ≡ or_else (lookup id d) (first_seen id root_port ps)
unfolding add_ports
add_ports-lookup id root_port [] d = or_else-none (lookup id d)
add_ports-lookup id root_port (p ∷ ps) d =
    add_ports-lookup id root_port ps
      (if is_blocked root_port p then d else add_seen p.index p.seen_bpdus d)
    ∙ ground (arith, is_blocked-is_open root_port p, add_seen-lookup id p.index p.seen_bpdus d)

-- The recalculated table sends the frames for a bridge to the first port, in the order of the ports,
-- that is designated or the root port and has seen a BPDU of that bridge, and to none if there is no
-- such port.
pub calculate_forwarding_table_lem :
    (id : Text) (b : Bridge)
    → lookup id (calculate_forwarding_table b) ≡ first_seen id b.root_port b.ports
unfolding calculate_forwarding_table
calculate_forwarding_table_lem id b = add_ports-lookup id b.root_port b.ports []
