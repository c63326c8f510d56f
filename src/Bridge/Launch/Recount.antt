-- ===== src/Bridge/Launch/Recount.antt =====
-- What a new table and an election keep of the bridge.
use cs.Prelude.{
  ℕ, ◌≡◌, ◌⊎◌, refl, inl, inr, Bool, true, false, Option, none, some, List, [], ◌∷◌, All, All-of_In,
  In, get_elem?, Bool-cases,
}
use cs.Prelude.Eq.{◌==◌, ℕ_eq, List_eq, Option_eq}
use cs.Prelude.Exec.{Result, ok, err, runtime_error, state_of}
use cs.Prelude.Dict.{Dict, contains, insert, insert-All}
use cs.Prelude.Text.{Text}
use cs.Bridge.Bpdu.{Bpdu}
use cs.Bridge.Bpdu.Order.{bpdu_before}
use cs.Bridge.Port.{Port, PortStatus, designated, disabled, status_beq}
use cs.Bridge.State.{Bridge, default_root_bpdu}
use cs.Bridge.State.Numbering.{HasPlace, get_elem?-index}
use cs.Bridge.Root.{all_port_bpdus_pairs, calculated_root_changed}
use cs.Bridge.Root.Election.{IsSound, one_hop, rerooted, outcome, calculated_root_changed_lem}
use cs.Bridge.Forwarding.{add_seen, is_blocked, add_ports, calculate_forwarding_table}
use cs.Bridge.Launch.Kept.{IsRunning, Keeps}

-- The table that is made anew names places of ports.
add_seen-All :
    (P : ℕ → Type 0) (i : ℕ) (seen : Dict Bpdu (ℕ × ℕ)) (table : Dict Text ℕ)
    → P i
    → All (λ (e : Text × ℕ). P e.1) table
    → All (λ (e : Text × ℕ). P e.1) (add_seen i seen table)
add_seen-All P i [] table hi h = h
add_seen-All P i ((bpdu, s) ∷ rest) table hi h = elim (Bool-cases (contains bpdu.id table)) [
  | inl known ↦ rw known (add_seen-All P i rest table hi h)
  | inr new ↦
      rw new (add_seen-All P i rest (insert bpdu.id i table) hi (insert-All P bpdu.id i table h hi))
]

add_ports-All :
    (P : ℕ → Type 0) (root_port : Option ℕ) (ps : List Port) (table : Dict Text ℕ)
    → All (λ (p : Port). P p.index) ps
    → All (λ (e : Text × ℕ). P e.1) table
    → All (λ (e : Text × ℕ). P e.1) (add_ports root_port ps table)
unfolding add_ports
add_ports-All P root_port [] table hp h = h
add_ports-All P root_port (p ∷ ps) table (hp, hps) h = elim (Bool-cases (is_blocked root_port p)) [
  | inl blocked ↦ rw blocked (add_ports-All P root_port ps table hps h)
  | inr open_port ↦ rw open_port (
      add_ports-All P root_port ps (add_seen p.index p.seen_bpdus table) hps
        (add_seen-All P p.index p.seen_bpdus table hp h))
]

pub recalculated-IsRunning :
    (b : Bridge)
    → IsRunning b
    → IsRunning (record b { forwarding_table = calculate_forwarding_table b })
unfolding calculate_forwarding_table
recalculated-IsRunning b ((numbered, formed, rooted), placed) = (
  (numbered, formed, rooted),
  add_ports-All (HasPlace b.ports) b.root_port b.ports []
      (All-of_In (λ (p : Port). HasPlace b.ports p.index) b.ports
        (λ p m. (p, get_elem?-index p b.ports numbered m)))
      tt,
)

-- The best BPDU that the bridge has seen names another root, is better than the BPDU of the current
-- root although it is one hop further, and came in by a port that is designated.
pub record Undecided (b : Bridge) : Type 0 where
  pub best : ℕ × Bpdu
  pub listed : In best (all_port_bpdus_pairs b.ports)
  pub least : All (λ e. bpdu_before e.1 best.1 ≡ false) (all_port_bpdus_pairs b.ports)
  pub port : Port
  pub came_by : get_elem? b.ports best.0 ≡ some port
  pub other_root : (best.1.root == b.identity) ≡ false
  pub is_better : bpdu_before (one_hop best.1) b.root_bpdu ≡ true
  pub on_designated : port.status ≡ designated

-- An election that ends, with an answer or with the RuntimeError of the code, which leaves a bridge
-- that is undecided.
abbrev pub Ends : Result Bool × Bridge → Type 0
Ends r = ((u : Bool) × (r.0 ≡ ok u)) ⊎ ((r.0 ≡ err runtime_error) × Undecided r.1)

-- An election changes nothing but the root.
abbrev pub ChangesRoot : Bridge → Bridge → Type 0
ChangesRoot b b' = (b'.ports ≡ b.ports) × (b'.forwarding_table ≡ b.forwarding_table)

rerooted-Ends :
    (b : Bridge) (port : Option ℕ) (bpdu : Bpdu)
    → Ends (rerooted port bpdu b) × ChangesRoot b (state_of (rerooted port bpdu b))
rerooted-Ends b port bpdu = elim (Bool-cases (port == b.root_port)) [
  | inl same ↦ rw same (inl (_, refl), (refl, refl))
  | inr other ↦ rw other (inl (true, refl), (refl, refl))
]

not_disabled : (s : PortStatus) → status_beq s disabled ≡ false → s ≡ designated
not_disabled designated e = refl
not_disabled disabled e = cc

outcome-Ends :
    (b : Bridge) (p : Port) (e : ℕ × Bpdu)
    → In e (all_port_bpdus_pairs b.ports)
    → All (λ z. bpdu_before z.1 e.1 ≡ false) (all_port_bpdus_pairs b.ports)
    → get_elem? b.ports e.0 ≡ some p
    → Ends (outcome b p e) × ChangesRoot b (state_of (outcome b p e))
outcome-Ends b p (i, best) m least at = elim (Bool-cases (best.root == b.identity)) [
  | inl own ↦ rw own (rerooted-Ends b none (default_root_bpdu b.identity))
  | inr other ↦ rw other (elim (Bool-cases (bpdu_before (one_hop best) b.root_bpdu)) [
    | inr worse ↦ rw worse (inl (false, refl), (refl, refl))
    | inl better ↦ rw better (elim (Bool-cases (status_beq p.status disabled)) [
      | inr enabled ↦ rw enabled (
        inr (
          refl,
          record {
            best = (i, best);
            listed = m;
            least = least;
            port = p;
            came_by = at;
            other_root = other;
            is_better = better;
            on_designated = not_disabled p.status enabled;
          },
        ),
        (refl, refl),
      )
      | inl blocked ↦
          rw blocked (rerooted-Ends b (some i) (record (one_hop best) { id = b.identity }))
    ])
  ])
]

election-Ends :
    (b : Bridge)
    → IsSound b
    → Ends (calculated_root_changed b) × ChangesRoot b (state_of (calculated_root_changed b))
election-Ends b sound = elim ((calculated_root_changed_lem b sound).0) [
  | inl (_, e) ↦ rw e (rerooted-Ends b none (default_root_bpdu b.identity))
  | inr elected ↦
      rw elected.outcome_lem
        (outcome-Ends b elected.port elected.best elected.listed elected.least elected.came_by)
]

-- An election.
pub election-Keeps :
    (b : Bridge)
    → IsRunning b
    → Ends (calculated_root_changed b) × Keeps b (state_of (calculated_root_changed b))
election-Keeps b (sound, placed) =
    let (ends, (same_ports, same_table)) = election-Ends b sound in
    (
      ends,
      (
        ((calculated_root_changed_lem b sound).1, rw (same_ports, same_table) placed),
        λ i h. rw same_ports h,
      ),
    )
