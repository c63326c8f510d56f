-- ===== src/Bridge/Root/Stale.antt =====
-- The root port and the root's BPDU do not change together.
use cs.Prelude.{ℕ, ◌≡◌, ◌≢◌, refl, inl, inr, Bool, Option, some, none, Bool-cases}
use cs.Prelude.Eq.{◌==◌, ℕ_eq, List_eq, Option_eq, option_eq_iff}
use cs.Prelude.Exec.{Result, state_of}
use cs.Bridge.Bpdu.{Bpdu}
use cs.Bridge.Bpdu.Order.{bpdu_before}
use cs.Bridge.Port.{Port, disabled, status_beq}
use cs.Bridge.State.{Bridge, default_root_bpdu}
use cs.Bridge.Root.{calculated_root_changed}
use cs.Bridge.Root.Election.{IsSound, one_hop, rerooted, outcome, calculated_root_changed_lem}

-- A changed port comes with the old BPDU.
abbrev KeepsBpdu : Bridge → Result Bool × Bridge → Type 0
KeepsBpdu b r = (state_of r).root_port ≢ b.root_port → (state_of r).root_bpdu ≡ b.root_bpdu

rerooted-KeepsBpdu :
    (b : Bridge) (port : Option ℕ) (bpdu : Bpdu) → KeepsBpdu b (rerooted port bpdu b)
rerooted-KeepsBpdu b port bpdu = elim (Bool-cases (port == b.root_port)) [
  | inl same ↦ rw same (λ changed. absurd (changed ((option_eq_iff port b.root_port).0 same)))
  | inr other ↦ rw other (λ changed. refl)
]

outcome-KeepsBpdu : (b : Bridge) (p : Port) (e : ℕ × Bpdu) → KeepsBpdu b (outcome b p e)
outcome-KeepsBpdu b p (i, best) = elim (Bool-cases (best.root == b.identity)) [
  | inl own ↦ rw own (rerooted-KeepsBpdu b none (default_root_bpdu b.identity))
  | inr other ↦ rw other (elim (Bool-cases (bpdu_before (one_hop best) b.root_bpdu)) [
    | inr worse ↦ rw worse (λ changed. refl)
    | inl better ↦ rw better (elim (Bool-cases (status_beq p.status disabled)) [
      | inr enabled ↦ rw enabled (λ changed. refl)
      | inl blocked ↦
          rw blocked (rerooted-KeepsBpdu b (some i) (record (one_hop best) { id = b.identity }))
    ])
  ])
]

-- Whenever the election changes the root port of a sound bridge, the BPDU of the root stays as it
-- was: the bridge goes on announcing the old root.
pub root_port_without_bpdu :
    (b : Bridge)
    → IsSound b
    → (state_of (calculated_root_changed b)).root_port ≢ b.root_port
    → (state_of (calculated_root_changed b)).root_bpdu ≡ b.root_bpdu
root_port_without_bpdu b sound = elim ((calculated_root_changed_lem b sound).0) [
  | inl (_, e) ↦ rw e (rerooted-KeepsBpdu b none (default_root_bpdu b.identity))
  | inr elected ↦ rw elected.outcome_lem (outcome-KeepsBpdu b elected.port elected.best)
]
