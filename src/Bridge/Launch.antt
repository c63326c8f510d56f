-- ===== src/Bridge/Launch.antt =====
-- `launch` in 3700Bridge/networks/bridge.py, and one round of its loop.
pub mod Kept
pub mod Recount
pub mod Round
pub mod Whole
use cs.Prelude.{
  ℕ, ◌-◌, Bool, true, false, ◌&&◌, ◌||◌, Option, none, List, [], ◌∷◌, ltb, if◌then◌else◌,
}
use cs.Prelude.Exec.{Exec, Result, pure, gets, modify, ◌>>=◌, ◌>>◌}
use cs.Bridge.Bpdu.{Bpdu, Packet}
use cs.Bridge.Port.{message_timeout}
use cs.Bridge.State.{Bridge, default_root_bpdu, send_bpdus}
use cs.Bridge.Spanning
use cs.Bridge.Root.{calculated_root_changed}
use cs.Bridge.Forwarding
use cs.Bridge.Forwarding.{calculate_forwarding_table}

-- What follows from an updated port: a new table and an election.
unfoldable pub update_tree : Bool → Exec Bridge Bool
update_tree any_port_updated =
    if any_port_updated
    then (do
      modify (λ (b : Bridge). record b { forwarding_table = calculate_forwarding_table b })
      calculated_root_changed)
    else pure false

unfoldable pub announce : ℕ → Bool → Exec Bridge Unit
announce now root_changed = do
  last ← gets (λ (b : Bridge). b.last_sent_bpdu)
  if root_changed || ltb message_timeout (now - last) then send_bpdus now else pure tt

-- The body of the `while`: the BPDUs first, then the frames; all readings of the clock are `now`.
unfoldable pub round : ℕ → List (ℕ × Bpdu) → List (ℕ × Packet) → Exec Bridge Unit
unfolding update_tree announce
round now spanning forwarding = do
  any_port_updated ← Spanning.handle_all now false spanning
  root_changed ← update_tree any_port_updated
  Forwarding.handle_all forwarding
  announce now (any_port_updated && root_changed)

-- What a turn of the `while` accepts, and when.
pub record Accepted : Type 0 where
  pub now : ℕ
  pub spanning : List (ℕ × Bpdu)
  pub forwarding : List (ℕ × Packet)

-- The `while` over what is accepted each time, up to the turn that raises
unfoldable pub rounds : List Accepted → Exec Bridge Unit
unfolding round
rounds [] = pure tt
rounds (accepted ∷ rest) = do round accepted.now accepted.spanning accepted.forwarding; rounds rest

-- `launch`
unfoldable pub launch : ℕ → List Accepted → Exec Bridge Unit
unfolding rounds
launch now turns = do
  modify (λ (b : Bridge). record b { root_port = none; root_bpdu = default_root_bpdu b.identity })
  send_bpdus now
  rounds turns
