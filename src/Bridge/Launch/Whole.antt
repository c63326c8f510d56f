-- ===== src/Bridge/Launch/Whole.antt =====
-- The whole run of `launch`.
use cs.Prelude.{ℕ, refl, sym, ap, subst, inl, inr, List, [], ◌∷◌, All, All-map}
use cs.Prelude.Exec.{Result, runtime_error, bind-ok, bind-err, state_of}
use cs.Prelude.Text.{Text}
use cs.Bridge.State.{Bridge, launched, send_bpdus}
use cs.Bridge.Launch.{Accepted, round, rounds, launch}
use cs.Bridge.Launch.Kept.{IsRunning, Keeps, announcing-Keeps}
use cs.Bridge.Launch.Round.{BpduFrom, FrameFrom, EndsRunning, round-EndsKeeping, launched-IsRunning}

-- What is accepted came in by ports of the bridge, and every BPDU names a port.
abbrev pub AcceptedFrom : Bridge → Accepted → Type 0
AcceptedFrom b accepted = All (BpduFrom b) accepted.spanning × All (FrameFrom b) accepted.forwarding

later-AcceptedFrom :
    (b b' : Bridge) (accepted : Accepted)
    → Keeps b b'
    → AcceptedFrom b accepted
    → AcceptedFrom b' accepted
later-AcceptedFrom b b' accepted (running, moved) (bpdus, frames) = (
  All-map (BpduFrom b) (BpduFrom b') accepted.spanning (λ r (h, n). (moved r.0 h, n)) bpdus,
  All-map (FrameFrom b) (FrameFrom b') accepted.forwarding (λ r h. moved r.0 h) frames,
)

rounds-EndsRunning :
    (turns : List Accepted) (b : Bridge)
    → IsRunning b
    → All (AcceptedFrom b) turns
    → EndsRunning (rounds turns b)
unfolding rounds
rounds-EndsRunning [] b running from = (inl refl, running)
rounds-EndsRunning (accepted ∷ rest) b running ((bpdus, frames), from) =
    let m = round accepted.now accepted.spanning accepted.forwarding in
    let (ends, keeps) =
      round-EndsKeeping accepted.now accepted.spanning accepted.forwarding b running bpdus frames in
    let b1 = state_of (m b) in
    elim ends [
      | inr (raised, undecided) ↦
          subst EndsRunning
            (sym (
              bind-err m (λ _. rounds rest) b runtime_error b1
                (ap (λ (r : Result Unit). (r, b1)) raised)))
            (inr (refl, undecided), keeps.0)
      | inl done ↦
          subst EndsRunning
            (sym (bind-ok m (λ _. rounds rest) b tt b1 (ap (λ (r : Result Unit). (r, b1)) done)))
            (rounds-EndsRunning rest b1 keeps.0 (
              All-map (AcceptedFrom b) (AcceptedFrom b1) rest
                (λ a h. later-AcceptedFrom b b1 a keeps h) from))
    ]

-- A bridge that is launched on any ports, and accepts in any number of turns BPDUs and frames that come in
-- by its ports, either handles all turns or ends in the RuntimeError of the election, in a state in which the best BPDU
-- seen names another root, is better than the current one even one hop further, and came in by a designated
-- port: no comparison of BPDUs and no look-up of a port ever fails. The bridge is sound at the end.
pub launch_lem :
    (identity : Text) (port_numbers : List ℕ) (now : ℕ) (turns : List Accepted)
    → All (AcceptedFrom (launched identity port_numbers now)) turns
    → EndsRunning (launch now turns (launched identity port_numbers now))
unfolding launch
launch_lem identity port_numbers now turns from =
    let b = launched identity port_numbers now in
    let (b1, e, keeps) = announcing-Keeps now b (launched-IsRunning identity port_numbers now) in
    subst EndsRunning (sym (bind-ok (send_bpdus now) (λ _. rounds turns) b tt b1 e)) (
      rounds-EndsRunning turns b1 keeps.0 (
        All-map (AcceptedFrom b) (AcceptedFrom b1) turns (λ a h. later-AcceptedFrom b b1 a keeps h)
          from))
