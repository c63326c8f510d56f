-- ===== src/Bridge/Launch/Round.antt =====
-- A round of `launch` keeps the bridge sound.
use cs.Prelude.{
  ℕ, suc, ◌-◌, ◌≡◌, ◌⊎◌, refl, sym, subst, ◌∙◌, ap, inl, inr, Bool, true, false, ◌&&◌, ◌||◌, List,
  [], ◌∷◌, All, All-map, ltb, Bool-cases,
}
use cs.Prelude.Exec.{Exec, Result, ok, err, runtime_error, state_of, bind-ok, bind-err, ◌>>=◌, ◌>>◌}
use cs.Bridge.Bpdu.{Bpdu, Packet}
use cs.Bridge.Bpdu.Order.{HasPort}
use cs.Bridge.Port.{message_timeout}
use cs.Prelude.Text.{Text}
use cs.Bridge.Port.Status.{IsWellFormed}
use cs.Bridge.State.{Bridge, numbered_ports, launched}
use cs.Bridge.State.Numbering.{HasPlace, numbered_ports-IsNumbered}
use cs.Bridge.Spanning
use cs.Bridge.Spanning.Seen.{skips}
use cs.Bridge.Forwarding
use cs.Bridge.Forwarding.{calculate_forwarding_table}
use cs.Bridge.Launch.{update_tree, announce, round}
use cs.Bridge.Launch.Kept.{IsRunning, Keeps, spanning-Keeps, forwarding-Keeps, announcing-Keeps}
use cs.Bridge.Launch.Recount.{Ends, Undecided, recalculated-IsRunning, election-Keeps}

-- The BPDU came in by a port of the bridge and names one; the frame came in by a port of the bridge.
abbrev pub BpduFrom : Bridge → ℕ × Bpdu → Type 0
BpduFrom b (i, bpdu) = HasPlace b.ports i × HasPort bpdu

abbrev pub FrameFrom : Bridge → ℕ × Packet → Type 0
FrameFrom b (i, packet) = HasPlace b.ports i

spanning_batch :
    (now : ℕ) (any : Bool) (requests : List (ℕ × Bpdu)) (b : Bridge)
    → IsRunning b
    → All (BpduFrom b) requests
    → (u : Bool) × (b' : Bridge) × (Spanning.handle_all now any requests b ≡ (ok u, b'))
      × Keeps b b'
unfolding Spanning.handle_all
spanning_batch now any [] b running from = (any, b, refl, (running, λ i h. h))
spanning_batch now true (request ∷ rest) b running from =
    (true, b, skips now (request ∷ rest) b, (running, λ i h. h))
spanning_batch now false ((i, bpdu) ∷ rest) b running ((here, named), from) =
    let (u, b1, done, (running1, moved1)) = spanning-Keeps now i bpdu b running here named in
    let (v, b2, done2, (running2, moved2)) =
      spanning_batch now u rest b1 running1
        (All-map (BpduFrom b) (BpduFrom b1) rest (λ r (h, n). (moved1 r.0 h, n)) from) in
    (
      v,
      b2,
      bind-ok (Spanning.handle now (i, bpdu)) (λ updated. Spanning.handle_all now updated rest) b u
            b1 done
          ∙ done2,
      (running2, λ j h. moved2 j (moved1 j h)),
    )

forwarding_batch :
    (requests : List (ℕ × Packet)) (b : Bridge)
    → IsRunning b
    → All (FrameFrom b) requests
    → (b' : Bridge) × (Forwarding.handle_all requests b ≡ (ok tt, b')) × Keeps b b'
unfolding Forwarding.handle_all
forwarding_batch [] b running from = (b, refl, (running, λ i h. h))
forwarding_batch ((i, packet) ∷ rest) b running (here, from) =
    let (b1, done, (running1, moved1)) = forwarding-Keeps i packet b running here in
    let (b2, done2, (running2, moved2)) =
      forwarding_batch rest b1 running1
        (All-map (FrameFrom b) (FrameFrom b1) rest (λ r h. moved1 r.0 h) from) in
    (
      b2,
      bind-ok (Forwarding.handle (i, packet)) (λ _. Forwarding.handle_all rest) b tt b1 done
          ∙ done2,
      (running2, λ j h. moved2 j (moved1 j h)),
    )

tree-Keeps :
    (any : Bool) (b : Bridge)
    → IsRunning b
    → Ends (update_tree any b) × Keeps b (state_of (update_tree any b))
unfolding update_tree
tree-Keeps true b running =
    election-Keeps (record b { forwarding_table = calculate_forwarding_table b })
      (recalculated-IsRunning b running)
tree-Keeps false b running = (inl (false, refl), (running, λ i h. h))

announce-Keeps :
    (now : ℕ) (changed : Bool) (b : Bridge)
    → IsRunning b
    → (b' : Bridge) × (announce now changed b ≡ (ok tt, b')) × Keeps b b'
unfolding announce
announce-Keeps now changed b running =
    elim (Bool-cases (changed || ltb message_timeout (now - b.last_sent_bpdu))) [
      | inl due ↦ rw due (announcing-Keeps now b running)
      | inr quiet ↦ rw quiet (b, refl, (running, λ i h. h))
    ]

-- The round from its second step on, and from its third.
abbrev finish : ℕ → List (ℕ × Packet) → Bool → Bool → Exec Bridge Unit
finish now forwarding any changed = do
  Forwarding.handle_all forwarding
  announce now (any && changed)

abbrev after : ℕ → List (ℕ × Packet) → Bool → Exec Bridge Unit
after now forwarding any = update_tree any >>= finish now forwarding any

-- A round that returns, or that ends in the RuntimeError of the election.
abbrev pub EndsRunning : Result (Unit {0}) × Bridge → Type 0
EndsRunning r = ((r.0 ≡ ok tt) ⊎ ((r.0 ≡ err runtime_error) × Undecided r.1)) × IsRunning (r.1)

-- The same, where the places of the ports are kept too.
abbrev pub EndsKeeping : Bridge → Result (Unit {0}) × Bridge → Type 0
EndsKeeping b r = ((r.0 ≡ ok tt) ⊎ ((r.0 ≡ err runtime_error) × Undecided r.1)) × Keeps b (r.1)

pub round-EndsKeeping :
    (now : ℕ) (spanning : List (ℕ × Bpdu)) (forwarding : List (ℕ × Packet)) (b : Bridge)
    → IsRunning b
    → All (BpduFrom b) spanning
    → All (FrameFrom b) forwarding
    → EndsKeeping b (round now spanning forwarding b)
unfolding round
round-EndsKeeping now spanning forwarding b running from frames =
    let (any, b1, e1, (running1, moved1)) = spanning_batch now false spanning b running from in
    let (ends, (running2, moved2)) = tree-Keeps any b1 running1 in
    let b2 = state_of (update_tree any b1) in
    let frames2 : All (FrameFrom b2) forwarding =
      All-map (FrameFrom b) (FrameFrom b2) forwarding (λ r h. moved2 r.0 (moved1 r.0 h)) frames in
    let start =
      bind-ok (Spanning.handle_all now false spanning) (after now forwarding) b any b1 e1 in
    elim ends [
      | inr (raised, undecided) ↦
          subst (EndsKeeping b)
            (sym (
              start
              ∙ bind-err (update_tree any) (finish now forwarding any) b1 runtime_error b2
                  (ap (λ (r : Result Bool). (r, b2)) raised)))
            (inr (refl, undecided), (running2, λ i h. moved2 i (moved1 i h)))
      | inl (changed, answered) ↦
          let (b3, e3, (running3, moved3)) = forwarding_batch forwarding b2 running2 frames2 in
          let (b4, e4, (running4, moved4)) = announce-Keeps now (any && changed) b3 running3 in
          subst (EndsKeeping b)
            (sym (
              start
              ∙ bind-ok (update_tree any) (finish now forwarding any) b1 changed b2
                  (ap (λ (r : Result Bool). (r, b2)) answered)
              ∙ bind-ok (Forwarding.handle_all forwarding) (λ _. announce now (any && changed)) b2
                  tt b3 e3
              ∙ e4))
            (inl refl, (running4, λ i h. moved4 i (moved3 i (moved2 i (moved1 i h)))))
    ]

-- A round over BPDUs and frames that came in by ports of the bridge, from a bridge that is sound and
-- whose table names places of ports, leaves such a bridge. It returns, unless the election finds its
-- best BPDU on a designated port and raises the RuntimeError of the code; no comparison of BPDUs and
-- no look-up of a port fails.
pub round_lem :
    (now : ℕ) (spanning : List (ℕ × Bpdu)) (forwarding : List (ℕ × Packet)) (b : Bridge)
    → IsRunning b
    → All (BpduFrom b) spanning
    → All (FrameFrom b) forwarding
    → EndsRunning (round now spanning forwarding b)
round_lem now spanning forwarding b running from frames =
    let (ends, (running', moved)) =
      round-EndsKeeping now spanning forwarding b running from frames in
    (ends, running')

numbered_ports-IsWellFormed : (n : ℕ) (nums : List ℕ) → All IsWellFormed (numbered_ports n nums)
numbered_ports-IsWellFormed n [] = tt
numbered_ports-IsWellFormed n (x ∷ xs) = ((tt, λ b e. cc), numbered_ports-IsWellFormed (suc n) xs)

-- The bridge that is launched satisfies the invariant of the rounds, for any ports.
pub launched-IsRunning :
    (identity : Text) (port_numbers : List ℕ) (now : ℕ)
    → IsRunning (launched identity port_numbers now)
launched-IsRunning identity port_numbers now = (
  (numbered_ports-IsNumbered 0 port_numbers, numbered_ports-IsWellFormed 0 port_numbers, inl refl),
  tt,
)
