-- ===== src/Bridge/Launch/Kept.antt =====
-- What every step of a round keeps of the bridge.
use cs.Prelude.{
  ℕ, ◌≡◌, refl, ◌∙◌, ap, inl, inr, Bool, not, Option, none, some, List, map, arith, All-In, All-map,
  get_elem?, Bool-cases,
}
use cs.Prelude.Eq.{ℕ_eq, List_eq, Option_eq}
use cs.Prelude.Exec.{Exec, Result, ok, err, index_error}
use cs.Prelude.Dict.{lookup}
use cs.Prelude.Text.{Text}
use cs.Bridge.Bpdu.{Bpdu, Packet}
use cs.Bridge.Bpdu.Order.{HasPort}
use cs.Bridge.Port.{Port, status_beq}
use cs.Bridge.Port.Status.{IsWellFormed, keys, status_for}
use cs.Bridge.State.{Bridge, on_port, set_elem, send_bpdus}
use cs.Bridge.State.Announced.{announced, send_bpdus_lem}
use cs.Bridge.State.Numbering.{
  HasPlace, map-IsNumbered, map-HasPlace, set_elem-IsNumbered, set_elem-HasPlace, set_elem-All,
  map-All, get_elem?-In,
}
use cs.Bridge.Spanning
use cs.Bridge.Spanning.Seen.{kept, handle_on_lem}
use cs.Bridge.Root.Election.{IsSound}
use cs.Bridge.Forwarding
use cs.Bridge.Forwarding.{add_seen, is_blocked, add_ports, calculate_forwarding_table}
use cs.Bridge.Forwarding.Table.{is_open}
use cs.Bridge.Forwarding.Delivery.{
  is_target, delivered, IsPlaced, forwarded, noted, noted-IsPlaced, handle_lem,
}

-- The invariant of the bridge between two rounds.
abbrev pub IsRunning : Bridge → Type 0
IsRunning b = IsSound b × IsPlaced b

-- The invariant, and the places of the ports.
abbrev pub Keeps : Bridge → Bridge → Type 0
Keeps b b' = IsRunning b' × ((i : ℕ) → HasPlace b.ports i → HasPlace b'.ports i)

moved-IsPlaced :
    (b : Bridge) (ps : List Port)
    → IsPlaced b
    → ((i : ℕ) → HasPlace b.ports i → HasPlace ps i)
    → IsPlaced (record b { ports = ps })
moved-IsPlaced b ps placed moved =
    All-map (λ (e : Text × ℕ). HasPlace b.ports e.1) (λ (e : Text × ℕ). HasPlace ps e.1)
      b.forwarding_table (λ e h. moved e.1 h) placed

on_port-ok :
    {A : Type 0} (i : ℕ) (m : Exec Port A) (b : Bridge) (p : Port) (a : A) (p' : Port)
    → get_elem? b.ports i ≡ some p
    → m p ≡ (ok a, p')
    → on_port i m b ≡ (ok a, record b { ports = set_elem b.ports i p' })
on_port-ok {A} i m b p a p' at done =
    ap
      (λ (o : Option Port). elim o [
        | none ↦ (err index_error, b)
        | some q ↦ ((m q).0, record b { ports = set_elem b.ports i (m q).1 })
      ])
      at
    ∙ ap (λ (x : Result A × Port). (x.0, record b { ports = set_elem b.ports i x.1 })) done

-- One BPDU.
pub spanning-Keeps :
    (now i : ℕ) (bpdu : Bpdu) (b : Bridge)
    → IsRunning b
    → HasPlace b.ports i
    → HasPort bpdu
    → (u : Bool) × (b' : Bridge) × (Spanning.handle now (i, bpdu) b ≡ (ok u, b')) × Keeps b b'
unfolding Spanning.handle
spanning-Keeps now i bpdu b ((numbered, formed, rooted), placed) (p, at) named =
    let (done, _, formed') =
      handle_on_lem now bpdu p named
        (All-In IsWellFormed p b.ports formed (get_elem?-In b.ports i p at)) in
    let new = status_for p.last_bpdu_sent (keys (kept now bpdu p)) in
    let p' : Port = record p { seen_bpdus = kept now bpdu p; status = new } in
    (
      not (status_beq new p.status),
      record b { ports = set_elem b.ports i p' },
      on_port-ok i (Spanning.handle_on now bpdu) b p (not (status_beq new p.status)) p' at done,
      (
        (
          (
            set_elem-IsNumbered 0 i p p' b.ports at refl numbered,
            set_elem-All IsWellFormed i p' b.ports (rw done at formed') formed,
            rooted,
          ),
          moved-IsPlaced b (set_elem b.ports i p') placed
              (λ j h. set_elem-HasPlace i j p' b.ports h),
        ),
        λ j h. set_elem-HasPlace i j p' b.ports h,
      ),
    )

-- One frame.
pub forwarding-Keeps :
    (client : ℕ) (packet : Packet) (b : Bridge)
    → IsRunning b
    → HasPlace b.ports client
    → (b' : Bridge) × (Forwarding.handle (client, packet) b ≡ (ok tt, b')) × Keeps b b'
forwarding-Keeps client packet b ((numbered, formed, rooted), placed) (c, at) =
    let table = noted client packet.source b.forwarding_table in
    let f = delivered packet (is_target client b.root_port (lookup packet.dest table)) in
    let learned = noted-IsPlaced b client packet.source c placed at in
    (
      forwarded b client packet c,
      handle_lem b client packet c numbered placed at,
      elim (Bool-cases (is_open b.root_port c)) [
        | inr blocked ↦ rw blocked (((numbered, formed, rooted), learned), λ i h. h)
        | inl open_port ↦ rw open_port (
          (
            (
              map-IsNumbered f 0 b.ports (λ p. ground arith) numbered,
              map-All IsWellFormed f b.ports (λ p h. ground arith) formed,
              rooted,
            ),
            moved-IsPlaced (record b { forwarding_table = table }) (map f b.ports) learned
                (λ i h. map-HasPlace f b.ports i h),
          ),
          λ i h. map-HasPlace f b.ports i h,
        )
      ],
    )

-- The announcements.
pub announcing-Keeps :
    (now : ℕ) (b : Bridge)
    → IsRunning b
    → (b' : Bridge) × (send_bpdus now b ≡ (ok tt, b')) × Keeps b b'
announcing-Keeps now b ((numbered, formed, rooted), placed) =
    let f = announced b.identity b.root_bpdu in
    (
      record b { last_sent_bpdu = now; ports = map f b.ports },
      send_bpdus_lem now b,
      (
        (
          (
            map-IsNumbered f 0 b.ports (λ p. refl) numbered,
            map-All IsWellFormed f b.ports (λ p h. (h.0, λ x e. (p.index, ground (arith, e))))
                formed,
            rooted,
          ),
          moved-IsPlaced b (map f b.ports) placed (λ i h. map-HasPlace f b.ports i h),
        ),
        λ i h. map-HasPlace f b.ports i h,
      ),
    )
