-- ===== src/Bridge/Forwarding/Delivery.antt =====
-- Which ports a frame is sent on.
use cs.Prelude.{
  ℕ, zero, suc, ◌+◌, ◌<◌, ◌≡◌, refl, sym, ◌∙◌, ap, inl, inr, Bool, false, not, ◌&&◌, ◌||◌, Option,
  none, some, List, [], ◌∷◌, map, arith, All, All-In, Bool-cases, Option-cases, get_elem?,
  if◌then◌else◌,
}
use cs.Prelude.Eq.{◌==◌, ℕ_eq, List_eq, Option_eq}
use cs.Prelude.Exec.{ok}
use cs.Prelude.Dict.{Dict, lookup, insert, insert-All, lookup-In}
use cs.Prelude.Text.{Text}
use cs.Bridge.Bpdu.{Packet}
use cs.Bridge.Port.{Port, designated, status_beq, send_packet}
use cs.Bridge.State.{Bridge, set_elem}
use cs.Bridge.State.Numbering.{IsNumbered}
use cs.Bridge.Forwarding.Table.{is_open, is_blocked-is_open, contains-lookup}
use cs.Bridge.Forwarding.{learn, broadcast, send_on, deliver, handle}

-- A frame from `client` is sent on the port `p`: to the port of the destination where it is known and
-- is not `client`, and else to every other port that is designated or the root port.
abbrev pub is_target : ℕ → Option ℕ → Option ℕ → Port → Bool
is_target client root_port none p =
    not (p.index == client) && (status_beq p.status designated || (some p.index == root_port))
is_target client root_port (some dest) p = not (dest == client) && (p.index == dest)

-- What becomes of a port.
abbrev pub delivered : Packet → (Port → Bool) → Port → Port
delivered packet target p = if target p then send_packet packet p else p

-- Every station in the table stands behind a port of the bridge.
abbrev pub IsPlaced : Bridge → Type 0
IsPlaced b =
    All (λ (e : Text × ℕ). (p : Port) × (get_elem? b.ports e.1 ≡ some p)) b.forwarding_table

broadcast-map :
    (client : ℕ) (root_port : Option ℕ) (k : ℕ) (packet : Packet) (ps : List Port)
    → IsNumbered k ps
    → broadcast client root_port k packet ps
      ≡ map (delivered packet (is_target client root_port none)) ps
broadcast-map client root_port k packet [] h = refl
broadcast-map client root_port k packet (p ∷ ps) (e, h) =
    rw (broadcast-map client root_port (suc k) packet ps h) (rw e refl)

later_untouched :
    (packet : Packet) (n k : ℕ) (ps : List Port)
    → IsNumbered n ps
    → k < n
    → map (delivered packet (λ p. p.index == k)) ps ≡ ps
later_untouched packet n k [] h lt = refl
later_untouched packet n k (p ∷ ps) (e, h) lt =
    ground (arith, e, later_untouched packet (suc n) k ps h)

set_elem-map :
    (packet : Packet) (n j : ℕ) (p : Port) (ps : List Port)
    → IsNumbered n ps
    → get_elem? ps j ≡ some p
    → set_elem ps j (send_packet packet p) ≡ map (delivered packet (λ q. q.index == n + j)) ps
set_elem-map packet n j p [] h at = cc
set_elem-map packet n zero p (q ∷ ps) (e, h) at =
    ground (arith, e, later_untouched packet (suc n) n ps h)
set_elem-map packet n (suc j) p (q ∷ ps) (e, h) at =
    ground (arith, e, set_elem-map packet (suc n) j p ps h at)

-- The table in which a station that is not known yet stands behind the port `client`.
abbrev pub noted : ℕ → Text → Dict Text ℕ → Dict Text ℕ
noted client source table = elim (lookup source table) [
  | none ↦ insert source client table
  | some i ↦ table
]

learn-noted :
    (client : ℕ) (source : Text) (table : Dict Text ℕ)
    → learn client source table ≡ noted client source table
learn-noted client source table = elim (Option-cases (lookup source table)) [
  | inl absent ↦ ground (arith, contains-lookup source table, absent)
  | inr (i, found) ↦ ground (arith, contains-lookup source table, found)
]

pub noted-IsPlaced :
    (b : Bridge) (client : ℕ) (source : Text) (c : Port)
    → IsPlaced b
    → get_elem? b.ports client ≡ some c
    → IsPlaced (record b { forwarding_table = noted client source b.forwarding_table })
noted-IsPlaced b client source c placed at =
    elim (Option-cases (lookup source b.forwarding_table)) [
      | inr (i, known) ↦ rw (known, noted) placed
      | inl new ↦
          rw (new, noted)
            (insert-All (λ (i : ℕ). (p : Port) × (get_elem? b.ports i ≡ some p)) source client
              b.forwarding_table placed (c, at))
    ]

-- The bridge after a frame: a source that is not in the table is put in it, with the port that the frame
-- came by, and the ports have sent the frame or not.
abbrev pub forwarded : Bridge → ℕ → Packet → Port → Bridge
forwarded b client packet c =
    let table = noted client packet.source b.forwarding_table in
    record b {
      forwarding_table = table;
      ports =
          if is_open b.root_port c
          then map (delivered packet (is_target client b.root_port (lookup packet.dest table)))
              b.ports
          else b.ports;
    }

untouched :
    (packet : Packet) (target : Port → Bool) (ps : List Port)
    → ((p : Port) → target p ≡ false)
    → map (delivered packet target) ps ≡ ps
untouched packet target [] h = refl
untouched packet target (p ∷ ps) h = rw (untouched packet target ps h, h p) refl

same_targets :
    (packet : Packet) (t u : Port → Bool) (ps : List Port)
    → ((p : Port) → t p ≡ u p)
    → map (delivered packet t) ps ≡ map (delivered packet u) ps
same_targets packet t u [] h = refl
same_targets packet t u (p ∷ ps) h = rw (same_targets packet t u ps h, h p) refl

send_on_lem :
    (b : Bridge) (j : ℕ) (packet : Packet) (p : Port)
    → get_elem? b.ports j ≡ some p
    → send_on j packet b ≡ (ok tt, record b { ports = set_elem b.ports j (send_packet packet p) })
send_on_lem b j packet p at = ground (arith, at)

deliver_lem :
    (b : Bridge) (client : ℕ) (packet : Packet) (dest : Option ℕ)
    → IsNumbered 0 b.ports
    → ((j : ℕ) → dest ≡ some j → (p : Port) × (get_elem? b.ports j ≡ some p))
    → deliver client packet dest b ≡ (
      ok tt,
      record b { ports = map (delivered packet (is_target client b.root_port dest)) b.ports },
    )
deliver_lem b client packet none numbered there =
    rw (broadcast-map client b.root_port 0 packet b.ports numbered) refl
deliver_lem b client packet (some j) numbered there = elim (Bool-cases (j == client)) [
  | inl back ↦ rw back (
      ap (λ (ps : List Port). (ok tt, record b { ports = ps }))
        (sym
          (untouched packet (is_target client b.root_port (some j)) b.ports (λ p. rw back refl))))
  | inr onward ↦
      let (p, at) = there j refl in
      rw onward (
        send_on_lem b j packet p at
        ∙ ap (λ (ps : List Port). (ok tt, record b { ports = ps }))
            (set_elem-map packet 0 j p b.ports numbered at
              ∙ same_targets packet (λ q. q.index == 0 + j) (is_target client b.root_port (some j))
                  b.ports (λ q. ground (arith, onward))))
]

-- A frame from a port of the bridge never raises. A source that is not in the table is put in it with
-- that port, and a source that is in it keeps its port. If the port is neither designated nor the root
-- port, nothing is sent. Otherwise the frame is sent once on each target, and on no other port: the known
-- port of the destination, if that is not the one it came by, or every other port that is designated or
-- the root port where the destination is unknown.
pub handle_lem :
    (b : Bridge) (client : ℕ) (packet : Packet) (c : Port)
    → IsNumbered 0 b.ports
    → IsPlaced b
    → get_elem? b.ports client ≡ some c
    → handle (client, packet) b ≡ (ok tt, forwarded b client packet c)
unfolding handle
handle_lem b client packet c numbered placed at =
    let table = noted client packet.source b.forwarding_table in
    rw (at, learn-noted client packet.source b.forwarding_table, is_blocked-is_open b.root_port c)
      (elim (Bool-cases (is_open b.root_port c)) [
        | inr blocked ↦ rw blocked refl
        | inl open_port ↦ rw open_port (
            deliver_lem (record b { forwarding_table = table }) client packet
              (lookup packet.dest table) numbered
              (λ j found.
                All-In (λ (e : Text × ℕ). (p : Port) × (get_elem? b.ports e.1 ≡ some p))
                  (packet.dest, j) table (noted-IsPlaced b client packet.source c placed at)
                  (lookup-In packet.dest j table found)))
      ])
