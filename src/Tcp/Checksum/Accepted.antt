-- ===== src/Tcp/Checksum/Accepted.antt =====
-- The receiver accepts what the sender has built.
use cs.Prelude.{
  ℕ, ◌≡◌, ◌≢◌, ◌⊎◌, refl, ◌∙◌, ap, inl, inr, Bool, true, false, not, List, [], ◌++◌, arith, length,
  Bool-cases,
}
use cs.Prelude.Eq.{◌==◌, ℕ_eq, List_eq, list_eq_iff, eq_self}
use cs.Prelude.Exec.{ok, bind}
use cs.Tcp.Packet.{Packet, to_bytes, from_bytes}
use cs.Tcp.Packet.Bytes.{IsPacket, bytes_of, to_bytes-bytes_of, from_bytes-to_bytes}
use cs.Tcp.Checksum.{
  empty_checksum, replace_checksum, generate_packet_from_empty_checksum, check_for_malformation,
}

pub replaced-IsPacket :
    (p : Packet) (c : List ℕ) → IsPacket p → length c ≡ 16 → IsPacket (replace_checksum c p)
replaced-IsPacket p c v h = record {
  sequence_fits = v.sequence_fits;
  flags_fit = v.flags_fit;
  window_fits = v.window_fits;
  checksum_fits = h;
  length_fits = v.length_fits;
  length_of_data = v.length_of_data;
}

-- The packet with the checksum of its bytes, taken with an empty checksum.
abbrev pub sealed : (List ℕ → List ℕ) → Packet → Packet
sealed hash p = replace_checksum (hash (bytes_of (replace_checksum empty_checksum p))) p

already_empty :
    (p : Packet) → p.header.checksum ≡ empty_checksum → p ≡ replace_checksum empty_checksum p
already_empty p h = ap (λ (c : List ℕ). replace_checksum c p) h

pub generate-sealed :
    (hash : List ℕ → List ℕ) (p : Packet)
    → IsPacket p
    → generate_packet_from_empty_checksum hash p ≡ ok (sealed hash p)
unfolding generate_packet_from_empty_checksum
generate-sealed hash p v =
    let emptied =
      to_bytes-bytes_of (replace_checksum empty_checksum p)
        (replaced-IsPacket p empty_checksum v refl) in
    elim (Bool-cases (p.header.checksum == empty_checksum)) [
      | inl same ↦
          let e = already_empty p ((list_eq_iff p.header.checksum empty_checksum).0 same) in
          rw same (
            ap (λ (q : Packet). bind (to_bytes q) (λ bs. ok (replace_checksum (hash bs) q))) e
            ∙ rw emptied refl)
      | inr other ↦ rw other (rw emptied refl)
    ]

pub malformation_lem :
    (hash : List ℕ → List ℕ) (p : Packet)
    → IsPacket p
    → check_for_malformation hash p
      ≡ ok (not (p.header.checksum == hash (bytes_of (replace_checksum empty_checksum p))))
unfolding check_for_malformation
malformation_lem hash p v =
    rw
      (to_bytes-bytes_of (replace_checksum empty_checksum p)
        (replaced-IsPacket p empty_checksum v refl))
      refl

-- A packet whose fields fit is given a checksum, goes over the wire, and arrives as it was sent: the
-- receiver reads the same packet from the bytes, with the data and the header of the original but for
-- the checksum, and does not take it for mangled.
pub wire_accepts :
    (hash : List ℕ → List ℕ) (p : Packet)
    → ((bs : List ℕ) → length (hash bs) ≡ 16)
    → IsPacket p
    → (q : Packet) × (generate_packet_from_empty_checksum hash p ≡ ok q)
      × (replace_checksum p.header.checksum q ≡ p)
      × (bind (to_bytes q) (λ bs. from_bytes (bs ++ [])) ≡ ok (q, []))
      × (check_for_malformation hash q ≡ ok false)
wire_accepts hash p digest v =
    let q = sealed hash p in
    let fits =
      replaced-IsPacket p (hash (bytes_of (replace_checksum empty_checksum p))) v
        (digest (bytes_of (replace_checksum empty_checksum p))) in
    (
      q,
      generate-sealed hash p v,
      refl,
      from_bytes-to_bytes q [] fits,
      malformation_lem hash q fits ∙ ap (λ (b : Bool). ok (not b)) (eq_self q.header.checksum),
    )

-- A received packet is taken for mangled exactly if its checksum is not the hash of its other
-- bytes.
pub check_for_malformation_lem :
    (hash : List ℕ → List ℕ) (p : Packet)
    → IsPacket p
    → ((check_for_malformation hash p ≡ ok true)
        × (p.header.checksum ≢ hash (bytes_of (replace_checksum empty_checksum p))))
      ⊎ ((check_for_malformation hash p ≡ ok false)
          × (p.header.checksum ≡ hash (bytes_of (replace_checksum empty_checksum p))))
check_for_malformation_lem hash p v =
    let calculated = hash (bytes_of (replace_checksum empty_checksum p)) in
    elim (Bool-cases (p.header.checksum == calculated)) [
      | inl same ↦ inr (
        malformation_lem hash p v ∙ ap (λ (b : Bool). ok (not b)) same,
        (list_eq_iff p.header.checksum calculated).0 same,
      )
      | inr other ↦ inl (
        malformation_lem hash p v ∙ ap (λ (b : Bool). ok (not b)) other,
        λ e. absurd (ground (arith, list_eq_iff p.header.checksum calculated, e, other)),
      )
    ]
