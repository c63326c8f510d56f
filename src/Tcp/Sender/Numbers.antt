-- ===== src/Tcp/Sender/Numbers.antt =====
-- The packet that the sender makes from its source, and the number it gives it.
use cs.Prelude.{
  ℕ, ◌+◌, ◌≤◌, ◌≡◌, subst, ap, false, refl, ◌∙◌, inl, inr, Option, some, List, [], ◌∷◌, ◌++◌, arith,
  length, nat_eq, nat_eq_iff,
}
use cs.Prelude.Exec.{
  Error, Result, ok, err, bind, bind-ok, Result-cases, lift, modify, pure, ◌>>=◌, ◌>>◌,
}
use cs.Prelude.Dict.{insert}
use cs.Tcp.Packet.{Packet, to_bytes, from_bytes}
use cs.Tcp.Packet.Equality.{Packet_eq}
use cs.Tcp.Packet.Bytes.{IsPacket}
use cs.Tcp.Checksum.{generate_packet_from_empty_checksum, check_for_malformation}
use cs.Tcp.Checksum.Accepted.{wire_accepts}
use cs.Tcp.Sender.{
  Sender, send_packet, data_packet, prepare_send_packet, send_prepared, read_source,
}

-- The sender after it has sent the packet.
abbrev pub after_send : ℕ → Packet → List ℕ → Sender → Sender
after_send now q bs s = record s {
  packets_in_flight = insert q now s.packets_in_flight;
  syn_number = s.syn_number + 1;
  sent = s.sent ++ (bs ∷ []);
}

pub send_packet-ok :
    (now : ℕ) (q : Packet) (s : Sender) (bs : List ℕ)
    → to_bytes q ≡ ok bs
    → send_packet now q s ≡ (
      ok tt,
      record s { sent = s.sent ++ (bs ∷ []); packets_in_flight = insert q now s.packets_in_flight },
    )
unfolding send_packet
send_packet-ok now q s bs e = rw e refl

send_prepared-ok :
    (now : ℕ) (q : Packet) (s : Sender) (bs : List ℕ)
    → to_bytes q ≡ ok bs
    → send_prepared now (some q) s ≡ (ok false, after_send now q bs s)
send_prepared-ok now q s bs e =
    bind-ok (send_packet now q)
      (λ _. (do modify (λ (s : Sender). record s { syn_number = s.syn_number + 1 }); pure false)) s
      tt _ (send_packet-ok now q s bs e)

lt_irrefl : 1 ≤ 0 → ⊥
lt_irrefl h = omega arith

nonempty : (b : ℕ) (bs : List ℕ) → nat_eq (length (b ∷ bs)) 0 ≡ false
nonempty b bs = ground (arith, nat_eq_iff (length (b ∷ bs)) 0)

pub prepare-ok :
    (hash : List ℕ → List ℕ) (byte_data : List ℕ) (s : Sender) (q : Packet)
    → 1 ≤ length byte_data
    → generate_packet_from_empty_checksum hash (data_packet byte_data s) ≡ ok q
    → prepare_send_packet hash byte_data s ≡ ok (some q)
prepare-ok hash [] s q h e = absurd (lt_irrefl h)
prepare-ok hash (b ∷ bs) s q h e =
    rw (nonempty b bs) (ap (λ (r : Result Packet). bind r (λ p. ok (some p))) e)

pub read_source-sent :
    (hash : List ℕ → List ℕ) (now : ℕ) (byte_data : List ℕ) (s : Sender) (q : Packet) (bs : List ℕ)
    → prepare_send_packet hash byte_data s ≡ ok (some q)
    → to_bytes q ≡ ok bs
    → read_source hash now byte_data s ≡ (ok false, after_send now q bs s)
unfolding read_source
read_source-sent hash now byte_data s q bs prepared e =
    ap (λ (r : Result (Option Packet)). (lift r >>= send_prepared now) s) prepared
    ∙ send_prepared-ok now q s bs e

-- Where bytes come from the source and the packet's fields fit, the sender sends one datagram, from
-- which the receiver reads a packet that it does not take for mangled, with those bytes and the
-- sender's number; the packet is then in flight, and the number one greater.
pub read_source_lem :
    (hash : List ℕ → List ℕ) (now : ℕ) (byte_data : List ℕ) (s : Sender)
    → ((bs : List ℕ) → length (hash bs) ≡ 16)
    → 1 ≤ length byte_data
    → IsPacket (data_packet byte_data s)
    → (q : Packet) × (bs : List ℕ) × (read_source hash now byte_data s ≡ (
      ok false,
      record s {
        packets_in_flight = insert q now s.packets_in_flight;
        syn_number = s.syn_number + 1;
        sent = s.sent ++ (bs ∷ []);
      },
    ))
      × (from_bytes (bs ++ []) ≡ ok (q, []))
      × (check_for_malformation hash q ≡ ok false)
      × (q.header.sequence_number ≡ s.syn_number)
      × (q.data_bytes ≡ byte_data)
read_source_lem hash now byte_data s digest some_data v =
    let (q, made, original, read, accepted) =
      wire_accepts hash (data_packet byte_data s) digest v in
    elim (Result-cases (to_bytes q)) [
      | inl (bs, e) ↦ (
        q,
        bs,
        read_source-sent hash now byte_data s q bs (prepare-ok hash byte_data s q some_data made) e,
        subst (λ (r : Result (List ℕ)). bind r (λ bs. from_bytes (bs ++ [])) ≡ ok (q, [])) e read,
        accepted,
        ap (λ (p : Packet). p.header.sequence_number) original,
        ap (λ (p : Packet). p.data_bytes) original,
      )
      | inr (x, e) ↦ absurd (
          err_not_ok x (q, [])
            (subst (λ (r : Result (List ℕ)). bind r (λ bs. from_bytes (bs ++ [])) ≡ ok (q, [])) e
              read))
    ]
  where
    err_not_ok : (x : Error) (a : Packet × List ℕ) → err x ≡ ok a → ⊥
    err_not_ok x a h = cc
