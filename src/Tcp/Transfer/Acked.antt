-- ===== src/Tcp/Transfer/Acked.antt =====
-- The sender sends a packet and takes the ack of it.
use cs.Prelude.{
  ℕ, ◌+◌, ◌^◌, ◌≤◌, ◌<◌, ◌≡◌, inl, inr, refl, sym, ap, ◌∙◌, Bool, true, false, ◌&&◌, Option, none,
  some, List, [], ◌∷◌, arith, length, nat_eq, nat_eq_iff, ltb, lt→ltb, Bool-cases,
}
use cs.Prelude.Exec.{Exec, Result, ok, lift, gets, modify, ◌>>=◌, ◌>>◌}
use cs.Tcp.Packet.{Packet, synchronization, pack_flags, enum_flags}
use cs.Tcp.Packet.Bytes.{IsPacket, bytes_of, to_bytes-bytes_of}
use cs.Tcp.Checksum.{check_for_malformation, empty_checksum, replace_checksum}
use cs.Tcp.Checksum.Accepted.{sealed, generate-sealed, replaced-IsPacket}
use cs.Tcp.Sender.{
  Sender, data_packet, in_ackable_range, packets_still_in_flight, find_matching_sent_packet,
  has_errors, reply, handle_response_packet, send_if, none_in_flight, receive, read_source,
}
use cs.Tcp.Sender.Numbers.{after_send, prepare-ok, read_source-sent}

sent_flags : pack_flags (synchronization ∷ []) < 2 ^ 16
unfolding pack_flags
sent_flags = omega arith

pub data_packet-IsPacket :
    (chunk : List ℕ) (s : Sender)
    → length chunk < 2 ^ 16
    → s.syn_number < 2 ^ 32
    → s.sliding_window_size < 2 ^ 16
    → IsPacket (data_packet chunk s)
data_packet-IsPacket chunk s short small window = record {
  sequence_fits = small;
  flags_fit = sent_flags;
  window_fits = window;
  checksum_fits = refl;
  length_fits = short;
  length_of_data = refl;
}

pub sealed-IsPacket :
    (hash : List ℕ → List ℕ) (p : Packet)
    → ((bs : List ℕ) → length (hash bs) ≡ 16)
    → IsPacket p
    → IsPacket (sealed hash p)
sealed-IsPacket hash p digest v =
    replaced-IsPacket p (hash (bytes_of (replace_checksum empty_checksum p))) v
      (digest (bytes_of (replace_checksum empty_checksum p)))

-- What is read from the source goes out as a packet with its checksum.
pub read_source-sealed :
    (hash : List ℕ → List ℕ) (now : ℕ) (chunk : List ℕ) (s : Sender)
    → ((bs : List ℕ) → length (hash bs) ≡ 16)
    → 1 ≤ length chunk
    → IsPacket (data_packet chunk s)
    → read_source hash now chunk s ≡ (
      ok false,
      after_send now
          (sealed hash (data_packet chunk s))
          (bytes_of (sealed hash (data_packet chunk s)))
          s,
    )
read_source-sealed hash now chunk s digest some_data v =
    read_source-sent hash now chunk s (sealed hash (data_packet chunk s))
      (bytes_of (sealed hash (data_packet chunk s)))
      (prepare-ok hash chunk s (sealed hash (data_packet chunk s)) some_data
        (generate-sealed hash (data_packet chunk s) v))
      (to_bytes-bytes_of (sealed hash (data_packet chunk s))
        (sealed-IsPacket hash (data_packet chunk s) digest v))

-- The ack of the packet that is in flight advances the number acked, or it is that number already.
reply-acks :
    (a : ℕ) (q : Packet) (s : Sender)
    → q.header.sequence_number ≡ a + 1
    → s.syn_number ≡ a + 2
    → s.ack_number ≤ a + 1
    → reply false (in_ackable_range s (a + 1)) q s ≡ (none, record s { ack_number = a + 1 })
reply-acks a q s n syn up_to = elim (Bool-cases (nat_eq (a + 1) s.ack_number)) [
  | inl same ↦ rw same (
      ap (λ (k : ℕ). (none, record s { ack_number = k }))
        (sym ((nat_eq_iff (a + 1) s.ack_number).0 same)))
  | inr other ↦
      rw (other, not_looped, later, not_earlier, not_above)
        (ap (λ (k : ℕ). (none, record s { ack_number = k })) n)
]
  where
    not_looped : ltb s.syn_number s.ack_number ≡ false
    not_looped = ground (arith, syn, up_to)

    later : ltb s.ack_number s.syn_number ≡ true
    later = lt→ltb s.ack_number s.syn_number (omega (arith, syn, up_to))

    not_earlier : ltb (a + 1) s.ack_number ≡ false
    not_earlier = ground (arith, up_to)

    not_above : ltb s.syn_number (a + 1) ≡ false
    not_above = ground (arith, syn)

-- The rest of the branch of `run` for a response.
abbrev after_found : ℕ → Packet → Option Packet → Exec Sender Bool
after_found now response_packet sent_packet_match = do
  resend_packet ←
      gets (λ (s : Sender). (handle_response_packet sent_packet_match response_packet s).0)
  modify (λ (s : Sender). (handle_response_packet sent_packet_match response_packet s).1)
  modify (λ (s : Sender). record s { packets_in_flight = packets_still_in_flight s })
  send_if now resend_packet
  gets (λ (s : Sender). s.sent_all_messages && none_in_flight s)

abbrev after_reply : ℕ → Option Packet × Sender → Result Bool × Sender
after_reply now (resend_packet, s) =
    (do
      modify (λ (s : Sender). record s { packets_in_flight = packets_still_in_flight s })
      send_if now resend_packet
      gets (λ (s : Sender). s.sent_all_messages && none_in_flight s))
      s

nothing_left :
    (a : ℕ) (q : Packet) (sent_at : ℕ) (s : Sender)
    → q.header.sequence_number ≡ a + 1
    → s.syn_number ≡ a + 2
    → s.packets_in_flight ≡ (q, sent_at) ∷ []
    → packets_still_in_flight (record s { ack_number = a + 1 }) ≡ []
nothing_left a q sent_at s n syn flight = rw (not_caught_up, flight, same) refl
  where
    not_caught_up : nat_eq (a + 1) s.syn_number ≡ false
    not_caught_up = ground (arith, syn, nat_eq_iff (a + 1) s.syn_number)

    same : nat_eq q.header.sequence_number (a + 1) ≡ true
    same = (nat_eq_iff q.header.sequence_number (a + 1)).1 n

pub receive-acks :
    (hash : List ℕ → List ℕ) (now a : ℕ) (q : Packet) (sent_at : ℕ) (ack : Packet) (s : Sender)
    → check_for_malformation hash ack ≡ ok false
    → ack.header.sequence_number ≡ a + 1
    → has_errors (enum_flags ack.header.flags) ≡ false
    → s.packets_in_flight ≡ (q, sent_at) ∷ []
    → q.header.sequence_number ≡ a + 1
    → s.syn_number ≡ a + 2
    → s.ack_number ≤ a + 1
    → receive hash now ack s
      ≡ (ok (s.sent_all_messages && true), record s { ack_number = a + 1; packets_in_flight = [] })
unfolding receive
receive-acks hash now a q sent_at ack s whole n no_error flight nq syn up_to =
    ap (λ (r : Result (Option Packet)). (lift r >>= after_found now ack) s) found
    ∙ ap (λ (x : Option Packet × Sender). after_reply now x) replied
    ∙ ap (λ (l : List (Packet × ℕ)). ended l) (nothing_left a q sent_at s nq syn flight)
  where
    same_number : nat_eq q.header.sequence_number ack.header.sequence_number ≡ true
    same_number = (nat_eq_iff q.header.sequence_number ack.header.sequence_number).1 (nq ∙ sym n)

    found : find_matching_sent_packet hash ack s ≡ ok (some q)
    found = rw (whole, flight, same_number) refl

    replied : handle_response_packet (some q) ack s ≡ (none, record s { ack_number = a + 1 })
    replied = rw (no_error, n) (reply-acks a q s nq syn up_to)

    ended : List (Packet × ℕ) → Result {0} Bool × Sender
    ended l = (
      ok (s.sent_all_messages && nat_eq (length l) 0),
      record s { ack_number = a + 1; packets_in_flight = l },
    )
