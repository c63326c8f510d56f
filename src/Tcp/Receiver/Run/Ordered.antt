-- ===== src/Tcp/Receiver/Run/Ordered.antt =====
-- A run of the receiver refines the delivery of data in order.
use cs.Prelude.{
  ℕ, ◌+◌, ◌≡◌, refl, sym, ap, ◌∙◌, inl, inr, Bool, true, false, not, Option, some, List, [], ◌∷◌,
  ◌++◌, All, All-append, In, length, Bool-cases, if◌then◌else◌,
}
use cs.Prelude.Exec.{ok, Ensures, Result-cases, lift, gets, pure, ◌>>=◌, ◌>>◌}
use cs.Prelude.Sort.{sorted, sorted-All}
use cs.Tcp.Packet.{Packet, from_bytes, to_bytes, acknowledgement, errors}
use cs.Prelude.Eq.{◌==◌, ℕ_eq, List_eq}
use cs.Tcp.Packet.Equality.{Packet_eq}
use cs.Tcp.Checksum.{
  empty_checksum, replace_checksum, generate_packet_from_empty_checksum, check_for_malformation,
}
use cs.Tcp.Receiver.{
  Receiver, send_packet, in_ackable_range, response, or_number, highest_ack,
  generate_error_packet_response, generate_highest_ack_packet, packet_lt, update_acked_packets,
  contains, last_number, take_in, handle_packet,
}
use cs.Prelude.{◌⊎◌}
use cs.Tcp.Receiver.Run.{learn, Received, turn, run_over}
use cs.Tcp.Receiver.Run.Delivered.{
  Ends, bind-Ends, none-Delivered, window-Delivered, update-Ends, answer-Delivered, Delivered,
}

numbered :
    (hash : List ℕ → List ℕ) (p : Packet) (n : Option ℕ)
    → some p.header.sequence_number ≡ n
    → Ensures (λ q. some q.header.sequence_number ≡ n) (generate_packet_from_empty_checksum hash p)
unfolding generate_packet_from_empty_checksum
numbered hash p n h = elim (Bool-cases (p.header.checksum == empty_checksum)) [
  | inl same ↦
      rw same (elim (Result-cases (to_bytes p)) [ inl (bs, e) ↦ rw e h | inr (x, e) ↦ rw e tt ])
  | inr other ↦ rw other (elim (Result-cases (to_bytes (replace_checksum empty_checksum p))) [
    | inl (bs, e) ↦ rw e h
    | inr (x, e) ↦ rw e tt
  ])
]

error_number :
    (hash : List ℕ → List ℕ) (a : ℕ) (r : Receiver)
    → r.highest_acked ≡ some a
    → Ensures
        (λ q. some q.header.sequence_number ≡ r.highest_acked)
        (generate_error_packet_response hash r)
error_number hash a r h =
    numbered hash (response (or_number r.highest_acked 0) (acknowledgement ∷ errors ∷ []) r)
      r.highest_acked (ap (λ (o : Option ℕ). some (or_number o 0)) h ∙ sym h)

ack_number :
    (hash : List ℕ → List ℕ) (a : ℕ) (r : Receiver)
    → r.highest_acked ≡ some a
    → Ensures
        (λ q. some q.header.sequence_number ≡ r.highest_acked)
        (generate_highest_ack_packet hash r)
ack_number hash a r h =
    rw (acked_number h)
      (numbered hash (response a (acknowledgement ∷ []) r) r.highest_acked (sym h))
  where
    acked_number : r.highest_acked ≡ some a → highest_ack r ≡ ok a
    acked_number e = rw e refl

module _ (Q : Packet → Type 0) where
  taken-Ends :
      (hash : List ℕ → List ℕ) (a : ℕ) (printed : List (List ℕ)) (p : Packet) (r : Receiver)
      (ackable : Bool)
      → Delivered Q a printed r
      → Ends Q a printed (
          (if not ackable then pure tt else (do
            update_acked_packets
            built ← gets (generate_highest_ack_packet hash)
            ack ← lift built
            send_packet ack))
            r)
  taken-Ends hash a printed p r false d = inl d
  taken-Ends hash a printed p r true d =
      bind-Ends Q a printed update_acked_packets
        (λ _. (do
          built ← gets (generate_highest_ack_packet hash)
          ack ← lift built
          send_packet ack))
        r (update-Ends Q a printed r d)
        (λ _ s e. inl (
          answer-Delivered Q a printed s (generate_highest_ack_packet hash s)
            (ack_number hash (a + length e.packets) s e.acked) e))

  take_in-Ends :
      (hash : List ℕ → List ℕ) (a : ℕ) (printed : List (List ℕ)) (p : Packet) (r : Receiver)
      → Q p
      → Delivered Q a printed r
      → Ends Q a printed (take_in hash p r)
  unfolding take_in
  take_in-Ends hash a printed p r q d =
      let window = sorted packet_lt (r.window_packets ++ (p ∷ [])) in
      let e =
        window-Delivered Q a printed r window (last_number window)
          (sorted-All Q packet_lt (r.window_packets ++ (p ∷ []))
            (All-append Q r.window_packets (p ∷ []) d.window (q, tt)))
          d in
      bind-Ends Q a printed
        (lift (
          in_ackable_range
            (record r { window_packets = window; highest_received_syn = last_number window })
            p.header.sequence_number))
        (λ ackable. if not ackable then pure tt else (do
          update_acked_packets
          built ← gets (generate_highest_ack_packet hash)
          ack ← lift built
          send_packet ack))
        (record r { window_packets = window; highest_received_syn = last_number window }) (inl e)
        (λ ackable s k. taken-Ends hash a printed p s ackable k)

  handle-Ends :
      (hash : List ℕ → List ℕ) (a : ℕ) (printed : List (List ℕ)) (p : Packet) (r : Receiver)
      → (check_for_malformation hash p ≡ ok false → Q p)
      → Delivered Q a printed r
      → Ends Q a printed (handle_packet hash p r)
  unfolding handle_packet
  handle-Ends hash a printed p r q d = elim (Result-cases (check_for_malformation hash p)) [
    | inr (x, e) ↦ rw e (inl d)
    | inl (true, e) ↦ rw e (
        inl (
          answer-Delivered Q a printed r (generate_error_packet_response hash r)
            (error_number hash (a + length d.packets) r d.acked) d))
    | inl (false, e) ↦ rw e (elim (Bool-cases (contains r.window_packets p)) [
      | inl held ↦ rw held (inl d)
      | inr fresh ↦ rw fresh (take_in-Ends hash a printed p r (q e) d)
    ])
  ]

  turn-Ends :
      (hash : List ℕ → List ℕ) (a : ℕ) (printed : List (List ℕ)) (d : Received) (r : Receiver)
      → ((p : Packet) (rest : List ℕ)
          → from_bytes d.packet_bytes ≡ ok (p, rest)
          → check_for_malformation hash p ≡ ok false
          → Q p)
      → Delivered Q a printed r
      → Ends Q a printed (turn hash d r)
  unfolding turn
  turn-Ends hash a printed d r q h = elim (Result-cases (from_bytes d.packet_bytes)) [
    | inr (x, e) ↦ rw e (inl (addressed_too h))
    | inl ((p, rest), e) ↦ rw e (
        handle-Ends hash a printed p (record r { simulator = learn d.from r.simulator })
          (q p rest e) (addressed_too h))
  ]
    where
      addressed_too :
          Delivered Q a printed r
          → Delivered Q a printed (record r { simulator = learn d.from r.simulator })
      addressed_too k = record {
        packets = k.packets;
        accepted = k.accepted;
        in_order = k.in_order;
        acked = k.acked;
        data_printed = k.data_printed;
        window = k.window;
      }

  run-Ends :
      (hash : List ℕ → List ℕ) (a : ℕ) (printed : List (List ℕ)) (ds : List Received) (r : Receiver)
      → ((d : Received) (p : Packet) (rest : List ℕ)
          → In d ds
          → from_bytes d.packet_bytes ≡ ok (p, rest)
          → check_for_malformation hash p ≡ ok false
          → Q p)
      → Delivered Q a printed r
      → Ends Q a printed (run_over hash ds r)
  unfolding run_over
  run-Ends hash a printed [] r q h = inl h
  run-Ends hash a printed (d ∷ ds) r q h =
      bind-Ends Q a printed (turn hash d) (λ _. run_over hash ds) r
        (turn-Ends hash a printed d r (λ p rest e k. q d p rest (inl refl) e k) h)
        (λ _ s e. run-Ends hash a printed ds s (λ c p rest m. q c p rest (inr m)) e)

-- A packet that was in the window, or came in a datagram and was not mangled.
abbrev pub Genuine : (List ℕ → List ℕ) → List Packet → List Received → Packet → Type 0
Genuine hash window ds p =
    In p window
    ⊎ ((d : Received) × (rest : List ℕ) × In d ds
        × (from_bytes d.packet_bytes ≡ ok (p, rest))
        × (check_for_malformation hash p ≡ ok false))

In-Genuine :
    (hash : List ℕ → List ℕ) (ds : List Received) (window ws : List Packet)
    → ((p : Packet) → In p ws → In p window)
    → All (Genuine hash window ds) ws
In-Genuine hash ds window [] f = tt
In-Genuine hash ds window (p ∷ ws) f =
    (inl (f p (inl refl)), In-Genuine hash ds window ws (λ q m. f q (inr m)))

-- After number `a` is acked, whatever datagrams come and however the run ends, what has been printed is
-- the data of packets whose numbers follow `a` without a gap, in that order; each of them was in the window
-- or came in a datagram and was not mangled. The number acked is that of the last of them, or the run has
-- raised on the data of such a packet with the next number, which is not UTF-8, and that number is acked.
pub run_over-Delivered :
    (hash : List ℕ → List ℕ) (ds : List Received) (a : ℕ) (r : Receiver)
    → r.highest_acked ≡ some a
    → Ends (Genuine hash r.window_packets ds) a r.printed (run_over hash ds r)
run_over-Delivered hash ds a r h =
    run-Ends (Genuine hash r.window_packets ds) hash a r.printed ds r
      (λ d p rest m e k. inr (d, rest, m, e, k))
      (none-Delivered (Genuine hash r.window_packets ds) a r h
        (In-Genuine hash ds r.window_packets r.window_packets (λ p m. m)))
