-- ===== src/Tcp/Sender/Window.antt =====
-- The packets in flight never outnumber the window.
use cs.Prelude.{
  subst, ℕ, ◌+◌, ◌≤◌, ◌≡◌, refl, sym, ap, ◌∙◌, Bool, true, false, ◌&&◌, Option, none, some, List,
  arith, length, ltb→lt, lt→ltb,
}
use cs.Prelude.Exec.{Result, ok, err, state_of, bind-state, pure, lift, gets, modify, ◌>>=◌, ◌>>◌}
use cs.Tcp.Packet.{Packet, enum_flags}
use cs.Tcp.Packet.Equality.{Packet_eq}
use cs.Tcp.Sender.{
  Sender, init, send_packet, may_read, in_ackable_range, packets_still_in_flight, find_by_number,
  find_matching_sent_packet, has_errors, reply, handle_response_packet, send_if, receive,
  prepare_send_packet, send_prepared, read_source, resend_loop, none_in_flight,
  resend_timeout_packets,
}
use cs.Tcp.Sender.Flight.{
  Flight, still_le, still_lt, send_packet-length, Shrinks, resend_loop-Shrinks, in_flight-All,
}

-- One turn of the loop of `run`: what is ready is decided first, and the source counts only if there
-- is room in the window; then a response is received, the source is read, or both in this order;
-- where nothing is ready, packets are sent again.
pub data Step (hash : List ℕ → List ℕ) (s : Sender) : Sender → Type 0 where
  reads :
      (now : ℕ) (byte_data : List ℕ)
      → may_read s ≡ true
      → Step hash s (state_of (read_source hash now byte_data s))
  receives : (now : ℕ) (p : Packet) → Step hash s (state_of (receive hash now p s))
  receives_and_reads :
      (now : ℕ) (p : Packet) (read_time : ℕ) (byte_data : List ℕ)
      → may_read s ≡ true
      → Step hash s
          (state_of (read_source hash read_time byte_data (state_of (receive hash now p s))))
  times_out : (now : ℕ) → Step hash s (state_of (resend_timeout_packets now s))

pub data Reachable (hash : List ℕ → List ℕ) : Sender → Type 0 where
  start : Reachable hash init
  later : {s t : Sender} → Reachable hash s → Step hash s t → Reachable hash t

abbrev pub Within : Sender → Type 0
Within s = length s.packets_in_flight ≤ s.sliding_window_size

Shrinks-Within : (s s' : Sender) → Shrinks s s' → Within s → Within s'
Shrinks-Within s s' (le, same) h = rw same (omega arith)

read_source-Within :
    (hash : List ℕ → List ℕ) (now : ℕ) (byte_data : List ℕ) (s : Sender)
    → may_read s ≡ true
    → Within s
    → Within (state_of (read_source hash now byte_data s))
unfolding read_source
read_source-Within hash now byte_data s room h =
    sent_prepared (prepare_send_packet hash byte_data s)
  where
    sent_one : (p : Packet) → Within (state_of (send_packet now p s))
    sent_one p =
        let (le, same) = send_packet-length now p s in
        rw same (omega (arith, ltb→lt (length s.packets_in_flight) s.sliding_window_size room))

    sent_prepared :
        (r : Result (Option Packet)) → Within (state_of ((lift r >>= send_prepared now) s))
    sent_prepared (ok none) = h
    sent_prepared (ok (some p)) =
        bind-state Within (send_packet now p)
          (λ _. (do
            modify (λ (s : Sender). record s { syn_number = s.syn_number + 1 })
            pure false))
          s (sent_one p) (λ a e. sent_one p)
    sent_prepared (err e) = h

reply_flight :
    (has_error ackable : Bool) (q : Packet) (s : Sender)
    → ((reply has_error ackable q s).1.packets_in_flight ≡ s.packets_in_flight)
      × ((reply has_error ackable q s).1.sliding_window_size ≡ s.sliding_window_size)
reply_flight true ackable q s = (refl, refl)
reply_flight false true q s = (refl, refl)
reply_flight false false q s = (refl, refl)

reply_resends :
    (has_error ackable : Bool) (x : Packet) (s : Sender) (q : Packet)
    → (reply has_error ackable x s).0 ≡ some q
    → (find_by_number s.ack_number s.packets_in_flight ≡ some q)
      × ((reply has_error ackable x s).1 ≡ s)
reply_resends true ackable x s q h = (h, refl)
reply_resends false true x s q h = cc
reply_resends false false x s q h = cc

-- A response changes neither the packets in flight nor the window.
response_flight :
    (m : Option Packet) (p : Packet) (s : Sender)
    → ((handle_response_packet m p s).1.packets_in_flight ≡ s.packets_in_flight)
      × ((handle_response_packet m p s).1.sliding_window_size ≡ s.sliding_window_size)
response_flight none p s = (refl, refl)
response_flight (some q) p s =
    reply_flight (has_errors (enum_flags p.header.flags))
      (in_ackable_range s p.header.sequence_number) q s

-- What is sent again has the number acked last, and then that number stays.
response_resends :
    (m : Option Packet) (p : Packet) (s : Sender) (q : Packet)
    → (handle_response_packet m p s).0 ≡ some q
    → (find_by_number s.ack_number s.packets_in_flight ≡ some q)
      × ((handle_response_packet m p s).1 ≡ s)
response_resends none p s q h = (h, refl)
response_resends (some x) p s q h =
    reply_resends (has_errors (enum_flags p.header.flags))
      (in_ackable_range s p.header.sequence_number) x s q h

-- The sender after a response, before a packet is sent again.
abbrev dropped : Option Packet → Packet → Sender → Sender
dropped m p s =
    let s1 = (handle_response_packet m p s).1 in
    record s1 { packets_in_flight = packets_still_in_flight s1 }

chain_le : (a b c : ℕ) → a ≤ b → b ≤ c → a ≤ c
chain_le a b c x y = omega arith

-- Of the packets in flight after a response, no more are kept.
response_keeps : (m : Option Packet) (p : Packet) (s : Sender) → Shrinks s (dropped m p s)
response_keeps m p s =
    let (same_flight, same_window) = response_flight m p s in
    (
      chain_le (length (packets_still_in_flight (handle_response_packet m p s).1))
          (length (handle_response_packet m p s).1.packets_in_flight) (length s.packets_in_flight)
          (still_le (handle_response_packet m p s).1)
          (omega (arith, ap (λ (d : Flight). length d) same_flight)),
      same_window,
    )

-- The packet that is sent again is one that was dropped.
resend_room :
    (s s1 : Sender) (q : Packet)
    → find_by_number s.ack_number s.packets_in_flight ≡ some q
    → s1 ≡ s
    → length (packets_still_in_flight s1) + 1 ≤ length s.packets_in_flight
resend_room s s1 q found same =
    subst (λ (x : Sender). length (packets_still_in_flight x) + 1 ≤ length s.packets_in_flight)
      (sym same) (still_lt s q found)

resent-Shrinks :
    (now : ℕ) (m : Option Packet) (p : Packet) (s : Sender) (o : Option Packet)
    → (handle_response_packet m p s).0 ≡ o
    → Shrinks s (state_of (send_if now o (dropped m p s)))
resent-Shrinks now m p s none e = response_keeps m p s
resent-Shrinks now m p s (some q) e =
    let (found, same) = response_resends m p s q e in
    let (le, window) = send_packet-length now q (dropped m p s) in
    (
      chain_le (length (state_of (send_packet now q (dropped m p s))).packets_in_flight)
          (length (packets_still_in_flight (handle_response_packet m p s).1) + 1)
          (length s.packets_in_flight) le
          (resend_room s (handle_response_packet m p s).1 q found same),
      window ∙ (response_flight m p s).1,
    )

pub receive-Shrinks :
    (hash : List ℕ → List ℕ) (now : ℕ) (p : Packet) (s : Sender)
    → Shrinks s (state_of (receive hash now p s))
unfolding receive
receive-Shrinks hash now p s = matched (find_matching_sent_packet hash p s)
  where
    matched :
        (r : Result (Option Packet))
        → Shrinks s (
            state_of (
              (lift r >>= λ m. (do
                resend_packet ← gets (λ (s : Sender). (handle_response_packet m p s).0)
                modify (λ (s : Sender). (handle_response_packet m p s).1)
                modify (λ (s : Sender). record s { packets_in_flight = packets_still_in_flight s })
                send_if now resend_packet
                gets (λ (s : Sender). s.sent_all_messages && none_in_flight s)))
                s))
    matched (ok m) =
        let w = resent-Shrinks now m p s (handle_response_packet m p s).0 refl in
        bind-state (Shrinks s) (send_if now (handle_response_packet m p s).0)
          (λ _. gets (λ (s : Sender). s.sent_all_messages && none_in_flight s)) (dropped m p s) w
          (λ a e. w)
    matched (err e) = (omega arith, refl)

-- After a response there is still room, if there was before.
pub receive_room : (s s' : Sender) → Shrinks s s' → may_read s ≡ true → may_read s' ≡ true
receive_room s s' (le, same) room =
    lt→ltb (length s'.packets_in_flight) s'.sliding_window_size
      (omega (arith, le, same, ltb→lt (length s.packets_in_flight) s.sliding_window_size room))

pub Step-Within : (hash : List ℕ → List ℕ) (s t : Sender) → Step hash s t → Within s → Within t
unfolding resend_timeout_packets
Step-Within hash s _ (reads now byte_data room) h = read_source-Within hash now byte_data s room h
Step-Within hash s _ (receives now p) h =
    Shrinks-Within s (state_of (receive hash now p s)) (receive-Shrinks hash now p s) h
Step-Within hash s _ (receives_and_reads now p then_now byte_data room) h =
    read_source-Within hash then_now byte_data (state_of (receive hash now p s))
      (receive_room s (state_of (receive hash now p s)) (receive-Shrinks hash now p s) room)
      (Shrinks-Within s (state_of (receive hash now p s)) (receive-Shrinks hash now p s) h)
Step-Within hash s _ (times_out now) h =
    Shrinks-Within s (state_of (resend_loop now s.packets_in_flight s))
      (resend_loop-Shrinks now s.packets_in_flight s (in_flight-All s.packets_in_flight)) h

-- In every state that the sender can reach, by reading, by responses of any kind and by resending at
-- any time, no more packets are in flight than the window holds.
pub Reachable-Within :
    (hash : List ℕ → List ℕ) (s : Sender)
    → Reachable hash s
    → length s.packets_in_flight ≤ s.sliding_window_size
Reachable-Within hash _ start = omega arith
Reachable-Within hash t (later {s} r step) = Step-Within hash s t step (Reachable-Within hash s r)
