-- ===== src/Tcp/Sender.antt =====
-- `Sender` of 3700TCP/networks/launch_sender.py. The hash is a parameter; the clock is an argument in
-- milliseconds, read once in a call; what is read from the source is an argument.
pub mod Flight
pub mod Resend
pub mod Window
pub mod Numbers
pub mod Run
use cs.Prelude.{
  ℕ, ◌+◌, ◌-◌, ◌*◌, Bool, true, false, not, ◌&&◌, ◌||◌, Option, none, some, List, [], ◌∷◌, ◌++◌,
  keep, length, ltb, nat_eq, if◌then◌else◌,
}
use cs.Prelude.Exec.{Exec, Result, ok, err, bind, pure, lift, gets, modify, ◌>>=◌, ◌>>◌}
use cs.Prelude.Dict.{Dict, insert}
use cs.Tcp.Packet.{
  Packet, Flag, synchronization, acknowledgement, connection_close, errors, flag_value, enum_flags,
  pack_flags, to_bytes,
}
use cs.Tcp.Packet.Equality.{Packet_eq}
use cs.Tcp.Checksum.{empty_checksum, generate_packet_from_empty_checksum, check_for_malformation}

-- `Sender`: `sent` holds the datagrams.
pub record Sender : Type 0 where
  pub packets_in_flight : Dict Packet ℕ
  pub sliding_window_size : ℕ
  pub syn_number : ℕ
  pub ack_number : ℕ
  pub sent_all_messages : Bool
  pub sent : List (List ℕ)

-- `Sender.__init__`
abbrev pub init : Sender
init = record {
  packets_in_flight = [];
  sliding_window_size = 6;
  syn_number = 1;
  ack_number = 1;
  sent_all_messages = false;
  sent = [];
}

-- `send_packet`
unfoldable pub send_packet : ℕ → Packet → Exec Sender Unit
send_packet now message = do
  packet_bytes ← lift (to_bytes message)
  modify (λ (s : Sender). record s {
    sent = s.sent ++ (packet_bytes ∷ []);
    packets_in_flight = insert message now s.packets_in_flight;
  })

-- The test of `_select_ready_sources` under which the source is read.
abbrev pub may_read : Sender → Bool
may_read s = ltb (length s.packets_in_flight) s.sliding_window_size

-- The packet of `_prepare_send_packet`, before its checksum.
abbrev pub data_packet : List ℕ → Sender → Packet
data_packet byte_data s = record {
  header = record {
    sequence_number = s.syn_number;
    flags = pack_flags (synchronization ∷ []);
    advertised_window = s.sliding_window_size;
    checksum = empty_checksum;
  };
  data_length = length byte_data;
  data_bytes = byte_data;
}

-- `_prepare_send_packet`
abbrev pub prepare_send_packet : (List ℕ → List ℕ) → List ℕ → Sender → Result (Option Packet)
prepare_send_packet hash byte_data s =
    if nat_eq (length byte_data) 0
    then ok none
    else bind (generate_packet_from_empty_checksum hash (data_packet byte_data s))
        (λ p. ok (some p))

-- `_in_ackable_range`
abbrev pub in_ackable_range : Sender → ℕ → Bool
in_ackable_range s n =
    if nat_eq n s.ack_number
    then false
    else if ltb s.syn_number s.ack_number && (ltb s.syn_number n && ltb n s.ack_number)
    then false
    else if ltb s.ack_number s.syn_number && (ltb n s.ack_number || ltb s.syn_number n)
    then false
    else true

abbrev pub is_ackable : Sender → Packet × ℕ → Bool
is_ackable s (packet, sent_time) = in_ackable_range s packet.header.sequence_number

-- `_packets_still_in_flight`
abbrev pub packets_still_in_flight : Sender → Dict Packet ℕ
packets_still_in_flight s =
    if nat_eq s.ack_number s.syn_number then [] else keep (is_ackable s) s.packets_in_flight

-- `_find_matching_packet_from_sequence_number`
abbrev pub find_by_number : ℕ → Dict Packet ℕ → Option Packet
find_by_number n [] = none
find_by_number n ((packet, sent_time) ∷ rest) =
    if nat_eq packet.header.sequence_number n then some packet else find_by_number n rest

-- `_find_matching_sent_packet`
abbrev pub find_matching_sent_packet : (List ℕ → List ℕ) → Packet → Sender → Result (Option Packet)
find_matching_sent_packet hash received s = bind (check_for_malformation hash received) λ mangled.
    ok
      (if mangled then none else find_by_number received.header.sequence_number s.packets_in_flight)

-- `TCPFlag.ERRORS in enum_flags`
abbrev pub has_errors : List Flag → Bool
has_errors [] = false
has_errors (errors ∷ fs) = true
has_errors (_ ∷ fs) = has_errors fs

-- `_handle_response_packet` for a sent packet: does the response have the error flag, and can its
-- number be acked?
abbrev pub reply : Bool → Bool → Packet → Sender → Option Packet × Sender
reply has_error ackable sent_packet s =
    if has_error
    then (find_by_number s.ack_number s.packets_in_flight, s)
    else if not ackable
    then (none, s)
    else (none, record s { ack_number = sent_packet.header.sequence_number })

-- `_handle_response_packet`
abbrev pub handle_response_packet : Option Packet → Packet → Sender → Option Packet × Sender
handle_response_packet none received s = (find_by_number s.ack_number s.packets_in_flight, s)
handle_response_packet (some sent_packet) received s =
    reply (has_errors (enum_flags received.header.flags))
      (in_ackable_range s received.header.sequence_number) sent_packet s

abbrev pub send_if : ℕ → Option Packet → Exec Sender Unit
send_if now none = pure tt
send_if now (some p) = send_packet now p

-- `not self.packets_in_flight`
abbrev pub none_in_flight : Sender → Bool
none_in_flight s = nat_eq (length s.packets_in_flight) 0

-- The branch of `run` for a response; the answer says whether the loop is left.
unfoldable pub receive : (List ℕ → List ℕ) → ℕ → Packet → Exec Sender Bool
unfolding send_packet
receive hash now response_packet = do
  found ← gets (find_matching_sent_packet hash response_packet)
  sent_packet_match ← lift found
  resend_packet ←
      gets (λ (s : Sender). (handle_response_packet sent_packet_match response_packet s).0)
  modify (λ (s : Sender). (handle_response_packet sent_packet_match response_packet s).1)
  modify (λ (s : Sender). record s { packets_in_flight = packets_still_in_flight s })
  send_if now resend_packet
  gets (λ (s : Sender). s.sent_all_messages && none_in_flight s)

abbrev pub send_prepared : ℕ → Option Packet → Exec Sender Bool
send_prepared now none = do
  modify (λ (s : Sender). record s { sent_all_messages = true })
  gets none_in_flight
send_prepared now (some prepared_packet) = do
  send_packet now prepared_packet
  modify (λ (s : Sender). record s { syn_number = s.syn_number + 1 })
  pure false

-- The branch of `run` for the source, where not all has been read; `1 % MAX_UNSIGNED_INT` is 1.
unfoldable pub read_source : (List ℕ → List ℕ) → ℕ → List ℕ → Exec Sender Bool
unfolding send_packet
read_source hash now byte_data = do
  prepared ← gets (prepare_send_packet hash byte_data)
  prepared_packet ← lift prepared
  send_prepared now prepared_packet

-- The loop of `_resend_timeout_packets` over the items in flight
unfoldable pub resend_loop : ℕ → Dict Packet ℕ → Exec Sender Unit
unfolding send_packet
resend_loop now [] = pure tt
resend_loop now ((packet, sent_time) ∷ rest) =
    let others = resend_loop now rest in
    if ltb 2000 (now - sent_time) then (send_packet now packet >> others) else others

-- `_resend_timeout_packets`: after 2 round trip times of a second
unfoldable pub resend_timeout_packets : ℕ → Exec Sender Unit
unfolding resend_loop
resend_timeout_packets now = do
  items ← gets (λ (s : Sender). s.packets_in_flight)
  resend_loop now items
