-- ===== src/Tcp/Tests.antt =====
-- The theorems about packets and the receiver at concrete packets.
use cs.Prelude.{ℕ, ◌≡◌, refl, true, false, none, some, List, [], ◌∷◌, ◌++◌, arith}
use cs.Prelude.Exec.{ok, bind}
use cs.Tcp.Packet.{Packet, acknowledgement, errors, pack_flags, to_bytes, from_bytes}
use cs.Tcp.Packet.Bytes.{IsPacket, bytes_of, from_bytes-to_bytes}
use cs.Tcp.Checksum.{
  empty_checksum, replace_checksum, generate_packet_from_empty_checksum, check_for_malformation,
}
use cs.Tcp.Checksum.Accepted.{sealed, replaced-IsPacket, wire_accepts, malformation_lem}
use cs.Prelude.{length, ◌≤◌}
use cs.Prelude.Exec.{state_of}
use cs.Prelude.Dict.{insert}
use cs.Prelude.Strings.{decode-ascii, IsAscii}
use cs.Tcp.Packet.Equality.{Packet_eq}
use cs.Tcp.Sender
use cs.Tcp.Receiver
use cs.Tcp.Sender.{Sender, init, data_packet, read_source, resend_timeout_packets, receive}
use cs.Prelude.Exec.{result_of}
use cs.Tcp.Sender.Resend.{resend_timeout_packets_lem}
use cs.Tcp.Sender.Numbers.{read_source_lem}
use cs.Tcp.Receiver.{Receiver, response, handle_packet}
use cs.Tcp.Receiver.Mangled.{
  fresh, opened, responding, IsUtf8, handle_packet-mangled, handle_packet-first,
}
use cs.Tcp.Receiver.Run.{Received, run_over}
use cs.Tcp.Receiver.Run.Delivered.{Ends}
use cs.Tcp.Receiver.Run.Ordered.{Genuine, run_over-Delivered}
use cs.Tcp.Sender.Run
use cs.Tcp.Sender.Run.{Waiting}
use cs.Tcp.Sender.Run.Bounded.{run-Within}
use cs.Tcp.Transfer.{transfer}
use cs.Tcp.Transfer.Complete.{chunks_of, transfer-completed}

-- A digest that is always the same.
abbrev flat_hash : List ℕ → List ℕ
flat_hash bs = 1 ∷ 1 ∷ 1 ∷ 1 ∷ 1 ∷ 1 ∷ 1 ∷ 1 ∷ 1 ∷ 1 ∷ 1 ∷ 1 ∷ 1 ∷ 1 ∷ 1 ∷ 1 ∷ []

abbrev numbered : ℕ → Packet
numbered n = record {
  header = record {
    sequence_number = n;
    flags = 2;
    advertised_window = 6;
    checksum = empty_checksum;
  };
  data_length = 2;
  data_bytes = n ∷ n ∷ [];
}

numbered_3-IsPacket : IsPacket (numbered 3)
numbered_3-IsPacket = record {
  sequence_fits = omega arith;
  flags_fit = omega arith;
  window_fits = omega arith;
  checksum_fits = refl;
  length_fits = omega arith;
  length_of_data = refl;
}

numbered_4-IsPacket : IsPacket (numbered 4)
numbered_4-IsPacket = record {
  sequence_fits = omega arith;
  flags_fit = omega arith;
  window_fits = omega arith;
  checksum_fits = refl;
  length_fits = omega arith;
  length_of_data = refl;
}

from_bytes-to_bytes_example :
    bind (to_bytes (numbered 3)) (λ bs. from_bytes (bs ++ (7 ∷ []))) ≡ ok (numbered 3, 7 ∷ [])
from_bytes-to_bytes_example = from_bytes-to_bytes (numbered 3) (7 ∷ []) numbered_3-IsPacket

wire_accepts_example :
    (q : Packet) × (generate_packet_from_empty_checksum flat_hash (numbered 3) ≡ ok q)
    × (replace_checksum empty_checksum q ≡ numbered 3)
    × (bind (to_bytes q) (λ bs. from_bytes (bs ++ [])) ≡ ok (q, []))
    × (check_for_malformation flat_hash q ≡ ok false)
wire_accepts_example = wire_accepts flat_hash (numbered 3) (λ bs. refl) numbered_3-IsPacket

-- A receiver that knows its peer, and has acked nothing yet.
abbrev receiver : Receiver
receiver = record {
  simulator = some (b'h' ∷ [], 80);
  highest_received_syn = none;
  highest_acked = none;
  window_size = 6;
  window_packets = [];
  sent = [];
  printed = [];
}

is_mangled : check_for_malformation flat_hash (numbered 3) ≡ ok true
is_mangled = malformation_lem flat_hash (numbered 3) numbered_3-IsPacket

handle_packet-mangled_example :
    handle_packet flat_hash (numbered 3) receiver
    ≡ (ok tt, responding flat_hash (response 0 (acknowledgement ∷ errors ∷ []) receiver) receiver)
handle_packet-mangled_example =
    handle_packet-mangled flat_hash (numbered 3) receiver (λ bs. refl) is_mangled refl (omega arith)
      (omega arith)

sealed_3-IsPacket : IsPacket (sealed flat_hash (numbered 3))
sealed_3-IsPacket = replaced-IsPacket (numbered 3) (flat_hash []) numbered_3-IsPacket refl

is_whole : check_for_malformation flat_hash (sealed flat_hash (numbered 3)) ≡ ok false
is_whole = malformation_lem flat_hash (sealed flat_hash (numbered 3)) sealed_3-IsPacket

handle_packet-first_example :
    handle_packet flat_hash (sealed flat_hash (numbered 3)) (fresh receiver) ≡ (
      ok tt,
      responding flat_hash
          (response 3 (acknowledgement ∷ []) receiver)
          (opened (sealed flat_hash (numbered 3)) receiver),
    )
handle_packet-first_example =
    handle_packet-first flat_hash (sealed flat_hash (numbered 3)) receiver (λ bs. refl) is_whole
      (3 ∷ 3 ∷ [], decode-ascii (3 ∷ 3 ∷ []) (omega arith)) sealed_3-IsPacket refl (omega arith)

first-IsPacket : IsPacket (data_packet (5 ∷ 6 ∷ []) init)
unfolding pack_flags
first-IsPacket = record {
  sequence_fits = omega arith;
  flags_fit = omega arith;
  window_fits = omega arith;
  checksum_fits = refl;
  length_fits = omega arith;
  length_of_data = refl;
}

read_source_lem_example :
    (q : Packet) × (bs : List ℕ) × (read_source flat_hash 9 (5 ∷ 6 ∷ []) init ≡ (
      ok false,
      record init { packets_in_flight = insert q 9 []; syn_number = 2; sent = bs ∷ [] },
    ))
    × (from_bytes (bs ++ []) ≡ ok (q, []))
    × (check_for_malformation flat_hash q ≡ ok false)
    × (q.header.sequence_number ≡ 1)
    × (q.data_bytes ≡ 5 ∷ 6 ∷ [])
read_source_lem_example =
    read_source_lem flat_hash 9 (5 ∷ 6 ∷ []) init (λ bs. refl) (omega arith) first-IsPacket

-- A sender with one packet that is due and one that is not.
abbrev waiting : Sender
waiting = record init { packets_in_flight = (numbered 3, 100) ∷ (numbered 4, 2900) ∷ [] }

resend_timeout_packets_lem_example :
    (result_of (resend_timeout_packets 3000 waiting) ≡ ok tt)
    × ((state_of (resend_timeout_packets 3000 waiting)).sent ≡ bytes_of (numbered 3) ∷ [])
resend_timeout_packets_lem_example =
    resend_timeout_packets_lem 3000 waiting (numbered_3-IsPacket, (numbered_4-IsPacket, tt))

-- A receiver that has acked number 2, to which a packet comes whole and then mangled.
abbrev acked_2 : Receiver
acked_2 = record receiver { highest_acked = some 2; highest_received_syn = some 2 }

abbrev arriving : List ℕ → Received
arriving bs = record { packet_bytes = bs; from = (b'h' ∷ [], 80) }

abbrev two_arrive : List Received
two_arrive =
    arriving (bytes_of (sealed flat_hash (numbered 3))) ∷ arriving (bytes_of (numbered 4)) ∷ []

run_over-Delivered_example :
    Ends (Genuine flat_hash [] two_arrive) 2 [] (run_over flat_hash two_arrive acked_2)
run_over-Delivered_example = run_over-Delivered flat_hash two_arrive 2 acked_2 refl

abbrev two_pieces : List (ℕ × List ℕ)
two_pieces = (0, 104 ∷ 105 ∷ []) ∷ (40, 10 ∷ []) ∷ []

is_utf8 : (bs : List ℕ) → IsAscii bs → IsUtf8 bs
is_utf8 bs h = (bs, decode-ascii bs h)

transfer-completed_example :
    (sender : Sender) × (receiver : Receiver) × (transfer flat_hash
        (b'h' ∷ [], 80)
        two_pieces
        (Sender.init, Receiver.init)
      ≡ ok (sender, receiver))
    × (receiver.printed ≡ chunks_of two_pieces)
    × (sender.packets_in_flight ≡ [])
    × (result_of (read_source flat_hash 90 [] sender) ≡ ok true)
transfer-completed_example =
    transfer-completed flat_hash b'h' [] 80 two_pieces 90 (λ bs. refl)
      (
        (omega arith, omega arith, is_utf8 (104 ∷ 105 ∷ []) (omega arith)),
        ((omega arith, omega arith, is_utf8 (10 ∷ []) (omega arith)), tt),
      )
      (omega arith)

-- Data is read, then an answer and more data come, and then nothing for a while.
abbrev comes : List Waiting
comes =
    (record { now = 0; datagram = none; byte_data = some (5 ∷ 6 ∷ []) })
    ∷ (record { now = 10; datagram = some (bytes_of (numbered 1)); byte_data = some (7 ∷ []) })
    ∷ (record { now = 3000; datagram = none; byte_data = none })
    ∷ []

run-Within_example :
    length (state_of (Run.run flat_hash comes init)).packets_in_flight
    ≤ (state_of (Run.run flat_hash comes init)).sliding_window_size
run-Within_example = run-Within flat_hash comes init (omega arith)
