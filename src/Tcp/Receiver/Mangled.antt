-- ===== src/Tcp/Receiver/Mangled.antt =====
-- What the receiver answers: to a mangled packet, and to the first packet that it accepts.
use cs.Prelude.{
  ℕ, ◌^◌, ◌<◌, ◌≡◌, refl, ◌∙◌, ap, Bool, true, false, none, some, List, [], ◌∷◌, ◌++◌, arith,
  length, if◌then◌else◌,
}
use cs.Prelude.Exec.{Exec, Result, ok, pure, lift, gets, bind-ok, ◌>>=◌, ◌>>◌}
use cs.Prelude.Sort.{sorted}
use cs.Prelude.Text.{Text}
use cs.Prelude.Strings.{decode}
use cs.Tcp.Packet.{Packet, Flag, acknowledgement, errors, pack_flags}
use cs.Tcp.Packet.Bytes.{IsPacket, bytes_of, to_bytes-bytes_of}
use cs.Tcp.Checksum.{
  empty_checksum, replace_checksum, generate_packet_from_empty_checksum, check_for_malformation,
}
use cs.Tcp.Checksum.Accepted.{sealed, generate-sealed, replaced-IsPacket}
use cs.Tcp.Receiver.{
  Receiver, has_destination, send_packet, or_number, response, generate_error_packet_response,
  Printing, generate_highest_ack_packet, print_loop, keep_ackable, still_ackable,
  update_acked_packets, take_in, handle_packet, contains,
}

pub response-IsPacket :
    (n : ℕ) (flags : List Flag) (r : Receiver)
    → n < 2 ^ 32
    → pack_flags flags < 2 ^ 16
    → r.window_size < 2 ^ 16
    → IsPacket (response n flags r)
response-IsPacket n flags r hn hf hw = record {
  sequence_fits = hn;
  flags_fit = hf;
  window_fits = hw;
  checksum_fits = refl;
  length_fits = omega arith;
  length_of_data = refl;
}

error_flags : pack_flags (acknowledgement ∷ errors ∷ []) < 2 ^ 16
unfolding pack_flags
error_flags = omega arith

pub ack_flags : pack_flags (acknowledgement ∷ []) < 2 ^ 16
unfolding pack_flags
ack_flags = omega arith

-- A response that is sent is acked by its number, and goes out as its bytes.
abbrev pub responding : (List ℕ → List ℕ) → Packet → Receiver → Receiver
responding hash p r = record r {
  highest_acked = some p.header.sequence_number;
  sent = r.sent ++ (bytes_of (sealed hash p) ∷ []);
}

pub send_packet_lem :
    (hash : List ℕ → List ℕ) (p : Packet) (r : Receiver)
    → ((bs : List ℕ) → length (hash bs) ≡ 16)
    → IsPacket p
    → has_destination r.simulator ≡ true
    → send_packet (sealed hash p) r ≡ (ok tt, responding hash p r)
unfolding send_packet
send_packet_lem hash p r digest v there = rw there (
    rw
      (to_bytes-bytes_of (sealed hash p) (
        replaced-IsPacket p (hash (bytes_of (replace_checksum empty_checksum p))) v
          (digest (bytes_of (replace_checksum empty_checksum p)))))
      refl)

-- `_handle_packet` after the test for a mangled packet.
abbrev pub after_check : (List ℕ → List ℕ) → Packet → Bool → Exec Receiver Unit
after_check hash packet mangled =
    if mangled
    then (do
      built ← gets (generate_error_packet_response hash)
      error_packet ← lift built
      send_packet error_packet)
    else (do
      window ← gets (λ (r : Receiver). r.window_packets)
      if contains window packet then pure tt else take_in hash packet)

-- A mangled packet is answered by one error packet that repeats the highest number acked, or 0 if there
-- is none; nothing is printed, the window stays as it is, and nothing raises.
pub handle_packet-mangled :
    (hash : List ℕ → List ℕ) (p : Packet) (r : Receiver)
    → ((bs : List ℕ) → length (hash bs) ≡ 16)
    → check_for_malformation hash p ≡ ok true
    → has_destination r.simulator ≡ true
    → or_number r.highest_acked 0 < 2 ^ 32
    → r.window_size < 2 ^ 16
    → handle_packet hash p r ≡ (
      ok tt,
      responding hash (response (or_number r.highest_acked 0) (acknowledgement ∷ errors ∷ []) r) r,
    )
unfolding handle_packet
handle_packet-mangled hash p r digest mangled there fits window =
    let answer = response (or_number r.highest_acked 0) (acknowledgement ∷ errors ∷ []) r in
    let v =
      response-IsPacket (or_number r.highest_acked 0) (acknowledgement ∷ errors ∷ []) r fits
        error_flags window in
    bind-ok (lift (check_for_malformation hash p)) (after_check hash p) r true r
      (ap (λ (x : Result Bool). (x, r)) mangled)
    ∙ bind-ok (lift (generate_packet_from_empty_checksum hash answer)) send_packet r
        (sealed hash answer) r (ap (λ (x : Result Packet). (x, r)) (generate-sealed hash answer v))
    ∙ send_packet_lem hash answer r digest v there

-- A receiver that has acked nothing and holds nothing.
abbrev pub fresh : Receiver → Receiver
fresh r = record r { highest_acked = none; window_packets = [] }

-- The receiver after it has taken in the first packet.
abbrev pub opened : Packet → Receiver → Receiver
opened p r = record r {
  highest_acked = none;
  window_packets = p ∷ [];
  highest_received_syn = some p.header.sequence_number;
  printed = r.printed ++ (p.data_bytes ∷ []);
}

-- Bytes that can be printed.
abbrev pub IsUtf8 : List ℕ → Type 0
IsUtf8 bs = (text : Text) × (decode bs ≡ ok text)

print_loop-first :
    (p : Packet) (printed : List (List ℕ)) (text : Text)
    → decode p.data_bytes ≡ ok text
    → print_loop (p ∷ []) none printed ≡ (ok tt, (none, printed ++ (p.data_bytes ∷ [])))
unfolding print_loop
print_loop-first p printed text decoded = rw decoded refl

take_in-first :
    (hash : List ℕ → List ℕ) (p : Packet) (r : Receiver) (text : Text)
    → decode p.data_bytes ≡ ok text
    → take_in hash p (fresh r)
      ≡ (lift (
              generate_packet_from_empty_checksum hash
                (response p.header.sequence_number (acknowledgement ∷ []) r))
            >>= send_packet)
          (opened p r)
unfolding take_in update_acked_packets print_loop keep_ackable still_ackable sorted
take_in-first hash p r text decoded = ap with_loop (print_loop-first p r.printed text decoded)
  where
    with_loop : Printing → Result {0} Unit × Receiver
    with_loop x =
        ((lift x.0 >> keep_ackable) >> (do
          built ← gets (generate_highest_ack_packet hash)
          ack ← lift built
          send_packet ack))
          (record (opened p r) { highest_acked = x.1.0; printed = x.1.1 })

-- A receiver that has acked nothing and holds nothing prints the first packet that is not mangled and
-- whose data is UTF-8, whatever its number, and acks that number: packets with lower numbers that are still
-- under way are taken for acked.
pub handle_packet-first :
    (hash : List ℕ → List ℕ) (p : Packet) (r : Receiver)
    → ((bs : List ℕ) → length (hash bs) ≡ 16)
    → check_for_malformation hash p ≡ ok false
    → IsUtf8 p.data_bytes
    → IsPacket p
    → has_destination r.simulator ≡ true
    → r.window_size < 2 ^ 16
    → handle_packet hash p (fresh r) ≡ (
      ok tt,
      responding hash (response p.header.sequence_number (acknowledgement ∷ []) r) (opened p r),
    )
unfolding handle_packet
handle_packet-first hash p r digest whole (text, decoded) v there window =
    let answer = response p.header.sequence_number (acknowledgement ∷ []) r in
    let fits =
      response-IsPacket p.header.sequence_number (acknowledgement ∷ []) r v.sequence_fits ack_flags
        window in
    bind-ok (lift (check_for_malformation hash p)) (after_check hash p) (fresh r) false (fresh r)
      (ap (λ (x : Result Bool). (x, fresh r)) whole)
    ∙ take_in-first hash p r text decoded
    ∙ bind-ok (lift (generate_packet_from_empty_checksum hash answer)) send_packet (opened p r)
        (sealed hash answer) (opened p r)
        (ap (λ (x : Result Packet). (x, opened p r)) (generate-sealed hash answer fits))
    ∙ send_packet_lem hash answer (opened p r) digest fits there
