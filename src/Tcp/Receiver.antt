-- ===== src/Tcp/Receiver.antt =====
-- `Receiver` of 3700TCP/networks/launch_receiver.py. The hash is a parameter. What is printed is kept
-- as bytes, once `decode` has not raised on them.
pub mod Delivery
pub mod Mangled
pub mod Run
use cs.Prelude.{
  ℕ, suc, ◌+◌, ◌-◌, ◌%◌, ◌^◌, Bool, true, false, not, ◌||◌, Option, none, some, List, [], ◌∷◌, ◌++◌,
  ltb, nat_eq, if◌then◌else◌,
}
use cs.Prelude.Eq.{Eq, ◌==◌, ℕ_eq, List_eq}
use cs.Prelude.Exec.{
  Exec, Result, ok, err, type_error, struct_error, bind, pure, lift, gets, modify, ◌>>=◌, ◌>>◌,
}
use cs.Prelude.Sort.{sorted}
use cs.Prelude.Text.{Text}
use cs.Prelude.Strings.{decode}
use cs.Tcp.Packet.{Packet, Flag, acknowledgement, errors, pack_flags, to_bytes}
use cs.Tcp.Packet.Equality.{Packet_eq}
use cs.Tcp.Checksum.{empty_checksum, generate_packet_from_empty_checksum, check_for_malformation}

-- `MAX_UNSIGNED_INT`
abbrev pub max_unsigned_int : ℕ
max_unsigned_int = 2 ^ 33 - 1

-- `Receiver`: `simulator` is the pair of its host and port, which are set together. `sent` holds the
-- datagrams and `printed` the data that has been printed.
pub record Receiver : Type 0 where
  pub simulator : Option (Text × ℕ)
  pub highest_received_syn : Option ℕ
  pub highest_acked : Option ℕ
  pub window_size : ℕ
  pub window_packets : List Packet
  pub sent : List (List ℕ)
  pub printed : List (List ℕ)

-- `Receiver.__init__`, with `DEFAULT_SLIDING_WINDOW_SIZE`
abbrev pub init : Receiver
init = record {
  simulator = none;
  highest_received_syn = none;
  highest_acked = none;
  window_size = 6;
  window_packets = [];
  sent = [];
  printed = [];
}

-- `self.simulator_host or self.simulator_port`, as a condition
abbrev pub has_destination : Option (Text × ℕ) → Bool
has_destination none = false
has_destination (some ([], port)) = not (nat_eq port 0)
has_destination (some (c ∷ host, port)) = true

-- `send_packet`
unfoldable pub send_packet : Packet → Exec Receiver Unit
send_packet message = do
  simulator ← gets (λ (r : Receiver). r.simulator)
  if not (has_destination simulator) then pure tt else (do
    modify (λ (r : Receiver). record r { highest_acked = some message.header.sequence_number })
    message_bytes ← lift (to_bytes message)
    modify (λ (r : Receiver). record r { sent = r.sent ++ (message_bytes ∷ []) }))

-- `highest_acked < sequence_number < highest_received_syn or sequence_number < largest_window_syn`
abbrev pub in_window : ℕ → Option ℕ → ℕ → ℕ → Result Bool
in_window acked syn largest n =
    if ltb acked n
    then (elim syn [ none ↦ err type_error | some s ↦ ok (ltb n s || ltb n largest) ])
    else ok (ltb n largest)

-- `_in_ackable_range`; `not self.highest_acked` is also true at 0
abbrev pub in_ackable_range : Receiver → ℕ → Result Bool
in_ackable_range r n = elim r.highest_acked [
  | none ↦ ok true
  | some acked ↦
      if nat_eq acked 0
      then ok true
      else if nat_eq n acked
      then ok false
      else in_window acked r.highest_received_syn ((acked + r.window_size) % max_unsigned_int) n
]

abbrev pub or_number : Option ℕ → ℕ → ℕ
or_number none n = n
or_number (some a) n = a

-- A packet without data, before its checksum.
abbrev pub response : ℕ → List Flag → Receiver → Packet
response ack_val flags r = record {
  header = record {
    sequence_number = ack_val;
    flags = pack_flags flags;
    advertised_window = r.window_size;
    checksum = empty_checksum;
  };
  data_length = 0;
  data_bytes = [];
}

-- `_generate_error_packet_response`
abbrev pub generate_error_packet_response : (List ℕ → List ℕ) → Receiver → Result Packet
generate_error_packet_response hash r =
    generate_packet_from_empty_checksum hash
      (response (or_number r.highest_acked 0) (acknowledgement ∷ errors ∷ []) r)

-- `ack_val` of `_generate_highest_ack_packet`: a `None` cannot be packed
abbrev pub highest_ack : Receiver → Result ℕ
highest_ack r = elim r.highest_acked [
  | some a ↦ ok a
  | none ↦ elim r.highest_received_syn [ some s ↦ ok s | none ↦ err struct_error ]
]

-- `_generate_highest_ack_packet`
abbrev pub generate_highest_ack_packet : (List ℕ → List ℕ) → Receiver → Result Packet
generate_highest_ack_packet hash r =
    bind (highest_ack r) λ ack_val.
      generate_packet_from_empty_checksum hash (response ack_val (acknowledgement ∷ []) r)

-- The order of `_get_sorted_window_packets`
abbrev pub packet_lt : Packet → Packet → Bool
packet_lt p q = ltb p.header.sequence_number q.header.sequence_number

-- How the loop ends, the number acked and what is printed.
abbrev pub Printing : Type 0
Printing = Result {0} Unit × (Option ℕ × List (List ℕ))

-- `print(pack.data.decode(DATA_ENCODING))`, and what follows if it does not raise.
abbrev pub print_or : Result Text → Option ℕ → List (List ℕ) → Printing → Printing
print_or (ok text) acked printed next = next
print_or (err e) acked printed next = (err e, (acked, printed))

-- The loop of `_update_acked_packets` that prints; the number acked is counted up before the data is
-- decoded.
unfoldable pub print_loop : List Packet → Option ℕ → List (List ℕ) → Printing
print_loop [] acked printed = (ok tt, (acked, printed))
print_loop (pack ∷ rest) none printed =
    let printing = print_loop rest none (printed ++ (pack.data_bytes ∷ [])) in
    print_or (decode pack.data_bytes) none printed printing
print_loop (pack ∷ rest) (some a) printed =
    let printing = print_loop rest (some (a + 1)) (printed ++ (pack.data_bytes ∷ [])) in
    let passing = print_loop rest (some a) printed in
    if nat_eq pack.header.sequence_number ((a + 1) % max_unsigned_int)
    then print_or (decode pack.data_bytes) (some (a + 1)) printed printing
    else passing

-- The list of the packets that can still be acked.
unfoldable pub still_ackable : Receiver → List Packet → Result (List Packet)
still_ackable r [] = ok []
still_ackable r (pack ∷ rest) =
    bind (in_ackable_range r pack.header.sequence_number) λ ackable.
      bind (still_ackable r rest) λ others. ok (if ackable then pack ∷ others else others)

-- `_update_acked_packets` after its loop
unfoldable pub keep_ackable : Exec Receiver Unit
unfolding still_ackable
keep_ackable = do
  found ← gets (λ (r : Receiver). still_ackable r r.window_packets)
  left ← lift found
  modify (λ (r : Receiver). record r { window_packets = left })

-- `_update_acked_packets`
unfoldable pub update_acked_packets : Exec Receiver Unit
unfolding print_loop keep_ackable
update_acked_packets = do
  loop ← gets (λ (r : Receiver). print_loop r.window_packets r.highest_acked r.printed)
  modify (λ (r : Receiver). record r { highest_acked = loop.1.0; printed = loop.1.1 })
  lift loop.0
  keep_ackable

abbrev pub contains : List Packet → Packet → Bool
contains [] p = false
contains (q ∷ qs) p = if q == p then true else contains qs p

-- `self.window_packets[-1].header.sequence_number` of a list that is not empty
abbrev pub last_number : List Packet → Option ℕ
last_number [] = none
last_number (p ∷ []) = some p.header.sequence_number
last_number (p ∷ q ∷ ps) = last_number (q ∷ ps)

-- `_handle_packet`, for a packet that is not in the window
unfoldable pub take_in : (List ℕ → List ℕ) → Packet → Exec Receiver Unit
unfolding update_acked_packets send_packet
take_in hash packet = do
  modify (λ (r : Receiver).
      let window = sorted packet_lt (r.window_packets ++ (packet ∷ [])) in
      record r { window_packets = window; highest_received_syn = last_number window })
  found ← gets (λ (r : Receiver). in_ackable_range r packet.header.sequence_number)
  ackable ← lift found
  if not ackable then pure tt else (do
    update_acked_packets
    built ← gets (generate_highest_ack_packet hash)
    ack ← lift built
    send_packet ack)

-- `_handle_packet`
unfoldable pub handle_packet : (List ℕ → List ℕ) → Packet → Exec Receiver Unit
unfolding take_in
handle_packet hash packet = do
  mangled ← lift (check_for_malformation hash packet)
  if mangled
      then (do
        built ← gets (generate_error_packet_response hash)
        error_packet ← lift built
        send_packet error_packet)
      else (do
        window ← gets (λ (r : Receiver). r.window_packets)
        if contains window packet then pure tt else take_in hash packet)
