-- ===== src/Tcp/Transfer/Receiving.antt =====
-- The receiver takes in the packet that it expects, and stays ready for the one after it.
use cs.Prelude.{
  ℕ, ◌+◌, ◌^◌, ◌≤◌, ◌<◌, ◌≡◌, ◌⊎◌, inl, inr, refl, ap, ◌∙◌, Bool, true, false, not, Option, none,
  some, List, [], ◌∷◌, ◌++◌, arith, length, if◌then◌else◌,
}
use cs.Prelude.Exec.{Exec, Result, ok, bind-ok, lift, gets, pure, ◌>>=◌, ◌>>◌}
use cs.Prelude.Sort.{sorted}
use cs.Prelude.Text.{Text}
use cs.Tcp.Packet.{Packet, acknowledgement, from_bytes}
use cs.Tcp.Packet.Bytes.{IsPacket, bytes_of}
use cs.Tcp.Checksum.{check_for_malformation}
use cs.Tcp.Checksum.Accepted.{sealed, generate-sealed}
use cs.Tcp.Receiver.{
  Receiver, has_destination, send_packet, in_ackable_range, response, generate_highest_ack_packet,
  packet_lt, Printing, print_loop, keep_ackable, still_ackable, update_acked_packets, last_number,
  contains, take_in, handle_packet,
}
use cs.Tcp.Receiver.Mangled.{
  response-IsPacket, ack_flags, responding, send_packet_lem, after_check, fresh, opened, IsUtf8,
  handle_packet-first,
}
use cs.Tcp.Receiver.Run.{learn, turn}
use cs.Tcp.Transfer.Received.{
  UpTo, sorted-next, last_number-end, print_loop-next, still_ackable-UpTo, contains-UpTo,
  range-next,
}

-- The packet that acks number `n`.
abbrev pub ack_of : ℕ → Receiver → Packet
ack_of n r = response n (acknowledgement ∷ []) r

-- The receiver after it has put the packet in its window.
abbrev put : List Packet → ℕ → Receiver → Receiver
put window n r = record r { window_packets = window; highest_received_syn = some n }

abbrev acked_next : Packet → List Packet → ℕ → Receiver → Receiver
acked_next p left a r = record r {
  window_packets = left;
  highest_received_syn = some (a + 1);
  highest_acked = some (a + 1);
  printed = r.printed ++ (p.data_bytes ∷ []);
}

update-next :
    (a : ℕ) (p : Packet) (us left : List Packet) (r : Receiver)
    → print_loop (us ++ (p ∷ [])) r.highest_acked r.printed
      ≡ (ok tt, (some (a + 1), r.printed ++ (p.data_bytes ∷ [])))
    → still_ackable
        (record (put (us ++ (p ∷ [])) (a + 1) r) {
          highest_acked = some (a + 1);
          printed = r.printed ++ (p.data_bytes ∷ []);
        })
        (us ++ (p ∷ []))
      ≡ ok left
    → update_acked_packets (put (us ++ (p ∷ [])) (a + 1) r) ≡ (ok tt, acked_next p left a r)
unfolding update_acked_packets keep_ackable
update-next a p us left r e f = ap with_loop e ∙ rw f refl
  where
    with_loop : Printing → Result {0} Unit × Receiver
    with_loop x =
        (lift x.0 >> keep_ackable)
          (record (put (us ++ (p ∷ [])) (a + 1) r) { highest_acked = x.1.0; printed = x.1.1 })

-- `_handle_packet` after the test whether the packet can be acked
abbrev after_range : (List ℕ → List ℕ) → Bool → Exec Receiver Unit
after_range hash ackable = if not ackable then pure tt else (do
  update_acked_packets
  built ← gets (generate_highest_ack_packet hash)
  ack ← lift built
  send_packet ack)

take_in-put :
    (hash : List ℕ → List ℕ) (p : Packet) (r : Receiver) (window : List Packet) (n : ℕ)
    → sorted packet_lt (r.window_packets ++ (p ∷ [])) ≡ window
    → last_number window ≡ some n
    → in_ackable_range (put window n r) p.header.sequence_number ≡ ok true
    → take_in hash p r ≡ after_range hash true (put window n r)
unfolding take_in
take_in-put hash p r window n e f g =
    ap (λ (w : List Packet). from_window w (last_number w)) e
    ∙ ap (λ (l : Option ℕ). from_window window l) f
    ∙ bind-ok (lift (in_ackable_range (put window n r) p.header.sequence_number)) (after_range hash)
        (put window n r) true (put window n r) (ap (λ (x : Result Bool). (x, put window n r)) g)
  where
    from_window : List Packet → Option ℕ → Result {0} Unit × Receiver
    from_window w l =
        (lift (
              in_ackable_range (record r { window_packets = w; highest_received_syn = l })
                p.header.sequence_number)
            >>= after_range hash)
          (record r { window_packets = w; highest_received_syn = l })

answer-next :
    (hash : List ℕ → List ℕ) (a : ℕ) (r : Receiver)
    → ((bs : List ℕ) → length (hash bs) ≡ 16)
    → r.highest_acked ≡ some a
    → a < 2 ^ 32
    → r.window_size < 2 ^ 16
    → has_destination r.simulator ≡ true
    → (lift (generate_highest_ack_packet hash r) >>= send_packet) r
      ≡ (ok tt, responding hash (ack_of a r) r)
answer-next hash a r digest h fits window there =
    let v = response-IsPacket a (acknowledgement ∷ []) r fits ack_flags window in
    bind-ok (lift (generate_highest_ack_packet hash r)) send_packet r (sealed hash (ack_of a r)) r
      (ap (λ (x : Result Packet). (x, r)) (built v))
    ∙ send_packet_lem hash (ack_of a r) r digest v there
  where
    built :
        IsPacket (ack_of a r) → generate_highest_ack_packet hash r ≡ ok (sealed hash (ack_of a r))
    built v = rw h (generate-sealed hash (ack_of a r) v)

-- After number `a`, at least 1, the packet with the next number is printed and acked.
take_in-next :
    (hash : List ℕ → List ℕ) (a : ℕ) (p : Packet) (r : Receiver)
    → ((bs : List ℕ) → length (hash bs) ≡ 16)
    → p.header.sequence_number ≡ a + 1
    → 1 ≤ a
    → a + 7 < 2 ^ 32
    → r.highest_acked ≡ some a
    → UpTo a r.window_packets
    → r.window_size ≡ 6
    → has_destination r.simulator ≡ true
    → IsUtf8 p.data_bytes
    → (left : List Packet) × (take_in hash p r
        ≡ (ok tt, responding hash (ack_of (a + 1) r) (acked_next p left a r)))
      × UpTo (a + 1) left
take_in-next hash a p r digest n positive small h up six there utf8 =
    let (us, sorted_eq, uus) = sorted-next a p r.window_packets (omega (arith, n)) up in
    let window = us ++ (p ∷ []) in
    let (left, kept, ul) =
      still_ackable-UpTo (a + 1) window
        (record (put window (a + 1) r) {
          highest_acked = some (a + 1);
          printed = r.printed ++ (p.data_bytes ∷ []);
        })
        refl (all_up us uus) in
    (
      left,
      take_in-put hash p r window (a + 1) sorted_eq
            (last_number-end us p ∙ ap (λ (k : ℕ). some k) n)
            (ap (λ (k : ℕ). in_ackable_range (put window (a + 1) r) k) n
              ∙ range-next a (put window (a + 1) r) h positive (omega (arith, six))
                  (omega (arith, six, small)) refl)
          ∙ bind-ok update_acked_packets
              (λ _. (do
                built ← gets (generate_highest_ack_packet hash)
                ack ← lift built
                send_packet ack))
              (put window (a + 1) r) tt (acked_next p left a r)
              (update-next a p us left r
                (ap (λ (o : Option ℕ). print_loop window o r.printed) h
                  ∙ print_loop-next a us p r.printed (omega (arith, small)) n uus utf8)
                kept)
          ∙ answer-next hash (a + 1) (acked_next p left a r) digest refl (omega (arith, small))
              (omega (arith, six)) there,
      ul,
    )
  where
    all_up : (us : List Packet) → UpTo a us → UpTo (a + 1) (us ++ (p ∷ []))
    all_up [] u = (omega (arith, n), tt)
    all_up (u ∷ us) (ux, k) = (omega (arith, ux), all_up us k)

-- The receiver has printed the data of all packets up to number `a`, which is 0 before the first one.
pub record Ready (a : ℕ) (r : Receiver) : Type 0 where
  pub window_six : r.window_size ≡ 6
  pub answers : (r.simulator ≡ none) ⊎ (has_destination r.simulator ≡ true)
  pub caught_up :
      ((a ≡ 0) × (r.highest_acked ≡ none) × (r.window_packets ≡ []))
      ⊎ ((1 ≤ a) × (r.highest_acked ≡ some a) × UpTo a r.window_packets)

-- What one packet brings about: its data is printed, its number is acked, and the receiver is ready for
-- the next one.
abbrev pub Takes : (List ℕ → List ℕ) → ℕ → Packet → Receiver → Result {0} Unit × Receiver → Type 0
Takes hash a p r end =
    (r1 : Receiver) × (end ≡ (ok tt, r1))
    × (r1.printed ≡ r.printed ++ (p.data_bytes ∷ []))
    × (r1.sent ≡ r.sent ++ (bytes_of (sealed hash (ack_of (a + 1) r)) ∷ []))
    × Ready (a + 1) r1

is_fresh : (r : Receiver) → r.highest_acked ≡ none → r.window_packets ≡ [] → r ≡ fresh r
is_fresh r e f =
    ap (λ (h : Option ℕ). record r { highest_acked = h }) e
    ∙ ap (λ (w : List Packet). record r { highest_acked = none; window_packets = w }) f

handle-first :
    (hash : List ℕ → List ℕ) (a : ℕ) (p : Packet) (r : Receiver)
    → ((bs : List ℕ) → length (hash bs) ≡ 16)
    → check_for_malformation hash p ≡ ok false
    → IsPacket p
    → p.header.sequence_number ≡ a + 1
    → r.window_size ≡ 6
    → has_destination r.simulator ≡ true
    → r ≡ fresh r
    → IsUtf8 p.data_bytes
    → Takes hash a p r (handle_packet hash p r)
handle-first hash a p r digest whole v n six there is_new utf8 = (
  responding hash (ack_of p.header.sequence_number r) (opened p r),
  ap (λ (x : Receiver). handle_packet hash p x) is_new
      ∙ handle_packet-first hash p r digest whole utf8 v there (omega (arith, six)),
  refl,
  ap (λ (k : ℕ). r.sent ++ (bytes_of (sealed hash (ack_of k r)) ∷ [])) n,
  record {
    window_six = six;
    answers = inr there;
    caught_up = inr (omega arith, ap (λ (k : ℕ). some k) n, (omega (arith, n), tt));
  },
)

handle-next :
    (hash : List ℕ → List ℕ) (a : ℕ) (p : Packet) (r : Receiver)
    → ((bs : List ℕ) → length (hash bs) ≡ 16)
    → check_for_malformation hash p ≡ ok false
    → p.header.sequence_number ≡ a + 1
    → 1 ≤ a
    → a + 7 < 2 ^ 32
    → r.highest_acked ≡ some a
    → UpTo a r.window_packets
    → r.window_size ≡ 6
    → has_destination r.simulator ≡ true
    → IsUtf8 p.data_bytes
    → Takes hash a p r (handle_packet hash p r)
unfolding handle_packet
handle-next hash a p r digest whole n positive small h up six there utf8 =
    let (left, e, u) = take_in-next hash a p r digest n positive small h up six there utf8 in
    (
      responding hash (ack_of (a + 1) r) (acked_next p left a r),
      bind-ok (lift (check_for_malformation hash p)) (after_check hash p) r false r
            (ap (λ (x : Result Bool). (x, r)) whole)
          ∙ not_held (contains-UpTo a r.window_packets p (omega (arith, n)) up)
          ∙ e,
      refl,
      refl,
      record { window_six = six; answers = inr there; caught_up = inr (omega arith, refl, u) },
    )
  where
    not_held : contains r.window_packets p ≡ false → after_check hash p false r ≡ take_in hash p r
    not_held fresh_packet = rw fresh_packet refl

learned :
    (c : ℕ) (host : Text) (port : ℕ) (known : Option (Text × ℕ))
    → (known ≡ none) ⊎ (has_destination known ≡ true)
    → has_destination (learn (c ∷ host, port) known) ≡ true
learned c host port none h = refl
learned c host port (some s) (inl e) = absurd (ground (arith, e))
learned c host port (some s) (inr there) = there

-- A turn of the loop with the datagram of the packet that is expected.
pub turn-next :
    (hash : List ℕ → List ℕ) (a : ℕ) (p : Packet) (rest : List ℕ) (c : ℕ) (host : Text) (port : ℕ)
    (bs : List ℕ) (r : Receiver)
    → ((bs : List ℕ) → length (hash bs) ≡ 16)
    → from_bytes bs ≡ ok (p, rest)
    → check_for_malformation hash p ≡ ok false
    → IsPacket p
    → p.header.sequence_number ≡ a + 1
    → a + 7 < 2 ^ 32
    → Ready a r
    → IsUtf8 p.data_bytes
    → Takes hash a p r (turn hash (record { packet_bytes = bs; from = (c ∷ host, port) }) r)
unfolding turn
turn-next hash a p rest c host port bs r digest read whole v n small ready utf8 = rw read handled
  where
    there : has_destination (learn (c ∷ host, port) r.simulator) ≡ true
    there = learned c host port r.simulator ready.answers

    handled :
        Takes hash a p r
          (handle_packet hash p (record r { simulator = learn (c ∷ host, port) r.simulator }))
    handled = elim ready.caught_up [
      | inl (start, none_acked, empty) ↦
          handle-first hash a p (record r { simulator = learn (c ∷ host, port) r.simulator }) digest
            whole v n ready.window_six there
            (is_fresh (record r { simulator = learn (c ∷ host, port) r.simulator }) none_acked
              empty)
            utf8
      | inr (positive, h, up) ↦
          handle-next hash a p (record r { simulator = learn (c ∷ host, port) r.simulator }) digest
            whole n positive small h up ready.window_six there utf8
    ]
