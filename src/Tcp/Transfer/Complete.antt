-- ===== src/Tcp/Transfer/Complete.antt =====
-- Every transfer over a network that loses nothing is completed.
use mathlib.Core.List.{append-nil, append_assoc}
use cs.Prelude.{
  ℕ, ◌+◌, ◌^◌, ◌≤◌, ◌<◌, ◌≡◌, inl, refl, sym, ap, ◌∙◌, subst, Bool, true, false, not, ◌&&◌, List,
  [], ◌∷◌, ◌++◌, arith, All, map, length,
}
use cs.Prelude.Exec.{Result, ok, bind, result_of}
use cs.Prelude.Text.{Text}
use cs.Tcp.Packet.{Packet, acknowledgement, pack_flags, enum_flags, from_bytes}
use cs.Tcp.Packet.Bytes.{IsPacket, bytes_of, to_bytes-bytes_of, from_bytes-to_bytes}
use cs.Prelude.Eq.{ℕ_eq, List_eq, eq_self}
use cs.Prelude.Dict.{insert}
use cs.Tcp.Packet.Equality.{Packet_eq}
use cs.Tcp.Checksum.{check_for_malformation}
use cs.Tcp.Checksum.Accepted.{sealed, malformation_lem}
use cs.Tcp.Receiver
use cs.Tcp.Receiver.{Receiver}
use cs.Tcp.Receiver.Mangled.{response-IsPacket, ack_flags, IsUtf8}
use cs.Tcp.Receiver.Run.{turn}
use cs.Tcp.Sender
use cs.Tcp.Sender.{Sender, data_packet, has_errors, receive, read_source}
use cs.Tcp.Sender.Numbers.{after_send}
use cs.Tcp.Transfer.{last_sent, exchange, transfer}
use cs.Tcp.Transfer.Receiving.{ack_of, Ready, turn-next}
use cs.Tcp.Transfer.Acked.{data_packet-IsPacket, sealed-IsPacket, read_source-sealed, receive-acks}

-- The sender has sent the packets up to number `a`, and all are acked.
pub record Idle (a : ℕ) (s : Sender) : Type 0 where
  pub window_six : s.sliding_window_size ≡ 6
  pub next_number : s.syn_number ≡ a + 1
  pub acked : s.ack_number ≤ a + 1
  pub none_flying : s.packets_in_flight ≡ []

last_sent-append : (sent : List (List ℕ)) (bs : List ℕ) → last_sent (sent ++ (bs ∷ [])) ≡ ok bs
last_sent-append [] bs = refl
last_sent-append (cs ∷ []) bs = refl
last_sent-append (cs ∷ ds ∷ rest) bs = last_sent-append (ds ∷ rest) bs

-- The packet with its checksum is read from its bytes, and is not taken for mangled.
sealed-read :
    (hash : List ℕ → List ℕ) (p : Packet)
    → ((bs : List ℕ) → length (hash bs) ≡ 16)
    → IsPacket p
    → (from_bytes (bytes_of (sealed hash p)) ≡ ok (sealed hash p, []))
      × (check_for_malformation hash (sealed hash p) ≡ ok false)
sealed-read hash p digest v =
    let q = sealed hash p in
    let fits = sealed-IsPacket hash p digest v in
    (
      ap (λ (bs : List ℕ). from_bytes bs) (sym (append-nil (bytes_of q)))
          ∙ ap (λ (r : Result (List ℕ)). bind r (λ bs. from_bytes (bs ++ [])))
              (sym (to_bytes-bytes_of q fits))
          ∙ from_bytes-to_bytes q [] fits,
      malformation_lem hash q fits ∙ ap (λ (b : Bool). ok (not b)) (eq_self q.header.checksum),
    )

no_error :
    (hash : List ℕ → List ℕ) (n : ℕ) (r : Receiver)
    → has_errors (enum_flags (sealed hash (ack_of n r)).header.flags) ≡ false
unfolding pack_flags
no_error hash n r = refl

exchange-steps :
    (hash : List ℕ → List ℕ) (address : Text × ℕ) (now : ℕ) (chunk : List ℕ) (s s1 s2 : Sender)
    (r r1 : Receiver) (datagram answer rest : List ℕ) (ack : Packet) (left finished : Bool)
    → read_source hash now chunk s ≡ (ok left, s1)
    → last_sent s1.sent ≡ ok datagram
    → turn hash (record { packet_bytes = datagram; from = address }) r ≡ (ok tt, r1)
    → last_sent r1.sent ≡ ok answer
    → from_bytes answer ≡ ok (ack, rest)
    → receive hash now ack s1 ≡ (ok finished, s2)
    → exchange hash address now chunk (s, r) ≡ ok (s2, r1)
unfolding exchange
exchange-steps hash address now chunk s s1 s2 r r1 datagram answer rest ack left finished e1 e2 e3
      e4 e5 e6 =
    rw (e1, e2, e3, e4, e5, e6) refl

-- What an exchange brings about.
abbrev Exchanged : ℕ → List (List ℕ) → Receiver → Result (Sender × Receiver) → Type 0
Exchanged a chunks r end =
    (s1 : Sender) × (r1 : Receiver) × (end ≡ ok (s1, r1))
    × (r1.printed ≡ r.printed ++ chunks)
    × Idle a s1
    × Ready a r1

exchange-Exchanged :
    (hash : List ℕ → List ℕ) (c : ℕ) (host : Text) (port now a : ℕ) (chunk : List ℕ) (s : Sender)
    (r : Receiver)
    → ((bs : List ℕ) → length (hash bs) ≡ 16)
    → 1 ≤ length chunk
    → length chunk < 2 ^ 16
    → a + 7 < 2 ^ 32
    → Idle a s
    → Ready a r
    → IsUtf8 chunk
    → Exchanged (a + 1) (chunk ∷ []) r (exchange hash (c ∷ host, port) now chunk (s, r))
exchange-Exchanged hash c host port now a chunk s r digest some_data short small idle ready utf8 =
    let v =
      data_packet-IsPacket chunk s short (omega (arith, idle.next_number, small))
        (omega (arith, idle.window_six)) in
    let q = sealed hash (data_packet chunk s) in
    let sender = after_send now q (bytes_of q) s in
    let (read, whole) = sealed-read hash (data_packet chunk s) digest v in
    let (r1, taken, printed, sent, ready1) =
      turn-next hash a q [] c host port (bytes_of q) r digest read whole
        (sealed-IsPacket hash (data_packet chunk s) digest v) idle.next_number small ready utf8 in
    let fits =
      response-IsPacket (a + 1) (acknowledgement ∷ []) r (omega (arith, small)) ack_flags
        (omega (arith, ready.window_six)) in
    let (ack_read, ack_whole) = sealed-read hash (ack_of (a + 1) r) digest fits in
    (
      record sender { ack_number = a + 1; packets_in_flight = [] },
      r1,
      exchange-steps hash (c ∷ host, port) now chunk s sender
          (record sender { ack_number = a + 1; packets_in_flight = [] }) r r1 (bytes_of q)
          (bytes_of (sealed hash (ack_of (a + 1) r))) [] (sealed hash (ack_of (a + 1) r)) false
          (s.sent_all_messages && true) (read_source-sealed hash now chunk s digest some_data v)
          (last_sent-append s.sent (bytes_of q)) taken
          (ap (λ (l : List (List ℕ)). last_sent l) sent
            ∙ last_sent-append r.sent (bytes_of (sealed hash (ack_of (a + 1) r))))
          ack_read
          (receive-acks hash now a q now (sealed hash (ack_of (a + 1) r)) sender ack_whole refl
            (no_error hash (a + 1) r)
            (ap (λ (d : List (Packet × ℕ)). insert q now d) idle.none_flying) idle.next_number
            (omega (arith, idle.next_number)) idle.acked),
      printed,
      record {
        window_six = idle.window_six;
        next_number = omega (arith, idle.next_number);
        acked = omega arith;
        none_flying = refl;
      },
      ready1,
    )

-- A piece of data that is read from the source: it is not empty, its length fits two bytes, and it is UTF-8
-- by itself, so that no character is split between two pieces.
abbrev pub IsChunk : ℕ × List ℕ → Type 0
IsChunk timed = (1 ≤ length timed.1) × (length timed.1 < 2 ^ 16) × IsUtf8 timed.1

abbrev pub chunks_of : List (ℕ × List ℕ) → List (List ℕ)
chunks_of timed = map (λ t. t.1) timed

transfer-from :
    (hash : List ℕ → List ℕ) (c : ℕ) (host : Text) (port a : ℕ) (timed : List (ℕ × List ℕ))
    (s : Sender) (r : Receiver)
    → ((bs : List ℕ) → length (hash bs) ≡ 16)
    → All IsChunk timed
    → a + length timed + 7 < 2 ^ 32
    → Idle a s
    → Ready a r
    → Exchanged (a + length timed) (chunks_of timed) r (transfer hash (c ∷ host, port) timed (s, r))
unfolding transfer
transfer-from hash c host port a [] s r digest are_chunks small idle ready = (
  s,
  r,
  refl,
  sym (append-nil r.printed),
  subst (λ (n : ℕ). Idle n s) (omega arith) idle,
  subst (λ (n : ℕ). Ready n r) (omega arith) ready,
)
transfer-from hash c host port a ((now, chunk) ∷ rest) s r digest
      ((some_data, short, utf8), are_chunks) small idle ready =
    let (s1, r1, e, printed, idle1, ready1) =
      exchange-Exchanged hash c host port now a chunk s r digest some_data short
        (omega (arith, small)) idle ready utf8 in
    let (s2, r2, f, printed2, idle2, ready2) =
      transfer-from hash c host port (a + 1) rest s1 r1 digest are_chunks (omega (arith, small))
        idle1 ready1 in
    (
      s2,
      r2,
      ap
            (λ (x : Result (Sender × Receiver)).
              bind x (λ after. transfer hash (c ∷ host, port) rest after))
            e
          ∙ f,
      printed2
          ∙ ap (λ (l : List (List ℕ)). l ++ chunks_of rest) printed
          ∙ append_assoc r.printed (chunk ∷ []) (chunks_of rest),
      subst (λ (n : ℕ). Idle n s2) (omega arith) idle2,
      subst (λ (n : ℕ). Ready n r2) (omega arith) ready2,
    )

-- At the end of its source a sender with no packet in flight leaves the loop.
read_source-end :
    (hash : List ℕ → List ℕ) (now : ℕ) (s : Sender)
    → s.packets_in_flight ≡ []
    → result_of (read_source hash now [] s) ≡ ok true
unfolding read_source
read_source-end hash now s none_flying = rw none_flying refl

-- Over a network that loses nothing, from the start of both programs, where the sender waits for the answer
-- to each piece before it reads the next, every transfer of nonempty pieces that are UTF-8 each ends without
-- an exception as long as the numbers fit four bytes: the receiver has then printed all pieces in order, the
-- sender has no packet in flight, and it leaves its loop when its source ends.
pub transfer-completed :
    (hash : List ℕ → List ℕ) (c : ℕ) (host : Text) (port : ℕ) (timed : List (ℕ × List ℕ))
    (end_time : ℕ)
    → ((bs : List ℕ) → length (hash bs) ≡ 16)
    → All IsChunk timed
    → length timed + 7 < 2 ^ 32
    → (sender : Sender) × (receiver : Receiver) × (transfer hash
          (c ∷ host, port)
          timed
          (Sender.init, Receiver.init)
        ≡ ok (sender, receiver))
      × (receiver.printed ≡ chunks_of timed)
      × (sender.packets_in_flight ≡ [])
      × (result_of (read_source hash end_time [] sender) ≡ ok true)
transfer-completed hash c host port timed end_time digest are_chunks small =
    let (s, r, e, printed, idle, ready) =
      transfer-from hash c host port 0 timed Sender.init Receiver.init digest are_chunks
        (omega (arith, small))
        (record {
          window_six = refl;
          next_number = omega arith;
          acked = omega arith;
          none_flying = refl;
        })
        (record { window_six = refl; answers = inl refl; caught_up = inl (refl, refl, refl) }) in
    (s, r, e, printed, idle.none_flying, read_source-end hash end_time s idle.none_flying)
