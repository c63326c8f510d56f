-- ===== src/Tcp/Sender/Flight.antt =====
-- How sending changes the number of packets in flight.
use cs.Prelude.{
  ℕ, ◌+◌, ◌-◌, ◌≤◌, ◌≡◌, refl, ap, ◌∙◌, inl, inr, Bool, true, false, some, [], ◌∷◌, arith, All,
  All-map, All-of_In, In, keep, length, length-keep-le, ltb, nat_eq, nat_eq_iff, Bool-cases,
  if◌then◌else◌,
}
use cs.Prelude.Eq.{◌==◌, eq_self}
use cs.Prelude.Exec.{Exec, state_of, bind-state, Result-cases, ◌>>◌}
use cs.Prelude.Dict.{Dict, insert}
use cs.Tcp.Packet.{Packet, to_bytes}
use cs.Tcp.Packet.Equality.{Packet_eq}
use cs.Tcp.Sender.{
  Sender, send_packet, is_ackable, packets_still_in_flight, find_by_number, resend_loop,
}

abbrev pub Flight : Type 0
Flight = Dict Packet ℕ

length-insert : (p : Packet) (t : ℕ) (d : Flight) → length (insert p t d) ≤ length d + 1
length-insert p t [] = omega arith
length-insert p t ((q, u) ∷ d) = ground (arith, length-insert p t d)

-- A packet with that number is in the list, and is not kept.
found_dropped :
    (s : Sender) (p : Packet) (d : Flight)
    → find_by_number s.ack_number d ≡ some p
    → length (keep (is_ackable s) d) + 1 ≤ length d
found_dropped s p [] h = cc
found_dropped s p ((q, t) ∷ d) h = ground (
  arith,
  h,
  found_dropped s p d,
  length-keep-le (is_ackable s) d,
  nat_eq_iff q.header.sequence_number s.ack_number,
)

pub still_le : (s : Sender) → length (packets_still_in_flight s) ≤ length s.packets_in_flight
still_le s = ground (arith, length-keep-le (is_ackable s) s.packets_in_flight)

pub still_lt :
    (s : Sender) (p : Packet)
    → find_by_number s.ack_number s.packets_in_flight ≡ some p
    → length (packets_still_in_flight s) + 1 ≤ length s.packets_in_flight
still_lt s p h = elim (Bool-cases (nat_eq s.ack_number s.syn_number)) [
  | inl caught_up ↦ rw caught_up (ground (arith, found_dropped s p s.packets_in_flight h))
  | inr behind ↦ rw behind (found_dropped s p s.packets_in_flight h)
]

pub send_packet-length :
    (now : ℕ) (p : Packet) (s : Sender)
    → (length (state_of (send_packet now p s)).packets_in_flight ≤ length s.packets_in_flight + 1)
      × ((state_of (send_packet now p s)).sliding_window_size ≡ s.sliding_window_size)
unfolding send_packet
send_packet-length now p s = elim (Result-cases (to_bytes p)) [
  | inl (bs, e) ↦ rw e (length-insert p now s.packets_in_flight, refl)
  | inr (x, e) ↦ rw e (omega arith, refl)
]

abbrev is_held : Packet → Flight → Bool
is_held p [] = false
is_held p ((q, t) ∷ d) = if q == p then true else is_held p d

length-insert_held :
    (p : Packet) (t : ℕ) (d : Flight) → is_held p d ≡ true → length (insert p t d) ≡ length d
length-insert_held p t [] h = cc
length-insert_held p t ((q, u) ∷ d) h = ground (arith, h, length-insert_held p t d)

is_held-insert :
    (p q : Packet) (t : ℕ) (d : Flight) → is_held q d ≡ true → is_held q (insert p t d) ≡ true
is_held-insert p q t [] h = cc
is_held-insert p q t ((x, u) ∷ d) h = ground (arith, h, is_held-insert p q t d)

-- The window is the same, and no more packets are in flight.
abbrev pub Shrinks : Sender → Sender → Type 0
Shrinks s s' =
    (length s'.packets_in_flight ≤ length s.packets_in_flight)
    × (s'.sliding_window_size ≡ s.sliding_window_size)

send_held :
    (now : ℕ) (p : Packet) (s : Sender)
    → is_held p s.packets_in_flight ≡ true
    → Shrinks s (state_of (send_packet now p s))
      × ((q : Packet)
          → is_held q s.packets_in_flight ≡ true
          → is_held q (state_of (send_packet now p s)).packets_in_flight ≡ true)
unfolding send_packet
send_held now p s h = elim (Result-cases (to_bytes p)) [
  | inl (bs, e) ↦ rw e (
    (omega (arith, length-insert_held p now s.packets_in_flight h), refl),
    λ q held. is_held-insert p q now s.packets_in_flight held,
  )
  | inr (x, e) ↦ rw e ((omega arith, refl), λ q held. held)
]

-- A call that comes after another one, where the first may raise.
then-Shrinks :
    (s : Sender) (m k : Exec Sender Unit)
    → Shrinks s (state_of (m s))
    → Shrinks (state_of (m s)) (state_of (k (state_of (m s))))
    → Shrinks s (state_of ((m >> k) s))
then-Shrinks s m k (a, e) (b, f) =
    bind-state (Shrinks s) m (λ _. k) s (a, e) (λ v r. (omega arith, f ∙ e))

pub resend_loop-Shrinks :
    (now : ℕ) (items : Flight) (s : Sender)
    → All (λ (e : Packet × ℕ). is_held e.0 s.packets_in_flight ≡ true) items
    → Shrinks s (state_of (resend_loop now items s))
unfolding resend_loop
resend_loop-Shrinks now [] s h = (omega arith, refl)
resend_loop-Shrinks now ((p, t) ∷ rest) s (hp, hs) = elim (Bool-cases (ltb 2000 (now - t))) [
  | inl late ↦
      let (shrinks, held) = send_held now p s hp in
      rw late (
        then-Shrinks s (send_packet now p) (resend_loop now rest) shrinks (
          resend_loop-Shrinks now rest (state_of (send_packet now p s)) (
            All-map (λ (e : Packet × ℕ). is_held e.0 s.packets_in_flight ≡ true)
              (λ (e : Packet × ℕ).
                is_held e.0 (state_of (send_packet now p s)).packets_in_flight ≡ true)
              rest (λ e k. held e.0 k) hs)))
  | inr early ↦ rw early (resend_loop-Shrinks now rest s hs)
]

in_held : (e : Packet × ℕ) (d : Flight) → In e d → is_held e.0 d ≡ true
in_held e [] m = absurd m
in_held (p, t) ((q, u) ∷ d) (inl same) =
    rw (ap (λ (x : Packet × ℕ). x.0) same) (ground (arith, eq_self q))
in_held e ((q, u) ∷ d) (inr m) = ground (arith, in_held e d m)

pub in_flight-All : (d : Flight) → All (λ (e : Packet × ℕ). is_held e.0 d ≡ true) d
in_flight-All d = All-of_In (λ (e : Packet × ℕ). is_held e.0 d ≡ true) d (λ e m. in_held e d m)
