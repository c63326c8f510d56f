-- ===== src/Tcp/Sender/Resend.antt =====
-- What is sent again after a timeout.
use mathlib.Core.List.{append-nil}
use cs.Prelude.{
  ℕ, ◌-◌, ◌≡◌, refl, ap, sym, subst, inl, inr, Bool, List, [], ◌∷◌, ◌++◌, All, keep, map, ltb,
  Bool-cases,
}
use cs.Prelude.Exec.{Result, ok, bind-ok, state_of, result_of}
use cs.Prelude.Dict.{Dict, insert}
use cs.Tcp.Packet.{Packet}
use cs.Tcp.Packet.Equality.{Packet_eq}
use cs.Tcp.Packet.Bytes.{IsPacket, bytes_of, to_bytes-bytes_of}
use cs.Tcp.Sender.{Sender, send_packet, resend_loop, resend_timeout_packets}
use cs.Tcp.Sender.Numbers.{send_packet-ok}

abbrev pub is_late : ℕ → Packet × ℕ → Bool
is_late now (p, sent_time) = ltb 2000 (now - sent_time)

-- The datagrams of the packets that were sent too long ago.
abbrev late_datagrams : ℕ → Dict Packet ℕ → List (List ℕ)
late_datagrams now d = map (λ (e : Packet × ℕ). bytes_of e.0) (keep (is_late now) d)

-- The sender after a packet is sent again.
abbrev sent_again : ℕ → Packet → Sender → Sender
sent_again now p s = record s {
  sent = s.sent ++ (bytes_of p ∷ []);
  packets_in_flight = insert p now s.packets_in_flight;
}

append-one : (xs ys : List (List ℕ)) (x : List ℕ) → (xs ++ (x ∷ [])) ++ ys ≡ xs ++ (x ∷ ys)
append-one [] ys x = refl
append-one (z ∷ xs) ys x = ap (λ (zs : List (List ℕ)). z ∷ zs) (append-one xs ys x)

-- The loop returns, and has sent those datagrams.
abbrev Resends : Result {0} Unit × Sender → List (List ℕ) → Type 0
Resends r out = (result_of r ≡ ok tt) × ((state_of r).sent ≡ out)

resend_loop_lem :
    (now : ℕ) (items : Dict Packet ℕ) (s : Sender)
    → All (λ (e : Packet × ℕ). IsPacket e.0) items
    → Resends (resend_loop now items s) (s.sent ++ late_datagrams now items)
unfolding resend_loop
resend_loop_lem now [] s h = (refl, sym (append-nil s.sent))
resend_loop_lem now ((p, t) ∷ rest) s (hp, hs) = elim (Bool-cases (ltb 2000 (now - t))) [
  | inl late ↦ rw late (
      subst
        (λ (r : Result {0} Unit × Sender).
          Resends r (s.sent ++ (bytes_of p ∷ late_datagrams now rest)))
        (sym (
          bind-ok (send_packet now p) (λ _. resend_loop now rest) s tt (sent_again now p s)
            (send_packet-ok now p s (bytes_of p) (to_bytes-bytes_of p hp))))
        (subst (λ out. Resends (resend_loop now rest (sent_again now p s)) out)
          (append-one s.sent (late_datagrams now rest) (bytes_of p))
          (resend_loop_lem now rest (sent_again now p s) hs)))
  | inr early ↦ rw early (resend_loop_lem now rest s hs)
]

-- Where the fields of every packet in flight fit, resending returns, and has sent the datagrams of
-- exactly the packets that were sent more than two seconds ago, each once, in the order of the
-- packets in flight.
pub resend_timeout_packets_lem :
    (now : ℕ) (s : Sender)
    → All (λ (e : Packet × ℕ). IsPacket e.0) s.packets_in_flight
    → (result_of (resend_timeout_packets now s) ≡ ok tt)
      × ((state_of (resend_timeout_packets now s)).sent
          ≡ s.sent
            ++ map (λ (e : Packet × ℕ). bytes_of e.0) (keep (is_late now) s.packets_in_flight))
unfolding resend_timeout_packets
resend_timeout_packets_lem now s h = resend_loop_lem now s.packets_in_flight s h
