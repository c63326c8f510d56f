-- ===== src/Tcp/Receiver/Delivery.antt =====
-- The data that is printed comes in the order of the sequence numbers.
use mathlib.Core.List.{append-nil, append_assoc}
use cs.Prelude.{
  ℕ, suc, ◌+◌, ◌%◌, ◌≡◌, ◌⊎◌, refl, sym, ◌∙◌, ap, inl, inr, some, List, [], ◌∷◌, ◌++◌, map, arith,
  All, All-map, In, length, nat_eq, nat_eq_iff, Bool-cases,
}
use cs.Tcp.Packet.{Packet}
use cs.Tcp.Receiver.{max_unsigned_int, Printing, print_loop}
use cs.Prelude.Exec.{Error, ok, err, Result-cases}
use cs.Prelude.Strings.{decode}

-- The packets have the numbers that follow `a`, one after the other.
abbrev pub Follow : ℕ → List Packet → Type 0
Follow a [] = Unit
Follow a (p ∷ ps) = (p.header.sequence_number ≡ (a + 1) % max_unsigned_int) × Follow (a + 1) ps

abbrev pub data_of : List Packet → List (List ℕ)
data_of ps = map (λ p. p.data_bytes) ps

-- The loop has acked as many numbers as it has printed packets, or it has acked the next number too, and
-- raises on the data of a packet with that number.
abbrev pub Acked : List Packet → ℕ → Printing → Type 0
Acked window n r =
    ((r.0 ≡ ok tt) × (r.1.0 ≡ some n))
    ⊎ ((e : Error) × (p : Packet) × (r.0 ≡ err e)
        × (r.1.0 ≡ some (n + 1))
        × In p window
        × (p.header.sequence_number ≡ (n + 1) % max_unsigned_int)
        × (decode p.data_bytes ≡ err e))

-- What the loop prints after number `a`.
pub record Printed (window : List Packet) (a : ℕ) (printed : List (List ℕ)) (r : Printing)
    : Type 0 where
  pub packets : List Packet
  pub held : All (λ p. In p window) packets
  pub in_order : Follow a packets
  pub shown : r.1.1 ≡ printed ++ data_of packets
  pub acked : Acked window (a + length packets) r

later_Acked :
    (p : Packet) (window : List Packet) (m n : ℕ) (r : Printing)
    → m ≡ n
    → Acked window m r
    → Acked (p ∷ window) n r
later_Acked p window m n r same (inl (done, acked)) =
    inl (done, acked ∙ ap (λ (k : ℕ). some k) same)
later_Acked p window m n r same (inr (e, q, raised, acked, mem, number, undecoded)) = inr (
  e,
  q,
  raised,
  acked ∙ ap (λ (k : ℕ). some (k + 1)) same,
  inr mem,
  number ∙ ap (λ (k : ℕ). (k + 1) % max_unsigned_int) same,
  undecoded,
)

later_held :
    (p : Packet) (window ps : List Packet)
    → All (λ q. In q window) ps
    → All (λ q. In q (p ∷ window)) ps
later_held p window ps h = All-map (λ q. In q window) (λ q. In q (p ∷ window)) ps (λ q m. inr m) h

-- From number `a` on, the loop prints the data of packets of the window with the numbers that follow
-- `a` without a gap, in that order, and acks as many numbers as it prints packets, or one more where it
-- raises on data that is not UTF-8.
pub print_loop_lem :
    (window : List Packet) (a : ℕ) (printed : List (List ℕ))
    → Printed window a printed (print_loop window (some a) printed)
unfolding print_loop
print_loop_lem [] a printed = record {
  packets = [];
  held = tt;
  in_order = tt;
  shown = sym (append-nil printed);
  acked = inl (refl, ap (λ (n : ℕ). some n) (omega arith));
}
print_loop_lem (p ∷ window) a printed =
    elim (Bool-cases (nat_eq p.header.sequence_number ((a + 1) % max_unsigned_int))) [
      | inr other ↦
          let rest = print_loop_lem window a printed in
          rw other (record {
            packets = rest.packets;
            held = later_held p window rest.packets rest.held;
            in_order = rest.in_order;
            shown = rest.shown;
            acked =
                later_Acked p window (a + length rest.packets) (a + length rest.packets)
                  (print_loop window (some a) printed) refl rest.acked;
          })
      | inl next ↦ elim (Result-cases (decode p.data_bytes)) [
        | inr (e, undecoded) ↦
            rw (next, undecoded)
              (record {
                packets = [];
                held = tt;
                in_order = tt;
                shown = sym (append-nil printed);
                acked = inr (
                  e,
                  p,
                  refl,
                  ap (λ (n : ℕ). some n) (omega arith),
                  inl refl,
                  (nat_eq_iff p.header.sequence_number ((a + 1) % max_unsigned_int)).0 next
                      ∙ ap (λ (n : ℕ). n % max_unsigned_int) (omega arith),
                  undecoded,
                );
              })
        | inl (text, decoded) ↦
            let rest = print_loop_lem window (a + 1) (printed ++ (p.data_bytes ∷ [])) in
            rw (next, decoded)
              (record {
                packets = p ∷ rest.packets;
                held = (inl refl, later_held p window rest.packets rest.held);
                in_order = (
                  (nat_eq_iff p.header.sequence_number ((a + 1) % max_unsigned_int)).0 next,
                  rest.in_order,
                );
                shown =
                    rest.shown ∙ append_assoc printed (p.data_bytes ∷ []) (data_of rest.packets);
                acked =
                    later_Acked p window (a + 1 + length rest.packets)
                      (a + suc (length rest.packets))
                      (print_loop window (some (a + 1)) (printed ++ (p.data_bytes ∷ [])))
                      (omega arith) rest.acked;
              })
      ]
    ]
