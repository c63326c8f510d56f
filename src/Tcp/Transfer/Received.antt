-- ===== src/Tcp/Transfer/Received.antt =====
-- What the receiver does with the packet that it expects.
use cs.Prelude.{
  ℕ, ◌+◌, ◌%◌, ◌≤◌, ◌<◌, ◌≡◌, inl, inr, refl, ap, ◌∙◌, Bool, true, false, ◌||◌, some, List, [], ◌∷◌,
  ◌++◌, arith, All, nat_eq, nat_eq_iff, ltb, lt→ltb, Bool-cases,
}
use cs.Prelude.Exec.{ok}
use cs.Prelude.Sort.{sorted, insert_sorted}
use cs.Prelude.Eq.{◌==◌}
use cs.Tcp.Packet.Equality.{Packet_eq, packet_beq_iff}
use cs.Tcp.Packet.{Packet}
use cs.Tcp.Receiver.Mangled.{IsUtf8}
use cs.Tcp.Receiver.{
  Receiver, max_unsigned_int, in_ackable_range, packet_lt, print_loop, still_ackable, last_number,
  contains,
}

-- All packets have numbers up to `a`.
abbrev pub UpTo : ℕ → List Packet → Type 0
UpTo a = All (λ p. p.header.sequence_number ≤ a)

-- A packet with a larger number than all others comes last.
pub sorted-next :
    (a : ℕ) (p : Packet) (ws : List Packet)
    → a < p.header.sequence_number
    → UpTo a ws
    → (us : List Packet) × (sorted packet_lt (ws ++ (p ∷ [])) ≡ us ++ (p ∷ [])) × UpTo a us
unfolding sorted insert_sorted
sorted-next a p [] h k = ([], refl, tt)
sorted-next a p (w ∷ ws) h (kw, ks) =
    let (us, e, u) = sorted-next a p ws h ks in
    let (vs, f, v) = inserted us u in
    (vs, ap (λ (x : List Packet). insert_sorted packet_lt w x) e ∙ f, v)
  where
    not_below : ltb p.header.sequence_number w.header.sequence_number ≡ false
    not_below = ground (arith, h, kw)

    inserted :
        (us : List Packet)
        → UpTo a us
        → (vs : List Packet) × (insert_sorted packet_lt w (us ++ (p ∷ [])) ≡ vs ++ (p ∷ []))
          × UpTo a vs
    inserted [] u = (w ∷ [], rw not_below refl, (kw, tt))
    inserted (x ∷ us) (ux, u) = elim (Bool-cases (packet_lt x w)) [
      | inl below ↦
          let (vs, e, v) = inserted us u in
          (x ∷ vs, rw below (ap (λ (l : List Packet). x ∷ l) e), (ux, v))
      | inr above ↦ (w ∷ x ∷ us, rw above refl, (kw, (ux, u)))
    ]

pub last_number-end :
    (us : List Packet) (p : Packet) → last_number (us ++ (p ∷ [])) ≡ some p.header.sequence_number
last_number-end [] p = refl
last_number-end (u ∷ []) p = refl
last_number-end (u ∷ v ∷ us) p = last_number-end (v ∷ us) p

-- The loop passes over the older packets, and prints the one with the next number.
pub print_loop-next :
    (a : ℕ) (us : List Packet) (p : Packet) (printed : List (List ℕ))
    → a + 1 < max_unsigned_int
    → p.header.sequence_number ≡ a + 1
    → UpTo a us
    → IsUtf8 p.data_bytes
    → print_loop (us ++ (p ∷ [])) (some a) printed
      ≡ (ok tt, (some (a + 1), printed ++ (p.data_bytes ∷ [])))
unfolding print_loop
print_loop-next a [] p printed m h k (text, decoded) = rw (next, decoded) refl
  where
    next : nat_eq p.header.sequence_number ((a + 1) % max_unsigned_int) ≡ true
    next =
        (nat_eq_iff p.header.sequence_number ((a + 1) % max_unsigned_int)).1 (omega (arith, m, h))
print_loop-next a (u ∷ us) p printed m h (ku, k) utf8 =
    rw other (print_loop-next a us p printed m h k utf8)
  where
    differs : u.header.sequence_number ≡ (a + 1) % max_unsigned_int → ⊥
    differs e = omega (arith, m, ku, e)

    other : nat_eq u.header.sequence_number ((a + 1) % max_unsigned_int) ≡ false
    other =
        ground (arith, nat_eq_iff u.header.sequence_number ((a + 1) % max_unsigned_int), differs)

-- For packets up to the number acked the test whether they can be acked does not raise.
range_decided :
    (a n : ℕ) (r : Receiver)
    → r.highest_acked ≡ some a
    → n ≤ a
    → (b : Bool) × (in_ackable_range r n ≡ ok b)
range_decided a n r h k = elim (Bool-cases (nat_eq a 0)) [
  | inl zero_acked ↦ (true, rw (h, zero_acked) refl)
  | inr positive ↦ elim (Bool-cases (nat_eq n a)) [
    | inl same ↦ (false, rw (h, positive, same) refl)
    | inr other ↦
        (ltb n ((a + r.window_size) % max_unsigned_int), rw (h, positive, other, not_above) refl)
  ]
]
  where
    not_above : ltb a n ≡ false
    not_above = ground (arith, k)

pub still_ackable-UpTo :
    (a : ℕ) (qs : List Packet) (r : Receiver)
    → r.highest_acked ≡ some a
    → UpTo a qs
    → (left : List Packet) × (still_ackable r qs ≡ ok left) × UpTo a left
unfolding still_ackable
still_ackable-UpTo a [] r h k = ([], refl, tt)
still_ackable-UpTo a (q ∷ qs) r h (kq, k) =
    let (left, e, u) = still_ackable-UpTo a qs r h k in
    let (b, f) = range_decided a q.header.sequence_number r h kq in
    elim (Bool-cases b) [
      | inl kept ↦ (q ∷ left, rw (f, e, kept) refl, (kq, u))
      | inr dropped ↦ (left, rw (f, e, dropped) refl, u)
    ]

pub contains-UpTo :
    (a : ℕ) (ws : List Packet) (p : Packet)
    → a < p.header.sequence_number
    → UpTo a ws
    → contains ws p ≡ false
contains-UpTo a [] p h k = refl
contains-UpTo a (w ∷ ws) p h (kw, k) = rw other (contains-UpTo a ws p h k)
  where
    differs : w ≡ p → ⊥
    differs e = omega (arith, h, kw, ap (λ (q : Packet). q.header.sequence_number) e)

    other : (w == p) ≡ false
    other = elim (Bool-cases (w == p)) [
      | inl same ↦ absurd (differs ((packet_beq_iff w p).0 same))
      | inr different ↦ different
    ]

-- The packet with the next number can be acked.
pub range-next :
    (a : ℕ) (r : Receiver)
    → r.highest_acked ≡ some a
    → 1 ≤ a
    → 2 ≤ r.window_size
    → a + r.window_size < max_unsigned_int
    → r.highest_received_syn ≡ some (a + 1)
    → in_ackable_range r (a + 1) ≡ ok true
range-next a r h positive wide m syn =
    rw (h, syn, not_zero, not_same, above, below)
      (ap (λ (b : Bool). ok b) (or_true (ltb (a + 1) (a + 1))))
  where
    not_zero : nat_eq a 0 ≡ false
    not_zero = ground (arith, positive, nat_eq_iff a 0)

    not_same : nat_eq (a + 1) a ≡ false
    not_same = ground (arith, nat_eq_iff (a + 1) a)

    above : ltb a (a + 1) ≡ true
    above = lt→ltb a (a + 1) (omega arith)

    below : ltb (a + 1) ((a + r.window_size) % max_unsigned_int) ≡ true
    below = lt→ltb (a + 1) ((a + r.window_size) % max_unsigned_int) (omega (arith, m, wide))

    or_true : (b : Bool) → (b || true) ≡ true
    or_true b = elim (Bool-cases b) [ inl t ↦ rw t refl | inr f ↦ rw f refl ]
