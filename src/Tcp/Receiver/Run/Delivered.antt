-- ===== src/Tcp/Receiver/Run/Delivered.antt =====
-- Delivery in order, and the parts of the handling of a packet that keep it.
use mathlib.Core.List.{append-nil, append_assoc}
use cs.Prelude.{
  ℕ, ◌+◌, ◌%◌, ◌≡◌, ◌⊎◌, refl, sym, subst, ap, ◌∙◌, inl, inr, Bool, true, false, Option, some, List,
  [], ◌∷◌, ◌++◌, arith, All, All-map, All-In, All-append, In, length, Bool-cases, if◌then◌else◌,
}
use cs.Prelude.Exec.{
  Error, Exec, Result, ok, err, bind, Ensures, Result-cases, state_of, lift, modify, ◌>>=◌,
}
use cs.Tcp.Packet.{Packet, to_bytes}
use cs.Prelude.Eq.{ℕ_eq, List_eq}
use cs.Tcp.Packet.Equality.{Packet_eq}
use cs.Prelude.Strings.{decode}
use cs.Tcp.Receiver.{
  Receiver, has_destination, send_packet, in_ackable_range, max_unsigned_int, print_loop,
  keep_ackable, still_ackable, update_acked_packets,
}
use cs.Tcp.Receiver.Delivery.{Follow, data_of, Printed, print_loop_lem}

-- From number `a` on, packets with a property have been delivered in order, and the window holds only
-- such packets.
pub record Delivered (Q : Packet → Type 0) (a : ℕ) (printed : List (List ℕ)) (r : Receiver)
    : Type 0 where
  pub packets : List Packet
  pub accepted : All Q packets
  pub in_order : Follow a packets
  pub acked : r.highest_acked ≡ some (a + length packets)
  pub data_printed : r.printed ≡ printed ++ data_of packets
  pub window : All Q r.window_packets

-- The data of such packets has been printed in order, and then the data of another one, which has the next
-- number, was not UTF-8: that number is acked already.
pub record Stopped (Q : Packet → Type 0) (a : ℕ) (printed : List (List ℕ)) (e : Error)
    (r : Receiver) : Type 0 where
  pub packets : List Packet
  pub accepted : All Q packets
  pub in_order : Follow a packets
  pub data_printed : r.printed ≡ printed ++ data_of packets
  pub undecoded : Packet
  pub taken : Q undecoded
  pub number : undecoded.header.sequence_number ≡ (a + length packets + 1) % max_unsigned_int
  pub not_utf8 : decode undecoded.data_bytes ≡ err e
  pub acked : r.highest_acked ≡ some (a + length packets + 1)

-- A call that returns, or that raises, has delivered in order; or it raises as it decodes data.
abbrev pub Ends :
    {A : Type 0} → (Packet → Type 0) → ℕ → List (List ℕ) → Result A × Receiver → Type 0
Ends Q a printed r =
    Delivered Q a printed r.1 ⊎ ((e : Error) × (r.0 ≡ err e) × Stopped Q a printed e r.1)

Follow-append :
    (a : ℕ) (ps qs : List Packet) → Follow a ps → Follow (a + length ps) qs → Follow a (ps ++ qs)
Follow-append a [] qs h k = subst (λ (n : ℕ). Follow n qs) (omega arith) k
Follow-append a (p ∷ ps) qs (hp, h) k =
    (hp, Follow-append (a + 1) ps qs h (subst (λ (n : ℕ). Follow n qs) (omega arith) k))

data_of-append : (ps qs : List Packet) → data_of (ps ++ qs) ≡ data_of ps ++ data_of qs
data_of-append [] qs = refl
data_of-append (p ∷ ps) qs = ap (λ (ds : List (List ℕ)). p.data_bytes ∷ ds) (data_of-append ps qs)

length-append-packets : (ps qs : List Packet) → length (ps ++ qs) ≡ length ps + length qs
length-append-packets [] qs = omega arith
length-append-packets (p ∷ ps) qs = omega (arith, length-append-packets ps qs)

module _ (Q : Packet → Type 0) where
  after_call :
      {A B : Type 0} (a : ℕ) (printed : List (List ℕ)) (f : A → Exec Receiver B)
      (x : Result A × Receiver)
      → Ends Q a printed x
      → ((v : A) (s : Receiver) → Delivered Q a printed s → Ends Q a printed (f v s))
      → Ends Q a printed
          (elim x.0 as (λ _. Result B × Receiver) [ ok v ↦ f v x.1 | err e ↦ (err e, x.1) ])
  after_call a printed f (ok v, s) (inl d) k = k v s d
  after_call a printed f (err e, s) (inl d) k = inl d
  after_call {A} a printed f (ok v, s) (inr (e, q, t)) k = absurd (never q)
    where
      never : Path (Result A) (ok v) (err e) → ⊥
      never h = cc
  after_call a printed f (err x, s) (inr (e, q, t)) k =
      inr (x, refl, subst (λ (y : Error). Stopped Q a printed y s) (same q) t)
    where
      same : {A : Type 0} → Path (Result A) (err x) (err e) → e ≡ x
      same h = cc

  pub bind-Ends :
      {A B : Type 0} (a : ℕ) (printed : List (List ℕ)) (m : Exec Receiver A)
      (f : A → Exec Receiver B) (r : Receiver)
      → Ends Q a printed (m r)
      → ((v : A) (s : Receiver) → Delivered Q a printed s → Ends Q a printed (f v s))
      → Ends Q a printed ((m >>= f) r)
  bind-Ends a printed m f r h k = after_call a printed f (m r) h k

  -- Nothing new is delivered.
  pub none-Delivered :
      (a : ℕ) (r : Receiver)
      → r.highest_acked ≡ some a
      → All Q r.window_packets
      → Delivered Q a r.printed r
  none-Delivered a r h w = record {
    packets = [];
    accepted = tt;
    in_order = tt;
    acked = h ∙ ap (λ (n : ℕ). some n) (omega arith);
    data_printed = sym (append-nil r.printed);
    window = w;
  }

  then-Delivered :
      (a : ℕ) (printed : List (List ℕ)) (r s : Receiver) (d : Delivered Q a printed r)
      → Delivered Q (a + length d.packets) r.printed s
      → Delivered Q a printed s
  then-Delivered a printed r s d e = record {
    packets = d.packets ++ e.packets;
    accepted = All-append Q d.packets e.packets d.accepted e.accepted;
    in_order = Follow-append a d.packets e.packets d.in_order e.in_order;
    acked =
        e.acked ∙ ap (λ (n : ℕ). some n) (omega (arith, length-append-packets d.packets e.packets));
    data_printed =
        e.data_printed
        ∙ ap (λ (x : List (List ℕ)). x ++ data_of e.packets) d.data_printed
        ∙ append_assoc printed (data_of d.packets) (data_of e.packets)
        ∙ ap (λ (x : List (List ℕ)). printed ++ x) (sym (data_of-append d.packets e.packets));
    window = e.window;
  }

  -- Sending a packet that repeats the number acked delivers nothing.
  send-Delivered :
      (a : ℕ) (printed : List (List ℕ)) (message : Packet) (r : Receiver)
      → some message.header.sequence_number ≡ r.highest_acked
      → Delivered Q a printed r
      → Delivered Q a printed (state_of (send_packet message r))
  unfolding send_packet
  send-Delivered a printed message r h d = elim (Bool-cases (has_destination r.simulator)) [
    | inl there ↦ rw there (elim (Result-cases (to_bytes message)) [
      | inl (bs, e) ↦ rw e (record {
        packets = d.packets;
        accepted = d.accepted;
        in_order = d.in_order;
        acked = h ∙ d.acked;
        data_printed = d.data_printed;
        window = d.window;
      })
      | inr (x, e) ↦ rw e (record {
        packets = d.packets;
        accepted = d.accepted;
        in_order = d.in_order;
        acked = h ∙ d.acked;
        data_printed = d.data_printed;
        window = d.window;
      })
    ])
    | inr nowhere ↦ rw nowhere d
  ]

  pub window-Delivered :
      (a : ℕ) (printed : List (List ℕ)) (r : Receiver) (window : List Packet) (syn : Option ℕ)
      → All Q window
      → Delivered Q a printed r
      → Delivered Q a printed (record r { window_packets = window; highest_received_syn = syn })
  window-Delivered a printed r window syn w d = record {
    packets = d.packets;
    accepted = d.accepted;
    in_order = d.in_order;
    acked = d.acked;
    data_printed = d.data_printed;
    window = w;
  }

  still_ackable-All :
      (r : Receiver) (ws : List Packet)
      → All Q ws
      → Ensures (λ left. All Q left) (still_ackable r ws)
  unfolding still_ackable
  still_ackable-All r [] h = tt
  still_ackable-All r (p ∷ ws) (hp, h) =
      filtered (in_ackable_range r p.header.sequence_number) (still_ackable r ws)
        (still_ackable-All r ws h)
    where
      filtered :
          (x : Result Bool) (y : Result (List Packet))
          → Ensures (λ left. All Q left) y
          → Ensures
              (λ left. All Q left)
              (bind x (λ ackable. bind y (λ others. ok (if ackable then p ∷ others else others))))
      filtered (ok true) (ok others) k = (hp, k)
      filtered (ok false) (ok others) k = k
      filtered (ok b) (err e) k = tt
      filtered (err e) y k = tt

  then-Stopped :
      (a : ℕ) (printed : List (List ℕ)) (r s : Receiver) (e : Error) (d : Delivered Q a printed r)
      → Stopped Q (a + length d.packets) r.printed e s
      → Stopped Q a printed e s
  then-Stopped a printed r s e d t = record {
    packets = d.packets ++ t.packets;
    accepted = All-append Q d.packets t.packets d.accepted t.accepted;
    in_order = Follow-append a d.packets t.packets d.in_order t.in_order;
    data_printed = printed_on t.data_printed;
    undecoded = t.undecoded;
    taken = t.taken;
    number =
        t.number
        ∙ ap (λ (n : ℕ). (n + 1) % max_unsigned_int)
            (omega (arith, length-append-packets d.packets t.packets));
    not_utf8 = t.not_utf8;
    acked =
        t.acked
        ∙ ap (λ (n : ℕ). some (n + 1)) (omega (arith, length-append-packets d.packets t.packets));
  }
    where
      printed_on :
          s.printed ≡ r.printed ++ data_of t.packets
          → s.printed ≡ printed ++ data_of (d.packets ++ t.packets)
      printed_on h =
          h
          ∙ ap (λ (x : List (List ℕ)). x ++ data_of t.packets) d.data_printed
          ∙ append_assoc printed (data_of d.packets) (data_of t.packets)
          ∙ ap (λ (x : List (List ℕ)). printed ++ x) (sym (data_of-append d.packets t.packets))

  -- The receiver after the loop that prints.
  abbrev after_loop : Receiver → Receiver
  after_loop r = record r {
    highest_acked = (print_loop r.window_packets r.highest_acked r.printed).1.0;
    printed = (print_loop r.window_packets r.highest_acked r.printed).1.1;
  }

  printing-Ends :
      (a : ℕ) (printed : List (List ℕ)) (r : Receiver)
      → Delivered Q a printed r
      → Ends Q a printed ((print_loop r.window_packets r.highest_acked r.printed).0, after_loop r)
  printing-Ends a printed r d = by_loop (
      subst
        (λ (o : Option ℕ).
          Printed r.window_packets (a + length d.packets) r.printed
            (print_loop r.window_packets o r.printed))
        (sym d.acked) (print_loop_lem r.window_packets (a + length d.packets) r.printed))
    where
      held : (ps : List Packet) → All (λ q. In q r.window_packets) ps → All Q ps
      held ps h =
          All-map (λ q. In q r.window_packets) Q ps (λ q m. All-In Q q r.window_packets d.window m)
            h

      by_loop :
          Printed r.window_packets
            (a + length d.packets)
            r.printed
            (print_loop r.window_packets r.highest_acked r.printed)
          → Ends Q a printed
              ((print_loop r.window_packets r.highest_acked r.printed).0, after_loop r)
      by_loop loop = elim loop.acked [
        | inl (done, acked) ↦
            let e : Delivered Q a printed (after_loop r) =
              then-Delivered a printed r (after_loop r) d (record {
                packets = loop.packets;
                accepted = held loop.packets loop.held;
                in_order = loop.in_order;
                acked = acked;
                data_printed = loop.shown;
                window = d.window;
              }) in
            inl e
        | inr (x, p, raised, acked, mem, number, not_utf8) ↦ inr (
          x,
          raised,
          then-Stopped a printed r (after_loop r) x d (record {
            packets = loop.packets;
            accepted = held loop.packets loop.held;
            in_order = loop.in_order;
            data_printed = loop.shown;
            undecoded = p;
            taken = All-In Q p r.window_packets d.window mem;
            number = number;
            not_utf8 = not_utf8;
            acked = acked;
          }),
        )
      ]

  keep_ackable-Delivered :
      (a : ℕ) (printed : List (List ℕ)) (s : Receiver)
      → Delivered Q a printed s
      → Delivered Q a printed (state_of (keep_ackable s))
  unfolding keep_ackable
  keep_ackable-Delivered a printed s e =
      filtered (still_ackable s s.window_packets) (still_ackable-All s s.window_packets e.window)
    where
      filtered :
          (x : Result (List Packet))
          → Ensures (λ left. All Q left) x
          → Delivered Q a printed (
              state_of (
                (lift x >>= λ left. modify (λ (r : Receiver). record r { window_packets = left }))
                  s))
      filtered (ok left) h = window-Delivered a printed s left s.highest_received_syn h e
      filtered (err x) h = e

  pub update-Ends :
      (a : ℕ) (printed : List (List ℕ)) (r : Receiver)
      → Delivered Q a printed r
      → Ends Q a printed (update_acked_packets r)
  unfolding update_acked_packets
  update-Ends a printed r d =
      bind-Ends a printed (lift (print_loop r.window_packets r.highest_acked r.printed).0)
        (λ _. keep_ackable) (after_loop r) (printing-Ends a printed r d)
        (λ _ s e. inl (keep_ackable-Delivered a printed s e))

  -- The answer with the highest ack, once it is known to repeat the number acked.
  pub answer-Delivered :
      (a : ℕ) (printed : List (List ℕ)) (r : Receiver) (built : Result Packet)
      → Ensures (λ message. some message.header.sequence_number ≡ r.highest_acked) built
      → Delivered Q a printed r
      → Delivered Q a printed (state_of ((lift built >>= λ message. send_packet message) r))
  answer-Delivered a printed r (ok message) h d = send-Delivered a printed message r h d
  answer-Delivered a printed r (err e) h d = d
