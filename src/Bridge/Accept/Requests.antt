-- ===== src/Bridge/Accept/Requests.antt =====
-- What `accept_requests` makes of the packets at the ports that are ready.
use cs.Prelude.{◌≡◌, ◌⊎◌, inl, inr, refl, sym, ap, ◌∙◌, ℕ, List, [], ◌∷◌, ◌++◌}
use mathlib.Core.List.{append_assoc, append-nil}
use cs.Prelude.Exec.{Error, Result, ok, err, Ensures-ok, Result-cases}
use cs.Prelude.Text.{Text, Signed}
use cs.Prelude.Strings.{codes}
use cs.Bridge.Value.{Value, Entries, get}
use cs.Bridge.Reflect.{deserialize, class_type}
use cs.Bridge.Reflect.Types.{HasType, HoldsJson}
use cs.Bridge.Reflect.Typing.{deserialize-HasType}
use cs.Bridge.Accept.{bpdu_type, packet_fields, read_packet, Request, accept_loop, accept_requests}
use cs.Bridge.Accept.Shape.{packet_of, IsRead, packet-IsRead}

-- Every datagram holds a JSON object.
pub data JsonComes : List (ℕ × Entries) → Type 0 where
  no_datagram : JsonComes []
  a_datagram :
      (port : ℕ) (es : Entries) (rest : List (ℕ × Entries))
      → HoldsJson es
      → JsonComes rest
      → JsonComes ((port, es) ∷ rest)

-- The requests of the packets, in the order in which the ports are ready.
pub data Accepted (repr : Value → Text)
    : List (ℕ × Entries) → List Request → List Request → Type 0 where
  nothing : Accepted repr [] [] []
  bpdu_comes :
      (port : ℕ) (es : Entries) (rest : List (ℕ × Entries)) (spanning forwarding : List Request)
      (source dest : Text) (msg_id : Signed) (bpdu : Value)
      → read_packet repr es ≡ ok (packet_of source dest msg_id (codes "bpdu") bpdu)
      → HasType bpdu_type bpdu
      → Accepted repr rest spanning forwarding
      → Accepted repr ((port, es) ∷ rest) ((port, bpdu) ∷ spanning) forwarding
  frame_comes :
      (port : ℕ) (es : Entries) (rest : List (ℕ × Entries)) (spanning forwarding : List Request)
      (source dest : Text) (msg_id : Signed) (message : Value)
      → read_packet repr es ≡ ok (packet_of source dest msg_id (codes "data") message)
      → Accepted repr rest spanning forwarding
      → Accepted repr
          ((port, es) ∷ rest)
          spanning
          ((port, packet_of source dest msg_id (codes "data") message) ∷ forwarding)

-- The first packet that cannot be read ends the round with its exception.
pub data Refused (repr : Value → Text) (e : Error) : List (ℕ × Entries) → Type 0 where
  this_one :
      (port : ℕ) (es : Entries) (rest : List (ℕ × Entries))
      → read_packet repr es ≡ err e
      → Refused repr e ((port, es) ∷ rest)
  a_later_one :
      (port : ℕ) (es : Entries) (rest : List (ℕ × Entries)) (packet : Value)
      → read_packet repr es ≡ ok packet
      → Refused repr e rest
      → Refused repr e ((port, es) ∷ rest)

read_packet-IsRead :
    (repr : Value → Text) (es : Entries) (packet : Value)
    → HoldsJson es
    → read_packet repr es ≡ ok packet
    → IsRead packet
unfolding read_packet
read_packet-IsRead repr es packet j e = packet-IsRead packet (
    Ensures-ok (HasType (class_type (codes "Packet") packet_fields))
      (deserialize repr (codes "Packet") packet_fields es) packet
      (deserialize-HasType repr (codes "Packet") packet_fields es j) e)

pub loop-bpdu :
    (repr : Value → Text) (port : ℕ) (es : Entries) (rest : List (ℕ × Entries))
    (sp fw : List Request) (source dest : Text) (msg_id : Signed) (bpdu : Value)
    → read_packet repr es ≡ ok (packet_of source dest msg_id (codes "bpdu") bpdu)
    → accept_loop repr ((port, es) ∷ rest) (sp, fw)
      ≡ accept_loop repr rest (sp ++ ((port, bpdu) ∷ []), fw)
unfolding accept_loop get
loop-bpdu repr port es rest sp fw source dest msg_id bpdu e = rw e refl

loop-frame :
    (repr : Value → Text) (port : ℕ) (es : Entries) (rest : List (ℕ × Entries))
    (sp fw : List Request) (source dest : Text) (msg_id : Signed) (message : Value)
    → read_packet repr es ≡ ok (packet_of source dest msg_id (codes "data") message)
    → accept_loop repr ((port, es) ∷ rest) (sp, fw)
      ≡ accept_loop repr rest
          (sp, fw ++ ((port, packet_of source dest msg_id (codes "data") message) ∷ []))
unfolding accept_loop get
loop-frame repr port es rest sp fw source dest msg_id message e = rw e refl

loop-refused :
    (repr : Value → Text) (port : ℕ) (es : Entries) (rest : List (ℕ × Entries))
    (requests : List Request × List Request) (x : Error)
    → read_packet repr es ≡ err x
    → accept_loop repr ((port, es) ∷ rest) requests ≡ err x
unfolding accept_loop
loop-refused repr port es rest requests x e = rw e refl

-- The loop adds the requests after those it has.
abbrev Ends :
    (Value → Text)
    → List (ℕ × Entries)
    → List Request
    → List Request
    → Result (List Request × List Request)
    → Type 0
Ends repr ready sp fw r =
    ((spanning : List Request) × (forwarding : List Request) × (r
        ≡ ok (sp ++ spanning, fw ++ forwarding))
      × Accepted repr ready spanning forwarding)
    ⊎ ((e : Error) × (r ≡ err e) × Refused repr e ready)

-- A port whose packet is read, before the ports for which the loop is understood.
module _ (repr : Value → Text) (port : ℕ) (es : Entries) (rest : List (ℕ × Entries))
    (sp fw : List Request)
    (loop : (sp fw : List Request) → Ends repr rest sp fw (accept_loop repr rest (sp, fw))) where
  bpdu-Ends :
      (source dest : Text) (msg_id : Signed) (bpdu : Value)
      → read_packet repr es ≡ ok (packet_of source dest msg_id (codes "bpdu") bpdu)
      → HasType bpdu_type bpdu
      → Ends repr ((port, es) ∷ rest) sp fw (accept_loop repr ((port, es) ∷ rest) (sp, fw))
  bpdu-Ends source dest msg_id bpdu e h = elim (loop (sp ++ ((port, bpdu) ∷ [])) fw) [
    | inl (spanning, forwarding, r, a) ↦ inl (
      (port, bpdu) ∷ spanning,
      forwarding,
      loop-bpdu repr port es rest sp fw source dest msg_id bpdu e
          ∙ r
          ∙ ap (λ (x : List Request). ok (x, fw ++ forwarding))
              (append_assoc sp ((port, bpdu) ∷ []) spanning),
      bpdu_comes port es rest spanning forwarding source dest msg_id bpdu e h a,
    )
    | inr (x, r, f) ↦ inr (
      x,
      loop-bpdu repr port es rest sp fw source dest msg_id bpdu e ∙ r,
      a_later_one port es rest _ e f,
    )
  ]

  frame-Ends :
      (source dest : Text) (msg_id : Signed) (message : Value)
      → read_packet repr es ≡ ok (packet_of source dest msg_id (codes "data") message)
      → Ends repr ((port, es) ∷ rest) sp fw (accept_loop repr ((port, es) ∷ rest) (sp, fw))
  frame-Ends source dest msg_id message e =
      let frame : Request = (port, packet_of source dest msg_id (codes "data") message) in
      elim (loop sp (fw ++ (frame ∷ []))) [
        | inl (spanning, forwarding, r, a) ↦ inl (
          spanning,
          frame ∷ forwarding,
          loop-frame repr port es rest sp fw source dest msg_id message e
              ∙ r
              ∙ ap (λ (x : List Request). ok (sp ++ spanning, x))
                  (append_assoc fw (frame ∷ []) forwarding),
          frame_comes port es rest spanning forwarding source dest msg_id message e a,
        )
        | inr (x, r, f) ↦ inr (
          x,
          loop-frame repr port es rest sp fw source dest msg_id message e ∙ r,
          a_later_one port es rest _ e f,
        )
      ]

  packet-Ends :
      (packet : Value)
      → read_packet repr es ≡ ok packet
      → IsRead packet
      → Ends repr ((port, es) ∷ rest) sp fw (accept_loop repr ((port, es) ∷ rest) (sp, fw))
  packet-Ends packet e p = elim p.kind [
    | inl bpdu ↦
        bpdu-Ends p.source p.dest p.msg_id p.message (read_as (codes "bpdu") bpdu)
          (p.holds_bpdu bpdu)
    | inr frame ↦ frame-Ends p.source p.dest p.msg_id p.message (read_as (codes "data") frame)
  ]
    where
      read_as :
          (t : Text)
          → p.type ≡ t
          → read_packet repr es ≡ ok (packet_of p.source p.dest p.msg_id t p.message)
      read_as t k =
          e
          ∙ ap (λ (x : Value). ok x) p.whole
          ∙ ap (λ (u : Text). ok (packet_of p.source p.dest p.msg_id u p.message)) k

loop_lem :
    (repr : Value → Text) (ready : List (ℕ × Entries)) (sp fw : List Request)
    → JsonComes ready
    → Ends repr ready sp fw (accept_loop repr ready (sp, fw))
unfolding accept_loop
loop_lem repr _ sp fw no_datagram = inl (
  [],
  [],
  ap (λ (x : List Request × List Request). ok x) (sym (same (append-nil sp) (append-nil fw))),
  nothing,
)
  where
    same :
        {a b c d : List Request}
        → a ≡ b
        → c ≡ d
        → ◌≡◌ {A = List Request × List Request} (a, c) (b, d)
    same p q = cc
loop_lem repr _ sp fw (a_datagram port es rest j js) = elim (Result-cases (read_packet repr es)) [
  | inr (x, e) ↦ inr (x, loop-refused repr port es rest (sp, fw) x e, this_one port es rest e)
  | inl (packet, e) ↦
      packet-Ends repr port es rest sp fw (λ sp fw. loop_lem repr rest sp fw js) packet e
        (read_packet-IsRead repr es packet j e)
]

-- Whatever JSON objects come, accept_requests either sorts all packets, in the order of the ports: the
-- messages of the type "bpdu", each of which is a BPDU with all its fields, and the packets of the type
-- "data"; or it ends with the exception that reading the first unreadable packet raised.
pub accept_requests_lem :
    (repr : Value → Text) (ready_ports : List (ℕ × Entries))
    → JsonComes ready_ports
    → ((spanning : List Request) × (forwarding : List Request) × (accept_requests repr ready_ports
          ≡ ok (spanning, forwarding))
        × Accepted repr ready_ports spanning forwarding)
      ⊎ ((e : Error) × (accept_requests repr ready_ports ≡ err e) × Refused repr e ready_ports)
unfolding accept_requests
accept_requests_lem repr ready_ports j = loop_lem repr ready_ports [] [] j
