-- ===== src/Bridge/Accept/Announced.antt =====
-- The packets that `send_packet` of port.py writes, and what becomes of an announcement where it arrives.
use cs.Prelude.{ℕ, ◌≡◌, refl, ap, ◌∙◌, Option, none, some, List, [], ◌∷◌, ◌++◌, map}
use mathlib.Core.List.{append_assoc, append-nil}
use cs.Prelude.Exec.{ok}
use cs.Prelude.Text.{Text}
use cs.Prelude.Strings.{codes}
use cs.Bridge.Bpdu.{
  Bpdu, MessageType, bridge_protocol_data_unit, data_message, Message, bpdu_message, any_message,
  Packet,
}
use cs.Bridge.Port.{Port, all_lans_id, sendable, bpdu_packet}
use cs.Bridge.Value.{
  Value, null, number, text, instance_of, object, Entries, end, entry, serialize, get, pop,
  add_last,
}
use cs.Bridge.Reflect.{unsigned, deserialize}
use cs.Bridge.Accept.{read_packet, Request, accept_loop, accept_requests}
use cs.Bridge.Accept.Shape.{packet_of}
use cs.Bridge.Accept.Requests.{loop-bpdu}

abbrev port_value : Option ℕ → Value
port_value none = null
port_value (some n) = number (unsigned n)

-- A `BPDU` as an object with its fields
abbrev pub bpdu_value : Bpdu → Value
bpdu_value b = instance_of (codes "BPDU") (
    entry (codes "root") (text b.root) (
      entry (codes "cost") (number (unsigned b.cost))
        (entry (codes "port") (port_value b.port) (entry (codes "id") (text b.id) end))))

abbrev type_text : MessageType → Text
type_text bridge_protocol_data_unit = codes "bpdu"
type_text data_message = codes "data"

abbrev message_value : Message → Value
message_value (bpdu_message b) = bpdu_value b
message_value (any_message t) = text t

-- A `Packet` as an object with its fields
abbrev pub packet_value : Packet → Value
packet_value p =
    packet_of p.source p.dest (unsigned p.msg_id) (type_text p.type) (message_value p.message)

-- `json.loads(packet.serialize())`, as the keyword arguments of `deserialize`
abbrev arguments_of : Value → Entries
arguments_of (object es) = es
arguments_of v = end

abbrev pub formatted_packet : Packet → Entries
formatted_packet p = arguments_of (serialize (packet_value p))

-- An announcement: the bridge that makes it, the BPDU it announces, and the port that it sends by.
pub record Announcement : Type 0 where
  pub identity : Text
  pub bpdu : Bpdu
  pub by : Port

abbrev pub datagram : ℕ × Announcement → ℕ × Entries
datagram (port, a) = (port, formatted_packet (bpdu_packet a.identity a.bpdu a.by))

abbrev pub request : ℕ × Announcement → Request
request (port, a) = (port, bpdu_value (sendable a.identity a.bpdu a.by))

announcement_read :
    (repr : Value → Text) (identity : Text) (bpdu : Bpdu) (by : Port)
    → read_packet repr (formatted_packet (bpdu_packet identity bpdu by))
      ≡ ok (
          packet_of identity all_lans_id
            (unsigned by.message_count)
            (codes "bpdu")
            (bpdu_value (sendable identity bpdu by)))
unfolding read_packet deserialize serialize pop get add_last
announcement_read repr identity bpdu by = refl

announced_loop :
    (repr : Value → Text) (arrivals : List (ℕ × Announcement)) (sp fw : List Request)
    → accept_loop repr (map datagram arrivals) (sp, fw) ≡ ok (sp ++ map request arrivals, fw)
unfolding accept_loop
announced_loop repr [] sp fw = ap (λ (x : List Request). ok (x, fw)) (same (append-nil sp))
  where
    same : {a b : List Request} → a ≡ b → b ≡ a
    same e = cc
announced_loop repr ((port, a) ∷ rest) sp fw =
    loop-bpdu repr port (formatted_packet (bpdu_packet a.identity a.bpdu a.by)) (map datagram rest)
      sp fw a.identity all_lans_id (unsigned a.by.message_count)
      (bpdu_value (sendable a.identity a.bpdu a.by)) (announcement_read repr a.identity a.bpdu a.by)
    ∙ announced_loop repr rest (sp ++ (request (port, a) ∷ [])) fw
    ∙ ap (λ (x : List Request). ok (x, fw))
        (append_assoc sp (request (port, a) ∷ []) (map request rest))

-- Whatever bridges announce by whatever ports, a bridge at which their datagrams arrive takes all of them
-- for requests of the spanning tree, in the order of its ports, each with the very BPDU that was sent,
-- and forwards none.
pub announced-accepted :
    (repr : Value → Text) (arrivals : List (ℕ × Announcement))
    → accept_requests repr (map datagram arrivals) ≡ ok (map request arrivals, [])
unfolding accept_requests
announced-accepted repr arrivals = announced_loop repr arrivals [] []
