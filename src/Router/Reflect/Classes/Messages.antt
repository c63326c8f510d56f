-- ===== src/Router/Reflect/Classes/Messages.antt =====
-- The packets that a router can read are read as they were written.
use cs.Prelude.{ℕ, ◌≡◌, refl, true, List, [], ◌∷◌, All}
use cs.Prelude.Eq.{ℕ_eq, List_eq}
use cs.Prelude.Exec.{ok}
use cs.Prelude.Strings.{codes}
use cs.Router.Address.{IsAddress}
use cs.Router.Packet.{
  NetworkDescription, UpdateMsg, Packet, PacketType, update, withdraw, data_packet, routeless, dump,
  table, handshake, Origin, local, remote, unknown, Message, update_msg, withdrawals, content,
  empty,
}
use cs.Router.Value.{
  Value, number, text, object, instance_of, Entries, end, serialize, get, add_last,
}
use cs.Router.Reflect.{int_type, is_member, unsigned, deserialize}
use cs.Router.Reflect.Types.{
  HasType, an_int, a_bool, anything, an_address, a_member, a_list, an_instance, HaveType, no_value,
  values, no_more, plain, conditional, HasCase, here, there,
}
use cs.Router.Reflect.Inverse.{deserialize-serialize}
use cs.Router.Reflect.Classes.{
  type_text, packet_types, origin_text, origins, description_type, update_type, message_types,
  packet_fields, description_value, descriptions_values, numbers_values, update_value,
  message_value, packet_entries,
}

numbers-HaveType : (ns : List ℕ) → HaveType int_type (numbers_values ns)
numbers-HaveType [] = no_value int_type
numbers-HaveType (n ∷ ns) =
    values int_type (number (unsigned n)) (numbers_values ns) (an_int (unsigned n))
      (numbers-HaveType ns)

abbrev pub IsNetwork : NetworkDescription → Type 0
IsNetwork d = IsAddress d.network × IsAddress d.netmask

description-HasType :
    (d : NetworkDescription) → IsNetwork d → HasType description_type (description_value d)
unfolding add_last
description-HasType d (h, k) = an_instance _ _ _ (
    plain _ _ _ _ _ _ (an_address d.network h)
      (plain _ _ _ _ _ _ (an_address d.netmask k) (no_more _)))

descriptions-HaveType :
    (ds : List NetworkDescription)
    → All IsNetwork ds
    → HaveType description_type (descriptions_values ds)
descriptions-HaveType [] h = no_value description_type
descriptions-HaveType (d ∷ ds) (h, hs) =
    values description_type (description_value d) (descriptions_values ds) (description-HasType d h)
      (descriptions-HaveType ds hs)

origin-is_member : (o : Origin) → is_member (origin_text o) origins ≡ true
origin-is_member local = refl
origin-is_member remote = refl
origin-is_member unknown = refl

type-is_member : (t : PacketType) → is_member (type_text t) packet_types ≡ true
type-is_member update = refl
type-is_member withdraw = refl
type-is_member data_packet = refl
type-is_member routeless = refl
type-is_member dump = refl
type-is_member table = refl
type-is_member handshake = refl

update-HasType :
    (m : UpdateMsg)
    → IsAddress m.network
    → IsAddress m.netmask
    → HasType update_type (update_value m)
unfolding add_last
update-HasType m h k = an_instance _ _ _ (
    plain _ _ _ _ _ _ (an_address m.network h) (
      plain _ _ _ _ _ _ (an_address m.netmask k) (
        plain _ _ _ _ _ _ (a_list int_type (numbers_values m.as_path) (numbers-HaveType m.as_path))
          (plain _ _ _ _ _ _ (an_int (unsigned m.localpref)) (
            plain _ _ _ _ _ _ (a_bool m.self_origin) (
              plain _ _ _ _ _ _
                (a_member origins (origin_text m.origin) (origin-is_member m.origin))
                (no_more _)))))))

-- The message is of the kind that its type has; the table of a dump is never read.
abbrev pub Matches : PacketType → Message → Type 0
Matches update (update_msg m) = IsAddress m.network × IsAddress m.netmask
Matches withdraw (withdrawals ds) = All IsNetwork ds
Matches data_packet (content t) = Unit
Matches data_packet empty = Unit
Matches routeless (content t) = Unit
Matches routeless empty = Unit
Matches dump (content t) = Unit
Matches dump empty = Unit
Matches handshake (content t) = Unit
Matches handshake empty = Unit
Matches _ _ = ⊥

-- `Any` takes every object that is left as it is.
any-HasCase :
    (v : Value) (h : serialize v ≡ ok v)
    → HasCase message_types (text (codes "data")) v
      × HasCase message_types (text (codes "no route")) v
      × HasCase message_types (text (codes "handshake")) v
      × HasCase message_types (text (codes "dump")) v
any-HasCase v h = (
  there _ _ _ _ _ refl (here _ _ _ _ _ refl (anything v h)),
  there _ _ _ _ _ refl (there _ _ _ _ _ refl (here _ _ _ _ _ refl (anything v h))),
  there _ _ _ _ _ refl
      (there _ _ _ _ _ refl (there _ _ _ _ _ refl (here _ _ _ _ _ refl (anything v h)))),
  there _ _ _ _ _ refl (
      there _ _ _ _ _ refl (
        there _ _ _ _ _ refl
          (there _ _ _ _ _ refl (there _ _ _ _ _ refl (here _ _ _ _ _ refl (anything v h)))))),
)

message-HasCase :
    (t : PacketType) (m : Message)
    → Matches t m
    → HasCase message_types (text (type_text t)) (message_value m)
unfolding serialize
message-HasCase update (update_msg m) (h, k) = here _ _ _ _ _ refl (update-HasType m h k)
message-HasCase withdraw (withdrawals ds) h = there _ _ _ _ _ refl (
    there _ _ _ _ _ refl (
      there _ _ _ _ _ refl (
        there _ _ _ _ _ refl (
          here _ _ _ _ _ refl
            (a_list description_type (descriptions_values ds) (descriptions-HaveType ds h))))))
message-HasCase data_packet (content t) h = (any-HasCase (text t) refl).0
message-HasCase data_packet empty h = (any-HasCase (object end) refl).0
message-HasCase routeless (content t) h = (any-HasCase (text t) refl).1
message-HasCase routeless empty h = (any-HasCase (object end) refl).1
message-HasCase handshake (content t) h = (any-HasCase (text t) refl).2
message-HasCase handshake empty h = (any-HasCase (object end) refl).2
message-HasCase dump (content t) h = (any-HasCase (text t) refl).3
message-HasCase dump empty h = (any-HasCase (object end) refl).3
message-HasCase _ _ h = absurd h

-- A packet of the router whose addresses are 32-bit numbers and whose message is of the kind that its
-- type has is written as an object, from which the same packet is read.
pub packet_deserialize-serialize :
    (p : Packet)
    → IsAddress p.src
    → IsAddress p.dst
    → Matches p.type p.msg
    → (js : Entries) × (serialize (instance_of (codes "Packet") (packet_entries p))
        ≡ ok (object js))
      × (deserialize (codes "Packet") packet_fields js
          ≡ ok (instance_of (codes "Packet") (packet_entries p)))
unfolding add_last get
packet_deserialize-serialize p h k m =
    deserialize-serialize (codes "Packet") packet_fields (packet_entries p) (
      plain _ _ _ _ _ _ (an_address p.src h) (
        plain _ _ _ _ _ _ (an_address p.dst k) (
          plain _ _ _ _ _ _ (a_member packet_types (type_text p.type) (type-is_member p.type)) (
            conditional _ _ _ _ _ (text (type_text p.type)) _ _ refl
              (message-HasCase p.type p.msg m) (no_more _)))))
