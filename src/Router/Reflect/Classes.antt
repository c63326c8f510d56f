-- ===== src/Router/Reflect/Classes.antt =====
-- The classes of 3700Router/networks/packet.py as `dataclasses.fields` lists them, and the objects that
-- stand for the messages of Router/Packet.
pub mod Messages
pub mod Received
use cs.Prelude.{ℕ, ◌≡◌, Bool, true, false, Option, none, some, List, [], ◌∷◌}
use cs.Prelude.Text.{Text}
use cs.Prelude.Strings.{codes}
use cs.Router.Packet.{
  NetworkDescription, UpdateMsg, Packet, PacketType, update, withdraw, data_packet, routeless, dump,
  table, handshake, Origin, local, remote, unknown, Message, update_msg, update_ping, withdrawals,
  full_table, content, empty, UpdatePing, DumpPing,
}
use cs.Router.Value.{
  Value, number, boolean, text, array, object, address, instance_of, Values, nil, cons, Entries,
  end, entry,
}
use cs.Router.Reflect.{
  FieldType, int_type, bool_type, any_type, address_type, enum_type, list_type, class_type, Fields,
  no_field, plain_field, conditional_field, Mapping, unmapped, mapped, unsigned,
}

-- `PacketType` and `AutonomousSystemOrigin` as texts
abbrev pub type_text : PacketType → Text
type_text update = codes "update"
type_text withdraw = codes "withdraw"
type_text data_packet = codes "data"
type_text routeless = codes "no route"
type_text dump = codes "dump"
type_text table = codes "table"
type_text handshake = codes "handshake"

abbrev pub packet_types : List Text
packet_types =
    codes "update"
    ∷ codes "withdraw"
    ∷ codes "data"
    ∷ codes "no route"
    ∷ codes "dump"
    ∷ codes "table"
    ∷ codes "handshake"
    ∷ []

abbrev pub origin_text : Origin → Text
origin_text local = codes "IGP"
origin_text remote = codes "EGP"
origin_text unknown = codes "UNK"

abbrev pub origins : List Text
origins = codes "IGP" ∷ codes "EGP" ∷ codes "UNK" ∷ []

-- The fields that `NetworkDescription` has, before further ones.
abbrev pub network_fields : Fields → Fields
network_fields more =
    plain_field (codes "network") address_type (plain_field (codes "netmask") address_type more)

abbrev pub description_type : FieldType
description_type = class_type (codes "NetworkDescription") (network_fields no_field)

-- The fields that `UpdateMsg` adds to those of `UpdatePing`
abbrev update_fields : Fields
update_fields = network_fields (
    plain_field (codes "ASPath") (list_type int_type) (
      plain_field (codes "localpref") int_type (
        plain_field (codes "selfOrigin") bool_type
          (plain_field (codes "origin") (enum_type origins) no_field))))

abbrev pub update_type : FieldType
update_type = class_type (codes "UpdateMsg") update_fields

-- The mapping of the field `msg`
abbrev pub message_types : Mapping
message_types = mapped (codes "update") update_type (
    mapped (codes "data") any_type (
      mapped (codes "no route") any_type (
        mapped (codes "handshake") any_type (
          mapped (codes "withdraw") (list_type description_type)
            (mapped (codes "dump") any_type unmapped)))))

-- `Packet`
abbrev pub packet_fields : Fields
packet_fields = plain_field (codes "src") address_type (
    plain_field (codes "dst") address_type (
      plain_field (codes "type") (enum_type packet_types)
        (conditional_field (codes "msg") (codes "type") message_types no_field)))

abbrev pub description_value : NetworkDescription → Value
description_value d =
    instance_of (codes "NetworkDescription") (
      entry (codes "network") (address d.network) (entry (codes "netmask") (address d.netmask) end))

abbrev pub descriptions_values : List NetworkDescription → Values
descriptions_values [] = nil
descriptions_values (d ∷ ds) = cons (description_value d) (descriptions_values ds)

abbrev pub numbers_values : List ℕ → Values
numbers_values [] = nil
numbers_values (n ∷ ns) = cons (number (unsigned n)) (numbers_values ns)

abbrev pub ping_value : UpdatePing → Value
ping_value m = instance_of (codes "UpdatePing") (
    entry (codes "network") (address m.network) (
      entry (codes "netmask") (address m.netmask)
        (entry (codes "ASPath") (array (numbers_values m.as_path)) end)))

abbrev pub update_value : UpdateMsg → Value
update_value m = instance_of (codes "UpdateMsg") (
    entry (codes "network") (address m.network) (
      entry (codes "netmask") (address m.netmask) (
        entry (codes "ASPath") (array (numbers_values m.as_path)) (
          entry (codes "localpref") (number (unsigned m.localpref)) (
            entry (codes "selfOrigin") (boolean m.self_origin)
              (entry (codes "origin") (text (origin_text m.origin)) end))))))

abbrev pub dump_value : DumpPing → Value
dump_value m = instance_of (codes "DumpPing") (
    entry (codes "network") (address m.network) (
      entry (codes "netmask") (address m.netmask) (
        entry (codes "ASPath") (array (numbers_values m.as_path)) (
          entry (codes "localpref") (number (unsigned m.localpref)) (
            entry (codes "selfOrigin") (boolean m.self_origin) (
              entry (codes "origin") (text (origin_text m.origin))
                (entry (codes "peer") (address m.peer) end)))))))

abbrev pub dumps_values : List DumpPing → Values
dumps_values [] = nil
dumps_values (d ∷ ds) = cons (dump_value d) (dumps_values ds)

abbrev pub message_value : Message → Value
message_value (update_msg m) = update_value m
message_value (update_ping m) = ping_value m
message_value (withdrawals ds) = array (descriptions_values ds)
message_value (full_table ds) = array (dumps_values ds)
message_value (content t) = text t
message_value empty = object end

abbrev pub packet_entries : Packet → Entries
packet_entries p = entry (codes "src") (address p.src) (
    entry (codes "dst") (address p.dst) (
      entry (codes "type") (text (type_text p.type))
        (entry (codes "msg") (message_value p.msg) end)))
