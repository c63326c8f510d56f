-- ===== src/Router/Reflect/Tests.antt =====
-- The theorems about serialization at concrete packets.
use cs.Prelude.{ℕ, ◌≡◌, ◌≢◌, refl, true, arith}
use cs.Prelude.Exec.{ok}
use cs.Prelude.Text.{Text, split_on, int_of_text}
use cs.Prelude.Strings.{codes}
use cs.Router.Address.{IpAddress, IsAddress, post_init}
use cs.Router.Value.{
  Value, text, array, object, address, instance_of, nil, cons, Entries, end, entry, serialize,
  add_last, get, pop,
}
use cs.Router.Reflect.{class_type, no_field, list_type, is_member, deserialize}
use cs.Router.Reflect.Types.{
  HasType, HasFields, an_address, plain, no_more, HoldsJson, json_end, json_entry, json_text,
  json_array, json_nil, json_cons, json_object,
}
use cs.Router.Reflect.Inverse.{deserialize-serialize}
use cs.Router.Reflect.Typing.{deserialize-HasType}
use cs.Router.Reflect.Classes.{
  description_type, update_type, packet_types, packet_fields, network_fields,
}
use cs.Router.Reflect.Classes.Received.{received, received_packet}

abbrev net : IpAddress
net = record { binary = 3232235776 }

abbrev mask : IpAddress
mask = record { binary = 4294967040 }

abbrev network_entries : Entries
network_entries = entry (codes "network") (address net) (entry (codes "netmask") (address mask) end)

network-HasFields : HasFields (network_fields no_field) end network_entries
unfolding add_last
network-HasFields =
    plain _ _ _ _ _ _ (an_address net (omega arith))
      (plain _ _ _ _ _ _ (an_address mask (omega arith)) (no_more _))

deserialize-serialize_example :
    (js : Entries) × (serialize (instance_of (codes "NetworkDescription") network_entries)
      ≡ ok (object js))
    × (deserialize (codes "NetworkDescription") (network_fields no_field) js
        ≡ ok (instance_of (codes "NetworkDescription") network_entries))
deserialize-serialize_example =
    deserialize-serialize (codes "NetworkDescription") (network_fields no_field) network_entries
      network-HasFields

-- A withdrawal as it comes from the socket, with its keys in another order.
abbrev network_json : Value
network_json = object (
    entry (codes "netmask") (text (codes "255.255.255.0"))
      (entry (codes "network") (text (codes "192.168.1.0")) end))

abbrev arguments : Entries
arguments = entry (codes "type") (text (codes "withdraw")) (
    entry (codes "src") (text (codes "192.168.1.2")) (
      entry (codes "dst") (text (codes "192.168.1.1"))
        (entry (codes "msg") (array (cons network_json nil)) end)))

arguments-HoldsJson : HoldsJson arguments
arguments-HoldsJson = json_entry _ _ _ (json_text _) (
    json_entry _ _ _ (json_text _) (
      json_entry _ _ _ (json_text _) (
        json_entry _ _ _
          (json_array _ (
            json_cons _ _
              (json_object _
                (json_entry _ _ _ (json_text _) (json_entry _ _ _ (json_text _) json_end)))
              json_nil))
          json_end)))

abbrev ip : ℕ → IpAddress
ip n = record { binary = n }

abbrev packet : Value
packet =
    received (ip 3232235778) (ip 3232235777) (codes "withdraw")
      (array (cons (instance_of (codes "NetworkDescription") network_entries) nil))

arguments_read : deserialize (codes "Packet") packet_fields arguments ≡ ok packet
unfolding deserialize pop get add_last post_init split_on int_of_text
arguments_read = refl

deserialize-HasType_example : HasType (class_type (codes "Packet") packet_fields) packet
deserialize-HasType_example =
    deserialize-HasType (codes "Packet") packet_fields arguments packet arguments-HoldsJson
      arguments_read

received_packet_example :
    (src : IpAddress) × (dst : IpAddress) × (type : Text) × (msg : Value) × (packet
      ≡ received src dst type msg)
    × IsAddress src
    × IsAddress dst
    × (is_member type packet_types ≡ true)
    × (type ≢ codes "table")
    × (type ≡ codes "update" → HasType update_type msg)
    × (type ≡ codes "withdraw" → HasType (list_type description_type) msg)
received_packet_example = received_packet arguments packet arguments-HoldsJson arguments_read
