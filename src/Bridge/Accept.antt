-- ===== src/Bridge/Accept.antt =====
-- The classes of 3700Bridge/networks/packet.py as `dataclasses.fields` lists them, `read_packet` of
-- port.py, and `accept_requests` of bridge.py.
pub mod Shape
pub mod Requests
pub mod Announced
mod Tests
use cs.Prelude.{ℕ, Bool, true, false, List, [], ◌∷◌, ◌++◌, if◌then◌else◌}
use cs.Prelude.Exec.{Result, ok, err, bind, attribute_error, not_implemented}
use cs.Prelude.Text.{Text, Signed}
use cs.Prelude.Strings.{codes}
use cs.Bridge.Value.{Value, number, text, instance_of, Entries, end, entry, get}
use cs.Bridge.Reflect.{
  FieldType, str_type, int_type, any_type, enum_type, class_type, one_of, Fields, no_field,
  plain_field, Options, no_option, option, is_text, deserialize,
}

-- `BPDU`
abbrev pub bpdu_fields : Fields
bpdu_fields = plain_field (codes "root") str_type (
    plain_field (codes "cost") int_type
      (plain_field (codes "port") int_type (plain_field (codes "id") str_type no_field)))

abbrev pub bpdu_type : FieldType
bpdu_type = class_type (codes "BPDU") bpdu_fields

-- `MessageType`
abbrev pub message_types : List Text
message_types = codes "bpdu" ∷ codes "data" ∷ []

-- `IncrementallyDeserialize(BPDU, Any)`
abbrev pub message_options : Options
message_options = option bpdu_type (option any_type no_option)

abbrev pub message_field : Fields
message_field = plain_field (codes "message") (one_of message_options) no_field

-- `Packet`
abbrev pub packet_fields : Fields
packet_fields = plain_field (codes "source") str_type (
    plain_field (codes "dest") str_type (
      plain_field (codes "msg_id") int_type
        (plain_field (codes "type") (enum_type message_types) message_field)))

-- `read_packet`, from what `json.loads` made of the datagram
unfoldable pub read_packet : (Value → Text) → Entries → Result Value
read_packet repr json_packet = deserialize repr (codes "Packet") packet_fields json_packet

-- An attribute of an instance
abbrev pub attribute : Text → Value → Result Value
attribute name (instance_of c es) = get name es
attribute name _ = err attribute_error

-- A request: the port and what came by it
abbrev pub Request : Type 0
Request = ℕ × Value

-- What a packet adds to the two lists, by its type
abbrev pub add_request :
    ℕ → Value → Value → Value → List Request × List Request → Result (List Request × List Request)
add_request port packet type message (spanning, forwarding) =
    if is_text type (codes "bpdu")
    then ok (spanning ++ ((port, message) ∷ []), forwarding)
    else if is_text type (codes "data")
    then ok (spanning, forwarding ++ ((port, packet) ∷ []))
    else err not_implemented

-- The loop of `accept_requests` over the ports that are ready
unfoldable pub accept_loop :
    (Value → Text)
    → List (ℕ × Entries)
    → List Request × List Request
    → Result (List Request × List Request)
unfolding read_packet
accept_loop repr [] requests = ok requests
accept_loop repr ((port, json_packet) ∷ rest) requests =
    bind (read_packet repr json_packet) λ packet. bind (attribute (codes "type") packet) λ type.
      bind (attribute (codes "message") packet) λ message.
        bind (add_request port packet type message requests) λ more. accept_loop repr rest more

-- `accept_requests`
unfoldable pub accept_requests :
    (Value → Text) → List (ℕ × Entries) → Result (List Request × List Request)
unfolding accept_loop
accept_requests repr ready_ports = accept_loop repr ready_ports ([], [])
