-- ===== src/Bridge/Accept/Tests.antt =====
-- The theorems about received packets at concrete datagrams.
use cs.Prelude.{ℕ, ◌≡◌, ◌⊎◌, none, List, [], ◌∷◌, map}
use cs.Prelude.Exec.{Error, ok, err}
use cs.Prelude.Text.{Text}
use cs.Prelude.Strings.{codes}
use cs.Bridge.Port
use cs.Bridge.State.{default_root_bpdu}
use cs.Bridge.Value.{Value, number, text, object, Entries, end, entry}
use cs.Bridge.Reflect.{unsigned}
use cs.Bridge.Reflect.Types.{HoldsJson, json_end, json_entry, json_text, json_number, json_object}
use cs.Bridge.Accept.{Request, accept_requests}
use cs.Bridge.Accept.Requests.{
  JsonComes, no_datagram, a_datagram, Accepted, Refused, accept_requests_lem,
}
use cs.Bridge.Accept.Announced.{Announcement, datagram, request, announced-accepted}

-- The text of a list or an object
abbrev no_repr : Value → Text
no_repr v = codes "..."

abbrev bpdu_json : Entries
bpdu_json = entry (codes "root") (text (codes "02a1")) (
    entry (codes "cost") (number (unsigned 3))
      (entry (codes "port") (number (unsigned 1)) (entry (codes "id") (text (codes "92b4")) end)))

abbrev packet_json : Text → Value → Entries
packet_json type message = entry (codes "source") (text (codes "92b4")) (
    entry (codes "dest") (text (codes "ffff")) (
      entry (codes "message") message
        (entry (codes "type") (text type) (entry (codes "msg_id") (number (unsigned 5)) end))))

bpdu_json-HoldsJson : HoldsJson bpdu_json
bpdu_json-HoldsJson = json_entry _ _ _ (json_text _) (
    json_entry _ _ _ (json_number _)
      (json_entry _ _ _ (json_number _) (json_entry _ _ _ (json_text _) json_end)))

bpdu_packet-HoldsJson : HoldsJson (packet_json (codes "bpdu") (object bpdu_json))
bpdu_packet-HoldsJson = json_entry _ _ _ (json_text _) (
    json_entry _ _ _ (json_text _) (
      json_entry _ _ _ (json_object _ bpdu_json-HoldsJson)
        (json_entry _ _ _ (json_text _) (json_entry _ _ _ (json_number _) json_end))))

data_packet-HoldsJson : HoldsJson (packet_json (codes "data") (text (codes "hello")))
data_packet-HoldsJson = json_entry _ _ _ (json_text _) (
    json_entry _ _ _ (json_text _) (
      json_entry _ _ _ (json_text _)
        (json_entry _ _ _ (json_text _) (json_entry _ _ _ (json_number _) json_end))))

abbrev ready : List (ℕ × Entries)
ready =
    (0, packet_json (codes "data") (text (codes "hello")))
    ∷ (2, packet_json (codes "bpdu") (object bpdu_json))
    ∷ []

ready-JsonComes : JsonComes ready
ready-JsonComes =
    a_datagram 0 _ _ data_packet-HoldsJson (a_datagram 2 _ _ bpdu_packet-HoldsJson no_datagram)

accept_requests_lem_example :
    ((spanning : List Request) × (forwarding : List Request) × (accept_requests no_repr ready
        ≡ ok (spanning, forwarding))
      × Accepted no_repr ready spanning forwarding)
    ⊎ ((e : Error) × (accept_requests no_repr ready ≡ err e) × Refused no_repr e ready)
accept_requests_lem_example = accept_requests_lem no_repr ready ready-JsonComes

abbrev from_a : Announcement
from_a = record {
  identity = codes "02a1";
  bpdu = default_root_bpdu (codes "02a1");
  by = Port.init 4 9004;
}

abbrev from_b : Announcement
from_b = record {
  identity = codes "92b4";
  bpdu = record { root = codes "02a1"; cost = 1; port = none; id = codes "02a1" };
  by = Port.init 0 9000;
}

announced-accepted_example :
    accept_requests no_repr (map datagram ((1, from_a) ∷ (3, from_b) ∷ []))
    ≡ ok (map request ((1, from_a) ∷ (3, from_b) ∷ []), [])
announced-accepted_example = announced-accepted no_repr ((1, from_a) ∷ (3, from_b) ∷ [])
