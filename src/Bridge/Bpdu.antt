-- ===== src/Bridge/Bpdu.antt =====
-- 3700Bridge/networks/packet.py: the messages of the bridge and the order on BPDUs.
pub mod Order
use cs.Prelude.{
  ℕ, ◌≡◌, ◌↔◌, Bool, true, false, not, ◌&&◌, Option, none, some, List, arith, ltb, if◌then◌else◌,
}
use cs.Prelude.Eq.{Eq, ◌==◌, ℕ_eq, List_eq, Option_eq, list_eq_iff, option_eq_iff}
use cs.Prelude.Exec.{Result, ok, err, type_error, value_error}
use cs.Prelude.Text.{Text, text_lt}

-- `MessageType`
pub data MessageType : Type 0 where
  bridge_protocol_data_unit data_message : MessageType

-- `BPDU`: the port is `None` in the one that a bridge makes for itself as the root.
pub record Bpdu : Type 0 where
  pub root : Text
  pub cost : ℕ
  pub port : Option ℕ
  pub id : Text

-- The `==` of the dataclass
abbrev pub bpdu_beq : Bpdu → Bpdu → Bool
bpdu_beq a b = (a.root == b.root) && ((a.cost == b.cost) && ((a.port == b.port) && (a.id == b.id)))

pub bpdu_beq_iff : (a b : Bpdu) → (bpdu_beq a b ≡ true) ↔ (a ≡ b)
bpdu_beq_iff a b = (
  λ h.
      ground (arith, list_eq_iff a.root b.root, option_eq_iff a.port b.port, list_eq_iff a.id b.id),
  λ h.
      ground (arith, list_eq_iff a.root b.root, option_eq_iff a.port b.port, list_eq_iff a.id b.id),
)

instance abbrev pub Bpdu_eq : Eq Bpdu
Bpdu_eq = record { beq = bpdu_beq; beq_iff = bpdu_beq_iff }

-- `<` of two ports that differ: `None` is not ordered.
abbrev pub port_lt : Option ℕ → Option ℕ → Result Bool
port_lt (some a) (some b) = ok (ltb a b)
port_lt (some a) none = err type_error
port_lt none b = err type_error

-- The `<` of the dataclass: the first field in which the two differ decides.
unfoldable pub bpdu_lt : Bpdu → Bpdu → Result Bool
bpdu_lt a b =
    if not (a.root == b.root)
    then ok (text_lt a.root b.root)
    else if not (a.cost == b.cost)
    then ok (ltb a.cost b.cost)
    else if not (a.port == b.port)
    then port_lt a.port b.port
    else ok (text_lt a.id b.id)

pub data Message : Type 0 where
  bpdu_message : Bpdu → Message
  any_message : Text → Message

pub record Packet : Type 0 where
  pub source : Text
  pub dest : Text
  pub msg_id : ℕ
  pub type : MessageType
  pub message : Message

-- `Packet.__post_init__`: a BPDU packet must hold a BPDU.
unfoldable pub post_init : Packet → Result Packet
post_init p = elim p.type [
  | bridge_protocol_data_unit ↦ elim p.message [
    | bpdu_message b ↦ ok p
    | any_message t ↦ err value_error
  ]
  | data_message ↦ ok p
]
