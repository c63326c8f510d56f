-- ===== src/Router/Reflect/Classes/Received.antt =====
-- What a packet that was read is known to be.
use cs.Prelude.{◌≡◌, ◌≢◌, ◌⊎◌, inl, inr, refl, ap, ◌∙◌, subst, true, false, List}
use cs.Prelude.Eq.{◌==◌, ℕ_eq, List_eq, eq_self}
use cs.Prelude.Exec.{ok}
use cs.Prelude.Text.{Text}
use cs.Prelude.Strings.{codes}
use cs.Router.Address.{IpAddress, IsAddress}
use cs.Router.Value.{Value, text, address, instance_of, Entries, end, entry, get, add_last}
use cs.Router.Reflect.{
  FieldType, address_type, enum_type, list_type, class_type, Fields, no_field, plain_field,
  conditional_field, Mapping, unmapped, mapped, is_text, is_member, deserialize,
}
use cs.Router.Reflect.Types.{
  HasType, an_address, a_member, an_instance, HasFields, no_more, plain, conditional, HasCase, here,
  there, HoldsJson,
}
use cs.Router.Reflect.Typing.{deserialize-HasType}
use cs.Router.Reflect.Classes.{
  packet_types, description_type, update_type, message_types, packet_fields,
}

class_inv :
    (name : Text) (fields : Fields) (v : Value)
    → HasType (class_type name fields) v
    → (es : Entries) × (v ≡ instance_of name es) × HasFields fields end es
class_inv _ _ _ (an_instance name fields es h) = (es, refl, h)

no_more_inv : (made es : Entries) → HasFields no_field made es → es ≡ end
no_more_inv _ _ (no_more made) = refl

plain_inv :
    (name : Text) (t : FieldType) (fields : Fields) (made es : Entries)
    → HasFields (plain_field name t fields) made es
    → (v : Value) × (rest : Entries) × (es ≡ entry name v rest)
      × HasType t v
      × HasFields fields (add_last made name v) rest
plain_inv _ _ _ _ _ (plain name t fields made v rest h hs) = (v, rest, refl, h, hs)

conditional_inv :
    (name relies_on : Text) (mapping : Mapping) (fields : Fields) (made es : Entries)
    → HasFields (conditional_field name relies_on mapping fields) made es
    → (associated : Value) × (v : Value) × (rest : Entries) × (es ≡ entry name v rest)
      × (get relies_on made ≡ ok associated)
      × HasCase mapping associated v
      × HasFields fields (add_last made name v) rest
conditional_inv _ _ _ _ _ _
      (conditional name relies_on mapping fields made associated v rest g h hs) =
    (associated, v, rest, refl, g, h, hs)

case_inv :
    (key : Text) (t : FieldType) (mapping : Mapping) (associated v : Value)
    → HasCase (mapped key t mapping) associated v
    → ((is_text associated key ≡ true) × HasType t v)
      ⊎ ((is_text associated key ≡ false) × HasCase mapping associated v)
case_inv _ _ _ _ _ (here key t mapping associated v e h) = inl (e, h)
case_inv _ _ _ _ _ (there key t mapping associated v e h) = inr (e, h)

unmapped_inv : (associated v : Value) → HasCase unmapped associated v → ⊥
unmapped_inv associated v h = elim h [ ]

address_inv : (v : Value) → HasType address_type v → (a : IpAddress) × (v ≡ address a) × IsAddress a
address_inv _ (an_address a h) = (a, refl, h)

member_inv :
    (ms : List Text) (v : Value)
    → HasType (enum_type ms) v
    → (t : Text) × (v ≡ text t) × (is_member t ms ≡ true)
member_inv _ _ (a_member ms t h) = (t, refl, h)

-- The case of a key that the value has, or one of the later cases.
case_of :
    (key : Text) (t : FieldType) (mapping : Mapping) (v : Value)
    → HasCase (mapped key t mapping) (text key) v
    → HasType t v
case_of key t mapping v h = elim (case_inv key t mapping (text key) v h) [
  | inl (e, k) ↦ k
  | inr (e, k) ↦ absurd (differs e)
]
  where
    differs : (key == key) ≡ false → ⊥
    differs e = cc (eq_self key)

case_after :
    (key : Text) (t : FieldType) (mapping : Mapping) (associated v : Value)
    → is_text associated key ≡ false
    → HasCase (mapped key t mapping) associated v
    → HasCase mapping associated v
case_after key t mapping associated v other h = elim (case_inv key t mapping associated v h) [
  | inl (e, k) ↦ absurd (differs e)
  | inr (e, k) ↦ k
]
  where
    differs : is_text associated key ≡ true → ⊥
    differs e = cc

-- What the type of a packet says of its message.
pub record KnownMessage (type : Text) (msg : Value) : Type 0 where
  pub update_typed : type ≡ codes "update" → HasType update_type msg
  pub withdraw_typed : type ≡ codes "withdraw" → HasType (list_type description_type) msg
  pub no_table : type ≢ codes "table"

known : (type : Text) (msg : Value) → HasCase message_types (text type) msg → KnownMessage type msg
known type msg h = record {
  update_typed = λ e.
      case_of (codes "update") update_type _ msg
        (subst (λ (t : Text). HasCase message_types (text t) msg) e h);
  withdraw_typed = λ e. as_withdraw (subst (λ (t : Text). HasCase message_types (text t) msg) e h);
  no_table = λ e. as_table (subst (λ (t : Text). HasCase message_types (text t) msg) e h);
}
  where
    as_withdraw :
        HasCase message_types (text (codes "withdraw")) msg
        → HasType (list_type description_type) msg
    as_withdraw k = case_of (codes "withdraw") (list_type description_type) _ msg (
        case_after (codes "handshake") _ _ _ msg refl (
          case_after (codes "no route") _ _ _ msg refl (
            case_after (codes "data") _ _ _ msg refl
              (case_after (codes "update") _ _ _ msg refl k))))

    as_table : HasCase message_types (text (codes "table")) msg → ⊥
    as_table k = unmapped_inv (text (codes "table")) msg (
        case_after (codes "dump") _ _ _ msg refl (
          case_after (codes "withdraw") _ _ _ msg refl (
            case_after (codes "handshake") _ _ _ msg refl (
              case_after (codes "no route") _ _ _ msg refl (
                case_after (codes "data") _ _ _ msg refl
                  (case_after (codes "update") _ _ _ msg refl k))))))

abbrev pub received : IpAddress → IpAddress → Text → Value → Value
received src dst type msg = instance_of (codes "Packet") (
    entry (codes "src") (address src) (
      entry (codes "dst") (address dst)
        (entry (codes "type") (text type) (entry (codes "msg") msg end))))

abbrev from_message : Fields
from_message = conditional_field (codes "msg") (codes "type") message_types no_field

abbrev made_ends : IpAddress → IpAddress → Entries
made_ends src dst = entry (codes "src") (address src) (entry (codes "dst") (address dst) end)

message_field :
    (src dst : IpAddress) (type : Text) (es : Entries)
    → HasFields from_message
        (entry
          (codes "src")
          (address src)
          (entry (codes "dst") (address dst) (entry (codes "type") (text type) end)))
        es
    → (msg : Value) × (es ≡ entry (codes "msg") msg end) × KnownMessage type msg
unfolding add_last get
message_field src dst type es h =
    let (associated, msg, rest, e, g, k, hs) =
      conditional_inv (codes "msg") (codes "type") message_types no_field _ es h in
    let last = no_more_inv _ rest hs in
    (
      msg,
      e ∙ ap (λ (x : Entries). entry (codes "msg") msg x) last,
      known type msg (
          subst (λ (a : Value). HasCase message_types a msg) (same_value (text type) associated g)
            k),
    )
  where
    same_value : (a b : Value) → ok a ≡ ok b → b ≡ a
    same_value a b e = cc

type_field :
    (src dst : IpAddress) (es : Entries)
    → HasFields
        (plain_field (codes "type") (enum_type packet_types) from_message)
        (made_ends src dst)
        es
    → (type : Text) × (msg : Value) × (es
        ≡ entry (codes "type") (text type) (entry (codes "msg") msg end))
      × (is_member type packet_types ≡ true)
      × KnownMessage type msg
unfolding add_last
type_field src dst es h =
    let (v, rest, e, k, hs) =
      plain_inv (codes "type") (enum_type packet_types) from_message (made_ends src dst) es h in
    let (type, v_eq, member) = member_inv packet_types v k in
    let (msg, rest_eq, m) = message_field src dst type rest (
      subst
        (λ (x : Value). HasFields from_message (add_last (made_ends src dst) (codes "type") x) rest)
        v_eq hs) in
    (
      type,
      msg,
      e
          ∙ ap (λ (x : Value). entry (codes "type") x rest) v_eq
          ∙ ap (λ (x : Entries). entry (codes "type") (text type) x) rest_eq,
      member,
      m,
    )

address_field :
    (name : Text) (fields : Fields) (made es : Entries)
    → HasFields (plain_field name address_type fields) made es
    → (a : IpAddress) × (rest : Entries) × (es ≡ entry name (address a) rest)
      × IsAddress a
      × HasFields fields (add_last made name (address a)) rest
address_field name fields made es h =
    let (v, rest, e, k, hs) = plain_inv name address_type fields made es h in
    let (a, v_eq, fits) = address_inv v k in
    (
      a,
      rest,
      e ∙ ap (λ (x : Value). entry name x rest) v_eq,
      fits,
      subst (λ (x : Value). HasFields fields (add_last made name x) rest) v_eq hs,
    )

-- Whatever JSON a packet is read from, if it is read at all it has two 32-bit addresses, one of the types
-- of packets other than "table", and a message; under "update" the message is an UpdateMsg with all its
-- fields, and under "withdraw" a list of networks.
pub received_packet :
    (arguments : Entries) (v : Value)
    → HoldsJson arguments
    → deserialize (codes "Packet") packet_fields arguments ≡ ok v
    → (src : IpAddress) × (dst : IpAddress) × (type : Text) × (msg : Value) × (v
        ≡ received src dst type msg)
      × IsAddress src
      × IsAddress dst
      × (is_member type packet_types ≡ true)
      × (type ≢ codes "table")
      × (type ≡ codes "update" → HasType update_type msg)
      × (type ≡ codes "withdraw" → HasType (list_type description_type) msg)
unfolding add_last
received_packet arguments v j e =
    let (es, v_eq, h) =
      class_inv (codes "Packet") packet_fields v
        (deserialize-HasType (codes "Packet") packet_fields arguments v j e) in
    let (src, es1, e1, fits1, h1) =
      address_field (codes "src")
        (plain_field (codes "dst") address_type
          (plain_field (codes "type") (enum_type packet_types) from_message))
        end es h in
    let (dst, es2, e2, fits2, h2) =
      address_field (codes "dst") (plain_field (codes "type") (enum_type packet_types) from_message)
        (entry (codes "src") (address src) end) es1 h1 in
    let (type, msg, e3, member, m) = type_field src dst es2 h2 in
    (
      src,
      dst,
      type,
      msg,
      v_eq
          ∙ ap (λ (x : Entries). instance_of (codes "Packet") x)
              (e1
                ∙ ap (λ (x : Entries). entry (codes "src") (address src) x)
                    (e2 ∙ ap (λ (x : Entries). entry (codes "dst") (address dst) x) e3)),
      fits1,
      fits2,
      member,
      m.no_table,
      m.update_typed,
      m.withdraw_typed,
    )
