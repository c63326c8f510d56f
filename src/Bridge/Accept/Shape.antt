-- ===== src/Bridge/Accept/Shape.antt =====
-- What a packet that was read is known to be.
use cs.Prelude.{arith, ◌≡◌, ◌⊎◌, inl, inr, refl, sym, ap, ◌∙◌, subst, true, false, List, Bool-cases}
use cs.Prelude.Eq.{◌==◌, ℕ_eq, List_eq, list_eq_iff}
use cs.Prelude.Exec.{ok}
use cs.Prelude.Text.{Text, Signed}
use cs.Prelude.Strings.{codes}
use cs.Bridge.Value.{Value, number, text, instance_of, Entries, end, entry, get, add_last}
use cs.Bridge.Reflect.{
  FieldType, str_type, int_type, any_type, enum_type, class_type, one_of, Fields, no_field,
  plain_field, Options, no_option, option, is_member, is_text, is_instance, checked, post_init,
}
use cs.Bridge.Reflect.Types.{
  HasType, a_str, an_int, anything, a_member, an_instance, chosen, HasFields, no_more, plain,
  HasOption, here, there, IsJson, json_null, json_boolean, json_number, json_text, json_array,
  json_object,
}
use cs.Bridge.Accept.{bpdu_type, message_types, message_options, message_field, packet_fields}

abbrev pub packet_of : Text → Text → Signed → Text → Value → Value
packet_of source dest msg_id type message = instance_of (codes "Packet") (
    entry (codes "source") (text source) (
      entry (codes "dest") (text dest) (
        entry (codes "msg_id") (number msg_id)
          (entry (codes "type") (text type) (entry (codes "message") message end)))))

-- A packet with a BPDU, or with any message.
pub record IsRead (packet : Value) : Type 0 where
  pub source : Text
  pub dest : Text
  pub msg_id : Signed
  pub type : Text
  pub message : Value
  pub whole : packet ≡ packet_of source dest msg_id type message
  pub kind : (type ≡ codes "bpdu") ⊎ (type ≡ codes "data")
  pub holds_bpdu : type ≡ codes "bpdu" → HasType bpdu_type message

class_inv :
    (name : Text) (fields : Fields) (v : Value)
    → HasType (class_type name fields) v
    → (es : Entries) × (v ≡ instance_of name es)
      × HasFields fields end es
      × (post_init name es ≡ ok es)
class_inv _ _ _ (an_instance name fields es h p) = (es, refl, h, p)

no_more_inv : (made es : Entries) → HasFields no_field made es → es ≡ end
no_more_inv _ _ (no_more made) = refl

plain_inv :
    (name : Text) (t : FieldType) (fields : Fields) (made es : Entries)
    → HasFields (plain_field name t fields) made es
    → (v : Value) × (rest : Entries) × (es ≡ entry name v rest)
      × HasType t v
      × HasFields fields (add_last made name v) rest
plain_inv _ _ _ _ _ (plain name t fields made v rest h hs) = (v, rest, refl, h, hs)

str_inv : (v : Value) → HasType str_type v → (t : Text) × (v ≡ text t)
str_inv _ (a_str t) = (t, refl)

int_inv : (v : Value) → HasType int_type v → (n : Signed) × (v ≡ number n)
int_inv _ (an_int n) = (n, refl)

member_inv :
    (ms : List Text) (v : Value)
    → HasType (enum_type ms) v
    → (t : Text) × (v ≡ text t) × (is_member t ms ≡ true)
member_inv _ _ (a_member ms t h) = (t, refl, h)

one_of_inv : (os : Options) (v : Value) → HasType (one_of os) v → HasOption os v
one_of_inv _ _ (chosen os v h) = h

any_inv : (v : Value) → HasType any_type v → IsJson v
any_inv _ (anything v h) = h

option_inv :
    (t : FieldType) (os : Options) (v : Value)
    → HasOption (option t os) v
    → HasType t v ⊎ HasOption os v
option_inv _ _ _ (here t os v h) = inl h
option_inv _ _ _ (there t os v h) = inr h

no_option_inv : (v : Value) → HasOption no_option v → ⊥
no_option_inv v h = elim h [ ]

-- JSON holds no instance.
IsJson-is_instance : (name : Text) (v : Value) → IsJson v → is_instance name v ≡ false
IsJson-is_instance name _ json_null = refl
IsJson-is_instance name _ (json_boolean b) = refl
IsJson-is_instance name _ (json_number n) = refl
IsJson-is_instance name _ (json_text t) = refl
IsJson-is_instance name _ (json_array vs h) = refl
IsJson-is_instance name _ (json_object es h) = refl

-- The check of the class leaves a BPDU under the type "bpdu".
bpdu_checked :
    (type message : Value) (es : Entries)
    → is_text type (codes "bpdu") ≡ true
    → checked type message es ≡ ok es
    → HasOption message_options message
    → HasType bpdu_type message
bpdu_checked type message es typed passes h =
    elim (option_inv bpdu_type (option any_type no_option) message h) [
      | inl bpdu ↦ bpdu
      | inr later ↦ elim (option_inv any_type no_option message later) [
        | inl any ↦
            absurd (refused (IsJson-is_instance (codes "BPDU") message (any_inv message any)))
        | inr none_left ↦ absurd (no_option_inv message none_left)
      ]
    ]
  where
    refused : is_instance (codes "BPDU") message ≡ false → ⊥
    refused e = ground (arith, typed, passes, e)

member_kind :
    (t : Text) → is_member t message_types ≡ true → (t ≡ codes "bpdu") ⊎ (t ≡ codes "data")
member_kind t h = elim (Bool-cases (codes "bpdu" == t)) [
  | inl bpdu ↦ inl (sym ((list_eq_iff (codes "bpdu") t).0 bpdu))
  | inr other ↦ elim (Bool-cases (codes "data" == t)) [
    | inl frame ↦ inr (sym ((list_eq_iff (codes "data") t).0 frame))
    | inr neither ↦ absurd (no_member other neither)
  ]
]
  where
    no_member : (codes "bpdu" == t) ≡ false → (codes "data" == t) ≡ false → ⊥
    no_member a b = ground (arith, a, b, h)

abbrev from_message : Text → Text → Signed → Text → Value → Entries
from_message source dest msg_id type message = entry (codes "source") (text source) (
    entry (codes "dest") (text dest) (
      entry (codes "msg_id") (number msg_id)
        (entry (codes "type") (text type) (entry (codes "message") message end))))

-- A field of texts: the text, and the fields after it.
str_field :
    (name : Text) (fields : Fields) (made es : Entries)
    → HasFields (plain_field name str_type fields) made es
    → (t : Text) × (rest : Entries) × (es ≡ entry name (text t) rest)
      × HasFields fields (add_last made name (text t)) rest
str_field name fields made es h =
    let (v, rest, e, k, hs) = plain_inv name str_type fields made es h in
    let (t, v_eq) = str_inv v k in
    (
      t,
      rest,
      e ∙ ap (λ (x : Value). entry name x rest) v_eq,
      subst (λ (x : Value). HasFields fields (add_last made name x) rest) v_eq hs,
    )

int_field :
    (name : Text) (fields : Fields) (made es : Entries)
    → HasFields (plain_field name int_type fields) made es
    → (n : Signed) × (rest : Entries) × (es ≡ entry name (number n) rest)
      × HasFields fields (add_last made name (number n)) rest
int_field name fields made es h =
    let (v, rest, e, k, hs) = plain_inv name int_type fields made es h in
    let (n, v_eq) = int_inv v k in
    (
      n,
      rest,
      e ∙ ap (λ (x : Value). entry name x rest) v_eq,
      subst (λ (x : Value). HasFields fields (add_last made name x) rest) v_eq hs,
    )

type_field :
    (fields : Fields) (made es : Entries)
    → HasFields (plain_field (codes "type") (enum_type message_types) fields) made es
    → (t : Text) × (rest : Entries) × (es ≡ entry (codes "type") (text t) rest)
      × ((t ≡ codes "bpdu") ⊎ (t ≡ codes "data"))
      × HasFields fields (add_last made (codes "type") (text t)) rest
type_field fields made es h =
    let (v, rest, e, k, hs) = plain_inv (codes "type") (enum_type message_types) fields made es h in
    let (t, v_eq, member) = member_inv message_types v k in
    (
      t,
      rest,
      e ∙ ap (λ (x : Value). entry (codes "type") x rest) v_eq,
      member_kind t member,
      subst (λ (x : Value). HasFields fields (add_last made (codes "type") x) rest) v_eq hs,
    )

message_end :
    (made es : Entries)
    → HasFields message_field made es
    → (message : Value) × (es ≡ entry (codes "message") message end)
      × HasOption message_options message
message_end made es h =
    let (message, rest, e, k, hs) =
      plain_inv (codes "message") (one_of message_options) no_field made es h in
    (
      message,
      e
          ∙ ap (λ (x : Entries). entry (codes "message") message x)
              (no_more_inv (add_last made (codes "message") message) rest hs),
      one_of_inv message_options message k,
    )

abbrev from_type : Fields
from_type = plain_field (codes "type") (enum_type message_types) message_field

abbrev from_id : Fields
from_id = plain_field (codes "msg_id") int_type from_type

abbrev from_dest : Fields
from_dest = plain_field (codes "dest") str_type from_id

-- Under the type "bpdu" the check of the class has passed, so the message is a BPDU.
bpdu_held :
    (source dest : Text) (msg_id : Signed) (type : Text) (message : Value) (es : Entries)
    → es ≡ from_message source dest msg_id type message
    → post_init (codes "Packet") es ≡ ok es
    → HasOption message_options message
    → type ≡ codes "bpdu"
    → HasType bpdu_type message
unfolding get
bpdu_held source dest msg_id type message es e passes o typed =
    bpdu_checked (text type) message (from_message source dest msg_id type message)
      (subst (λ (t : Text). (t == codes "bpdu") ≡ true) (sym typed) refl)
      (subst (λ (x : Entries). post_init (codes "Packet") x ≡ ok x) e passes) o

-- What has the type of packets is a packet that was read.
pub packet-IsRead : (v : Value) → HasType (class_type (codes "Packet") packet_fields) v → IsRead v
unfolding add_last
packet-IsRead v h =
    let (es, v_eq, fs, passes) = class_inv (codes "Packet") packet_fields v h in
    let (source, es1, e1, h1) = str_field (codes "source") from_dest end es fs in
    let (dest, es2, e2, h2) =
      str_field (codes "dest") from_id (entry (codes "source") (text source) end) es1 h1 in
    let (msg_id, es3, e3, h3) =
      int_field (codes "msg_id") from_type
        (entry (codes "source") (text source) (entry (codes "dest") (text dest) end)) es2 h2 in
    let (type, es4, e4, which, h4) =
      type_field message_field
        (entry (codes "source") (text source)
          (entry (codes "dest") (text dest) (entry (codes "msg_id") (number msg_id) end)))
        es3 h3 in
    let (message, e5, o) =
      message_end
        (entry (codes "source") (text source) (
          entry (codes "dest") (text dest)
            (entry (codes "msg_id") (number msg_id) (entry (codes "type") (text type) end))))
        es4 h4 in
    let whole_eq =
      e1
      ∙ ap (λ (x : Entries). entry (codes "source") (text source) x)
          (e2
            ∙ ap (λ (x : Entries). entry (codes "dest") (text dest) x)
                (e3
                  ∙ ap (λ (x : Entries). entry (codes "msg_id") (number msg_id) x)
                      (e4 ∙ ap (λ (x : Entries). entry (codes "type") (text type) x) e5))) in
    record {
      source = source;
      dest = dest;
      msg_id = msg_id;
      type = type;
      message = message;
      whole = v_eq ∙ ap (λ (x : Entries). instance_of (codes "Packet") x) whole_eq;
      kind = which;
      holds_bpdu = bpdu_held source dest msg_id type message es whole_eq passes o;
    }
