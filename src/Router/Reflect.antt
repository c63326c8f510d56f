-- ===== src/Router/Reflect.antt =====
-- `Deserializable` of 3700Router/networks/utils.py: how a class is described by its fields, and how an
-- instance is made from keyword arguments.
pub mod Types
pub mod Inverse
pub mod Typing
pub mod Classes
mod Tests
use cs.Prelude.{
  ℕ, ◌+◌, Bool, true, false, not, ◌||◌, Option, none, some, List, [], ◌∷◌, nat_eq, if◌then◌else◌,
}
use cs.Prelude.Eq.{◌==◌, ℕ_eq, List_eq}
use cs.Prelude.Exec.{
  Error, Result, ok, err, bind, or_raise, key_error, value_error, type_error, attribute_error,
}
use cs.Prelude.Text.{Text, Signed, int_of_text}
use cs.Router.Address.{post_init}
use cs.Router.Value.{
  Value, null, boolean, number, text, array, object, address, instance_of, Values, nil, cons,
  Entries, end, entry, get, pop, add_last,
}

mutual
  -- The types that fields have: `int`, `bool`, `Any`, a str enumeration by the texts of its members, an
  -- address, `List[t]`, and a dataclass.
  pub data FieldType : Type 0 where
    int_type bool_type any_type address_type : FieldType
    enum_type : List Text → FieldType
    list_type : FieldType → FieldType
    class_type : Text → Fields → FieldType

  -- The fields of a class; a `ConditionalField` has the name of the field that it relies on, and a
  -- type for each value of that field.
  pub data Fields : Type 0 where
    no_field : Fields
    plain_field : Text → FieldType → Fields → Fields
    conditional_field : Text → Text → Mapping → Fields → Fields

  pub data Mapping : Type 0 where
    unmapped : Mapping
    mapped : Text → FieldType → Mapping → Mapping

abbrev pub unsigned : ℕ → Signed
unsigned n = record { negative = false; magnitude = n }

-- `int(json_val)`
abbrev pub int_value : Value → Result Value
int_value (number n) = ok (number n)
int_value (boolean b) = ok (number (unsigned (if b then 1 else 0)))
int_value (text t) = bind (or_raise value_error (int_of_text t)) λ n. ok (number n)
int_value _ = err type_error

-- `bool(json_val)`
abbrev pub truth : Value → Bool
truth null = false
truth (boolean b) = b
truth (number n) = not (nat_eq n.magnitude 0)
truth (text []) = false
truth (array nil) = false
truth (object end) = false
truth _ = true

abbrev pub is_member : Text → List Text → Bool
is_member t [] = false
is_member t (m ∷ ms) = (m == t) || is_member t ms

-- `PacketType(json_val)`
abbrev pub enum_value : List Text → Value → Result Value
enum_value members (text t) = if is_member t members then ok (text t) else err value_error
enum_value members _ = err value_error

-- `IPAddress(json_val)`: only a str has `split`
abbrev pub address_value : Value → Result Value
address_value (text t) = bind (post_init t) λ a. ok (address a)
address_value _ = err attribute_error

abbrev pub letters : Text → Values
letters [] = nil
letters (c ∷ cs) = cons (text (c ∷ [])) (letters cs)

abbrev pub keys : Entries → Values
keys end = nil
keys (entry k v es) = cons (text k) (keys es)

-- `for element in json_val`
abbrev pub elements_of : Value → Result Values
elements_of (array vs) = ok vs
elements_of (text t) = ok (letters t)
elements_of (object es) = ok (keys es)
elements_of _ = err type_error

abbrev pub each : (Value → Result Value) → Values → Result Values
each f nil = ok nil
each f (cons v vs) = bind (f v) λ w. bind (each f vs) λ ws. ok (cons w ws)

-- `[cls.deserialize_as_type(nested_type, element) for element in json_val]`
abbrev pub list_value : (Value → Result Value) → Value → Result Value
list_value f v = bind (elements_of v) λ vs. bind (each f vs) λ ws. ok (array ws)

-- `validate_deserialization` and the call of the class: an argument that is left is a ValueError.
abbrev pub build : Text → Entries × Entries → Result Value
build name (fields, end) = ok (instance_of name fields)
build name (fields, entry k v rest) = err value_error

-- `except AttributeError`: the class is called with the one value, and lacks its other arguments.
abbrev pub caught : Result Value → Result Value
caught (ok v) = ok v
caught (err attribute_error) = err type_error
caught (err e) = err e

-- `obj_class.deserialize(**json_val)` with `except`, for the way in which the class reads its fields
abbrev pub class_value :
    Text → (Entries → Entries → Result (Entries × Entries)) → Value → Result Value
class_value name read (object arguments) = caught (bind (read arguments end) (build name))
class_value name read _ = err type_error

abbrev pub is_text : Value → Text → Bool
is_text (text t) key = t == key
is_text _ key = false

unfoldable mutual
  -- `deserialize_as_type`
  pub deserialize_as_type : FieldType → Value → Result Value
  deserialize_as_type int_type v = int_value v
  deserialize_as_type bool_type v = ok (boolean (truth v))
  deserialize_as_type any_type v = ok v
  deserialize_as_type address_type v = address_value v
  deserialize_as_type (enum_type members) v = enum_value members v
  deserialize_as_type (list_type t) v = list_value (deserialize_as_type t) v
  deserialize_as_type (class_type name fields) v = class_value name (read_fields fields) v

  -- The loop of `deserialize` over the fields: the arguments that are left, and the fields made so far
  pub read_fields : Fields → Entries → Entries → Result (Entries × Entries)
  read_fields no_field arguments made = ok (made, arguments)
  read_fields (plain_field name t fields) arguments made = bind (pop name arguments) λ found.
      bind (deserialize_as_type t found.0) λ v. read_fields fields found.1 (add_last made name v)
  read_fields (conditional_field name relies_on mapping fields) arguments made =
      bind (pop name arguments) λ found. bind (get relies_on made) λ associated.
        bind (by_mapping mapping associated found.0)
          λ v. read_fields fields found.1 (add_last made name v)

  -- `deserialize_conditional_field`, from the value of the field that it relies on
  pub by_mapping : Mapping → Value → Value → Result Value
  by_mapping unmapped associated v = err key_error
  by_mapping (mapped key t mapping) associated v =
      let rest = by_mapping mapping associated v in
      let here = deserialize_as_type t v in if is_text associated key then here else rest

-- `deserialize` of a class
unfoldable pub deserialize : Text → Fields → Entries → Result Value
unfolding deserialize_as_type
deserialize name fields arguments = bind (read_fields fields arguments end) (build name)
