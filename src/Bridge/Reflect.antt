-- ===== src/Bridge/Reflect.antt =====
-- `Deserializable` and `IncrementallyDeserialize` of 3700Bridge/networks/utils.py. The text that `str`
-- makes of a list or of an object is a parameter.
pub mod Types
pub mod Typing
use cs.Prelude.{ℕ, Bool, true, false, not, ◌&&◌, ◌||◌, List, [], ◌∷◌, ◌++◌, nat_eq, if◌then◌else◌}
use cs.Prelude.Eq.{◌==◌, ℕ_eq, List_eq}
use cs.Prelude.Exec.{
  Error, Result, ok, err, bind, or_raise, key_error, value_error, type_error, attribute_error,
}
use cs.Prelude.Text.{Text, Signed, int_of_text, decimal}
use cs.Prelude.Strings.{codes}
use cs.Bridge.Value.{
  Value, null, boolean, number, text, array, object, instance_of, Values, nil, cons, Entries, end,
  entry, get, pop, add_last,
}

mutual
  -- The types that fields have: `str`, `int`, `Any`, a str enumeration by the texts of its members, a
  -- dataclass, and `IncrementallyDeserialize` with its options.
  pub data FieldType : Type 0 where
    str_type int_type any_type : FieldType
    enum_type : List Text → FieldType
    class_type : Text → Fields → FieldType
    one_of : Options → FieldType

  pub data Fields : Type 0 where
    no_field : Fields
    plain_field : Text → FieldType → Fields → Fields

  pub data Options : Type 0 where
    no_option : Options
    option : FieldType → Options → Options

abbrev pub unsigned : ℕ → Signed
unsigned n = record { negative = false; magnitude = n }

abbrev pub signed_text : Signed → Text
signed_text n =
    if n.negative && not (nat_eq n.magnitude 0)
    then b'-' ∷ decimal n.magnitude
    else decimal n.magnitude

-- `str(json_val)`
abbrev pub str_value : (Value → Text) → Value → Text
str_value repr null = codes "None"
str_value repr (boolean true) = codes "True"
str_value repr (boolean false) = codes "False"
str_value repr (number n) = signed_text n
str_value repr (text t) = t
str_value repr v = repr v

-- `int(json_val)`
abbrev pub int_value : Value → Result Value
int_value (number n) = ok (number n)
int_value (boolean b) = ok (number (unsigned (if b then 1 else 0)))
int_value (text t) = bind (or_raise value_error (int_of_text t)) λ n. ok (number n)
int_value _ = err type_error

abbrev pub is_member : Text → List Text → Bool
is_member t [] = false
is_member t (m ∷ ms) = (m == t) || is_member t ms

-- `MessageType(json_val)`
abbrev pub enum_value : List Text → Value → Result Value
enum_value members (text t) = if is_member t members then ok (text t) else err value_error
enum_value members _ = err value_error

abbrev pub is_text : Value → Text → Bool
is_text (text t) key = t == key
is_text _ key = false

abbrev pub is_instance : Text → Value → Bool
is_instance name (instance_of c es) = c == name
is_instance name _ = false

-- A BPDU message stands under the type "bpdu".
abbrev pub checked : Value → Value → Entries → Result Entries
checked type message fields =
    if is_text type (codes "bpdu") && not (is_instance (codes "BPDU") message)
    then err value_error
    else ok fields

-- `Packet.__post_init__`; the other class has none.
abbrev pub post_init : Text → Entries → Result Entries
post_init name fields =
    if name == codes "Packet"
    then (bind (get (codes "type") fields)
        λ type. bind (get (codes "message") fields) λ message. checked type message fields)
    else ok fields

-- The end of `deserialize`: an argument that is left is a ValueError, and the class is called.
abbrev pub build : Text → Entries × Entries → Result Value
build name (fields, end) = bind (post_init name fields) λ valid. ok (instance_of name valid)
build name (fields, entry k v rest) = err value_error

-- `except AttributeError`: the class is called with the one value, and lacks its other arguments.
abbrev pub caught : Result Value → Result Value
caught (ok v) = ok v
caught (err attribute_error) = err type_error
caught (err e) = err e

abbrev pub class_value :
    Text → (Entries → Entries → Result (Entries × Entries)) → Value → Result Value
class_value name read (object arguments) = caught (bind (read arguments end) (build name))
class_value name read _ = err type_error

-- The next option is tried whatever the exception is.
abbrev pub or_else : Result Value → Result Value → Result Value
or_else (ok v) later = ok v
or_else (err e) later = later

unfoldable mutual
  -- `deserialize_as_type`
  pub deserialize_as_type : (Value → Text) → FieldType → Value → Result Value
  deserialize_as_type repr str_type v = ok (text (str_value repr v))
  deserialize_as_type repr int_type v = int_value v
  deserialize_as_type repr any_type v = ok v
  deserialize_as_type repr (enum_type members) v = enum_value members v
  deserialize_as_type repr (class_type name fields) v = class_value name (read_fields repr fields) v
  deserialize_as_type repr (one_of options) v = try_options repr options v

  -- The loop of `deserialize` over the fields: the arguments that are left, and the fields made so far
  pub read_fields : (Value → Text) → Fields → Entries → Entries → Result (Entries × Entries)
  read_fields repr no_field arguments made = ok (made, arguments)
  read_fields repr (plain_field name t fields) arguments made = bind (pop name arguments) λ found.
      bind (deserialize_as_type repr t found.0)
        λ v. read_fields repr fields found.1 (add_last made name v)

  -- `nested_func` of `IncrementallyDeserialize`
  pub try_options : (Value → Text) → Options → Value → Result Value
  try_options repr no_option v = err type_error
  try_options repr (option t options) v =
      let later = try_options repr options v in or_else (deserialize_as_type repr t v) later

-- `deserialize` of a class
unfoldable pub deserialize : (Value → Text) → Text → Fields → Entries → Result Value
unfolding deserialize_as_type
deserialize repr name fields arguments = bind (read_fields repr fields arguments end) (build name)
