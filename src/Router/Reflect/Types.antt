-- ===== src/Router/Reflect/Types.antt =====
-- The values of the types that classes declare, and the values that JSON has.
use cs.Prelude.{◌≡◌, refl, Bool, true, false, List}
use cs.Prelude.Eq.{ℕ_eq, List_eq}
use cs.Prelude.Exec.{ok}
use cs.Prelude.Text.{Text, Signed}
use cs.Router.Address.{IpAddress, IsAddress}
use cs.Router.Value.{
  Value, null, boolean, number, text, array, object, address, instance_of, Values, nil, cons,
  Entries, end, entry, serialize, serialize_values, get, add_last,
}
use cs.Router.Reflect.{
  FieldType, int_type, bool_type, any_type, address_type, enum_type, list_type, class_type, Fields,
  no_field, plain_field, conditional_field, Mapping, mapped, is_member, is_text,
}

mutual
  -- A value of a type: numbers, truth values, members, addresses, and instances whose fields are all
  -- there, in their order, and have their types. `Any` is what serialization leaves as it is.
  pub data HasType : FieldType → Value → Type 0 where
    an_int : (n : Signed) → HasType int_type (number n)
    a_bool : (b : Bool) → HasType bool_type (boolean b)
    anything : (v : Value) → serialize v ≡ ok v → HasType any_type v
    an_address : (a : IpAddress) → IsAddress a → HasType address_type (address a)
    a_member : (ms : List Text) (t : Text) → is_member t ms ≡ true → HasType (enum_type ms) (text t)
    a_list : (t : FieldType) (vs : Values) → HaveType t vs → HasType (list_type t) (array vs)
    an_instance :
        (name : Text) (fields : Fields) (es : Entries)
        → HasFields fields end es
        → HasType (class_type name fields) (instance_of name es)

  pub data HaveType : FieldType → Values → Type 0 where
    no_value : (t : FieldType) → HaveType t nil
    values :
        (t : FieldType) (v : Value) (vs : Values)
        → HasType t v
        → HaveType t vs
        → HaveType t (cons v vs)

  -- The fields that come after those made so far.
  pub data HasFields : Fields → Entries → Entries → Type 0 where
    no_more : (made : Entries) → HasFields no_field made end
    plain :
        (name : Text) (t : FieldType) (fields : Fields) (made : Entries) (v : Value) (es : Entries)
        → HasType t v
        → HasFields fields (add_last made name v) es
        → HasFields (plain_field name t fields) made (entry name v es)
    conditional :
        (name relies_on : Text) (mapping : Mapping) (fields : Fields) (made : Entries)
        (associated v : Value) (es : Entries)
        → get relies_on made ≡ ok associated
        → HasCase mapping associated v
        → HasFields fields (add_last made name v) es
        → HasFields (conditional_field name relies_on mapping fields) made (entry name v es)

  -- A value of the type that the mapping has for another value.
  pub data HasCase : Mapping → Value → Value → Type 0 where
    here :
        (key : Text) (t : FieldType) (mapping : Mapping) (associated v : Value)
        → is_text associated key ≡ true
        → HasType t v
        → HasCase (mapped key t mapping) associated v
    there :
        (key : Text) (t : FieldType) (mapping : Mapping) (associated v : Value)
        → is_text associated key ≡ false
        → HasCase mapping associated v
        → HasCase (mapped key t mapping) associated v

mutual
  -- A value that `json.loads` can return
  pub data IsJson : Value → Type 0 where
    json_null : IsJson null
    json_boolean : (b : Bool) → IsJson (boolean b)
    json_number : (n : Signed) → IsJson (number n)
    json_text : (t : Text) → IsJson (text t)
    json_array : (vs : Values) → AreJson vs → IsJson (array vs)
    json_object : (es : Entries) → HoldsJson es → IsJson (object es)

  pub data AreJson : Values → Type 0 where
    json_nil : AreJson nil
    json_cons : (v : Value) (vs : Values) → IsJson v → AreJson vs → AreJson (cons v vs)

  pub data HoldsJson : Entries → Type 0 where
    json_end : HoldsJson end
    json_entry :
        (k : Text) (v : Value) (es : Entries) → IsJson v → HoldsJson es → HoldsJson (entry k v es)

mutual
  unfolding serialize

  pub serialize-IsJson : (v : Value) → IsJson v → serialize v ≡ ok v
  serialize-IsJson _ json_null = refl
  serialize-IsJson _ (json_boolean b) = refl
  serialize-IsJson _ (json_number n) = refl
  serialize-IsJson _ (json_text t) = refl
  serialize-IsJson _ (json_array vs h) = rw (serialize_values-AreJson vs h) refl
  serialize-IsJson _ (json_object es h) = refl

  pub serialize_values-AreJson : (vs : Values) → AreJson vs → serialize_values vs ≡ ok vs
  serialize_values-AreJson _ json_nil = refl
  serialize_values-AreJson _ (json_cons v vs h k) =
      rw (serialize-IsJson v h) (rw (serialize_values-AreJson vs k) refl)
