-- ===== src/Bridge/Reflect/Types.antt =====
-- The values of the types that the classes declare, and the values that JSON has.
use cs.Prelude.{◌≡◌, Bool, true, List}
use cs.Prelude.Exec.{ok}
use cs.Prelude.Text.{Text, Signed}
use cs.Bridge.Value.{
  Value, null, boolean, number, text, array, object, instance_of, Values, nil, cons, Entries, end,
  entry, add_last,
}
use cs.Bridge.Reflect.{
  FieldType, str_type, int_type, any_type, enum_type, class_type, one_of, Fields, no_field,
  plain_field, Options, option, is_member, post_init,
}

mutual
  -- A value of a type; an instance has all fields, in their order and of their types, and has passed
  -- the check of its class.
  pub data HasType : FieldType → Value → Type 0 where
    a_str : (t : Text) → HasType str_type (text t)
    an_int : (n : Signed) → HasType int_type (number n)
    anything : (v : Value) → IsJson v → HasType any_type v
    a_member : (ms : List Text) (t : Text) → is_member t ms ≡ true → HasType (enum_type ms) (text t)
    an_instance :
        (name : Text) (fields : Fields) (es : Entries)
        → HasFields fields end es
        → post_init name es ≡ ok es
        → HasType (class_type name fields) (instance_of name es)
    chosen : (options : Options) (v : Value) → HasOption options v → HasType (one_of options) v

  -- The fields that come after those made so far.
  pub data HasFields : Fields → Entries → Entries → Type 0 where
    no_more : (made : Entries) → HasFields no_field made end
    plain :
        (name : Text) (t : FieldType) (fields : Fields) (made : Entries) (v : Value) (es : Entries)
        → HasType t v
        → HasFields fields (add_last made name v) es
        → HasFields (plain_field name t fields) made (entry name v es)

  -- A value of one of the types.
  pub data HasOption : Options → Value → Type 0 where
    here :
        (t : FieldType) (options : Options) (v : Value)
        → HasType t v
        → HasOption (option t options) v
    there :
        (t : FieldType) (options : Options) (v : Value)
        → HasOption options v
        → HasOption (option t options) v

  -- A value that `json.loads` can return
  pub data IsJson : Value → Type 0 where
    json_null : IsJson null
    json_boolean : (b : Bool) → IsJson (boolean b)
    json_number : (n : Signed) → IsJson (number n)
    json_text : (t : Text) → IsJson (text t)
    json_array : (vs : Values) → AreJson vs → IsJson (array vs)
    json_object : (es : Entries) → HoldsJson es → IsJson (object es)

  pub data AreJson : Values → Type 0 where
    json_nil : AreJson nil
    json_cons : (v : Value) (vs : Values) → IsJson v → AreJson vs → AreJson (cons v vs)

  pub data HoldsJson : Entries → Type 0 where
    json_end : HoldsJson end
    json_entry :
        (k : Text) (v : Value) (es : Entries) → IsJson v → HoldsJson es → HoldsJson (entry k v es)
