-- ===== src/Router/Reflect/Typing.antt =====
-- What `deserialize` makes has the types that the class declares.
use cs.Prelude.{◌≡◌, refl, sym, subst, ◌∙◌, inl, inr, List, [], ◌∷◌, Bool-cases}
use cs.Prelude.Eq.{◌==◌, ℕ_eq, List_eq}
use cs.Prelude.Exec.{
  Result, ok, err, bind, or_raise, value_error, Ensures, Ensures-bind, Ensures-then, Ensures-ok,
  Result-cases, key_error, index_error, type_error, struct_error, attribute_error, runtime_error,
  not_implemented, no_fuel,
}
use cs.Prelude.Text.{Text, int_of_text}
use cs.Router.Address.{post_init}
use cs.Router.Address.RoundTrip.{post_init-IsAddress}
use cs.Router.Value.{
  Value, null, boolean, number, text, array, object, address, instance_of, Values, cons, Entries,
  end, entry, get, pop, beside, add_last, append, append-end, append-add_last,
}
use cs.Router.Reflect.{
  FieldType, int_type, bool_type, any_type, address_type, enum_type, list_type, class_type, Fields,
  no_field, plain_field, conditional_field, Mapping, unmapped, mapped, int_value, is_member,
  enum_value, address_value, letters, keys, elements_of, each, list_value, build, caught,
  class_value, is_text, deserialize_as_type, read_fields, by_mapping, deserialize,
}
use cs.Router.Reflect.Types.{
  HasType, an_int, a_bool, anything, an_address, a_member, a_list, an_instance, HaveType, no_value,
  values, HasFields, no_more, plain, conditional, HasCase, here, there, IsJson, json_null,
  json_boolean, json_number, json_text, json_array, json_object, AreJson, json_nil, json_cons,
  HoldsJson, json_end, json_entry, serialize-IsJson,
}

letters-AreJson : (t : Text) → AreJson (letters t)
letters-AreJson [] = json_nil
letters-AreJson (c ∷ t) =
    json_cons (text (c ∷ [])) (letters t) (json_text (c ∷ [])) (letters-AreJson t)

keys-AreJson : (es : Entries) → AreJson (keys es)
keys-AreJson end = json_nil
keys-AreJson (entry k v es) = json_cons (text k) (keys es) (json_text k) (keys-AreJson es)

elements-AreJson : (v : Value) → IsJson v → Ensures AreJson (elements_of v)
elements-AreJson _ json_null = tt
elements-AreJson _ (json_boolean b) = tt
elements-AreJson _ (json_number n) = tt
elements-AreJson _ (json_text t) = letters-AreJson t
elements-AreJson _ (json_array vs h) = h
elements-AreJson _ (json_object es h) = keys-AreJson es

-- What is taken out is JSON, and so is what is left.
abbrev TakesJson : Value × Entries → Type 0
TakesJson found = IsJson found.0 × HoldsJson found.1

pop-TakesJson : (k : Text) (es : Entries) → HoldsJson es → Ensures TakesJson (pop k es)
unfolding pop
pop-TakesJson k _ json_end = tt
pop-TakesJson k _ (json_entry j v es h hs) = elim (Bool-cases (j == k)) [
  | inl same ↦ rw same (h, hs)
  | inr other ↦ rw other (kept (pop k es) (pop-TakesJson k es hs))
]
  where
    kept :
        (r : Result (Value × Entries))
        → Ensures TakesJson r
        → Ensures TakesJson (bind r (λ found. ok (beside j v found)))
    kept (ok (w, rest)) (hw, hr) = (hw, json_entry j v rest h hr)
    kept (err e) _ = tt

Ensures-map :
    {A : Type 0} (P Q : A → Type 0) (r : Result A)
    → Ensures P r
    → ((a : A) → P a → Q a)
    → Ensures Q r
Ensures-map P Q (ok a) h f = f a h
Ensures-map P Q (err e) h f = tt

self_ensured : {A : Type 0} (r : Result A) → Ensures (λ a. r ≡ ok a) r
self_ensured (ok a) = refl
self_ensured (err e) = tt

HaveType-each :
    (t : FieldType) (f : Value → Result Value) (vs : Values)
    → ((v : Value) → IsJson v → Ensures (HasType t) (f v))
    → AreJson vs
    → Ensures (HaveType t) (each f vs)
HaveType-each t f _ h json_nil = no_value t
HaveType-each t f _ h (json_cons v vs jv js) =
    Ensures-then (HasType t) (HaveType t) (f v) (λ w. bind (each f vs) (λ ws. ok (cons w ws)))
      (h v jv)
      (λ w hw.
        Ensures-then (HaveType t) (HaveType t) (each f vs) (λ ws. ok (cons w ws))
          (HaveType-each t f vs h js) (λ ws hws. values t w ws hw hws))

HasType-list_value :
    (t : FieldType) (f : Value → Result Value) (v : Value)
    → ((w : Value) → IsJson w → Ensures (HasType t) (f w))
    → IsJson v
    → Ensures (HasType (list_type t)) (list_value f v)
HasType-list_value t f v h j =
    Ensures-then AreJson (HasType (list_type t)) (elements_of v)
      (λ vs. bind (each f vs) (λ ws. ok (array ws))) (elements-AreJson v j)
      (λ vs js.
        Ensures-then (HaveType t) (HasType (list_type t)) (each f vs) (λ ws. ok (array ws))
          (HaveType-each t f vs h js) (λ ws hs. a_list t ws hs))

-- The fields that are made come after those that were there.
abbrev pub Makes : Fields → Entries → Entries × Entries → Type 0
Makes fields made r = (es : Entries) × (r.0 ≡ append made es) × HasFields fields made es

HasType-build :
    (name : Text) (fields : Fields) (r : Entries × Entries)
    → Makes fields end r
    → Ensures (HasType (class_type name fields)) (build name r)
HasType-build name fields (made, end) (es, e, h) =
    subst (λ (x : Entries). HasType (class_type name fields) (instance_of name x)) (sym e)
      (an_instance name fields es h)
HasType-build name fields (made, entry k v rest) h = tt

HasType-caught :
    (t : FieldType) (r : Result Value) → Ensures (HasType t) r → Ensures (HasType t) (caught r)
HasType-caught t (ok v) h = h
HasType-caught t (err key_error) h = tt
HasType-caught t (err value_error) h = tt
HasType-caught t (err struct_error) h = tt
HasType-caught t (err attribute_error) h = tt
HasType-caught t (err index_error) h = tt
HasType-caught t (err type_error) h = tt
HasType-caught t (err runtime_error) h = tt
HasType-caught t (err not_implemented) h = tt
HasType-caught t (err no_fuel) h = tt

HasType-int_value : (v : Value) → Ensures (HasType int_type) (int_value v)
HasType-int_value null = tt
HasType-int_value (boolean b) = an_int _
HasType-int_value (number n) = an_int n
HasType-int_value (text t) =
    Ensures-bind (HasType int_type) (or_raise value_error (int_of_text t)) (λ n. ok (number n))
      (λ n. an_int n)
HasType-int_value (array vs) = tt
HasType-int_value (object es) = tt
HasType-int_value (address a) = tt
HasType-int_value (instance_of c es) = tt

HasType-enum_value :
    (ms : List Text) (v : Value) → Ensures (HasType (enum_type ms)) (enum_value ms v)
HasType-enum_value ms null = tt
HasType-enum_value ms (boolean b) = tt
HasType-enum_value ms (number n) = tt
HasType-enum_value ms (text t) = elim (Bool-cases (is_member t ms)) [
  | inl member ↦ rw member (a_member ms t member)
  | inr other ↦ rw other tt
]
HasType-enum_value ms (array vs) = tt
HasType-enum_value ms (object es) = tt
HasType-enum_value ms (address a) = tt
HasType-enum_value ms (instance_of c es) = tt

HasType-address_value : (v : Value) → Ensures (HasType address_type) (address_value v)
HasType-address_value null = tt
HasType-address_value (boolean b) = tt
HasType-address_value (number n) = tt
HasType-address_value (text t) = elim (Result-cases (post_init t)) [
  | inl (a, e) ↦ rw e (an_address a (post_init-IsAddress t a e))
  | inr (x, e) ↦ rw e tt
]
HasType-address_value (array vs) = tt
HasType-address_value (object es) = tt
HasType-address_value (address a) = tt
HasType-address_value (instance_of c es) = tt

HasType-class_value :
    (name : Text) (fields : Fields) (read : Entries → Entries → Result (Entries × Entries))
    (v : Value)
    → IsJson v
    → ((es : Entries) → HoldsJson es → Ensures (Makes fields end) (read es end))
    → Ensures (HasType (class_type name fields)) (class_value name read v)
HasType-class_value name fields read _ json_null h = tt
HasType-class_value name fields read _ (json_boolean b) h = tt
HasType-class_value name fields read _ (json_number n) h = tt
HasType-class_value name fields read _ (json_text t) h = tt
HasType-class_value name fields read _ (json_array vs k) h = tt
HasType-class_value name fields read _ (json_object es k) h =
    HasType-caught (class_type name fields) (bind (read es end) (build name)) (
      Ensures-then (Makes fields end) (HasType (class_type name fields)) (read es end) (build name)
        (h es k) (λ r m. HasType-build name fields r m))

-- The next field is made, then those after it.
Makes-plain :
    (name : Text) (t : FieldType) (fields : Fields) (made : Entries) (v : Value)
    (r : Entries × Entries)
    → HasType t v
    → Makes fields (add_last made name v) r
    → Makes (plain_field name t fields) made r
Makes-plain name t fields made v r h (es, e, k) =
    (entry name v es, e ∙ append-add_last made name v es, plain name t fields made v es h k)

Makes-conditional :
    (name relies_on : Text) (mapping : Mapping) (fields : Fields) (made : Entries)
    (associated v : Value) (r : Entries × Entries)
    → get relies_on made ≡ ok associated
    → HasCase mapping associated v
    → Makes fields (add_last made name v) r
    → Makes (conditional_field name relies_on mapping fields) made r
Makes-conditional name relies_on mapping fields made associated v r g h (es, e, k) = (
  entry name v es,
  e ∙ append-add_last made name v es,
  conditional name relies_on mapping fields made associated v es g h k,
)

mutual
  unfolding deserialize_as_type

  HasType-deserialize :
      (t : FieldType) (v : Value) → IsJson v → Ensures (HasType t) (deserialize_as_type t v)
  HasType-deserialize int_type v j = HasType-int_value v
  HasType-deserialize bool_type v j = a_bool _
  HasType-deserialize any_type v j = anything v (serialize-IsJson v j)
  HasType-deserialize address_type v j = HasType-address_value v
  HasType-deserialize (enum_type ms) v j = HasType-enum_value ms v
  HasType-deserialize (list_type t) v j =
      HasType-list_value t (deserialize_as_type t) v (λ w k. HasType-deserialize t w k) j
  HasType-deserialize (class_type name fields) v j =
      HasType-class_value name fields (read_fields fields) v j
        (λ es k. Makes-read_fields fields es end k)

  Makes-read_fields :
      (fields : Fields) (arguments made : Entries)
      → HoldsJson arguments
      → Ensures (Makes fields made) (read_fields fields arguments made)
  Makes-read_fields no_field arguments made j = (end, sym (append-end made), no_more made)
  Makes-read_fields (plain_field name t fields) arguments made j =
      Ensures-then TakesJson (Makes (plain_field name t fields) made) (pop name arguments) _
        (pop-TakesJson name arguments j)
        λ found (jv, js).
          Ensures-then (HasType t) (Makes (plain_field name t fields) made)
            (deserialize_as_type t found.0) _ (HasType-deserialize t found.0 jv)
            λ v hv.
              Ensures-map (Makes fields (add_last made name v))
                (Makes (plain_field name t fields) made)
                (read_fields fields found.1 (add_last made name v))
                (Makes-read_fields fields found.1 (add_last made name v) js)
                (λ r m. Makes-plain name t fields made v r hv m)
  Makes-read_fields (conditional_field name relies_on mapping fields) arguments made j =
      let Goal = Makes (conditional_field name relies_on mapping fields) made in
      Ensures-then TakesJson Goal (pop name arguments) _ (pop-TakesJson name arguments j)
        λ found (jv, js).
          Ensures-then (λ a. get relies_on made ≡ ok a) Goal (get relies_on made) _
            (self_ensured (get relies_on made))
            λ a g.
              Ensures-then (HasCase mapping a) Goal (by_mapping mapping a found.0) _
                (HasCase-by_mapping mapping a found.0 jv)
                λ v hv.
                  Ensures-map (Makes fields (add_last made name v)) Goal
                    (read_fields fields found.1 (add_last made name v))
                    (Makes-read_fields fields found.1 (add_last made name v) js)
                    (λ r m. Makes-conditional name relies_on mapping fields made a v r g hv m)

  HasCase-by_mapping :
      (mapping : Mapping) (associated v : Value)
      → IsJson v
      → Ensures (HasCase mapping associated) (by_mapping mapping associated v)
  HasCase-by_mapping unmapped associated v j = tt
  HasCase-by_mapping (mapped key t mapping) associated v j =
      elim (Bool-cases (is_text associated key)) [
        | inl same ↦ rw same (
            Ensures-map (HasType t) (HasCase (mapped key t mapping) associated)
              (deserialize_as_type t v) (HasType-deserialize t v j)
              (λ w h. here key t mapping associated w same h))
        | inr other ↦ rw other (
            Ensures-map (HasCase mapping associated) (HasCase (mapped key t mapping) associated)
              (by_mapping mapping associated v) (HasCase-by_mapping mapping associated v j)
              (λ w h. there key t mapping associated w other h))
      ]

-- Whatever the JSON is, an instance that `deserialize` returns has all the fields of its class and no
-- other, each of its declared type; a conditional field has the type for the value of the field it
-- relies on.
pub deserialize-HasType :
    (name : Text) (fields : Fields) (arguments : Entries) (v : Value)
    → HoldsJson arguments
    → deserialize name fields arguments ≡ ok v
    → HasType (class_type name fields) v
unfolding deserialize
deserialize-HasType name fields arguments v j e =
    Ensures-ok (HasType (class_type name fields))
      (bind (read_fields fields arguments end) (build name)) v
      (Ensures-then (Makes fields end) (HasType (class_type name fields))
        (read_fields fields arguments end) (build name) (Makes-read_fields fields arguments end j)
        (λ r m. HasType-build name fields r m))
      e
