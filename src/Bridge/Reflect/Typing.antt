-- ===== src/Bridge/Reflect/Typing.antt =====
-- What `deserialize` makes has the types that the class declares.
use cs.Prelude.{◌≡◌, refl, sym, ap, subst, ◌∙◌, inl, inr, not, ◌&&◌, List, Bool-cases}
use cs.Prelude.Eq.{◌==◌, ℕ_eq, List_eq}
use cs.Prelude.Exec.{
  Result, ok, err, bind, or_raise, key_error, index_error, value_error, type_error, struct_error,
  attribute_error, runtime_error, not_implemented, no_fuel, Ensures, Ensures-bind, Ensures-then,
  Ensures-ok, Result-cases,
}
use cs.Prelude.Text.{Text, int_of_text}
use cs.Prelude.Strings.{codes}
use cs.Bridge.Value.{
  Value, null, boolean, number, text, array, object, instance_of, Entries, end, entry, get, pop,
  beside, add_last, append, append-end, append-add_last,
}
use cs.Bridge.Reflect.{
  FieldType, str_type, int_type, any_type, enum_type, class_type, one_of, Fields, no_field,
  plain_field, Options, no_option, option, str_value, int_value, is_member, enum_value, is_text,
  is_instance, checked, post_init, build, caught, class_value, or_else, deserialize_as_type,
  read_fields, try_options, deserialize,
}
use cs.Bridge.Reflect.Types.{
  HasType, a_str, an_int, anything, a_member, an_instance, chosen, HasFields, no_more, plain,
  HasOption, here, there, IsJson, json_null, json_boolean, json_number, json_text, json_array,
  json_object, HoldsJson, json_end, json_entry,
}

Ensures-map :
    {A : Type 0} (P Q : A → Type 0) (r : Result A)
    → Ensures P r
    → ((a : A) → P a → Q a)
    → Ensures Q r
Ensures-map P Q (ok a) h f = f a h
Ensures-map P Q (err e) h f = tt

-- What is taken out is JSON, and so is what is left.
abbrev TakesJson : Value × Entries → Type 0
TakesJson found = IsJson found.0 × HoldsJson found.1

pop-TakesJson : (k : Text) (es : Entries) → HoldsJson es → Ensures TakesJson (pop k es)
unfolding pop
pop-TakesJson k _ json_end = tt
pop-TakesJson k _ (json_entry j v es h hs) = elim (Bool-cases (j == k)) [
  | inl same ↦ rw same (h, hs)
  | inr other ↦ rw other (kept (pop k es) (pop-TakesJson k es hs))
]
  where
    kept :
        (r : Result (Value × Entries))
        → Ensures TakesJson r
        → Ensures TakesJson (bind r (λ found. ok (beside j v found)))
    kept (ok (w, rest)) (hw, hr) = (hw, json_entry j v rest h hr)
    kept (err e) _ = tt

-- The fields that are made come after those that were there.
abbrev Makes : Fields → Entries → Entries × Entries → Type 0
Makes fields made r = (es : Entries) × (r.0 ≡ append made es) × HasFields fields made es

-- The check of a class lets the fields pass as they are.
same_fields :
    (name : Text) (es : Entries)
    → Ensures (λ valid. (valid ≡ es) × (post_init name es ≡ ok es)) (post_init name es)
same_fields name es = elim (Result-cases (post_init name es)) [
  | inl (valid, e) ↦ rw e (passed valid e, ap (λ (x : Entries). ok x) (passed valid e))
  | inr (x, e) ↦ rw e tt
]
  where
    passes :
        (type message : Value) (fields : Entries)
        → Ensures (λ valid. valid ≡ fields) (checked type message fields)
    passes type message fields =
        elim (Bool-cases
          (is_text type (codes "bpdu") && not (is_instance (codes "BPDU") message))) [
            | inl bad ↦ rw bad tt
            | inr good ↦ rw good refl
          ]

    all_pass : Ensures (λ valid. valid ≡ es) (post_init name es)
    all_pass = elim (Bool-cases (name == codes "Packet")) [
      | inl packet ↦ rw packet (
          Ensures-bind (λ valid. valid ≡ es) (get (codes "type") es) _
            λ type.
              Ensures-bind (λ valid. valid ≡ es) (get (codes "message") es) _
                λ message. passes type message es)
      | inr other ↦ rw other refl
    ]

    passed : (valid : Entries) → post_init name es ≡ ok valid → valid ≡ es
    passed valid e = Ensures-ok (λ x. x ≡ es) (post_init name es) valid all_pass e

HasType-build :
    (name : Text) (fields : Fields) (r : Entries × Entries)
    → Makes fields end r
    → Ensures (HasType (class_type name fields)) (build name r)
HasType-build name fields (made, end) (es, e, h) =
    Ensures-then (λ valid. (valid ≡ made) × (post_init name made ≡ ok made))
      (HasType (class_type name fields)) (post_init name made)
      (λ valid. ok (instance_of name valid)) (same_fields name made)
      (λ valid (same, passes).
        subst (λ (x : Entries). HasType (class_type name fields) (instance_of name x)) (sym same)
          (an_instance name fields made (subst (λ (x : Entries). HasFields fields end x) (sym e) h)
            passes))
HasType-build name fields (made, entry k v rest) h = tt

HasType-caught :
    (t : FieldType) (r : Result Value) → Ensures (HasType t) r → Ensures (HasType t) (caught r)
HasType-caught t (ok v) h = h
HasType-caught t (err key_error) h = tt
HasType-caught t (err value_error) h = tt
HasType-caught t (err struct_error) h = tt
HasType-caught t (err attribute_error) h = tt
HasType-caught t (err index_error) h = tt
HasType-caught t (err type_error) h = tt
HasType-caught t (err runtime_error) h = tt
HasType-caught t (err not_implemented) h = tt
HasType-caught t (err no_fuel) h = tt

HasType-int_value : (v : Value) → Ensures (HasType int_type) (int_value v)
HasType-int_value null = tt
HasType-int_value (boolean b) = an_int _
HasType-int_value (number n) = an_int n
HasType-int_value (text t) =
    Ensures-bind (HasType int_type) (or_raise value_error (int_of_text t)) (λ n. ok (number n))
      (λ n. an_int n)
HasType-int_value (array vs) = tt
HasType-int_value (object es) = tt
HasType-int_value (instance_of c es) = tt

HasType-enum_value :
    (ms : List Text) (v : Value) → Ensures (HasType (enum_type ms)) (enum_value ms v)
HasType-enum_value ms null = tt
HasType-enum_value ms (boolean b) = tt
HasType-enum_value ms (number n) = tt
HasType-enum_value ms (text t) = elim (Bool-cases (is_member t ms)) [
  | inl member ↦ rw member (a_member ms t member)
  | inr other ↦ rw other tt
]
HasType-enum_value ms (array vs) = tt
HasType-enum_value ms (object es) = tt
HasType-enum_value ms (instance_of c es) = tt

HasType-class_value :
    (name : Text) (fields : Fields) (read : Entries → Entries → Result (Entries × Entries))
    (v : Value)
    → IsJson v
    → ((es : Entries) → HoldsJson es → Ensures (Makes fields end) (read es end))
    → Ensures (HasType (class_type name fields)) (class_value name read v)
HasType-class_value name fields read _ json_null h = tt
HasType-class_value name fields read _ (json_boolean b) h = tt
HasType-class_value name fields read _ (json_number n) h = tt
HasType-class_value name fields read _ (json_text t) h = tt
HasType-class_value name fields read _ (json_array vs k) h = tt
HasType-class_value name fields read _ (json_object es k) h =
    HasType-caught (class_type name fields) (bind (read es end) (build name)) (
      Ensures-then (Makes fields end) (HasType (class_type name fields)) (read es end) (build name)
        (h es k) (λ r m. HasType-build name fields r m))

HasOption-or_else :
    (t : FieldType) (options : Options) (r later : Result Value)
    → Ensures (HasType t) r
    → Ensures (HasOption options) later
    → Ensures (HasOption (option t options)) (or_else r later)
HasOption-or_else t options (ok v) later h k = here t options v h
HasOption-or_else t options (err e) later h k =
    Ensures-map (HasOption options) (HasOption (option t options)) later k
      (λ w o. there t options w o)

-- The next field is made, then those after it.
Makes-plain :
    (name : Text) (t : FieldType) (fields : Fields) (made : Entries) (v : Value)
    (r : Entries × Entries)
    → HasType t v
    → Makes fields (add_last made name v) r
    → Makes (plain_field name t fields) made r
Makes-plain name t fields made v r h (es, e, k) =
    (entry name v es, e ∙ append-add_last made name v es, plain name t fields made v es h k)

mutual
  unfolding deserialize_as_type

  HasType-deserialize :
      (repr : Value → Text) (t : FieldType) (v : Value)
      → IsJson v
      → Ensures (HasType t) (deserialize_as_type repr t v)
  HasType-deserialize repr str_type v j = a_str (str_value repr v)
  HasType-deserialize repr int_type v j = HasType-int_value v
  HasType-deserialize repr any_type v j = anything v j
  HasType-deserialize repr (enum_type ms) v j = HasType-enum_value ms v
  HasType-deserialize repr (class_type name fields) v j =
      HasType-class_value name fields (read_fields repr fields) v j
        (λ es k. Makes-read_fields repr fields es end k)
  HasType-deserialize repr (one_of options) v j =
      Ensures-map (HasOption options) (HasType (one_of options)) (try_options repr options v)
        (HasOption-try_options repr options v j) (λ w h. chosen options w h)

  Makes-read_fields :
      (repr : Value → Text) (fields : Fields) (arguments made : Entries)
      → HoldsJson arguments
      → Ensures (Makes fields made) (read_fields repr fields arguments made)
  Makes-read_fields repr no_field arguments made j = (end, sym (append-end made), no_more made)
  Makes-read_fields repr (plain_field name t fields) arguments made j =
      Ensures-then TakesJson (Makes (plain_field name t fields) made) (pop name arguments) _
        (pop-TakesJson name arguments j)
        λ found (jv, js).
          Ensures-then (HasType t) (Makes (plain_field name t fields) made)
            (deserialize_as_type repr t found.0) _ (HasType-deserialize repr t found.0 jv)
            λ v hv.
              Ensures-map (Makes fields (add_last made name v))
                (Makes (plain_field name t fields) made)
                (read_fields repr fields found.1 (add_last made name v))
                (Makes-read_fields repr fields found.1 (add_last made name v) js)
                (λ r m. Makes-plain name t fields made v r hv m)

  HasOption-try_options :
      (repr : Value → Text) (options : Options) (v : Value)
      → IsJson v
      → Ensures (HasOption options) (try_options repr options v)
  HasOption-try_options repr no_option v j = tt
  HasOption-try_options repr (option t options) v j =
      HasOption-or_else t options (deserialize_as_type repr t v) (try_options repr options v)
        (HasType-deserialize repr t v j) (HasOption-try_options repr options v j)

-- What `deserialize` returns is an instance of the class.
pub deserialize-HasType :
    (repr : Value → Text) (name : Text) (fields : Fields) (arguments : Entries)
    → HoldsJson arguments
    → Ensures (HasType (class_type name fields)) (deserialize repr name fields arguments)
unfolding deserialize
deserialize-HasType repr name fields arguments j =
    Ensures-then (Makes fields end) (HasType (class_type name fields))
      (read_fields repr fields arguments end) (build name)
      (Makes-read_fields repr fields arguments end j) (λ r m. HasType-build name fields r m)
