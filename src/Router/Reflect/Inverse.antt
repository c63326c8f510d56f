-- ===== src/Router/Reflect/Inverse.antt =====
-- `deserialize` gives back what `serialize` was given.
use cs.Prelude.{◌≡◌, refl, ap, sym, ◌∙◌}
use cs.Prelude.Eq.{ℕ_eq, List_eq, eq_self}
use cs.Prelude.Exec.{ok, bind-eq-ok}
use cs.Prelude.Text.{Text}
use cs.Router.Address.{to_text, post_init}
use cs.Router.Address.RoundTrip.{post_init-to_text}
use cs.Router.Value.{
  Value, boolean, number, text, array, object, instance_of, Values, nil, cons, Entries, end, entry,
  serialize, serialize_values, serialize_entries, pop, add_last, append, append-end,
  append-add_last,
}
use cs.Router.Reflect.{
  FieldType, Fields, Mapping, each, deserialize_as_type, read_fields, by_mapping, deserialize,
}
use cs.Router.Reflect.Types.{
  HasType, an_int, a_bool, anything, an_address, a_member, a_list, an_instance, HaveType, no_value,
  values, HasFields, no_more, plain, conditional, HasCase, here, there,
}

-- A value is written, and what is written is read as the value.
abbrev pub Returns : FieldType → Value → Type 0
Returns t v = (j : Value) × (serialize v ≡ ok j) × (deserialize_as_type t j ≡ ok v)

abbrev ReturnAll : FieldType → Values → Type 0
ReturnAll t vs =
    (js : Values) × (serialize_values vs ≡ ok js) × (each (deserialize_as_type t) js ≡ ok vs)

abbrev ReturnFields : Fields → Entries → Entries → Type 0
ReturnFields fields made es =
    (js : Entries) × (serialize_entries es ≡ ok js)
    × (read_fields fields js made ≡ ok (append made es, end))

abbrev ReturnsCase : Mapping → Value → Value → Type 0
ReturnsCase mapping associated v =
    (j : Value) × (serialize v ≡ ok j) × (by_mapping mapping associated j ≡ ok v)

pop-first : (k : Text) (v : Value) (es : Entries) → pop k (entry k v es) ≡ ok (v, es)
unfolding pop
pop-first k v es = rw (eq_self k) refl

mutual
  unfolding serialize deserialize_as_type

  HasType-Returns : (t : FieldType) (v : Value) → HasType t v → Returns t v
  HasType-Returns _ _ (an_int n) = (number n, refl, refl)
  HasType-Returns _ _ (a_bool b) = (boolean b, refl, refl)
  HasType-Returns _ _ (anything v plain_value) = (v, plain_value, refl)
  HasType-Returns _ _ (an_address a h) =
      let (t, written, read) = bind-eq-ok (to_text a) post_init (post_init-to_text a h) in
      (text t, rw written refl, rw read refl)
  HasType-Returns _ _ (a_member ms t member) = (text t, refl, rw member refl)
  HasType-Returns _ _ (a_list t vs h) =
      let (js, written, read) = HaveType-ReturnAll t vs h in
      (array js, rw written refl, rw read refl)
  HasType-Returns _ _ (an_instance name fields es h) =
      let (js, written, read) = HasFields-ReturnFields fields end es h in
      (object js, rw written refl, rw read refl)

  HaveType-ReturnAll : (t : FieldType) (vs : Values) → HaveType t vs → ReturnAll t vs
  HaveType-ReturnAll _ _ (no_value t) = (nil, refl, refl)
  HaveType-ReturnAll _ _ (values t v vs h hs) =
      let (j, written, read) = HasType-Returns t v h in
      let (js, all_written, all_read) = HaveType-ReturnAll t vs hs in
      (cons j js, rw written (rw all_written refl), rw read (rw all_read refl))

  HasFields-ReturnFields :
      (fields : Fields) (made es : Entries) → HasFields fields made es → ReturnFields fields made es
  HasFields-ReturnFields _ _ _ (no_more made) =
      (end, refl, ap (λ (x : Entries). ok (x, end)) (sym (append-end made)))
  HasFields-ReturnFields _ _ _ (plain name t fields made v es h hs) =
      let (j, written, read) = HasType-Returns t v h in
      let (js, all_written, all_read) =
        HasFields-ReturnFields fields (add_last made name v) es hs in
      (
        entry name j js,
        rw written (rw all_written refl),
        rw (pop-first name j js) (
            rw read
              (all_read ∙ ap (λ (x : Entries). ok (x, end)) (append-add_last made name v es))),
      )
  HasFields-ReturnFields _ _ _
        (conditional name relies_on mapping fields made associated v es known h hs) =
      let (j, written, read) = HasCase-ReturnsCase mapping associated v h in
      let (js, all_written, all_read) =
        HasFields-ReturnFields fields (add_last made name v) es hs in
      (
        entry name j js,
        rw written (rw all_written refl),
        rw (pop-first name j js) (
            rw known (
              rw read
                (all_read ∙ ap (λ (x : Entries). ok (x, end)) (append-add_last made name v es)))),
      )

  HasCase-ReturnsCase :
      (mapping : Mapping) (associated v : Value)
      → HasCase mapping associated v
      → ReturnsCase mapping associated v
  HasCase-ReturnsCase _ _ _ (here key t mapping associated v same h) =
      let (j, written, read) = HasType-Returns t v h in (j, written, rw same read)
  HasCase-ReturnsCase _ _ _ (there key t mapping associated v other h) =
      let (j, written, read) = HasCase-ReturnsCase mapping associated v h in
      (j, written, rw other read)

-- An instance whose fields are those of its class, in their order and of their types, is written as an
-- object, from which `deserialize` makes the same instance.
pub deserialize-serialize :
    (name : Text) (fields : Fields) (es : Entries)
    → HasFields fields end es
    → (js : Entries) × (serialize (instance_of name es) ≡ ok (object js))
      × (deserialize name fields js ≡ ok (instance_of name es))
unfolding serialize deserialize
deserialize-serialize name fields es h =
    let (js, written, read) = HasFields-ReturnFields fields end es h in
    (js, rw written refl, rw read refl)
