-- ===== src/Router/Value.antt =====
-- The objects that 3700Router/networks/utils.py goes through: JSON values, addresses and instances of
-- dataclasses. A member of a str enumeration is its text, to which it is equal; there are no floats.
use cs.Prelude.{◌≡◌, refl, ap, Bool, if◌then◌else◌}
use cs.Prelude.Eq.{◌==◌, ℕ_eq, List_eq}
use cs.Prelude.Exec.{Result, ok, err, bind, key_error}
use cs.Prelude.Text.{Text, Signed}
use cs.Router.Address.{IpAddress, to_text}

mutual
  pub data Value : Type 0 where
    null : Value
    boolean : Bool → Value
    number : Signed → Value
    text : Text → Value
    array : Values → Value
    object : Entries → Value
    address : IpAddress → Value
    instance_of : Text → Entries → Value

  pub data Values : Type 0 where
    nil : Values
    cons : Value → Values → Values

  -- The entries of a dict, or the fields of an instance, in order.
  pub data Entries : Type 0 where
    end : Entries
    entry : Text → Value → Entries → Entries

-- `serialize_from_type`, and `serialize` of a dataclass and of an address
unfoldable mutual
  pub serialize : Value → Result Value
  serialize null = ok null
  serialize (boolean b) = ok (boolean b)
  serialize (number n) = ok (number n)
  serialize (text t) = ok (text t)
  serialize (array vs) = bind (serialize_values vs) λ js. ok (array js)
  serialize (object es) = ok (object es)
  serialize (address a) = bind (to_text a) λ t. ok (text t)
  serialize (instance_of name es) = bind (serialize_entries es) λ js. ok (object js)

  pub serialize_values : Values → Result Values
  serialize_values nil = ok nil
  serialize_values (cons v vs) =
      bind (serialize v) λ j. bind (serialize_values vs) λ js. ok (cons j js)

  pub serialize_entries : Entries → Result Entries
  serialize_entries end = ok end
  serialize_entries (entry k v es) =
      bind (serialize v) λ j. bind (serialize_entries es) λ js. ok (entry k j js)

-- `d[k]`
unfoldable pub get : Text → Entries → Result Value
get k end = err key_error
get k (entry j v es) = let rest = get k es in if j == k then ok v else rest

abbrev pub beside : Text → Value → Value × Entries → Value × Entries
beside j v (w, rest) = (w, entry j v rest)

-- `d.pop(k)`: the value, and the dict without it
unfoldable pub pop : Text → Entries → Result (Value × Entries)
pop k end = err key_error
pop k (entry j v es) =
    let rest = pop k es in if j == k then ok (v, es) else bind rest (λ found. ok (beside j v found))

-- A new entry comes last.
unfoldable pub add_last : Entries → Text → Value → Entries
add_last end k v = entry k v end
add_last (entry j w es) k v = entry j w (add_last es k v)

abbrev pub append : Entries → Entries → Entries
append end fs = fs
append (entry k v es) fs = entry k v (append es fs)

pub append-end : (es : Entries) → append es end ≡ es
append-end end = refl
append-end (entry k v es) = ap (λ (x : Entries). entry k v x) (append-end es)

pub append-add_last :
    (es : Entries) (k : Text) (v : Value) (fs : Entries)
    → append (add_last es k v) fs ≡ append es (entry k v fs)
unfolding add_last
append-add_last end k v fs = refl
append-add_last (entry j w es) k v fs =
    ap (λ (x : Entries). entry j w x) (append-add_last es k v fs)
