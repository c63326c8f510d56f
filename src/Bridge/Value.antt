-- ===== src/Bridge/Value.antt =====
-- The objects that 3700Bridge/networks/utils.py goes through: JSON values and instances of dataclasses.
-- A member of a str enumeration is its text, to which it is equal; there are no floats.
use cs.Prelude.{◌≡◌, refl, ap, Bool, if◌then◌else◌}
use cs.Prelude.Eq.{◌==◌, ℕ_eq, List_eq}
use cs.Prelude.Exec.{Result, ok, err, bind, key_error}
use cs.Prelude.Text.{Text, Signed}

mutual
  pub data Value : Type 0 where
    null : Value
    boolean : Bool → Value
    number : Signed → Value
    text : Text → Value
    array : Values → Value
    object : Entries → Value
    instance_of : Text → Entries → Value

  pub data Values : Type 0 where
    nil : Values
    cons : Value → Values → Values

  pub data Entries : Type 0 where
    end : Entries
    entry : Text → Value → Entries → Entries

-- `serialize_from_type`, and `serialize` of a dataclass; a list stays as it is
unfoldable mutual
  pub serialize : Value → Value
  serialize null = null
  serialize (boolean b) = boolean b
  serialize (number n) = number n
  serialize (text t) = text t
  serialize (array vs) = array vs
  serialize (object es) = object es
  serialize (instance_of name es) = object (serialize_entries es)

  pub serialize_entries : Entries → Entries
  serialize_entries end = end
  serialize_entries (entry k v es) = entry k (serialize v) (serialize_entries es)

-- `d[k]`
unfoldable pub get : Text → Entries → Result Value
get k end = err key_error
get k (entry j v es) = let rest = get k es in if j == k then ok v else rest

abbrev pub beside : Text → Value → Value × Entries → Value × Entries
beside j v (w, rest) = (w, entry j v rest)

-- `d.pop(k)`: the value, and the dict without it
unfoldable pub pop : Text → Entries → Result (Value × Entries)
pop k end = err key_error
pop k (entry j v es) =
    let rest = pop k es in if j == k then ok (v, es) else bind rest (λ found. ok (beside j v found))

-- A new entry comes last.
unfoldable pub add_last : Entries → Text → Value → Entries
add_last end k v = entry k v end
add_last (entry j w es) k v = entry j w (add_last es k v)

abbrev pub append : Entries → Entries → Entries
append end fs = fs
append (entry k v es) fs = entry k v (append es fs)

pub append-end : (es : Entries) → append es end ≡ es
append-end end = refl
append-end (entry k v es) = ap (λ (x : Entries). entry k v x) (append-end es)

pub append-add_last :
    (es : Entries) (k : Text) (v : Value) (fs : Entries)
    → append (add_last es k v) fs ≡ append es (entry k v fs)
unfolding add_last
append-add_last end k v fs = refl
append-add_last (entry j w es) k v fs =
    ap (λ (x : Entries). entry j w x) (append-add_last es k v fs)
