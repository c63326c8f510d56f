-- ===== src/Bridge/Bpdu/Order.antt =====
-- Where the ports are numbers, the comparison of BPDUs does not raise and is a total order.
use cs.Prelude.{ℕ, ◌≡◌, Bool, true, false, none, some, arith, ltb, if◌then◌else◌}
use cs.Prelude.Eq.{ℕ_eq, List_eq, Option_eq, list_eq_iff}
use cs.Prelude.Exec.{ok}
use cs.Prelude.Sort.{IsOrder}
use cs.Prelude.Text.{
  text_lt, text_lt-irreflexive, text_lt-asymmetric, text_lt-connected, text_lt-negated_trans,
}
use cs.Bridge.Bpdu.{Bpdu, bpdu_lt}

-- The BPDU names a port, as each one does that was on the wire.
abbrev pub HasPort : Bpdu → Type 0
HasPort b = (p : ℕ) × (b.port ≡ some p)

abbrev pub port_number : Bpdu → ℕ
port_number b = elim b.port [ none ↦ 0 | some p ↦ p ]

-- The order of root, cost, port and bridge.
abbrev pub bpdu_before : Bpdu → Bpdu → Bool
bpdu_before a b =
    if text_lt a.root b.root
    then true
    else if text_lt b.root a.root
    then false
    else if ltb a.cost b.cost
    then true
    else if ltb b.cost a.cost
    then false
    else if ltb (port_number a) (port_number b)
    then true
    else if ltb (port_number b) (port_number a)
    then false
    else text_lt a.id b.id

pub bpdu_lt-bpdu_before : (a b : Bpdu) → HasPort a → HasPort b → bpdu_lt a b ≡ ok (bpdu_before a b)
unfolding bpdu_lt
bpdu_lt-bpdu_before a b (p, hp) (q, hq) = ground (
  arith,
  list_eq_iff a.root b.root,
  text_lt-irreflexive a.root,
  text_lt-connected a.root b.root,
  text_lt-asymmetric a.root b.root,
)

-- Roots that differ decide, whatever the ports are.
pub bpdu_lt-roots : (a b : Bpdu) → ¬ (a.root ≡ b.root) → bpdu_lt a b ≡ ok (bpdu_before a b)
unfolding bpdu_lt
bpdu_lt-roots a b h = ground (
  arith,
  list_eq_iff a.root b.root,
  text_lt-connected a.root b.root,
  text_lt-asymmetric a.root b.root,
)

bpdu_before-irreflexive : (a : Bpdu) → bpdu_before a a ≡ false
bpdu_before-irreflexive a = ground (arith, text_lt-irreflexive a.root, text_lt-irreflexive a.id)

bpdu_before-asymmetric : (a b : Bpdu) → bpdu_before a b ≡ true → bpdu_before b a ≡ false
bpdu_before-asymmetric a b h =
    ground (arith, text_lt-asymmetric a.root b.root, text_lt-asymmetric a.id b.id)

bpdu_before-negated_trans :
    (a b c : Bpdu) → bpdu_before b a ≡ false → bpdu_before c b ≡ false → bpdu_before c a ≡ false
bpdu_before-negated_trans a b c h k = ground (
  arith,
  text_lt-negated_trans a.root b.root c.root,
  text_lt-negated_trans a.id b.id c.id,
  text_lt-asymmetric a.root b.root,
  text_lt-asymmetric b.root c.root,
  text_lt-asymmetric a.root c.root,
  text_lt-negated_trans c.root b.root a.root,
  text_lt-negated_trans b.root c.root a.root,
  text_lt-negated_trans b.root a.root c.root,
  text_lt-negated_trans a.root c.root b.root,
  text_lt-negated_trans c.root a.root b.root,
)

pub bpdu_before-IsOrder : IsOrder bpdu_before
bpdu_before-IsOrder = record {
  irreflexive = bpdu_before-irreflexive;
  asymmetric = bpdu_before-asymmetric;
  negated_trans = bpdu_before-negated_trans;
}
