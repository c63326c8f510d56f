-- ===== src/Router/Dump/Ends.antt =====
-- The aggregation of a group ends, and never raises.
use cs.Prelude.{
  ℕ, zero, suc, ◌+◌, ◌*◌, ◌≤◌, ◌<◌, ◌≡◌, inl, inr, false, Option, none, some, List, [], ◌∷◌, ◌++◌,
  arith, In, keep, length, length-append, Bool-cases, if◌then◌else◌,
}
use cs.Prelude.Eq.{◌==◌, eq_self}
use cs.Prelude.Exec.{Result, ok, err}
use cs.Router.Packet.{UpdateMsg, UpdateMsg_eq}
use cs.Router.Dump.{
  is_match, first_edited, is_last, round, aggregate_loop, aggregate_msg_group, group_fuel,
}
use cs.Router.Dump.Rounds.{unmatched, widened, Turn, turned, merged, round-Turn, length-keep_split}

-- How many messages stand before the first that equals `x`.
before : UpdateMsg → List UpdateMsg → ℕ
before x [] = 0
before x (y ∷ ys) = let rest = before x ys in if y == x then 0 else suc rest

-- How many rounds may pass before the head is the last edited message.
waiting : Option UpdateMsg → List UpdateMsg → ℕ
unfolding before
waiting none xs = length xs
waiting (some x) xs = before x xs

-- The last edited message, if there is one, stands in the list.
Placed : Option UpdateMsg → List UpdateMsg → Type 0
Placed none xs = 0 < length xs
Placed (some x) xs = before x xs < length xs

before-append :
    (x : UpdateMsg) (xs ys : List UpdateMsg)
    → before x xs < length xs
    → before x (xs ++ ys) ≡ before x xs
unfolding before
before-append x [] ys h = absurd (omega arith)
before-append x (z ∷ zs) ys h = ground (arith, before-append x zs ys)

before-append_self : (x : UpdateMsg) (xs : List UpdateMsg) → before x (xs ++ (x ∷ [])) ≤ length xs
unfolding before
before-append_self x [] = ground (arith, eq_self x)
before-append_self x (z ∷ zs) = ground (arith, before-append_self x zs)

Placed-nil : (last : Option UpdateMsg) → ¬ Placed last []
unfolding Placed before
Placed-nil none h = omega arith
Placed-nil (some x) h = omega arith

-- A turn brings the last edited message one place nearer.
turn_nearer :
    (first : UpdateMsg) (rest : List UpdateMsg) (last : Option UpdateMsg)
    → is_last first last ≡ false
    → Placed last (first ∷ rest)
    → (before (first_edited last first) (rest ++ (first ∷ [])) < waiting last (first ∷ rest))
      × (before (first_edited last first) (rest ++ (first ∷ [])) < length (rest ++ (first ∷ [])))
unfolding waiting Placed
turn_nearer first rest none h placed =
    omega (arith, before-append_self first rest, length-append rest (first ∷ []))
turn_nearer first rest (some x) h placed =
    ground (arith, before-append x rest (first ∷ []), length-append rest (first ∷ []))

merge_placed :
    (w : UpdateMsg) (kept : List UpdateMsg)
    → before w (kept ++ (w ∷ [])) < length (kept ++ (w ∷ []))
merge_placed w kept = omega (arith, before-append_self w kept, length-append kept (w ∷ []))

-- A merge makes the list shorter.
merge_shorter :
    (first s : UpdateMsg) (rest : List UpdateMsg)
    → 0 < length (keep (is_match first) rest)
    → length (keep (unmatched first) rest ++ (widened s ∷ [])) < length (first ∷ rest)
merge_shorter first s rest h = omega (
  arith,
  length-keep_split (is_match first) rest,
  length-append (keep (unmatched first) rest) (widened s ∷ []),
)

square_falls : (n m p q : ℕ) → n < m → p < n → n * n + p < m * m + q
square_falls n m p q h k = grind arith

-- The loop from `last` over `xs` ends within the fuel, without a raise, and with `P` of its list.
abbrev Ends : (List UpdateMsg → Type 0) → ℕ → List UpdateMsg → Option UpdateMsg → Type 0
Ends P fuel xs last = (out : List UpdateMsg) × (aggregate_loop fuel xs last ≡ some (ok out)) × P out

module _ (P : List UpdateMsg → Type 0)
    (keeps_turn : (first : UpdateMsg) (rest : List UpdateMsg)
      → P (first ∷ rest)
      → P (rest ++ (first ∷ [])))
    (keeps_merge : (first s : UpdateMsg) (rest : List UpdateMsg)
      → In s (first ∷ keep (is_match first) rest)
      → P (first ∷ rest)
      → P (keep (unmatched first) rest ++ (widened s ∷ []))) where
  next :
      (fuel : ℕ) (first : UpdateMsg) (rest : List UpdateMsg) (last : Option UpdateMsg)
      → ((xs : List UpdateMsg) (x : UpdateMsg)
          → before x xs < length xs
          → P xs
          → length xs * length xs + before x xs < fuel
          → Ends P fuel xs (some x))
      → is_last first last ≡ false
      → Placed last (first ∷ rest)
      → P (first ∷ rest)
      → length (first ∷ rest) * length (first ∷ rest) + waiting last (first ∷ rest) < suc fuel
      → (r : Result (List UpdateMsg × UpdateMsg)) → Turn first rest last r
      → (out : List UpdateMsg) × (◌≡◌ {A = Option (Result (List UpdateMsg))}
          (elim r [
            | err e ↦ some (err e)
            | ok (parsed, last') ↦ aggregate_loop fuel parsed (some last')
          ])
          (some (ok out)))
        × P out
  next fuel first rest last ih h placed p bound _ (turned none_match) =
      let (nearer, placed') = turn_nearer first rest last h placed in
      ih (rest ++ (first ∷ [])) (first_edited last first) placed' (keeps_turn first rest p)
        (rw length-append (grind arith))
  next fuel first rest last ih h placed p bound _ (merged s m some_match) =
      let shorter = merge_shorter first s rest some_match in
      let placed' = merge_placed (widened s) (keep (unmatched first) rest) in
      ih (keep (unmatched first) rest ++ (widened s ∷ [])) (widened s) placed'
        (keeps_merge first s rest m p)
        (omega (arith, square_falls _ _ _ (waiting last (first ∷ rest)) shorter placed'))

  aggregate_loop-Ends :
      (fuel : ℕ) (xs : List UpdateMsg) (last : Option UpdateMsg)
      → Placed last xs
      → P xs
      → length xs * length xs + waiting last xs < fuel
      → Ends P fuel xs last
  unfolding aggregate_loop Placed waiting
  aggregate_loop-Ends zero xs last placed p bound = absurd (omega arith)
  aggregate_loop-Ends (suc fuel) [] last placed p bound = absurd (Placed-nil last placed)
  aggregate_loop-Ends (suc fuel) (first ∷ rest) last placed p bound =
      elim (Bool-cases (is_last first last)) [
        | inl done ↦ (first ∷ rest, rw (done, aggregate_loop), p)
        | inr more ↦
            rw (more, aggregate_loop)
              (next fuel first rest last (λ ys y. aggregate_loop-Ends fuel ys (some y)) more placed
                p bound (round first rest last) (round-Turn first rest last))
      ]

  -- With the fuel that `aggregate_msg_group` has, a group that is not empty is aggregated.
  pub aggregate_msg_group-Ends :
      (group : List UpdateMsg)
      → 0 < length group
      → P group
      → (out : List UpdateMsg) × (aggregate_msg_group group ≡ some (ok out)) × P out
  unfolding aggregate_msg_group waiting Placed
  aggregate_msg_group-Ends group h p =
      aggregate_loop-Ends (group_fuel group) group none h p (omega arith)
