-- ===== src/Router/Dump/Rounds.antt =====
-- A round of the aggregation never raises, and what it does to the list.
use native.Mathlib.Nat.{div-mul-le_self}
use cs.Prelude.{
  ℕ, ◌+◌, ◌*◌, ◌/◌, ◌^◌, ◌<◌, ◌≡◌, refl, ap, ◌∙◌, inl, inr, Bool, true, false, not, Option, List,
  [], ◌∷◌, ◌++◌, arith, All, In, keep, keep-passes, length, lt→ltb, Bool-cases,
}
use cs.Prelude.Eq.{◌==◌, eq_self}
use cs.Prelude.Exec.{Result, ok, bind, Result-cases}
use cs.Prelude.Sort.{sorted_head}
use cs.Router.Address.{prefix_shift_amount}
use cs.Router.Address.RoundTrip.{from_binary_lem}
use cs.Router.Address.Mask.{cleared}
use cs.Router.Packet.{UpdateMsg, UpdateMsg_eq, update_beq_iff}
use cs.Router.Dump.{
  update_lt, is_match, find_matching_messages, full_mask, aggregate_smallest, calculate_aggregation,
  remove, remove_all, first_edited, round_with, round,
}

-- The shift of the shorter prefix.
abbrev pub wider_shift : UpdateMsg → ℕ
wider_shift u = prefix_shift_amount u.netmask + 1

-- The message with its prefix shorter by one.
abbrev pub widened : UpdateMsg → UpdateMsg
widened u = record u { netmask = cleared (wider_shift u) }

aggregate_smallest_lem :
    (u : UpdateMsg) (us : List UpdateMsg) → aggregate_smallest (u ∷ us) ≡ ok (widened u)
aggregate_smallest_lem u us =
    rw (from_binary_lem (full_mask / 2 ^ wider_shift u * 2 ^ wider_shift u)) (
      rw (
        lt→ltb (full_mask / 2 ^ wider_shift u * 2 ^ wider_shift u) (2 ^ 32)
          (omega (arith, div-mul-le_self full_mask (2 ^ wider_shift u)))))

-- The aggregation of some messages is one of them with its prefix shorter by one.
pub calculate_aggregation_lem :
    (u : UpdateMsg) (us : List UpdateMsg)
    → (s : UpdateMsg) × In s (u ∷ us) × (calculate_aggregation (u ∷ us) ≡ ok (widened s))
unfolding calculate_aggregation
calculate_aggregation_lem u us =
    let (s, ss, e, m) = sorted_head update_lt u us in (s, m, rw e (aggregate_smallest_lem s ss))

abbrev pub unmatched : UpdateMsg → UpdateMsg → Bool
unmatched reference u = not (is_match reference u)

remove_all-cons :
    (reference x : UpdateMsg) (cs xs : List UpdateMsg)
    → is_match reference x ≡ false
    → All (λ c. is_match reference c ≡ true) cs
    → remove_all cs (x ∷ xs) ≡ bind (remove_all cs xs) (λ ys. ok (x ∷ ys))
unfolding remove_all
remove_all-cons reference x [] xs h all = refl
remove_all-cons reference x (c ∷ cs) xs h (hc, all) = elim (Bool-cases (x == c)) [
  | inl same ↦
      let equal = (update_beq_iff x c).0 same in
      let clash : ⊥ = cc (ap (is_match reference) equal) in absurd clash
  | inr other ↦ rw other (elim (Result-cases (remove c xs)) [
    | inl (ys, e) ↦ rw e (remove_all-cons reference x cs ys h all)
    | inr (e, failed) ↦ rw failed
  ])
]

remove_all_self :
    (x : UpdateMsg) (cs xs : List UpdateMsg) → remove_all (x ∷ cs) (x ∷ xs) ≡ remove_all cs xs
unfolding remove_all
remove_all_self x cs xs = rw (eq_self x)

-- Removing the matches, each at its first place, leaves the messages that do not match.
remove_all-keep :
    (reference : UpdateMsg) (xs : List UpdateMsg)
    → remove_all (keep (is_match reference) xs) xs ≡ ok (keep (unmatched reference) xs)
remove_all-keep reference [] = unfold remove_all in refl
remove_all-keep reference (x ∷ xs) = elim (Bool-cases (is_match reference x)) [
  | inl matched ↦
      rw matched
        (remove_all_self x (keep (is_match reference) xs) xs ∙ remove_all-keep reference xs)
  | inr missed ↦ rw missed (
      remove_all-cons reference x (keep (is_match reference) xs) xs missed
        (keep-passes (is_match reference) xs)
      ∙ ap (λ (r : Result (List UpdateMsg)). bind r (λ ys. ok (x ∷ ys)))
          (remove_all-keep reference xs))
]

pub length-keep_split :
    (p : UpdateMsg → Bool) (xs : List UpdateMsg)
    → length (keep p xs) + length (keep (λ u. not (p u)) xs) ≡ length xs
length-keep_split p [] = omega arith
length-keep_split p (x ∷ xs) = elim (Bool-cases (p x)) [
  | inl passed ↦ rw passed (omega (arith, length-keep_split p xs))
  | inr failed ↦ rw failed (omega (arith, length-keep_split p xs))
]

-- What a round returns: the list turned by one where nothing matches, and otherwise the messages
-- that do not match with the aggregation of the others behind them.
pub data Turn (first : UpdateMsg) (rest : List UpdateMsg) (last : Option UpdateMsg)
    : Result (List UpdateMsg × UpdateMsg) → Type 0 where
  turned :
      keep (is_match first) rest ≡ []
      → Turn first rest last (ok (rest ++ (first ∷ []), first_edited last first))
  merged :
      (s : UpdateMsg)
      → In s (first ∷ keep (is_match first) rest)
      → 0 < length (keep (is_match first) rest)
      → Turn first rest last (ok (keep (unmatched first) rest ++ (widened s ∷ []), widened s))

pub round-Turn :
    (first : UpdateMsg) (rest : List UpdateMsg) (last : Option UpdateMsg)
    → Turn first rest last (round first rest last)
unfolding round find_matching_messages
round-Turn first rest last = go (keep (is_match first) rest) refl
  where
    go :
        (cs : List UpdateMsg)
        → keep (is_match first) rest ≡ cs
        → Turn first rest last (round_with (keep (is_match first) rest) first rest last)
    go [] e = rw e (turned e)
    go (c ∷ cs) e =
        let (s, m, agg) = calculate_aggregation_lem first (c ∷ cs) in
        let removed : remove_all (c ∷ cs) rest ≡ ok (keep (unmatched first) rest) =
          rw e at (remove_all-keep first rest) in
        rw e (rw removed (rw agg (merged s (rw e m) (rw e (omega arith)))))
