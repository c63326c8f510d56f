-- ===== src/Prelude/Sort.antt =====
-- `sorted` by a strict order given as a test: a stable insertion sort.
use native.Mathlib.Omega.{arith}
use mathlib.Core.Bool.{Bool, true, false}
use mathlib.Core.Path.{◌≡◌, refl}
use mathlib.Core.Logic.{inl, inr}
use mathlib.Core.List.{List, [], ◌∷◌}
use cs.Prelude.Tests.{if◌then◌else◌, Bool-cases}
use cs.Prelude.Lists.{In, All, All-map}
use cs.Prelude.Exec.{Result, ok, bind}

module _ {A : Type 0} where
  -- Put `x` before the first element that is not below it.
  unfoldable pub insert_sorted : (A → A → Bool) → A → List A → List A
  insert_sorted lt x [] = x ∷ []
  insert_sorted lt x (y ∷ ys) = if lt y x then y ∷ insert_sorted lt x ys else x ∷ y ∷ ys

  unfoldable pub sorted : (A → A → Bool) → List A → List A
  unfolding insert_sorted
  sorted lt [] = []
  sorted lt (x ∷ xs) = insert_sorted lt x (sorted lt xs)

  -- A list that is not empty is sorted into one whose head stands in the list.
  pub sorted_head :
      (lt : A → A → Bool) (x : A) (xs : List A)
      → (y : A) × (ys : List A) × (sorted lt (x ∷ xs) ≡ y ∷ ys) × In y (x ∷ xs)
  unfolding sorted
  sorted_head lt x [] = (x, [], refl, inl refl)
  sorted_head lt x (x' ∷ xs) =
      let (y, ys, e, m) = sorted_head lt x' xs in
      elim (Bool-cases (lt y x)) [
        | inl below ↦ (y, insert_sorted lt x ys, rw e (rw below), inr m)
        | inr above ↦ (x, y ∷ ys, rw e (rw above), inl refl)
      ]

-- A total order given as a strict test.
pub record IsOrder {A : Type 0} (lt : A → A → Bool) : Type 0 where
  pub irreflexive : (a : A) → lt a a ≡ false
  pub asymmetric : (a b : A) → lt a b ≡ true → lt b a ≡ false
  pub negated_trans : (a b c : A) → lt b a ≡ false → lt c b ≡ false → lt c a ≡ false

module _ {A : Type 0} where
  -- No element is below the head of the sorted list.
  pub sorted_least :
      (lt : A → A → Bool) (x : A) (xs : List A)
      → IsOrder lt
      → (y : A) × (ys : List A) × (sorted lt (x ∷ xs) ≡ y ∷ ys)
        × In y (x ∷ xs)
        × All (λ z. lt z y ≡ false) (x ∷ xs)
  unfolding sorted
  sorted_least lt x [] order = (x, [], refl, inl refl, (order.irreflexive x, tt))
  sorted_least lt x (x' ∷ xs) order =
      let (y, ys, e, m, least) = sorted_least lt x' xs order in
      elim (Bool-cases (lt y x)) [
        | inl below ↦
            (y, insert_sorted lt x ys, rw e (rw below), inr m, (order.asymmetric y x below, least))
        | inr above ↦ (
          x,
          y ∷ ys,
          rw e (rw above),
          inl refl,
          (
            order.irreflexive x,
            All-map (λ z. lt z y ≡ false) (λ z. lt z x ≡ false) (x' ∷ xs)
                (λ z h. order.negated_trans x y z above h) least,
          ),
        )
      ]

  -- `sorted` by a comparison that may raise.
  unfoldable pub insert_or_raise : (A → A → Result Bool) → A → List A → Result (List A)
  insert_or_raise lt x [] = ok (x ∷ [])
  insert_or_raise lt x (y ∷ ys) =
      let rest = insert_or_raise lt x ys in
      bind (lt y x) λ below. if below then bind rest (λ zs. ok (y ∷ zs)) else ok (x ∷ y ∷ ys)

  unfoldable pub sorted_or_raise : (A → A → Result Bool) → List A → Result (List A)
  unfolding insert_or_raise
  sorted_or_raise lt [] = ok []
  sorted_or_raise lt (x ∷ xs) = bind (sorted_or_raise lt xs) (insert_or_raise lt x)

  insert_or_raise-ok :
      (P : A → Type 0) (try : A → A → Result Bool) (lt : A → A → Bool) (x : A) (xs : List A)
      → ((a b : A) → P a → P b → try a b ≡ ok (lt a b))
      → P x
      → All P xs
      → insert_or_raise try x xs ≡ ok (insert_sorted lt x xs)
  unfolding insert_or_raise insert_sorted
  insert_or_raise-ok P try lt x [] same px pxs = refl
  insert_or_raise-ok P try lt x (y ∷ ys) same px (py, pys) =
      ground (arith, same y x py px, insert_or_raise-ok P try lt x ys same px pys)

  insert_sorted-All :
      (P : A → Type 0) (lt : A → A → Bool) (x : A) (xs : List A)
      → P x
      → All P xs
      → All P (insert_sorted lt x xs)
  unfolding insert_sorted
  insert_sorted-All P lt x [] px h = (px, tt)
  insert_sorted-All P lt x (y ∷ ys) px (py, pys) = elim (Bool-cases (lt y x)) [
    | inl below ↦ rw below (py, insert_sorted-All P lt x ys px pys)
    | inr above ↦ rw above (px, (py, pys))
  ]

  pub sorted-All :
      (P : A → Type 0) (lt : A → A → Bool) (xs : List A) → All P xs → All P (sorted lt xs)
  unfolding sorted
  sorted-All P lt [] h = tt
  sorted-All P lt (x ∷ xs) (px, pxs) =
      insert_sorted-All P lt x (sorted lt xs) px (sorted-All P lt xs pxs)

  -- Where no comparison of elements raises, sorting does not raise.
  pub sorted_or_raise-ok :
      (P : A → Type 0) (try : A → A → Result Bool) (lt : A → A → Bool) (xs : List A)
      → ((a b : A) → P a → P b → try a b ≡ ok (lt a b))
      → All P xs
      → sorted_or_raise try xs ≡ ok (sorted lt xs)
  unfolding sorted_or_raise sorted
  sorted_or_raise-ok P try lt [] same h = refl
  sorted_or_raise-ok P try lt (x ∷ xs) same (px, pxs) =
      rw (sorted_or_raise-ok P try lt xs same pxs)
        (insert_or_raise-ok P try lt x (sorted lt xs) same px (sorted-All P lt xs pxs))
