-- ===== src/Prelude/Eq.antt =====
-- Python's `==` on the values that the programs compare, as a Boolean test with its law.
use mathlib.Core.Path.{◌≡◌, refl}
use mathlib.Core.Logic.{◌↔◌}
use mathlib.Core.Bool.{Bool, true, false, ◌&&◌}
use mathlib.Core.List.{List, [], ◌∷◌}
use mathlib.Core.Option.{Option, none, some}
use Prim.Native.Nat.{ℕ}
use native.Mathlib.Omega.{arith}
use cs.Prelude.Tests.{nat_eq, nat_eq_iff}

pub record Eq (A : Type 0) : Type 0 where
  pub beq : A → A → Bool
  pub beq_iff : (a b : A) → (beq a b ≡ true) ↔ (a ≡ b)

infix 50 ◌==◌
abbrev pub ◌==◌ : {A : Type 0} ⦃e : Eq A⦄ → A → A → Bool
◌==◌ ⦃e⦄ = e.beq

instance abbrev pub ℕ_eq : Eq ℕ
ℕ_eq = record { beq = nat_eq; beq_iff = nat_eq_iff }

abbrev pub bool_eq : Bool → Bool → Bool
bool_eq true b = b
bool_eq false true = false
bool_eq false false = true

pub bool_eq_iff : (a b : Bool) → (bool_eq a b ≡ true) ↔ (a ≡ b)
bool_eq_iff true true = (λ h. refl, λ h. refl)
bool_eq_iff true false = (λ h. cc, λ h. cc)
bool_eq_iff false true = (λ h. cc, λ h. cc)
bool_eq_iff false false = (λ h. refl, λ h. refl)

instance abbrev pub Bool_eq : Eq Bool
Bool_eq = record { beq = bool_eq; beq_iff = bool_eq_iff }

module _ {A : Type 0} ⦃e : Eq A⦄ where
  abbrev pub list_eq : List A → List A → Bool
  list_eq [] [] = true
  list_eq [] (y ∷ ys) = false
  list_eq (x ∷ xs) [] = false
  list_eq (x ∷ xs) (y ∷ ys) = (x == y) && list_eq xs ys

  pub list_eq_iff : (xs ys : List A) → (list_eq xs ys ≡ true) ↔ (xs ≡ ys)
  list_eq_iff [] [] = (λ h. refl, λ h. refl)
  list_eq_iff [] (y ∷ ys) = (λ h. cc, λ h. cc)
  list_eq_iff (x ∷ xs) [] = (λ h. cc, λ h. cc)
  list_eq_iff (x ∷ xs) (y ∷ ys) = (
    λ h. ground (arith, e.beq_iff x y, list_eq_iff xs ys),
    λ h. ground (arith, e.beq_iff x y, list_eq_iff xs ys),
  )

  abbrev pub option_eq : Option A → Option A → Bool
  option_eq none none = true
  option_eq none (some b) = false
  option_eq (some a) none = false
  option_eq (some a) (some b) = a == b

  pub option_eq_iff : (a b : Option A) → (option_eq a b ≡ true) ↔ (a ≡ b)
  option_eq_iff none none = (λ h. refl, λ h. refl)
  option_eq_iff none (some b) = (λ h. cc, λ h. cc)
  option_eq_iff (some a) none = (λ h. cc, λ h. cc)
  option_eq_iff (some a) (some b) =
      (λ h. ground (arith, e.beq_iff a b), λ h. ground (arith, e.beq_iff a b))

  pub eq_self : (a : A) → (a == a) ≡ true
  eq_self a = (e.beq_iff a a).1 refl

instance abbrev pub List_eq : {A : Type 0} ⦃e : Eq A⦄ → Eq (List A)
List_eq = record { beq = list_eq; beq_iff = list_eq_iff }

instance abbrev pub Option_eq : {A : Type 0} ⦃e : Eq A⦄ → Eq (Option A)
Option_eq = record { beq = option_eq; beq_iff = option_eq_iff }
