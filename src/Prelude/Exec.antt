-- ===== src/Prelude/Exec.antt =====
-- A method that mutates an object and may raise: what was written before a raise stays written,
-- so the state comes back beside the error too.
use mathlib.Core.Option.{Option, none, some}
use mathlib.Core.Path.{◌≡◌, refl, ap, subst}
use mathlib.Core.Logic.{◌⊎◌, inl, inr}

-- The classes of Python exceptions that the modelled code can raise.
pub data Error : Type 0 where
  key_error value_error struct_error index_error attribute_error type_error runtime_error : Error
  not_implemented : Error
  -- No exception: a loop that was given too little fuel.
  no_fuel : Error

pub data Result {ℓ} (A : Type ℓ) : Type ℓ where
  ok : A → Result A
  err : Error → Result A

-- Pure code that may raise: `bind r f` goes on with the value.
abbrev pub bind {ℓ κ} : {A : Type ℓ} {B : Type κ} → Result A → (A → Result B) → Result B
bind (ok a) f = f a
bind (err e) f = err e

abbrev pub or_raise {ℓ} : {A : Type ℓ} → Error → Option A → Result A
or_raise e none = err e
or_raise e (some a) = ok a

abbrev pub Exec : Type 0 → Type 0 → Type 0
Exec S A = S → Result A × S

module _ {S A : Type 0} where
  abbrev pub pure : A → Exec S A
  pure a s = (ok a, s)

  abbrev pub lift : Result A → Exec S A
  lift r s = (r, s)

  abbrev pub gets : (S → A) → Exec S A
  gets f s = (ok (f s), s)

abbrev pub modify : {S : Type 0} → (S → S) → Exec S Unit
modify f s = (ok tt, f s)

infixl 5 ◌>>=◌ ◌>>◌
abbrev pub ◌>>=◌ : {S A B : Type 0} → Exec S A → (A → Exec S B) → Exec S B
◌>>=◌ m f s = let (r, s') = m s in elim r [ ok a ↦ f a s' | err e ↦ (err e, s') ]

abbrev pub ◌>>◌ : {S A B : Type 0} → Exec S A → Exec S B → Exec S B
m >> k = m >>= λ _. k

-- The state that a call leaves behind, and what it returned.
abbrev pub state_of : {S A : Type 0} → Result A × S → S
state_of (r, s) = s

abbrev pub result_of : {S A : Type 0} → Result A × S → Result A
result_of (r, s) = r

-- What holds of the value, if there is one.
abbrev pub Ensures : {A : Type 0} → (A → Type 0) → Result A → Type 0
Ensures P (ok a) = P a
Ensures P (err e) = Unit

pub Ensures-bind :
    {A B : Type 0} (P : B → Type 0) (r : Result A) (f : A → Result B)
    → ((a : A) → Ensures P (f a))
    → Ensures P (bind r f)
Ensures-bind P (ok a) f h = h a
Ensures-bind P (err e) f h = tt

-- What holds of the first value may be used for the second.
pub Ensures-then :
    {A B : Type 0} (P : A → Type 0) (Q : B → Type 0) (r : Result A) (f : A → Result B)
    → Ensures P r
    → ((a : A) → P a → Ensures Q (f a))
    → Ensures Q (bind r f)
Ensures-then P Q (ok a) f h k = k a h
Ensures-then P Q (err e) f h k = tt

pub Ensures-ok : {A : Type 0} (P : A → Type 0) (r : Result A) (a : A) → Ensures P r → r ≡ ok a → P a
Ensures-ok P r a h e = subst (Ensures P) e h

pub bind-eq-ok :
    {A B : Type 0} (r : Result A) (f : A → Result B) {b : B}
    → bind r f ≡ ok b
    → (a : A) × (r ≡ ok a) × (f a ≡ ok b)
bind-eq-ok (ok a) f h = (a, refl, h)
bind-eq-ok (err e) f h = cc

pub Result-cases :
    {A : Type 0} (r : Result A) → ((a : A) × (r ≡ ok a)) ⊎ ((e : Error) × (r ≡ err e))
Result-cases (ok a) = inl (a, refl)
Result-cases (err e) = inr (e, refl)

-- A call that returns is followed by what comes after it.
pub bind-ok :
    {S A B : Type 0} (m : Exec S A) (f : A → Exec S B) (s : S) (a : A) (s' : S)
    → m s ≡ (ok a, s')
    → (m >>= f) s ≡ f a s'
bind-ok {S} {A} {B} m f s a s' h =
    ap (λ (x : Result A × S). elim x.0 [ ok v ↦ f v x.1 | err e ↦ (err e, x.1) ]) h

pub bind-err :
    {S A B : Type 0} (m : Exec S A) (f : A → Exec S B) (s : S) (e : Error) (s' : S)
    → m s ≡ (err e, s')
    → (m >>= f) s ≡ (err e, s')
bind-err {S} {A} {B} m f s e s' h =
    ap (λ (x : Result A × S). elim x.0 [ ok v ↦ f v x.1 | err e ↦ (err e, x.1) ]) h

after_call :
    {S A B : Type 0} (P : S → Type 0) (f : A → Exec S B) (x : Result A × S)
    → P (state_of x)
    → ((a : A) → x.0 ≡ ok a → P (state_of (f a (state_of x))))
    → P (state_of (elim x.0 as (λ _. Result B × S) [ ok a ↦ f a x.1 | err e ↦ (err e, x.1) ]))
after_call P f (ok a, s) h k = k a refl
after_call P f (err e, s) h k = h

-- What holds after a call, whether it raises or not, and after what follows it.
pub bind-state :
    {S A B : Type 0} (P : S → Type 0) (m : Exec S A) (f : A → Exec S B) (s : S)
    → P (state_of (m s))
    → ((a : A) → result_of (m s) ≡ ok a → P (state_of (f a (state_of (m s)))))
    → P (state_of ((m >>= f) s))
bind-state P m f s h k = after_call P f (m s) h k

inverted :
    {S A B : Type 0} (f : A → Exec S B) (x : Result A × S) (b : B) (t : S)
    → elim x.0 as (λ _. Result B × S) [ ok a ↦ f a x.1 | err e ↦ (err e, x.1) ] ≡ (ok b, t)
    → (a : A) × (u : S) × (x ≡ (ok a, u)) × (f a u ≡ (ok b, t))
inverted f (ok a, u) b t h = (a, u, refl, h)
inverted {S} {A} {B} f (err e, u) b t h = absurd (never (ap (λ (x : Result B × S). x.0) h))
  where
    never : err e ≡ ok b → ⊥
    never k = cc

-- Where both calls return, the second starts from what the first has left.
pub bind-inv :
    {S A B : Type 0} (m : Exec S A) (f : A → Exec S B) (s : S) (b : B) (t : S)
    → (m >>= f) s ≡ (ok b, t)
    → (a : A) × (u : S) × (m s ≡ (ok a, u)) × (f a u ≡ (ok b, t))
bind-inv m f s b t h = inverted f (m s) b t h

-- A call that raises, whatever its state.
abbrev pub Raises : {S A : Type 0} → Result A × S → Type 0
Raises x = (e : Error) × (result_of x ≡ err e)

after-Raises :
    {S A B : Type 0} (f : A → Exec S B) (x : Result A × S)
    → ((a : A) → x.0 ≡ ok a → Raises (f a x.1))
    → Raises (elim x.0 as (λ _. Result B × S) [ ok a ↦ f a x.1 | err e ↦ (err e, x.1) ])
after-Raises f (ok a, u) h = h a refl
after-Raises f (err e, u) h = (e, refl)

pub bind-Raises :
    {S A B : Type 0} (m : Exec S A) (f : A → Exec S B) (s : S)
    → ((a : A) → result_of (m s) ≡ ok a → Raises (f a (state_of (m s))))
    → Raises ((m >>= f) s)
bind-Raises m f s h = after-Raises f (m s) h
