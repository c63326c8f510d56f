-- ===== src/Prelude/Text.antt =====
-- Python's `str` as the list of its code points, with the built-in operations that the programs
-- use on it: `split`, `strip`, `int` and the decimal form of a number. Only ASCII counts as a space
-- or as a digit here.
use mathlib.Core.List.{reverse}
use cs.Prelude.{
  ℕ, zero, suc, ◌+◌, ◌-◌, ◌*◌, ◌/◌, ◌%◌, ◌≡◌, refl, arith, Bool, true, false, ◌&&◌, ◌||◌, Option,
  none, some, List, [], ◌∷◌, ltb, leb, nat_eq, if◌then◌else◌,
}

abbrev pub Text : Type 0
Text = List ℕ

abbrev pub cons_head : ℕ → List Text → List Text
cons_head c [] = (c ∷ []) ∷ []
cons_head c (w ∷ ws) = (c ∷ w) ∷ ws

-- `text.split(sep)` for a separator of one character
unfoldable pub split_on : ℕ → Text → List Text
split_on sep [] = [] ∷ []
split_on sep (c ∷ cs) =
    let rest = split_on sep cs in if nat_eq c sep then [] ∷ rest else cons_head c rest

abbrev pub is_space : ℕ → Bool
is_space c = (leb 9 c && leb c 13) || (leb 28 c && leb c 32)

abbrev pub is_digit : ℕ → Bool
is_digit c = leb b'0' c && leb c b'9'

-- `text.lstrip()`
unfoldable pub lstrip : Text → Text
lstrip [] = []
lstrip (c ∷ cs) = let rest = lstrip cs in if is_space c then rest else c ∷ cs

unfoldable pub strip : Text → Text
unfolding lstrip
strip t = reverse (lstrip (reverse (lstrip t)))

-- Digits with single underscores between them; `after_digit` says whether the text may end here.
unfoldable pub digits_value : Bool → ℕ → Text → Option ℕ
digits_value false acc [] = none
digits_value true acc [] = some acc
digits_value after_digit acc (c ∷ cs) = elim (is_digit c) [
  | true ↦ digits_value true (acc * 10 + (c - b'0')) cs
  | false ↦ elim (after_digit && nat_eq c b'_') [ true ↦ digits_value false acc cs | false ↦ none ]
]

-- A Python integer read from text: its sign and its magnitude.
pub record Signed : Type 0 where
  pub negative : Bool
  pub magnitude : ℕ

abbrev pub with_sign : Bool → Option ℕ → Option Signed
with_sign sign none = none
with_sign sign (some n) = some (record { negative = sign; magnitude = n })

unfoldable pub signed_value : Text → Option Signed
unfolding digits_value
signed_value [] = none
signed_value (c ∷ cs) =
    if nat_eq c b'-'
    then with_sign true (digits_value false 0 cs)
    else if nat_eq c b'+'
    then with_sign false (digits_value false 0 cs)
    else with_sign false (digits_value false 0 (c ∷ cs))

-- `int(text)`; `none` is the ValueError
unfoldable pub int_of_text : Text → Option Signed
unfolding signed_value strip
int_of_text t = signed_value (strip t)

unfoldable pub decimal_from : ℕ → ℕ → Text → Text
decimal_from zero n acc = acc
decimal_from (suc fuel) n acc =
    let rest = decimal_from fuel (n / 10) ((b'0' + n % 10) ∷ acc) in
    if ltb n 10 then (b'0' + n) ∷ acc else rest

-- `str(n)`; a number has no more digits than `n + 1`
unfoldable pub decimal : ℕ → Text
unfolding decimal_from
decimal n = decimal_from (suc n) n []

-- The `<` of strings: the first character in which they differ decides, and a prefix comes first.
abbrev pub text_lt : Text → Text → Bool
text_lt [] [] = false
text_lt [] (y ∷ ys) = true
text_lt (x ∷ xs) [] = false
text_lt (x ∷ xs) (y ∷ ys) = let rest = text_lt xs ys in if nat_eq x y then rest else ltb x y

pub text_lt-irreflexive : (a : Text) → text_lt a a ≡ false
text_lt-irreflexive [] = refl
text_lt-irreflexive (x ∷ a) = ground (arith, text_lt-irreflexive a)

pub text_lt-asymmetric : (a b : Text) → text_lt a b ≡ true → text_lt b a ≡ false
text_lt-asymmetric [] [] h = refl
text_lt-asymmetric [] (y ∷ b) h = refl
text_lt-asymmetric (x ∷ a) [] h = cc
text_lt-asymmetric (x ∷ a) (y ∷ b) h = ground (arith, text_lt-asymmetric a b)

pub text_lt-connected : (a b : Text) → text_lt a b ≡ false → text_lt b a ≡ false → a ≡ b
text_lt-connected [] [] h k = refl
text_lt-connected [] (y ∷ b) h k = cc
text_lt-connected (x ∷ a) [] h k = cc
text_lt-connected (x ∷ a) (y ∷ b) h k = ground (arith, text_lt-connected a b)

-- What is not before `a`, and what is not before that.
pub text_lt-negated_trans :
    (a b c : Text) → text_lt b a ≡ false → text_lt c b ≡ false → text_lt c a ≡ false
text_lt-negated_trans [] b [] h k = refl
text_lt-negated_trans [] b (z ∷ c) h k = refl
text_lt-negated_trans (x ∷ a) [] c h k = cc
text_lt-negated_trans (x ∷ a) (y ∷ b) [] h k = cc
text_lt-negated_trans (x ∷ a) (y ∷ b) (z ∷ c) h k = ground (arith, text_lt-negated_trans a b c)
