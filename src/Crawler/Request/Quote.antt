-- ===== src/Crawler/Request/Quote.antt =====
-- A quoted value is read back, and has no separator in it.
use cs.Prelude.{
  ℕ, ◌+◌, ◌-◌, ◌*◌, ◌/◌, ◌%◌, ◌≡◌, ◌≢◌, ◌<◌, refl, ap, ◌∙◌, inl, inr, List, [], ◌∷◌, ◌++◌, arith,
  All, All-append, leb, nat_eq, nat_eq_iff, if◌then◌else◌, Bool-cases,
}
use cs.Prelude.Exec.{Result, ok, err, bind}
use cs.Prelude.Text.{Text}
use cs.Prelude.Strings.{Lacks, encode}
use cs.Prelude.{Option, none, some, subst}
use cs.Prelude.Exec.{Ensures, value_error}
use cs.Prelude.Strings.{encode_char}
use cs.Crawler.Request.{is_safe, hex_digit, quote_byte, quote_bytes}

abbrev pub hex_value : ℕ → ℕ
hex_value c = if leb c b'9' then c - b'0' else c - b'A' + 10

-- How a server reads a value: plus signs are spaces, and a percent sign stands before two digits.
unfoldable pub unquote : Text → List ℕ
unquote [] = []
unquote (c ∷ []) = (if nat_eq c b'+' then b' ' else c) ∷ []
unquote (c ∷ h ∷ []) = (if nat_eq c b'+' then b' ' else c) ∷ unquote (h ∷ [])
unquote (c ∷ h ∷ l ∷ rest) =
    let after = unquote rest in
    let next = unquote (h ∷ l ∷ rest) in
    if nat_eq c b'%'
    then (hex_value h * 16 + hex_value l) ∷ after
    else (if nat_eq c b'+' then b' ' else c) ∷ next

unquote-plain :
    (c : ℕ) (t : Text)
    → c ≢ b'%'
    → unquote (c ∷ t) ≡ (if nat_eq c b'+' then b' ' else c) ∷ unquote t
unfolding unquote
unquote-plain c [] h = refl
unquote-plain c (x ∷ []) h = refl
unquote-plain c (x ∷ y ∷ t) h = ground (arith, nat_eq_iff c b'%')

-- A text without plus and percent signs stands for itself.
pub unquote-word : (t : Text) → Lacks b'%' t → Lacks b'+' t → unquote t ≡ t
unquote-word [] h k = unfold unquote in refl
unquote-word (c ∷ t) (hc, h) (kc, k) =
    unquote-plain c t hc ∙ ground (arith, nat_eq_iff c b'+', unquote-word t h k)

unquote-percent :
    (h l : ℕ) (t : Text) → unquote (b'%' ∷ h ∷ l ∷ t) ≡ (hex_value h * 16 + hex_value l) ∷ unquote t
unfolding unquote
unquote-percent h l t = refl

hex_value-hex_digit : (n : ℕ) → n < 16 → hex_value (hex_digit n) ≡ n
hex_value-hex_digit n h = ground arith

unquote-quote_byte : (b : ℕ) (t : Text) → b < 256 → unquote (quote_byte b ++ t) ≡ b ∷ unquote t
unquote-quote_byte b t h = elim (Bool-cases (nat_eq b b' ')) [
  | inl space ↦ rw space (rw (unquote-plain b'+' t (omega arith)) (ground arith))
  | inr other ↦ rw other (elim (Bool-cases (is_safe b)) [
    | inl safe ↦ rw safe (rw (unquote-plain b t (ground arith)) (ground arith))
    | inr unsafe ↦ rw unsafe (
        rw (unquote-percent (hex_digit (b / 16)) (hex_digit (b % 16)) t) (
          rw (hex_value-hex_digit (b / 16) (omega arith)) (
            rw (hex_value-hex_digit (b % 16) (omega arith))
              (ap (λ (x : ℕ). x ∷ unquote t) (omega arith)))))
  ])
]

abbrev pub IsBytes : List ℕ → Type 0
IsBytes bs = All (λ b. b < 256) bs

pub unquote-quote_bytes : (bs : List ℕ) → IsBytes bs → unquote (quote_bytes bs) ≡ bs
unfolding unquote
unquote-quote_bytes [] h = refl
unquote-quote_bytes (b ∷ bs) (hb, h) =
    unquote-quote_byte b (quote_bytes bs) hb ∙ ap (λ (t : List ℕ). b ∷ t) (unquote-quote_bytes bs h)

encode_char-IsBytes : (c : ℕ) (bs : List ℕ) → c < 1114112 → encode_char c ≡ some bs → IsBytes bs
encode_char-IsBytes c bs h e = ground arith

-- Code points that Python's characters have.
abbrev pub IsText : Text → Type 0
IsText t = All (λ c. c < 1114112) t

abbrev Encoded : Option (List ℕ) → Result (List ℕ) → Result (List ℕ)
Encoded none rest = err value_error
Encoded (some bs) rest = bind rest (λ tail. ok (bs ++ tail))

encoded-IsBytes :
    (o : Option (List ℕ)) (r : Result (List ℕ)) (bs : List ℕ)
    → ((xs : List ℕ) → o ≡ some xs → IsBytes xs)
    → ((xs : List ℕ) → r ≡ ok xs → IsBytes xs)
    → Encoded o r ≡ ok bs
    → IsBytes bs
encoded-IsBytes none r bs h k e = cc
encoded-IsBytes (some x) (err y) bs h k e = cc
encoded-IsBytes (some x) (ok y) bs h k e =
    subst (λ (r : Result (List ℕ)). Ensures (λ xs. IsBytes xs) r) e
      (All-append (λ b. b < 256) x y (h x refl) (k y refl))

pub encode-IsBytes : (t bs : List ℕ) → IsText t → encode t ≡ ok bs → IsBytes bs
unfolding encode
encode-IsBytes [] bs h e = subst (λ (r : Result (List ℕ)). Ensures (λ xs. IsBytes xs) r) e tt
encode-IsBytes (c ∷ t) bs (hc, h) e =
    encoded-IsBytes (encode_char c) (encode t) bs (λ xs x. encode_char-IsBytes c xs hc x)
      (λ xs x. encode-IsBytes t xs h x) (rearranged (encode_char c) e)
  where
    rearranged :
        (o : Option (List ℕ))
        → (elim o as (λ _. Result (List ℕ)) [
          | none ↦ err value_error
          | some x ↦ bind (encode t) (λ tail. ok (x ++ tail))
        ])
          ≡ ok bs
        → Encoded o (encode t) ≡ ok bs
    rearranged none x = x
    rearranged (some y) x = x

quote_byte-Lacks : (b : ℕ) → b < 256 → Lacks b'&' (quote_byte b)
quote_byte-Lacks b h = ground arith

pub quote_bytes-Lacks : (bs : List ℕ) → IsBytes bs → Lacks b'&' (quote_bytes bs)
quote_bytes-Lacks [] h = tt
quote_bytes-Lacks (b ∷ bs) (hb, h) =
    All-append (λ x. x ≢ b'&') (quote_byte b) (quote_bytes bs) (quote_byte-Lacks b hb)
      (quote_bytes-Lacks bs h)
