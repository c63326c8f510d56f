-- ===== src/Router/Address/RoundTrip.antt =====
-- Text and number forms of an address.
use cs.Prelude.{
  ℕ, ◌+◌, ◌*◌, ◌/◌, ◌%◌, ◌^◌, ◌<◌, ◌≡◌, refl, Bool, true, false, ◌&&◌, not, Option, none, some, [],
  ◌∷◌, ◌++◌, arith, ap, ◌∙◌, inl, inr, Bool-cases, tests, ltb, lt→ltb, nat_eq, nat_eq_iff,
  if◌then◌else◌, all_below, all_below-passes,
}
use cs.Prelude.Exec.{Result, ok, err, struct_error, bind, Ensures, Ensures-bind, Ensures-ok}
use cs.Prelude.Text.{Text, Signed, split_on, int_of_text, decimal}
use cs.Router.Address.{
  QuadrupleOctet, IsAddress, join_octets, pack_octet, pack_parts, int_part, four_parts, post_init,
  split_into_octets, stringify_octets, to_text, from_binary, network_gateway,
}

-- No character of the text is the given one.
abbrev free_of : ℕ → Text → Bool
free_of c [] = true
free_of c (x ∷ xs) = not (nat_eq x c) && free_of c xs

split_on-append :
    (c : ℕ) (w r : Text) → free_of c w ≡ true → split_on c (w ++ (c ∷ r)) ≡ w ∷ split_on c r
unfolding split_on
split_on-append c [] r h = ground (arith, nat_eq_iff c c)
split_on-append c (x ∷ w) r h = ground (arith, split_on-append c w r)

split_on-free : (c : ℕ) (w : Text) → free_of c w ≡ true → split_on c w ≡ w ∷ []
unfolding split_on
split_on-free c [] h = refl
split_on-free c (x ∷ w) h = ground (arith, split_on-free c w)

abbrev reads_back : ℕ → Option Signed → Bool
reads_back n none = false
reads_back n (some s) = not s.negative && nat_eq s.magnitude n

octet_table :
    all_below 256 (λ n. free_of b'.' (decimal n) && reads_back n (int_of_text (decimal n))) ≡ true
unfolding all_below decimal int_of_text
octet_table = refl

octet_free : (n : ℕ) → n < 256 → free_of b'.' (decimal n) ≡ true
octet_free n h = ground (
  arith,
  all_below-passes 256 (λ n. free_of b'.' (decimal n) && reads_back n (int_of_text (decimal n))) n h
      octet_table,
)

reads_back_lem :
    (n : ℕ) (o : Option Signed)
    → reads_back n o ≡ true
    → o ≡ some (record { negative = false; magnitude = n })
reads_back_lem n none h = cc
reads_back_lem n (some s) h = ground (arith, nat_eq_iff s.magnitude n)

octet_int :
    (n : ℕ) → n < 256 → int_of_text (decimal n) ≡ some (record { negative = false; magnitude = n })
octet_int n h = reads_back_lem n (int_of_text (decimal n)) (
    ground (
      arith,
      all_below-passes 256 (λ n. free_of b'.' (decimal n) && reads_back n (int_of_text (decimal n)))
          n h octet_table,
    ))

split_on-stringify :
    (a b c d : ℕ)
    → a < 256
    → b < 256
    → c < 256
    → d < 256
    → split_on b'.' (stringify_octets a b c d) ≡ decimal a ∷ decimal b ∷ decimal c ∷ decimal d ∷ []
unfolding stringify_octets
split_on-stringify a b c d ha hb hc hd = rw (split_on-append b'.' (decimal a) _ (octet_free a ha)) (
    rw (split_on-append b'.' (decimal b) _ (octet_free b hb)) (
      rw (split_on-append b'.' (decimal c) _ (octet_free c hc))
        (rw (split_on-free b'.' (decimal d) (octet_free d hd)))))

-- The text form of four octets is parsed to the number that the octets make up.
pub post_init-stringify_octets :
    (a b c d : ℕ)
    → a < 256
    → b < 256
    → c < 256
    → d < 256
    → post_init (stringify_octets a b c d) ≡ ok (join_octets a b c d)
unfolding post_init
post_init-stringify_octets a b c d ha hb hc hd = rw (split_on-stringify a b c d ha hb hc hd) (
    rw (octet_int a ha, octet_int b hb, octet_int c hc, octet_int d hd)
      (rw (lt→ltb a 256 ha, lt→ltb b 256 hb, lt→ltb c 256 hc, lt→ltb d 256 hd)))

Ensures-octet :
    (n : Signed) (f : ℕ → Result QuadrupleOctet)
    → ((o : ℕ) → o < 256 → Ensures IsAddress (f o))
    → Ensures IsAddress (bind (pack_octet n) f)
Ensures-octet n f h = elim (Bool-cases (n.negative && not (nat_eq n.magnitude 0))) [
  | inl negative ↦ rw negative tt
  | inr plain ↦ rw plain (elim (Bool-cases (ltb n.magnitude 256)) [
    | inl small ↦ rw small (h n.magnitude (omega tests))
    | inr large ↦ rw large tt
  ])
]

pack_parts-IsAddress : (n1 n2 n3 n4 : Signed) → Ensures IsAddress (pack_parts n1 n2 n3 n4)
pack_parts-IsAddress n1 n2 n3 n4 = Ensures-octet n1 _ λ o1 h1.
    Ensures-octet n2 _ λ o2 h2. Ensures-octet n3 _ λ o3 h3. Ensures-octet n4 _ λ o4 h4. omega arith

-- Every address that is built from text has 32 bits.
pub post_init-IsAddress : (t : Text) (a : QuadrupleOctet) → post_init t ≡ ok a → IsAddress a
unfolding post_init
post_init-IsAddress t a e =
    Ensures-ok IsAddress (post_init t) a
      (Ensures-bind IsAddress (four_parts (split_on b'.' t)) _ λ (t1, t2, t3, t4).
        Ensures-bind IsAddress (int_part t1) _ λ n1. Ensures-bind IsAddress (int_part t2) _ λ n2.
          Ensures-bind IsAddress (int_part t3) _
            λ n3. Ensures-bind IsAddress (int_part t4) _ λ n4. pack_parts-IsAddress n1 n2 n3 n4)
      e

-- `IPAddress(str(a))` is `a`.
pub post_init-to_text : (a : QuadrupleOctet) → IsAddress a → bind (to_text a) post_init ≡ ok a
unfolding to_text split_into_octets
post_init-to_text a h = rw (lt→ltb a.binary (2 ^ 32) h) (
    post_init-stringify_octets (a.binary / 2 ^ 24) (a.binary / 2 ^ 16 % 256)
      (a.binary / 2 ^ 8 % 256) (a.binary % 256) (omega arith) (omega arith) (omega arith)
      (omega arith)
    ∙ ap (λ (n : ℕ). ok (record { binary = n })) (omega arith))

-- `from_binary` builds the address of any 32-bit number, and raises a struct.error for any other.
pub from_binary_lem :
    (v : ℕ)
    → from_binary v ≡ (if ltb v (2 ^ 32) then ok (record { binary = v }) else err struct_error)
unfolding from_binary split_into_octets
from_binary_lem v = elim (Bool-cases (ltb v (2 ^ 32))) [
  | inl fits ↦ rw fits (
      post_init-stringify_octets (v / 2 ^ 24) (v / 2 ^ 16 % 256) (v / 2 ^ 8 % 256) (v % 256)
        (omega tests) (omega arith) (omega arith) (omega arith)
      ∙ ap (λ (n : ℕ). ok (record { binary = n })) (omega tests))
  | inr wide ↦ rw wide
]

-- The gateway of an address is the address that ends in .1 in the same /24 network.
pub network_gateway_lem :
    (a : QuadrupleOctet)
    → IsAddress a
    → network_gateway a ≡ ok (record { binary = a.binary / 256 * 256 + 1 })
unfolding network_gateway split_into_octets
network_gateway_lem a h = rw (lt→ltb a.binary (2 ^ 32) h) (
    post_init-stringify_octets (a.binary / 2 ^ 24) (a.binary / 2 ^ 16 % 256)
      (a.binary / 2 ^ 8 % 256) 1 (omega arith) (omega arith) (omega arith) (omega arith)
    ∙ ap (λ (n : ℕ). ok (record { binary = n })) (omega arith))
