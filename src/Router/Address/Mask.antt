-- ===== src/Router/Address/Mask.antt =====
-- The length of a subnet mask: the number of ones before the first zero, from the top.
use native.Mathlib.Nat.{pow-suc, div-div-eq-div-mul}
use native.Mathlib.Numerals.{add-one}
use cs.Prelude.{
  ℕ, zero, suc, ◌+◌, ◌-◌, ◌*◌, ◌/◌, ◌%◌, ◌^◌, ◌≤◌, ◌<◌, ◌≡◌, refl, sym, true, inl, inr, Bool-cases,
  arith, nat_eq, nat_eq_iff, all_below, all_below-passes,
}
use cs.Router.Address.{SubnetMask, IsAddress, length_loop, mask_length}

length_loop_bounds :
    (i b count : ℕ) → (count ≤ length_loop i b count) × (length_loop i b count ≤ count + i)
unfolding length_loop
length_loop_bounds zero b count = omega arith
length_loop_bounds (suc i) b count = ground (arith, length_loop_bounds i b (count + 1))

-- A mask has at most 32 bits.
pub mask_length-le : (m : SubnetMask) → mask_length m ≤ 32
unfolding mask_length
mask_length-le m = omega (arith, length_loop_bounds 32 m.binary 0)

-- The mask with its `k` lowest bits cleared, as `_calculate_aggregation` computes it.
abbrev pub cleared : ℕ → SubnetMask
cleared k = record { binary = (2 ^ 32 - 1) / 2 ^ k * 2 ^ k }

cleared_table : all_below 34 (λ k. nat_eq (mask_length (cleared k)) (32 - k)) ≡ true
unfolding all_below mask_length
cleared_table = refl

pub mask_length-cleared : (k : ℕ) → k < 34 → mask_length (cleared k) ≡ 32 - k
mask_length-cleared k h =
    (nat_eq_iff _ _).0
      (all_below-passes 34 (λ k. nat_eq (mask_length (cleared k)) (32 - k)) k h cleared_table)

-- The `n` highest of 32 bits are ones, and the bit below them, if there is one, is zero.
pub record IsLeadingOnes (b n : ℕ) : Type 0 where
  pub ones : b / 2 ^ (32 - n) + 1 ≡ 2 ^ n
  pub then_zero : n < 32 → b / 2 ^ (31 - n) % 2 ≡ 0

pub div_pow_suc : (b i : ℕ) → b / 2 ^ suc i ≡ b / 2 ^ i / 2
div_pow_suc b i = rw pow-suc (sym (div-div-eq-div-mul b (2 ^ i) 2))

length_loop-IsLeadingOnes :
    (i b count : ℕ)
    → count + i ≡ 32
    → b / 2 ^ i + 1 ≡ 2 ^ count
    → IsLeadingOnes b (length_loop i b count)
unfolding length_loop
length_loop-IsLeadingOnes zero b count e h = record {
  ones = let z : 32 - count ≡ 0 = omega arith in rw z h;
  then_zero = λ lt. absurd (omega arith);
}
length_loop-IsLeadingOnes (suc i) b count e h = elim (Bool-cases (nat_eq (b / 2 ^ i % 2) 1)) [
  | inl one ↦ rw one (
      length_loop-IsLeadingOnes i b (count + 1) (omega arith)
        (rw (add-one count) (rw pow-suc (omega (arith, div_pow_suc b i, (nat_eq_iff _ _).0 one)))))
  | inr zero_bit ↦ rw zero_bit (record {
    ones = let z : 32 - count ≡ suc i = omega arith in rw z h;
    then_zero = λ lt. let z : 31 - count ≡ i = omega arith in rw z (ground arith);
  })
]

-- The length counts exactly the ones above the first zero, whatever the bits below it are.
pub mask_length-IsLeadingOnes :
    (m : SubnetMask) → IsAddress m → IsLeadingOnes m.binary (mask_length m)
unfolding mask_length
mask_length-IsLeadingOnes m h = length_loop-IsLeadingOnes 32 m.binary 0 (omega arith) (omega arith)
