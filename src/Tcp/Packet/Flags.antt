-- ===== src/Tcp/Packet/Flags.antt =====
-- Packing flags and reading them again.
use Prim.Native.Nat.{bit_or}
use cs.Prelude.{
  ℕ, ◌^◌, ◌<◌, ◌≡◌, refl, ◌∙◌, ap, Bool, true, false, ◌&&◌, ◌||◌, List, [], ◌∷◌, arith, keep, ltb,
  nat_eq, all_below, all_below-passes,
}
use cs.Tcp.Packet.{
  Flag, synchronization, acknowledgement, connection_close, errors, flag_value, all_flags, has_flag,
  enum_flags, pack_loop, pack_flags,
}

-- The flag is in the list.
abbrev pub listed : List Flag → Flag → Bool
listed [] g = false
listed (f ∷ fs) g = nat_eq (flag_value f) (flag_value g) || listed fs g

abbrev same_bool : Bool → Bool → Bool
same_bool true b = b
same_bool false true = false
same_bool false false = true

-- Setting `f` in `v` sets it, leaves the others, and stays below 32.
abbrev sets : Flag → Flag → ℕ → Bool
sets f g v =
    ltb (bit_or v (2 ^ flag_value f)) 32
    && same_bool (has_flag (bit_or v (2 ^ flag_value f)) g)
        (nat_eq (flag_value f) (flag_value g) || has_flag v g)

sets_table : (f g : Flag) → all_below 32 (sets f g) ≡ true
unfolding all_below
sets_table synchronization synchronization = refl
sets_table synchronization acknowledgement = refl
sets_table synchronization connection_close = refl
sets_table synchronization errors = refl
sets_table acknowledgement synchronization = refl
sets_table acknowledgement acknowledgement = refl
sets_table acknowledgement connection_close = refl
sets_table acknowledgement errors = refl
sets_table connection_close synchronization = refl
sets_table connection_close acknowledgement = refl
sets_table connection_close connection_close = refl
sets_table connection_close errors = refl
sets_table errors synchronization = refl
sets_table errors acknowledgement = refl
sets_table errors connection_close = refl
sets_table errors errors = refl

split_sets : (a b c : Bool) → a && same_bool b c ≡ true → (a ≡ true) × (b ≡ c)
split_sets a b c h = ground (arith, h)

set_flag :
    (f g : Flag) (v : ℕ)
    → v < 32
    → (bit_or v (2 ^ flag_value f) < 32)
      × (has_flag (bit_or v (2 ^ flag_value f)) g
          ≡ (nat_eq (flag_value f) (flag_value g) || has_flag v g))
set_flag f g v h =
    let (small, bit) =
      split_sets (ltb (bit_or v (2 ^ flag_value f)) 32) _ _
        (all_below-passes 32 (sets f g) v h (sets_table f g)) in
    (ground (arith, small), bit)

or_swap : (a b c : Bool) → (a || (b || c)) ≡ ((b || a) || c)
or_swap a b c = ground arith

pack_loop-has_flag :
    (fs : List Flag) (g : Flag) (v : ℕ)
    → v < 32
    → has_flag (pack_loop v fs) g ≡ (listed fs g || has_flag v g)
unfolding pack_loop
pack_loop-has_flag [] g v h = refl
pack_loop-has_flag (f ∷ fs) g v h =
    let (small, bit) = set_flag f g v h in
    pack_loop-has_flag fs g (bit_or v (2 ^ flag_value f)) small
    ∙ ap (λ (b : Bool). listed fs g || b) bit
    ∙ or_swap (listed fs g) (nat_eq (flag_value f) (flag_value g)) (has_flag v g)

or_false : (b : Bool) → (b || false) ≡ b
or_false b = ground arith

none_set : (g : Flag) → has_flag 0 g ≡ false
none_set synchronization = refl
none_set acknowledgement = refl
none_set connection_close = refl
none_set errors = refl

packed : (fs : List Flag) (g : Flag) → has_flag (pack_flags fs) g ≡ listed fs g
unfolding pack_flags
packed fs g =
    pack_loop-has_flag fs g 0 (omega arith)
    ∙ ap (λ (b : Bool). listed fs g || b) (none_set g)
    ∙ or_false (listed fs g)

keep_same : (p q : Flag → Bool) (fs : List Flag) → ((g : Flag) → p g ≡ q g) → keep p fs ≡ keep q fs
keep_same p q [] h = refl
keep_same p q (f ∷ fs) h = rw (h f, keep_same p q fs h) refl

-- The flags that are read from a packed number are the ones that were packed, each once and in the
-- order of the enumeration.
pub enum_flags-pack_flags :
    (fs : List Flag) → enum_flags (pack_flags fs) ≡ keep (listed fs) all_flags
enum_flags-pack_flags fs = keep_same (has_flag (pack_flags fs)) (listed fs) all_flags (packed fs)
