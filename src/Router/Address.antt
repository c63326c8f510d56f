-- ===== src/Router/Address.antt =====
-- 3700Router/networks/ipaddress.py: addresses and subnet masks as 32-bit numbers.
pub mod RoundTrip
pub mod Mask
use cs.Prelude.{
  ℕ, zero, suc, ◌+◌, ◌-◌, ◌*◌, ◌/◌, ◌%◌, ◌^◌, ◌<◌, ◌≡◌, ◌↔◌, Bool, true, false, ◌&&◌, not, Option,
  none, some, List, [], ◌∷◌, ◌++◌, arith, ltb, nat_eq, nat_eq_iff, if◌then◌else◌,
}
use cs.Prelude.Eq.{Eq}
use cs.Prelude.Exec.{Result, ok, err, value_error, struct_error, bind, or_raise}
use cs.Prelude.Text.{Text, Signed, split_on, int_of_text, decimal}

-- The dataclass `QuadrupleOctet`; its subclasses have no field of their own.
pub record QuadrupleOctet : Type 0 where
  pub binary : ℕ

abbrev pub IpAddress : Type 0
IpAddress = QuadrupleOctet

abbrev pub SubnetMask : Type 0
SubnetMask = QuadrupleOctet

abbrev pub address_beq : QuadrupleOctet → QuadrupleOctet → Bool
address_beq a b = nat_eq a.binary b.binary

pub address_beq_iff : (a b : QuadrupleOctet) → (address_beq a b ≡ true) ↔ (a ≡ b)
address_beq_iff a b = (λ h. ground (arith, nat_eq_iff a.binary b.binary), λ h. ground arith)

instance abbrev pub QuadrupleOctet_eq : Eq QuadrupleOctet
QuadrupleOctet_eq = record { beq = address_beq; beq_iff = address_beq_iff }

-- `BIT_LENGTH`
abbrev pub bit_length : ℕ
bit_length = 32

abbrev pub Octets : Type 0
Octets = ℕ × ℕ × ℕ × ℕ

-- `struct.pack` with "B": an unsigned byte
abbrev pub pack_octet : Signed → Result ℕ
pack_octet n =
    if n.negative && not (nat_eq n.magnitude 0)
    then err struct_error
    else if ltb n.magnitude 256
    then ok n.magnitude
    else err struct_error

-- `struct.unpack(">I", …)`: the most significant byte comes first
abbrev pub join_octets : ℕ → ℕ → ℕ → ℕ → QuadrupleOctet
join_octets a b c d = record { binary = a * 2 ^ 24 + b * 2 ^ 16 + c * 2 ^ 8 + d }

-- The four names on the left of the assignment take exactly four parts.
abbrev pub four_parts : List Text → Result (Text × Text × Text × Text)
four_parts (a ∷ b ∷ c ∷ d ∷ []) = ok (a, b, c, d)
four_parts _ = err value_error

abbrev pub int_part : Text → Result Signed
int_part t = or_raise value_error (int_of_text t)

abbrev pub pack_parts : Signed → Signed → Signed → Signed → Result QuadrupleOctet
pack_parts n1 n2 n3 n4 = bind (pack_octet n1) λ o1.
    bind (pack_octet n2)
      λ o2. bind (pack_octet n3) λ o3. bind (pack_octet n4) λ o4. ok (join_octets o1 o2 o3 o4)

-- `QuadrupleOctet.__post_init__`
unfoldable pub post_init : Text → Result QuadrupleOctet
post_init str_address = bind (four_parts (split_on b'.' str_address)) λ (t1, t2, t3, t4).
    bind (int_part t1) λ n1.
      bind (int_part t2)
        λ n2. bind (int_part t3) λ n3. bind (int_part t4) λ n4. pack_parts n1 n2 n3 n4

-- `_split_into_octets`: "I" takes an unsigned 32-bit number
unfoldable pub split_into_octets : ℕ → Result Octets
split_into_octets v =
    if ltb v (2 ^ 32)
    then ok (v / 2 ^ 24, v / 2 ^ 16 % 256, v / 2 ^ 8 % 256, v % 256)
    else err struct_error

-- `_stringify_octets`
unfoldable pub stringify_octets : ℕ → ℕ → ℕ → ℕ → Text
stringify_octets o1 o2 o3 o4 =
    decimal o1 ++ (b'.' ∷ (decimal o2 ++ (b'.' ∷ (decimal o3 ++ (b'.' ∷ decimal o4)))))

-- `__str__`
pub to_text : QuadrupleOctet → Result Text
unfolding split_into_octets stringify_octets
to_text a = bind (split_into_octets a.binary) λ (o1, o2, o3, o4). ok (stringify_octets o1 o2 o3 o4)

-- `from_binary`
pub from_binary : ℕ → Result QuadrupleOctet
from_binary v =
    bind (split_into_octets v) λ (o1, o2, o3, o4). post_init (stringify_octets o1 o2 o3 o4)

-- `network_gateway`
unfoldable pub network_gateway : QuadrupleOctet → Result IpAddress
network_gateway a =
    bind (split_into_octets a.binary) λ (o1, o2, o3, o4). post_init (stringify_octets o1 o2 o3 1)

-- The loop of `SubnetMask.length`: `i` bits, the ones below the last bit read, are left.
pub length_loop : ℕ → ℕ → ℕ → ℕ
length_loop zero binary count = count
length_loop (suc i) binary count =
    let rest = length_loop i binary (count + 1) in
    if not (nat_eq (binary / 2 ^ i % 2) 1) then count else rest

-- `SubnetMask.length`
unfoldable pub mask_length : SubnetMask → ℕ
unfolding length_loop
mask_length m = length_loop 32 m.binary 0

-- `SubnetMask.prefix_shift_amount`
unfoldable pub prefix_shift_amount : SubnetMask → ℕ
prefix_shift_amount m = bit_length - mask_length m

-- What every address that `__post_init__` builds satisfies.
abbrev pub IsAddress : QuadrupleOctet → Type 0
IsAddress a = a.binary < 2 ^ 32
