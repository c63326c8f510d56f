-- ===== src/Tcp/Checksum.antt =====
-- The checksum of a packet in 3700TCP/networks/packet.py, and the test of the receiver in
-- launch_receiver.py. The hash is `blake2b` with a digest of 16 bytes, a parameter.
pub mod Accepted
use cs.Prelude.{ℕ, Bool, true, false, not, List, [], ◌∷◌, if◌then◌else◌}
use cs.Prelude.Eq.{◌==◌, ℕ_eq, List_eq}
use cs.Prelude.Exec.{Result, ok, bind}
use cs.Tcp.Packet.{Packet, to_bytes}

-- `EMPTY_CHECKSUM`: sixteen characters "0"
abbrev pub empty_checksum : List ℕ
empty_checksum = 48 ∷ 48 ∷ 48 ∷ 48 ∷ 48 ∷ 48 ∷ 48 ∷ 48 ∷ 48 ∷ 48 ∷ 48 ∷ 48 ∷ 48 ∷ 48 ∷ 48 ∷ 48 ∷ []

-- `_replace_checksum`
abbrev pub replace_checksum : List ℕ → Packet → Packet
replace_checksum new p = record p { header = record p.header { checksum = new } }

-- `generate_packet_from_empty_checksum`
unfoldable pub generate_packet_from_empty_checksum : (List ℕ → List ℕ) → Packet → Result Packet
generate_packet_from_empty_checksum hash self =
    let packet =
      if self.header.checksum == empty_checksum
      then self
      else replace_checksum empty_checksum self in
    bind (to_bytes packet) λ from_bytes. ok (replace_checksum (hash from_bytes) packet)

-- `calculate_original_checksum`
unfoldable pub calculate_original_checksum : (List ℕ → List ℕ) → Packet → Result (List ℕ)
calculate_original_checksum hash self =
    bind (to_bytes (replace_checksum empty_checksum self)) λ from_bytes. ok (hash from_bytes)

-- `_check_for_malformation`: is the packet mangled?
unfoldable pub check_for_malformation : (List ℕ → List ℕ) → Packet → Result Bool
unfolding calculate_original_checksum
check_for_malformation hash packet =
    bind (calculate_original_checksum hash packet)
      λ calculated. ok (not (packet.header.checksum == calculated))
