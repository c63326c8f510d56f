-- ===== src/Tcp/Packet/Equality.antt =====
-- The `==` of the dataclasses of 3700TCP/networks/packet.py.
use cs.Prelude.{◌≡◌, ◌↔◌, Bool, true, ◌&&◌, arith}
use cs.Prelude.Eq.{Eq, ◌==◌, ℕ_eq, List_eq, list_eq_iff}
use cs.Tcp.Packet.{Header, Packet}

abbrev pub header_beq : Header → Header → Bool
header_beq a b =
    (a.sequence_number == b.sequence_number)
    && ((a.flags == b.flags)
        && ((a.advertised_window == b.advertised_window) && (a.checksum == b.checksum)))

pub header_beq_iff : (a b : Header) → (header_beq a b ≡ true) ↔ (a ≡ b)
header_beq_iff a b = (
  λ h. ground (arith, list_eq_iff a.checksum b.checksum),
  λ h. ground (arith, list_eq_iff a.checksum b.checksum),
)

abbrev pub packet_beq : Packet → Packet → Bool
packet_beq a b =
    header_beq a.header b.header
    && ((a.data_length == b.data_length) && (a.data_bytes == b.data_bytes))

pub packet_beq_iff : (a b : Packet) → (packet_beq a b ≡ true) ↔ (a ≡ b)
packet_beq_iff a b = (
  λ h. ground (arith, header_beq_iff a.header b.header, list_eq_iff a.data_bytes b.data_bytes),
  λ h. ground (arith, header_beq_iff a.header b.header, list_eq_iff a.data_bytes b.data_bytes),
)

instance abbrev pub Packet_eq : Eq Packet
Packet_eq = record { beq = packet_beq; beq_iff = packet_beq_iff }
