-- ===== src/Tcp/Packet.antt =====
-- 3700TCP/networks/packet.py: headers and packets, their flags, and their bytes.
pub mod Flags
pub mod Bytes
pub mod Equality
use Prim.Native.Nat.{bit_or}
use cs.Prelude.{
  ℕ, zero, suc, ◌+◌, ◌*◌, ◌/◌, ◌%◌, ◌^◌, Bool, true, false, List, [], ◌∷◌, ◌++◌, take, drop, keep,
  length, ltb, nat_eq, if◌then◌else◌,
}
use cs.Prelude.Exec.{Result, ok, err, struct_error, bind}

-- `TCPFlag`, and its values
pub data Flag : Type 0 where
  synchronization acknowledgement connection_close errors : Flag

abbrev pub flag_value : Flag → ℕ
flag_value synchronization = 0
flag_value acknowledgement = 1
flag_value connection_close = 3
flag_value errors = 4

-- The members, in the order of the enumeration.
abbrev pub all_flags : List Flag
all_flags = synchronization ∷ acknowledgement ∷ connection_close ∷ errors ∷ []

-- `(flags >> flag.value) & 0x1`
abbrev pub has_flag : ℕ → Flag → Bool
has_flag flags flag = nat_eq (flags / 2 ^ flag_value flag % 2) 1

-- `TCPHeader.enum_flags`
abbrev pub enum_flags : ℕ → List Flag
enum_flags flags = keep (has_flag flags) all_flags

-- The loop of `TCPHeader.pack_flags`
unfoldable pub pack_loop : ℕ → List Flag → ℕ
pack_loop binary_flags [] = binary_flags
pack_loop binary_flags (flag ∷ rest) = pack_loop (bit_or binary_flags (2 ^ flag_value flag)) rest

-- `TCPHeader.pack_flags`
unfoldable pub pack_flags : List Flag → ℕ
unfolding pack_loop
pack_flags flag_list = pack_loop 0 flag_list

-- `TCPHeader`
pub record Header : Type 0 where
  pub sequence_number : ℕ
  pub flags : ℕ
  pub advertised_window : ℕ
  pub checksum : List ℕ

-- `TCPPacket`
pub record Packet : Type 0 where
  pub header : Header
  pub data_length : ℕ
  pub data_bytes : List ℕ

-- "I" of `struct`, most significant byte first
abbrev pub pack_int : ℕ → Result (List ℕ)
pack_int v =
    if ltb v (2 ^ 32)
    then ok (v / 2 ^ 24 ∷ v / 2 ^ 16 % 256 ∷ v / 2 ^ 8 % 256 ∷ v % 256 ∷ [])
    else err struct_error

-- "H"
abbrev pub pack_short : ℕ → Result (List ℕ)
pack_short v = if ltb v (2 ^ 16) then ok (v / 256 ∷ v % 256 ∷ []) else err struct_error

-- "16s": cut or filled with zeros to the length
unfoldable pub pack_bytes : ℕ → List ℕ → List ℕ
pack_bytes zero bs = []
pack_bytes (suc n) [] = 0 ∷ pack_bytes n []
pack_bytes (suc n) (b ∷ bs) = b ∷ pack_bytes n bs

-- `TCPHeader.to_bytes`
abbrev pub header_to_bytes : Header → Result (List ℕ)
header_to_bytes h = bind (pack_int h.sequence_number) λ sequence_bytes.
    bind (pack_short h.flags) λ flag_bytes. bind (pack_short h.advertised_window) λ window_bytes.
      ok (sequence_bytes ++ (flag_bytes ++ (window_bytes ++ pack_bytes 16 h.checksum)))

-- `TCPPacket.to_bytes`
unfoldable pub to_bytes : Packet → Result (List ℕ)
unfolding pack_bytes
to_bytes p = bind (header_to_bytes p.header) λ header_bytes.
    bind (pack_short p.data_length)
      λ data_len_bytes. ok (header_bytes ++ (data_len_bytes ++ p.data_bytes))

-- `struct.unpack(">IHH16s", …)`, which takes exactly 24 bytes
abbrev pub unpack_header : List ℕ → Result Header
unpack_header (a ∷ b ∷ c ∷ d ∷ e ∷ f ∷ g ∷ h ∷ checksum) =
    if nat_eq (length checksum) 16
    then ok (record {
      sequence_number = a * 2 ^ 24 + b * 2 ^ 16 + c * 2 ^ 8 + d;
      flags = e * 256 + f;
      advertised_window = g * 256 + h;
      checksum = checksum;
    })
    else err struct_error
unpack_header _ = err struct_error

-- `TCPHeader.from_bytes`
abbrev pub header_from_bytes : List ℕ → Result (Header × List ℕ)
header_from_bytes raw = bind (unpack_header (take 24 raw)) λ h. ok (h, drop 24 raw)

-- `variable_from_bytes(…, 'data_length')`
abbrev pub unpack_short : List ℕ → Result ℕ
unpack_short (a ∷ b ∷ []) = ok (a * 256 + b)
unpack_short _ = err struct_error

-- `TCPPacket.from_bytes`
unfoldable pub from_bytes : List ℕ → Result (Packet × List ℕ)
from_bytes raw = bind (header_from_bytes raw) λ (header, after_header).
    bind (unpack_short (take 2 after_header)) λ data_len.
      let remaining = drop 2 after_header in
      ok (
        record { header = header; data_length = data_len; data_bytes = take data_len remaining },
        drop data_len remaining,
      )
