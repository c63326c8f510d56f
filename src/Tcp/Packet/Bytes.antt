-- ===== src/Tcp/Packet/Bytes.antt =====
-- A packet is read back from its bytes.
use mathlib.Core.List.{append_assoc}
use cs.Prelude.{
  ℕ, zero, suc, ◌+◌, ◌*◌, ◌/◌, ◌%◌, ◌^◌, ◌<◌, ◌≡◌, refl, List, [], ◌∷◌, ◌++◌, arith, take, drop,
  length, lt→ltb, nat_eq_iff,
}
use cs.Prelude.Exec.{ok, bind}
use cs.Tcp.Packet.{
  Header, Packet, pack_bytes, header_to_bytes, to_bytes, header_from_bytes, from_bytes,
}

-- The fields fit their formats, and the length is the one of the data.
pub record IsPacket (p : Packet) : Type 0 where
  pub sequence_fits : p.header.sequence_number < 2 ^ 32
  pub flags_fit : p.header.flags < 2 ^ 16
  pub window_fits : p.header.advertised_window < 2 ^ 16
  pub checksum_fits : length p.header.checksum ≡ 16
  pub length_fits : p.data_length < 2 ^ 16
  pub length_of_data : length p.data_bytes ≡ p.data_length

pack_bytes-length : (n : ℕ) (bs : List ℕ) → length bs ≡ n → pack_bytes n bs ≡ bs
unfolding pack_bytes
pack_bytes-length zero [] h = refl
pack_bytes-length zero (b ∷ bs) h = absurd (omega (arith, h))
pack_bytes-length (suc n) [] h = absurd (omega (arith, h))
pack_bytes-length (suc n) (b ∷ bs) h = rw (pack_bytes-length n bs (omega (arith, h))) refl

take-append : (n : ℕ) (xs ys : List ℕ) → length xs ≡ n → take n (xs ++ ys) ≡ xs
take-append zero [] ys h = refl
take-append zero (x ∷ xs) ys h = absurd (omega (arith, h))
take-append (suc n) [] ys h = absurd (omega (arith, h))
take-append (suc n) (x ∷ xs) ys h = rw (take-append n xs ys (omega (arith, h))) refl

drop-append : (n : ℕ) (xs ys : List ℕ) → length xs ≡ n → drop n (xs ++ ys) ≡ ys
drop-append zero [] ys h = refl
drop-append zero (x ∷ xs) ys h = absurd (omega (arith, h))
drop-append (suc n) [] ys h = absurd (omega (arith, h))
drop-append (suc n) (x ∷ xs) ys h = drop-append n xs ys (omega (arith, h))

-- The bytes of a header, in front of others.
abbrev wire : Header → List ℕ → List ℕ
wire h rest =
    h.sequence_number / 2 ^ 24
    ∷ h.sequence_number / 2 ^ 16 % 256
    ∷ h.sequence_number / 2 ^ 8 % 256
    ∷ h.sequence_number % 256
    ∷ h.flags / 256
    ∷ h.flags % 256
    ∷ h.advertised_window / 256
    ∷ h.advertised_window % 256
    ∷ (h.checksum ++ rest)

header_to_bytes_lem :
    (h : Header)
    → h.sequence_number < 2 ^ 32
    → h.flags < 2 ^ 16
    → h.advertised_window < 2 ^ 16
    → length h.checksum ≡ 16
    → (rest : List ℕ) → bind (header_to_bytes h) (λ bs. ok (bs ++ rest)) ≡ ok (wire h rest)
header_to_bytes_lem h hs hf hw hc rest =
    rw
      (
        lt→ltb h.sequence_number (2 ^ 32) hs,
        lt→ltb h.flags (2 ^ 16) hf,
        lt→ltb h.advertised_window (2 ^ 16) hw,
        pack_bytes-length 16 h.checksum hc,
      )
      refl

header_from_bytes_lem :
    (h : Header) (rest : List ℕ)
    → h.sequence_number < 2 ^ 32
    → length h.checksum ≡ 16
    → header_from_bytes (wire h rest) ≡ ok (h, rest)
header_from_bytes_lem h rest hs hc =
    let seq : h.sequence_number / 2 ^ 24 * 2 ^ 24
          + h.sequence_number / 2 ^ 16 % 256 * 2 ^ 16
          + h.sequence_number / 2 ^ 8 % 256 * 2 ^ 8
          + h.sequence_number % 256
        ≡ h.sequence_number =
      omega arith in
    let flg : h.flags / 256 * 256 + h.flags % 256 ≡ h.flags = omega arith in
    let win : h.advertised_window / 256 * 256 + h.advertised_window % 256 ≡ h.advertised_window =
      omega arith in
    rw
      (
        take-append 16 h.checksum rest hc,
        drop-append 16 h.checksum rest hc,
        (nat_eq_iff (length h.checksum) 16).1 hc,
        seq,
        flg,
        win,
      )
      refl

-- The bytes of a packet.
abbrev pub bytes_of : Packet → List ℕ
bytes_of p = wire p.header (p.data_length / 256 ∷ p.data_length % 256 ∷ p.data_bytes)

pub to_bytes-bytes_of : (p : Packet) → IsPacket p → to_bytes p ≡ ok (bytes_of p)
unfolding to_bytes
to_bytes-bytes_of p v =
    rw
      (
        lt→ltb p.header.sequence_number (2 ^ 32) v.sequence_fits,
        lt→ltb p.header.flags (2 ^ 16) v.flags_fit,
        lt→ltb p.header.advertised_window (2 ^ 16) v.window_fits,
        pack_bytes-length 16 p.header.checksum v.checksum_fits,
        lt→ltb p.data_length (2 ^ 16) v.length_fits,
      )
      refl

from_bytes-bytes_of :
    (p : Packet) (rest : List ℕ) → IsPacket p → from_bytes (bytes_of p ++ rest) ≡ ok (p, rest)
unfolding from_bytes
from_bytes-bytes_of p rest v =
    let len : p.data_length / 256 * 256 + p.data_length % 256 ≡ p.data_length = omega arith in
    rw append_assoc (
      rw
        (
          header_from_bytes_lem p.header
              (p.data_length / 256 ∷ p.data_length % 256 ∷ (p.data_bytes ++ rest)) v.sequence_fits
              v.checksum_fits,
          len,
          take-append p.data_length p.data_bytes rest v.length_of_data,
          drop-append p.data_length p.data_bytes rest v.length_of_data,
        )
        refl)

-- A packet whose fields fit their formats becomes bytes, and is read back from them, with whatever
-- follows them left over.
pub from_bytes-to_bytes :
    (p : Packet) (rest : List ℕ)
    → IsPacket p
    → bind (to_bytes p) (λ bs. from_bytes (bs ++ rest)) ≡ ok (p, rest)
from_bytes-to_bytes p rest v = rw (to_bytes-bytes_of p v) (from_bytes-bytes_of p rest v)
