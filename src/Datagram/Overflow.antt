-- ===== src/Datagram/Overflow.antt =====
-- Address lists that do not fit the address buffer.
use bootloader_proposal.Base.{
  ℕ, ◌+◌, ◌%◌, ◌≤◌, ◌<◌, ◌≡◌, ◌≢◌, ◌⊎◌, ◌∙◌, none, [], ◌∷◌, ◌++◌, ne→==, ltb, set?, set?-some, set,
  length-set, length, u8_mod, u32_mod, be32, arith, Bytes, Bool-cases, inl, inr,
}
use bootloader_proposal.Datagram.{Datagram, input_bytes, start}
use bootloader_proposal.Datagram.Receive.{header_bytes}
use bootloader_proposal.Datagram.Steps.{in_dst, dst_at}

set?-none : (buf : Bytes) (i v : ℕ) → length buf ≤ i → set? buf i v ≡ none
set?-none buf i v h = ground arith

input-dst_overflow :
    (dt : Datagram) (ys buf : Bytes) (k : ℕ)
    → k ≤ length buf
    → length buf < u8_mod
    → length buf < k + length ys
    → (dt.destination_nodes_len ≡ 0) ⊎ (length buf < dt.destination_nodes_len)
    → input_bytes (dst_at dt buf k) ys ≡ none
unfolding input_bytes
input-dst_overflow dt [] buf k le small over long = absurd (omega arith)
input-dst_overflow dt (y ∷ ys) buf k le small over long = elim (Bool-cases (ltb k (length buf))) [
  | inr out ↦ rw (set?-none buf k y (ground arith))
  | inl in_range ↦
      let room : k < length buf = ground arith in
      let next : (k + 1) % u8_mod ≡ k + 1 = omega arith in
      let ne : k + 1 ≢ dt.destination_nodes_len = omega arith in
      rw (set?-some buf k y room, next, ne→== (k + 1) dt.destination_nodes_len ne)
        (input-dst_overflow dt ys (set buf k y) (k + 1) (omega (arith, length-set buf k y))
          (omega (arith, length-set buf k y)) (omega (arith, length-set buf k y))
          (omega (arith, length-set buf k y)))
]

-- The length byte of the address list is not checked against the address buffer: where it is
-- larger than the buffer, or zero, the reader goes on storing addresses, and writes outside the
-- buffer as soon as more address bytes have come than it has room for.
pub address_overflow :
    (dt : Datagram) (version crc len : ℕ) (ys : Bytes)
    → crc < u32_mod
    → length dt.destination_nodes < u8_mod
    → (len ≡ 0) ⊎ (length dt.destination_nodes < len)
    → length dt.destination_nodes < length ys
    → input_bytes (start dt) (version ∷ (be32 crc ++ (len ∷ ys))) ≡ none
address_overflow dt version crc len ys h small long over =
    header_bytes dt version crc len ys h
    ∙ input-dst_overflow (in_dst dt version crc len dt.destination_nodes 0) ys dt.destination_nodes
        0 (omega arith) small (omega arith) long
