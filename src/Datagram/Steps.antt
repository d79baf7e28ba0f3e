-- ===== src/Datagram/Steps.antt =====
-- can_datagram.c: the two loops of the reader, over the addresses and over the data.
use bootloader_proposal.Base.{
  ◌≢◌, ◌%◌, u8_mod, u16_mod, ==_refl, ne→==, ℕ, ◌+◌, ◌≤◌, ◌<◌, ◌≡◌, ◌∙◌, [], ◌∷◌, ◌++◌, set?-some,
  set, length-set, length, arith, Bytes, u32_mod, ◌^◌,
}
use bootloader_proposal.Datagram.{
  Datagram, state_dst, state_data_len, state_data, state_trailing, shift_in, input_byte, start,
}
use bootloader_proposal.Datagram.Writer.{word_byte}
use bootloader_proposal.Datagram.Quiet.{
  input_quiet, input_quiet-cons, not_complete_length, not_complete_data,
}
use bootloader_proposal.Datagram.Packet.{store}

-- Four bytes replace whatever the word held.
pub shift_in_word :
    (c w : ℕ)
    → w < u32_mod
    → shift_in
        (shift_in (shift_in (shift_in c (word_byte w 0)) (word_byte w 1)) (word_byte w 2))
        (word_byte w 3)
      ≡ w
shift_in_word c w h = omega arith

-- the reader behind the length of the address list
abbrev pub in_dst : Datagram → ℕ → ℕ → ℕ → Bytes → ℕ → Datagram
in_dst dt version crc len buf k = record (start dt) {
  protocol_version = version;
  crc = crc;
  crc_bytes_read = 4;
  destination_nodes_len = len;
  destination_nodes = buf;
  destination_nodes_read = k;
  reader_state = state_dst;
}

abbrev pub dst_at : Datagram → Bytes → ℕ → Datagram
dst_at dt buf k = record dt {
  reader_state = state_dst;
  destination_nodes = buf;
  destination_nodes_read = k;
}

abbrev pub in_data : Datagram → Bytes → ℕ → Datagram
in_data dt buf k = record dt { payload = buf; data_bytes_read = k; reader_state = state_data }

pub input-dst :
    (dt : Datagram) (y : ℕ) (ys rest buf : Bytes) (k : ℕ)
    → k + length (y ∷ ys) ≡ dt.destination_nodes_len
    → dt.destination_nodes_len < 2 ^ 8
    → dt.destination_nodes_len ≤ length buf
    → dt.data_length_bytes_read ≢ 4
    → input_quiet (dst_at dt buf k) ((y ∷ ys) ++ rest)
      ≡ input_quiet
          (record dt {
            reader_state = state_data_len;
            destination_nodes = store buf k (y ∷ ys);
            destination_nodes_read = dt.destination_nodes_len;
          })
          rest
unfolding input_byte
input-dst dt y [] rest buf k e small fits none_yet =
    let d = dst_at dt buf k in
    let last : (k + 1) % u8_mod ≡ dt.destination_nodes_len = omega arith in
    input_quiet-cons d y rest (not_complete_length d none_yet)
    ∙ rw (set?-some buf k y (omega arith), last, ==_refl)
input-dst dt y (z ∷ ys) rest buf k e small fits none_yet =
    let d = dst_at dt buf k in
    let next : (k + 1) % u8_mod ≡ k + 1 = omega arith in
    input_quiet-cons d y ((z ∷ ys) ++ rest) (not_complete_length d none_yet)
    ∙ rw
        (
          set?-some buf k y (omega arith),
          next,
          ne→== (k + 1) dt.destination_nodes_len (omega arith),
        )
        (input-dst dt z ys rest (set buf k y) (k + 1) (omega arith) small
          (omega (arith, length-set buf k y)) none_yet)

pub input-data :
    (dt : Datagram) (y : ℕ) (ys rest buf : Bytes) (k : ℕ)
    → k + length (y ∷ ys) ≡ dt.data_len
    → dt.data_len < 2 ^ 16
    → dt.data_len ≤ length buf
    → dt.data_len ≤ dt.data_buffer_size
    → input_quiet (in_data dt buf k) ((y ∷ ys) ++ rest)
      ≡ input_quiet
          (record dt {
            reader_state = state_trailing;
            payload = store buf k (y ∷ ys);
            data_bytes_read = dt.data_len;
          })
          rest
unfolding input_byte
input-data dt y [] rest buf k e small fits room =
    let d = in_data dt buf k in
    let last : (k + 1) % u16_mod ≡ dt.data_len = omega arith in
    input_quiet-cons d y rest (not_complete_data d (omega arith))
    ∙ rw (set?-some buf k y (omega arith), last, ==_refl)
input-data dt y (z ∷ ys) rest buf k e small fits room =
    let d = in_data dt buf k in
    let next : (k + 1) % u16_mod ≡ k + 1 = omega arith in
    input_quiet-cons d y ((z ∷ ys) ++ rest) (not_complete_data d (omega arith))
    ∙ rw
        (
          set?-some buf k y (omega arith),
          next,
          ne→== (k + 1) dt.data_len (omega arith),
          ne→== dt.data_buffer_size (k + 1) (omega arith),
        )
        (input-data dt z ys rest (set buf k y) (k + 1) (omega arith) small
          (omega (arith, length-set buf k y)) room)
