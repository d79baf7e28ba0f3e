-- ===== src/Bootloader/Frames.antt =====
-- The frames of a datagram, and the datagram that `return_datagram` sets up.
use bootloader_proposal.Base.{
  ℕ, ◌+◌, ◌^◌, ◌≤◌, ◌<◌, ◌≡◌, ◌≢◌, ◌⊎◌, inl, inr, refl, ap, Bool, true, false, some, List, [], ◌∷◌,
  if◌then◌else◌, length, take, drop, length-take, arith, Bytes,
}
use bootloader_proposal.Can.{Frame, Bus}
use bootloader_proposal.Datagram
use bootloader_proposal.Datagram.{
  Datagram, compute_crc, set_address_buffer, set_data_buffer, state_protocol_version,
}
use bootloader_proposal.Datagram.Writer.{Output}
use bootloader_proposal.Datagram.Check.{packet_crc, compute_crc-packet_of}
use bootloader_proposal.Datagram.Packet.{Packet, encode}
use bootloader_proposal.Datagram.Pending.{Sends, unsent}
use bootloader_proposal.Datagram.Receive.{packet_of}
use bootloader_proposal.Bootloader.{with_start_bit, reply_datagram}

-- The bytes of a datagram in frames of eight, the last one shorter. The first frame has the start
-- bit in its identifier, the others have not.
pub data Frames (source_id : ℕ) : Bool → Bytes → List Frame → Type 0 where
  nil : {first : Bool} → Frames source_id first [] []
  frame :
      {first : Bool} {bs : Bytes} {fs : List Frame} {f : Frame}
      → bs ≢ []
      → f.id ≡ (if first then with_start_bit source_id else source_id)
      → f.bytes ≡ take 8 bs
      → Frames source_id false (drop 8 bs) fs
      → Frames source_id first bs (f ∷ fs)

-- No attempt to send fails from now on.
abbrev pub AllSent : Bus → Type 0
AllSent b = (i : ℕ) → b.attempts ≤ i → b.txok i ≡ true

pub pos→ne_nil : (xs : Bytes) → 0 < length xs → xs ≢ []
pos→ne_nil xs h e = omega (arith, ap length e)

pub empty_or_more : (xs : Bytes) → (xs ≡ []) ⊎ (0 < length xs)
empty_or_more [] = inl refl
empty_or_more (x ∷ xs) = inr (omega arith)

abbrev pub frame_of : ℕ → Bool → Output → Frame
frame_of source_id first o = record {
  id = if first then with_start_bit source_id else source_id;
  bytes = take o.count o.buffer;
}

-- the datagram that answers with the first `len` bytes of a buffer
unfoldable pub reply_packet : (ℕ → Bytes → ℕ) → ℕ → Bytes → ℕ → Packet
reply_packet crc32 dest_id bytes len =
    let p : Packet = record { version = 1; crc = 0; nodes = dest_id ∷ []; body = take len bytes } in
    record p { crc = packet_crc crc32 p }

-- what the CRC is computed of
abbrev reply_fields : ℕ → Bytes → ℕ → Datagram
reply_fields dest_id bytes len =
    record (set_data_buffer (set_address_buffer Datagram.init (dest_id ∷ [])) bytes len) {
      destination_nodes_len = 1;
      data_len = len;
    }

reply_datagram-some :
    (crc32 : ℕ → Bytes → ℕ) (dest_id : ℕ) (bytes : Bytes) (len : ℕ)
    → len ≤ length bytes
    → let dt = reply_fields dest_id bytes len in
      reply_datagram crc32 dest_id bytes len
      ≡ some (record dt { crc = packet_crc crc32 (packet_of dt) })
unfolding reply_datagram set_address_buffer set_data_buffer Datagram.init
reply_datagram-some crc32 dest_id bytes len there = rw (
    compute_crc-packet_of crc32 (reply_fields dest_id bytes len)
      (record { nodes_in = omega arith; body_in = there }))

pub length-encode :
    (crc32 : ℕ → Bytes → ℕ) (dest_id : ℕ) (bytes : Bytes) (len : ℕ)
    → len ≤ length bytes
    → length (encode (reply_packet crc32 dest_id bytes len)) ≡ len + 11
unfolding encode reply_packet
length-encode crc32 dest_id bytes len there = omega (arith, length-take len bytes)

pub reply_datagram-unsent :
    (crc32 : ℕ → Bytes → ℕ) (dest_id : ℕ) (bytes : Bytes) (len : ℕ)
    → 0 < len
    → len < 2 ^ 16
    → len ≤ length bytes
    → (dt : Datagram) × (reply_datagram crc32 dest_id bytes len ≡ some dt)
      × Sends dt
      × (unsent dt ≡ encode (reply_packet crc32 dest_id bytes len))
unfolding reply_packet encode packet_crc set_address_buffer set_data_buffer Datagram.init
reply_datagram-unsent crc32 dest_id bytes len pos half there =
    let size : length (take len bytes) ≡ len = omega (arith, length-take len bytes) in
    (
      _,
      reply_datagram-some crc32 dest_id bytes len there,
      record {
        nodes_pos = omega arith;
        nodes_byte = omega arith;
        nodes_there = omega arith;
        body_pos = pos;
        body_half = half;
        body_there = there;
        progress = (refl, refl, refl, refl);
      },
      rw size,
    )
