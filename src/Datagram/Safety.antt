-- ===== src/Datagram/Safety.antt =====
-- The reader's accesses and its buffers.
use bootloader_proposal.Base.{
  ℕ, ◌≤◌, ◌<◌, ◌≡◌, ◌⊎◌, inl, inr, refl, ap, ◌&&◌, ltb, leb, Bool-cases, AreBytes, some, [], ◌∷◌,
  ◌++◌, set?-some, length-set, length, u8_mod, u16_mod, arith, Bytes,
}
use bootloader_proposal.Datagram.{
  Datagram, State, state_protocol_version, state_crc, state_dst_len, state_dst, state_data_len,
  state_data, state_trailing, input_byte, input_bytes, set_address_buffer, set_data_buffer, init,
  start,
}

-- Until the data is read, its index is inside the buffer.
abbrev pub DataFits : State → Datagram → Type 0
DataFits state_protocol_version dt = dt.data_bytes_read < dt.data_buffer_size
DataFits state_crc dt = dt.data_bytes_read < dt.data_buffer_size
DataFits state_dst_len dt = dt.data_bytes_read < dt.data_buffer_size
DataFits state_dst dt = dt.data_bytes_read < dt.data_buffer_size
DataFits state_data_len dt = dt.data_bytes_read < dt.data_buffer_size
DataFits state_data dt = dt.data_bytes_read < dt.data_buffer_size
DataFits state_trailing dt = Unit {0}

-- While addresses are read, their number is that of the length byte, and they fit the buffer.
abbrev pub AddressesFit : State → Datagram → Type 0
AddressesFit state_protocol_version dt = dt.destination_nodes_read ≡ 0
AddressesFit state_crc dt = dt.destination_nodes_read ≡ 0
AddressesFit state_dst_len dt = dt.destination_nodes_read ≡ 0
AddressesFit state_dst dt =
    (dt.destination_nodes_read < dt.destination_nodes_len)
    × (dt.destination_nodes_len ≤ length dt.destination_nodes)
    × (dt.destination_nodes_len < u8_mod)
AddressesFit state_data_len dt = Unit {0}
AddressesFit state_data dt = Unit {0}
AddressesFit state_trailing dt = Unit {0}

-- The data buffer has the size that the datagram was told, and both indices are inside their buffers.
pub record IsSafe (dt : Datagram) : Type 0 where
  pub addresses : AddressesFit dt.reader_state dt
  pub size_there : dt.data_buffer_size ≤ length dt.payload
  pub size_half : dt.data_buffer_size < u16_mod
  pub index : DataFits dt.reader_state dt

-- A length byte has been read that is zero or more than the size of the address buffer.
pub record IsBad (dt : Datagram) : Type 0 where
  pub state : dt.reader_state ≡ state_dst
  pub address_length :
      (dt.destination_nodes_len ≡ 0) ⊎ (length dt.destination_nodes < dt.destination_nodes_len)

abbrev SafeStep : Datagram → ℕ → Type 0
SafeStep dt b = (d : Datagram) × (input_byte dt b ≡ some d) × (IsSafe d ⊎ IsBad d)

length_byte :
    (dt : Datagram) (b : ℕ)
    → b < u8_mod
    → IsSafe (record dt { reader_state = state_dst_len })
    → SafeStep (record dt { reader_state = state_dst_len }) b
unfolding input_byte
length_byte dt b byte h = elim (Bool-cases (ltb 0 b && leb b (length dt.destination_nodes))) [
  | inl good ↦ (
    _,
    refl,
    inl (record {
      addresses = (ground (arith, good, h.addresses), ground (arith, good), byte);
      size_there = h.size_there;
      size_half = h.size_half;
      index = h.index;
    }),
  )
  | inr bad ↦ (_, refl, inr (record { state = refl; address_length = ground (arith, bad) }))
]

safe_in :
    (s : State) (dt : Datagram) (b : ℕ)
    → b < u8_mod
    → IsSafe (record dt { reader_state = s })
    → SafeStep (record dt { reader_state = s }) b
unfolding input_byte
safe_in state_protocol_version dt b byte h = (_, refl, inl (ground arith))
safe_in state_crc dt b byte h = (_, refl, inl (ground arith))
safe_in state_dst_len dt b byte h = length_byte dt b byte h
safe_in state_dst dt b byte h =
    rw (set?-some dt.destination_nodes dt.destination_nodes_read b (omega (arith, h.addresses)))
      (_, refl, inl (ground (arith, length-set dt.destination_nodes dt.destination_nodes_read b)))
safe_in state_data_len dt b byte h = (_, refl, inl (ground arith))
safe_in state_data dt b byte h =
    rw (set?-some dt.payload dt.data_bytes_read b (omega arith))
      (_, refl, inl (ground (arith, length-set dt.payload dt.data_bytes_read b)))
safe_in state_trailing dt b byte h = (_, refl, inl h)

-- Whatever bytes come, in whatever state, the reader makes no access outside its buffers, or it has
-- read some of the bytes without such an access, up to a length byte of the addresses that is zero or
-- more than the size of the address buffer. The data buffer has the size that was declared.
pub input_bytes-IsSafe :
    (bs : Bytes) (dt : Datagram)
    → AreBytes bs
    → IsSafe dt
    → ((d : Datagram) × (input_bytes dt bs ≡ some d) × IsSafe d)
      ⊎ ((read rest : Bytes) × (d : Datagram) × (bs ≡ read ++ rest)
          × (input_bytes dt read ≡ some d)
          × IsBad d)
unfolding input_bytes
input_bytes-IsSafe [] dt bytes h = inl (dt, refl, h)
input_bytes-IsSafe (b ∷ bs) dt bytes h =
    let (d, one, next) = safe_in dt.reader_state dt b bytes.0 h in
    elim next [
      | inr bad ↦ inr (b ∷ [], bs, d, refl, rw one refl, bad)
      | inl safe ↦ elim (input_bytes-IsSafe bs d bytes.1 safe) [
        | inl (d', ran, safe') ↦ inl (d', rw one ran, safe')
        | inr (read, rest, d', split, ran, bad) ↦
            inr (b ∷ read, rest, d', ap (λ xs. b ∷ xs) split, rw one ran, bad)
      ]
    ]

-- A datagram that is set up with a data buffer of its declared size is safe to read bytes from after
-- `can_datagram_start`.
pub start-IsSafe :
    (addresses bytes : Bytes)
    → 0 < length bytes
    → length bytes < u16_mod
    → IsSafe (start (set_data_buffer (set_address_buffer init addresses) bytes (length bytes)))
unfolding start set_data_buffer set_address_buffer init
start-IsSafe addresses bytes pos small = ground arith
