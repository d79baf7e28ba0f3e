-- ===== src/Datagram/Pending.antt =====
-- The bytes that the writer has still to send, in each of its states.
use bootloader_proposal.Base.{
  ◌%◌, ◌^◌, ◌≤◌, ◌<◌, ◌≡◌, [], ◌∷◌, ◌++◌, length, take, drop, Bytes, be32, u8_mod,
}
use bootloader_proposal.Datagram.{
  Datagram, State, state_protocol_version, state_crc, state_dst_len, state_dst, state_data_len,
  state_data, state_trailing,
}

-- the addresses and the data that the writer sends
abbrev pub nodes_of : Datagram → Bytes
nodes_of dt = take dt.destination_nodes_len dt.destination_nodes

abbrev pub body_of : Datagram → Bytes
body_of dt = take dt.data_len dt.payload

-- What is left to send in each state.
abbrev pub pending : State → Datagram → Bytes
pending state_data dt = drop dt.data_bytes_written (body_of dt)
pending state_data_len dt = drop dt.data_length_bytes_written (be32 dt.data_len) ++ body_of dt
pending state_dst dt =
    drop dt.destination_nodes_written (nodes_of dt) ++ (be32 dt.data_len ++ body_of dt)
pending state_dst_len dt =
    dt.destination_nodes_len ∷ (nodes_of dt ++ (be32 dt.data_len ++ body_of dt))
pending state_crc dt =
    drop dt.crc_bytes_written (be32 dt.crc)
    ++ (dt.destination_nodes_len ∷ (nodes_of dt ++ (be32 dt.data_len ++ body_of dt)))
pending state_protocol_version dt =
    (dt.protocol_version % u8_mod)
    ∷ (be32 dt.crc
        ++ (dt.destination_nodes_len ∷ (nodes_of dt ++ (be32 dt.data_len ++ body_of dt))))
pending state_trailing dt = []

-- The counters of the parts that are still to come are zero.
abbrev pub Progress : State → Datagram → Type 0
Progress state_data dt = dt.data_bytes_written ≤ dt.data_len
Progress state_data_len dt = (dt.data_length_bytes_written < 4) × (dt.data_bytes_written ≡ 0)
Progress state_dst dt =
    (dt.destination_nodes_written < dt.destination_nodes_len)
    × (dt.data_length_bytes_written ≡ 0)
    × (dt.data_bytes_written ≡ 0)
Progress state_dst_len dt =
    (dt.destination_nodes_written ≡ 0)
    × (dt.data_length_bytes_written ≡ 0)
    × (dt.data_bytes_written ≡ 0)
Progress state_crc dt =
    (dt.crc_bytes_written < 4)
    × (dt.destination_nodes_written ≡ 0)
    × (dt.data_length_bytes_written ≡ 0)
    × (dt.data_bytes_written ≡ 0)
Progress state_protocol_version dt =
    (dt.crc_bytes_written ≡ 0)
    × (dt.destination_nodes_written ≡ 0)
    × (dt.data_length_bytes_written ≡ 0)
    × (dt.data_bytes_written ≡ 0)
Progress state_trailing dt = ⊥

-- The lists are there, not empty, and small enough for the counters.
pub record Sends (dt : Datagram) : Type 0 where
  pub nodes_pos : 0 < dt.destination_nodes_len
  pub nodes_byte : dt.destination_nodes_len < 2 ^ 8
  pub nodes_there : dt.destination_nodes_len ≤ length dt.destination_nodes
  pub body_pos : 0 < dt.data_len
  pub body_half : dt.data_len < 2 ^ 16
  pub body_there : dt.data_len ≤ length dt.payload
  pub progress : Progress dt.writer_state dt

abbrev pub unsent : Datagram → Bytes
unsent dt = pending dt.writer_state dt
