-- ===== src/Datagram.antt =====
-- can_datagram.h and can_datagram.c: the datagram, its byte-wise reader and its checksum.
-- Datagram/Writer has its writer.
-- A buffer is the list of its bytes, `none` is an access outside one, and a null pointer is a
-- buffer of no bytes. CRC/crc32 is a library: its function is a parameter.
pub mod Writer
pub mod Packet
pub mod Check
pub mod Complete
pub mod Overflow
pub mod Quiet
pub mod Steps
pub mod Receive
pub mod Safety
pub mod Sizes
pub mod Pending
mod Rounds
pub mod Send
use bootloader_proposal.Base.{
  ℕ, zero, suc, ◌+◌, ◌-◌, ◌*◌, ◌/◌, ◌%◌, ◌^◌, Bool, true, false, not, ◌&&◌, Option, some, [], ◌∷◌,
  ◌==◌, if◌then◌else◌, ◌>>=◌, get_elem?, set?, first?, Bytes, u8_mod, u16_mod, u32_mod, be32,
}

-- the `enum` of reader and writer states
pub data State : Type 0 where
  state_protocol_version state_crc state_dst_len state_dst : State
  state_data_len state_data state_trailing : State

-- `can_datagram_t`; `payload` is its field `data`
pub record Datagram : Type 0 where
  pub protocol_version : ℕ
  pub crc : ℕ
  pub destination_nodes_len : ℕ
  pub destination_nodes : Bytes
  pub data_len : ℕ
  pub payload : Bytes
  pub crc_bytes_read : ℕ
  pub crc_bytes_written : ℕ
  pub data_length_bytes_read : ℕ
  pub data_length_bytes_written : ℕ
  pub destination_nodes_read : ℕ
  pub destination_nodes_written : ℕ
  pub data_bytes_read : ℕ
  pub data_bytes_written : ℕ
  pub data_buffer_size : ℕ
  pub reader_state : State
  pub writer_state : State

abbrev pub can_datagram_version : ℕ
can_datagram_version = 1

abbrev pub id_start_mask : ℕ
id_start_mask = 2 ^ 7

unfoldable pub init : Datagram
init = record {
  protocol_version = can_datagram_version;
  crc = 0;
  destination_nodes_len = 0;
  destination_nodes = [];
  data_len = 0;
  payload = [];
  crc_bytes_read = 0;
  crc_bytes_written = 0;
  data_length_bytes_read = 0;
  data_length_bytes_written = 0;
  destination_nodes_read = 0;
  destination_nodes_written = 0;
  data_bytes_read = 0;
  data_bytes_written = 0;
  data_buffer_size = 0;
  reader_state = state_protocol_version;
  writer_state = state_protocol_version;
}

unfoldable pub set_address_buffer : Datagram → Bytes → Datagram
set_address_buffer dt buf = record dt { destination_nodes = buf }

-- `_data_buffer_size` is a `uint16_t`.
unfoldable pub set_data_buffer : Datagram → Bytes → ℕ → Datagram
set_data_buffer dt buf buf_size = record dt { payload = buf; data_buffer_size = buf_size % u16_mod }

-- `(x << 8) | val` in a `uint32_t`, where `val` is a byte: the bits do not overlap
abbrev pub shift_in : ℕ → ℕ → ℕ
shift_in x val = x * 2 ^ 8 % u32_mod + val

-- the cases of `can_datagram_input_byte`
unfoldable pub input_in : State → Datagram → ℕ → Option Datagram
input_in state_protocol_version dt val =
    some (record dt { protocol_version = val; reader_state = state_crc })
input_in state_crc dt val =
    let n = dt.crc_bytes_read + 1 in
    some (record dt {
      crc = shift_in dt.crc val;
      crc_bytes_read = n;
      reader_state = if n == 4 then state_dst_len else dt.reader_state;
    })
input_in state_dst_len dt val =
    some (record dt { destination_nodes_len = val; reader_state = state_dst })
input_in state_dst dt val =
    let n = (dt.destination_nodes_read + 1) % u8_mod in
    set? dt.destination_nodes dt.destination_nodes_read val >>= λ buf. some (record dt {
      destination_nodes = buf;
      destination_nodes_read = n;
      reader_state = if n == dt.destination_nodes_len then state_data_len else dt.reader_state;
    })
input_in state_data_len dt val =
    let n = dt.data_length_bytes_read + 1 in
    some (record dt {
      data_len = shift_in dt.data_len val;
      data_length_bytes_read = n;
      reader_state = if n == 4 then state_data else dt.reader_state;
    })
input_in state_data dt val =
    let n = (dt.data_bytes_read + 1) % u16_mod in
    set? dt.payload dt.data_bytes_read val >>= λ buf. some (record dt {
      payload = buf;
      data_bytes_read = n;
      reader_state =
          if n == dt.data_len
          then state_trailing
          else if dt.data_buffer_size == n
          then state_trailing
          else dt.reader_state;
    })
input_in state_trailing dt val = some dt

unfoldable pub input_byte : Datagram → ℕ → Option Datagram
unfolding input_in
input_byte dt val = input_in dt.reader_state dt val

-- the loop over a frame's bytes in `bootloader_main`
unfoldable pub input_bytes : Datagram → Bytes → Option Datagram
unfolding input_byte
input_bytes dt [] = some dt
input_bytes dt (b ∷ bs) = input_byte dt b >>= λ dt'. input_bytes dt' bs

-- `_reader_state > 0`
abbrev pub is_started : State → Bool
is_started state_protocol_version = false
is_started _ = true

unfoldable pub is_complete : Datagram → Bool
is_complete dt =
    is_started dt.reader_state
    && dt.data_bytes_read == dt.data_len
    && dt.data_length_bytes_read == 4

unfoldable pub start : Datagram → Datagram
start dt = record dt {
  reader_state = state_protocol_version;
  crc_bytes_read = 0;
  destination_nodes_read = 0;
  data_bytes_read = 0;
  data_length_bytes_read = 0;
}

unfoldable pub id_start_is_set : ℕ → Bool
id_start_is_set id = not (id / id_start_mask % 2 == 0)

module _ (crc32 : ℕ → Bytes → ℕ) where
  unfoldable pub compute_crc : Datagram → Option ℕ
  compute_crc dt = first? dt.destination_nodes_len dt.destination_nodes >>= λ nodes.
      first? dt.data_len dt.payload >>= λ bytes.
      let crc = crc32 0 (dt.destination_nodes_len ∷ []) in
      let crc = crc32 crc nodes in let crc = crc32 crc (be32 dt.data_len) in some (crc32 crc bytes)

  unfoldable pub is_valid : Datagram → Option Bool
  unfolding compute_crc
  is_valid dt =
      compute_crc dt >>= λ crc. some (crc == dt.crc && dt.protocol_version == can_datagram_version)
