-- ===== src/Datagram/Writer.antt =====
-- can_datagram.c: `can_datagram_output_bytes`.
use bootloader_proposal.Base.{
  ℕ, zero, suc, ◌+◌, ◌-◌, ◌*◌, ◌/◌, ◌%◌, ◌^◌, Option, some, ◌==◌, if◌then◌else◌, ◌>>=◌, get_elem?,
  set?, Bytes, u8_mod, u16_mod,
}
use bootloader_proposal.Datagram.{
  State, Datagram, state_crc, state_data, state_data_len, state_dst, state_dst_len,
  state_protocol_version, state_trailing,
}

-- what one round of the loop in `can_datagram_output_bytes` does with `buffer[i]`
pub data Round : Type 0 where
  -- `return 0`
  finished : Round
  -- the byte is stored, and the call returns `i + 1`
  last : ℕ → Datagram → Round
  -- the byte is stored, and the loop goes on
  stored : ℕ → Datagram → Round
  -- no case of the `switch` applies
  skipped : Round

-- `x >> (24 - 8 * n)`, stored in a `char`
abbrev pub word_byte : ℕ → ℕ → ℕ
word_byte x n = x / 2 ^ (24 - 8 * n) % u8_mod

-- `case STATE_DATA`
unfoldable pub output_data : Datagram → Option Round
output_data dt =
    if dt.data_bytes_written == dt.data_len
    then some finished
    else get_elem? dt.payload dt.data_bytes_written >>= λ b.
        let n = (dt.data_bytes_written + 1) % u16_mod in
        let dt' = record dt { data_bytes_written = n } in
        some (if n == dt.data_len then last b dt' else stored b dt')

-- the cases of `can_datagram_output_bytes`
unfoldable pub output_in : State → Datagram → Option Round
unfolding output_data
output_in state_protocol_version dt =
    some (stored (dt.protocol_version % u8_mod) (record dt { writer_state = state_crc }))
output_in state_crc dt =
    let n = dt.crc_bytes_written + 1 in
    some (
      stored (word_byte dt.crc dt.crc_bytes_written) (record dt {
        crc_bytes_written = n;
        writer_state = if n == 4 then state_dst_len else dt.writer_state;
      }))
output_in state_dst_len dt =
    some (stored dt.destination_nodes_len (record dt { writer_state = state_dst }))
output_in state_dst dt =
    let n = (dt.destination_nodes_written + 1) % u8_mod in
    get_elem? dt.destination_nodes dt.destination_nodes_written >>= λ b. some (
      stored b (record dt {
        destination_nodes_written = n;
        writer_state = if n == dt.destination_nodes_len then state_data_len else dt.writer_state;
      }))
output_in state_data_len dt =
    let n = dt.data_length_bytes_written + 1 in
    some (
      stored (word_byte dt.data_len dt.data_length_bytes_written) (record dt {
        data_length_bytes_written = n;
        writer_state = if n == 4 then state_data else dt.writer_state;
      }))
output_in state_data dt = output_data dt
output_in state_trailing dt = some skipped

-- What a call leaves: the value returned, the buffer and the datagram.
pub record Output : Type 0 where
  pub count : ℕ
  pub buffer : Bytes
  pub datagram : Datagram

-- the loop of `can_datagram_output_bytes` at round `i`, with `left` rounds to go
unfoldable pub output_from : ℕ → ℕ → Bytes → Datagram → Option Output
unfolding output_in
output_from zero i buf dt = some (record { count = i; buffer = buf; datagram = dt })
output_from (suc left) i buf dt = output_in dt.writer_state dt >>= elim [
  | finished ↦ some (record { count = 0; buffer = buf; datagram = dt })
  | last b dt' ↦
      set? buf i b >>= λ buf'. some (record { count = i + 1; buffer = buf'; datagram = dt' })
  | stored b dt' ↦ set? buf i b >>= λ buf'. output_from left (i + 1) buf' dt'
  | skipped ↦ output_from left (i + 1) buf dt
]

unfoldable pub output_bytes : Datagram → Bytes → ℕ → Option Output
unfolding output_from
output_bytes dt buffer buffer_len = output_from buffer_len 0 buffer dt
