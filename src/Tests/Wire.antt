-- ===== src/Tests/Wire.antt =====
-- Runs of the theorems on datagrams.
use bootloader_proposal.Base.{
  are_bytes→AreBytes, ◌⊎◌, min, ◌≡◌, inr, refl, true, none, some, [], ◌∷◌, ◌++◌, ◌==◌, ◌&&◌,
  replicate, take, drop, length, arith, Bytes, be32, ap,
}
use bootloader_proposal.Datagram
use bootloader_proposal.Datagram.{
  Datagram, can_datagram_version, input_bytes, is_complete, is_valid, set_address_buffer,
  set_data_buffer, start, state_data, state_protocol_version,
}
use bootloader_proposal.Datagram.Writer.{Output, output_bytes}
use bootloader_proposal.Datagram.Check.{is_valid-encode}
use bootloader_proposal.Datagram.Complete.{receive-encode}
use bootloader_proposal.Datagram.Overflow.{address_overflow}
use bootloader_proposal.Datagram.Packet.{Packet, encode}
use bootloader_proposal.Datagram.Pending.{Sends, unsent}
use bootloader_proposal.Datagram.Receive.{packet_of}
use bootloader_proposal.Datagram.Safety.{IsSafe, IsBad, input_bytes-IsSafe, start-IsSafe}
use bootloader_proposal.Datagram.Send.{output_bytes_lem}
use bootloader_proposal.Tests.Toy.{sum-append, sum}

-- two addresses and three bytes of data
abbrev packet : Packet
packet = record { version = 1; crc = 0x01020304; nodes = 5 ∷ 9 ∷ []; body = 10 ∷ 11 ∷ 12 ∷ [] }

-- The reader has buffers of 4 and 6 bytes.
abbrev reader : Datagram
reader = set_data_buffer (set_address_buffer Datagram.init (replicate 4 0)) (replicate 6 0) 6

receive-encode_example :
    (dt' : Datagram) × (input_bytes (start reader) (encode packet ++ 77 ∷ []) ≡ some dt')
    × (is_complete dt' ≡ true)
    × (packet_of dt' ≡ packet)
    × (length dt'.destination_nodes ≡ length reader.destination_nodes)
    × (length dt'.payload ≡ length reader.payload)
    × (dt'.data_buffer_size ≡ reader.data_buffer_size)
unfolding set_address_buffer set_data_buffer Datagram.init
receive-encode_example =
    receive-encode reader packet (77 ∷ [])
      (record {
        version_byte = omega arith;
        crc_word = omega arith;
        nodes_pos = omega arith;
        nodes_byte = omega arith;
        body_pos = omega arith;
        body_half = omega arith;
      })
      (record { nodes_fit = omega arith; body_fits = omega arith; size_fits = omega arith })

-- a datagram to send, with a stale byte behind its data
abbrev writer : Datagram
writer =
    record (set_data_buffer (set_address_buffer Datagram.init (5 ∷ [])) (10 ∷ 11 ∷ 99 ∷ []) 2) {
      destination_nodes_len = 1;
      data_len = 2;
      crc = 1000;
    }

writer-Sends : Sends writer
unfolding set_address_buffer set_data_buffer Datagram.init
writer-Sends = record {
  nodes_pos = omega arith;
  nodes_byte = omega arith;
  nodes_there = omega arith;
  body_pos = omega arith;
  body_half = omega arith;
  body_there = omega arith;
  progress = (refl, refl, refl, refl);
}

is_valid-encode_example :
    is_valid sum writer
    ≡ some (
        sum 0 (drop 5 (encode (packet_of writer))) == writer.crc
        && writer.protocol_version == can_datagram_version)
unfolding set_address_buffer set_data_buffer Datagram.init
is_valid-encode_example =
    is_valid-encode sum sum-append writer (record { nodes_in = omega arith; body_in = omega arith })

abbrev buffer8 : Bytes
buffer8 = replicate 8 0

output_bytes_lem_example :
    (o : Output) × (output_bytes writer (buffer8) 8 ≡ some o)
    × (o.count ≡ min 8 (length (unsent writer)))
    × (take o.count o.buffer ≡ take 8 (unsent writer))
    × (length o.buffer ≡ length (buffer8))
    × (unsent o.datagram ≡ drop 8 (unsent writer))
    × Sends o.datagram
unfolding set_address_buffer set_data_buffer Datagram.init
output_bytes_lem_example =
    output_bytes_lem writer (buffer8) 8 writer-Sends (λ e. omega (arith, ap length e)) (omega arith)

-- the same datagram when all is sent
abbrev sent_writer : Datagram
sent_writer = record writer {
  crc_bytes_written = 4;
  destination_nodes_written = 1;
  data_length_bytes_written = 4;
  data_bytes_written = 2;
  writer_state = state_data;
}

abbrev no_data : Datagram
no_data = record writer {
  writer_state = state_protocol_version;
  crc_bytes_written = 0;
  destination_nodes_written = 0;
  data_length_bytes_written = 0;
  data_bytes_written = 0;
  destination_nodes_len = 1;
  destination_nodes = 5 ∷ [];
  data_len = 0;
}

address_overflow_example :
    input_bytes (start reader) (1 ∷ (be32 7 ++ (6 ∷ 1 ∷ 2 ∷ 3 ∷ 4 ∷ 5 ∷ []))) ≡ none
unfolding set_address_buffer set_data_buffer Datagram.init
address_overflow_example =
    address_overflow reader 1 7 6 (1 ∷ 2 ∷ 3 ∷ 4 ∷ 5 ∷ []) (omega arith) (omega arith)
      (inr (omega arith)) (omega arith)

-- the buffers of bootloader.c on motor-board-v1
abbrev from_start : Datagram
from_start =
    start
      (set_data_buffer (set_address_buffer Datagram.init (replicate 128 0)) (replicate 2176 0) 2176)

-- 129 addresses
abbrev too_many : Bytes
too_many = 1 ∷ 0 ∷ 0 ∷ 0 ∷ 0 ∷ 129 ∷ 3 ∷ 4 ∷ []

from_start-IsSafe : IsSafe from_start
from_start-IsSafe = start-IsSafe (replicate 128 0) (replicate 2176 0) (omega arith) (omega arith)

input_bytes-IsSafe_example :
    ((d : Datagram) × (input_bytes from_start too_many ≡ some d) × IsSafe d)
    ⊎ ((read rest : Bytes) × (d : Datagram) × (too_many ≡ read ++ rest)
        × (input_bytes from_start read ≡ some d)
        × IsBad d)
input_bytes-IsSafe_example =
    input_bytes-IsSafe too_many from_start (are_bytes→AreBytes too_many refl) from_start-IsSafe

-- Attempt 2 is the first that succeeds.
