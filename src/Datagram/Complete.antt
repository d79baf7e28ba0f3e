-- ===== src/Datagram/Complete.antt =====
-- When the reader is complete, and with what.
use bootloader_proposal.Base.{◌≡◌, refl, true, some, ◌++◌, ==_refl, length, Bytes}
use bootloader_proposal.Datagram.{Datagram, input_bytes, is_complete, start}
use bootloader_proposal.Datagram.Packet.{Packet, encode, IsSendable, length-store}
use bootloader_proposal.Datagram.Quiet.{
  input_bytes_of_quiet, input_bytes-append, input_bytes-trailing,
}
use bootloader_proposal.Datagram.Receive.{
  HasRoom, received, packet_of, packet_of-received, input_quiet-encode,
}

-- After `can_datagram_start`, whatever the datagram held before, the reader takes in the bytes of
-- a packet that fits the buffers without an access outside them. It is then complete and holds
-- that packet: version, CRC, addresses and data. Further bytes of the last frame are ignored, and
-- the buffers keep their sizes. The packet has an address and data, and its fields fit their places
-- on the wire.
pub receive-encode :
    (dt : Datagram) (p : Packet) (rest : Bytes)
    → IsSendable p
    → HasRoom dt p
    → (dt' : Datagram) × (input_bytes (start dt) (encode p ++ rest) ≡ some dt')
      × (is_complete dt' ≡ true)
      × (packet_of dt' ≡ p)
      × (length dt'.destination_nodes ≡ length dt.destination_nodes)
      × (length dt'.payload ≡ length dt.payload)
      × (dt'.data_buffer_size ≡ dt.data_buffer_size)
unfolding is_complete
receive-encode dt p rest s r = (
  received dt p,
  rw (input_bytes-append, input_bytes_of_quiet (encode p) (start dt) (input_quiet-encode dt p s r))
      (input_bytes-trailing (received dt p) rest refl),
  rw (==_refl),
  packet_of-received dt p r,
  length-store p.nodes dt.destination_nodes 0,
  length-store p.body dt.payload 0,
  refl,
)
