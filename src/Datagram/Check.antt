-- ===== src/Datagram/Check.antt =====
-- The CRC over a datagram and the validity test, in terms of the packet that the datagram holds.
use bootloader_proposal.Base.{
  ℕ, ◌≤◌, ◌≡◌, some, ap, ◌∙◌, [], ◌∷◌, ◌++◌, drop, ◌==◌, ◌&&◌, first?-some, length, take,
  length-take, arith, Bytes, be32,
}
use bootloader_proposal.Datagram.{Datagram, compute_crc, is_valid, can_datagram_version}
use bootloader_proposal.Datagram.Packet.{Packet, encode}
use bootloader_proposal.Datagram.Receive.{packet_of}

-- The counted bytes are in the buffers.
pub record IsBuffered (dt : Datagram) : Type 0 where
  pub nodes_in : dt.destination_nodes_len ≤ length dt.destination_nodes
  pub body_in : dt.data_len ≤ length dt.payload

module _ (crc32 : ℕ → Bytes → ℕ) where
  -- the CRC32 of what is behind the CRC field, part by part
  unfoldable pub packet_crc : Packet → ℕ
  packet_crc p =
      crc32 (crc32 (crc32 (crc32 0 (length p.nodes ∷ [])) p.nodes) (be32 (length p.body))) p.body

  -- `can_datagram_compute_crc` stays inside the buffers, and is the CRC of the packet.
  pub compute_crc-packet_of :
      (dt : Datagram) → IsBuffered dt → compute_crc crc32 dt ≡ some (packet_crc (packet_of dt))
  unfolding compute_crc packet_crc
  compute_crc-packet_of dt h =
      let nodes : length (take dt.destination_nodes_len dt.destination_nodes)
          ≡ dt.destination_nodes_len =
        omega (arith, length-take dt.destination_nodes_len dt.destination_nodes, h.nodes_in) in
      let body : length (take dt.data_len dt.payload) ≡ dt.data_len =
        omega (arith, length-take dt.data_len dt.payload, h.body_in) in
      rw (
        first?-some dt.destination_nodes_len dt.destination_nodes h.nodes_in,
        first?-some dt.data_len dt.payload h.body_in,
        nodes,
        body,
      )

  -- Where the counted bytes are in the buffers, `can_datagram_is_valid` makes no access outside
  -- them, and is true just if the CRC of the packet is the one received and the version is
  -- the supported one.
  pub is_valid-packet_of :
      (dt : Datagram)
      → IsBuffered dt
      → is_valid crc32 dt
        ≡ some (packet_crc (packet_of dt) == dt.crc && dt.protocol_version == can_datagram_version)
  unfolding is_valid
  is_valid-packet_of dt h = rw (compute_crc-packet_of dt h)

  -- the CRC over the bytes of the wire behind the CRC field, where the CRC of a part goes on from the
  -- one before
  packet_crc-encode :
      ((c : ℕ) (xs ys : Bytes) → crc32 (crc32 c xs) ys ≡ crc32 c (xs ++ ys))
      → (p : Packet) → packet_crc p ≡ crc32 0 (drop 5 (encode p))
  unfolding packet_crc encode
  packet_crc-encode chains p =
      chains (crc32 (crc32 0 (length p.nodes ∷ [])) p.nodes) (be32 (length p.body)) p.body
      ∙ chains (crc32 0 (length p.nodes ∷ [])) p.nodes (be32 (length p.body) ++ p.body)
      ∙ chains 0 (length p.nodes ∷ []) (p.nodes ++ (be32 (length p.body) ++ p.body))

  -- Where the counted bytes are in the buffers, `can_datagram_is_valid` makes no access outside them. It
  -- is true just if the CRC32 of the bytes that the datagram has on the wire, from the sixth on, is the
  -- one received, and the version is the supported one. The CRC of one string of bytes, continued with
  -- another, is the CRC of both.
  pub is_valid-encode :
      ((c : ℕ) (xs ys : Bytes) → crc32 (crc32 c xs) ys ≡ crc32 c (xs ++ ys))
      → (dt : Datagram) → IsBuffered dt
      → is_valid crc32 dt
        ≡ some (
            crc32 0 (drop 5 (encode (packet_of dt))) == dt.crc
            && dt.protocol_version == can_datagram_version)
  is_valid-encode chains dt h =
      is_valid-packet_of dt h
      ∙ ap (λ c. some (c == dt.crc && dt.protocol_version == can_datagram_version))
          (packet_crc-encode chains (packet_of dt))
