-- ===== src/Datagram/Receive.antt =====
-- The reader takes in a whole packet: one lemma for each field of the wire format.
use bootloader_proposal.Base.{
  ◌≢◌, append-nil, ℕ, ◌≤◌, ◌<◌, ◌≡◌, refl, ap, ◌∙◌, sym, some, [], ◌∷◌, ◌++◌, length, take, arith,
  Bytes, be32, u32_mod, ◌^◌,
}
use bootloader_proposal.Datagram.{
  Datagram, state_dst, state_data_len, state_data, state_trailing, input_byte, input_bytes, start,
}
use bootloader_proposal.Datagram.Writer.{word_byte}
use bootloader_proposal.Datagram.Quiet.{
  input_quiet, input_quiet-nil, input_quiet-cons, not_complete_length,
}
use bootloader_proposal.Datagram.Packet.{Packet, encode, IsSendable, store, take-store}
use bootloader_proposal.Datagram.Steps.{shift_in_word, in_dst, input-dst, input-data}

-- the reader behind the last byte of a packet
abbrev pub received : Datagram → Packet → Datagram
received dt p = record dt {
  protocol_version = p.version;
  crc = p.crc;
  destination_nodes_len = length p.nodes;
  destination_nodes = store dt.destination_nodes 0 p.nodes;
  data_len = length p.body;
  payload = store dt.payload 0 p.body;
  crc_bytes_read = 4;
  data_length_bytes_read = 4;
  destination_nodes_read = length p.nodes;
  data_bytes_read = length p.body;
  reader_state = state_trailing;
}

-- the header up to the address list
input_header :
    (dt : Datagram) (version crc len : ℕ) (rest : Bytes)
    → crc < u32_mod
    → input_quiet (start dt) (version ∷ (be32 crc ++ (len ∷ rest)))
      ≡ input_quiet (in_dst dt version crc len dt.destination_nodes 0) rest
unfolding input_byte start
input_header dt version crc len rest h =
    input_quiet-cons (start dt) version _ (not_complete_length _ (omega arith))
    ∙ input_quiet-cons _ (word_byte crc 0) _ (not_complete_length _ (omega arith))
    ∙ input_quiet-cons _ (word_byte crc 1) _ (not_complete_length _ (omega arith))
    ∙ input_quiet-cons _ (word_byte crc 2) _ (not_complete_length _ (omega arith))
    ∙ input_quiet-cons _ (word_byte crc 3) _ (not_complete_length _ (omega arith))
    ∙ input_quiet-cons _ len _ (not_complete_length _ (omega arith))
    ∙ ap (λ c. input_quiet (in_dst dt version c len dt.destination_nodes 0) rest)
        (shift_in_word dt.crc crc h)

pub header_bytes :
    (dt : Datagram) (version crc len : ℕ) (rest : Bytes)
    → crc < u32_mod
    → input_bytes (start dt) (version ∷ (be32 crc ++ (len ∷ rest)))
      ≡ input_bytes (in_dst dt version crc len dt.destination_nodes 0) rest
unfolding input_bytes start
header_bytes dt version crc len rest h =
    ap (λ c. input_bytes (in_dst dt version c len dt.destination_nodes 0) rest)
      (shift_in_word dt.crc crc h)

input_nodes :
    (dt : Datagram) (ys rest : Bytes)
    → 0 < length ys
    → length ys ≡ dt.destination_nodes_len
    → dt.destination_nodes_len < 2 ^ 8
    → dt.destination_nodes_len ≤ length dt.destination_nodes
    → dt.data_length_bytes_read ≢ 4
    → input_quiet (record dt { reader_state = state_dst; destination_nodes_read = 0 }) (ys ++ rest)
      ≡ input_quiet
          (record dt {
            reader_state = state_data_len;
            destination_nodes = store dt.destination_nodes 0 ys;
            destination_nodes_read = dt.destination_nodes_len;
          })
          rest
input_nodes dt [] rest pos e small fits none_yet = absurd (omega arith)
input_nodes dt (y ∷ ys) rest pos e small fits none_yet =
    input-dst dt y ys rest dt.destination_nodes 0 (omega arith) small fits none_yet

input_data_len :
    (dt : Datagram) (n : ℕ) (rest : Bytes)
    → n < u32_mod
    → input_quiet
        (record dt { reader_state = state_data_len; data_length_bytes_read = 0 })
        (be32 n ++ rest)
      ≡ input_quiet
          (record dt { reader_state = state_data; data_length_bytes_read = 4; data_len = n })
          rest
unfolding input_byte
input_data_len dt n rest h =
    let d = record dt { reader_state = state_data_len; data_length_bytes_read = 0 } in
    input_quiet-cons d (word_byte n 0) _ (not_complete_length _ (omega arith))
    ∙ input_quiet-cons _ (word_byte n 1) _ (not_complete_length _ (omega arith))
    ∙ input_quiet-cons _ (word_byte n 2) _ (not_complete_length _ (omega arith))
    ∙ input_quiet-cons _ (word_byte n 3) _ (not_complete_length _ (omega arith))
    ∙ ap
        (λ m.
          input_quiet
            (record dt { reader_state = state_data; data_length_bytes_read = 4; data_len = m })
            rest)
        (shift_in_word dt.data_len n h)

input_body :
    (dt : Datagram) (ys : Bytes)
    → 0 < length ys
    → length ys ≡ dt.data_len
    → dt.data_len < 2 ^ 16
    → dt.data_len ≤ length dt.payload
    → dt.data_len ≤ dt.data_buffer_size
    → input_quiet (record dt { reader_state = state_data; data_bytes_read = 0 }) ys
      ≡ some (record dt {
        reader_state = state_trailing;
        payload = store dt.payload 0 ys;
        data_bytes_read = dt.data_len;
      })
input_body dt [] pos e small fits room = absurd (omega arith)
input_body dt (y ∷ ys) pos e small fits room =
    ap (input_quiet (record dt { reader_state = state_data; data_bytes_read = 0 }))
      (sym (append-nil (y ∷ ys)))
    ∙ input-data dt y ys [] dt.payload 0 (omega arith) small fits room
    ∙ input_quiet-nil _

-- Room in the reader's buffers for a packet.
pub record HasRoom (dt : Datagram) (p : Packet) : Type 0 where
  pub nodes_fit : length p.nodes ≤ length dt.destination_nodes
  pub body_fits : length p.body ≤ length dt.payload
  pub size_fits : length p.body ≤ dt.data_buffer_size

-- The reader takes in the bytes of a packet, and is complete at none but the last.
pub input_quiet-encode :
    (dt : Datagram) (p : Packet)
    → IsSendable p
    → HasRoom dt p
    → input_quiet (start dt) (encode p) ≡ some (received dt p)
unfolding encode start
input_quiet-encode dt p s r =
    let n = length p.nodes in
    let tail = be32 (length p.body) ++ p.body in
    let header = in_dst dt p.version p.crc n dt.destination_nodes 0 in
    let addressed = record header {
      destination_nodes = store dt.destination_nodes 0 p.nodes;
      destination_nodes_read = n;
    } in
    let sized = record addressed { data_length_bytes_read = 4; data_len = length p.body } in
    input_header dt p.version p.crc n (p.nodes ++ tail) s.crc_word
    ∙ input_nodes header p.nodes tail s.nodes_pos refl s.nodes_byte r.nodes_fit (omega arith)
    ∙ input_data_len addressed (length p.body) p.body (omega arith)
    ∙ input_body sized p.body s.body_pos refl s.body_half r.body_fits r.size_fits

-- the packet that a complete datagram holds
abbrev pub packet_of : Datagram → Packet
packet_of dt = record {
  version = dt.protocol_version;
  crc = dt.crc;
  nodes = take dt.destination_nodes_len dt.destination_nodes;
  body = take dt.data_len dt.payload;
}

pub packet_of-received : (dt : Datagram) (p : Packet) → HasRoom dt p → packet_of (received dt p) ≡ p
packet_of-received dt p r = λ i. record {
  version = p.version;
  crc = p.crc;
  nodes = take-store p.nodes dt.destination_nodes 0 (length p.nodes) (omega arith) (omega arith) i;
  body = take-store p.body dt.payload 0 (length p.body) (omega arith) (omega arith) i;
}
