-- ===== src/Bootloader/Exchange.antt =====
-- What the main loop does with a datagram that comes in frames.
use bootloader_proposal.Base.{
  ℕ, zero, suc, ◌^◌, ◌≤◌, ◌<◌, ◌≡◌, ◌≢◌, inl, inr, refl, ◌∙◌, ap, Bool, true, false, not, ◌&&◌,
  some, List, [], ◌∷◌, ◌==◌, if◌then◌else◌, length, take, Bool-cases, arith, Bytes, ==_refl,
}
use bootloader_proposal.Bootloader.{without_start_bit}
use bootloader_proposal.Bootloader.Node.{
  Node, Stack, is_addressed, serve, handle, restarted, run_loop,
}
use bootloader_proposal.Bootloader.Frames.{Frames}
use bootloader_proposal.Can.{Frame}
use bootloader_proposal.Command.Types.{Parts}
use bootloader_proposal.Datagram.{Datagram, can_datagram_version, is_complete}
use bootloader_proposal.Datagram.Check.{IsBuffered, packet_crc, is_valid-packet_of}
use bootloader_proposal.Datagram.Packet.{Packet, encode, IsSendable, length-store}
use bootloader_proposal.Datagram.Receive.{
  HasRoom, received, packet_of, packet_of-received, input_quiet-encode,
}
use bootloader_proposal.World.{Run, done, ◌>>=◌}
use bootloader_proposal.Bootloader.Arrivals.{arrivals, frames_Ends}

encode-ne_nil : (p : Packet) → encode p ≢ []
unfolding encode
encode-ne_nil p e = omega (arith, ap length e)

received-is_complete : (dt : Datagram) (p : Packet) → is_complete (received dt p) ≡ true
unfolding is_complete
received-is_complete dt p = rw (==_refl)

-- Is the ID in the list?
unfoldable pub contains : ℕ → Bytes → Bool
contains id [] = false
contains id (n ∷ nodes) = if n == id then true else contains id nodes

-- The search stays inside the buffer and looks at the counted addresses.
is_addressed-take :
    (len : ℕ) (nodes : Bytes) (id : ℕ)
    → len ≤ length nodes
    → is_addressed len nodes id ≡ some (contains id (take len nodes))
unfolding is_addressed contains
is_addressed-take zero nodes id h = refl
is_addressed-take (suc len) [] id h = absurd (omega arith)
is_addressed-take (suc len) (n ∷ nodes) id h =
    let ih = is_addressed-take len nodes id (omega arith) in
    elim (Bool-cases (n == id)) [ inl t ↦ rw t | inr f ↦ rw f ih ]

module _ (parts : Parts) (stack : Stack) where
  open parts use {crc32}

  -- what a node does with a packet: it is not valid, it is for others, or it is served
  abbrev pub outcome : ℕ → Packet → Node → Run Node
  outcome id p n =
      if not (packet_crc crc32 p == p.crc && p.version == can_datagram_version)
      then done n
      else if not (contains n.config.id p.nodes)
      then done (record n { timeout_active = false })
      else serve parts stack id (record n { timeout_active = false })

  handle-outcome :
      (f : Frame) (n : Node)
      → IsBuffered n.datagram
      → handle parts stack f n ≡ outcome (without_start_bit f.id) (packet_of n.datagram) n
  unfolding handle
  handle-outcome f n b = rw (
    is_valid-packet_of crc32 n.datagram b,
    is_addressed-take n.datagram.destination_nodes_len n.datagram.destination_nodes n.config.id
        b.nodes_in,
  )

  -- The frames of a packet lead to the outcome of the datagram that holds it.
  pub run_loop-received :
      (id : ℕ) (p : Packet) (fs : List Frame) (n : Node)
      → id < 2 ^ 7
      → IsSendable p
      → HasRoom n.datagram p
      → Frames id true (encode p) fs
      → run_loop parts stack (arrivals fs) n
        ≡ (outcome id p (record n { datagram = received n.datagram p }) >>= restarted parts stack)
  run_loop-received id p fs n h s r frames =
      let dt = received n.datagram p in
      let buffered : IsBuffered dt = record {
        nodes_in = omega (arith, length-store p.nodes n.datagram.destination_nodes 0, r.nodes_fit);
        body_in = omega (arith, length-store p.body n.datagram.payload 0, r.body_fits);
      } in
      let (f, back, runs) =
        frames_Ends parts stack id true (encode p) fs n dt h frames (encode-ne_nil p)
          (input_quiet-encode n.datagram p s r) (received-is_complete n.datagram p) in
      runs
      ∙ rw (handle-outcome f (record n { datagram = dt }) buffered, back)
          (ap (λ q. outcome id q (record n { datagram = dt }) >>= restarted parts stack)
            (packet_of-received n.datagram p r))

  -- The frames of a packet that fits the node's buffers, one after the other, have the outcome that
  -- the packet has for the node, once: nothing but the reader changes when the CRC or the version
  -- is wrong; the timeout is switched off when they are right; and the data are executed, and
  -- answered to the sender, just if the node's ID is among the addresses. Then the reader is
  -- started again. The sender's ID has 7 bits, no timeout occurs between the frames, and the node
  -- may be in any state before. The packet has an address and data, and its fields fit their places
  -- on the wire.
  pub run_loop-Frames :
      (id : ℕ) (p : Packet) (fs : List Frame) (n : Node)
      → id < 2 ^ 7
      → IsSendable p
      → HasRoom n.datagram p
      → Frames id true (encode p) fs
      → (dt : Datagram) × (packet_of dt ≡ p)
        × (run_loop parts stack (arrivals fs) n
            ≡ (outcome id p (record n { datagram = dt }) >>= restarted parts stack))
  run_loop-Frames id p fs n h s r frames = (
    received n.datagram p,
    packet_of-received n.datagram p r,
    run_loop-received id p fs n h s r frames,
  )
