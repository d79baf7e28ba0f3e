-- ===== src/Bootloader/Reply.antt =====
-- What `return_datagram` puts on a bus that loses nothing.
use bootloader_proposal.Base.{ℕ, ◌^◌, ◌≤◌, ◌<◌, ◌≡◌, Bool, true, List, ◌++◌, length, arith, Bytes}
use bootloader_proposal.Can.{Frame, Bus}
use bootloader_proposal.Datagram.Packet.{encode}
use bootloader_proposal.Bootloader.{ended, reply_fuel, return_datagram}
use bootloader_proposal.Bootloader.Frames.{Frames, nil, frame, AllSent, reply_packet}
use bootloader_proposal.Bootloader.Sending.{
  Sending, finished, failed, sent, return_datagram-Sending,
}

Sending-Frames :
    {source_id : ℕ} {first : Bool} {bs : Bytes} {fs : List Frame} {b b' : Bus}
    → AllSent b
    → Sending source_id first bs fs b b'
    → Frames source_id first bs fs
Sending-Frames all finished = nil
Sending-Frames {b} all (failed ne no_one) =
    absurd (ground (arith, all b.attempts, no_one.failed b.attempts))
Sending-Frames all (sent ne e bytes once more) =
    frame ne e bytes
      (Sending-Frames (λ i h. rw once.txok (all i (omega (arith, once.from, once.attempts)))) more)

-- `return_datagram` ends within the fuel given, when no attempt to send fails and the answer is
-- not empty. It has put the frames of one datagram on the bus, after those that were there: eight
-- bytes in each but the last, the start bit in the first alone. The datagram is addressed to the
-- given node, holds the first `len` bytes of the buffer, and its CRC is theirs.
pub return_datagram-Frames :
    (crc32 : ℕ → Bytes → ℕ) (stack : Bytes) (source_id dest_id : ℕ) (bytes : Bytes) (len : ℕ)
    (b : Bus)
    → length stack ≡ 8
    → 0 < len
    → len < 2 ^ 16
    → len ≤ length bytes
    → AllSent b
    → (b' : Bus) × (frames : List Frame) × (return_datagram crc32
          (reply_fuel len)
          stack
          source_id
          dest_id
          bytes
          len
          b
        ≡ ended b')
      × (b'.wire ≡ b.wire ++ frames)
      × Frames source_id true (encode (reply_packet crc32 dest_id bytes len)) frames
return_datagram-Frames crc32 stack source_id dest_id bytes len b size pos half there all =
    let (b', fs, ran, sends, wire) =
      return_datagram-Sending crc32 stack source_id dest_id bytes len b size pos half there in
    (b', fs, ran, wire, Sending-Frames all sends)
