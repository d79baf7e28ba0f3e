-- ===== src/Bootloader/Sending.antt =====
-- `return_datagram` on a bus that loses messages.
use bootloader_proposal.Base.{
  ℕ, zero, suc, ◌^◌, ◌≤◌, ◌<◌, ◌≡◌, ◌≢◌, inl, inr, refl, ◌∙◌, ap, sym, Bool, true, false, ne→==,
  List, [], ◌∷◌, ◌++◌, append-nil, append_assoc, if◌then◌else◌, length, take, drop, length-drop,
  arith, Bytes,
}
use bootloader_proposal.Bootloader.{
  Loop, ended, with_start_bit, can_send_retries, go_on, return_loop, reply_fuel, return_datagram,
}
use bootloader_proposal.Bootloader.Frames.{
  frame_of, pos→ne_nil, empty_or_more, reply_packet, reply_datagram-unsent, length-encode,
}
use bootloader_proposal.Can.{Frame, Bus, send_message}
use bootloader_proposal.Can.Retries.{SendSpec, SentOnce, NotSent, send_message_lem}
use bootloader_proposal.Datagram.{Datagram}
use bootloader_proposal.Datagram.Packet.{encode}
use bootloader_proposal.Datagram.Pending.{Sends, unsent}
use bootloader_proposal.Datagram.Send.{output_bytes_lem, output_bytes_done}

-- How the bytes of a datagram go out from one state of the bus to another: in frames of eight, each
-- of which is sent once in at most 101 attempts, up to the end or to a frame of which all attempts
-- fail. The first frame has the start bit in its identifier.
pub data Sending (source_id : ℕ) : Bool → Bytes → List Frame → Bus → Bus → Type 0 where
  finished : {first : Bool} {b : Bus} → Sending source_id first [] [] b b
  failed :
      {first : Bool} {bs : Bytes} {b b' : Bus}
      → bs ≢ []
      → NotSent can_send_retries b b'
      → Sending source_id first bs [] b b'
  sent :
      {first : Bool} {bs : Bytes} {f : Frame} {fs : List Frame} {b b₁ b' : Bus}
      → bs ≢ []
      → f.id ≡ (if first then with_start_bit source_id else source_id)
      → f.bytes ≡ take 8 bs
      → SentOnce f can_send_retries b b₁
      → Sending source_id false (drop 8 bs) fs b₁ b'
      → Sending source_id first bs (f ∷ fs) b b'

-- The frames that are sent are what is added to the bus.
pub Sending-wire :
    {source_id : ℕ} {first : Bool} {bs : Bytes} {fs : List Frame} {b b' : Bus}
    → Sending source_id first bs fs b b'
    → b'.wire ≡ b.wire ++ fs
Sending-wire finished = sym (append-nil _)
Sending-wire (failed ne no_one) = no_one.wire ∙ sym (append-nil _)
Sending-wire (sent {f} {fs} {b} ne id bytes once more) =
    Sending-wire more ∙ ap (λ w. w ++ fs) once.wire ∙ append_assoc b.wire (f ∷ []) fs

abbrev Goes : ℕ → Bool → Bytes → Bus → Loop Bus → Type 0
Goes source_id first bs b r =
    (b' : Bus) × (fs : List Frame) × (r ≡ ended b') × Sending source_id first bs fs b b'

-- one message, and the loop behind it
after_message :
    (source_id : ℕ) (first : Bool) (bs : Bytes) (f : Frame) (b : Bus) (more : Bus → Loop Bus)
    → bs ≢ []
    → f.id ≡ (if first then with_start_bit source_id else source_id)
    → f.bytes ≡ take 8 bs
    → ((b₁ : Bus) → Goes source_id false (drop 8 bs) b₁ (more b₁))
    → (r : Bool × Bus) → SendSpec f can_send_retries b r
    → Goes source_id first bs b (go_on more r)
unfolding go_on
after_message source_id first bs f b more ne e bytes ih (true, b₁) once =
    let (b', fs, ran, s) = ih b₁ in (b', f ∷ fs, ran, sent ne e bytes once s)
after_message source_id first bs f b more ne e bytes ih (false, b₁) no_one =
    (b₁, [], refl, failed ne no_one)

return_loop-Sending :
    (fuel source_id : ℕ) (first : Bool) (buf : Bytes) (dt : Datagram) (b : Bus)
    → length buf ≡ 8
    → Sends dt
    → length (unsent dt) < fuel
    → Goes source_id first (unsent dt) b (return_loop fuel source_id first buf dt b)
unfolding return_loop
return_loop-Sending zero source_id first buf dt b size s h = absurd (omega arith)
return_loop-Sending (suc fuel) source_id first buf dt b size s h =
    elim (empty_or_more (unsent dt)) [
      | inl e ↦ rw (output_bytes_done dt buf 7 s e, return_loop) (b, [], refl, rw e finished)
      | inr more ↦
          let ne = pos→ne_nil (unsent dt) more in
          let (o, done, count, bytes, size', rest, s') =
            output_bytes_lem dt buf 8 s ne (omega arith) in
          let shorter : length (unsent o.datagram) < fuel =
            omega (arith, ap length rest, length-drop 8 (unsent dt)) in
          let f = frame_of source_id first o in
          rw (done, ne→== o.count 0 (omega (arith, count)), return_loop)
            (after_message source_id first (unsent dt) f b
              (return_loop fuel source_id false o.buffer o.datagram) ne refl bytes
              (λ b₁. rw rest at (
                return_loop-Sending fuel source_id false o.buffer o.datagram b₁ (size' ∙ size) s'
                  shorter))
              (send_message can_send_retries f b) (send_message_lem can_send_retries f b))
    ]

-- On a bus on which every attempt to send ends, `return_datagram` ends within the fuel given,
-- whatever attempts fail, for an answer that is not empty. It sends the frames of one datagram, up
-- to the end or to the first frame of which all attempts fail, and nothing else goes out. The
-- datagram is addressed to the given node, holds the first `len` bytes of the buffer, and its CRC
-- is theirs.
pub return_datagram-Sending :
    (crc32 : ℕ → Bytes → ℕ) (stack : Bytes) (source_id dest_id : ℕ) (bytes : Bytes) (len : ℕ)
    (b : Bus)
    → length stack ≡ 8
    → 0 < len
    → len < 2 ^ 16
    → len ≤ length bytes
    → (b' : Bus) × (fs : List Frame) × (return_datagram crc32
          (reply_fuel len)
          stack
          source_id
          dest_id
          bytes
          len
          b
        ≡ ended b')
      × Sending source_id true (encode (reply_packet crc32 dest_id bytes len)) fs b b'
      × (b'.wire ≡ b.wire ++ fs)
unfolding return_datagram
return_datagram-Sending crc32 stack source_id dest_id bytes len b size pos half there =
    let (dt, made, s, e) = reply_datagram-unsent crc32 dest_id bytes len pos half there in
    let fits : length (unsent dt) < reply_fuel len =
      omega (arith, ap length e, length-encode crc32 dest_id bytes len there) in
    let (b', fs, ran, sends) =
      return_loop-Sending (reply_fuel len) source_id true stack dt b size s fits in
    rw (made, return_datagram) (b', fs, ran, rw e at sends, Sending-wire sends)
