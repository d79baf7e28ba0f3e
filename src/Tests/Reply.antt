-- ===== src/Tests/Reply.antt =====
-- Runs of the theorems on the CAN driver and the answer.
use bootloader_proposal.Base.{◌≡◌, refl, true, List, [], ◌∷◌, ◌++◌, leb, replicate, arith}
use bootloader_proposal.Bootloader.{ended, return_datagram, reply_fuel}
use bootloader_proposal.Bootloader.Frames.{Frames, reply_packet}
use bootloader_proposal.Bootloader.Sending.{Sending, return_datagram-Sending}
use bootloader_proposal.Bootloader.Reply.{return_datagram-Frames}
use bootloader_proposal.Can.{Frame, Bus, send_message}
use bootloader_proposal.Can.Retries.{SendSpec, send_message_lem}
use bootloader_proposal.Datagram.Packet.{encode}
use bootloader_proposal.Tests.Toy.{sum}

abbrev noisy : Bus
noisy = record { busy = λ n. 2; txok = λ n. leb 2 n; attempts = 0; reads = 0; wire = [] }

abbrev frame : Frame
frame = record { id = 129; bytes = 1 ∷ 2 ∷ [] }

send_message_lem_example : SendSpec frame 100 noisy (send_message 100 frame noisy)
send_message_lem_example = send_message_lem 100 frame noisy

abbrev quiet : Bus
quiet = record { busy = λ n. 2; txok = λ n. true; attempts = 0; reads = 0; wire = frame ∷ [] }

return_datagram-Frames_example :
    (b' : Bus) × (frames : List Frame) × (return_datagram sum
        (reply_fuel 2)
        (replicate 8 0)
        5
        1
        (10 ∷ 11 ∷ 99 ∷ [])
        2
        quiet
      ≡ ended b')
    × (b'.wire ≡ quiet.wire ++ frames)
    × Frames 5 true (encode (reply_packet sum 1 (10 ∷ 11 ∷ 99 ∷ []) 2)) frames
return_datagram-Frames_example =
    return_datagram-Frames sum (replicate 8 0) 5 1 (10 ∷ 11 ∷ 99 ∷ []) 2 quiet refl (omega arith)
      (omega arith) (omega arith) (λ i h. refl)

-- The first two attempts fail, so that the bus sends the first frame in the third.
return_datagram-Sending_example :
    (b' : Bus) × (fs : List Frame) × (return_datagram sum
        (reply_fuel 2)
        (replicate 8 0)
        5
        1
        (10 ∷ 11 ∷ 99 ∷ [])
        2
        noisy
      ≡ ended b')
    × Sending 5 true (encode (reply_packet sum 1 (10 ∷ 11 ∷ 99 ∷ []) 2)) fs noisy b'
    × (b'.wire ≡ noisy.wire ++ fs)
return_datagram-Sending_example =
    return_datagram-Sending sum (replicate 8 0) 5 1 (10 ∷ 11 ∷ 99 ∷ []) 2 noisy refl (omega arith)
      (omega arith) (omega arith)
