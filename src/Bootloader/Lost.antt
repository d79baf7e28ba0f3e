-- ===== src/Bootloader/Lost.antt =====
-- The main loop on frames of which some are lost.
use bootloader_proposal.Base.{
  ℕ, zero, suc, ◌^◌, ◌<◌, ◌≡◌, refl, ◌∙◌, ap, Bool, true, false, some, List, [], ◌∷◌, ◌++◌, take,
  drop, length, take-append-drop, inl, inr, arith, Bytes,
}
use bootloader_proposal.Bootloader.Arrivals.{arrivals, frame_id, end_or_more, quiet_start}
use bootloader_proposal.Bootloader.Frames.{Frames, nil, frame}
use bootloader_proposal.Bootloader.Node.{Node, Stack, Event, round, run_loop, restarted}
use bootloader_proposal.Bootloader.Silent.{silent, silent-SameSizes, run_loop-silent}
use bootloader_proposal.Bootloader.Walk.{begun}
use bootloader_proposal.Can.{Frame}
use bootloader_proposal.Command.Types.{Parts}
use bootloader_proposal.Datagram.{Datagram}
use bootloader_proposal.Datagram.Packet.{Packet, encode, IsSendable}
use bootloader_proposal.Datagram.Receive.{HasRoom, received, packet_of, input_quiet-encode}
use bootloader_proposal.Datagram.Sizes.{HasRoom-SameSizes}
use bootloader_proposal.Bootloader.Exchange.{outcome, run_loop-Frames}
use bootloader_proposal.Datagram.Quiet.{input_quiet, quiet_prefix}
use bootloader_proposal.World.{>>=-assoc, Run, done, reset, fault}
use bootloader_proposal.World

module _ (parts : Parts) (stack : Stack) where
  -- The events of two runs, one behind the other.
  pub run_loop-append :
      (es es' : List Event) (n : Node)
      → run_loop parts stack (es ++ es') n
        ≡ World.◌>>=◌ (run_loop parts stack es n) (run_loop parts stack es')
  unfolding run_loop
  run_loop-append [] es' n = refl
  run_loop-append (e ∷ es) es' n =
      >>=-assoc (round parts stack e n) (run_loop parts stack es) (run_loop parts stack es') _
        (run_loop-append es es')

-- Of the frames of a datagram, those before the last are silent, up to whichever the rest is lost.
cut-silent :
    (crc32 : ℕ → Bytes → ℕ) (id : ℕ) (first : Bool) (bs : Bytes) (fs : List Frame) (dt : Datagram)
    (k : ℕ) {r : Datagram}
    → id < 2 ^ 7
    → Frames id first bs fs
    → input_quiet (begun first dt) bs ≡ some r
    → k < length fs
    → (d : Datagram) × (silent crc32 dt (take k fs) ≡ some d)
unfolding silent
cut-silent crc32 id first bs fs dt zero h frames q lt = (dt, refl)
cut-silent crc32 id first bs fs dt (suc k) h nil q lt = absurd (omega arith)
cut-silent crc32 id first bs (f ∷ fs) dt (suc k) {r} h (frame ne e bytes rest) q lt =
    let s = (frame_id id first f h e).0 in
    let (d, read, more) =
      quiet_prefix (take 8 bs) (drop 8 bs) (begun first dt) {d = r} (rw take-append-drop q) in
    elim (end_or_more rest) [
      | inl (_, no_frames) ↦ absurd (omega (arith, ap length no_frames))
      | inr left ↦
          let part = quiet_start d (drop 8 bs) {r = r} left more in
          rw (s, bytes, read, part)
            (cut-silent crc32 id false (drop 8 bs) fs d k {r = r} h rest more (omega arith))
    ]

arrivals-append : (fs gs : List Frame) → arrivals (fs ++ gs) ≡ arrivals fs ++ arrivals gs
arrivals-append [] gs = refl
arrivals-append (f ∷ fs) gs =
    ap (◌∷◌ (record { timeout = false; message = some f })) (arrivals-append fs gs)

module _ (parts : Parts) (stack : Stack) where
  open parts use {crc32}

  -- Whatever silent frames come before, a whole packet behind them has its outcome.
  pub run_loop-behind :
      (id : ℕ) (p : Packet) (fs gs : List Frame) (n : Node) {d : Datagram}
      → silent crc32 n.datagram fs ≡ some d
      → id < 2 ^ 7
      → IsSendable p
      → HasRoom n.datagram p
      → Frames id true (encode p) gs
      → (dt : Datagram) × (packet_of dt ≡ p)
        × (run_loop parts stack (arrivals (fs ++ gs)) n
            ≡ World.◌>>=◌
                (outcome parts stack id p (record n { datagram = dt }))
                (restarted parts stack))
  run_loop-behind id p fs gs n {d} quiet h s r frames =
      let n' = record n { datagram = d } in
      let (dt, holds, runs) =
        run_loop-Frames parts stack id p gs n' h s
          (HasRoom-SameSizes (silent-SameSizes crc32 fs n.datagram quiet) r) frames in
      (
        dt,
        holds,
        ap (λ es. run_loop parts stack es n) (arrivals-append fs gs)
            ∙ run_loop-append parts stack (arrivals fs) (arrivals gs) n
            ∙ ap (λ r. World.◌>>=◌ r (run_loop parts stack (arrivals gs)))
                (run_loop-silent parts stack fs n quiet)
            ∙ runs,
      )

  -- Of the frames of one packet the last ones are lost, from any frame on, and the frames of another
  -- packet follow whole, from the same sender or from another. Then the loop does what the second packet
  -- asks for, as if the first had not been sent: the part that has come changes nothing but the
  -- reader. The node may be in any state before, no timeout occurs between the frames, the senders'
  -- IDs have 7 bits, and both packets have an address and data and fit the wire and the node's buffers.
  pub run_loop-cut :
      (id id' k : ℕ) (lost p : Packet) (fs gs : List Frame) (n : Node)
      → id < 2 ^ 7
      → id' < 2 ^ 7
      → IsSendable lost
      → IsSendable p
      → HasRoom n.datagram lost
      → HasRoom n.datagram p
      → Frames id true (encode lost) fs
      → Frames id' true (encode p) gs
      → k < length fs
      → (dt : Datagram) × (packet_of dt ≡ p)
        × (run_loop parts stack (arrivals (take k fs ++ gs)) n
            ≡ World.◌>>=◌
                (outcome parts stack id' p (record n { datagram = dt }))
                (restarted parts stack))
  run_loop-cut id id' k lost p fs gs n h h' s s' r r' frames frames' less =
      let (d, quiet) =
        cut-silent crc32 id true (encode lost) fs n.datagram k {r = received n.datagram lost} h
          frames (input_quiet-encode n.datagram lost s r) less in
      run_loop-behind id' p (take k fs) gs n {d = d} quiet h' s' r' frames'
