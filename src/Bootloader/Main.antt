-- ===== src/Bootloader/Main.antt =====
-- bootloader.c: `bootloader_main` with the buffers that the file declares.
use bootloader_proposal.Base.{
  ℕ, ◌+◌, ◌^◌, ◌≤◌, ◌<◌, ◌≡◌, ap, ◌∙◌, true, List, ◌++◌, length, replicate, length-replicate, arith,
}
use bootloader_proposal.Bootloader.Arrivals.{arrivals}
use bootloader_proposal.Bootloader.Exchange.{outcome, run_loop-Frames}
use bootloader_proposal.Bootloader.Frames.{Frames}
use bootloader_proposal.Bootloader.Lost.{run_loop-append}
use bootloader_proposal.Bootloader.Node.{Node, Stack, Event, boot, boot_config, run_loop, restarted}
use bootloader_proposal.Bootloader.Walk.{IsInvariant, run_loop-Keeps, without_world}
use bootloader_proposal.Can.{Frame, Bus}
use bootloader_proposal.Command.Types.{Parts}
use bootloader_proposal.Datagram.{Datagram}
use bootloader_proposal.Datagram.Packet.{Packet, encode, IsSendable}
use bootloader_proposal.Datagram.Receive.{packet_of}
use bootloader_proposal.Datagram.Sizes.{
  HasSizes, HasSizes-SameSizes, set_up-HasSizes, read-SameSizes, start-SameSizes,
}
use bootloader_proposal.World.{Ends, Ends-bind, anything, World, Run, done, ◌>>=◌, >>=-assoc}

-- `sizeof(addr_buf)`
abbrev pub address_buffer_size : ℕ
address_buffer_size = 128

module _ (parts : Parts) (stack : Stack) where
  open parts use {platform}

  -- `BUFFER_SIZE`
  abbrev pub buffer_size : ℕ
  buffer_size = platform.flash_page_size + 128

  -- `bootloader_main` over a run of events. The buffers are static: they are zero at the start.
  unfoldable pub bootloader_main : (arg : ℕ) → World → Bus → List Event → Run Node
  unfolding boot run_loop
  bootloader_main arg w b es =
      boot parts stack arg (replicate address_buffer_size 0) (replicate buffer_size 0)
        (replicate buffer_size 0) w b
      >>= run_loop parts stack es

  abbrev pub IsSized : Node → Type 0
  IsSized n = HasSizes address_buffer_size buffer_size n.datagram

  IsSized-IsInvariant : IsInvariant parts stack IsSized (λ w. Unit {0})
  IsSized-IsInvariant = record {
    read = λ n first bs dt h e. HasSizes-SameSizes (read-SameSizes first bs n.datagram dt e) h;
    restart = λ n h. HasSizes-SameSizes (start-SameSizes n.datagram) h;
    stop = λ n h. h;
    run = without_world parts stack IsSized (λ n config w out h. h);
    send = λ n b h. h;
    leave = λ n h. tt;
  }

  boot-IsSized :
      (arg : ℕ) (w : World) (b : Bus)
      → buffer_size < 2 ^ 16
      → Ends IsSized
          (λ w. Unit {0})
          (boot parts stack arg
            (replicate address_buffer_size 0)
            (replicate buffer_size 0)
            (replicate buffer_size 0)
            w
            b)
  unfolding boot
  boot-IsSized arg w b small =
      Ends-bind (λ c. Unit {0}) IsSized (λ w. Unit {0}) (boot_config parts stack w) _ (anything _)
        (λ c u.
          set_up-HasSizes (replicate address_buffer_size 0) (replicate buffer_size 0)
            (length-replicate {A = ℕ} address_buffer_size 0)
            (length-replicate {A = ℕ} buffer_size 0) (omega arith))

  pub bootloader_main-IsSized :
      (arg : ℕ) (w : World) (b : Bus) (es : List Event)
      → buffer_size < 2 ^ 16
      → Ends IsSized (λ w. Unit {0}) (bootloader_main arg w b es)
  unfolding bootloader_main
  bootloader_main-IsSized arg w b es small =
      Ends-bind IsSized IsSized (λ w. Unit {0}) _ (run_loop parts stack es)
        (boot-IsSized arg w b small)
        (run_loop-Keeps parts stack IsSized (λ w. Unit {0}) IsSized-IsInvariant es)

  pub bootloader_main-append :
      (arg : ℕ) (w : World) (b : Bus) (es es' : List Event)
      → bootloader_main arg w b (es ++ es')
        ≡ (bootloader_main arg w b es >>= run_loop parts stack es')
  unfolding bootloader_main
  bootloader_main-append arg w b es es' =
      >>=-assoc _ (run_loop parts stack es) (run_loop parts stack es') _
        (run_loop-append parts stack es es')

  -- From the start on, with the buffers that bootloader.c declares: wherever the main loop is after
  -- any frames, losses and polls of the timeout, the frames of a packet that come then have the
  -- outcome that the packet has for the node, once. The packet names 1 to 128 nodes and has 1 byte
  -- of data up to a page of flash and 128 bytes, its fields fit the wire, the sender's ID has 7
  -- bits, the data buffer has fewer than 65536 bytes, and the frames before have not reset the
  -- system or made an access outside an object.
  pub bootloader_main-Frames :
      (arg id : ℕ) (p : Packet) (es : List Event) (gs : List Frame) (w : World) (b : Bus) (n : Node)
      → buffer_size < 2 ^ 16
      → bootloader_main arg w b es ≡ done n
      → id < 2 ^ 7
      → IsSendable p
      → length p.nodes ≤ address_buffer_size
      → length p.body ≤ buffer_size
      → Frames id true (encode p) gs
      → (dt : Datagram) × (packet_of dt ≡ p)
        × (bootloader_main arg w b (es ++ arrivals gs)
            ≡ (outcome parts stack id p (record n { datagram = dt }) >>= restarted parts stack))
  bootloader_main-Frames arg id p es gs w b n small runs h s nodes body frames =
      let sized : IsSized n = rw runs at (bootloader_main-IsSized arg w b es small) in
      let (dt, holds, next) =
        run_loop-Frames parts stack id p gs n h s
          (record {
            nodes_fit = omega (arith, sized.nodes_there);
            body_fits = omega (arith, sized.body_there);
            size_fits = omega (arith, sized.declared);
          })
          frames in
      (
        dt,
        holds,
        bootloader_main-append arg w b es (arrivals gs)
            ∙ ap (λ r. r >>= run_loop parts stack (arrivals gs)) runs
            ∙ next,
      )
