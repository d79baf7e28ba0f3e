-- ===== src/Bootloader/Answer.antt =====
-- A command and its answer: from the frames of the one to the frames of the other.
use bootloader_proposal.Base.{
  ℕ, ◌%◌, ◌^◌, ◌≤◌, ◌<◌, ◌≡◌, refl, ap, ◌∙◌, true, false, ==_refl, ne→==, List, ◌++◌, length, arith,
  u8_mod,
}
use bootloader_proposal.Bootloader.Arrivals.{arrivals}
use bootloader_proposal.Bootloader.Exchange.{contains, outcome, run_loop-received}
use bootloader_proposal.Bootloader.Frames.{Frames, reply_packet}
use bootloader_proposal.Bootloader.Node.{Node, Stack, execute, reply, serve, run_loop, restarted}
use bootloader_proposal.Bootloader.Sending.{Sending, return_datagram-Sending}
use bootloader_proposal.Can.{Frame}
use bootloader_proposal.Cmp.{ℤ, pos}
use bootloader_proposal.Command.{commands, protocol_execute_command}
use bootloader_proposal.Command.Types.{Session, Parts}
use bootloader_proposal.Datagram.{can_datagram_version, start}
use bootloader_proposal.Datagram.Check.{packet_crc}
use bootloader_proposal.Datagram.Packet.{Packet, encode, IsSendable, store}
use bootloader_proposal.Datagram.Receive.{HasRoom, received}
use bootloader_proposal.World.{Run, done, ◌>>=◌}

module _ (parts : Parts) (stack : Stack) where
  open parts use {crc32}

  -- the command of a packet, with the buffer that the reader has stored its data in
  abbrev pub run_command : Packet → Node → Run (ℤ × Session)
  run_command p n =
      protocol_execute_command parts (store n.datagram.payload 0 p.body) (length p.body)
        (commands parts) n.output_buf (length n.output_buf) n.config n.world

  -- The packet is right, and for the node.
  pub record IsFor (n : Node) (p : Packet) : Type 0 where
    pub version : p.version ≡ can_datagram_version
    pub crc : packet_crc crc32 p ≡ p.crc
    pub addressed : contains n.config.id p.nodes ≡ true

  -- what a command that returned has left, after its answer to `id` went out or failed
  pub record Answered (id len : ℕ) (s : Session) (n n' : Node) : Type 0 where
    pub frames : List Frame
    pub sends :
        Sending s.config.id true
          (encode (reply_packet crc32 id s.out.buffer len))
          frames
          n.bus
          n'.bus
    pub wire : n'.bus.wire ≡ n.bus.wire ++ frames
    pub config : n'.config ≡ s.config
    pub world : n'.world ≡ s.world
    pub output_buf : n'.output_buf ≡ s.out.buffer
    pub timeout_active : n'.timeout_active ≡ false

  serve_command :
      (id len : ℕ) (n : Node) (s : Session)
      → length stack.frame ≡ 8
      → protocol_execute_command parts n.datagram.payload n.datagram.data_len
          (commands parts)
          n.output_buf
          (length n.output_buf)
          n.config
          n.world
        ≡ done (pos len, s)
      → 0 < len
      → len < 2 ^ 8
      → len ≤ length s.out.buffer
      → n.timeout_active ≡ false
      → (n' : Node) × (serve parts stack id n ≡ done n') × Answered id len s n n'
  unfolding serve execute reply
  serve_command id len n s size runs some_len small there off =
      let (b', fs, ran, sends, wire) =
        return_datagram-Sending crc32 stack.frame s.config.id id s.out.buffer len n.bus size
          some_len (omega arith) there in
      let n' = record n {
        config = s.config;
        world = s.world;
        output_buf = s.out.buffer;
        bus = b';
      } in
      let byte : len % u8_mod ≡ len = omega arith in
      (
        n',
        rw (runs, byte, ne→== len 0 (omega arith), ran),
        record {
          frames = fs;
          sends = sends;
          wire = wire;
          config = refl;
          world = refl;
          output_buf = refl;
          timeout_active = off;
        },
      )

  outcome_served :
      (id : ℕ) (p : Packet) (n n' : Node)
      → IsFor n p
      → serve parts stack id (record n { timeout_active = false }) ≡ done n'
      → outcome parts stack id p n ≡ done n'
  outcome_served id p n n' right served =
      rw (right.crc, right.version, ==_refl p.crc, right.addressed) served

  -- A packet with the right version and CRC that names the node and fits its buffers comes in frames,
  -- and its command returns with an answer of 1 to 255 bytes in the output buffer. Then the loop
  -- has executed it once: the node keeps the configuration and the world that the command has left,
  -- and its answer went back to the sender, in frames with the node's ID, up to the end or to the
  -- first frame of which all attempts fail.
  pub run_loop-Answered :
      (id len : ℕ) (p : Packet) (fs : List Frame) (n : Node) (s : Session)
      → length stack.frame ≡ 8
      → id < 2 ^ 7
      → IsSendable p
      → HasRoom n.datagram p
      → IsFor n p
      → Frames id true (encode p) fs
      → run_command p n ≡ done (pos len, s)
      → 0 < len
      → len < 2 ^ 8
      → len ≤ length s.out.buffer
      → (n' : Node) × (run_loop parts stack (arrivals fs) n ≡ done n') × Answered id len s n n'
  run_loop-Answered id len p fs n s size h sendable room right frames runs some_len small there =
      let dt = received n.datagram p in
      let (n', served, a) =
        serve_command id len (record n { datagram = dt; timeout_active = false }) s size runs
          some_len small there refl in
      (
        record n' { datagram = start n'.datagram },
        run_loop-received parts stack id p fs n h sendable room frames
            ∙ ap (λ r. r >>= restarted parts stack)
                (outcome_served id p (record n { datagram = dt }) n'
                  (record { version = right.version; crc = right.crc; addressed = right.addressed })
                  served),
        record {
          frames = a.frames;
          sends = a.sends;
          wire = a.wire;
          config = a.config;
          world = a.world;
          output_buf = a.output_buf;
          timeout_active = a.timeout_active;
        },
      )
