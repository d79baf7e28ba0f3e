-- ===== src/Board/Persisted.antt =====
-- Saving by a command from the bus on the boards, and the start behind it.
use bootloader_proposal.Base.{
  ℕ, ◌+◌, ◌%◌, ◌^◌, ◌≤◌, ◌<◌, ◌≡◌, refl, ◌∙◌, ap, true, List, ◌++◌, length, arith, Bytes, u32_mod,
  AreBytes, are_bytes→AreBytes,
}
use bootloader_proposal.Board.Each.{Kind, motor_board_v1, rc_board_v1, olimex_e407, platform_of}
use bootloader_proposal.Board.Kept.{Hardware, IsHardware, with_driver}
use bootloader_proposal.Board.Saved.{HasLibraries, boot_config-board}
use bootloader_proposal.Bootloader.Answer.{IsFor, run_command, run_loop-Answered}
use bootloader_proposal.Bootloader.Arrivals.{arrivals}
use bootloader_proposal.Bootloader.Frames.{Frames}
use bootloader_proposal.Bootloader.Main.{
  address_buffer_size, buffer_size, bootloader_main, IsSized, bootloader_main-IsSized,
  bootloader_main-append,
}
use bootloader_proposal.Bootloader.Node.{Node, Stack, Event, boot_config, run_loop}
use bootloader_proposal.Bootloader.Typed.{bootloader_main-IsTyped}
use bootloader_proposal.Can.{Frame, Bus}
use bootloader_proposal.Cmp.{pos, ReadsInType, WritesBool}
use bootloader_proposal.Command.{is_index}
use bootloader_proposal.Command.Dispatch.{
  version_read, index_read, argc_read, argc_of, session, called, execute_save,
}
use bootloader_proposal.Command.Types.{Session, Parts, command_set_version}
use bootloader_proposal.Config.{Config}
use bootloader_proposal.Config.Page.{IsTerminated}
use bootloader_proposal.Config.Text.{SaysSame}
use bootloader_proposal.Config.Typed.{IsTyped, InRange-IsTyped, HasText-IsTyped}
use bootloader_proposal.Datagram.Packet.{Packet, encode, IsSendable, store}
use bootloader_proposal.World.{World, done, ◌>>=◌}

-- the data of a packet in the buffer of the reader
abbrev data_of : Node → Packet → Bytes
data_of n p = store n.datagram.payload 0 p.body

-- The MessagePack library reads the data as the command set version and the number of the save command.
pub record AsksToSave (parts : Parts) (n : Node) (p : Packet) : Type 0 where
  pub version :
      is_index command_set_version
        (version_read parts
          (data_of n p)
          (length p.body)
          n.output_buf
          (length n.output_buf)
          n.config
          n.world).1
      ≡ true
  pub readable :
      (index_read parts
        (data_of n p)
        (length p.body)
        n.output_buf
        (length n.output_buf)
        n.config
        n.world).0
      ≡ true
  pub number :
      (index_read parts
        (data_of n p)
        (length p.body)
        n.output_buf
        (length n.output_buf)
        n.config
        n.world).1
      ≡ pos 8

class-AreBytes : (kind : Kind) → AreBytes (platform_of kind).device_class
class-AreBytes motor_board_v1 = are_bytes→AreBytes (platform_of motor_board_v1).device_class refl
class-AreBytes rc_board_v1 = are_bytes→AreBytes (platform_of rc_board_v1).device_class refl
class-AreBytes olimex_e407 = are_bytes→AreBytes (platform_of olimex_e407).device_class refl

buffer_size-small : (kind : Kind) → (platform_of kind).flash_page_size + 128 < 2 ^ 16
buffer_size-small motor_board_v1 = omega arith
buffer_size-small rc_board_v1 = omega arith
buffer_size-small olimex_e407 = omega arith

-- what the program relies on: its libraries, the C types of its variables, and a frame of 8 bytes
pub record HasParts (parts : Parts) (stack : Stack) : Type 1 where
  pub libraries : HasLibraries parts
  pub reads : ReadsInType parts.cmp
  pub bool : WritesBool parts.cmp
  pub local : IsTyped stack.config
  pub key_room : length parts.locals.buffer64 ≡ 64
  pub frame_size : length stack.frame ≡ 8

-- the packet of a save command that the node can take
pub record IsSave (parts : Parts) (stack : Stack) (n : Node) (p : Packet) : Type 0 where
  pub sendable : IsSendable p
  pub nodes : length p.nodes ≤ address_buffer_size
  pub body : length p.body ≤ buffer_size parts stack
  pub right : IsFor parts stack n p
  pub asks : AsksToSave parts n p

module _ (h : Hardware) (kind : Kind) (parts : Parts) (stack : Stack) (laws : IsHardware h)
    (has : HasParts parts stack) where
  abbrev P : Parts
  P = with_driver h kind parts

  -- the command of the packet runs, and has answered one byte
  save_runs :
      (n : Node) (p : Packet)
      → IsTyped n.config
      → IsTerminated n.config
      → AsksToSave P n p
      → 0 < length n.output_buf
      → (s' : Session) × (config : Config) × (run_command P stack p n ≡ done (pos 1, s'))
        × (1 ≤ length s'.out.buffer)
        × (boot_config P stack s'.world ≡ done config)
        × SaysSame config (record n.config { update_count = (n.config.update_count + 1) % u32_mod })
  save_runs n p typed ends asks out_room =
      let read = data_of n p in
      let len = length p.body in
      let out_len = length n.output_buf in
      let s =
        session P read len n.output_buf out_len n.config n.world
          (argc_read P read len n.output_buf out_len n.config n.world).2 in
      let argc = argc_of P read len n.output_buf out_len n.config n.world in
      let (s', config, saved, out, boots, same) =
        boot_config-board h kind parts stack argc s laws has.libraries ends (InRange-IsTyped typed)
          (HasText-IsTyped typed)
          (record {
            key_room = has.key_room;
            name_room = has.local.name_size;
            class_room = has.local.class_size;
          }) in
      let one : s'.out.position ≡ 1 =
        ap (λ c. c.position) out ∙ has.bool.position s.out 1 out_room (omega arith) in
      let runs =
        execute_save P read len n.output_buf out_len n.config n.world asks.version asks.readable
          asks.number in
      (
        s',
        config,
        runs ∙ ap called saved ∙ ap (λ k. done (pos k, s')) one,
        omega (arith, ap (λ c. length c.buffer) out, has.bool.in_place s.out 1, out_room),
        boots,
        same,
      )

  -- On every board, with its own flash driver, from the start and after any frames, losses and
  -- polls of the timeout: where the frames of a packet with the save command come in, the loop goes
  -- on behind them, and the next start reads the configuration that the node had, with its update
  -- count one more. The packet is addressed to the node, right, and fits its buffers, and the
  -- MessagePack library reads its data as the save command. The strings of the node's configuration
  -- are terminated, the output buffer is not empty, the flash does what its reference manual and
  -- libopencm3 say, CRCs have 32 bits, and the MessagePack library writes bytes in place, one for a
  -- Boolean, reads what it has written, and stays in the types of its output variables. The
  -- uninitialised variables have the sizes and types of C.
  pub bootloader_main-saved :
      (arg id : ℕ) (p : Packet) (es : List Event) (fs : List Frame) (w : World) (b : Bus) (n : Node)
      → bootloader_main P stack arg w b es ≡ done n
      → IsTerminated n.config
      → 0 < length n.output_buf
      → id < 2 ^ 7
      → IsSave P stack n p
      → Frames id true (encode p) fs
      → (n' : Node) × (config : Config) × (bootloader_main P stack arg w b (es ++ arrivals fs)
          ≡ done n')
        × (boot_config P stack n'.world ≡ done config)
        × SaysSame config (record n.config { update_count = (n.config.update_count + 1) % u32_mod })
  bootloader_main-saved arg id p es fs w b n ran ends out_room small save frames =
      let sized : IsSized P stack n =
        rw ran at (bootloader_main-IsSized P stack arg w b es (buffer_size-small kind)) in
      let typed : IsTyped n.config =
        rw ran at
          (bootloader_main-IsTyped P stack has.reads has.local (class-AreBytes kind) arg w b es) in
      let (s', config, runs, there, boots, same) = save_runs n p typed ends save.asks out_room in
      let (n', next, answered) =
        run_loop-Answered P stack id 1 p fs n s' has.frame_size small save.sendable
          (record {
            nodes_fit = omega (arith, sized.nodes_there, save.nodes);
            body_fits = omega (arith, sized.body_there, save.body);
            size_fits = omega (arith, sized.declared, save.body);
          })
          save.right frames runs (omega arith) (omega arith) there in
      (
        n',
        config,
        bootloader_main-append P stack arg w b es (arrivals fs)
            ∙ ap (λ r. r >>= run_loop P stack (arrivals fs)) ran
            ∙ next,
        ap (boot_config P stack) answered.world ∙ boots,
        same,
      )
