-- ===== src/Tests/Loop.antt =====
-- Runs of the theorems on the main loop.
use bootloader_proposal.Base.{
  none, ℕ, ◌≡◌, ◌≢◌, refl, ap, true, List, [], ◌∷◌, replicate, length, arith, Bytes,
}
use bootloader_proposal.Bootloader.Node.{Event, Node, Stack, serve, reply, run_loop}
use bootloader_proposal.Tests.Toy.{sum, toy, toy_config, toy_world}
use bootloader_proposal.World.{done}
use bootloader_proposal.Bootloader.Errors.{serve-version_read}
use bootloader_proposal.Bootloader.Arrivals.{arrivals}
use bootloader_proposal.Bootloader.Exchange.{contains}
use bootloader_proposal.Bootloader.Answer.{Answered, run_command, run_loop-Answered}
use bootloader_proposal.Cmp.{pos}
use bootloader_proposal.Command.{commands, call_command, protocol_execute_command}
use bootloader_proposal.Command.Types.{Session}
use bootloader_proposal.Command.Access.{command_ping, write_bool}
use bootloader_proposal.Bootloader.Frames.{Frames, nil, frame}
use bootloader_proposal.Can.{Frame}
use bootloader_proposal.Datagram
use bootloader_proposal.Datagram.{Datagram, set_address_buffer, set_data_buffer}
use bootloader_proposal.Datagram.Check.{packet_crc}
use bootloader_proposal.Datagram.Packet.{Packet, encode}

abbrev pub stack : Stack
stack = record { config = toy_config; frame = replicate 8 0 }

-- a ping with command set version 2, for nodes 5 and 9
abbrev pub packet : Packet
packet = record { version = 1; crc = 26; nodes = 5 ∷ 9 ∷ []; body = 2 ∷ 5 ∷ 0 ∷ [] }

abbrev pub frames : List Frame
frames =
    record { id = 131; bytes = 1 ∷ 0 ∷ 0 ∷ 0 ∷ 26 ∷ 2 ∷ 5 ∷ 9 ∷ [] }
    ∷ record { id = 3; bytes = 0 ∷ 0 ∷ 0 ∷ 3 ∷ 2 ∷ 5 ∷ 0 ∷ [] }
    ∷ []

pub cons-ne_nil : (x : ℕ) (xs : Bytes) → x ∷ xs ≢ []
cons-ne_nil x xs e = omega (arith, ap length e)

pub frames-Frames : Frames 3 true (encode packet) frames
unfolding encode Datagram.id_start_is_set
frames-Frames = frame (cons-ne_nil _ _) refl refl (frame (cons-ne_nil _ _) refl refl nil)

abbrev pub node : Node
node = record {
  timeout_active = true;
  config = toy_config;
  datagram =
      set_data_buffer (set_address_buffer Datagram.init (replicate 4 0))
        (1 ∷ 9 ∷ 9 ∷ 9 ∷ 9 ∷ 9 ∷ []) 6;
  output_buf = replicate 8 0;
  world = toy_world;
  bus = record { busy = λ n. 2; txok = λ n. true; attempts = 0; reads = 0; wire = [] };
}

-- its data has version 1
abbrev old : Node
old = record node { datagram = record node.datagram { data_len = 1 } }

serve-version_read_example : serve toy stack 3 old ≡ reply toy stack 3 253 old
unfolding set_address_buffer set_data_buffer Datagram.init
serve-version_read_example = serve-version_read toy stack 3 old refl

abbrev late : Event
late = record { timeout = true; message = none }

-- what the ping leaves: one byte of output
abbrev pinged : Session
pinged = record {
  args = record { buffer = 2 ∷ 5 ∷ 0 ∷ 9 ∷ 9 ∷ 9 ∷ []; position = 3; size = 3; error = 0 };
  out = record { buffer = 1 ∷ replicate 7 0; position = 1; size = 8; error = 0 };
  config = toy_config;
  world = toy_world;
}

ping_run : run_command toy stack packet node ≡ done (pos 1, pinged)
unfolding protocol_execute_command call_command commands command_ping write_bool set_address_buffer
    set_data_buffer Datagram.init
ping_run = refl

run_loop-Answered_example :
    (n' : Node) × (run_loop toy stack (arrivals frames) node ≡ done n')
    × Answered toy stack 3 1 pinged node n'
unfolding set_address_buffer set_data_buffer Datagram.init packet_crc sum contains
run_loop-Answered_example =
    run_loop-Answered toy stack 3 1 packet frames node pinged refl (omega arith)
      (record {
        version_byte = omega arith;
        crc_word = omega arith;
        nodes_pos = omega arith;
        nodes_byte = omega arith;
        body_pos = omega arith;
        body_half = omega arith;
      })
      (record { nodes_fit = omega arith; body_fits = omega arith; size_fits = omega arith })
      (record { version = refl; crc = refl; addressed = refl }) frames-Frames ping_run (omega arith)
      (omega arith) (omega arith)
