-- ===== src/Tests/Persisted.antt =====
-- A run of the theorem on a save command from the bus, on motor-board-v1.
use bootloader_proposal.Base.{
  ℕ, ◌+◌, ◌%◌, ◌≡◌, refl, true, List, [], ◌∷◌, replicate, length-replicate, arith, u32_mod,
}
use bootloader_proposal.Board.Each.{motor_board_v1}
use bootloader_proposal.Board.Kept.{with_driver}
use bootloader_proposal.Board.Persisted.{HasParts, IsSave, bootloader_main-saved}
use bootloader_proposal.Bootloader.Arrivals.{arrivals}
use bootloader_proposal.Bootloader.Exchange.{contains}
use bootloader_proposal.Bootloader.Frames.{Frames, nil, frame}
use bootloader_proposal.Bootloader.Main.{bootloader_main}
use bootloader_proposal.Bootloader.Node.{Node, Stack, boot, boot_config, read_page, run_loop}
use bootloader_proposal.Can.{Frame}
use bootloader_proposal.Command.Types.{Parts}
use bootloader_proposal.Config.{Config, config_is_valid, config_read, string_length}
use bootloader_proposal.Config.Octets.{replicate-AreBytes}
use bootloader_proposal.Config.Page.{IsTerminated}
use bootloader_proposal.Config.Text.{SaysSame}
use bootloader_proposal.Datagram
use bootloader_proposal.Datagram.{set_address_buffer, set_data_buffer, start}
use bootloader_proposal.Datagram.Check.{packet_crc}
use bootloader_proposal.Datagram.Packet.{Packet, encode}
use bootloader_proposal.Tests.Boards.{hardware, hardware-IsHardware}
use bootloader_proposal.Tests.Codec.Types.{byte_cmp-ReadsInType, byte_cmp-WritesBool}
use bootloader_proposal.Tests.Loop.{cons-ne_nil, node}
use bootloader_proposal.Tests.Saved.{toy-HasLibraries}
use bootloader_proposal.Tests.Toy.{sum, toy, toy_world}
use bootloader_proposal.World.{done, bytes_at}

-- uninitialised, but with zeros in the strings
abbrev local : Stack
local = record {
  config = record {
    id = 1;
    board_name = 66 ∷ replicate 64 0;
    device_class = replicate 65 0;
    application_crc = 1;
    application_size = 1;
    update_count = 1;
  };
  frame = replicate 8 0;
}

abbrev motor : Parts
motor = with_driver hardware motor_board_v1 toy

local-HasParts : HasParts toy local
local-HasParts = record {
  libraries = toy-HasLibraries;
  reads = byte_cmp-ReadsInType;
  bool = byte_cmp-WritesBool;
  local = record {
    id_byte = omega arith;
    crc_word = omega arith;
    size_word = omega arith;
    count_word = omega arith;
    name_size = refl;
    class_size = refl;
    name_bytes = (omega arith, replicate-AreBytes 64 0 (omega arith));
    class_bytes = replicate-AreBytes 65 0 (omega arith);
  };
  key_room = length-replicate {A = ℕ} 64 1;
  frame_size = refl;
}

-- the save command without arguments, for node 1
abbrev packet : Packet
packet = record { version = 1; crc = 15; nodes = 1 ∷ []; body = 2 ∷ 8 ∷ 0 ∷ [] }

abbrev frames : List Frame
frames =
    record { id = 131; bytes = 1 ∷ 0 ∷ 0 ∷ 0 ∷ 15 ∷ 1 ∷ 1 ∷ 0 ∷ [] }
    ∷ record { id = 3; bytes = 0 ∷ 0 ∷ 3 ∷ 2 ∷ 8 ∷ 0 ∷ [] }
    ∷ []

-- the node behind the start, where all memory is zero
abbrev begun : Node
begun = record {
  timeout_active = true;
  config = local.config;
  datagram = record Datagram.init {
    destination_nodes = replicate 128 0;
    payload = replicate 2176 0;
    data_buffer_size = 2176;
  };
  output_buf = replicate 2176 0;
  world = toy_world;
  bus = node.bus;
}

begins : bootloader_main motor local 0 toy_world node.bus [] ≡ done begun
unfolding bootloader_main boot boot_config read_page run_loop sum start config_is_valid bytes_at
    config_read set_address_buffer set_data_buffer Datagram.init
begins = refl

strings-IsTerminated : IsTerminated local.config
unfolding string_length
strings-IsTerminated = record {
  name_length = 1;
  class_length = 0;
  name_ends = refl;
  class_ends = refl;
}

packet-Frames : Frames 3 true (encode packet) frames
unfolding encode Datagram.id_start_is_set
packet-Frames = frame (cons-ne_nil _ _) refl refl (frame (cons-ne_nil _ _) refl refl nil)

packet-IsSave : IsSave motor local begun packet
unfolding packet_crc sum contains Datagram.init
packet-IsSave = record {
  sendable = record {
    version_byte = omega arith;
    crc_word = omega arith;
    nodes_pos = omega arith;
    nodes_byte = omega arith;
    body_pos = omega arith;
    body_half = omega arith;
  };
  nodes = omega arith;
  body = omega arith;
  right = record { version = refl; crc = refl; addressed = refl };
  asks = record { version = refl; readable = refl; number = refl };
}

bootloader_main-saved_example :
    (n' : Node) × (config : Config) × (bootloader_main motor local 0 toy_world node.bus
        (arrivals frames)
      ≡ done n')
    × (boot_config motor local n'.world ≡ done config)
    × SaysSame config (record local.config { update_count = (1 + 1) % u32_mod })
bootloader_main-saved_example =
    bootloader_main-saved hardware motor_board_v1 toy local hardware-IsHardware local-HasParts 0 3
      packet [] frames toy_world node.bus begun begins strings-IsTerminated (omega arith)
      (omega arith) packet-IsSave packet-Frames
