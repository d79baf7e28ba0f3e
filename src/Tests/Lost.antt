-- ===== src/Tests/Lost.antt =====
-- Runs of the theorems on lost frames, and on the whole of `bootloader_main`.
use bootloader_proposal.Base.{◌≡◌, refl, true, List, [], ◌∷◌, ◌++◌, replicate, take, arith}
use bootloader_proposal.Bootloader.Arrivals.{arrivals}
use bootloader_proposal.Bootloader.Exchange.{outcome}
use bootloader_proposal.Bootloader.Lost.{run_loop-cut}
use bootloader_proposal.Bootloader.Main.{bootloader_main, bootloader_main-Frames}
use bootloader_proposal.Bootloader.Node.{Node, restarted, run_loop, boot, boot_config, read_page}
use bootloader_proposal.Bootloader.Silent.{silent, run_loop-silent}
use bootloader_proposal.Can.{Frame}
use bootloader_proposal.Config.{config_is_valid, config_read}
use bootloader_proposal.Datagram
use bootloader_proposal.Datagram.{
  Datagram, State, state_data_len, set_address_buffer, set_data_buffer, input_bytes, start,
  is_complete,
}
use bootloader_proposal.Datagram.Packet.{IsSendable}
use bootloader_proposal.Datagram.Receive.{packet_of, HasRoom}
use bootloader_proposal.Tests.Loop.{stack, packet, frames, frames-Frames, node}
use bootloader_proposal.Tests.Toy.{sum, toy, toy_config, toy_world}
use bootloader_proposal.World.{done, ◌>>=◌, bytes_at}

-- the bytes of a packet with a wrong CRC
abbrev broken : List Frame
broken =
    record { id = 131; bytes = 1 ∷ 0 ∷ 0 ∷ 0 ∷ 27 ∷ 2 ∷ 5 ∷ 9 ∷ [] }
    ∷ record { id = 3; bytes = 0 ∷ 0 ∷ 0 ∷ 3 ∷ 2 ∷ 5 ∷ 0 ∷ [] }
    ∷ []

-- the reader behind it
abbrev forgotten : Datagram
forgotten = record node.datagram {
  crc = 27;
  destination_nodes_len = 2;
  destination_nodes = 5 ∷ 9 ∷ 0 ∷ 0 ∷ [];
  data_len = 3;
  payload = 2 ∷ 5 ∷ 0 ∷ 9 ∷ 9 ∷ 9 ∷ [];
}

run_loop-silent_example :
    run_loop toy stack (arrivals broken) node ≡ done (record node { datagram = forgotten })
unfolding silent sum input_bytes is_complete start Datagram.id_start_is_set Datagram.is_valid
    Datagram.compute_crc set_address_buffer set_data_buffer Datagram.init
run_loop-silent_example = run_loop-silent toy stack broken node {d = forgotten} refl

packet-IsSendable : IsSendable packet
packet-IsSendable = record {
  version_byte = omega arith;
  crc_word = omega arith;
  nodes_pos = omega arith;
  nodes_byte = omega arith;
  body_pos = omega arith;
  body_half = omega arith;
}

node-HasRoom : HasRoom node.datagram packet
unfolding set_address_buffer set_data_buffer Datagram.init
node-HasRoom = record { nodes_fit = omega arith; body_fits = omega arith; size_fits = omega arith }

run_loop-cut_example :
    (dt : Datagram) × (packet_of dt ≡ packet)
    × (run_loop toy stack (arrivals (take 1 frames ++ frames)) node
        ≡ (outcome toy stack 3 packet (record node { datagram = dt }) >>= restarted toy stack))
run_loop-cut_example =
    run_loop-cut toy stack 3 3 1 packet packet frames frames node (omega arith) (omega arith)
      packet-IsSendable packet-IsSendable node-HasRoom node-HasRoom frames-Frames frames-Frames
      (omega arith)

-- the node that has started and read the first frame of the packet
abbrev waiting : Node
waiting = record {
  timeout_active = true;
  config = toy_config;
  datagram = record Datagram.init {
    crc = 26;
    destination_nodes_len = 2;
    destination_nodes = 5 ∷ 9 ∷ replicate 126 0;
    payload = replicate 144 0;
    crc_bytes_read = 4;
    destination_nodes_read = 2;
    data_buffer_size = 144;
    reader_state = state_data_len;
  };
  output_buf = replicate 144 0;
  world = toy_world;
  bus = node.bus;
}

started : bootloader_main toy stack 0 toy_world node.bus (arrivals (take 1 frames)) ≡ done waiting
unfolding bootloader_main boot boot_config read_page run_loop sum input_bytes is_complete start
    Datagram.id_start_is_set config_is_valid bytes_at config_read set_address_buffer set_data_buffer
    Datagram.init
started = refl

bootloader_main-Frames_example :
    (dt : Datagram) × (packet_of dt ≡ packet)
    × (bootloader_main toy stack 0 toy_world node.bus (arrivals (take 1 frames) ++ arrivals frames)
        ≡ (outcome toy stack 3 packet (record waiting { datagram = dt }) >>= restarted toy stack))
bootloader_main-Frames_example =
    bootloader_main-Frames toy stack 0 3 packet (arrivals (take 1 frames)) frames toy_world node.bus
      waiting (omega arith) started (omega arith) packet-IsSendable (omega arith) (omega arith)
      frames-Frames
