-- ===== src/Tests/Saved.antt =====
-- Runs of the theorems on a configuration that is read back.
use bootloader_proposal.Base.{
  ℕ, ◌+◌, ◌%◌, ◌≡◌, refl, some, [], ◌∷◌, replicate, length-replicate, arith, Bytes, u32_mod,
}
use bootloader_proposal.Bootloader.Node.{boot_config}
use bootloader_proposal.Board.Each.{motor_board_v1}
use bootloader_proposal.Board.Kept.{with_driver}
use bootloader_proposal.Board.Saved.{HasLibraries, boot_config-board}
use bootloader_proposal.Tests.Boards.{hardware, hardware-IsHardware}
use bootloader_proposal.Cmp.{mem_access}
use bootloader_proposal.Command.Pages.{command_config_write_to_flash}
use bootloader_proposal.Command.Types.{Session}
use bootloader_proposal.Config.{Config, string_length, config_read, config_write}
use bootloader_proposal.Config.Page.{IsTerminated}
use bootloader_proposal.Config.Reread.{HasBuffers, config_read-config_write}
use bootloader_proposal.Config.Text.{SaysSame}
use bootloader_proposal.Config.Written.{HasText, InRange}
use bootloader_proposal.Tests.Codec.{byte_cmp, byte_cmp-WritesInPlace}
use bootloader_proposal.Tests.Codec.Laws.{byte_cmp-IsLawful}
use bootloader_proposal.Tests.Codec.Types.{byte_cmp-WritesBytes}
use bootloader_proposal.Tests.Toy.{sum, sum-word, toy, toy_config, toy_world}
use bootloader_proposal.World.{done}

pub toy-IsTerminated : IsTerminated toy_config
unfolding string_length
toy-IsTerminated = record { name_length = 1; class_length = 1; name_ends = refl; class_ends = refl }

toy-InRange : InRange toy_config
toy-InRange = record {
  id_byte = omega arith;
  crc_word = omega arith;
  size_word = omega arith;
  count_word = omega arith;
  name_room = omega arith;
  class_room = omega arith;
}

toy-HasText : HasText toy_config
toy-HasText = record {
  name = (omega arith, (omega arith, tt));
  class = (omega arith, (omega arith, tt));
}

-- uninitialised: bytes of 1 everywhere
abbrev pub garbage : Config
garbage = record {
  id = 1;
  board_name = replicate 65 1;
  device_class = replicate 65 1;
  application_crc = 1;
  application_size = 1;
  update_count = 1;
}

garbage-HasBuffers : HasBuffers garbage (replicate 64 1)
garbage-HasBuffers = record {
  key_room = length-replicate {A = ℕ} 64 1;
  name_room = length-replicate {A = ℕ} 65 1;
  class_room = length-replicate {A = ℕ} 65 1;
}

config_read-config_write_example :
    (page : Bytes) × (config' : Config) × (config_write byte_cmp sum
        (1 ∷ 2 ∷ 3 ∷ 4 ∷ replicate 252 255)
        toy_config
        256
      ≡ some page)
    × (config_read byte_cmp garbage (replicate 64 1) page 256 ≡ some config')
    × SaysSame config' toy_config
config_read-config_write_example =
    config_read-config_write byte_cmp byte_cmp-IsLawful sum 1 2 3 4 (replicate 252 255)
      (replicate 64 1) toy_config garbage 256 toy-IsTerminated toy-InRange toy-HasText
      garbage-HasBuffers (omega arith) (omega arith)

abbrev pub saving : Session
saving = record {
  args = mem_access [] 0;
  out = mem_access (replicate 4 0) 4;
  config = toy_config;
  world = toy_world;
}

pub toy-HasLibraries : HasLibraries toy
toy-HasLibraries = record {
  in_place = byte_cmp-WritesInPlace;
  bytes = byte_cmp-WritesBytes;
  laws = byte_cmp-IsLawful;
  crc_word = sum-word;
}

boot_config-board_example :
    (s' : Session) × (config : Config) × (command_config_write_to_flash
        (with_driver hardware motor_board_v1 toy)
        0
        saving
      ≡ done s')
    × (s'.out ≡ byte_cmp.write_bool saving.out 1)
    × (boot_config
          (with_driver hardware motor_board_v1 toy)
          (record { config = garbage; frame = replicate 8 0 })
          s'.world
        ≡ done config)
    × SaysSame config (record toy_config { update_count = (7 + 1) % u32_mod })
boot_config-board_example =
    boot_config-board hardware motor_board_v1 toy
      (record { config = garbage; frame = replicate 8 0 }) 0 saving hardware-IsHardware
      toy-HasLibraries toy-IsTerminated toy-InRange toy-HasText garbage-HasBuffers
