-- ===== src/Tests/Programmed.antt =====
-- A run of the theorem on the programming of a page, on motor-board-v1.
use bootloader_proposal.Base.{
  ℕ, true, ◌≡◌, refl, [], ◌∷◌, replicate, length, length-replicate, arith, Bytes,
}
use bootloader_proposal.Board.Each.{motor_board_v1}
use bootloader_proposal.Board.Kept.{with_driver}
use bootloader_proposal.Board.Programmed.{
  in_world, ErasesAt, WritesAt, ChecksAt, program_page-board,
}
use bootloader_proposal.Cmp.{mem_access}
use bootloader_proposal.Command.Access.{
  command_erase_flash_page, command_write_flash, command_crc_region,
}
use bootloader_proposal.Command.Types.{Session, Parts}
use bootloader_proposal.Config.{strings_equal}
use bootloader_proposal.Config.Octets.{replicate-AreBytes}
use bootloader_proposal.Tests.Boards.{hardware, hardware-IsHardware}
use bootloader_proposal.Tests.Codec.{byte_cmp, fetch}
use bootloader_proposal.Tests.Toy.{sum, toy, toy_config, toy_world}
use bootloader_proposal.World.{SameOutside, bytes_at, done}

abbrev motor : Parts
motor = with_driver hardware motor_board_v1 toy

abbrev page : Bytes
page = replicate 2048 7

abbrev called_with : Bytes → Session
called_with args = record {
  args = mem_access args (length args);
  out = mem_access (replicate 8 0) 8;
  config = toy_config;
  world = toy_world;
}

abbrev erase : Session
erase = called_with (0x08004000 ∷ 0 ∷ 1 ∷ 67 ∷ [])

abbrev write : Session
write = called_with (0x08004000 ∷ 0 ∷ 1 ∷ 67 ∷ 2048 ∷ page)

abbrev check : Session
check = called_with (0x08004000 ∷ 206 ∷ 0 ∷ 0 ∷ 8 ∷ 0 ∷ [])

erase-ErasesAt : ErasesAt motor 0x08004000 erase
unfolding strings_equal fetch
erase-ErasesAt = record { accepted = record { high = omega arith; class = refl }; address = refl }

write-WritesAt : WritesAt motor 0x08004000 page write
unfolding strings_equal fetch
write-WritesAt = record {
  accepted = record { high = omega arith; class = refl };
  address = refl;
  binary = refl;
  bytes = refl;
}

check-ChecksAt : ChecksAt motor 0x08004000 2048 check
unfolding fetch
check-ChecksAt = record { address = refl; length = refl }

program_page-board_example :
    (s' t' u' : Session) × (command_erase_flash_page motor 2 erase ≡ done s')
    × (command_write_flash motor 3 (in_world write s'.world) ≡ done t')
    × (command_crc_region motor 2 (in_world check t'.world) ≡ done u')
    × (s'.out ≡ byte_cmp.write_bool erase.out 1)
    × (t'.out ≡ byte_cmp.write_bool write.out 1)
    × (u'.out ≡ byte_cmp.write_uint check.out (sum 0 page))
    × (bytes_at u'.world.memory 0x08004000 2048 ≡ page)
    × (u'.world.locked ≡ true)
    × SameOutside 0x08004000 2048 toy_world.memory u'.world.memory
program_page-board_example =
    program_page-board hardware hardware-IsHardware motor_board_v1 toy 2048 2 3 2 0x08004000 page
      erase write check (refl, record { above = omega arith; before = omega arith; start = refl })
      (length-replicate {A = ℕ} 2048 7) (replicate-AreBytes 2048 7 (omega arith)) erase-ErasesAt
      write-WritesAt check-ChecksAt
