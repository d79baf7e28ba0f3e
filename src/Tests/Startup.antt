-- ===== src/Tests/Startup.antt =====
-- Runs of the theorems on the start of the system.
use bootloader_proposal.Base.{
  ℕ, ◌≡◌, ◌==◌, inl, inr, refl, some, if◌then◌else◌, replicate, [], arith,
}
use bootloader_proposal.Cmp.{mem_access}
use bootloader_proposal.Command.Access.{command_jump_to_application}
use bootloader_proposal.Command.Types.{Session}
use bootloader_proposal.Startup.{
  Machine, Layout, jumped, startup, load_word, reboot_system, reset_handler, bootloader_startup,
}
use bootloader_proposal.Startup.Arg.{booted, emptied, reset_handler-reboot_system}
use bootloader_proposal.Startup.Jump.{rebooted, jump-started}
use bootloader_proposal.Startup.Ram.{IsLaidOut, initial, bootloader_startup_lem}
use bootloader_proposal.Tests.Toy.{sum, toy, toy_config, toy_world}
use bootloader_proposal.World.{bytes_at, reset}

-- all memory holds 7
abbrev sevens : Machine
sevens = record { memory = λ a. 7; vtor = 0 }

reset_handler-reboot_system_example :
    reset_handler 0x08003800 (record { memory = reboot_system 2 (λ a. 7); vtor = 0 })
    ≡ booted 0x08003800 2 sevens
reset_handler-reboot_system_example =
    reset_handler-reboot_system 0x08003800 2 sevens (omega arith) (inl (omega arith))

-- .bss of two words behind .data of one
abbrev layout : Layout
layout = record {
  sbss = 0x20000004;
  ebss = 0x2000000C;
  sdata = 0x20000000;
  edata = 0x20000004;
  ldata = 0x08002000;
}

layout-IsLaidOut : IsLaidOut layout 2 1
layout-IsLaidOut = record {
  bss = refl;
  data_section = refl;
  sections_apart = inr (omega arith);
  image_apart = inr (omega arith);
  image_kept = inr (omega arith);
}

bootloader_startup_lem_example :
    bootloader_startup 3 layout (λ a. 7) ≡ some (initial layout (λ a. 7))
bootloader_startup_lem_example =
    bootloader_startup_lem 3 2 1 layout (λ a. 7) layout-IsLaidOut (λ a. omega arith) (omega arith)
      (omega arith)

abbrev jumping : Session
jumping = record {
  args = mem_access [] 0;
  out = mem_access (replicate 4 0) 4;
  config = toy_config;
  world = toy_world;
}

jump-started_example :
    (arg : ℕ) × (command_jump_to_application toy 0 jumping ≡ reset arg toy_world)
    × (reset_handler 64 (rebooted arg 0 toy_world) ≡ (
        if sum 0 (bytes_at toy_world.memory 64 3) == 0
        then jumped
            (load_word toy_world.memory 64)
            (load_word toy_world.memory 68)
            (record { memory = emptied toy_world.memory; vtor = 64 })
        else startup 1 (record { memory = emptied toy_world.memory; vtor = 0 })))
jump-started_example = jump-started toy 0 0 jumping (inl (omega arith))
