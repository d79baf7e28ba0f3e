-- ===== src/Tests/Boards.antt =====
-- Runs of the theorems on the boards.
use bootloader_proposal.Base.{
  ℕ, if◌then◌else◌, ◌-◌, ◌==◌, false, none, some, List, ltb, ◌^◌, ◌+◌, ◌≡◌, ◌≤◌, ◌<◌, ◌↔◌, refl,
  true, [], ◌∷◌, replicate, arith, u32_mod,
}
use bootloader_proposal.Board.{Board}
use bootloader_proposal.Board.Each.{motor_board_v1, olimex_e407, set_up_of}
use bootloader_proposal.Timeout.{Reading, CountsDown, poll, passed, timeout_reached, total}
use bootloader_proposal.Board.Deadline.{deadline, set_up-deadline}
use bootloader_proposal.Board.Filter.{passes_all, passes_lem}
use bootloader_proposal.Board.Kept.{Hardware, IsHardware, with_driver}
use bootloader_proposal.Bootloader.Locked.{IsLocked, run_loop-IsLocked}
use bootloader_proposal.Bootloader.Node.{Event, Node, Stack, run_loop}
use bootloader_proposal.Datagram
use bootloader_proposal.Datagram.{start, set_data_buffer, set_address_buffer}
use bootloader_proposal.Tests.Flash.{
  erase_sector, program, erase_sector-ErasesSectors, program-Programs, controller,
  controller-IsController,
}
use bootloader_proposal.Board.Layout.{on_board, Spares, execute-Spares}
use bootloader_proposal.Command.{commands, protocol_execute_command}
use bootloader_proposal.Tests.Toy.{toy, toy_config, toy_world}
use bootloader_proposal.World.{All, Leaves}

abbrev fresh : Board
fresh = record {
  calls = [];
  timer = record { timer_freq = 0; timeout_in_millisec = 0; sys_ticks = 0 };
}

-- The command saves the configuration: both pages are erased.
execute-Spares_example :
    Leaves
      (λ r. r.1.world)
      (λ w'. All (Spares olimex_e407) w'.events)
      (protocol_execute_command
        (on_board olimex_e407 toy)
        (2 ∷ 8 ∷ 0 ∷ [])
        3
        (commands (on_board olimex_e407 toy))
        (replicate 4 0)
        4
        toy_config
        toy_world)
execute-Spares_example =
    execute-Spares olimex_e407 toy (2 ∷ 8 ∷ 0 ∷ []) 3 (replicate 4 0) 4 toy_config toy_world tt

-- a write clears the counter, and the next tick loads it
abbrev reads : ℕ → ℕ → Reading
reads written n = record { value = if n == 0 then 0 else 0xFFFFFF + 1 - n; underflow = false }

reads-CountsDown : CountsDown 0xFFFFFF reads 1 1000000
reads-CountsDown = record { value = λ n ge le. ground arith; ticks = λ n ge le. ground arith }

set_up-deadline_example :
    let (t, k) =
      poll 0xFFFFFF reads
        (4000 ∷ 5000 ∷ [])
        (set_up_of motor_board_v1 0xFFFFFF fresh).timer
        (record { written = 0xFFFFFF; since = 0 }) in
    (deadline motor_board_v1 < u32_mod)
    × (((timeout_reached 0xFFFFFF reads t (passed 0xFFFFFF reads 6000 k)).0 ≡ true)
        ↔ (deadline motor_board_v1 ≤ total 0xFFFFFF reads 1 (4000 ∷ 5000 ∷ []) + (6000 - 1)))
unfolding total
set_up-deadline_example =
    set_up-deadline motor_board_v1 0xFFFFFF reads 1 1000000 fresh (4000 ∷ 5000 ∷ []) 6000
      reads-CountsDown refl
      ((omega arith, omega arith), ((omega arith, omega arith), ((omega arith, omega arith), tt)))
      (omega arith)

-- an identifier with bit 8
passes_lem_example :
    passes_all (set_up_of olimex_e407 0xFFFFFF fresh).calls 0x105 ≡ ltb 0x105 (2 ^ 8)
passes_lem_example = passes_lem olimex_e407 0xFFFFFF fresh 0x105 refl (omega arith)

abbrev pub hardware : Hardware
hardware = record {
  controller = controller;
  flash_erase_sector = erase_sector;
  flash_program = program;
}

pub hardware-IsHardware : IsHardware hardware
hardware-IsHardware = record {
  controller = controller-IsController;
  erases = erase_sector-ErasesSectors;
  programs = program-Programs;
}

abbrev node : Node
node = record {
  timeout_active = true;
  config = toy_config;
  datagram =
      start (set_data_buffer (set_address_buffer Datagram.init (replicate 4 0)) (replicate 6 0) 6);
  output_buf = replicate 8 0;
  world = toy_world;
  bus = record { busy = λ n. 2; txok = λ n. true; attempts = 0; reads = 0; wire = [] };
}

abbrev stack : Stack
stack = record { config = toy_config; frame = replicate 8 0 }

-- two frames of a ping, and the timeout
abbrev events : List Event
events =
    record {
      timeout = false;
      message = some (record { id = 131; bytes = 1 ∷ 0 ∷ 0 ∷ 0 ∷ 26 ∷ 2 ∷ 5 ∷ 9 ∷ [] });
    }
    ∷ record {
      timeout = false;
      message = some (record { id = 3; bytes = 0 ∷ 0 ∷ 0 ∷ 3 ∷ 2 ∷ 5 ∷ 0 ∷ [] });
    }
    ∷ record { timeout = true; message = none }
    ∷ []

run_loop-IsLocked_example :
    Leaves
      (λ n'. n'.world)
      IsLocked
      (run_loop (with_driver hardware motor_board_v1 toy) stack events node)
run_loop-IsLocked_example =
    run_loop-IsLocked (with_driver hardware motor_board_v1 toy) stack events node refl
