-- ===== src/Bootloader/Locked.antt =====
-- The lock of the flash.
use bootloader_proposal.Base.{ℕ, ◌≡◌, refl, true, List, arith}
use bootloader_proposal.Bootloader.Keeping.{run_loop-Leaves}
use bootloader_proposal.Bootloader.Node.{Event, Node, Stack, run_loop}
use bootloader_proposal.Command.Access.{command_erase_flash_page, command_write_flash}
use bootloader_proposal.Command.Keeping.{KeepsFlash}
use bootloader_proposal.Command.Pages.{rewrite_page}
use bootloader_proposal.Command.Saving.{config_write-Keeps}
use bootloader_proposal.Command.Types.{Session, Parts}
use bootloader_proposal.World.{World, Leaves}

abbrev pub IsLocked : World → Type 0
IsLocked w = w.locked ≡ true

module _ (parts : Parts) where
  erase-Keeps :
      (argc : ℕ) (s : Session)
      → IsLocked s.world
      → Leaves (λ s. s.world) IsLocked (command_erase_flash_page parts argc s)
  unfolding command_erase_flash_page
  erase-Keeps argc s h = ground arith

  write-Keeps :
      (argc : ℕ) (s : Session)
      → IsLocked s.world
      → Leaves (λ s. s.world) IsLocked (command_write_flash parts argc s)
  unfolding command_write_flash
  write-Keeps argc s h = ground arith

  rewrite-Keeps : (a : ℕ) (w : World) → IsLocked (rewrite_page parts a w)
  unfolding rewrite_page
  rewrite-Keeps a w = refl

  commands-KeepsFlash : KeepsFlash parts IsLocked
  commands-KeepsFlash = record {
    erase = erase-Keeps;
    write = write-Keeps;
    save = config_write-Keeps parts IsLocked (λ a w c h. rewrite-Keeps a w) (λ w page h. h);
  }

-- Whatever frames come, whatever sends fail, and whenever the timeout is reached: where the flash is
-- locked before, it is locked again behind the run or at the reset, also behind commands that erase,
-- write or save. After an access outside an object nothing is said.
pub run_loop-IsLocked :
    (parts : Parts) (stack : Stack) (es : List Event) (n : Node)
    → IsLocked n.world
    → Leaves (λ n'. n'.world) IsLocked (run_loop parts stack es n)
run_loop-IsLocked parts stack es n h =
    run_loop-Leaves parts stack IsLocked (commands-KeepsFlash parts) es n h
