-- ===== src/Command/Events.antt =====
-- Which addresses the commands erase and write.
use bootloader_proposal.Base.{ℕ, ◌≤◌, ◌≡◌, ◌⊎◌, inr, arith, Bytes}
use bootloader_proposal.Config.{Config}
use bootloader_proposal.World.{World, Run, FlashEvent, erased, wrote, unlocked, locked, All, Leaves}
use bootloader_proposal.Command.Keeping.{execute-Keeps}
use bootloader_proposal.Command.{commands, protocol_execute_command}
use bootloader_proposal.Command.Access.{command_erase_flash_page, command_write_flash}
use bootloader_proposal.Command.Pages.{rewrite_page}
use bootloader_proposal.Command.Saving.{IsConfigAddr, config_write-Keeps}
use bootloader_proposal.Command.Types.{Session, Parts}

module _ (parts : Parts) where
  open parts use {platform, cmp, locals}

  -- an address at which flash may change
  abbrev pub Changeable : ℕ → Type 0
  Changeable a = (platform.app_addr ≤ a) ⊎ (a ≡ platform.config1_addr) ⊎ (a ≡ platform.config2_addr)

  abbrev pub Allowed : FlashEvent → Type 0
  Allowed unlocked = Unit {0}
  Allowed locked = Unit {0}
  Allowed (erased a) = Changeable a
  Allowed (wrote a bs) = Changeable a

  abbrev pub IsAllowed : World → Type 0
  IsAllowed w = All Allowed w.events

  abbrev Keeps : Run Session → Type 0
  Keeps = Leaves (λ s. s.world) IsAllowed

  erase-Keeps :
      (argc : ℕ) (s : Session) → IsAllowed s.world → Keeps (command_erase_flash_page parts argc s)
  unfolding command_erase_flash_page
  erase-Keeps argc s h = ground arith

  write-Keeps :
      (argc : ℕ) (s : Session) → IsAllowed s.world → Keeps (command_write_flash parts argc s)
  unfolding command_write_flash
  write-Keeps argc s h = ground arith

  rewrite-Keeps :
      (a : ℕ) (w : World) → IsConfigAddr parts a → IsAllowed w → IsAllowed (rewrite_page parts a w)
  unfolding rewrite_page
  rewrite-Keeps a w c h = (tt, (inr c, (inr c, (tt, h))))

  -- Whatever datagram is executed, and however the execution ends, every page that was erased and
  -- every write that was started is at or behind the application's address, or at one of the two
  -- configuration pages, if that was so before.
  pub execute-IsAllowed :
      (data_buf : Bytes) (data_len : ℕ) (out_buf : Bytes) (out_len : ℕ) (config : Config)
      (w : World)
      → IsAllowed w
      → Leaves
          (λ r. r.1.world)
          IsAllowed
          (protocol_execute_command parts data_buf data_len
            (commands parts)
            out_buf
            out_len
            config
            w)
  execute-IsAllowed = execute-Keeps parts IsAllowed (record {
    erase = erase-Keeps;
    write = write-Keeps;
    save = config_write-Keeps parts IsAllowed rewrite-Keeps (λ w page h. h);
  })
