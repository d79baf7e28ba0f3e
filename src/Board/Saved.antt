-- ===== src/Board/Saved.antt =====
-- Saving a configuration on the boards, with their flash drivers.
use bootloader_proposal.Base.{ℕ, ◌+◌, ◌%◌, ◌<◌, ◌≡◌, Bytes, u32_mod}
use bootloader_proposal.Board.Each.{Kind}
use bootloader_proposal.Board.Kept.{
  Hardware, IsHardware, with_driver, IsPageOf, flash_of-KeepsToPages, flash_of-StoresPages,
  config_pages, config-room,
}
use bootloader_proposal.Board.Layout.{config-Disjoint}
use bootloader_proposal.Bootloader.Node.{Stack, boot_config}
use bootloader_proposal.Bootloader.Saved.{boot_config-save}
use bootloader_proposal.Cmp.{WritesInPlace, WritesBytes}
use bootloader_proposal.Command.Pages.{command_config_write_to_flash}
use bootloader_proposal.Command.Types.{Session, Parts}
use bootloader_proposal.Config.{Config}
use bootloader_proposal.Config.Items.{IsLawful}
use bootloader_proposal.Config.Page.{IsTerminated}
use bootloader_proposal.Config.Reread.{HasBuffers}
use bootloader_proposal.Config.Text.{SaysSame}
use bootloader_proposal.Config.Written.{HasText, InRange}
use bootloader_proposal.World.{done}

-- What the program relies on in its libraries: CRCs have 32 bits, and the MessagePack library writes
-- bytes in place and reads what it has written.
pub record HasLibraries (parts : Parts) : Type 1 where
  pub in_place : WritesInPlace parts.cmp
  pub bytes : WritesBytes parts.cmp
  pub laws : IsLawful parts.cmp
  pub crc_word : (c : ℕ) (bs : Bytes) → parts.crc32 c bs < u32_mod

-- On every board, with its own flash driver: saving a configuration returns and answers true, and
-- the next start reads the configuration that was saved: its update count is one more, and all else
-- says the same. The strings are of bytes, terminated in buffers of 65, the numbers fit their
-- fields, the flash does what its reference manual and libopencm3 say, CRCs have 32 bits, and the
-- MessagePack library writes bytes in place and reads what it has written. What flash and the local
-- variables hold before does not matter.
pub boot_config-board :
    (h : Hardware) (kind : Kind) (parts : Parts) (stack : Stack) (argc : ℕ) (s : Session)
    → IsHardware h
    → HasLibraries parts
    → IsTerminated s.config
    → InRange s.config
    → HasText s.config
    → HasBuffers stack.config parts.locals.buffer64
    → (s' : Session) × (config : Config) × (command_config_write_to_flash
          (with_driver h kind parts)
          argc
          s
        ≡ done s')
      × (s'.out ≡ parts.cmp.write_bool s.out 1)
      × (boot_config (with_driver h kind parts) stack s'.world ≡ done config)
      × SaysSame config (record s.config { update_count = (s.config.update_count + 1) % u32_mod })
boot_config-board h kind parts stack argc s hardware l t r text b =
    let (page₁, page₂) = config_pages h hardware kind in
    boot_config-save (with_driver h kind parts) (IsPageOf h hardware kind)
      (flash_of-KeepsToPages h hardware kind) page₁ page₂ (config-Disjoint kind) l.in_place l.bytes
      l.laws l.crc_word (flash_of-StoresPages h hardware kind) (config-room h hardware kind) stack
      argc s t r text b
