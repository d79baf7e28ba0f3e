-- ===== src/Board/Kept.antt =====
-- The main loop on the boards, with their flash drivers.
use bootloader_proposal.Base.{Bool, ℕ, ◌≤◌, refl, arith, Bytes}
use bootloader_proposal.Board.Each.{Kind, motor_board_v1, rc_board_v1, olimex_e407, platform_of}
use bootloader_proposal.Bootloader.Node.{Node}
use bootloader_proposal.Command.Save.{StoresPages}
use bootloader_proposal.Command.Types.{Parts}
use bootloader_proposal.Flash.Area.{is_within}
use bootloader_proposal.Flash.Stm32f3.{Controller, IsController, driver, idle}
use bootloader_proposal.Flash.Stm32f3.Pages.{IsPage, driver-Implements}
use bootloader_proposal.Flash.Stm32f4.{
  ErasesSectors, Programs, IsSector, flash_writer, flash_writer-Implements,
}
use bootloader_proposal.World.{FlashEvent, Memory, Change, FlashWriter, KeepsToPages}

-- the flash controller of the STM32F3, and the functions of libopencm3 for the STM32F4
pub record Hardware : Type 0 where
  pub controller : Controller
  pub flash_erase_sector : (sector program_size : ℕ) → Memory → Change
  pub flash_program : ℕ → Bytes → Memory → Change

pub record IsHardware (h : Hardware) : Type 0 where
  pub controller : IsController h.controller
  pub erases : ErasesSectors h.flash_erase_sector
  pub programs : Programs h.flash_program

module _ (h : Hardware) where
  abbrev pub flash_of : Kind → FlashWriter
  flash_of motor_board_v1 = driver h.controller (idle 0)
  flash_of rc_board_v1 = driver h.controller (idle 0)
  flash_of olimex_e407 = flash_writer h.flash_erase_sector h.flash_program

  -- the program on a board, with its driver
  abbrev pub with_driver : Kind → Parts → Parts
  with_driver kind parts = record parts { platform = platform_of kind; flash = flash_of kind }

  -- The erases and writes of which the manuals say what they do: those in flash, in the first bank
  -- of an STM32F4, and on an STM32F3 writes from a half-word on.
  abbrev pub within_of : Kind → FlashEvent → Bool
  within_of olimex_e407 = is_within 0x08100000 1
  within_of kind = is_within 0x08040000 2

  module _ (laws : IsHardware h) where
    abbrev pub IsPageOf : Kind → ℕ → Type 0
    IsPageOf motor_board_v1 = IsPage
    IsPageOf rc_board_v1 = IsPage
    IsPageOf olimex_e407 = IsSector 0x4000

    pub flash_of-KeepsToPages :
        (kind : Kind)
        → KeepsToPages (flash_of kind) (platform_of kind).config_page_size (IsPageOf kind)
    flash_of-KeepsToPages motor_board_v1 =
        (driver-Implements h.controller laws.controller 0x08003800 refl).keeps 0
    flash_of-KeepsToPages rc_board_v1 =
        (driver-Implements h.controller laws.controller 0x08003800 refl).keeps 0
    flash_of-KeepsToPages olimex_e407 =
        (flash_writer-Implements h.flash_erase_sector h.flash_program laws.erases
          laws.programs).keeps

    pub flash_of-StoresPages :
        (kind : Kind)
        → StoresPages (flash_of kind) (platform_of kind).config_page_size (IsPageOf kind)
    flash_of-StoresPages motor_board_v1 =
        (driver-Implements h.controller laws.controller 0x08003800 refl).stores 0
    flash_of-StoresPages rc_board_v1 =
        (driver-Implements h.controller laws.controller 0x08003800 refl).stores 0
    flash_of-StoresPages olimex_e407 =
        (flash_writer-Implements h.flash_erase_sector h.flash_program laws.erases
          laws.programs).stores

    pub config_pages :
        (kind : Kind)
        → IsPageOf kind (platform_of kind).config1_addr
          × IsPageOf kind (platform_of kind).config2_addr
    config_pages motor_board_v1 = (
      record { above = omega arith; before = omega arith; start = refl },
      record { above = omega arith; before = omega arith; start = refl },
    )
    config_pages rc_board_v1 = (
      record { above = omega arith; before = omega arith; start = refl },
      record { above = omega arith; before = omega arith; start = refl },
    )
    config_pages olimex_e407 =
        let i =
          flash_writer-Implements h.flash_erase_sector h.flash_program laws.erases laws.programs in
        (i.first, i.second)

    pub config-room : (kind : Kind) → 256 ≤ (platform_of kind).config_page_size
    config-room motor_board_v1 = omega arith
    config-room rc_board_v1 = omega arith
    config-room olimex_e407 = omega arith
