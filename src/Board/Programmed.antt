-- ===== src/Board/Programmed.antt =====
-- Writing a page of the application by the commands, and checking it, on the boards.
use bootloader_proposal.Base.{
  ℕ, ◌≡◌, refl, ◌∙◌, ap, sym, true, some, length, Bytes, AreBytes, first?, drop,
}
use mathlib.Core.Path.{subst}
use bootloader_proposal.Board.Each.{Kind, motor_board_v1, rc_board_v1, olimex_e407}
use bootloader_proposal.Board.Kept.{Hardware, IsHardware, with_driver}
use bootloader_proposal.Command.Access.{
  command_erase_flash_page, command_write_flash, command_crc_region, read_address,
}
use bootloader_proposal.Command.Guard.{Accepted, address_of, bin_of, erase-Accepted, write-Accepted}
use bootloader_proposal.Command.Save.{StoresPages}
use bootloader_proposal.Command.Types.{Session, Parts}
use bootloader_proposal.Flash.Stm32f3.{driver, idle}
use bootloader_proposal.Flash.Stm32f3.Pages.{IsPage, driver-Implements}
use bootloader_proposal.Flash.Stm32f4.{
  IsSector, flash_writer-KeepsToPages, flash_writer-StoresPages,
}
use bootloader_proposal.World.{World, SameOutside, KeepsToPages, bytes_at, done}

abbrev pub in_world : Session → World → Session
in_world s w = record s { world = w }

-- The arguments of the erase command: an address that it accepts.
pub record ErasesAt (parts : Parts) (a : ℕ) (s : Session) : Type 0 where
  pub accepted : Accepted parts s
  pub address : address_of parts s ≡ a

-- The arguments of the write command: an address that it accepts, and bytes.
pub record WritesAt (parts : Parts) (a : ℕ) (src : Bytes) (s : Session) : Type 0 where
  pub accepted : Accepted parts s
  pub address : address_of parts s ≡ a
  pub binary : (bin_of parts s).0 ≡ true
  pub bytes :
      first? (bin_of parts s).1 (drop (bin_of parts s).2.position (bin_of parts s).2.buffer)
      ≡ some src

-- The arguments of the CRC command: a region.
pub record ChecksAt (parts : Parts) (a size : ℕ) (s : Session) : Type 0 where
  pub address : (read_address parts parts.locals.number s).0 ≡ a
  pub length :
      (parts.cmp.read_uint (read_address parts parts.locals.number s).1.args parts.locals.number).1
      ≡ size

module _ (parts : Parts) (IsWhole : ℕ → Type 0) (size : ℕ)
    (keeps : KeepsToPages parts.flash size IsWhole)
    (stores : StoresPages parts.flash size IsWhole) where
  open parts use {crc32, cmp, flash}

  crc_region-bytes :
      (argc a : ℕ) (src : Bytes) (s : Session)
      → ChecksAt parts a size s
      → bytes_at s.world.memory a size ≡ src
      → (s' : Session) × (command_crc_region parts argc s ≡ done s')
        × (s'.out ≡ cmp.write_uint s.out (crc32 0 src))
        × (s'.world ≡ s.world)
  unfolding command_crc_region
  crc_region-bytes argc a src s at_region e =
      rw (at_region.address, at_region.length, e) (_, refl, refl, refl)

  -- what the three commands of a page do, in their order
  pub program_page :
      (argc₁ argc₂ argc₃ a : ℕ) (src : Bytes) (s t u : Session)
      → IsWhole a
      → length src ≡ size
      → AreBytes src
      → ErasesAt parts a s
      → WritesAt parts a src t
      → ChecksAt parts a size u
      → (s' t' u' : Session) × (command_erase_flash_page parts argc₁ s ≡ done s')
        × (command_write_flash parts argc₂ (in_world t s'.world) ≡ done t')
        × (command_crc_region parts argc₃ (in_world u t'.world) ≡ done u')
        × (s'.out ≡ cmp.write_bool s.out 1)
        × (t'.out ≡ cmp.write_bool t.out 1)
        × (u'.out ≡ cmp.write_uint u.out (crc32 0 src))
        × (bytes_at u'.world.memory a size ≡ src)
        × (u'.world.locked ≡ true)
        × SameOutside a size s.world.memory u'.world.memory
  program_page argc₁ argc₂ argc₃ a src s t u page len bytes erases writes checks =
      let m = s.world.memory in
      let blank = (flash.page_erase a m).final in
      let (s', erased, s_out, s_world, _) = erase-Accepted parts argc₁ s erases.accepted in
      let s_memory : s'.world.memory ≡ blank =
        ap (λ w. w.memory) s_world ∙ ap (λ x. (flash.page_erase x m).final) erases.address in
      let (t', written, t_out, t_world, _) =
        write-Accepted parts argc₂ (in_world t s'.world) src
          (record { high = writes.accepted.high; class = writes.accepted.class }) writes.binary
          writes.bytes in
      let t_memory : t'.world.memory ≡ (flash.page_write a src blank).final =
        ap (λ w. w.memory) t_world
        ∙ ap (λ x. (flash.page_write x src s'.world.memory).final) writes.address
        ∙ ap (λ n. (flash.page_write a src n).final) s_memory in
      let holds : bytes_at t'.world.memory a size ≡ src =
        ap (λ n. bytes_at n a size) t_memory ∙ stores a src m page len bytes in
      let (u', checked, u_out, u_world) =
        crc_region-bytes argc₃ a src (in_world u t'.world)
          (record { address = checks.address; length = checks.length }) holds in
      (
        s',
        t',
        u',
        erased,
        written,
        checked,
        s_out,
        t_out,
        u_out,
        ap (λ w. bytes_at w.memory a size) u_world ∙ holds,
        ap (λ w. w.locked) u_world ∙ ap (λ w. w.locked) t_world,
        λ x out.
            ap (λ w. w.memory x) u_world
            ∙ ap (λ n. n x) t_memory
            ∙ keeps.write_final a src blank page len x out
            ∙ keeps.erase_final a m page x out,
      )

-- a page of a board's flash, and its size: 2048 bytes on an STM32F3, a sector on an STM32F4
abbrev pub IsPageOn : Kind → ℕ → ℕ → Type 0
IsPageOn motor_board_v1 size a = (size ≡ 2048) × IsPage a
IsPageOn rc_board_v1 size a = (size ≡ 2048) × IsPage a
IsPageOn olimex_e407 size a = IsSector size a

module _ (h : Hardware) (laws : IsHardware h) where
  driver-KeepsToPages :
      (size : ℕ) → size ≡ 2048 → KeepsToPages (driver h.controller (idle 0)) size IsPage
  driver-KeepsToPages size e =
      subst (λ n. KeepsToPages (driver h.controller (idle 0)) n IsPage) (sym e)
        ((driver-Implements h.controller laws.controller 0x08003800 refl).keeps 0)

  driver-StoresPages :
      (size : ℕ) → size ≡ 2048 → StoresPages (driver h.controller (idle 0)) size IsPage
  driver-StoresPages size e =
      subst (λ n. StoresPages (driver h.controller (idle 0)) n IsPage) (sym e)
        ((driver-Implements h.controller laws.controller 0x08003800 refl).stores 0)

  -- On every board, with its own flash driver: the erase command for a page, the write command with
  -- the bytes of a whole page, and the CRC command for the page, one after the other, return. The
  -- first two answer true, the third answers the CRC of the bytes that were sent, flash then holds
  -- these bytes in the page, and no other address has changed. The page is one of 2048 bytes on an
  -- STM32F3, a sector of the first bank on an STM32F4, not below the application, the device class
  -- of both commands is the configured one, and the flash does what its reference manual and
  -- libopencm3 say.
  pub program_page-board :
      (kind : Kind) (parts : Parts) (size argc₁ argc₂ argc₃ a : ℕ) (src : Bytes) (s t u : Session)
      → IsPageOn kind size a
      → length src ≡ size
      → AreBytes src
      → ErasesAt (with_driver h kind parts) a s
      → WritesAt (with_driver h kind parts) a src t
      → ChecksAt (with_driver h kind parts) a size u
      → (s' t' u' : Session) × (command_erase_flash_page (with_driver h kind parts) argc₁ s
          ≡ done s')
        × (command_write_flash (with_driver h kind parts) argc₂ (in_world t s'.world) ≡ done t')
        × (command_crc_region (with_driver h kind parts) argc₃ (in_world u t'.world) ≡ done u')
        × (s'.out ≡ parts.cmp.write_bool s.out 1)
        × (t'.out ≡ parts.cmp.write_bool t.out 1)
        × (u'.out ≡ parts.cmp.write_uint u.out (parts.crc32 0 src))
        × (bytes_at u'.world.memory a size ≡ src)
        × (u'.world.locked ≡ true)
        × SameOutside a size s.world.memory u'.world.memory
  program_page-board motor_board_v1 parts size argc₁ argc₂ argc₃ a src s t u (e, page) =
      program_page (with_driver h motor_board_v1 parts) IsPage size (driver-KeepsToPages size e)
        (driver-StoresPages size e) argc₁ argc₂ argc₃ a src s t u page
  program_page-board rc_board_v1 parts size argc₁ argc₂ argc₃ a src s t u (e, page) =
      program_page (with_driver h rc_board_v1 parts) IsPage size (driver-KeepsToPages size e)
        (driver-StoresPages size e) argc₁ argc₂ argc₃ a src s t u page
  program_page-board olimex_e407 parts size argc₁ argc₂ argc₃ a src s t u page =
      program_page (with_driver h olimex_e407 parts) (IsSector size) size
        (flash_writer-KeepsToPages h.flash_erase_sector h.flash_program laws.erases laws.programs
          size)
        (flash_writer-StoresPages h.flash_erase_sector h.flash_program laws.erases laws.programs
          size)
        argc₁ argc₂ argc₃ a src s t u page
