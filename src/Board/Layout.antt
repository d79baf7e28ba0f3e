-- ===== src/Board/Layout.antt =====
-- Where the linker scripts put the configuration pages and the application, on the pages and sectors
-- of the flash.
use native.Mathlib.Decide.{dec_le}
use bootloader_proposal.Base.{
  ℕ, ◌+◌, ◌-◌, ◌%◌, ◌≤◌, ◌<◌, ◌≡◌, ◌⊎◌, inl, inr, refl, arith, Bytes, List, [], ◌∷◌,
}
use bootloader_proposal.Board.Each.{Kind, motor_board_v1, rc_board_v1, olimex_e407, platform_of}
use bootloader_proposal.Command.{commands, protocol_execute_command}
use bootloader_proposal.Command.Types.{Parts}
use bootloader_proposal.Command.Events.{Changeable, Allowed, IsAllowed, execute-IsAllowed}
use bootloader_proposal.Command.Redundancy.{Disjoint}
use bootloader_proposal.Config.{Config}
use bootloader_proposal.Flash.Sectors.{
  flash_addr_to_sector, flash_addr_to_sector_first, sector_start, sector_size,
}
use bootloader_proposal.World.{
  World, All, FlashEvent, erased, wrote, unlocked, locked, Leaves, Leaves-weaken,
}

-- Erasing at an address erases the whole page around it, on an STM32F3 of 2 KB, and on an STM32F4 the
-- sector that `flash_addr_to_sector` gives.
abbrev pub erased_from : Kind → ℕ → ℕ
erased_from olimex_e407 a = 0x08000000 + sector_start (flash_addr_to_sector a)
erased_from kind a = a - a % 2048

abbrev pub erased_size : Kind → ℕ → ℕ
erased_size olimex_e407 a = sector_size (flash_addr_to_sector a)
erased_size kind a = 2048

-- the end of the flash; of its first bank on the STM32F4
abbrev pub flash_end : Kind → ℕ
flash_end olimex_e407 = 0x08100000
flash_end kind = 0x08040000

-- An erase behind the beginning of the application stays there.
pub erased-app :
    (kind : Kind) (a : ℕ)
    → (platform_of kind).app_addr ≤ a
    → a < flash_end kind
    → (platform_of kind).app_addr ≤ erased_from kind a
erased-app motor_board_v1 a lo hi = omega arith
erased-app rc_board_v1 a lo hi = omega arith
erased-app olimex_e407 a lo hi =
    let s = flash_addr_to_sector_first a (omega arith) hi in ground arith

-- The configuration pages are whole pages, disjoint, and before the application.
pub record IsConfigPage (kind : Kind) (a : ℕ) : Type 0 where
  pub from : erased_from kind a ≡ a
  pub size : erased_size kind a ≡ (platform_of kind).config_page_size
  pub before : a + (platform_of kind).config_page_size ≤ (platform_of kind).app_addr

pub config1-IsConfigPage : (kind : Kind) → IsConfigPage kind (platform_of kind).config1_addr
unfolding flash_addr_to_sector
config1-IsConfigPage motor_board_v1 = record { from = refl; size = refl; before = omega arith }
config1-IsConfigPage rc_board_v1 = record { from = refl; size = refl; before = omega arith }
config1-IsConfigPage olimex_e407 = record { from = refl; size = refl; before = omega arith }

pub config2-IsConfigPage : (kind : Kind) → IsConfigPage kind (platform_of kind).config2_addr
unfolding flash_addr_to_sector
config2-IsConfigPage motor_board_v1 = record { from = refl; size = refl; before = omega arith }
config2-IsConfigPage rc_board_v1 = record { from = refl; size = refl; before = omega arith }
config2-IsConfigPage olimex_e407 = record { from = refl; size = refl; before = omega arith }

pub config-Disjoint :
    (kind : Kind)
    → let p = platform_of kind in Disjoint p.config_page_size p.config1_addr p.config2_addr
config-Disjoint motor_board_v1 = inl (omega arith)
config-Disjoint rc_board_v1 = inl (omega arith)
config-Disjoint olimex_e407 = inl (omega arith)

-- the program on a board
abbrev pub on_board : Kind → Parts → Parts
on_board kind parts = record parts { platform = platform_of kind }

module _ (kind : Kind) where
  open platform_of kind use {app_addr, config1_addr, config2_addr, config_page_size}

  -- What an erase removes is one whole configuration page, or is at or behind the application, or
  -- the address is not in flash. A write begins at a configuration page or at or behind the
  -- application.
  abbrev pub Spares : FlashEvent → Type 0
  Spares unlocked = Unit {0}
  Spares locked = Unit {0}
  Spares (erased a) =
      (flash_end kind ≤ a)
      ⊎ (app_addr ≤ erased_from kind a)
      ⊎ (((a ≡ config1_addr) ⊎ (a ≡ config2_addr))
          × (erased_from kind a ≡ a)
          × (erased_size kind a ≡ config_page_size)
          × (a + config_page_size ≤ app_addr))
  Spares (wrote a bs) = (app_addr ≤ a) ⊎ (a ≡ config1_addr) ⊎ (a ≡ config2_addr)

  page-Spares :
      (a b : ℕ)
      → a ≡ b
      → IsConfigPage kind b
      → ((a ≡ config1_addr) ⊎ (a ≡ config2_addr))
      → Spares (erased a)
  page-Spares a b e p which = inr (inr (which, rw e p.from, rw e p.size, rw e p.before))

  erased-Spares : (parts : Parts) (a : ℕ) → Changeable (on_board kind parts) a → Spares (erased a)
  erased-Spares parts a (inl h) = elim (dec_le (flash_end kind) a) [
    | yes out ↦ inl out
    | no inside ↦ inr (inl (erased-app kind a h (omega arith)))
  ]
  erased-Spares parts a (inr (inl e)) =
      page-Spares a config1_addr e (config1-IsConfigPage kind) (inl e)
  erased-Spares parts a (inr (inr e)) =
      page-Spares a config2_addr e (config2-IsConfigPage kind) (inr e)

  All-Spares :
      (parts : Parts) (es : List FlashEvent)
      → All (Allowed (on_board kind parts)) es
      → All Spares es
  All-Spares parts [] h = tt
  All-Spares parts (unlocked ∷ es) h = (tt, All-Spares parts es h.1)
  All-Spares parts (locked ∷ es) h = (tt, All-Spares parts es h.1)
  All-Spares parts (erased a ∷ es) h = (erased-Spares parts a h.0, All-Spares parts es h.1)
  All-Spares parts (wrote a bs ∷ es) h = (h.0, All-Spares parts es h.1)

  -- On every board, whatever datagram is executed and however that ends, each erase with an address in
  -- flash has removed one whole configuration page, or nothing before the application, and each
  -- write began at a configuration page or at or behind the application, if so far erases and
  -- writes began at these addresses.
  pub execute-Spares :
      (parts : Parts) (data_buf : Bytes) (data_len : ℕ) (out_buf : Bytes) (out_len : ℕ)
      (config : Config) (w : World)
      → IsAllowed (on_board kind parts) w
      → Leaves
          (λ r. r.1.world)
          (λ w'. All Spares w'.events)
          (protocol_execute_command
            (on_board kind parts)
            data_buf
            data_len
            (commands (on_board kind parts))
            out_buf
            out_len
            config
            w)
  execute-Spares parts data_buf data_len out_buf out_len config w h =
      Leaves-weaken (λ r. r.1.world) (IsAllowed (on_board kind parts)) (λ w'. All Spares w'.events)
        (protocol_execute_command (on_board kind parts) data_buf data_len
          (commands (on_board kind parts)) out_buf out_len config w)
        (λ w'. All-Spares parts w'.events)
        (execute-IsAllowed (on_board kind parts) data_buf data_len out_buf out_len config w h)
