-- ===== src/Flash/Stm32f3.antt =====
-- platform/mcu/stm32f3/flash_writer.c with the control register, as an implementation of flash_writer.h
-- on the boards with an STM32F3. The flash controller is a parameter. The waits for its last
-- operation and the flag FLASH_SR_EOP are left out.
pub mod Programming
pub mod Pages
use bootloader_proposal.Base.{
  ℕ, zero, suc, ◌+◌, ◌-◌, ◌*◌, ◌/◌, ◌%◌, ◌^◌, ◌≤◌, ◌<◌, ◌≡◌, List, AreBytes, inl, refl, ap, ◌∙◌,
  Bool, true, false, [], ◌∷◌, ◌++◌, length, arith, Bytes, u8_mod,
}
use bootloader_proposal.Command.Below.{SameBelow, KeepsBelow}
use bootloader_proposal.Command.Save.{StoresPages}
use bootloader_proposal.Flash.Area.{flash_base, is_within}
use bootloader_proposal.Flash.HalfWords.{
  flash_write_half_word, write_half_words, half_word-outside, write-bytes_at,
}
use bootloader_proposal.World.{
  Memory, Change, FlashWriter, SameOutside, KeepsToPages, All, All-weaken, bytes_at, erased, wrote,
}

-- the bits FLASH_CR_PER and FLASH_CR_PG, and the register FLASH_AR
pub record Control : Type 0 where
  pub per : Bool
  pub pg : Bool
  pub ar : ℕ

-- what the flash does when FLASH_CR_STRT is set, and when a half-word is stored to it
pub record Controller : Type 0 where
  pub start : Control → Memory → Change
  pub store : Control → (a half_word : ℕ) → Memory → Memory

module _ (flash : Controller) where
  unfoldable pub page_erase : ℕ → Control → Memory → Control × Change
  page_erase page c m =
      let c = record c { per = true } in
      let c = record c { ar = page } in
      let change = flash.start c m in (record c { per = false }, change)

  unfoldable pub program_half_word : ℕ → ℕ → Control → Memory → Control × Memory
  program_half_word a half_word c m =
      let c = record c { pg = true } in (c, flash.store c a half_word m)

  -- the loop, and the odd byte behind it, which keeps its neighbour
  unfoldable pub program_bytes : ℕ → Bytes → Control → Memory → Control × Change
  unfolding program_half_word
  program_bytes a [] c m = (c, record { passing = []; final = m })
  program_bytes a (b ∷ []) c m =
      let (c, m') = program_half_word a (b + m (a + 1) % u8_mod * 2 ^ 8) c m in
      (c, record { passing = []; final = m' })
  program_bytes a (b₀ ∷ b₁ ∷ bs) c m =
      let (c, m') = program_half_word a (b₀ + b₁ * 2 ^ 8) c m in
      let (c, change) = program_bytes (a + 2) bs c m' in
      (c, record { passing = change.passing ++ m' ∷ []; final = change.final })

  unfoldable pub page_write : ℕ → Bytes → Control → Memory → Control × Change
  unfolding program_bytes
  page_write page bs c m =
      let (c, change) = program_bytes page bs c m in (record c { pg = false }, change)

-- no bit is set, as after a reset
abbrev pub idle : ℕ → Control
idle ar = record { per = false; pg = false; ar = ar }

-- the end of the flash of 256 KB
abbrev pub flash_end : ℕ
flash_end = 0x08040000

-- a half-word of the flash
pub record IsHalfWord (a : ℕ) : Type 0 where
  pub above : flash_base ≤ a
  pub before : a + 2 ≤ flash_end
  pub even : a % 2 ≡ 0

-- The reference manual, on addresses of the flash: with PER alone the start erases the page of 2 KB
-- around the address in FLASH_AR to 0xFF. With PG alone a half-word that is stored is programmed where
-- it is erased; else the store may be skipped, and changes the half-word at most.
pub record IsController (flash : Controller) : Type 0 where
  pub erase_passing :
      (a : ℕ) (m : Memory)
      → flash_base ≤ a
      → a < flash_end
      → All
          (SameOutside (a - a % 2048) 2048 m)
          (flash.start (record { per = true; pg = false; ar = a }) m).passing
  pub erase_final :
      (a : ℕ) (m : Memory)
      → flash_base ≤ a
      → a < flash_end
      → SameOutside
          (a - a % 2048)
          2048
          m
          (flash.start (record { per = true; pg = false; ar = a }) m).final
  pub blank :
      (a : ℕ) (m : Memory) (x : ℕ)
      → flash_base ≤ a
      → a < flash_end
      → a - a % 2048 ≤ x
      → x < a - a % 2048 + 2048
      → (flash.start (record { per = true; pg = false; ar = a }) m).final x ≡ 255
  pub program :
      (ar a h : ℕ) (m : Memory)
      → IsHalfWord a
      → m a ≡ 255
      → m (a + 1) ≡ 255
      → flash.store (record { per = false; pg = true; ar = ar }) a h m ≡ flash_write_half_word a h m
  pub outside :
      (ar a h : ℕ) (m : Memory)
      → IsHalfWord a
      → SameOutside a 2 m (flash.store (record { per = false; pg = true; ar = ar }) a h m)

-- The driver as a flash writer, in a state of the control register.
abbrev pub driver : Controller → Control → FlashWriter
driver flash c = record {
  page_erase = λ a m. (page_erase flash a c m).1;
  page_write = λ a bs m. (page_write flash a bs c m).1;
}
