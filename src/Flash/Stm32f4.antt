-- ===== src/Flash/Stm32f4.antt =====
-- platform/mcu/stm32f4/flash_writer.c as an implementation of flash_writer.h on olimex-e407. The
-- functions `flash_erase_sector` and `flash_program` of libopencm3 are parameters.
use bootloader_proposal.Base.{
  ℕ, true, ◌+◌, ◌≤◌, ◌<◌, ◌≡◌, inl, refl, length, arith, AreBytes, Bytes,
}
use bootloader_proposal.Board.Each.{olimex_e407, platform_of}
use bootloader_proposal.Board.Layout.{erased_from, erased-app}
use bootloader_proposal.Command.Save.{StoresPages}
use bootloader_proposal.Command.Below.{SameBelow, KeepsBelow}
use bootloader_proposal.Flash.Area.{flash_base, is_within}
use bootloader_proposal.Flash.Sectors.{
  flash_addr_to_sector, flash_addr_to_sector_first, sector_start, sector_size,
}
use bootloader_proposal.World.{
  Memory, Change, FlashWriter, SameOutside, KeepsToPages, All, All-weaken, Platform, bytes_at,
  erased, wrote,
}

abbrev pub flash_program_size : ℕ
flash_program_size = 0

-- To erase one of the sectors 0 to 11 sets its bytes to 0xFF and changes nothing outside it. Nothing is
-- said of another number.
pub record ErasesSectors (flash_erase_sector : (sector program_size : ℕ) → Memory → Change)
    : Type 0 where
  pub passing :
      (n p : ℕ) (m : Memory)
      → n < 12
      → All
          (SameOutside (flash_base + sector_start n) (sector_size n) m)
          (flash_erase_sector n p m).passing
  pub final :
      (n p : ℕ) (m : Memory)
      → n < 12
      → SameOutside (flash_base + sector_start n) (sector_size n) m (flash_erase_sector n p m).final
  pub blank :
      (n p : ℕ) (m : Memory) (x : ℕ)
      → n < 12
      → flash_base + sector_start n ≤ x
      → x < flash_base + sector_start n + sector_size n
      → (flash_erase_sector n p m).final x ≡ 255

-- bytes that are in the first bank
pub record IsInBank (a : ℕ) (bs : Bytes) : Type 0 where
  pub above : flash_base ≤ a
  pub in_bank : a + length bs ≤ 0x08100000

-- To program bytes in the first bank changes nothing outside them, and stores bytes where all bytes are
-- 0xFF.
pub record Programs (flash_program : ℕ → Bytes → Memory → Change) : Type 0 where
  pub passing :
      (a : ℕ) (bs : Bytes) (m : Memory)
      → IsInBank a bs
      → All (SameOutside a (length bs) m) (flash_program a bs m).passing
  pub final :
      (a : ℕ) (bs : Bytes) (m : Memory)
      → IsInBank a bs
      → SameOutside a (length bs) m (flash_program a bs m).final
  pub stores :
      (a : ℕ) (bs : Bytes) (m : Memory)
      → IsInBank a bs
      → AreBytes bs
      → ((x : ℕ) → a ≤ x → x < a + length bs → m x ≡ 255)
      → bytes_at (flash_program a bs m).final a (length bs) ≡ bs

-- a whole sector of the first bank, of the given size
pub record IsSector (size a : ℕ) : Type 0 where
  pub above : flash_base ≤ a
  pub in_bank : a + size ≤ 0x08100000
  pub some : 0 < size
  pub start : flash_base + sector_start (flash_addr_to_sector a) ≡ a
  pub whole : sector_size (flash_addr_to_sector a) ≡ size

-- What the commands and the start ask of the flash writer of a platform.
pub record Implements (flash : FlashWriter) (platform : Platform) : Type 0 where
  pub keeps : KeepsToPages flash platform.config_page_size (IsSector platform.config_page_size)
  pub stores : StoresPages flash platform.config_page_size (IsSector platform.config_page_size)
  pub below : KeepsBelow flash platform.app_addr (is_within 0x08100000 1)
  pub first : IsSector platform.config_page_size platform.config1_addr
  pub second : IsSector platform.config_page_size platform.config2_addr

module _ (flash_erase_sector : (sector program_size : ℕ) → Memory → Change)
    (flash_program : ℕ → Bytes → Memory → Change) where
  abbrev pub flash_writer : FlashWriter
  flash_writer = record {
    page_erase = λ a m. flash_erase_sector (flash_addr_to_sector a) flash_program_size m;
    page_write = λ a bs m. flash_program a bs m;
  }

  module _ (erases : ErasesSectors flash_erase_sector) (programs : Programs flash_program) where
    erased-page :
        (size a : ℕ) (m n : Memory)
        → IsSector size a
        → SameOutside
            (flash_base + sector_start (flash_addr_to_sector a))
            (sector_size (flash_addr_to_sector a))
            m
            n
        → SameOutside a size m n
    erased-page size a m n page same x out = same x (omega (arith, page.start, page.whole))

    first-bank : (size a : ℕ) → IsSector size a → flash_addr_to_sector a < 12
    first-bank size a page =
        (flash_addr_to_sector_first a page.above (omega (arith, page.in_bank, page.some))).0

    bytes-IsInBank : (size a : ℕ) (bs : Bytes) → IsSector size a → length bs ≡ size → IsInBank a bs
    bytes-IsInBank size a bs page len = record {
      above = page.above;
      in_bank = omega (arith, page.in_bank, len);
    }

    pub flash_writer-KeepsToPages : (size : ℕ) → KeepsToPages flash_writer size (IsSector size)
    flash_writer-KeepsToPages size = record {
      erase_passing = λ a m page.
          All-weaken _ (SameOutside a size m) _ (λ n. erased-page size a m n page)
            (erases.passing (flash_addr_to_sector a) flash_program_size m (first-bank size a page));
      erase_final = λ a m page.
          erased-page size a m _ page
            (erases.final (flash_addr_to_sector a) flash_program_size m (first-bank size a page));
      write_passing = λ a bs m page len.
          rw len at (programs.passing a bs m (bytes-IsInBank size a bs page len));
      write_final =
          λ a bs m page len. rw len at (programs.final a bs m (bytes-IsInBank size a bs page len));
    }

    pub flash_writer-StoresPages : (size : ℕ) → StoresPages flash_writer size (IsSector size)
    flash_writer-StoresPages size a bs m page len bytes = rw len at (
        programs.stores a bs (flash_writer.page_erase a m).final (bytes-IsInBank size a bs page len)
          bytes
          (λ x lo hi.
            erases.blank (flash_addr_to_sector a) flash_program_size m x (first-bank size a page)
              (omega (arith, page.start, page.whole)) (omega (arith, page.start, page.whole, len))))

    abbrev app : ℕ
    app = (platform_of olimex_e407).app_addr

    outside-below :
        (a : ℕ) (m n : Memory)
        → app ≤ a
        → a < 0x08100000
        → SameOutside (erased_from olimex_e407 a) (sector_size (flash_addr_to_sector a)) m n
        → SameBelow app m n
    outside-below a m n lo hi same x before =
        same x (inl (omega (arith, erased-app olimex_e407 a lo hi)))

    first-sector : (a : ℕ) → app ≤ a → a < 0x08100000 → flash_addr_to_sector a < 12
    first-sector a lo hi = (flash_addr_to_sector_first a (omega arith) hi).0

    within-erase : (a : ℕ) → is_within 0x08100000 1 (erased a) ≡ true → a < 0x08100000
    within-erase a inside = ground (arith, inside)

    within-write : (a : ℕ) (bs : Bytes) → is_within 0x08100000 1 (wrote a bs) ≡ true → IsInBank a bs
    within-write a bs inside = record {
      above = ground (arith, inside);
      in_bank = ground (arith, inside);
    }

    pub flash_writer-KeepsBelow : KeepsBelow flash_writer app (is_within 0x08100000 1)
    flash_writer-KeepsBelow = record {
      erase_passing = λ a m lo inside.
          let hi = within-erase a inside in
          All-weaken _ (SameBelow app m) _ (λ n. outside-below a m n lo hi)
            (erases.passing (flash_addr_to_sector a) flash_program_size m (first-sector a lo hi));
      erase_final = λ a m lo inside.
          let hi = within-erase a inside in
          outside-below a m _ lo hi
            (erases.final (flash_addr_to_sector a) flash_program_size m (first-sector a lo hi));
      write_passing = λ a bs m lo inside.
          All-weaken _ (SameBelow app m) _ (λ n same x before. same x (inl (omega arith)))
            (programs.passing a bs m (within-write a bs inside));
      write_final = λ a bs m lo inside x before.
          programs.final a bs m (within-write a bs inside) x (inl (omega arith));
    }

    -- On olimex-e407 the flash driver of the STM32F4 does what is asked of a flash writer, over functions
    -- of libopencm3 that erase a sector and program bytes: a configuration page is a whole sector, its
    -- erase and a write change nothing else, an erase and a write in full store the page, and an
    -- erase or a write at or behind the application's address, in the first bank, changes nothing
    -- before it. libopencm3 erases the sectors 0 to 11 and no other byte, and programs bytes of the bank
    -- that are erased.
    pub flash_writer-Implements : Implements flash_writer (platform_of olimex_e407)
    unfolding flash_addr_to_sector
    flash_writer-Implements = record {
      keeps = flash_writer-KeepsToPages 0x4000;
      stores = flash_writer-StoresPages 0x4000;
      below = flash_writer-KeepsBelow;
      first = record {
        above = omega arith;
        in_bank = omega arith;
        some = omega arith;
        start = refl;
        whole = refl;
      };
      second = record {
        above = omega arith;
        in_bank = omega arith;
        some = omega arith;
        start = refl;
        whole = refl;
      };
    }
