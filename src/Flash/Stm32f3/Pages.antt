-- ===== src/Flash/Stm32f3/Pages.antt =====
-- platform/mcu/stm32f3/flash_writer.c: erases and writes of pages of the flash.
use bootloader_proposal.Base.{
  ℕ, ◌+◌, ◌-◌, ◌/◌, ◌%◌, ◌≤◌, ◌<◌, ◌≡◌, AreBytes, inl, refl, true, false, length, arith, Bytes,
}
use bootloader_proposal.Command.Below.{SameBelow, KeepsBelow}
use bootloader_proposal.Command.Save.{StoresPages}
use bootloader_proposal.Flash.Area.{flash_base, is_within}
use bootloader_proposal.Flash.HalfWords.{write-bytes_at}
use bootloader_proposal.World.{
  Memory, SameOutside, KeepsToPages, All, All-weaken, bytes_at, erased, wrote,
}
use bootloader_proposal.Flash.Stm32f3.{
  Controller, IsController, flash_end, idle, driver, page_erase, page_write,
}
use bootloader_proposal.Flash.Stm32f3.Programming.{
  AreHalfWords, program_bytes-outside, program_bytes-write, page_write-idle,
}

-- a page of 2 KB of the flash
pub record IsPage (a : ℕ) : Type 0 where
  pub above : flash_base ≤ a
  pub before : a + 2048 ≤ flash_end
  pub start : a % 2048 ≡ 0

-- What the commands ask of the driver on a board whose application is at `app`: it keeps to pages,
-- it stores what it is given, it keeps what is before the application, and it leaves the control
-- register idle.
pub record Implements (flash : Controller) (app : ℕ) : Type 0 where
  pub keeps : (ar : ℕ) → KeepsToPages (driver flash (idle ar)) 2048 IsPage
  pub stores : (ar : ℕ) → StoresPages (driver flash (idle ar)) 2048 IsPage
  pub below : (ar : ℕ) → KeepsBelow (driver flash (idle ar)) app (is_within flash_end 2)
  pub erase_idle : (a ar : ℕ) (m : Memory) → (page_erase flash a (idle ar) m).0 ≡ idle a
  pub write_idle :
      (a ar : ℕ) (bs : Bytes) (m : Memory) → (page_write flash a bs (idle ar) m).0 ≡ idle ar

module _ (flash : Controller) (laws : IsController flash) where
  page-outside :
      (a : ℕ) (m n : Memory)
      → IsPage a
      → SameOutside (a - a % 2048) 2048 m n
      → SameOutside a 2048 m n
  page-outside a m n page same x out = same x (omega (arith, page.start))

  page-below :
      (app a : ℕ) (m n : Memory)
      → app % 2048 ≡ 0
      → app ≤ a
      → SameOutside (a - a % 2048) 2048 m n
      → SameBelow app m n
  page-below app a m n page le same x before = same x (inl (omega arith))

  page-AreHalfWords : (a : ℕ) → IsPage a → AreHalfWords a 1024
  page-AreHalfWords a page = record {
    above = page.above;
    before = omega (arith, page.before);
    even = omega (arith, page.start);
  }

  page-inside : (a : ℕ) → IsPage a → a < flash_end
  page-inside a page = omega (arith, page.before)

  within-erase :
      (a : ℕ) → is_within flash_end 2 (erased a) ≡ true → (flash_base ≤ a) × (a < flash_end)
  within-erase a inside = (ground (arith, inside), ground (arith, inside))

  within-write :
      (a : ℕ) (bs : Bytes)
      → is_within flash_end 2 (wrote a bs) ≡ true
      → AreHalfWords a ((length bs + 1) / 2)
  within-write a bs inside =
      let above : flash_base ≤ a = ground (arith, inside) in
      let before : a + length bs ≤ flash_end = ground (arith, inside) in
      let even : a % 2 ≡ 0 = ground (arith, inside) in
      record { above = above; before = omega arith; even = even }

  write-changes :
      (n a ar : ℕ) (bs : Bytes) (m : Memory)
      → length bs ≤ n + n
      → AreHalfWords a n
      → All (SameOutside a (n + n) m) (page_write flash a bs (idle ar) m).1.passing
        × SameOutside a (n + n) m (page_write flash a bs (idle ar) m).1.final
  unfolding page_write
  write-changes n a ar bs m le r = program_bytes-outside flash laws n bs a ar false m le r

  erase-blank :
      (a ar : ℕ) (m : Memory)
      → IsPage a
      → (x : ℕ) → a ≤ x
      → x < a + 2048
      → (page_erase flash a (idle ar) m).1.final x ≡ 255
  unfolding page_erase
  erase-blank a ar m page x lo hi =
      laws.blank a m x page.above (page-inside a page) (omega (arith, page.start))
        (omega (arith, page.start))

  page_write-stores :
      (a ar : ℕ) (bs : Bytes) (m : Memory)
      → IsPage a
      → length bs ≡ 2048
      → AreBytes bs
      → ((x : ℕ) → a ≤ x → x < a + 2048 → m x ≡ 255)
      → bytes_at (page_write flash a bs (idle ar) m).1.final a 2048 ≡ bs
  unfolding page_write
  page_write-stores a ar bs m page len bytes blank =
      rw
        (program_bytes-write flash laws 1024 bs a ar false m (omega (arith, len))
          (page-AreHalfWords a page) blank)
        (rw len at (write-bytes_at bs a m bytes))

  -- The flash driver of the STM32F3 does what the commands ask of a flash writer, if the application is
  -- at the beginning of a page, over a controller that does on addresses of the flash what the
  -- reference manual says: it erases whole pages to 0xFF, and programs half-words that are erased.
  -- An erase or a write of a page changes nothing outside it, in any state on the way, a page of bytes
  -- that is erased and written holds them, an erase or a write in flash at or behind the
  -- application's address changes nothing before it, if a write starts at a half-word, and each
  -- leaves the control register as idle as it was.
  pub driver-Implements : (app : ℕ) → app % 2048 ≡ 0 → Implements flash app
  unfolding page_erase
  driver-Implements app start = record {
    keeps = λ ar. record {
      erase_passing = λ a m page.
          All-weaken _ (SameOutside a 2048 m) _ (λ n. page-outside a m n page)
            (laws.erase_passing a m page.above (page-inside a page));
      erase_final = λ a m page.
          page-outside a m _ page (laws.erase_final a m page.above (page-inside a page));
      write_passing = λ a bs m page len.
          (write-changes 1024 a ar bs m (omega (arith, len)) (page-AreHalfWords a page)).0;
      write_final = λ a bs m page len.
          (write-changes 1024 a ar bs m (omega (arith, len)) (page-AreHalfWords a page)).1;
    };
    stores = λ ar a bs m page len bytes.
        page_write-stores a ar bs (page_erase flash a (idle ar) m).1.final page len bytes
          (erase-blank a ar m page);
    below = λ ar. record {
      erase_passing = λ a m le inside.
          let (lo, hi) = within-erase a inside in
          All-weaken _ (SameBelow app m) _ (λ n. page-below app a m n start le)
            (laws.erase_passing a m lo hi);
      erase_final = λ a m le inside.
          let (lo, hi) = within-erase a inside in
          page-below app a m _ start le (laws.erase_final a m lo hi);
      write_passing = λ a bs m le inside.
          All-weaken _ (SameBelow app m) _ (λ n same x before. same x (inl (omega arith)))
            (write-changes ((length bs + 1) / 2) a ar bs m (omega arith)
              (within-write a bs inside)).0;
      write_final = λ a bs m le inside x before.
          (write-changes ((length bs + 1) / 2) a ar bs m (omega arith) (within-write a bs inside)).1
            x (inl (omega arith));
    };
    erase_idle = λ a ar m. refl;
    write_idle = λ a ar bs m. page_write-idle flash bs a ar m;
  }
