-- ===== src/Tests/Flash.antt =====
-- Runs of the theorems on the flash drivers.
use bootloader_proposal.Board.Each.{olimex_e407, platform_of}
use bootloader_proposal.Flash.Area.{flash_base}
use bootloader_proposal.Flash.Stm32f3.Pages
use bootloader_proposal.Flash.Stm32f3.{Controller, IsController}
use bootloader_proposal.Flash.Stm32f3.Pages.{driver-Implements}
use bootloader_proposal.Flash.Stm32f4.{
  ErasesSectors, Programs, Implements, flash_writer, flash_writer-Implements,
}
use bootloader_proposal.Tests.Toy.{over, over-outside, bytes_at-over}
use bootloader_proposal.Base.{
  ◌-◌, ◌%◌, ◌<◌, ◌≡◌, ◌⊎◌, ◌==◌, Bool, true, false, ℕ, refl, ltb, leb, ◌&&◌, if◌then◌else◌, Bytes,
  ◌+◌, ◌≤◌, [], ◌∷◌, arith,
}
use bootloader_proposal.Flash.HalfWords.{flash_write_half_word, half_word-outside}
use bootloader_proposal.Flash.Sectors.{
  flash_addr_to_sector, sector_start, sector_size, flash_addr_to_sector_second,
}
use bootloader_proposal.World.{Memory, Change}

flash_addr_to_sector_second_example : 24 ≤ flash_addr_to_sector 0x08100000
flash_addr_to_sector_second_example =
    flash_addr_to_sector_second 0x08100000 (omega arith) (omega arith)

-- a sector that is erased
abbrev pub blanked : ℕ → Memory → Memory
blanked n m = λ x.
    if leb (flash_base + sector_start n) x && ltb x (flash_base + sector_start n + sector_size n)
    then 255
    else m x

abbrev pub erase_sector : ℕ → ℕ → Memory → Change
erase_sector n p m = record {
  passing = m ∷ [];
  final = if ltb n 12 then blanked n m else blanked (n % 12) m;
}

abbrev pub program : ℕ → Bytes → Memory → Change
program a bs m = record { passing = m ∷ []; final = over a bs m }

pub erase_sector-ErasesSectors : ErasesSectors erase_sector
erase_sector-ErasesSectors = record {
  passing = λ n p m h. ((λ x out. refl), tt);
  final = λ n p m h x out. ground (arith, h, out);
  blank = λ n p m x h lo hi. ground (arith, h, lo, hi);
}

pub program-Programs : Programs program
program-Programs = record {
  passing = λ a bs m bank. ((λ x out. refl), tt);
  final = λ a bs m bank x out. over-outside bs a m x out;
  stores = λ a bs m bank bytes blank. bytes_at-over bs a m;
}

flash_writer-Implements_example :
    Implements (flash_writer erase_sector program) (platform_of olimex_e407)
flash_writer-Implements_example =
    flash_writer-Implements erase_sector program erase_sector-ErasesSectors program-Programs

-- a page around an address that is erased
abbrev pub blank_page : ℕ → Memory → Memory
blank_page a m = λ x. if leb (a - a % 2048) x && ltb x (a - a % 2048 + 2048) then 255 else m x

abbrev pub controller : Controller
controller = record {
  start = λ c m. record { passing = m ∷ []; final = if c.per then blank_page c.ar m else m };
  store = λ c a h m. if m a == 255 && m (a + 1) == 255 then flash_write_half_word a h m else m;
}

stored_once :
    (a h : ℕ) (m : Memory) (x : ℕ) (erased : Bool)
    → (x < a) ⊎ (a + 2 ≤ x)
    → (if erased then flash_write_half_word a h m else m) x ≡ m x
stored_once a h m x true out = half_word-outside a h x m (omega arith) (omega arith)
stored_once a h m x false out = refl

pub controller-IsController : IsController controller
controller-IsController = record {
  erase_passing = λ a m lo hi. ((λ x out. refl), tt);
  erase_final = λ a m lo hi x out. ground (arith, out);
  blank = λ a m x lo hi from to. ground (arith, from, to);
  program = λ ar a h m half low high. rw (low, high) refl;
  outside = λ ar a h m half x out. stored_once a h m x (m a == 255 && m (a + 1) == 255) out;
}

driver-Implements_example : Pages.Implements controller 0x08003800
driver-Implements_example = driver-Implements controller controller-IsController 0x08003800 refl
