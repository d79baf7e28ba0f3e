-- ===== src/Flash/Sectors.antt =====
-- platform/mcu/stm32f4/flash_writer.c: `flash_addr_to_sector`. Erasing and programming a sector are
-- calls of libopencm3.
use bootloader_proposal.Base.{
  ℕ, ◌+◌, ◌-◌, ◌*◌, ◌/◌, ◌%◌, ◌^◌, ◌≤◌, ◌<◌, ltb, leb, if◌then◌else◌, arith, u8_mod,
}

-- `addr & 0xFFFFFF`
abbrev flash_offset : ℕ → ℕ
flash_offset addr = addr % 2 ^ 24

unfoldable pub flash_addr_to_sector : ℕ → ℕ
flash_addr_to_sector addr =
    let offset = flash_offset addr in
    let sector =
      if ltb offset 0x10000
      then offset / 0x4000
      else if ltb offset 0x20000
      then 3 + offset / 0x10000
      else 4 + offset / 0x20000 in
    if leb 0x08100000 addr then (sector + 12) % u8_mod else sector % u8_mod

-- The layout of a bank that the comments give: four sectors of 16 KB, one of 64 KB, and seven of
-- 128 KB.
abbrev pub sector_start : ℕ → ℕ
sector_start n = if ltb n 4 then n * 0x4000 else if ltb n 5 then 0x10000 else (n - 4) * 0x20000

abbrev pub sector_size : ℕ → ℕ
sector_size n = if ltb n 4 then 0x4000 else if ltb n 5 then 0x10000 else 0x20000

-- In the first bank the address is inside the sector that the function gives, one of the twelve.
pub flash_addr_to_sector_first :
    (addr : ℕ)
    → 0x08000000 ≤ addr
    → addr < 0x08100000
    → let n = flash_addr_to_sector addr in
      (n < 12)
      × (0x08000000 + sector_start n ≤ addr)
      × (addr < 0x08000000 + sector_start n + sector_size n)
unfolding flash_addr_to_sector
flash_addr_to_sector_first addr lo hi = ground arith

-- In the second bank, whose sectors have the numbers 12 to 23, the function gives none of them.
pub flash_addr_to_sector_second :
    (addr : ℕ) → 0x08100000 ≤ addr → addr < 0x08200000 → 24 ≤ flash_addr_to_sector addr
unfolding flash_addr_to_sector
flash_addr_to_sector_second addr lo hi = ground arith
