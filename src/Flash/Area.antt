-- ===== src/Flash/Area.antt =====
-- The addresses for which the reference manuals and libopencm3 say what an erase or a write does.
use bootloader_proposal.Base.{ℕ, ◌+◌, ◌%◌, Bool, true, ◌&&◌, ◌==◌, leb, ltb, length}
use bootloader_proposal.World.{FlashEvent, unlocked, locked, erased, wrote}

abbrev pub flash_base : ℕ
flash_base = 0x08000000

-- An erase is in flash; a write is in flash as a whole, and starts at a multiple of the grain.
abbrev pub is_within : (end grain : ℕ) → FlashEvent → Bool
is_within end grain unlocked = true
is_within end grain locked = true
is_within end grain (erased a) = leb flash_base a && ltb a end
is_within end grain (wrote a bs) = leb flash_base a && leb (a + length bs) end && (a % grain == 0)
