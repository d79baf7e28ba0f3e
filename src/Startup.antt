-- ===== src/Startup.antt =====
-- platform/mcu/armv7-m: boot_arg.c, boot.s and vector_table.c. A word is four bytes of memory, the
-- least significant first. The hardware keeps RAM over a reset by `scb_reset_system`.
pub mod Arg
pub mod Ram
pub mod Jump
use bootloader_proposal.Base.{
  ℕ, zero, suc, ◌+◌, ◌*◌, ◌/◌, ◌%◌, ◌^◌, Bool, not, Option, none, some, ◌==◌, ltb, if◌then◌else◌,
  u8_mod, u32_mod,
}
use bootloader_proposal.World.{Memory}

abbrev pub put_byte : ℕ → ℕ → Memory → Memory
put_byte a b m = λ x. if x == a then b else m x

unfoldable pub store_word : ℕ → ℕ → Memory → Memory
store_word a w m = put_byte (a + 3) (w / 2 ^ 24 % u8_mod) (
    put_byte (a + 2) (w / 2 ^ 16 % u8_mod)
      (put_byte (a + 1) (w / 2 ^ 8 % u8_mod) (put_byte a (w % u8_mod) m)))

unfoldable pub load_word : Memory → ℕ → ℕ
load_word m a = m a + m (a + 1) * 2 ^ 8 + m (a + 2) * 2 ^ 16 + m (a + 3) * 2 ^ 24

-- `BOOT_ARG_MAGIC_VALUE_LO`, `BOOT_ARG_MAGIC_VALUE_HI`, and `magic_value_lo`, `magic_value_hi` of boot.s
abbrev pub magic_lo : ℕ
magic_lo = 0x01234567

abbrev pub magic_hi : ℕ
magic_hi = 0x0089abcd

abbrev pub ram_start : ℕ
ram_start = 0x20000000

-- the processor's memory, and its register for the vector table
pub record Machine : Type 0 where
  pub memory : Memory
  pub vtor : ℕ

-- What `reboot_system` leaves at the reset. The two parts of the second word have no bit in common.
unfoldable pub reboot_system : ℕ → Memory → Memory
reboot_system arg m =
    store_word (ram_start + 4) ((magic_hi + arg * 2 ^ 24) % u32_mod)
      (store_word ram_start magic_lo m)

-- How `reset_handler` ends: in `bootloader_startup` with an argument, or by a jump with a stack pointer.
pub data Started : Type 0 where
  startup : (arg : ℕ) → Machine → Started
  jumped : (sp pc : ℕ) → Machine → Started

-- `_app_jmp` and `_st_bootloader`: the first two words of a vector table
abbrev pub jump_to : ℕ → Machine → Started
jump_to a k = jumped (load_word k.memory a) (load_word k.memory (a + 4)) k

abbrev pub system_memory : ℕ
system_memory = 0x1FFF0000

unfoldable pub clear_magic : Machine → Machine
unfolding store_word
clear_magic k = record k { memory = store_word (ram_start + 4) 0 (store_word ram_start 0 k.memory) }

-- the branches on the argument
unfoldable pub start_by : (application_address : ℕ) → (arg : ℕ) → Machine → Started
start_by app arg k =
    if arg == 2
    then jump_to app (record k { vtor = app })
    else if arg == 3
    then jump_to system_memory k
    else startup arg k

unfoldable pub reset_handler : (application_address : ℕ) → Machine → Started
unfolding start_by clear_magic
reset_handler app k =
    if not (load_word k.memory ram_start == magic_lo)
    then startup 0 k
    else if not (load_word k.memory (ram_start + 4) % 2 ^ 24 == magic_hi)
    then startup 0 k
    else start_by app (k.memory (ram_start + 7)) (clear_magic k)

-- where the linker puts the sections
pub record Layout : Type 0 where
  pub sbss : ℕ
  pub ebss : ℕ
  pub sdata : ℕ
  pub edata : ℕ
  pub ldata : ℕ

-- the loop over .bss; `none` is out of fuel
unfoldable pub clear_bss : (fuel p_ram end : ℕ) → Memory → Option Memory
clear_bss zero p_ram end m = none
clear_bss (suc fuel) p_ram end m =
    let rest = clear_bss fuel (p_ram + 4) end (store_word p_ram 0 m) in
    if ltb p_ram end then rest else some m

-- the loop over .data
unfoldable pub copy_data : (fuel p_ram p_flash end : ℕ) → Memory → Option Memory
copy_data zero p_ram p_flash end m = none
copy_data (suc fuel) p_ram p_flash end m =
    let rest =
      copy_data fuel (p_ram + 4) (p_flash + 4) end (store_word p_ram (load_word m p_flash) m) in
    if ltb p_ram end then rest else some m

-- `bootloader_startup` up to its call of `platform_main`
unfoldable pub bootloader_startup : (fuel : ℕ) → Layout → Memory → Option Memory
unfolding clear_bss copy_data
bootloader_startup fuel s m = elim (clear_bss fuel s.sbss s.ebss m) [
  | none ↦ none
  | some m' ↦ copy_data fuel s.sdata s.ldata s.edata m'
]
