-- ===== src/Startup/Arg.antt =====
-- The boot argument over a reset.
use mathlib.Core.Path.{fun_ext}
use bootloader_proposal.Base.{
  ℕ, ◌+◌, ◌*◌, ◌%◌, ◌^◌, ◌≤◌, ◌<◌, ◌≡◌, ◌≢◌, ◌⊎◌, ap, ap₂, ◌∙◌, ◌==◌, ◌&&◌, if◌then◌else◌, ltb, leb,
  arith, u8_mod, u32_mod,
}
use bootloader_proposal.Startup.{
  Machine, Started, startup, jumped, store_word, load_word, reboot_system, reset_handler, start_by,
  clear_magic, magic_lo, magic_hi, ram_start, system_memory,
}
use bootloader_proposal.World.{Memory}

load-store : (a w : ℕ) (m : Memory) → w < u32_mod → load_word (store_word a w m) a ≡ w
unfolding load_word store_word
load-store a w m h = ground arith

-- a word that the store does not meet
load-store_other :
    (a b w : ℕ) (m : Memory)
    → (b + 4 ≤ a) ⊎ (a + 4 ≤ b)
    → load_word (store_word a w m) b ≡ load_word m b
unfolding load_word store_word
load-store_other a b w m h = ground arith

-- memory with the two words cleared
abbrev pub emptied : Memory → Memory
emptied m = λ x. if leb ram_start x && ltb x (ram_start + 8) then 0 else m x

-- What boot.s says of the arguments: 2 is the application, 3 the bootloader of ST, and else the
-- bootloader starts with the argument.
abbrev pub booted : (application_address arg : ℕ) → Machine → Started
booted app arg k =
    let cleared = record k { memory = emptied k.memory } in
    if arg == 2
    then jumped (load_word k.memory app) (load_word k.memory (app + 4))
        (record cleared { vtor = app })
    else if arg == 3
    then jumped (load_word k.memory system_memory) (load_word k.memory (system_memory + 4)) cleared
    else startup arg cleared

-- The words with the argument are read back.
first_word : (arg : ℕ) (m : Memory) → load_word (reboot_system arg m) ram_start ≡ magic_lo
unfolding reboot_system
first_word arg m =
    load-store_other (ram_start + 4) ram_start _ (store_word ram_start magic_lo m) (omega arith)
    ∙ load-store ram_start magic_lo m (omega arith)

second_word :
    (arg : ℕ) (m : Memory) → load_word (reboot_system arg m) (ram_start + 4) % 2 ^ 24 ≡ magic_hi
unfolding reboot_system
second_word arg m = omega (
  arith,
  load-store (ram_start + 4) ((magic_hi + arg * 2 ^ 24) % u32_mod) (store_word ram_start magic_lo m)
      (omega arith),
)

argument_byte : (arg : ℕ) (m : Memory) → arg < u8_mod → reboot_system arg m (ram_start + 7) ≡ arg
unfolding reboot_system store_word
argument_byte arg m h = ground arith

emptied-clear :
    (arg : ℕ) (k : Machine)
    → clear_magic (record k { memory = reboot_system arg k.memory })
      ≡ record k { memory = emptied k.memory }
unfolding clear_magic reboot_system store_word
emptied-clear arg k = ap (λ m. record k { memory = m }) (fun_ext (λ x. ground arith))

load-emptied :
    (a : ℕ) (m : Memory)
    → (a + 4 ≤ ram_start) ⊎ (ram_start + 8 ≤ a)
    → load_word (emptied m) a ≡ load_word m a
unfolding load_word
load-emptied a m h = ground arith

start_by-emptied :
    (app arg : ℕ) (k : Machine)
    → (app + 8 ≤ ram_start) ⊎ (ram_start + 8 ≤ app)
    → start_by app arg (record k { memory = emptied k.memory }) ≡ booted app arg k
unfolding start_by
start_by-emptied app arg k h = rw (
  load-emptied app k.memory (omega arith),
  load-emptied (app + 4) k.memory (omega arith),
  load-emptied system_memory k.memory (omega arith),
  load-emptied (system_memory + 4) k.memory (omega arith),
)

accepted :
    (app : ℕ) (k : Machine)
    → load_word k.memory ram_start ≡ magic_lo
    → load_word k.memory (ram_start + 4) % 2 ^ 24 ≡ magic_hi
    → reset_handler app k ≡ start_by app (k.memory (ram_start + 7)) (clear_magic k)
unfolding reset_handler
accepted app k lo hi = rw (lo, hi)

-- An argument that `reboot_system` leaves in RAM over the reset is the one that `reset_handler` acts
-- on: 2 starts the application and 3 the bootloader of ST, both by the stack pointer and the address
-- at the beginning of their vector tables, and another argument the bootloader with that argument. The
-- two words of RAM are cleared, and all other memory is as before the reset. The argument is a byte,
-- and the application's vector table is outside the two words.
pub reset_handler-reboot_system :
    (app arg : ℕ) (k : Machine)
    → arg < u8_mod
    → (app + 8 ≤ ram_start) ⊎ (ram_start + 8 ≤ app)
    → reset_handler app (record k { memory = reboot_system arg k.memory }) ≡ booted app arg k
reset_handler-reboot_system app arg k byte h =
    accepted app (record k { memory = reboot_system arg k.memory }) (first_word arg k.memory)
      (second_word arg k.memory)
    ∙ ap₂ (start_by app) (argument_byte arg k.memory byte) (emptied-clear arg k)
    ∙ start_by-emptied app arg k h

-- Where the words are not those of `reboot_system`, as after power-on, the bootloader starts with
-- argument 0, and nothing in memory has changed.
pub reset_handler_cold :
    (app : ℕ) (k : Machine)
    → (load_word k.memory ram_start ≢ magic_lo)
      ⊎ (load_word k.memory (ram_start + 4) % 2 ^ 24 ≢ magic_hi)
    → reset_handler app k ≡ startup 0 k
unfolding reset_handler
reset_handler_cold app k h = ground arith
