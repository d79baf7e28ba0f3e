-- ===== src/Startup/Jump.antt =====
-- The jump command, the reset that it makes, and boot.s.
use bootloader_proposal.Base.{
  ℕ, ◌+◌, ◌≤◌, ◌≡◌, ◌⊎◌, inl, inr, refl, ◌==◌, if◌then◌else◌, arith, Bool-cases,
}
use bootloader_proposal.Command.Access.{command_jump_to_application}
use bootloader_proposal.Command.Types.{Parts, Session}
use bootloader_proposal.Startup.{
  Machine, jumped, startup, load_word, reboot_system, reset_handler, ram_start,
}
use bootloader_proposal.Startup.Arg.{emptied, reset_handler-reboot_system}
use bootloader_proposal.World.{bytes_at, World, reset}

-- the machine after `reboot_system(arg)`
abbrev pub rebooted : (arg vtor : ℕ) → World → Machine
rebooted arg vtor w = record { memory = reboot_system arg w.memory; vtor = vtor }

-- The jump command resets the system, and after the reset the application runs, by the stack pointer
-- and the address at the beginning of its vector table, if the CRC of its configured size is the
-- configured one; else the bootloader starts without a timeout. Memory is unchanged but for the two
-- cleared words of the boot argument, outside of which the application's vector table is.
pub jump-started :
    (parts : Parts) (argc vtor : ℕ) (s : Session)
    → let app = parts.platform.app_addr in
      let memory = s.world.memory in
      (app + 8 ≤ ram_start) ⊎ (ram_start + 8 ≤ app)
      → (arg : ℕ) × (command_jump_to_application parts argc s ≡ reset arg s.world)
        × (reset_handler app (rebooted arg vtor s.world) ≡ (
            if parts.crc32 0 (bytes_at memory app s.config.application_size)
              == s.config.application_crc
            then jumped
                (load_word memory app)
                (load_word memory (app + 4))
                (record { memory = emptied memory; vtor = app })
            else startup 1 (record { memory = emptied memory; vtor = vtor })))
unfolding command_jump_to_application
jump-started parts argc vtor s h =
    let app = parts.platform.app_addr in
    let crc = parts.crc32 0 (bytes_at s.world.memory app s.config.application_size) in
    let k : Machine = record { memory = s.world.memory; vtor = vtor } in
    elim (Bool-cases (crc == s.config.application_crc)) [
      | inl t ↦ rw t (2, refl, reset_handler-reboot_system app 2 k (omega arith) h)
      | inr f ↦ rw f (1, refl, reset_handler-reboot_system app 1 k (omega arith) h)
    ]
