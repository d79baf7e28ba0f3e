-- ===== src/Command/Keeping.antt =====
-- Predicates on the world, from the single commands to `protocol_execute_command`.
use bootloader_proposal.Base.{ℕ, arith, Bytes}
use bootloader_proposal.Config.{Config}
use bootloader_proposal.World.{World, Run, Leaves, world-Ends, Ends-world}
use bootloader_proposal.Command.{command_config_read, commands, protocol_execute_command}
use bootloader_proposal.Command.Access.{
  command_erase_flash_page, command_write_flash, command_read_flash, command_crc_region,
  command_ping, command_config_update, command_jump_to_application,
}
use bootloader_proposal.Command.Pages.{command_config_write_to_flash}
use bootloader_proposal.Command.Walk
use bootloader_proposal.Command.Walk.{AllKeep}
use bootloader_proposal.Command.Types.{Session, Parts}

module _ (parts : Parts) (P : World → Type 0) where
  open parts use {cmp, locals}

  abbrev pub KeepsP : Run Session → Type 0
  KeepsP = Leaves (λ s. s.world) P

  -- The commands that change flash keep the predicate.
  pub record KeepsFlash : Type 0 where
    pub erase :
        (argc : ℕ) (s : Session) → P s.world → KeepsP (command_erase_flash_page parts argc s)
    pub write : (argc : ℕ) (s : Session) → P s.world → KeepsP (command_write_flash parts argc s)
    pub save :
        (argc : ℕ) (s : Session) → P s.world → KeepsP (command_config_write_to_flash parts argc s)

  pub jump-Keeps :
      (argc : ℕ) (s : Session) → P s.world → KeepsP (command_jump_to_application parts argc s)
  unfolding command_jump_to_application
  jump-Keeps argc s h = ground arith

  update-Keeps : (argc : ℕ) (s : Session) → P s.world → KeepsP (command_config_update parts argc s)
  unfolding command_config_update
  update-Keeps argc s h = ground arith

  config_read-Keeps :
      (argc : ℕ) (s : Session) → P s.world → KeepsP (command_config_read parts argc s)
  unfolding command_config_read
  config_read-Keeps argc s h = ground arith

  commands-AllKeep : KeepsFlash → AllKeep parts (λ config w. P w) P (commands parts)
  unfolding commands command_crc_region command_ping command_read_flash
  commands-AllKeep k = (
    (λ argc s h. world-Ends P (λ s. s.world) _ (jump-Keeps argc s h)),
    (
      (λ argc s h. h),
      (
        (λ argc s h. world-Ends P (λ s. s.world) _ (k.erase argc s h)),
        (
          (λ argc s h. world-Ends P (λ s. s.world) _ (k.write argc s h)),
          (
            (λ argc s h. h),
            (
              (λ argc s h. h),
              (
                (λ argc s h. world-Ends P (λ s. s.world) _ (update-Keeps argc s h)),
                (
                  (λ argc s h. world-Ends P (λ s. s.world) _ (k.save argc s h)),
                  ((λ argc s h. world-Ends P (λ s. s.world) _ (config_read-Keeps argc s h)), tt),
                ),
              ),
            ),
          ),
        ),
      ),
    ),
  )

  pub execute-Keeps :
      KeepsFlash
      → (data_buf : Bytes) (data_len : ℕ) (out_buf : Bytes) (out_len : ℕ) (config : Config)
        (w : World)
      → P w
      → Leaves
          (λ r. r.1.world)
          P
          (protocol_execute_command parts data_buf data_len
            (commands parts)
            out_buf
            out_len
            config
            w)
  execute-Keeps k data_buf data_len out_buf out_len config w h =
      Ends-world P (λ r. r.1.world) _
        (Walk.execute-Keeps parts (λ config w. P w) P (commands-AllKeep k) data_buf data_len out_buf
          out_len config w h)
