-- ===== src/Command/Typed.antt =====
-- The C types of the configuration, from the single commands to `protocol_execute_command`.
use bootloader_proposal.Base.{
  ℕ, ◌+◌, ◌%◌, true, false, arith, Bytes, Bool-cases, Option-cases, inl, inr, ltb, first?, drop,
  u32_mod,
}
use bootloader_proposal.Cmp.{ReadsInType}
use bootloader_proposal.Command.{command_config_read, commands, protocol_execute_command}
use bootloader_proposal.Command.Access.{
  command_erase_flash_page, command_write_flash, write_flash_bytes, command_fail, write_bool,
  read_address, read_class, command_read_flash, command_crc_region, command_ping,
  command_config_update, command_jump_to_application,
}
use bootloader_proposal.Command.Pages.{
  command_config_write_to_flash, counted, filled_page, with_page, save_pages, answer_saved,
}
use bootloader_proposal.Command.Walk.{AllKeep, execute-Keeps}
use bootloader_proposal.Command.Types.{Session, Parts}
use bootloader_proposal.Config.{
  Config, strings_equal, config_update_from_serialized, config_write_messagepack,
}
use bootloader_proposal.Config.Typed.{IsTyped, with_count, update-IsTyped}
use bootloader_proposal.World.{World, Run, Ends, Ends-bind, anything}

module _ (parts : Parts) (reads : ReadsInType parts.cmp) where
  open parts use {cmp, platform, locals}

  abbrev Any : World → Type 0
  Any w = Unit {0}

  abbrev Keeps : Run Session → Type 0
  Keeps = Ends (λ s. IsTyped s.config) Any

  erase-Keeps :
      (argc : ℕ) (s : Session) → IsTyped s.config → Keeps (command_erase_flash_page parts argc s)
  unfolding command_erase_flash_page command_fail write_bool
  erase-Keeps argc s t =
      let (address, s₁) = read_address parts 0 s in
      let (class, n, s₂) = read_class parts s₁ in
      elim (Bool-cases (ltb address platform.app_addr)) [
        | inl low ↦ rw low t
        | inr high ↦ elim (Option-cases (strings_equal class s.config.device_class)) [
          | inl stuck ↦ rw (high, stuck) tt
          | inr (true, e) ↦ rw (high, e) t
          | inr (false, e) ↦ rw (high, e) t
        ]
      ]

  bytes-Keeps :
      (address n : ℕ) (s : Session) → IsTyped s.config → Keeps (write_flash_bytes parts address n s)
  unfolding write_flash_bytes command_fail write_bool
  bytes-Keeps address n s t =
      let (ok, size, c) = cmp.read_bin_size s.args n in
      elim (Bool-cases ok) [
        | inr stop ↦ rw stop t
        | inl go ↦ elim (Option-cases (first? size (drop c.position c.buffer))) [
          | inl stuck ↦ rw (go, stuck) tt
          | inr (src, e) ↦ rw (go, e) t
        ]
      ]

  write-Keeps :
      (argc : ℕ) (s : Session) → IsTyped s.config → Keeps (command_write_flash parts argc s)
  unfolding command_write_flash command_fail write_bool
  write-Keeps argc s t =
      let (address, s₁) = read_address parts 0 s in
      let (class, n, s₂) = read_class parts s₁ in
      elim (Bool-cases (ltb address platform.app_addr)) [
        | inl low ↦ rw low t
        | inr high ↦ elim (Option-cases (strings_equal class s.config.device_class)) [
          | inl stuck ↦ rw (high, stuck) tt
          | inr (true, e) ↦ rw (high, e) (bytes-Keeps address n s₂ t)
          | inr (false, e) ↦ rw (high, e) t
        ]
      ]

  jump-Keeps :
      (argc : ℕ) (s : Session) → IsTyped s.config → Keeps (command_jump_to_application parts argc s)
  unfolding command_jump_to_application
  jump-Keeps argc s t = ground arith

  update-Keeps :
      (argc : ℕ) (s : Session) → IsTyped s.config → Keeps (command_config_update parts argc s)
  unfolding command_config_update write_bool
  update-Keeps argc s t =
      elim (Option-cases (config_update_from_serialized cmp locals.buffer64 s.config s.args)) [
        | inl stuck ↦ rw stuck tt
        | inr (r, e) ↦ rw e (update-IsTyped cmp reads locals.buffer64 s.config s.args e t)
      ]

  save-Keeps :
      (argc : ℕ) (s : Session)
      → IsTyped s.config
      → Keeps (command_config_write_to_flash parts argc s)
  unfolding command_config_write_to_flash answer_saved write_bool
  save-Keeps argc s t =
      let s₁ = counted parts s in
      elim (Option-cases (filled_page parts s₁)) [
        | inl stuck ↦ rw stuck tt
        | inr (page, e) ↦
            let w = with_page parts s₁ page in
            rw e (
              Ends-bind (λ r. Unit {0}) (λ s. IsTyped s.config) Any (save_pages parts w) _
                (anything (save_pages parts w))
                (λ r u.
                  with_count cmp reads ((s.config.update_count + 1) % u32_mod) (omega arith) t))
      ]

  config_read-Keeps :
      (argc : ℕ) (s : Session) → IsTyped s.config → Keeps (command_config_read parts argc s)
  unfolding command_config_read
  config_read-Keeps argc s t = elim (Option-cases (config_write_messagepack cmp s.out s.config)) [
    | inl stuck ↦ rw stuck tt
    | inr (c, e) ↦ rw e t
  ]

  commands-AllKeep : AllKeep parts (λ config w. IsTyped config) Any (commands parts)
  unfolding commands command_crc_region command_ping command_read_flash write_bool
  commands-AllKeep = (
    jump-Keeps,
    (
      (λ argc s t. t),
      (
        erase-Keeps,
        (
          write-Keeps,
          (
            (λ argc s t. t),
            ((λ argc s t. t), (update-Keeps, (save-Keeps, (config_read-Keeps, tt)))),
          ),
        ),
      ),
    ),
  )

  pub execute-IsTyped :
      (data_buf : Bytes) (data_len : ℕ) (out_buf : Bytes) (out_len : ℕ) (config : Config)
      (w : World)
      → IsTyped config
      → Ends
          (λ r. IsTyped r.1.config)
          Any
          (protocol_execute_command parts data_buf data_len
            (commands parts)
            out_buf
            out_len
            config
            w)
  execute-IsTyped = execute-Keeps parts (λ config w. IsTyped config) Any commands-AllKeep
