-- ===== src/Command/Dispatch.antt =====
-- `protocol_execute_command`: which command is called, and what is returned when none is.
use bootloader_proposal.Base.{
  Option, none, some, ℕ, zero, suc, ◌≡◌, ◌↔◌, ◌⊎◌, refl, ap, ◌∙◌, Bool, true, false, ◌==◌,
  if◌then◌else◌, arith, Bytes, List, Bool-cases, inl, inr,
}
use bootloader_proposal.Cmp.{ℤ, pos, negsuc, Context, mem_access}
use bootloader_proposal.Config.{Config}
use bootloader_proposal.World.{World, Run, done, reset, ◌>>=◌}
use bootloader_proposal.Command.{
  is_index, call_command, commands, protocol_execute_command, command_config_read,
}
use bootloader_proposal.Command.Access.{
  command_jump_to_application, command_crc_region, command_erase_flash_page, command_write_flash,
  command_ping, command_read_flash, command_config_update,
}
use bootloader_proposal.Command.Pages.{command_config_write_to_flash}
use bootloader_proposal.Command.Types.{
  Session, Parts, Entry, Callback, negative, err_invalid_command, err_command_not_found,
  err_invalid_command_set_version, command_set_version, boot_arg_start_application,
  boot_arg_start_bootloader_no_timeout,
}
use bootloader_proposal.World.{bytes_at}

-- the answer to a callback: the number of bytes written
abbrev pub called : Run Session → Run (ℤ × Session)
called r = r >>= λ s. done (pos s.out.position, s)

-- The commands by their numbers in PROTOCOL.markdown.
pub command_at : Parts → ℤ → Option Callback
command_at parts (pos zero) = none
command_at parts (pos (suc zero)) = some (command_jump_to_application parts)
command_at parts (pos (suc (suc zero))) = some (command_crc_region parts)
command_at parts (pos (suc (suc (suc zero)))) = some (command_erase_flash_page parts)
command_at parts (pos (suc (suc (suc (suc zero))))) = some (command_write_flash parts)
command_at parts (pos (suc (suc (suc (suc (suc zero)))))) = some (command_ping parts)
command_at parts (pos (suc (suc (suc (suc (suc (suc zero))))))) = some (command_read_flash parts)
command_at parts (pos (suc (suc (suc (suc (suc (suc (suc zero)))))))) =
    some (command_config_update parts)
command_at parts (pos (suc (suc (suc (suc (suc (suc (suc (suc zero))))))))) =
    some (command_config_write_to_flash parts)
command_at parts (pos (suc (suc (suc (suc (suc (suc (suc (suc (suc zero)))))))))) =
    some (command_config_read parts)
command_at parts (pos (suc (suc (suc (suc (suc (suc (suc (suc (suc (suc n))))))))))) = none
command_at parts (negsuc n) = none

-- what the protocol says of a command number
abbrev pub answer : Option Callback → ℕ → Session → Run (ℤ × Session)
answer none argc s = done (negative err_command_not_found, s)
answer (some f) argc s = called (f argc s)

call-command_at :
    (parts : Parts) (index : ℤ) (argc : ℕ) (s : Session)
    → call_command (commands parts) index argc s ≡ answer (command_at parts index) argc s
unfolding call_command commands command_at
call-command_at parts (pos zero) argc s = refl
call-command_at parts (pos (suc zero)) argc s = refl
call-command_at parts (pos (suc (suc zero))) argc s = refl
call-command_at parts (pos (suc (suc (suc zero)))) argc s = refl
call-command_at parts (pos (suc (suc (suc (suc zero))))) argc s = refl
call-command_at parts (pos (suc (suc (suc (suc (suc zero)))))) argc s = refl
call-command_at parts (pos (suc (suc (suc (suc (suc (suc zero))))))) argc s = refl
call-command_at parts (pos (suc (suc (suc (suc (suc (suc (suc zero)))))))) argc s = refl
call-command_at parts (pos (suc (suc (suc (suc (suc (suc (suc (suc zero))))))))) argc s = refl
call-command_at parts (pos (suc (suc (suc (suc (suc (suc (suc (suc (suc zero)))))))))) argc s = refl
call-command_at parts (pos (suc (suc (suc (suc (suc (suc (suc (suc (suc (suc n))))))))))) argc s =
    ground arith
call-command_at parts (negsuc n) argc s = refl

module _ (parts : Parts) (data_buf : Bytes) (data_len : ℕ) (out_buf : Bytes) (out_len : ℕ)
    (config : Config) (w : World) where
  open parts use {cmp, locals}

  -- the three reads of the header
  abbrev pub version_read : Bool × ℤ × Context
  version_read = cmp.read_int (mem_access data_buf data_len) locals.integer

  abbrev pub index_read : Bool × ℤ × Context
  index_read = cmp.read_int version_read.2 locals.integer

  abbrev pub argc_read : Bool × ℕ × Context
  argc_read = cmp.read_array index_read.2 locals.number

  abbrev pub argc_of : ℕ
  argc_of = if argc_read.0 then argc_read.1 else 0

  abbrev pub session : Context → Session
  session c = record { args = c; out = mem_access out_buf out_len; config = config; world = w }

  abbrev pub executed : List Entry → Run (ℤ × Session)
  executed table = protocol_execute_command parts data_buf data_len table out_buf out_len config w

  -- A wrong command set version returns its error code. Nothing is executed: the configuration and
  -- the world are the old ones, and no answer is written.
  pub execute_wrong_version :
      (table : List Entry)
      → is_index command_set_version version_read.1 ≡ false
      → executed table ≡ done (negative err_invalid_command_set_version, session version_read.2)
  unfolding protocol_execute_command
  execute_wrong_version table v = rw v

  -- Behind the right version, an index that cannot be read as an integer returns its error code.
  -- Nothing is executed: the configuration and the world are the old ones, and no answer is
  -- written.
  pub execute_invalid :
      (table : List Entry)
      → is_index command_set_version version_read.1 ≡ true
      → index_read.0 ≡ false
      → executed table ≡ done (negative err_invalid_command, session index_read.2)
  unfolding protocol_execute_command
  execute_invalid table v i = rw (v, i)

  -- With the right version and a readable index, the search of the command table runs the command
  -- that PROTOCOL.markdown gives for the number, with no arguments counted where the argument array
  -- is missing, and returns the length of its answer. A number without a command, negative ones
  -- included, returns the error code, and nothing is executed.
  pub execute-command_at :
      is_index command_set_version version_read.1 ≡ true
      → index_read.0 ≡ true
      → executed (commands parts)
        ≡ answer (command_at parts index_read.1) argc_of (session argc_read.2)
  unfolding protocol_execute_command
  execute-command_at v i =
      rw (v, i) (call-command_at parts index_read.1 argc_of (session argc_read.2))

  -- The number 8 is the save command's.
  pub execute_save :
      is_index command_set_version version_read.1 ≡ true
      → index_read.0 ≡ true
      → index_read.1 ≡ pos 8
      → executed (commands parts)
        ≡ called (command_config_write_to_flash parts argc_of (session argc_read.2))
  unfolding command_at
  execute_save v i number =
      execute-command_at v i
      ∙ ap (λ k. answer (command_at parts k) argc_of (session argc_read.2)) number

-- `command_jump_to_application` never returns and changes no memory. It starts the application
-- just if the CRC of the configured number of bytes at the application's address is the configured
-- one, and else the bootloader without a timeout.
pub jump_resets :
    (parts : Parts) (argc : ℕ) (s : Session)
    → (arg : ℕ) × (command_jump_to_application parts argc s ≡ reset arg s.world)
      × ((arg ≡ boot_arg_start_application) ⊎ (arg ≡ boot_arg_start_bootloader_no_timeout))
      × ((arg ≡ boot_arg_start_application) ↔ (
          parts.crc32 0 (bytes_at s.world.memory parts.platform.app_addr s.config.application_size)
          ≡ s.config.application_crc))
unfolding command_jump_to_application
jump_resets parts argc s =
    let crc =
      parts.crc32 0 (bytes_at s.world.memory parts.platform.app_addr s.config.application_size) in
    elim (Bool-cases (crc == s.config.application_crc)) [
      | inl t ↦ (boot_arg_start_application, rw t, inl refl, ground arith)
      | inr f ↦ (boot_arg_start_bootloader_no_timeout, rw f, inr refl, ground arith)
    ]
