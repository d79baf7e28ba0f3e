-- ===== src/Command.antt =====
-- command.c: the table of commands, and their dispatch. Command/Types has the types, Access and Pages
-- the commands.
pub mod Types
pub mod Access
pub mod Pages
pub mod Guard
pub mod Saving
pub mod Events
pub mod Redundancy
pub mod Returns
pub mod Save
pub mod Torn
pub mod Traced
pub mod Dispatch
pub mod Walk
pub mod Keeping
pub mod Typed
pub mod Below
pub mod Unbroken
use bootloader_proposal.Base.{
  ℕ, zero, suc, ◌+◌, ◌-◌, ◌%◌, ◌^◌, Bool, true, false, not, ◌&&◌, Option, none, some, List, [], ◌∷◌,
  ◌==◌, ltb, if◌then◌else◌, Bytes, u32_mod, replicate, drop, first?,
}
use bootloader_proposal.Cmp.{ℤ, pos, negsuc, Context, mem_access, Cmp}
use bootloader_proposal.Config.{
  Config, strings_equal, config_is_valid, config_write, config_write_messagepack,
  config_update_from_serialized,
}
use bootloader_proposal.World.{
  Memory, bytes_at, FlashWriter, World, Platform, flash_writer_unlock, flash_writer_lock,
  flash_writer_page_erase, flash_writer_page_write, Run, done, reset, fault, ◌>>=◌,
}
use bootloader_proposal.Command.Types.{
  boot_arg_start_bootloader, boot_arg_start_bootloader_no_timeout, boot_arg_start_application,
  err_invalid_command, err_command_not_found, err_invalid_command_set_version, command_set_version,
  Session, Callback, Entry, Locals, of_option, negative, Parts,
}
use bootloader_proposal.Command.Access.{
  write_bool, read_address, read_class, command_fail, erase_page, write_page,
  command_erase_flash_page, write_flash_bytes, command_write_flash, command_read_flash,
  command_jump_to_application, command_crc_region, command_config_update, command_ping,
}
use bootloader_proposal.Command.Pages.{
  valid_in, valid_at, rewrite_page, flash_write_and_verify, write_in_turn, write_both, save_pages,
  counted, filled_page, with_page, answer_saved, command_config_write_to_flash,
}

module _ (parts : Parts) where
  open parts use {crc32, cmp, flash, platform, locals}

  unfoldable pub command_config_read : Callback
  command_config_read argc s =
      of_option (config_write_messagepack cmp s.out s.config) >>= λ c. done (record s { out = c })

  -- `commands` of bootloader.c
  unfoldable pub commands : List Entry
  commands =
      record { index = 1; callback = command_jump_to_application parts }
      ∷ record { index = 2; callback = command_crc_region parts }
      ∷ record { index = 3; callback = command_erase_flash_page parts }
      ∷ record { index = 4; callback = command_write_flash parts }
      ∷ record { index = 5; callback = command_ping parts }
      ∷ record { index = 6; callback = command_read_flash parts }
      ∷ record { index = 7; callback = command_config_update parts }
      ∷ record { index = 8; callback = command_config_write_to_flash parts }
      ∷ record { index = 9; callback = command_config_read }
      ∷ []

-- `commands[i].index == command_index`
abbrev pub is_index : ℕ → ℤ → Bool
is_index n (pos m) = n == m
is_index n (negsuc m) = false

-- the loop of `protocol_execute_command`
unfoldable pub call_command : List Entry → ℤ → ℕ → Session → Run (ℤ × Session)
call_command [] index argc s = done (negative err_command_not_found, s)
call_command (c ∷ cs) index argc s =
    if is_index c.index index
    then c.callback argc s >>= (λ s'. done (pos s'.out.position, s'))
    else call_command cs index argc s

module _ (parts : Parts) where
  open parts use {cmp, locals}

  unfoldable pub protocol_execute_command :
      (data_buf : Bytes) (data_len : ℕ)
      → List Entry
      → (out_buf : Bytes) (out_len : ℕ) → Config
      → World
      → Run (ℤ × Session)
  unfolding call_command
  protocol_execute_command data_buf data_len table out_buf out_len config w =
      let (_, version, c) = cmp.read_int (mem_access data_buf data_len) locals.integer in
      let s : Session = record {
        args = c;
        out = mem_access out_buf out_len;
        config = config;
        world = w;
      } in
      if not (is_index command_set_version version)
      then done (negative err_invalid_command_set_version, s)
      else let (read_index, index, c) = cmp.read_int c locals.integer in
        if not read_index
        then done (negative err_invalid_command, record s { args = c })
        else let (read_argc, argc, c) = cmp.read_array c locals.number in
          call_command table index (if read_argc then argc else 0) (record s { args = c })
