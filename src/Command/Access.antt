-- ===== src/Command/Access.antt =====
-- command.c: the commands on flash, memory and the configuration in RAM.
use bootloader_proposal.Base.{ℕ, ◌%◌, not, ◌==◌, ltb, if◌then◌else◌, Bytes, u32_mod, drop, first?}
use bootloader_proposal.Config.{strings_equal, config_update_from_serialized}
use bootloader_proposal.World.{
  bytes_at, flash_writer_unlock, flash_writer_lock, flash_writer_page_erase,
  flash_writer_page_write, Run, done, reset, ◌>>=◌,
}
use bootloader_proposal.Command.Types.{
  boot_arg_start_bootloader_no_timeout, boot_arg_start_application, Session, Callback, of_option,
  Parts,
}

module _ (parts : Parts) where
  open parts use {crc32, cmp, flash, platform, locals}

  unfoldable pub write_bool : ℕ → Session → Session
  write_bool b s = record s { out = cmp.write_bool s.out b }

  -- the address argument, `(void *)(uintptr_t)tmp`; pointers have 32 bits
  abbrev pub read_address : ℕ → Session → ℕ × Session
  read_address tmp s =
      let (ok, n, c) = cmp.read_uinteger s.args tmp in (n % u32_mod, record s { args = c })

  -- the device class argument, in a local buffer of 64 bytes, and its size
  abbrev pub read_class : Session → Bytes × ℕ × Session
  read_class s =
      let (ok, class, n, c) = cmp.read_str s.args locals.buffer64 64 in
      (class, n, record s { args = c })

  unfoldable pub command_fail : Session → Run Session
  unfolding write_bool
  command_fail s = done (write_bool 0 s)

  abbrev pub erase_page : ℕ → Session → Session
  erase_page address s = record s {
    world = flash_writer_lock (flash_writer_page_erase flash address (flash_writer_unlock s.world));
  }

  abbrev pub write_page : ℕ → Bytes → Session → Session
  write_page address src s = record s {
    world =
        flash_writer_lock (flash_writer_page_write flash address src (flash_writer_unlock s.world));
  }

  unfoldable pub command_erase_flash_page : Callback
  unfolding command_fail write_bool
  command_erase_flash_page argc s =
      let (address, s) = read_address 0 s in
      if ltb address platform.app_addr
      then command_fail s
      else let (class, n, s) = read_class s in
        of_option (strings_equal class s.config.device_class) >>= λ same.
        if not same then command_fail s else done (write_bool 1 (erase_page address s))

  -- behind the device class: the size, and the bytes at the reader's position
  unfoldable pub write_flash_bytes : ℕ → ℕ → Session → Run Session
  unfolding command_fail write_bool
  write_flash_bytes address n s =
      let (ok, size, c) = cmp.read_bin_size s.args n in
      let s = record s { args = c } in
      if not ok
      then command_fail s
      else of_option (first? size (drop c.position c.buffer)) >>= λ src.
          done (write_bool 1 (write_page address src s))

  unfoldable pub command_write_flash : Callback
  unfolding command_fail write_flash_bytes
  command_write_flash argc s =
      let (address, s) = read_address 0 s in
      if ltb address platform.app_addr
      then command_fail s
      else let (class, n, s) = read_class s in
        of_option (strings_equal class s.config.device_class) >>= λ same.
        if not same then command_fail s else write_flash_bytes address n s

  unfoldable pub command_read_flash : Callback
  command_read_flash argc s =
      let (address, s) = read_address locals.number s in
      let (ok, size, c) = cmp.read_u32 s.args locals.number in
      done (record s {
        args = c;
        out = cmp.write_bin s.out (bytes_at s.world.memory address size) size;
      })

  unfoldable pub command_jump_to_application : Callback
  command_jump_to_application argc s =
      if crc32 0 (bytes_at s.world.memory platform.app_addr s.config.application_size)
        == s.config.application_crc
      then reset boot_arg_start_application s.world
      else reset boot_arg_start_bootloader_no_timeout s.world

  unfoldable pub command_crc_region : Callback
  command_crc_region argc s =
      let (address, s) = read_address locals.number s in
      let (ok, size, c) = cmp.read_uint s.args locals.number in
      let crc = crc32 0 (bytes_at s.world.memory address size) in
      done (record s { args = c; out = cmp.write_uint s.out crc })

  unfoldable pub command_config_update : Callback
  unfolding write_bool
  command_config_update argc s =
      of_option (config_update_from_serialized cmp locals.buffer64 s.config s.args)
      >>= λ (config, c). done (write_bool 1 (record s { config = config; args = c }))

  unfoldable pub command_ping : Callback
  unfolding write_bool
  command_ping argc s = done (write_bool 1 s)
