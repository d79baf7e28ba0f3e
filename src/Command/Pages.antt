-- ===== src/Command/Pages.antt =====
-- command.c: `command_config_write_to_flash`, and what it calls.
use bootloader_proposal.Base.{
  ℕ, ◌+◌, ◌%◌, Bool, false, ◌&&◌, Option, if◌then◌else◌, Bytes, u32_mod, replicate,
}
use bootloader_proposal.Config.{config_is_valid, config_write}
use bootloader_proposal.World.{
  Memory, bytes_at, World, flash_writer_unlock, flash_writer_lock, flash_writer_page_erase,
  flash_writer_page_write, Run, done, ◌>>=◌,
}
use bootloader_proposal.Command.Types.{Session, Callback, of_option, Parts}
use bootloader_proposal.Command.Access.{write_bool}

module _ (parts : Parts) where
  open parts use {crc32, cmp, flash, platform, locals}

  -- `config_is_valid` on memory
  abbrev pub valid_in : Memory → ℕ → Option Bool
  valid_in m a =
      config_is_valid crc32 (bytes_at m a platform.config_page_size) platform.config_page_size

  abbrev pub valid_at : World → ℕ → Run Bool
  valid_at w a = of_option (valid_in w.memory a)

  -- the memory part of `flash_write_and_verify`
  unfoldable pub rewrite_page : ℕ → World → World
  rewrite_page addr w = flash_writer_lock (
      flash_writer_page_write flash addr w.page_buffer
        (flash_writer_page_erase flash addr (flash_writer_unlock w)))

  unfoldable pub flash_write_and_verify : ℕ → World → Run (Bool × World)
  unfolding rewrite_page
  flash_write_and_verify addr w =
      let w' = rewrite_page addr w in valid_at w' addr >>= λ ok. done (ok, w')

  -- the second page only if the first one verifies
  unfoldable pub write_in_turn : ℕ → ℕ → World → Run (Bool × World)
  unfolding flash_write_and_verify
  write_in_turn first second w = flash_write_and_verify first w >>= λ (ok, w').
      if ok then flash_write_and_verify second w' else done (false, w')

  -- both pages in any case
  unfoldable pub write_both : ℕ → ℕ → World → Run (Bool × World)
  unfolding flash_write_and_verify
  write_both first second w = flash_write_and_verify first w >>= λ (ok, w').
      flash_write_and_verify second w' >>= λ (ok', w''). done (ok && ok', w'')

  -- the three branches of `command_config_write_to_flash`
  unfoldable pub save_pages : World → Run (Bool × World)
  unfolding write_in_turn write_both
  save_pages w =
      let config1 = platform.config1_addr in
      let config2 = platform.config2_addr in
      valid_at w config2 >>= λ ok₂.
      if ok₂
      then write_in_turn config1 config2 w
      else valid_at w config1 >>= λ ok₁.
          if ok₁ then write_in_turn config2 config1 w else write_both config1 config2 w

  -- `config->update_count += 1`
  abbrev pub counted : Session → Session
  counted s = record s {
    config = record s.config { update_count = (s.config.update_count + 1) % u32_mod };
  }

  -- `memset` of the page buffer, and `config_write` into it
  abbrev pub filled_page : Session → Option Bytes
  filled_page s =
      config_write cmp crc32 (replicate platform.config_page_size 0) s.config
        platform.config_page_size

  abbrev pub with_page : Session → Bytes → World
  with_page s page = record s.world { page_buffer = page }

  unfoldable pub answer_saved : Session → Bool × World → Run Session
  unfolding write_bool
  answer_saved s (success, w) =
      done (write_bool parts (if success then 1 else 0) (record s { world = w }))

  unfoldable pub command_config_write_to_flash : Callback
  unfolding save_pages answer_saved
  command_config_write_to_flash argc s =
      let s = counted s in
      of_option (filled_page s) >>= λ page. save_pages (with_page s page) >>= answer_saved s
