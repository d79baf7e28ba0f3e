-- ===== src/Bootloader/Saved.antt =====
-- Saving a configuration, and the next start.
use bootloader_proposal.Base.{
  ℕ, ◌+◌, ◌%◌, ◌≤◌, ◌<◌, ◌≡◌, ◌∙◌, sym, some, some_inj, true, arith, replicate, Bytes, u32_mod,
}
use bootloader_proposal.Bootloader.Node.{Stack, boot_config}
use bootloader_proposal.Cmp.{WritesInPlace, WritesBytes}
use bootloader_proposal.Config.Octets.{config_write-AreBytes, replicate-AreBytes}
use bootloader_proposal.Command.Pages.{counted, command_config_write_to_flash}
use bootloader_proposal.Command.Types.{Session, Parts}
use bootloader_proposal.Command.Redundancy.{Disjoint}
use bootloader_proposal.Command.Save.{StoresPages, WritesPage, save_stores}
use bootloader_proposal.Config.{Config, config_is_valid, config_read}
use bootloader_proposal.Config.Items.{IsLawful}
use bootloader_proposal.Config.Page.{IsTerminated}
use bootloader_proposal.Config.Reread.{HasBuffers, config_read-replicate}
use bootloader_proposal.Config.Text.{SaysSame}
use bootloader_proposal.Config.Written.{HasText, InRange}
use bootloader_proposal.World.{World, bytes_at, KeepsToPages, done}

module _ (parts : Parts) (IsPage : ℕ → Type 0)
    (keeps : KeepsToPages parts.flash parts.platform.config_page_size IsPage)
    (page₁ : IsPage parts.platform.config1_addr) (page₂ : IsPage parts.platform.config2_addr)
    (apart : Disjoint parts.platform.config_page_size parts.platform.config1_addr
      parts.platform.config2_addr)
    (writes : WritesInPlace parts.cmp) (bytes : WritesBytes parts.cmp) (laws : IsLawful parts.cmp)
    (crc_word : (c : ℕ) (bs : Bytes) → parts.crc32 c bs < u32_mod)
    (stores : StoresPages parts.flash parts.platform.config_page_size IsPage)
    (room : 256 ≤ parts.platform.config_page_size) where
  open parts use {crc32, cmp, platform, locals}

  -- A valid first page is the one that the start reads.
  boot-first :
      (stack : Stack) (w : World) (page : Bytes) (config : Config)
      → bytes_at w.memory platform.config1_addr platform.config_page_size ≡ page
      → config_is_valid crc32 page platform.config_page_size ≡ some true
      → config_read cmp stack.config locals.buffer64 page platform.config_page_size ≡ some config
      → boot_config parts stack w ≡ done config
  unfolding boot_config
  boot-first stack w page config e valid read = rw (e, valid, read)

  counted-IsTerminated :
      (s : Session) → IsTerminated s.config → IsTerminated (counted parts s).config
  counted-IsTerminated s t = record {
    name_length = t.name_length;
    class_length = t.class_length;
    name_ends = t.name_ends;
    class_ends = t.class_ends;
  }

  counted-InRange : (s : Session) → InRange s.config → InRange (counted parts s).config
  counted-InRange s r = record {
    id_byte = r.id_byte;
    crc_word = r.crc_word;
    size_word = r.size_word;
    count_word = omega arith;
    name_room = r.name_room;
    class_room = r.class_room;
  }

  counted-HasText : (s : Session) → HasText s.config → HasText (counted parts s).config
  counted-HasText s text = record { name = text.name; class = text.class }

  counted-WritesPage :
      (s : Session)
      → IsTerminated s.config
      → InRange s.config
      → HasText s.config
      → WritesPage parts s
  counted-WritesPage s t r text page e =
      config_write-AreBytes cmp bytes crc32 (replicate platform.config_page_size 0) page
        (counted parts s).config platform.config_page_size (counted-IsTerminated s t)
        (counted-InRange s r) (counted-HasText s text)
        (replicate-AreBytes platform.config_page_size 0 (omega arith)) e

  -- Saving a configuration returns and answers true, and the next start reads the configuration
  -- that was saved: its update count is one more, and all else says the same. The strings are of
  -- bytes, terminated in buffers of 65 bytes, the numbers fit their fields, pages have 256 bytes or
  -- more and are disjoint, the flash writer stores the bytes that it is given and nothing else,
  -- CRCs have 32 bits, and the MessagePack library writes bytes and reads what it has written.
  pub boot_config-save :
      (stack : Stack) (argc : ℕ) (s : Session)
      → IsTerminated s.config
      → InRange s.config
      → HasText s.config
      → HasBuffers stack.config locals.buffer64
      → (s' : Session) × (config : Config) × (command_config_write_to_flash parts argc s ≡ done s')
        × (s'.out ≡ cmp.write_bool s.out 1)
        × (boot_config parts stack s'.world ≡ done config)
        × SaysSame config (record s.config { update_count = (s.config.update_count + 1) % u32_mod })
  boot_config-save stack argc s t r text b =
      let (s', page, saved, e, valid, first, second, answer, count) =
        save_stores parts IsPage keeps page₁ page₂ apart writes crc_word (omega arith) stores argc s
          t (counted-WritesPage s t r text) in
      let (page', config, written, read, same) =
        config_read-replicate cmp laws crc32 locals.buffer64 (counted parts s).config stack.config
          platform.config_page_size (counted-IsTerminated s t) (counted-InRange s r)
          (counted-HasText s text) b room in
      let one : page' ≡ page = some_inj (sym written ∙ e) in
      (
        s',
        config,
        saved,
        answer,
        boot-first stack s'.world page config first valid (rw one at read),
        same,
      )
