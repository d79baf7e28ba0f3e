-- ===== src/Command/Guard.antt =====
-- When the erase and write commands touch flash, and what they answer.
use bootloader_proposal.Base.{
  ℕ, ◌≤◌, ◌<◌, ◌≡◌, ◌⊎◌, inl, inr, refl, Bool, true, false, some, ltb, arith, Bytes, first?, drop,
}
use bootloader_proposal.Cmp.{Context}
use bootloader_proposal.Config.{strings_equal}
use bootloader_proposal.World.{
  World, Run, done, flash_writer_unlock, flash_writer_lock, flash_writer_page_erase,
  flash_writer_page_write,
}
use bootloader_proposal.Command.Access.{
  command_erase_flash_page, command_write_flash, read_address, read_class,
}
use bootloader_proposal.Command.Types.{Session, Parts}

module _ (parts : Parts) where
  open parts use {cmp, flash, platform, locals}

  -- the address that the command reads, and the class that it reads behind it
  abbrev pub address_of : Session → ℕ
  address_of s = (read_address parts 0 s).0

  abbrev pub class_of : Session → Bytes
  class_of s = (read_class parts (read_address parts 0 s).1).0

  -- The guard of both commands fails: the address is below the application, or the class argument
  -- is not the configured one.
  abbrev pub Refused : Session → Type 0
  Refused s =
      (address_of s < platform.app_addr)
      ⊎ ((platform.app_addr ≤ address_of s)
          × (strings_equal (class_of s) s.config.device_class ≡ some false))

  pub record Accepted (s : Session) : Type 0 where
    pub high : platform.app_addr ≤ address_of s
    pub class : strings_equal (class_of s) s.config.device_class ≡ some true

  -- The command returns the answer `b` and world `w`, and keeps the configuration.
  abbrev pub Answers : Run Session → Session → ℕ → World → Type 0
  Answers r s b w =
      (s' : Session) × (r ≡ done s')
      × (s'.out ≡ cmp.write_bool s.out b)
      × (s'.world ≡ w)
      × (s'.config ≡ s.config)

  low_test :
      (s : Session) → address_of s < platform.app_addr → ltb (address_of s) platform.app_addr ≡ true
  low_test s h = ground arith

  high_test :
      (s : Session)
      → platform.app_addr ≤ address_of s
      → ltb (address_of s) platform.app_addr ≡ false
  high_test s h = ground arith

  -- Where the address is below the application or the class argument is not the configured one,
  -- the erase command answers false, and neither flash nor the configuration changes.
  pub erase-Refused :
      (argc : ℕ) (s : Session)
      → Refused s
      → Answers (command_erase_flash_page parts argc s) s 0 s.world
  unfolding command_erase_flash_page
  erase-Refused argc s r = elim r [
    | inl low ↦ rw (low_test s low) (_, refl, refl, refl, refl)
    | inr (high, class) ↦ rw (high_test s high, class) (_, refl, refl, refl, refl)
  ]

  -- Where the address is not below the application and the class argument is the configured one,
  -- the erase command erases the page at the address between an unlock and a lock, answers true,
  -- and keeps the configuration.
  pub erase-Accepted :
      (argc : ℕ) (s : Session)
      → Accepted s
      → Answers (command_erase_flash_page parts argc s) s 1 (
          flash_writer_lock
            (flash_writer_page_erase flash (address_of s) (flash_writer_unlock s.world)))
  unfolding command_erase_flash_page
  erase-Accepted argc s a = rw (high_test s a.high, a.class) (_, refl, refl, refl, refl)

  -- Where the address is below the application or the class argument is not the configured one,
  -- the write command answers false, and neither flash nor the configuration changes.
  pub write-Refused :
      (argc : ℕ) (s : Session) → Refused s → Answers (command_write_flash parts argc s) s 0 s.world
  unfolding command_write_flash
  write-Refused argc s r = elim r [
    | inl low ↦ rw (low_test s low) (_, refl, refl, refl, refl)
    | inr (high, class) ↦ rw (high_test s high, class) (_, refl, refl, refl, refl)
  ]

  -- the size and the context behind the binary header
  abbrev pub bin_of : Session → Bool × ℕ × Context
  bin_of s =
      let (address, s₁) = read_address parts 0 s in
      let (class, n, s₂) = read_class parts s₁ in cmp.read_bin_size s₂.args n

  -- Where the address is not below the application, the class argument is the configured one and a
  -- binary header follows, with as many bytes behind it as it says, the write command writes them
  -- at the address between an unlock and a lock, answers true, and keeps the configuration.
  pub write-Accepted :
      (argc : ℕ) (s : Session) (src : Bytes)
      → Accepted s
      → (bin_of s).0 ≡ true
      → first? (bin_of s).1 (drop (bin_of s).2.position (bin_of s).2.buffer) ≡ some src
      → Answers (command_write_flash parts argc s) s 1 (
          flash_writer_lock
            (flash_writer_page_write flash (address_of s) src (flash_writer_unlock s.world)))
  unfolding command_write_flash
  write-Accepted argc s src a bin e =
      rw (high_test s a.high, a.class, bin, e) (_, refl, refl, refl, refl)

  -- Where the address is not below the application, the class argument is the configured one and no
  -- binary header follows, the write command answers false, and neither flash nor the configuration
  -- changes.
  pub write_bare :
      (argc : ℕ) (s : Session)
      → Accepted s
      → (bin_of s).0 ≡ false
      → Answers (command_write_flash parts argc s) s 0 s.world
  unfolding command_write_flash
  write_bare argc s a bare = rw (high_test s a.high, a.class, bare) (_, refl, refl, refl, refl)
