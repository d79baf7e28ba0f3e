-- ===== src/Command/Unbroken.antt =====
-- The commands and the valid configuration page.
use bootloader_proposal.Base.{
  ℕ, Bool, ◌-◌, ◌≤◌, ◌<◌, ◌≡◌, inl, inr, true, false, some, [], ◌∷◌, arith, Bytes, u32_mod,
  Option-cases, ltb, Bool-cases, first?, drop,
}
use bootloader_proposal.Cmp.{Context, mem_access, Cmp, WritesInPlace}
use bootloader_proposal.Command.Access.{
  command_erase_flash_page, command_write_flash, write_flash_bytes, command_fail, write_bool,
  read_address, read_class,
}
use bootloader_proposal.Command.Pages.{
  counted, filled_page, rewrite_page, command_config_write_to_flash,
}
use bootloader_proposal.Command.Types.{Parts, Session}
use bootloader_proposal.Command.Keeping.{KeepsFlash}
use bootloader_proposal.Command.Redundancy.{Disjoint}
use bootloader_proposal.Command.Save.{save-IsKept}
use bootloader_proposal.Command.Saving.{IsConfigAddr, config_write-Keeps}
use bootloader_proposal.Config.{
  Config, strings_equal, string_length, config_write, config_write_messagepack,
}
use bootloader_proposal.Config.Page.{IsTerminated}
use bootloader_proposal.World.{World, FlashEvent, KeepsToPages, Leaves, Leaves-weaken, Run}
use bootloader_proposal.Command.Below.{
  KeepsBelow, AreBefore, strayed, KeptWithin, erase_page-KeptWithin, write_page-KeptWithin,
}

-- A configuration that was written has terminated strings.
messagepack-IsTerminated :
    (cmp : Cmp) (c c' : Context) (config : Config)
    → config_write_messagepack cmp c config ≡ some c'
    → IsTerminated config
unfolding config_write_messagepack
messagepack-IsTerminated cmp c c' config e = elim (Option-cases (string_length config.board_name)) [
  | inl stuck ↦ absurd (ground (arith, rw stuck at e))
  | inr (n, name) ↦ elim (Option-cases (string_length config.device_class)) [
    | inl stuck ↦ absurd (ground (arith, rw (name, stuck) at e))
    | inr (k, class) ↦ record {
      name_length = n;
      class_length = k;
      name_ends = name;
      class_ends = class;
    }
  ]
]

config_write-IsTerminated :
    (cmp : Cmp) (crc32 : ℕ → Bytes → ℕ) (buf page : Bytes) (config : Config) (size : ℕ)
    → config_write cmp crc32 buf config size ≡ some page
    → IsTerminated config
unfolding config_write
config_write-IsTerminated cmp crc32 (b₀ ∷ b₁ ∷ b₂ ∷ b₃ ∷ behind) page config size e =
    elim (Option-cases (config_write_messagepack cmp (mem_access behind (size - 4)) config)) [
      | inl stuck ↦ absurd (ground (arith, rw stuck at e))
      | inr (c, written) ↦ messagepack-IsTerminated cmp _ c config written
    ]
config_write-IsTerminated cmp crc32 [] page config size e = absurd (cc)
config_write-IsTerminated cmp crc32 (b₀ ∷ []) page config size e = absurd (cc)
config_write-IsTerminated cmp crc32 (b₀ ∷ b₁ ∷ []) page config size e = absurd (cc)
config_write-IsTerminated cmp crc32 (b₀ ∷ b₁ ∷ b₂ ∷ []) page config size e = absurd (cc)

module _ (parts : Parts) (before : AreBefore parts) (within : FlashEvent → Bool)
    (below : KeepsBelow parts.flash parts.platform.app_addr within) where
  open parts use {crc32, cmp, flash, platform}

  abbrev Kept : World → Type 0
  Kept = KeptWithin parts within

  abbrev Keeps : Run Session → Type 0
  Keeps = Leaves (λ s. s.world) Kept

  erase-Keeps :
      (argc : ℕ) (s : Session) → Kept s.world → Keeps (command_erase_flash_page parts argc s)
  unfolding command_erase_flash_page command_fail write_bool
  erase-Keeps argc s k =
      let (address, s₁) = read_address parts 0 s in
      let (class, n, s₂) = read_class parts s₁ in
      elim (Bool-cases (ltb address platform.app_addr)) [
        | inl low ↦ rw low k
        | inr high ↦ elim (Option-cases (strings_equal class s.config.device_class)) [
          | inl stuck ↦ rw (high, stuck) tt
          | inr (true, e) ↦
              rw (high, e)
                (erase_page-KeptWithin parts before within below address s₂ (ground (arith, high))
                  k)
          | inr (false, e) ↦ rw (high, e) k
        ]
      ]

  bytes-Keeps :
      (address n : ℕ) (s : Session)
      → platform.app_addr ≤ address
      → Kept s.world
      → Keeps (write_flash_bytes parts address n s)
  unfolding write_flash_bytes command_fail write_bool
  bytes-Keeps address n s le k =
      let (ok, size, c) = cmp.read_bin_size s.args n in
      elim (Bool-cases ok) [
        | inr stop ↦ rw stop k
        | inl go ↦ elim (Option-cases (first? size (drop c.position c.buffer))) [
          | inl stuck ↦ rw (go, stuck) tt
          | inr (src, e) ↦
              rw (go, e)
                (write_page-KeptWithin parts before within below address src (record s { args = c })
                  le k)
        ]
      ]

  write-Keeps : (argc : ℕ) (s : Session) → Kept s.world → Keeps (command_write_flash parts argc s)
  unfolding command_write_flash command_fail write_bool
  write-Keeps argc s k =
      let (address, s₁) = read_address parts 0 s in
      let (class, n, s₂) = read_class parts s₁ in
      elim (Bool-cases (ltb address platform.app_addr)) [
        | inl low ↦ rw low k
        | inr high ↦ elim (Option-cases (strings_equal class s.config.device_class)) [
          | inl stuck ↦ rw (high, stuck) tt
          | inr (true, e) ↦ rw (high, e) (bytes-Keeps address n s₂ (ground (arith, high)) k)
          | inr (false, e) ↦ rw (high, e) k
        ]
      ]

  module _ (IsPage : ℕ → Type 0)
      (keeps : KeepsToPages parts.flash parts.platform.config_page_size IsPage)
      (page₁ : IsPage parts.platform.config1_addr) (page₂ : IsPage parts.platform.config2_addr)
      (apart : Disjoint parts.platform.config_page_size parts.platform.config1_addr
        parts.platform.config2_addr)
      (writes : WritesInPlace parts.cmp)
      (crc_word : (c : ℕ) (bs : Bytes) → parts.crc32 c bs < u32_mod)
      (holds_crc : 4 ≤ parts.platform.config_page_size) where
    strays :
        (a : ℕ) (w : World)
        → IsConfigAddr parts a
        → strayed within w.events ≡ true
        → strayed within (rewrite_page parts a w).events ≡ true
    unfolding rewrite_page
    strays a w c out = ground (arith, out)

    save-Keeps :
        (argc : ℕ) (s : Session) → Kept s.world → Keeps (command_config_write_to_flash parts argc s)
    save-Keeps argc s (inl out) =
        Leaves-weaken (λ s. s.world) (λ w. strayed within w.events ≡ true) Kept _ (λ w. inl)
          (config_write-Keeps parts (λ w. strayed within w.events ≡ true) strays (λ w page h. h)
            argc s out)
    save-Keeps argc s (inr k) = elim (Option-cases (filled_page parts (counted parts s))) [
      | inl stuck ↦ unfold command_config_write_to_flash in rw stuck tt
      | inr (page, e) ↦
          let t = config_write-IsTerminated cmp crc32 _ page (counted parts s).config _ e in
          let (s', saved, kept) =
            save-IsKept parts IsPage keeps page₁ page₂ apart writes crc_word holds_crc argc s
              (record {
                name_length = t.name_length;
                class_length = t.class_length;
                name_ends = t.name_ends;
                class_ends = t.class_ends;
              })
              k in
          rw saved (inr kept)
    ]

    pub commands-KeepsFlash : KeepsFlash parts Kept
    commands-KeepsFlash = record { erase = erase-Keeps; write = write-Keeps; save = save-Keeps }
