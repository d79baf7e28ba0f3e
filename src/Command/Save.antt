-- ===== src/Command/Save.antt =====
-- `command_config_write_to_flash` as a whole: the page it writes, what it stores, what it answers.
use bootloader_proposal.Base.{
  ℕ, ◌+◌, ◌%◌, ◌≤◌, ◌<◌, ◌≡◌, inl, inr, refl, ◌∙◌, ap, true, some, AreBytes, Bytes, length, u32_mod,
  Bool-cases,
}
use bootloader_proposal.Cmp.{WritesInPlace}
use bootloader_proposal.Config.{config_is_valid}
use bootloader_proposal.Config.Page.{IsTerminated, config_write-replicate, config_is_valid-some}
use bootloader_proposal.World.{
  Memory, bytes_at, length-bytes_at, FlashWriter, KeepsToPages, World, done,
}
use bootloader_proposal.Command.Access.{write_bool}
use bootloader_proposal.Command.Pages.{
  counted, filled_page, with_page, answer_saved, rewrite_page, flash_write_and_verify,
  write_in_turn, write_both, save_pages, valid_in, command_config_write_to_flash,
}
use bootloader_proposal.Command.Types.{Session, Parts}
use bootloader_proposal.Command.Returns.{save_pages-done}
use bootloader_proposal.Command.Redundancy.{
  Disjoint, flip, IsKept, save_pages-IsKept, bytes_at-same, page_buffer-rewrite,
}

-- A page that is erased and then written in full with bytes holds them.
abbrev pub StoresPages : FlashWriter → ℕ → (ℕ → Type 0) → Type 0
StoresPages flash size IsPage =
    (a : ℕ) (bs : Bytes) (m : Memory)
    → IsPage a
    → length bs ≡ size
    → AreBytes bs
    → bytes_at (flash.page_write a bs (flash.page_erase a m).final).final a size ≡ bs

-- The page that is written for a configuration holds bytes.
abbrev pub WritesPage : Parts → Session → Type 0
WritesPage parts s =
    (page : Bytes) → filled_page parts (counted parts s) ≡ some page → AreBytes page

module _ (parts : Parts) (IsPage : ℕ → Type 0)
    (keeps : KeepsToPages parts.flash parts.platform.config_page_size IsPage)
    (page₁ : IsPage parts.platform.config1_addr) (page₂ : IsPage parts.platform.config2_addr)
    (apart : Disjoint parts.platform.config_page_size parts.platform.config1_addr
      parts.platform.config2_addr)
    (writes : WritesInPlace parts.cmp)
    (crc_word : (c : ℕ) (bs : Bytes) → parts.crc32 c bs < u32_mod)
    (holds_crc : 4 ≤ parts.platform.config_page_size) where
  open parts use {crc32, flash, platform, cmp}

  abbrev size : ℕ
  size = platform.config_page_size

  written_page :
      (s : Session)
      → IsTerminated s.config
      → (page : Bytes) × (filled_page parts (counted parts s) ≡ some page)
        × (config_is_valid crc32 page size ≡ some true)
        × (length page ≡ size)
  written_page s t =
      config_write-replicate cmp writes crc32 crc_word (counted parts s).config size
        (record {
          name_length = t.name_length;
          class_length = t.class_length;
          name_ends = t.name_ends;
          class_ends = t.class_ends;
        })
        holds_crc

  -- Saving the configuration returns, also where flash does not store what it is given. If one of
  -- the two configuration pages was valid at every moment before, one of them is valid at every
  -- moment since: in each state that memory passes through, so also where the power fails, and at
  -- the end, whatever the answer. The pages are disjoint and have room for a CRC, CRCs have 32 bits,
  -- the flash writer changes nothing outside the page that it is given, items of MessagePack are
  -- written in place, and the strings of the configuration are terminated.
  pub save-IsKept :
      (argc : ℕ) (s : Session)
      → IsTerminated s.config
      → IsKept parts s.world
      → (s' : Session) × (command_config_write_to_flash parts argc s ≡ done s')
        × IsKept parts s'.world
  unfolding command_config_write_to_flash answer_saved
  save-IsKept argc s t k =
      let s₁ = counted parts s in
      let (page, e, valid, len) = written_page s t in
      let w = with_page parts s₁ page in
      let (r, saved) = save_pages-done parts holds_crc w in
      let kept =
        save_pages-IsKept parts IsPage keeps w page₁ page₂ apart len
          (record { now = k.now; always = k.always }) in
      rw (e, saved) (_, refl, rw saved at kept)

  module _ (stores : StoresPages flash size IsPage) where
    rewrite_page_self :
        (a : ℕ) (w : World)
        → IsPage a
        → length w.page_buffer ≡ size
        → AreBytes w.page_buffer
        → bytes_at (rewrite_page parts a w).memory a size ≡ w.page_buffer
    unfolding rewrite_page
    rewrite_page_self a w page len bytes = stores a w.page_buffer w.memory page len bytes

    rewrite_page_other :
        (a b : ℕ) (w : World)
        → IsPage a
        → length w.page_buffer ≡ size
        → Disjoint size a b
        → bytes_at (rewrite_page parts a w).memory b size ≡ bytes_at w.memory b size
    unfolding rewrite_page
    rewrite_page_other a b w page len split =
        let erased = flash.page_erase a w.memory in
        let written = flash.page_write a w.page_buffer erased.final in
        bytes_at-same parts IsPage keeps a b erased.final written.final
          (keeps.write_final a w.page_buffer erased.final page len) split
        ∙ bytes_at-same parts IsPage keeps a b w.memory erased.final
            (keeps.erase_final a w.memory page) split

    -- A page that verifies is written and reported.
    verified :
        (a : ℕ) (w : World)
        → IsPage a
        → length w.page_buffer ≡ size
        → AreBytes w.page_buffer
        → config_is_valid crc32 w.page_buffer size ≡ some true
        → flash_write_and_verify parts a w ≡ done (true, rewrite_page parts a w)
    unfolding flash_write_and_verify
    verified a w page len bytes v =
        let ok : valid_in parts (rewrite_page parts a w).memory a ≡ some true =
          rw (rewrite_page_self a w page len bytes) v in
        rw ok

    abbrev Holds : ℕ → World → Bytes → Type 0
    Holds a w page = bytes_at w.memory a size ≡ page

    two_pages :
        (a b : ℕ) (w : World)
        → IsPage a
        → IsPage b
        → Disjoint size a b
        → length w.page_buffer ≡ size
        → AreBytes w.page_buffer
        → config_is_valid crc32 w.page_buffer size ≡ some true
        → (w' : World) × (write_in_turn parts a b w ≡ done (true, w'))
          × (write_both parts a b w ≡ done (true, w'))
          × Holds a w' w.page_buffer
          × Holds b w' w.page_buffer
    unfolding write_in_turn write_both
    two_pages a b w page_a page_b split len bytes v =
        let w₁ = rewrite_page parts a w in
        let same = page_buffer-rewrite parts IsPage keeps a w in
        let len₁ = ap length same ∙ len in
        let bytes₁ : AreBytes w₁.page_buffer = rw same bytes in
        let v₁ : config_is_valid crc32 w₁.page_buffer size ≡ some true = rw same v in
        let first = verified a w page_a len bytes v in
        let second = verified b w₁ page_b len₁ bytes₁ v₁ in
        (
          rewrite_page parts b w₁,
          rw (first, second),
          rw (first, second),
          rewrite_page_other b a w₁ page_b len₁ (flip size a b split)
              ∙ rewrite_page_self a w page_a len bytes,
          rewrite_page_self b w₁ page_b len₁ bytes₁ ∙ same,
        )

    -- Saving succeeds, and leaves both pages equal to the page buffer.
    save_pages-Holds :
        (w : World)
        → length w.page_buffer ≡ size
        → AreBytes w.page_buffer
        → config_is_valid crc32 w.page_buffer size ≡ some true
        → (w' : World) × (save_pages parts w ≡ done (true, w'))
          × Holds platform.config1_addr w' w.page_buffer
          × Holds platform.config2_addr w' w.page_buffer
    unfolding save_pages
    save_pages-Holds w len bytes v =
        let c₁ = platform.config1_addr in
        let c₂ = platform.config2_addr in
        let (w₁₂, turn₁, both, a₁, a₂) = two_pages c₁ c₂ w page₁ page₂ apart len bytes v in
        let (w₂₁, turn₂, _, d₂, d₁) =
          two_pages c₂ c₁ w page₂ page₁ (flip size c₁ c₂ apart) len bytes v in
        let (ok₂, e₂) =
          config_is_valid-some crc32 (bytes_at w.memory c₂ size) size
            (length-bytes_at w.memory c₂ size) holds_crc in
        let (ok₁, e₁) =
          config_is_valid-some crc32 (bytes_at w.memory c₁ size) size
            (length-bytes_at w.memory c₁ size) holds_crc in
        elim (Bool-cases ok₂) [
          | inl t₂ ↦ (w₁₂, rw (e₂, t₂) turn₁, a₁, a₂)
          | inr f₂ ↦ elim (Bool-cases ok₁) [
            | inl t₁ ↦ (w₂₁, rw (e₂, f₂, e₁, t₁) turn₂, d₁, d₂)
            | inr f₁ ↦ (w₁₂, rw (e₂, f₂, e₁, f₁) both, a₁, a₂)
          ]
        ]

    -- With a flash writer that stores bytes that it is given, saving the configuration answers true,
    -- counts the update, and leaves in both configuration pages the page that `config_write` makes
    -- of the counted configuration. That page is valid, and holds bytes.
    pub save_stores :
        (argc : ℕ) (s : Session)
        → IsTerminated s.config
        → WritesPage parts s
        → (s' : Session) × (page : Bytes) × (command_config_write_to_flash parts argc s ≡ done s')
          × (filled_page parts (counted parts s) ≡ some page)
          × (config_is_valid crc32 page size ≡ some true)
          × (bytes_at s'.world.memory platform.config1_addr size ≡ page)
          × (bytes_at s'.world.memory platform.config2_addr size ≡ page)
          × (s'.out ≡ cmp.write_bool s.out 1)
          × (s'.config.update_count ≡ (s.config.update_count + 1) % u32_mod)
    unfolding command_config_write_to_flash
    save_stores argc s t writes_bytes =
        let s₁ = counted parts s in
        let (page, e, valid, len) = written_page s t in
        let (w', saved, first, second) =
          save_pages-Holds (with_page parts s₁ page) len (writes_bytes page e) valid in
        (
          write_bool parts 1 (record s₁ { world = w' }),
          page,
          rw (e, saved),
          e,
          valid,
          first,
          second,
          refl,
          refl,
        )
