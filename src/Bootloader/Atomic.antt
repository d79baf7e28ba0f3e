-- ===== src/Bootloader/Atomic.antt =====
-- Saving a configuration, and a start after a loss of power in the middle.
use bootloader_proposal.Base.{
  ℕ, ◌≤◌, ◌<◌, ◌≡◌, ◌⊎◌, inl, inr, refl, sym, ap, ◌∙◌, true, some, some_inj, List, [], ◌∷◌,
  AreBytes, ◌++◌, Bytes, length, u32_mod, Bool-cases,
}
use mathlib.Core.Path.{subst}
use bootloader_proposal.Bootloader.Node.{Stack, boot_config}
use bootloader_proposal.Cmp.{WritesInPlace}
use bootloader_proposal.Command.Pages.{
  counted, filled_page, with_page, save_pages, answer_saved, command_config_write_to_flash,
}
use bootloader_proposal.Command.Redundancy.{Disjoint, ValidAt, HasConfig, IsKept}
use bootloader_proposal.Command.Returns.{valid_in-some}
use bootloader_proposal.Command.Save.{StoresPages, save_stores, save-IsKept}
use bootloader_proposal.Command.Torn.{page_at, DetectsTorn, Known, BothKnown, Traced}
use bootloader_proposal.Command.Traced.{save_pages-Traced}
use bootloader_proposal.Command.Types.{Session, Parts, of_option}
use bootloader_proposal.Config.{Config, config_is_valid, config_read}
use bootloader_proposal.Config.Page.{IsTerminated}
use bootloader_proposal.World.{
  Memory, World, Run, done, done_inj, All, All-left, Leaves, Leaves-bind, KeepsToPages,
  length-bytes_at,
}

-- Two valid configuration pages are the same.
abbrev pub Agree : Parts → Memory → Type 0
Agree parts m =
    ValidAt parts parts.platform.config1_addr m
    → ValidAt parts parts.platform.config2_addr m
    → page_at parts parts.platform.config1_addr m ≡ page_at parts parts.platform.config2_addr m

module _ (parts : Parts) (stack : Stack) (room : 4 ≤ parts.platform.config_page_size) where
  open parts use {crc32, cmp, platform, locals}

  -- the configuration of a start where memory holds `m`
  abbrev pub start_at : World → Memory → Run Config
  start_at w m = boot_config parts stack (record w { memory = m })

  abbrev read_bytes : Bytes → Run Config
  read_bytes bs =
      of_option (config_read cmp stack.config locals.buffer64 bs platform.config_page_size)

  start-first :
      (w : World) (m : Memory)
      → ValidAt parts platform.config1_addr m
      → start_at w m ≡ read_bytes (page_at parts platform.config1_addr m)
  unfolding boot_config
  start-first w m v = rw v refl

  -- A start reads a valid page, the first one if it is valid.
  start-either :
      (w : World) (m : Memory)
      → HasConfig parts m
      → (ValidAt parts platform.config1_addr m
          × (start_at w m ≡ read_bytes (page_at parts platform.config1_addr m)))
        ⊎ (ValidAt parts platform.config2_addr m
            × (start_at w m ≡ read_bytes (page_at parts platform.config2_addr m)))
  unfolding boot_config
  start-either w m (inl v) = inl (v, start-first w m v)
  start-either w m (inr v) =
      let (ok, e) = valid_in-some parts room platform.config1_addr m in
      elim (Bool-cases ok) [
        | inl good ↦ let v₁ = rw good at e in inl (v₁, start-first w m v₁)
        | inr bad ↦ inr (v, rw (e, bad, v) refl)
      ]

  -- Where valid pages agree, a start reads whatever is in a valid one.
  start-Agree :
      (w : World) (m : Memory)
      → Agree parts m
      → ValidAt parts platform.config2_addr m
      → start_at w m ≡ read_bytes (page_at parts platform.config2_addr m)
  start-Agree w m agree v = elim (start-either w m (inr v)) [
    | inl (v₁, e) ↦ e ∙ ap read_bytes (agree v₁ v)
    | inr (_, e) ↦ e
  ]

  -- What a start reads in one state is what it reads in one of two others.
  abbrev pub Either : World → Memory → Memory → Memory → Type 0
  Either w before after m = (start_at w m ≡ start_at w before) ⊎ (start_at w m ≡ start_at w after)

  module _ (w : World) (before after : Memory) (new : Bytes) (agree : Agree parts before)
      (now : page_at parts platform.config1_addr after ≡ new)
      (valid : config_is_valid crc32 new platform.config_page_size ≡ some true) where
    reads-after : start_at w after ≡ read_bytes new
    reads-after = start-first w after (rw now valid) ∙ ap read_bytes now

    -- A valid page in a state that is known is the one before or the new one.
    from-page :
        (a : ℕ) (m : Memory)
        → (ValidAt parts a before → start_at w before ≡ read_bytes (page_at parts a before))
        → ValidAt parts a m
        → start_at w m ≡ read_bytes (page_at parts a m)
        → Known parts (λ a. page_at parts a before) new a m
        → Either w before after m
    from-page a m was v e (inl old) = inl (e ∙ ap read_bytes old ∙ sym (was (rw old at v)))
    from-page a m was v e (inr (inl one)) = inr (e ∙ ap read_bytes one ∙ sym reads-after)
    from-page a m was v e (inr (inr bad)) = absurd (cc)

    known-Either :
        (m : Memory)
        → HasConfig parts m
        → BothKnown parts (λ a. page_at parts a before) new m
        → Either w before after m
    known-Either m has (k₁, k₂) = elim (start-either w m has) [
      | inl (v, e) ↦ from-page platform.config1_addr m (start-first w before) v e k₁
      | inr (v, e) ↦ from-page platform.config2_addr m (start-Agree w before agree) v e k₂
    ]

    All-Either :
        (ms : List Memory)
        → All (HasConfig parts) ms
        → All (BothKnown parts (λ a. page_at parts a before) new) ms
        → All (Either w before after) ms
    All-Either [] h k = tt
    All-Either (m ∷ ms) h k = (known-Either m h.0 k.0, All-Either ms h.1 k.1)

module _ (parts : Parts) (IsPage : ℕ → Type 0)
    (keeps : KeepsToPages parts.flash parts.platform.config_page_size IsPage)
    (page₁ : IsPage parts.platform.config1_addr) (page₂ : IsPage parts.platform.config2_addr)
    (apart : Disjoint parts.platform.config_page_size parts.platform.config1_addr
      parts.platform.config2_addr)
    (writes : WritesInPlace parts.cmp)
    (crc_word : (c : ℕ) (bs : Bytes) → parts.crc32 c bs < u32_mod)
    (stores : StoresPages parts.flash parts.platform.config_page_size IsPage)
    (room : 4 ≤ parts.platform.config_page_size) where
  open parts use {crc32, platform}

  command-Traced :
      (argc : ℕ) (s : Session) (page : Bytes)
      → filled_page parts (counted parts s) ≡ some page
      → length page ≡ platform.config_page_size
      → AreBytes page
      → DetectsTorn parts (λ a. page_at parts a s.world.memory) page IsPage
      → Leaves
          (λ s'. s'.world)
          (Traced parts (λ a. page_at parts a s.world.memory) page s.world.history)
          (command_config_write_to_flash parts argc s)
  unfolding command_config_write_to_flash answer_saved
  command-Traced argc s page e len bytes torn =
      let old : ℕ → Bytes = λ a. page_at parts a s.world.memory in
      let P = Traced parts old page s.world.history in
      let w = with_page parts (counted parts s) page in
      rw e (
        Leaves-bind (λ r. r.1) (λ s'. s'.world) P (save_pages parts w) _
          (save_pages-Traced parts old page s.world.history IsPage keeps torn
            (λ a m at. stores a page m at len bytes) len page₁ page₂ apart w
            (record {
              now = (inl refl, inl refl);
              since = [];
              grown = refl;
              always = tt;
              buffer = refl;
            }))
          (λ r t. t))

  -- Saving a configuration is atomic: it returns, and in every state that memory passes through, a start
  -- after a loss of power reads either what a start before would have read, or what a start at the end
  -- reads. Before, a valid page is in flash in every state, and two valid pages are the same; of the
  -- pages before and the new one, a page that is in part erased or written has no valid CRC; the new page
  -- holds bytes; pages are disjoint and have room for a CRC, which has 32 bits; the flash writer stores
  -- the bytes that it is given and nothing else; MessagePack is written in place; and the strings of
  -- the configuration are terminated.
  pub boot_config-atomic :
      (stack : Stack) (argc : ℕ) (s : Session) (page : Bytes)
      → IsTerminated s.config
      → filled_page parts (counted parts s) ≡ some page
      → AreBytes page
      → DetectsTorn parts (λ a. page_at parts a s.world.memory) page IsPage
      → IsKept parts s.world
      → Agree parts s.world.memory
      → (s' : Session) × (since : List Memory) × (command_config_write_to_flash parts argc s
          ≡ done s')
        × (s'.world.history ≡ since ++ s.world.history)
        × All (Either parts stack room s.world s.world.memory s'.world.memory) since
  boot_config-atomic stack argc s page t e bytes torn kept agree =
      let (s', page', saved, e', valid, first', _, _, _) =
        save_stores parts IsPage keeps page₁ page₂ apart writes crc_word room stores argc s t
          (λ p q. subst AreBytes (some_inj (sym e ∙ q)) bytes) in
      let one : page' ≡ page = some_inj (sym e' ∙ e) in
      let first = first' ∙ one in
      let (s₂, saved₂, kept₂) =
        save-IsKept parts IsPage keeps page₁ page₂ apart writes crc_word room argc s t kept in
      let len : length page ≡ platform.config_page_size =
        ap length (sym first)
        ∙ length-bytes_at s'.world.memory platform.config1_addr platform.config_page_size in
      let traced = rw saved at (command-Traced argc s page e len bytes torn) in
      let kept' : IsKept parts s'.world =
        subst (λ x. IsKept parts x.world) (done_inj (sym saved₂ ∙ saved)) kept₂ in
      let has : All (HasConfig parts) traced.since =
        All-left (HasConfig parts) traced.since s.world.history (rw traced.grown at kept'.always) in
      (
        s',
        traced.since,
        saved,
        traced.grown,
        All-Either parts stack room s.world s.world.memory s'.world.memory page agree first
            (rw one at valid) traced.since has traced.always,
      )
