-- ===== src/Command/Torn.antt =====
-- The configuration pages during `command_config_write_to_flash`: each is old, new or not valid.
use bootloader_proposal.Base.{
  ℕ, ◌≡◌, ◌⊎◌, inl, inr, refl, false, some, List, [], ◌∷◌, ◌++◌, append_assoc, length, Bytes,
}
use bootloader_proposal.Config.{config_is_valid}
use bootloader_proposal.World.{Memory, bytes_at, SameOutside, KeepsToPages, World, All}
use bootloader_proposal.Command.Pages.{rewrite_page}
use bootloader_proposal.Command.Redundancy.{Disjoint, bytes_at-same}
use bootloader_proposal.Command.Types.{Parts}

module _ (parts : Parts) where
  open parts use {crc32, flash, platform}

  abbrev pub page_at : ℕ → Memory → Bytes
  page_at a m = bytes_at m a platform.config_page_size

  abbrev pub IsInvalid : Bytes → Type 0
  IsInvalid bs = config_is_valid crc32 bs platform.config_page_size ≡ some false

  module _ (old : ℕ → Bytes) (new : Bytes) where
    abbrev pub Known : ℕ → Memory → Type 0
    Known a n = (page_at a n ≡ old a) ⊎ (page_at a n ≡ new) ⊎ IsInvalid (page_at a n)

    abbrev pub Held : ℕ → Memory → Type 0
    Held a n = (page_at a n ≡ old a) ⊎ (page_at a n ≡ new)

    Held→Known : (a : ℕ) (n : Memory) → Held a n → Known a n
    Held→Known a n (inl e) = inl e
    Held→Known a n (inr e) = inr (inl e)

    -- What the CRC is there for: of these pages, one that is erased, or in part erased or written, is not
    -- valid.
    pub record DetectsTorn (IsPage : ℕ → Type 0) : Type 0 where
      pub erase_passing :
          (a : ℕ) (m : Memory)
          → IsPage a
          → Held a m
          → All
              (λ n. (page_at a n ≡ page_at a m) ⊎ IsInvalid (page_at a n))
              (flash.page_erase a m).passing
      pub erase_final :
          (a : ℕ) (m : Memory)
          → IsPage a
          → Held a m
          → IsInvalid (page_at a (flash.page_erase a m).final)
      pub write_passing :
          (a : ℕ) (m : Memory)
          → IsPage a
          → Held a m
          → All
              (λ n. (page_at a n ≡ new) ⊎ IsInvalid (page_at a n))
              (flash.page_write a new (flash.page_erase a m).final).passing

    abbrev pub BothKnown : Memory → Type 0
    BothKnown n = Known platform.config1_addr n × Known platform.config2_addr n

    module _ (start : List Memory) where
      -- Both pages are old or new now, and known in every state since a start.
      pub record Traced (w : World) : Type 0 where
        pub now : Held platform.config1_addr w.memory × Held platform.config2_addr w.memory
        pub since : List Memory
        pub grown : w.history ≡ since ++ start
        pub always : All BothKnown since
        pub buffer : w.page_buffer ≡ new

      module _ (IsPage : ℕ → Type 0) (keeps : KeepsToPages flash platform.config_page_size IsPage)
          (torn : DetectsTorn IsPage)
          (stores : (a : ℕ) (m : Memory)
            → IsPage a
            → page_at a (flash.page_write a new (flash.page_erase a m).final).final ≡ new)
          (len : length new ≡ platform.config_page_size) where
        Held-stays :
            (a b : ℕ) (m n : Memory)
            → Disjoint platform.config_page_size a b
            → SameOutside a platform.config_page_size m n
            → Held b m
            → Held b n
        Held-stays a b m n apart same k = rw (bytes_at-same parts IsPage keeps a b m n same apart) k

        -- Another page is left alone.
        Known-stays :
            (a b : ℕ) (m n : Memory)
            → Disjoint platform.config_page_size a b
            → SameOutside a platform.config_page_size m n
            → Known b m
            → Known b n
        Known-stays a b m n apart same k =
            rw (bytes_at-same parts IsPage keeps a b m n same apart) k

        -- a list of states in which one page is left alone
        beside :
            (a b : ℕ) (m : Memory) (Torn : Memory → Type 0) (ms hist : List Memory)
            → Disjoint platform.config_page_size a b
            → ((n : Memory) → Torn n → Known a n)
            → ((n : Memory) → Known a n → Known b n → BothKnown n)
            → Known b m
            → All (SameOutside a platform.config_page_size m) ms
            → All Torn ms
            → All BothKnown hist
            → All BothKnown (ms ++ hist)
        beside a b m Torn [] hist apart know both k same torn h = h
        beside a b m Torn (n ∷ ms) hist apart know both k same torn h = (
          both n (know n torn.0) (Known-stays a b m n apart same.0 k),
          beside a b m Torn ms hist apart know both k same.1 torn.1 h,
        )

        unchanged :
            {a : ℕ} (m : Memory)
            → Known a m
            → (n : Memory) → (page_at a n ≡ page_at a m) ⊎ IsInvalid (page_at a n)
            → Known a n
        unchanged m k n (inl same) = rw same k
        unchanged m k n (inr bad) = inr (inr bad)

        -- While a page is rewritten, it is old, new or not valid, and the other one is left alone.
        pub rewrite-Traced :
            (a b : ℕ) (w : World)
            → IsPage a
            → Disjoint platform.config_page_size a b
            → ((P : ℕ → Type 0) → P a → P b → P platform.config1_addr × P platform.config2_addr)
            → Held a w.memory
            → Held b w.memory
            → Traced w
            → Traced (rewrite_page parts a w)
        unfolding rewrite_page
        rewrite-Traced a b w page apart order h_a h_b t =
            let m = w.memory in
            let erased = flash.page_erase a m in
            let written = flash.page_write a new erased.final in
            let both : (n : Memory) → Known a n → Known b n → BothKnown n =
              λ n. order (λ x. Known x n) in
            let k_a = Held→Known a m h_a in
            let k_b = Held→Known b m h_b in
            let same₁ = keeps.erase_final a m page in
            let same₂ = keeps.write_final a new erased.final page len in
            let b₁ = Known-stays a b m erased.final apart same₁ k_b in
            let b₂ = Known-stays a b erased.final written.final apart same₂ b₁ in
            let stored = stores a m page in
            rw t.buffer (record {
              now =
                  order (λ x. Held x written.final) (inr stored)
                    (Held-stays a b erased.final written.final apart same₂
                      (Held-stays a b m erased.final apart same₁ h_b));
              since =
                  written.final ∷ (written.passing ++ (erased.final ∷ (erased.passing ++ t.since)));
              grown = rw t.grown (simp (append_assoc));
              always = (
                both written.final (inr (inl stored)) b₂,
                beside a b erased.final _ written.passing _ apart (λ n. inr) both b₁
                    (keeps.write_passing a new erased.final page len)
                    (torn.write_passing a m page h_a)
                    (
                      both erased.final (inr (inr (torn.erase_final a m page h_a))) b₁,
                      beside a b m _ erased.passing t.since apart (unchanged m k_a) both k_b
                          (keeps.erase_passing a m page) (torn.erase_passing a m page h_a) t.always,
                    ),
              );
              buffer = refl;
            })
