-- ===== src/Command/Redundancy.antt =====
-- The valid configuration page during `command_config_write_to_flash`.
use bootloader_proposal.Base.{
  ℕ, zero, suc, ◌+◌, ◌≤◌, ◌<◌, ◌≡◌, ◌⊎◌, inl, inr, refl, ◌∙◌, ap, ap₂, Bool, true, false, some,
  arith, List, [], ◌∷◌, ◌++◌, length, Option-cases,
}
use bootloader_proposal.World.{
  Memory, bytes_at, SameOutside, KeepsToPages, World, Run, done, fault, All, Leaves,
}
use bootloader_proposal.Command.Pages.{
  rewrite_page, flash_write_and_verify, write_in_turn, save_pages, valid_in,
}
use bootloader_proposal.Command.Types.{Parts}

-- Two ranges of `size` addresses that do not meet.
abbrev pub Disjoint : ℕ → ℕ → ℕ → Type 0
Disjoint size a b = (a + size ≤ b) ⊎ (b + size ≤ a)

pub flip : (size a b : ℕ) → Disjoint size a b → Disjoint size b a
flip size a b (inl h) = inr h
flip size a b (inr h) = inl h

pub bytes_at-eq :
    (n x : ℕ) (m m' : Memory)
    → ((y : ℕ) → x ≤ y → y < x + n → m' y ≡ m y)
    → bytes_at m' x n ≡ bytes_at m x n
unfolding bytes_at
bytes_at-eq zero x m m' same = refl
bytes_at-eq (suc n) x m m' same =
    ap₂ ◌∷◌ (same x (omega arith) (omega arith))
      (bytes_at-eq n (x + 1) m m' (λ y lo hi. same y (omega arith) (omega arith)))

module _ (parts : Parts) where
  open parts use {crc32, flash, platform}

  abbrev pub ValidAt : ℕ → Memory → Type 0
  ValidAt a m = valid_in parts m a ≡ some true

  -- One of the two configuration pages is valid.
  abbrev pub HasConfig : Memory → Type 0
  HasConfig m = ValidAt platform.config1_addr m ⊎ ValidAt platform.config2_addr m

  -- It is so now, and was so all the time.
  pub record IsKept (w : World) : Type 0 where
    pub now : HasConfig w.memory
    pub always : All HasConfig w.history

  module _ (IsPage : ℕ → Type 0) (keeps : KeepsToPages flash platform.config_page_size IsPage) where
    pub bytes_at-same :
        (a b : ℕ) (m m' : Memory)
        → SameOutside a platform.config_page_size m m'
        → Disjoint platform.config_page_size a b
        → bytes_at m' b platform.config_page_size ≡ bytes_at m b platform.config_page_size
    bytes_at-same a b m m' same apart =
        bytes_at-eq platform.config_page_size b m m' (λ y lo hi. same y (omega arith))

    ValidAt-same :
        (a b : ℕ) (m m' : Memory)
        → SameOutside a platform.config_page_size m m'
        → Disjoint platform.config_page_size a b
        → ValidAt b m
        → ValidAt b m'
    ValidAt-same a b m m' same apart v = rw (bytes_at-same a b m m' same apart) v

    always-append :
        (a b : ℕ) (m : Memory) (ms hist : List Memory)
        → All (SameOutside a platform.config_page_size m) ms
        → Disjoint platform.config_page_size a b
        → ((n : Memory) → ValidAt b n → HasConfig n)
        → ValidAt b m
        → All HasConfig hist
        → All HasConfig (ms ++ hist)
    always-append a b m [] hist same apart one v h = h
    always-append a b m (n ∷ ms) hist same apart one v h = (
      one n (ValidAt-same a b m n same.0 apart v),
      always-append a b m ms hist same.1 apart one v h,
    )

    -- While one page is rewritten the other one stays valid.
    pub rewrite_page_kept :
        (a b : ℕ) (w : World)
        → IsPage a
        → Disjoint platform.config_page_size a b
        → length w.page_buffer ≡ platform.config_page_size
        → ((n : Memory) → ValidAt b n → HasConfig n)
        → ValidAt b w.memory
        → All HasConfig w.history
        → ValidAt b (rewrite_page parts a w).memory × All HasConfig (rewrite_page parts a w).history
    unfolding rewrite_page
    rewrite_page_kept a b w page apart len one v h =
        let m = w.memory in
        let erased = flash.page_erase a m in
        let written = flash.page_write a w.page_buffer erased.final in
        let v₁ = ValidAt-same a b m erased.final (keeps.erase_final a m page) apart v in
        let same = keeps.write_final a w.page_buffer erased.final page len in
        let passing = keeps.write_passing a w.page_buffer erased.final page len in
        let v₂ = ValidAt-same a b erased.final written.final same apart v₁ in
        (
          v₂,
          (
            one written.final v₂,
            always-append a b erased.final written.passing _ passing apart one v₁ (
              one erased.final v₁,
              always-append a b m erased.passing w.history (keeps.erase_passing a m page) apart one
                  v h,
            ),
          ),
        )

    pub page_buffer-rewrite :
        (a : ℕ) (w : World) → (rewrite_page parts a w).page_buffer ≡ w.page_buffer
    unfolding rewrite_page
    page_buffer-rewrite a w = refl

    -- A page is reported as verified just if it is valid.
    pub verify_result :
        (a : ℕ) (w : World)
        → (flash_write_and_verify parts a w ≡ fault)
          ⊎ ((ok : Bool) × (valid_in parts (rewrite_page parts a w).memory a ≡ some ok)
              × (flash_write_and_verify parts a w ≡ done (ok, rewrite_page parts a w)))
    unfolding flash_write_and_verify
    verify_result a w = elim (Option-cases (valid_in parts (rewrite_page parts a w).memory a)) [
      | inl e ↦ inl (rw e)
      | inr (ok, e) ↦ inr (ok, e, rw e)
    ]

    abbrev Kept : Run (Bool × World) → Type 0
    Kept = Leaves (λ r. r.1) IsKept

    -- With `b` valid, `a` is rewritten, and `b` only when `a` is valid again.
    turn-Kept :
        (a b : ℕ) (w : World)
        → IsPage a
        → IsPage b
        → Disjoint platform.config_page_size a b
        → length w.page_buffer ≡ platform.config_page_size
        → ((n : Memory) → ValidAt a n → HasConfig n)
        → ((n : Memory) → ValidAt b n → HasConfig n)
        → ValidAt b w.memory
        → All HasConfig w.history
        → Kept (write_in_turn parts a b w)
    unfolding write_in_turn
    turn-Kept a b w page_a page_b apart len one_a one_b v h =
        let w₁ = rewrite_page parts a w in
        let (v₁, h₁) = rewrite_page_kept a b w page_a apart len one_b v h in
        let len₁ = page_buffer-rewrite a w in
        elim (verify_result a w) [
          | inl e ↦ rw e tt
          | inr (false, _, e) ↦ rw e (record { now = one_b _ v₁; always = h₁ })
          | inr (true, ok, e) ↦
              let (v₂, h₂) =
                rewrite_page_kept b a w₁ page_b (flip platform.config_page_size _ _ apart)
                  (ap length len₁ ∙ len) one_a ok h₁ in
              elim (verify_result b w₁) [
                | inl e₁ ↦ rw (e, e₁) tt
                | inr (_, _, e₁) ↦ rw (e, e₁) (record { now = one_a _ v₂; always = h₂ })
              ]
        ]

    -- If a configuration page is valid, then one is valid in every state that memory passes
    -- through while the configuration is saved, so also after a power failure at any moment; and
    -- one is valid at the end, whether or not saving succeeded. The pages are disjoint, and the
    -- flash writer changes nothing outside the page that it is given.
    pub save_pages-IsKept :
        (w : World)
        → IsPage platform.config1_addr
        → IsPage platform.config2_addr
        → Disjoint platform.config_page_size platform.config1_addr platform.config2_addr
        → length w.page_buffer ≡ platform.config_page_size
        → IsKept w
        → Leaves (λ r. r.1) IsKept (save_pages parts w)
    unfolding save_pages
    save_pages-IsKept w page₁ page₂ apart len k =
        let c₁ = platform.config1_addr in
        let c₂ = platform.config2_addr in
        elim (Option-cases (valid_in parts w.memory c₂)) [
          | inl e ↦ rw e tt
          | inr (true, e) ↦
              rw e (turn-Kept c₁ c₂ w page₁ page₂ apart len (λ n. inl) (λ n. inr) e k.always)
          | inr (false, e) ↦ elim (Option-cases (valid_in parts w.memory c₁)) [
            | inl e₁ ↦ rw (e, e₁) tt
            | inr (true, e₁) ↦
                rw (e, e₁)
                  (turn-Kept c₂ c₁ w page₂ page₁ (flip platform.config_page_size _ _ apart) len
                    (λ n. inr) (λ n. inl) e₁ k.always)
            | inr (false, e₁) ↦ absurd (ground (arith, k.now))
          ]
        ]
