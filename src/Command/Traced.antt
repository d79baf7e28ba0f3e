-- ===== src/Command/Traced.antt =====
-- `command_config_write_to_flash` on pages each of which is old, new or not valid.
use bootloader_proposal.Base.{
  ℕ, ◌≡◌, inl, inr, Bool, true, false, List, length, Bytes, Option-cases, Bool-cases,
}
use bootloader_proposal.Command.Pages.{
  flash_write_and_verify, write_in_turn, write_both, save_pages, valid_in,
}
use bootloader_proposal.Command.Redundancy.{Disjoint, flip, verify_result}
use bootloader_proposal.Command.Torn.{page_at, Held, DetectsTorn, Traced, rewrite-Traced}
use bootloader_proposal.Command.Types.{Parts}
use bootloader_proposal.World.{Memory, KeepsToPages, World, Run, Leaves, Leaves-bind}

module _ (parts : Parts) (old : ℕ → Bytes) (new : Bytes) (start : List Memory) (IsPage : ℕ → Type 0)
    (keeps : KeepsToPages parts.flash parts.platform.config_page_size IsPage)
    (torn : DetectsTorn parts old new IsPage)
    (stores : (a : ℕ) (m : Memory)
      → IsPage a
      → page_at parts a (parts.flash.page_write a new (parts.flash.page_erase a m).final).final
        ≡ new)
    (len : length new ≡ parts.platform.config_page_size)
    (page₁ : IsPage parts.platform.config1_addr) (page₂ : IsPage parts.platform.config2_addr)
    (apart : Disjoint parts.platform.config_page_size parts.platform.config1_addr
      parts.platform.config2_addr) where
  open parts use {platform}

  abbrev Trace : World → Type 0
  Trace = Traced parts old new start

  abbrev EndsTraced : Run (Bool × World) → Type 0
  EndsTraced = Leaves (λ r. r.1) Trace

  verify-Traced :
      (a b : ℕ) (w : World)
      → IsPage a
      → Disjoint platform.config_page_size a b
      → ((P : ℕ → Type 0) → P a → P b → P platform.config1_addr × P platform.config2_addr)
      → Held parts old new a w.memory
      → Held parts old new b w.memory
      → Trace w
      → EndsTraced (flash_write_and_verify parts a w)
  verify-Traced a b w page apart order h_a h_b t = elim (verify_result parts IsPage keeps a w) [
    | inl e ↦ rw e tt
    | inr (ok, _, e) ↦ rw e (
        rewrite-Traced parts old new start IsPage keeps torn stores len a b w page apart order h_a
          h_b t)
  ]

  first-Traced :
      (w : World) → Trace w → EndsTraced (flash_write_and_verify parts platform.config1_addr w)
  first-Traced w t =
      verify-Traced platform.config1_addr platform.config2_addr w page₁ apart (λ P k k'. (k, k'))
        t.now.0 t.now.1 t

  second-Traced :
      (w : World) → Trace w → EndsTraced (flash_write_and_verify parts platform.config2_addr w)
  second-Traced w t =
      verify-Traced platform.config2_addr platform.config1_addr w page₂
        (flip platform.config_page_size platform.config1_addr platform.config2_addr apart)
        (λ P k k'. (k', k)) t.now.1 t.now.0 t

  -- one page, and then the other if the first one verifies
  turn-Traced :
      (a b : ℕ) (w : World)
      → ((w : World) → Trace w → EndsTraced (flash_write_and_verify parts a w))
      → ((w : World) → Trace w → EndsTraced (flash_write_and_verify parts b w))
      → Trace w
      → EndsTraced (write_in_turn parts a b w)
  unfolding write_in_turn
  turn-Traced a b w first second t =
      Leaves-bind (λ r. r.1) (λ r. r.1) Trace (flash_write_and_verify parts a w) _ (first w t)
        (λ (ok, w') t'. elim (Bool-cases ok) [
          | inl good ↦ rw good (second w' t')
          | inr bad ↦ rw bad t'
        ])

  pub save_pages-Traced : (w : World) → Trace w → EndsTraced (save_pages parts w)
  unfolding save_pages write_both
  save_pages-Traced w t =
      let c₁ = platform.config1_addr in
      let c₂ = platform.config2_addr in
      elim (Option-cases (valid_in parts w.memory c₂)) [
        | inl e ↦ rw e tt
        | inr (true, e) ↦ rw e (turn-Traced c₁ c₂ w first-Traced second-Traced t)
        | inr (false, e) ↦ elim (Option-cases (valid_in parts w.memory c₁)) [
          | inl e₁ ↦ rw (e, e₁) tt
          | inr (true, e₁) ↦ rw (e, e₁) (turn-Traced c₂ c₁ w second-Traced first-Traced t)
          | inr (false, e₁) ↦
              rw (e, e₁)
                (Leaves-bind (λ r. r.1) (λ r. r.1) Trace (flash_write_and_verify parts c₁ w) _
                  (first-Traced w t)
                  (λ (ok, w') t'.
                    Leaves-bind (λ r. r.1) (λ r. r.1) Trace (flash_write_and_verify parts c₂ w') _
                      (second-Traced w' t') (λ r t''. t'')))
        ]
      ]
