-- ===== src/Command/Saving.antt =====
-- Predicates on the world along the save command.
use bootloader_proposal.Base.{
  ℕ, ◌≡◌, ◌⊎◌, inl, inr, refl, Bool, true, false, if◌then◌else◌, arith, Bytes, Option-cases,
}
use bootloader_proposal.World.{World, Run, done, Leaves, Leaves-bind}
use bootloader_proposal.Command.Pages.{
  counted, filled_page, with_page, answer_saved, command_config_write_to_flash, save_pages,
  write_in_turn, write_both, flash_write_and_verify, rewrite_page,
}
use bootloader_proposal.Command.Types.{Session, Parts}

abbrev pub IsConfigAddr : Parts → ℕ → Type 0
IsConfigAddr parts a = (a ≡ parts.platform.config1_addr) ⊎ (a ≡ parts.platform.config2_addr)

-- What rewriting a configuration page and filling the page buffer keep, the command keeps.
module _ (parts : Parts) (Q : World → Type 0)
    (rewrites : (a : ℕ) (w : World) → IsConfigAddr parts a → Q w → Q (rewrite_page parts a w))
    (fills : (w : World) (page : Bytes) → Q w → Q (record w { page_buffer = page })) where
  open parts use {platform}

  verify-Keeps :
      (a : ℕ) (w : World)
      → IsConfigAddr parts a
      → Q w
      → Leaves (λ r. r.1) Q (flash_write_and_verify parts a w)
  unfolding flash_write_and_verify
  verify-Keeps a w c h = ground (arith, rewrites a w c h)

  abbrev Saved : Run (Bool × World) → Type 0
  Saved = Leaves (λ r. r.1) Q

  turn-Keeps :
      (a b : ℕ) (w : World)
      → IsConfigAddr parts a
      → IsConfigAddr parts b
      → Q w
      → Saved (write_in_turn parts a b w)
  unfolding write_in_turn
  turn-Keeps a b w ca cb h =
      Leaves-bind (λ r. r.1) (λ r. r.1) Q (flash_write_and_verify parts a w) _
        (verify-Keeps a w ca h)
        (λ (ok, w') h'.
          elim ok
            as (λ o. Saved (if o then flash_write_and_verify parts b w' else done (false, w'))) [
              | true ↦ verify-Keeps b w' cb h'
              | false ↦ h'
            ])

  both-Keeps :
      (a b : ℕ) (w : World)
      → IsConfigAddr parts a
      → IsConfigAddr parts b
      → Q w
      → Saved (write_both parts a b w)
  unfolding write_both
  both-Keeps a b w ca cb h =
      Leaves-bind (λ r. r.1) (λ r. r.1) Q (flash_write_and_verify parts a w) _
        (verify-Keeps a w ca h)
        (λ (ok, w') h'.
          Leaves-bind (λ r. r.1) (λ r. r.1) Q (flash_write_and_verify parts b w') _
            (verify-Keeps b w' cb h') (λ r h''. h''))

  save-Keeps : (w : World) → Q w → Saved (save_pages parts w)
  unfolding save_pages
  save-Keeps w h = ground (
    arith,
    turn-Keeps platform.config1_addr platform.config2_addr w (inl refl) (inr refl) h,
    turn-Keeps platform.config2_addr platform.config1_addr w (inr refl) (inl refl) h,
    both-Keeps platform.config1_addr platform.config2_addr w (inl refl) (inr refl) h,
  )

  pub config_write-Keeps :
      (argc : ℕ) (s : Session)
      → Q s.world
      → Leaves (λ s. s.world) Q (command_config_write_to_flash parts argc s)
  unfolding command_config_write_to_flash
  config_write-Keeps argc s h =
      let t = counted parts s in
      elim (Option-cases (filled_page parts t)) [
        | inl stuck ↦ rw stuck tt
        | inr (page, e) ↦ rw e (
            Leaves-bind (λ r. r.1) (λ s. s.world) Q (save_pages parts (with_page parts t page))
              (answer_saved parts t) (save-Keeps (with_page parts t page) (fills s.world page h))
              (λ r h'. h'))
      ]
