-- ===== src/Command/Returns.antt =====
-- The ends of the page writes when a configuration is saved.
use bootloader_proposal.Base.{ℕ, ◌≤◌, ◌≡◌, inl, inr, Bool, false, ◌&&◌, some, Bool-cases}
use bootloader_proposal.Config.Page.{config_is_valid-some}
use bootloader_proposal.World.{Memory, bytes_at, length-bytes_at, World, done}
use bootloader_proposal.Command.Pages.{
  rewrite_page, flash_write_and_verify, write_in_turn, write_both, save_pages, valid_in,
}
use bootloader_proposal.Command.Types.{Parts}

module _ (parts : Parts) (holds_crc : 4 ≤ parts.platform.config_page_size) where
  open parts use {crc32, platform}

  abbrev size : ℕ
  size = platform.config_page_size

  pub valid_in-some : (a : ℕ) (m : Memory) → (ok : Bool) × (valid_in parts m a ≡ some ok)
  valid_in-some a m =
      config_is_valid-some crc32 (bytes_at m a size) size (length-bytes_at m a size) holds_crc

  -- The size of a page holds a CRC, so that no check makes an access outside its page.
  verify_done :
      (a : ℕ) (w : World)
      → (ok : Bool) × (flash_write_and_verify parts a w ≡ done (ok, rewrite_page parts a w))
  unfolding flash_write_and_verify
  verify_done a w = let (ok, e) = valid_in-some a (rewrite_page parts a w).memory in (ok, rw e)

  turn_done : (a b : ℕ) (w : World) → (r : Bool × World) × (write_in_turn parts a b w ≡ done r)
  unfolding write_in_turn
  turn_done a b w =
      let (ok, e) = verify_done a w in
      let (ok', e') = verify_done b (rewrite_page parts a w) in
      elim (Bool-cases ok) [
        | inl t ↦ ((ok', rewrite_page parts b (rewrite_page parts a w)), rw (e, t, e'))
        | inr f ↦ ((false, rewrite_page parts a w), rw (e, f))
      ]

  both_done : (a b : ℕ) (w : World) → (r : Bool × World) × (write_both parts a b w ≡ done r)
  unfolding write_both
  both_done a b w =
      let (ok, e) = verify_done a w in
      let (ok', e') = verify_done b (rewrite_page parts a w) in
      ((ok && ok', rewrite_page parts b (rewrite_page parts a w)), rw (e, e'))

  pub save_pages-done : (w : World) → (r : Bool × World) × (save_pages parts w ≡ done r)
  unfolding save_pages
  save_pages-done w =
      let (ok₂, e₂) = valid_in-some platform.config2_addr w.memory in
      let (ok₁, e₁) = valid_in-some platform.config1_addr w.memory in
      elim (Bool-cases ok₂) [
        | inl t₂ ↦
            let (r, e) = turn_done platform.config1_addr platform.config2_addr w in
            (r, rw (e₂, t₂) e)
        | inr f₂ ↦ elim (Bool-cases ok₁) [
          | inl t₁ ↦
              let (r, e) = turn_done platform.config2_addr platform.config1_addr w in
              (r, rw (e₂, f₂, e₁, t₁) e)
          | inr f₁ ↦
              let (r, e) = both_done platform.config1_addr platform.config2_addr w in
              (r, rw (e₂, f₂, e₁, f₁) e)
        ]
      ]
