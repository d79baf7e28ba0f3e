-- ===== src/Flash/HalfWords.antt =====
-- The specification of `flash_writer_page_write` in platform/mcu/stm32f3/flash_writer.c on erased flash:
-- half-words that are programmed are stored, low byte first.
use bootloader_proposal.Base.{
  ℕ, ◌+◌, ◌*◌, ◌/◌, ◌%◌, ◌^◌, ◌<◌, ◌≡◌, ◌≢◌, refl, ap₂, ◌∙◌, [], ◌∷◌, ◌++◌, ◌==◌, ==_refl, ne→==,
  if◌then◌else◌, arith, ap, AreBytes, Bytes, length, u8_mod,
}
use bootloader_proposal.World.{Memory, bytes_at, Change}

-- what the flash holds behind a half-word that is programmed
unfoldable pub flash_write_half_word : ℕ → ℕ → Memory → Memory
flash_write_half_word a h m =
    λ x. if x == a then h % u8_mod else if x == a + 1 then h / u8_mod % u8_mod else m x

-- half-words one after the other, and an odd byte with its old neighbour
unfoldable pub write_half_words : ℕ → Bytes → Memory → Change
unfolding flash_write_half_word
write_half_words a [] m = record { passing = []; final = m }
write_half_words a (b ∷ []) m = record {
  passing = [];
  final = flash_write_half_word a (b + m (a + 1) % u8_mod * 2 ^ 8) m;
}
write_half_words a (b₀ ∷ b₁ ∷ bs) m =
    let m' = flash_write_half_word a (b₀ + b₁ * 2 ^ 8) m in
    let c = write_half_words (a + 2) bs m' in
    record { passing = c.passing ++ m' ∷ []; final = c.final }

pub half_word-outside :
    (a h x : ℕ) (m : Memory) → x ≢ a → x ≢ a + 1 → flash_write_half_word a h m x ≡ m x
unfolding flash_write_half_word
half_word-outside a h x m p q = rw (ne→== x a p, ne→== x (a + 1) q)

half_word-low : (a h : ℕ) (m : Memory) → flash_write_half_word a h m a ≡ h % u8_mod
unfolding flash_write_half_word
half_word-low a h m = rw (==_refl a)

half_word-high : (a h : ℕ) (m : Memory) → flash_write_half_word a h m (a + 1) ≡ h / u8_mod % u8_mod
unfolding flash_write_half_word
half_word-high a h m = rw (ne→== (a + 1) a (omega arith), ==_refl (a + 1))

pub write-before :
    (bs : Bytes) (a : ℕ) (m : Memory) (x : ℕ) → x < a → (write_half_words a bs m).final x ≡ m x
unfolding write_half_words
write-before [] a m x h = refl
write-before (b ∷ []) a m x h = half_word-outside a _ x m (omega arith) (omega arith)
write-before (b₀ ∷ b₁ ∷ bs) a m x h =
    let m' = flash_write_half_word a (b₀ + b₁ * 2 ^ 8) m in
    write-before bs (a + 2) m' x (omega arith)
    ∙ half_word-outside a (b₀ + b₁ * 2 ^ 8) x m (omega arith) (omega arith)

pub write-bytes_at :
    (bs : Bytes) (a : ℕ) (m : Memory)
    → AreBytes bs
    → bytes_at (write_half_words a bs m).final a (length bs) ≡ bs
unfolding write_half_words bytes_at
write-bytes_at [] a m bytes = refl
write-bytes_at (b ∷ []) a m bytes =
    ap (λ x. x ∷ []) (half_word-low a (b + m (a + 1) % u8_mod * 2 ^ 8) m ∙ omega (arith, bytes.0))
write-bytes_at (b₀ ∷ b₁ ∷ bs) a m bytes =
    let h = b₀ + b₁ * 2 ^ 8 in
    let m' = flash_write_half_word a h m in
    let next : a + 1 + 1 ≡ a + 2 = omega arith in
    let rest = write-before bs (a + 2) m' in
    ap₂ ◌∷◌ (rest a (omega arith) ∙ half_word-low a h m ∙ omega (arith, bytes.0, bytes.1.0)) (
      ap₂ ◌∷◌
        (rest (a + 1) (omega arith) ∙ half_word-high a h m ∙ omega (arith, bytes.0, bytes.1.0))
        (rw next (write-bytes_at bs (a + 2) m' bytes.1.1)))
