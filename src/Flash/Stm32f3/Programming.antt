-- ===== src/Flash/Stm32f3/Programming.antt =====
-- platform/mcu/stm32f3/flash_writer.c: what the loop over half-words does to the flash and to the
-- control register.
use bootloader_proposal.Base.{
  ℕ, zero, suc, ◌+◌, ◌*◌, ◌%◌, ◌^◌, ◌≤◌, ◌<◌, ◌≡◌, List, refl, ap, ◌∙◌, Bool, true, false, [], ◌∷◌,
  ◌++◌, length, arith, Bytes,
}
use bootloader_proposal.Flash.Area.{flash_base}
use bootloader_proposal.Flash.HalfWords.{flash_write_half_word, write_half_words, half_word-outside}
use bootloader_proposal.World.{Memory, Change, SameOutside, All, All-weaken}
use bootloader_proposal.Flash.Stm32f3.{
  Controller, IsController, IsHalfWord, flash_end, idle, program_half_word, program_bytes,
  page_write,
}

module _ (flash : Controller) where
  -- PG is set from the first half-word on, and PER stays clear.
  program_bytes-control :
      (bs : Bytes) (a ar : ℕ) (pg : Bool) (m : Memory)
      → ((program_bytes flash a bs (record { per = false; pg = pg; ar = ar }) m).0.per ≡ false)
        × ((program_bytes flash a bs (record { per = false; pg = pg; ar = ar }) m).0.ar ≡ ar)
  unfolding program_bytes program_half_word
  program_bytes-control [] a ar pg m = (refl, refl)
  program_bytes-control (b ∷ []) a ar pg m = (refl, refl)
  program_bytes-control (b₀ ∷ b₁ ∷ bs) a ar pg m =
      program_bytes-control bs (a + 2) ar true
        (flash.store (record { per = false; pg = true; ar = ar }) a (b₀ + b₁ * 2 ^ 8) m)

  pub page_write-idle :
      (bs : Bytes) (a ar : ℕ) (m : Memory) → (page_write flash a bs (idle ar) m).0 ≡ idle ar
  unfolding page_write
  page_write-idle bs a ar m =
      let (per, kept) = program_bytes-control bs a ar false m in rw (per, kept) refl

All-append :
    (P : Memory → Type 0) (ms : List Memory) (m : Memory) → All P ms → P m → All P (ms ++ m ∷ [])
All-append P [] m all h = (h, tt)
All-append P (n ∷ ms) m all h = (all.0, All-append P ms m all.1 h)

-- the bytes from `a` on, in half-words of the flash
pub record AreHalfWords (a n : ℕ) : Type 0 where
  pub above : flash_base ≤ a
  pub before : a + (n + n) ≤ flash_end
  pub even : a % 2 ≡ 0

module _ (flash : Controller) (laws : IsController flash) where
  first-IsHalfWord : (a n : ℕ) → AreHalfWords a (suc n) → IsHalfWord a
  first-IsHalfWord a n r = record {
    above = r.above;
    before = omega (arith, r.before);
    even = r.even;
  }

  rest-AreHalfWords : (a n : ℕ) → AreHalfWords a (suc n) → AreHalfWords (a + 2) n
  rest-AreHalfWords a n r = record {
    above = omega (arith, r.above);
    before = omega (arith, r.before);
    even = omega (arith, r.even);
  }

  abbrev stored : ℕ → ℕ → ℕ → Memory → Memory
  stored ar a h m = flash.store (record { per = false; pg = true; ar = ar }) a h m

  -- Programming changes nothing outside the half-words, erased or not.
  pub program_bytes-outside :
      (n : ℕ) (bs : Bytes) (a ar : ℕ) (pg : Bool) (m : Memory)
      → length bs ≤ n + n
      → AreHalfWords a n
      → let c = (program_bytes flash a bs (record { per = false; pg = pg; ar = ar }) m).1 in
        All (SameOutside a (n + n) m) c.passing × SameOutside a (n + n) m c.final
  unfolding program_bytes program_half_word
  program_bytes-outside n [] a ar pg m le r = (tt, λ x out. refl)
  program_bytes-outside zero (b ∷ []) a ar pg m le r = absurd (omega arith)
  program_bytes-outside zero (b₀ ∷ b₁ ∷ bs) a ar pg m le r = absurd (omega arith)
  program_bytes-outside (suc n) (b ∷ []) a ar pg m le r =
      (tt, λ x out. laws.outside ar a _ m (first-IsHalfWord a n r) x (omega arith))
  program_bytes-outside (suc n) (b₀ ∷ b₁ ∷ bs) a ar pg m le r =
      let m' = stored ar a (b₀ + b₁ * 2 ^ 8) m in
      let first : SameOutside a (suc n + suc n) m m' =
        λ x out. laws.outside ar a (b₀ + b₁ * 2 ^ 8) m (first-IsHalfWord a n r) x (omega arith) in
      let (passing, final) =
        program_bytes-outside n bs (a + 2) ar true m' (omega arith) (rest-AreHalfWords a n r) in
      let onward : (k : Memory)
          → SameOutside (a + 2) (n + n) m' k
          → SameOutside a (suc n + suc n) m k =
        λ k same x out. same x (omega arith) ∙ first x out in
      (
        All-append (SameOutside a (suc n + suc n) m) _ m'
            (All-weaken _ (SameOutside a (suc n + suc n) m) _ onward passing) first,
        onward _ final,
      )

  -- On erased flash the half-words are programmed.
  pub program_bytes-write :
      (n : ℕ) (bs : Bytes) (a ar : ℕ) (pg : Bool) (m : Memory)
      → length bs ≡ n + n
      → AreHalfWords a n
      → ((x : ℕ) → a ≤ x → x < a + (n + n) → m x ≡ 255)
      → (program_bytes flash a bs (record { per = false; pg = pg; ar = ar }) m).1
        ≡ write_half_words a bs m
  unfolding program_bytes program_half_word write_half_words
  program_bytes-write n [] a ar pg m e r blank = refl
  program_bytes-write n (b ∷ []) a ar pg m e r blank = absurd (omega arith)
  program_bytes-write zero (b₀ ∷ b₁ ∷ bs) a ar pg m e r blank = absurd (omega arith)
  program_bytes-write (suc n) (b₀ ∷ b₁ ∷ bs) a ar pg m e r blank =
      let h = b₀ + b₁ * 2 ^ 8 in
      let m' = flash_write_half_word a h m in
      let rest =
        program_bytes-write n bs (a + 2) ar true m' (omega arith) (rest-AreHalfWords a n r)
          (λ x lo hi.
            half_word-outside a h x m (omega arith) (omega arith)
            ∙ blank x (omega arith) (omega arith)) in
      rw
        (laws.program ar a h m (first-IsHalfWord a n r) (blank a (omega arith) (omega arith))
          (blank (a + 1) (omega arith) (omega arith)))
        (ap (λ (c : Change). record { passing = c.passing ++ m' ∷ []; final = c.final }) rest)
