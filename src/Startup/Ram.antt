-- ===== src/Startup/Ram.antt =====
-- vector_table.c: what `bootloader_startup` makes of RAM.
use mathlib.Core.Path.{fun_ext}
use bootloader_proposal.Base.{
  ℕ, zero, suc, ◌+◌, ◌-◌, ◌*◌, ◌≤◌, ◌<◌, ◌≡◌, ◌⊎◌, ap, ◌∙◌, false, some, ◌&&◌, if◌then◌else◌, ltb,
  leb, lt→ltb, arith, u8_mod,
}
use bootloader_proposal.Startup.{
  Layout, store_word, load_word, clear_bss, copy_data, bootloader_startup,
}
use bootloader_proposal.World.{Memory}

-- memory with zeros from one address to another
abbrev pub zeroed : ℕ → ℕ → Memory → Memory
zeroed from end m = λ x. if leb from x && ltb x end then 0 else m x

-- memory with a copy of what begins at `source`
abbrev pub copied : (from source end : ℕ) → Memory → Memory
copied from source end m = λ x. if leb from x && ltb x end then m (source + (x - from)) else m x

abbrev pub HoldsBytes : Memory → Type 0
HoldsBytes m = (a : ℕ) → m a < u8_mod

abbrev Apart : (a b size : ℕ) → Type 0
Apart a b size = (a + size ≤ b) ⊎ (b + size ≤ a)

zeroed_step :
    (p end : ℕ) (m : Memory) → p + 4 ≤ end → zeroed (p + 4) end (store_word p 0 m) ≡ zeroed p end m
unfolding store_word
zeroed_step p end m h = fun_ext (λ x. ground arith)

clear_bss-zeroed :
    (n fuel p end : ℕ) (m : Memory)
    → end ≡ p + 4 * n
    → n < fuel
    → clear_bss fuel p end m ≡ some (zeroed p end m)
unfolding clear_bss
clear_bss-zeroed n zero p end m e h = absurd (omega arith)
clear_bss-zeroed zero (suc fuel) p end m e h =
    let nothing : m ≡ zeroed p end m = fun_ext (λ x. ground arith) in
    let stop : ltb p end ≡ false = ground arith in rw stop (ap some nothing)
clear_bss-zeroed (suc n) (suc fuel) p end m e h = rw (lt→ltb p end (omega arith)) (
    clear_bss-zeroed n fuel (p + 4) end (store_word p 0 m) (omega arith) (omega arith)
    ∙ ap some (zeroed_step p end m (omega arith)))

-- A word that is loaded and stored is a copy of its bytes.
store_word-load :
    (p q : ℕ) (m : Memory) (x : ℕ)
    → HoldsBytes m
    → store_word p (load_word m q) m x ≡ copied p q (p + 4) m x
unfolding store_word load_word
store_word-load p q m x h =
    let b₀ = h q in let b₁ = h (q + 1) in let b₂ = h (q + 2) in let b₃ = h (q + 3) in ground arith

copied_step :
    (size p q end : ℕ) (m : Memory)
    → end ≡ p + (4 + size)
    → Apart p q (4 + size)
    → copied (p + 4) (q + 4) end (copied p q (p + 4) m) ≡ copied p q end m
copied_step size p q end m e apart = fun_ext (λ x. at x)
  where
    at : (x : ℕ) → copied (p + 4) (q + 4) end (copied p q (p + 4) m) x ≡ copied p q end m x
    at x = ground arith

copied-HoldsBytes : (p q end : ℕ) (m : Memory) → HoldsBytes m → HoldsBytes (copied p q end m)
copied-HoldsBytes p q end m h a = let b = h a in let c = h (q + (a - p)) in ground arith

copy_data-copied :
    (n fuel p q end : ℕ) (m : Memory)
    → end ≡ p + 4 * n
    → n < fuel
    → Apart p q (4 * n)
    → HoldsBytes m
    → copy_data fuel p q end m ≡ some (copied p q end m)
unfolding copy_data
copy_data-copied n zero p q end m e h apart b = absurd (omega arith)
copy_data-copied zero (suc fuel) p q end m e h apart b =
    let nothing : m ≡ copied p q end m = fun_ext (λ x. ground arith) in
    let stop : ltb p end ≡ false = ground arith in rw stop (ap some nothing)
copy_data-copied (suc n) (suc fuel) p q end m e h apart b =
    let word : store_word p (load_word m q) m ≡ copied p q (p + 4) m =
      fun_ext (λ x. store_word-load p q m x b) in
    rw (lt→ltb p end (omega arith), word)
      (copy_data-copied n fuel (p + 4) (q + 4) end (copied p q (p + 4) m) (omega arith)
          (omega arith) (omega arith) (copied-HoldsBytes p q (p + 4) m b)
        ∙ ap some (copied_step (4 * n) p q end m (omega arith) (omega arith)))

zeroed-HoldsBytes : (p end : ℕ) (m : Memory) → HoldsBytes m → HoldsBytes (zeroed p end m)
zeroed-HoldsBytes p end m h a = let b = h a in ground arith

-- The linker script aligns both sections to words. They are apart, and apart from the image of .data
-- in flash.
pub record IsLaidOut (s : Layout) (bss_words data_words : ℕ) : Type 0 where
  pub bss : s.ebss ≡ s.sbss + 4 * bss_words
  pub data_section : s.edata ≡ s.sdata + 4 * data_words
  pub sections_apart : (s.ebss ≤ s.sdata) ⊎ (s.edata ≤ s.sbss)
  pub image_apart : Apart s.sdata s.ldata (4 * data_words)
  pub image_kept : (s.ebss ≤ s.ldata) ⊎ (s.ldata + 4 * data_words ≤ s.sbss)

-- what a C program expects of memory before its first function
abbrev pub initial : Layout → Memory → Memory
initial s m = λ x.
    if leb s.sdata x && ltb x s.edata
    then m (s.ldata + (x - s.sdata))
    else if leb s.sbss x && ltb x s.ebss
    then 0
    else m x

-- `bootloader_startup` reaches the call of `platform_main`, with more rounds than either section has
-- words. Then .data holds its image from flash, .bss zeros, and all other memory is unchanged.
-- Sections are whole words, apart from each other and from the image, and memory holds bytes.
pub bootloader_startup_lem :
    (fuel bss_words data_words : ℕ) (s : Layout) (m : Memory)
    → IsLaidOut s bss_words data_words
    → HoldsBytes m
    → bss_words < fuel
    → data_words < fuel
    → bootloader_startup fuel s m ≡ some (initial s m)
unfolding bootloader_startup
bootloader_startup_lem fuel bss_words data_words s m l b few_bss few_data =
    let image : (x : ℕ)
        → copied s.sdata s.ldata s.edata (zeroed s.sbss s.ebss m) x ≡ initial s m x =
      λ x. ground (arith, l.bss, l.data_section, l.sections_apart, l.image_kept) in
    rw (clear_bss-zeroed bss_words fuel s.sbss s.ebss m l.bss few_bss, bootloader_startup)
      (copy_data-copied data_words fuel s.sdata s.ldata s.edata (zeroed s.sbss s.ebss m)
          l.data_section few_data l.image_apart (zeroed-HoldsBytes s.sbss s.ebss m b)
        ∙ ap some (fun_ext image))
