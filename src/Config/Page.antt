-- ===== src/Config/Page.antt =====
-- The validity of a configuration page that `config_write` has written.
use bootloader_proposal.Base.{
  zero, suc, replicate, length-replicate, ℕ, ◌+◌, ◌-◌, ◌/◌, ◌%◌, ◌^◌, ◌≤◌, ◌<◌, ◌≡◌, refl, Bool,
  true, some, [], ◌∷◌, ==_refl, first?-some, length, take, arith, Bytes, u32_mod,
}
use bootloader_proposal.Cmp.{Context, mem_access, Cmp, WritesInPlace}
use bootloader_proposal.Config.{
  Config, string_length, word, config_is_valid, config_write_messagepack, config_write,
}

pub word-be32 :
    (x : ℕ)
    → x < u32_mod
    → word (x / 2 ^ 24 % 2 ^ 8) (x / 2 ^ 16 % 2 ^ 8) (x / 2 ^ 8 % 2 ^ 8) (x / 2 ^ 0 % 2 ^ 8) ≡ x
word-be32 x h = omega arith

-- Both strings end inside their buffers.
pub record IsTerminated (config : Config) : Type 0 where
  pub name_length : ℕ
  pub class_length : ℕ
  pub name_ends : string_length config.board_name ≡ some name_length
  pub class_ends : string_length config.device_class ≡ some class_length

-- On a page of the given size the check makes no access outside it.
pub config_is_valid-some :
    (crc32 : ℕ → Bytes → ℕ) (page : Bytes) (size : ℕ)
    → length page ≡ size
    → 4 ≤ size
    → (b : Bool) × (config_is_valid crc32 page size ≡ some b)
unfolding config_is_valid
config_is_valid-some crc32 (b₀ ∷ b₁ ∷ b₂ ∷ b₃ ∷ behind) size len h =
    rw (first?-some (size - 4) behind (omega arith)) (_, refl)
config_is_valid-some crc32 (b₀ ∷ b₁ ∷ b₂ ∷ []) size len h = absurd (omega arith)
config_is_valid-some crc32 (b₀ ∷ b₁ ∷ []) size len h = absurd (omega arith)
config_is_valid-some crc32 (b₀ ∷ []) size len h = absurd (omega arith)
config_is_valid-some crc32 [] size len h = absurd (omega arith)

module _ (cmp : Cmp) (writes : WritesInPlace cmp) where
  length-messagepack :
      (c : Context) (config : Config)
      → IsTerminated config
      → (c' : Context) × (config_write_messagepack cmp c config ≡ some c')
        × (length c'.buffer ≡ length c.buffer)
  unfolding config_write_messagepack
  length-messagepack c config t =
      rw (t.name_ends, t.class_ends)
        (_, refl, simp (writes.write_uint, writes.write_str, writes.write_u8, writes.write_map))

  module _ (crc32 : ℕ → Bytes → ℕ) (crc_word : (c : ℕ) (bs : Bytes) → crc32 c bs < u32_mod) where
    -- On a buffer of the page's size, whatever it holds, `config_write` of a configuration with
    -- terminated strings makes no access outside it. The page that it leaves passes
    -- `config_is_valid` and keeps its size. CRCs have 32 bits, and writing an item changes bytes in
    -- place.
    pub config_write-valid :
        (b₀ b₁ b₂ b₃ : ℕ) (behind : Bytes) (config : Config) (size : ℕ)
        → IsTerminated config
        → size ≡ length behind + 4
        → (page : Bytes) × (config_write cmp crc32 (b₀ ∷ b₁ ∷ b₂ ∷ b₃ ∷ behind) config size
            ≡ some page)
          × (config_is_valid crc32 page size ≡ some true)
          × (length page ≡ size)
    unfolding config_write config_is_valid
    config_write-valid b₀ b₁ b₂ b₃ behind config size t e =
        let (c, written, same) = length-messagepack (mem_access behind (size - 4)) config t in
        let fits = first?-some (size - 4) c.buffer (omega arith) in
        rw (written, fits)
          (
            _,
            refl,
            rw (fits, word-be32 _ (crc_word 0 (take (size - 4) c.buffer)), ==_refl),
            omega arith,
          )

    -- So it does on a buffer that was set to zero, of any size that holds the CRC.
    pub config_write-replicate :
        (config : Config) (size : ℕ)
        → IsTerminated config
        → 4 ≤ size
        → (page : Bytes) × (config_write cmp crc32 (replicate size 0) config size ≡ some page)
          × (config_is_valid crc32 page size ≡ some true)
          × (length page ≡ size)
    config_write-replicate config (suc (suc (suc (suc n)))) t h =
        config_write-valid 0 0 0 0 (replicate n 0) config (suc (suc (suc (suc n)))) t
          (omega (arith, length-replicate {A = ℕ} n 0))
    config_write-replicate config (suc (suc (suc zero))) t h = absurd (omega arith)
    config_write-replicate config (suc (suc zero)) t h = absurd (omega arith)
    config_write-replicate config (suc zero) t h = absurd (omega arith)
    config_write-replicate config zero t h = absurd (omega arith)
