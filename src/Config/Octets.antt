-- ===== src/Config/Octets.antt =====
-- The page that `config_write` makes consists of bytes.
use bootloader_proposal.Base.{
  ℕ, ◌-◌, ◌<◌, ◌≡◌, refl, zero, suc, true, u32_mod, some, some_inj, [], ◌∷◌, replicate, arith,
  Bytes, AreBytes, are_bytes, are_bytes→AreBytes, u8_mod, >>=-eq-some,
}
use mathlib.Core.Path.{subst}
use bootloader_proposal.Cmp.{Context, mem_access, Cmp, WritesBytes}
use bootloader_proposal.Config.{
  Config, c_string, config_write_messagepack, config_calculate_crc, config_write,
}
use bootloader_proposal.Config.Page.{IsTerminated}
use bootloader_proposal.Config.Written.{InRange, HasText, string_length-lt}

pub replicate-AreBytes : (n b : ℕ) → b < u8_mod → AreBytes (replicate n b)
replicate-AreBytes zero b h = tt
replicate-AreBytes (suc n) b h = (h, replicate-AreBytes n b h)

module _ (cmp : Cmp) (writes : WritesBytes cmp) where
  -- a key, one of the literals of config.c
  key-AreBytes :
      (c : Context) (s : Bytes) (n : ℕ)
      → n < 17
      → are_bytes s ≡ true
      → AreBytes c.buffer
      → AreBytes (cmp.write_str c s n).buffer
  key-AreBytes c s n small e bytes =
      writes.write_str c s n (omega arith) (are_bytes→AreBytes s e) bytes

  -- a number behind its key
  entry-AreBytes :
      (c : Context) (s : Bytes) (n x : ℕ)
      → n < 17
      → are_bytes s ≡ true
      → x < u32_mod
      → AreBytes c.buffer
      → AreBytes (cmp.write_uint (cmp.write_str c s n) x).buffer
  entry-AreBytes c s n x small e word bytes =
      writes.write_uint (cmp.write_str c s n) x word (key-AreBytes c s n small e bytes)

  messagepack-AreBytes :
      (c c' : Context) (config : Config)
      → IsTerminated config
      → InRange config
      → HasText config
      → AreBytes c.buffer
      → config_write_messagepack cmp c config ≡ some c'
      → AreBytes c'.buffer
  unfolding config_write_messagepack
  messagepack-AreBytes c c' config t r text bytes e =
      let n = t.name_length in
      let k = t.class_length in
      let name_in = string_length-lt config.board_name n t.name_ends in
      let class_in = string_length-lt config.device_class k t.class_ends in
      let n_small : n < 65 = omega (arith, r.name_room) in
      let k_small : k < 65 = omega (arith, r.class_room) in
      let c₁ = cmp.write_map c 6 in
      let c₂ = cmp.write_str c₁ (c_string "ID") 2 in
      let c₃ = cmp.write_u8 c₂ config.id in
      let c₄ = cmp.write_str c₃ (c_string "name") 4 in
      let c₅ = cmp.write_str c₄ config.board_name n in
      let c₆ = cmp.write_str c₅ (c_string "device_class") 12 in
      let c₇ = cmp.write_str c₆ config.device_class k in
      let c₉ =
        cmp.write_uint (cmp.write_str c₇ (c_string "application_crc") 15) config.application_crc in
      let c₁₁ =
        cmp.write_uint (cmp.write_str c₉ (c_string "application_size") 16)
          config.application_size in
      let a₁ = writes.write_map c 6 (omega arith) bytes in
      let a₂ = key-AreBytes c₁ (c_string "ID") 2 (omega arith) refl a₁ in
      let a₃ = writes.write_u8 c₂ config.id r.id_byte a₂ in
      let a₄ = key-AreBytes c₃ (c_string "name") 4 (omega arith) refl a₃ in
      let a₅ = writes.write_str c₄ config.board_name n (omega arith) text.name a₄ in
      let a₆ = key-AreBytes c₅ (c_string "device_class") 12 (omega arith) refl a₅ in
      let a₇ = writes.write_str c₆ config.device_class k (omega arith) text.class a₆ in
      let a₉ =
        entry-AreBytes c₇ (c_string "application_crc") 15 _ (omega arith) refl r.crc_word a₇ in
      let a₁₁ =
        entry-AreBytes c₉ (c_string "application_size") 16 _ (omega arith) refl r.size_word a₉ in
      let a₁₃ =
        entry-AreBytes c₁₁ (c_string "update_count") 12 _ (omega arith) refl r.count_word a₁₁ in
      subst (λ (x : Context). AreBytes x.buffer) (some_inj (rw (t.name_ends, t.class_ends) at e))
        a₁₃

  pub config_write-AreBytes :
      (crc32 : ℕ → Bytes → ℕ) (buf page : Bytes) (config : Config) (size : ℕ)
      → IsTerminated config
      → InRange config
      → HasText config
      → AreBytes buf
      → config_write cmp crc32 buf config size ≡ some page
      → AreBytes page
  unfolding config_write
  config_write-AreBytes crc32 (b₀ ∷ b₁ ∷ b₂ ∷ b₃ ∷ behind) page config size t r text bytes e =
      let (c, written, rest) =
        >>=-eq-some (config_write_messagepack cmp (mem_access behind (size - 4)) config) _ e in
      let (crc, computed, made) = >>=-eq-some (config_calculate_crc crc32 c.buffer size) _ rest in
      let body =
        messagepack-AreBytes (mem_access behind (size - 4)) c config t r text bytes.1.1.1.1
          written in
      subst AreBytes (some_inj made)
        (omega arith, (omega arith, (omega arith, (omega arith, body))))
  config_write-AreBytes crc32 [] page config size t r text bytes e = absurd (cc)
  config_write-AreBytes crc32 (b₀ ∷ []) page config size t r text bytes e = absurd (cc)
  config_write-AreBytes crc32 (b₀ ∷ b₁ ∷ []) page config size t r text bytes e = absurd (cc)
  config_write-AreBytes crc32 (b₀ ∷ b₁ ∷ b₂ ∷ []) page config size t r text bytes e = absurd (cc)
