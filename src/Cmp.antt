-- ===== src/Cmp.antt =====
-- The MessagePack library cmp and its memory access (dependencies/cmp, dependencies/cmp_mem_access,
-- submodules of the repository) as the sources call them. The functions are parameters. A read
-- takes what its output variables held, and gives what they hold after the call beside the
-- Boolean result, so nothing is assumed of a read that fails.
use bootloader_proposal.Base.{
  ◌+◌, ◌≤◌, ◌<◌, AreBytes, u8_mod, u16_mod, u32_mod, ℕ, ◌≡◌, Bool, Bytes, length,
}

-- `negsuc n` is -(n + 1).
pub data ℤ : Type 0 where
  pos : ℕ → ℤ
  negsuc : ℕ → ℤ

-- A `cmp_ctx_t` over a `cmp_mem_access_t`: the object that it points into, the declared size, and
-- the position.
pub record Context : Type 0 where
  pub buffer : Bytes
  pub size : ℕ
  pub position : ℕ
  pub error : ℕ

-- `cmp_mem_access_init` and `cmp_mem_access_ro_init`
abbrev pub mem_access : Bytes → ℕ → Context
mem_access buf size = record { buffer = buf; size = size; position = 0; error = 0 }

pub record Cmp : Type 0 where
  pub read_uinteger : Context → ℕ → Bool × ℕ × Context
  pub read_uint : Context → ℕ → Bool × ℕ × Context
  pub read_u32 : Context → ℕ → Bool × ℕ × Context
  pub read_uchar : Context → ℕ → Bool × ℕ × Context
  pub read_int : Context → ℤ → Bool × ℤ × Context
  pub read_bin_size : Context → ℕ → Bool × ℕ × Context
  pub read_array : Context → ℕ → Bool × ℕ × Context
  pub read_map : Context → ℕ → Bool × ℕ × Context
  -- the buffer and `size`, before and after
  pub read_str : Context → Bytes → ℕ → Bool × Bytes × ℕ × Context
  pub write_bool : Context → ℕ → Context
  pub write_u8 : Context → ℕ → Context
  pub write_uint : Context → ℕ → Context
  pub write_map : Context → ℕ → Context
  pub write_str : Context → Bytes → ℕ → Context
  pub write_bin : Context → Bytes → ℕ → Context

-- Writing through a memory access changes bytes of its object, never the object's size.
pub record WritesInPlace (cmp : Cmp) : Type 0 where
  pub write_u8 : (c : Context) (n : ℕ) → length (cmp.write_u8 c n).buffer ≡ length c.buffer
  pub write_uint : (c : Context) (n : ℕ) → length (cmp.write_uint c n).buffer ≡ length c.buffer
  pub write_map : (c : Context) (n : ℕ) → length (cmp.write_map c n).buffer ≡ length c.buffer
  pub write_str :
      (c : Context) (s : Bytes) (n : ℕ) → length (cmp.write_str c s n).buffer ≡ length c.buffer

-- A Boolean takes one byte, in place, where there is room for it.
pub record WritesBool (cmp : Cmp) : Type 0 where
  pub position :
      (c : Context) (b : ℕ)
      → c.position < c.size
      → c.size ≤ length c.buffer
      → (cmp.write_bool c b).position ≡ c.position + 1
  pub in_place : (c : Context) (b : ℕ) → length (cmp.write_bool c b).buffer ≡ length c.buffer

-- What config.c writes consists of bytes, where the numbers fit their types.
pub record WritesBytes (cmp : Cmp) : Type 0 where
  pub write_map :
      (c : Context) (n : ℕ) → n < 16 → AreBytes c.buffer → AreBytes (cmp.write_map c n).buffer
  pub write_u8 :
      (c : Context) (n : ℕ) → n < u8_mod → AreBytes c.buffer → AreBytes (cmp.write_u8 c n).buffer
  pub write_uint :
      (c : Context) (n : ℕ) → n < u32_mod → AreBytes c.buffer → AreBytes (cmp.write_uint c n).buffer
  pub write_str :
      (c : Context) (s : Bytes) (n : ℕ)
      → n < u16_mod
      → AreBytes s
      → AreBytes c.buffer
      → AreBytes (cmp.write_str c s n).buffer

-- What config.c reads has the type of its output variable, also where the read fails: a `uint8_t`, a
-- `uint32_t`, or characters in the buffer that was given.
pub record ReadsInType (cmp : Cmp) : Type 0 where
  pub read_uchar : (c : Context) (old : ℕ) → old < u8_mod → (cmp.read_uchar c old).1 < u8_mod
  pub read_uint : (c : Context) (old : ℕ) → old < u32_mod → (cmp.read_uint c old).1 < u32_mod
  pub read_str :
      (c : Context) (s : Bytes) (size : ℕ)
      → AreBytes s
      → AreBytes (cmp.read_str c s size).1 × (length (cmp.read_str c s size).1 ≡ length s)
