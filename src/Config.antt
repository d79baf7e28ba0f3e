-- ===== src/Config.antt =====
-- config.h and config.c: the configuration, its page with a CRC, and its MessagePack map.
pub mod Page
pub mod Items
pub mod Written
pub mod Entries
pub mod Text
pub mod Reread
pub mod Octets
pub mod Typed
use bootloader_proposal.Base.{
  ℕ, zero, suc, ◌+◌, ◌-◌, ◌*◌, ◌^◌, Bool, true, false, Option, none, some, [], ◌∷◌, ◌++◌, ◌==◌,
  if◌then◌else◌, ◌>>=◌, set?, take, first?, Bytes, be32,
}
use bootloader_proposal.Cmp.{Context, mem_access, Cmp}
use Prim.Native.Char.{code}
use Prim.Native.String.{String}

-- `bootloader_config_t`; both strings are buffers of 65 bytes
pub record Config : Type 0 where
  pub id : ℕ
  pub board_name : Bytes
  pub device_class : Bytes
  pub application_crc : ℕ
  pub application_size : ℕ
  pub update_count : ℕ

-- The bytes of a literal, without its final zero.
abbrev pub codes : String → Bytes
codes String.[] = []
codes (String.◌∷◌ c s) = code c ∷ codes s

-- `strcmp(a, b) == 0`; `none` where a string has no end in its buffer
unfoldable pub strings_equal : Bytes → Bytes → Option Bool
strings_equal [] b = none
strings_equal (x ∷ a) [] = none
strings_equal (x ∷ a) (y ∷ b) =
    if x == y then if x == 0 then some true else strings_equal a b else some false

-- `strlen`
unfoldable pub string_length : Bytes → Option ℕ
string_length [] = none
string_length (x ∷ a) = if x == 0 then some 0 else string_length a >>= λ n. some (n + 1)

abbrev pub c_string : String → Bytes
c_string s = codes s ++ 0 ∷ []

-- `p[0] << 24 | p[1] << 16 | p[2] << 8 | p[3]`, of bytes
abbrev pub word : ℕ → ℕ → ℕ → ℕ → ℕ
word b₀ b₁ b₂ b₃ = b₀ * 2 ^ 24 + b₁ * 2 ^ 16 + b₂ * 2 ^ 8 + b₃

module _ (crc32 : ℕ → Bytes → ℕ) where
  -- `config_calculate_crc` on the page behind its first four bytes
  unfoldable pub config_calculate_crc : Bytes → ℕ → Option ℕ
  config_calculate_crc behind page_size =
      first? (page_size - 4) behind >>= λ bytes. some (crc32 0 bytes)

  unfoldable pub config_is_valid : Bytes → ℕ → Option Bool
  unfolding config_calculate_crc
  config_is_valid (b₀ ∷ b₁ ∷ b₂ ∷ b₃ ∷ behind) page_size =
      config_calculate_crc behind page_size >>= λ crc. some (word b₀ b₁ b₂ b₃ == crc)
  config_is_valid _ page_size = none

module _ (cmp : Cmp) where
  -- `cmp_write_str(context, s, strlen(s))`
  abbrev write_string : Context → Bytes → Option Context
  write_string c s = string_length s >>= λ n. some (cmp.write_str c s n)

  unfoldable pub config_write_messagepack : Context → Config → Option Context
  unfolding string_length
  config_write_messagepack c config = do
    let c = cmp.write_map c 6
    let c = cmp.write_u8 (cmp.write_str c (c_string "ID") 2) config.id
    c ← write_string (cmp.write_str c (c_string "name") 4) config.board_name
    c ← write_string (cmp.write_str c (c_string "device_class") 12) config.device_class
    let c = cmp.write_uint (cmp.write_str c (c_string "application_crc") 15) config.application_crc
    let c =
        cmp.write_uint (cmp.write_str c (c_string "application_size") 16) config.application_size
    some (cmp.write_uint (cmp.write_str c (c_string "update_count") 12) config.update_count)

  module _ (crc32 : ℕ → Bytes → ℕ) where
    unfoldable pub config_write : Bytes → Config → ℕ → Option Bytes
    unfolding config_calculate_crc config_write_messagepack
    config_write (b₀ ∷ b₁ ∷ b₂ ∷ b₃ ∷ behind) config buffer_size = do
      c ← config_write_messagepack (mem_access behind (buffer_size - 4)) config
      crc ← config_calculate_crc crc32 c.buffer buffer_size
      some (be32 crc ++ c.buffer)
    config_write _ config buffer_size = none

  -- `if (!strcmp(name, key)) { ... }`
  abbrev on_key :
      String
      → Bytes
      → (Config × Context → Config × Context)
      → Config × Context
      → Option (Config × Context)
  on_key name key read s =
      strings_equal (c_string name) key >>= λ same. some (if same then read s else s)

  abbrev read_id : Config × Context → Config × Context
  read_id (config, c) =
      let (ok, n, c') = cmp.read_uchar c config.id in (record config { id = n }, c')

  abbrev read_name : Config × Context → Config × Context
  read_name (config, c) =
      let (ok, s, n, c') = cmp.read_str c config.board_name 65 in
      (record config { board_name = s }, c')

  abbrev read_class : Config × Context → Config × Context
  read_class (config, c) =
      let (ok, s, n, c') = cmp.read_str c config.device_class 65 in
      (record config { device_class = s }, c')

  abbrev read_crc : Config × Context → Config × Context
  read_crc (config, c) =
      let (ok, n, c') = cmp.read_uint c config.application_crc in
      (record config { application_crc = n }, c')

  abbrev read_size : Config × Context → Config × Context
  read_size (config, c) =
      let (ok, n, c') = cmp.read_uint c config.application_size in
      (record config { application_size = n }, c')

  abbrev read_count : Config × Context → Config × Context
  read_count (config, c) =
      let (ok, n, c') = cmp.read_uint c config.update_count in
      (record config { update_count = n }, c')

  -- the body of the loop over the map; `key` is the local buffer of 64 bytes
  unfoldable pub update_entry : Bytes → Config × Context → Option (Bytes × Config × Context)
  unfolding strings_equal
  update_entry key (config, c) = do
    let (ok, key, key_len, c) = cmp.read_str c key 64
    key ← set? key key_len 0
    s ← on_key "ID" key read_id (config, c)
    s ← on_key "name" key read_name s
    s ← on_key "device_class" key read_class s
    s ← on_key "application_crc" key read_crc s
    s ← on_key "application_size" key read_size s
    (config, c) ← on_key "update_count" key read_count s
    some (key, config, c)

  -- `while (key_count--)`
  unfoldable pub update_entries : ℕ → Bytes → Config × Context → Option (Config × Context)
  unfolding update_entry
  update_entries zero key s = some s
  update_entries (suc n) key s =
      update_entry key s >>= λ (key', config, c). update_entries n key' (config, c)

  unfoldable pub config_update_from_serialized :
      Bytes → Config → Context → Option (Config × Context)
  unfolding update_entries
  config_update_from_serialized key config c =
      let (ok, key_count, c') = cmp.read_map c 0 in update_entries key_count key (config, c')

  -- `result` and `key` are the local variables, which hold anything at first.
  unfoldable pub config_read : Config → Bytes → Bytes → ℕ → Option Config
  unfolding config_update_from_serialized
  config_read result key (b₀ ∷ b₁ ∷ b₂ ∷ b₃ ∷ behind) buffer_size =
      config_update_from_serialized key result (mem_access behind (buffer_size - 4))
      >>= λ (config, c). some config
  config_read result key _ buffer_size = none
