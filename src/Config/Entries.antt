-- ===== src/Config/Entries.antt =====
-- One entry of the loop of `config_update_from_serialized`, for each of the keys.
use bootloader_proposal.Base.{
  ℕ, ◌+◌, ◌≤◌, ◌<◌, ◌≡◌, some, ◌∷◌, ◌++◌, length, drop, length-drop, length-append, set?-some,
  arith, Bytes, u8_mod, u32_mod,
}
use bootloader_proposal.Cmp.{Context, Cmp}
use bootloader_proposal.Config.{Config, codes, update_entry}
use bootloader_proposal.Config.Items.{Item, uint, str, IsLawful}

-- a string in a buffer
abbrev pub placed : Bytes → Bytes → Bytes
placed s buf = s ++ 0 ∷ drop (length s + 1) buf

-- The buffer of the key keeps its size.
pub length-placed : (key k : Bytes) → length key ≡ 64 → length k < 64 → length (placed k key) ≡ 64
length-placed key k e h =
    omega (arith, length-append k (0 ∷ drop (length k + 1) key), length-drop (length k + 1) key)

abbrev pub at : Context → ℕ → Context
at c e = record c { position = e }

module _ (cmp : Cmp) (laws : IsLawful cmp) (key : Bytes) (key_room : length key ≡ 64)
    (config : Config) (c : Context) (m e : ℕ) (key_in : m ≤ c.size) (value_in : e ≤ c.size) where
  -- The key `k` stands at the position, and a value behind it.
  abbrev PairAt : Bytes → Item → Type 0
  PairAt k v = laws.Stored c.buffer c.position m (str k) × laws.Stored c.buffer m e v

  abbrev pub Updates : Bytes → Config → Type 0
  Updates k config' = update_entry cmp key (config, c) ≡ some (placed k key, config', at c e)

  pub entry_id :
      (n : ℕ)
      → PairAt (codes "ID") (uint n)
      → n < u8_mod
      → Updates (codes "ID") (record config { id = n })
  unfolding update_entry
  entry_id n (k, v) h = rw (
    laws.read_str c key 64 (codes "ID") m k key_in (omega arith) (omega arith),
    set?-some (placed (codes "ID") key) (length (codes "ID")) 0 (omega arith),
    laws.read_uchar (at c m) config.id n e v value_in h,
  )

  pub entry_name :
      (s : Bytes)
      → PairAt (codes "name") (str s)
      → length s < 65
      → 65 ≤ length config.board_name
      → Updates (codes "name") (record config { board_name = placed s config.board_name })
  unfolding update_entry
  entry_name s (k, v) h room = rw (
    laws.read_str c key 64 (codes "name") m k key_in (omega arith) (omega arith),
    set?-some (placed (codes "name") key) (length (codes "name")) 0 (omega arith),
    laws.read_str (at c m) config.board_name 65 s e v value_in h room,
  )

  pub entry_class :
      (s : Bytes)
      → PairAt (codes "device_class") (str s)
      → length s < 65
      → 65 ≤ length config.device_class
      → Updates
          (codes "device_class")
          (record config { device_class = placed s config.device_class })
  unfolding update_entry
  entry_class s (k, v) h room = rw (
    laws.read_str c key 64 (codes "device_class") m k key_in (omega arith) (omega arith),
    set?-some (placed (codes "device_class") key) (length (codes "device_class")) 0 (omega arith),
    laws.read_str (at c m) config.device_class 65 s e v value_in h room,
  )

  pub entry_crc :
      (n : ℕ)
      → PairAt (codes "application_crc") (uint n)
      → n < u32_mod
      → Updates (codes "application_crc") (record config { application_crc = n })
  unfolding update_entry
  entry_crc n (k, v) h = rw (
    laws.read_str c key 64 (codes "application_crc") m k key_in (omega arith) (omega arith),
    set?-some (placed (codes "application_crc") key) (length (codes "application_crc")) 0
        (omega arith),
    laws.read_uint (at c m) config.application_crc n e v value_in h,
  )

  pub entry_size :
      (n : ℕ)
      → PairAt (codes "application_size") (uint n)
      → n < u32_mod
      → Updates (codes "application_size") (record config { application_size = n })
  unfolding update_entry
  entry_size n (k, v) h = rw (
    laws.read_str c key 64 (codes "application_size") m k key_in (omega arith) (omega arith),
    set?-some (placed (codes "application_size") key) (length (codes "application_size")) 0
        (omega arith),
    laws.read_uint (at c m) config.application_size n e v value_in h,
  )

  pub entry_count :
      (n : ℕ)
      → PairAt (codes "update_count") (uint n)
      → n < u32_mod
      → Updates (codes "update_count") (record config { update_count = n })
  unfolding update_entry
  entry_count n (k, v) h = rw (
    laws.read_str c key 64 (codes "update_count") m k key_in (omega arith) (omega arith),
    set?-some (placed (codes "update_count") key) (length (codes "update_count")) 0 (omega arith),
    laws.read_uint (at c m) config.update_count n e v value_in h,
  )
