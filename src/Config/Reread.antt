-- ===== src/Config/Reread.antt =====
-- Reading back a configuration that `config_write` has written.
use bootloader_proposal.Base.{
  ℕ, zero, suc, ◌+◌, ◌-◌, ◌≤◌, ◌<◌, ◌≡◌, refl, ap, sym, some, ◌∷◌, length, take, length-take,
  replicate, length-replicate, first?-some, arith, Bytes,
}
use bootloader_proposal.Cmp.{Context, mem_access, Cmp}
use bootloader_proposal.Config.{
  Config, codes, config_update_from_serialized, config_write, config_read,
}
use bootloader_proposal.Config.Entries.{
  placed, at, entry_id, entry_name, entry_class, entry_crc, entry_size, entry_count, length-placed,
}
use bootloader_proposal.Config.Items.{Holds, IsLawful}
use bootloader_proposal.Config.Page.{IsTerminated}
use bootloader_proposal.Config.Written.{
  InRange, HasText, items_of, string_length-lt, messagepack-items,
}
use bootloader_proposal.Config.Text.{text-take, SaysSame}

-- what the local variables of `config_read` hold at first: any bytes, in buffers of the sizes declared
pub record HasBuffers (result : Config) (key : Bytes) : Type 0 where
  pub key_room : length key ≡ 64
  pub name_room : length result.board_name ≡ 65
  pub class_room : length result.device_class ≡ 65

-- the configuration that is read into `result`
abbrev read_into : Config → Config → ℕ → ℕ → Config
read_into result config n k = record {
  id = config.id;
  board_name = placed (take n config.board_name) result.board_name;
  device_class = placed (take k config.device_class) result.device_class;
  application_crc = config.application_crc;
  application_size = config.application_size;
  update_count = config.update_count;
}

module _ (cmp : Cmp) (laws : IsLawful cmp) where
  update-items :
      (c : Context) (key : Bytes) (result config : Config) (n k e : ℕ)
      → HasBuffers result key
      → InRange config
      → length (take n config.board_name) < 65
      → length (take k config.device_class) < 65
      → e ≤ c.size
      → Holds laws.Stored c.buffer c.position e (items_of config n k)
      → config_update_from_serialized cmp key result c ≡ some (read_into result config n k, at c e)
  unfolding config_update_from_serialized
  update-items c key result config n k e b r name_fits class_fits fits
        (
          m₁,
          s₁,
          l₁,
          (
            m₂,
            s₂,
            l₂,
            (
              m₃,
              s₃,
              l₃,
              (
                m₄,
                s₄,
                l₄,
                (
                  m₅,
                  s₅,
                  l₅,
                  (
                    m₆,
                    s₆,
                    l₆,
                    (
                      m₇,
                      s₇,
                      l₇,
                      (
                        m₈,
                        s₈,
                        l₈,
                        (
                          m₉,
                          s₉,
                          l₉,
                          (m₁₀, s₁₀, l₁₀, (m₁₁, s₁₁, l₁₁, (m₁₂, s₁₂, l₁₂, (m₁₃, s₁₃, l₁₃, end)))),
                        ),
                      ),
                    ),
                  ),
                ),
              ),
            ),
          ),
        ) =
      let name = take n config.board_name in
      let class = take k config.device_class in
      let r₁ = record result { id = config.id } in
      let r₂ = record r₁ { board_name = placed name result.board_name } in
      let r₃ = record r₂ { device_class = placed class result.device_class } in
      let r₄ = record r₃ { application_crc = config.application_crc } in
      let r₅ = record r₄ { application_size = config.application_size } in
      let k₁ = placed (codes "ID") key in
      let k₂ = placed (codes "name") k₁ in
      let k₃ = placed (codes "device_class") k₂ in
      let k₄ = placed (codes "application_crc") k₃ in
      let k₅ = placed (codes "application_size") k₄ in
      let fits_in : (x : ℕ) → x ≤ e → x ≤ c.size = λ x h. omega arith in
      let z₁ = length-placed key (codes "ID") b.key_room (omega arith) in
      let z₂ = length-placed k₁ (codes "name") z₁ (omega arith) in
      let z₃ = length-placed k₂ (codes "device_class") z₂ (omega arith) in
      let z₄ = length-placed k₃ (codes "application_crc") z₃ (omega arith) in
      let z₅ = length-placed k₄ (codes "application_size") z₄ (omega arith) in
      rw
        (
          laws.read_map c 0 6 m₁ s₁ (fits_in m₁ l₁),
          entry_id cmp laws key b.key_room result (at c m₁) m₂ m₃ (fits_in m₂ l₂) (fits_in m₃ l₃)
              config.id (s₂, s₃) r.id_byte,
          entry_name cmp laws k₁ z₁ r₁ (at c m₃) m₄ m₅ (fits_in m₄ l₄) (fits_in m₅ l₅) name (s₄, s₅)
              name_fits (omega (arith, b.name_room)),
          entry_class cmp laws k₂ z₂ r₂ (at c m₅) m₆ m₇ (fits_in m₆ l₆) (fits_in m₇ l₇) class
              (s₆, s₇) class_fits (omega (arith, b.class_room)),
          entry_crc cmp laws k₃ z₃ r₃ (at c m₇) m₈ m₉ (fits_in m₈ l₈) (fits_in m₉ l₉)
              config.application_crc (s₈, s₉) r.crc_word,
          entry_size cmp laws k₄ z₄ r₄ (at c m₉) m₁₀ m₁₁ (fits_in m₁₀ l₁₀) (fits_in m₁₁ l₁₁)
              config.application_size (s₁₀, s₁₁) r.size_word,
          entry_count cmp laws k₅ z₅ r₅ (at c m₁₁) m₁₂ m₁₃ (fits_in m₁₂ l₁₂) (fits_in m₁₃ l₁₃)
              config.update_count (s₁₂, s₁₃) r.count_word,
        )
        (ap (λ x. some (read_into result config n k, at c x)) end)

  -- On a page of 256 bytes or more, whatever it holds, `config_write` of a configuration makes a page
  -- from which `config_read` takes the same configuration again, whatever its local variables hold
  -- at first: the same numbers, and the same text in both strings. The strings are of bytes,
  -- terminated in buffers of 65, the numbers fit their fields, and the MessagePack library reads what
  -- it has written.
  pub config_read-config_write :
      (crc32 : ℕ → Bytes → ℕ) (b₀ b₁ b₂ b₃ : ℕ) (behind key : Bytes) (config result : Config)
      (size : ℕ)
      → IsTerminated config
      → InRange config
      → HasText config
      → HasBuffers result key
      → size ≡ length behind + 4
      → 256 ≤ size
      → (page : Bytes) × (config' : Config) × (config_write cmp crc32
            (b₀ ∷ b₁ ∷ b₂ ∷ b₃ ∷ behind)
            config
            size
          ≡ some page)
        × (config_read cmp result key page size ≡ some config')
        × SaysSame config' config
  unfolding config_write config_read
  config_read-config_write crc32 b₀ b₁ b₂ b₃ behind key config result size t r text b len room =
      let n = t.name_length in
      let k = t.class_length in
      let name_in = string_length-lt config.board_name n t.name_ends in
      let class_in = string_length-lt config.device_class k t.class_ends in
      let (c, written, all) =
        messagepack-items cmp laws (mem_access behind (size - 4)) config t r text refl (omega arith)
          (omega arith) in
      let fits : length behind ≡ length c.buffer = sym all.rest.length_same in
      let read =
        update-items (mem_access c.buffer (size - 4)) key result config n k c.position b r
          (omega (arith, length-take n config.board_name, r.name_room))
          (omega (arith, length-take k config.device_class, r.class_room))
          (omega (arith, all.rest.bound, r.name_room, r.class_room)) all.stored in
      rw (written, first?-some (size - 4) c.buffer (omega arith))
        (
          _,
          read_into result config n k,
          refl,
          rw read,
          record {
            id = refl;
            board_name = text-take config.board_name n _ t.name_ends;
            device_class = text-take config.device_class k _ t.class_ends;
            application_crc = refl;
            application_size = refl;
            update_count = refl;
          },
        )

  -- So it does on a page that was set to zero.
  pub config_read-replicate :
      (crc32 : ℕ → Bytes → ℕ) (key : Bytes) (config result : Config) (size : ℕ)
      → IsTerminated config
      → InRange config
      → HasText config
      → HasBuffers result key
      → 256 ≤ size
      → (page : Bytes) × (config' : Config) × (config_write cmp crc32 (replicate size 0) config size
          ≡ some page)
        × (config_read cmp result key page size ≡ some config')
        × SaysSame config' config
  config_read-replicate crc32 key config result (suc (suc (suc (suc n)))) t r text b room =
      config_read-config_write crc32 0 0 0 0 (replicate n 0) key config result
        (suc (suc (suc (suc n)))) t r text b (omega (arith, length-replicate {A = ℕ} n 0)) room
  config_read-replicate crc32 key config result (suc (suc (suc zero))) t r text b room =
      absurd (omega arith)
  config_read-replicate crc32 key config result (suc (suc zero)) t r text b room =
      absurd (omega arith)
  config_read-replicate crc32 key config result (suc zero) t r text b room = absurd (omega arith)
  config_read-replicate crc32 key config result zero t r text b room = absurd (omega arith)
