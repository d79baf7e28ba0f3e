-- ===== src/Config/Written.antt =====
-- What `config_write_messagepack` writes.
use bootloader_proposal.Base.{
  ℕ, ◌+◌, ◌≤◌, ◌<◌, ◌≡◌, some, List, [], ◌∷◌, length, take, arith, Bytes, AreBytes,
  are_bytes→AreBytes, refl, u8_mod, u32_mod, ◌==◌, Bool-cases, inl, inr, >>=-eq-some,
}
use bootloader_proposal.Cmp.{Context, Cmp}
use bootloader_proposal.Config.{Config, codes, c_string, string_length, config_write_messagepack}
use bootloader_proposal.Config.Items.{Item, map, uint, str, AppendsAll, all_nil, all_cons, IsLawful}
use bootloader_proposal.Config.Page.{IsTerminated}

-- The numbers fit their fields, and the strings their buffers of 65 bytes.
pub record InRange (config : Config) : Type 0 where
  pub id_byte : config.id < u8_mod
  pub crc_word : config.application_crc < u32_mod
  pub size_word : config.application_size < u32_mod
  pub count_word : config.update_count < u32_mod
  pub name_room : length config.board_name ≤ 65
  pub class_room : length config.device_class ≤ 65

-- Both strings of a configuration are made of bytes.
pub record HasText (config : Config) : Type 0 where
  pub name : AreBytes config.board_name
  pub class : AreBytes config.device_class

-- the map, with the first `n` and `k` bytes of the strings
abbrev pub items_of : Config → ℕ → ℕ → List Item
items_of config n k =
    map 6
    ∷ str (codes "ID")
    ∷ uint config.id
    ∷ str (codes "name")
    ∷ str (take n config.board_name)
    ∷ str (codes "device_class")
    ∷ str (take k config.device_class)
    ∷ str (codes "application_crc")
    ∷ uint config.application_crc
    ∷ str (codes "application_size")
    ∷ uint config.application_size
    ∷ str (codes "update_count")
    ∷ uint config.update_count
    ∷ []

-- the room of these items
abbrev room_of : ℕ → ℕ → ℕ
room_of n k =
    1
    + (2
        + 3
        + (2
            + (4
                + 3
                + ((n + 3)
                    + (12
                        + 3
                        + ((k + 3) + (15 + 3 + (5 + (16 + 3 + (5 + (12 + 3 + (5 + 0))))))))))))

-- The end of a string is inside its buffer.
pub string_length-lt : (s : Bytes) (n : ℕ) → string_length s ≡ some n → n < length s
unfolding string_length
string_length-lt [] n e = ground arith
string_length-lt (x ∷ s) n e = elim (Bool-cases (x == 0)) [
  | inl z ↦ ground arith
  | inr nz ↦
      let (m, found, next) = >>=-eq-some (string_length s) (λ n. some (n + 1)) (rw nz at e) in
      ground (arith, string_length-lt s m found)
]

module _ (cmp : Cmp) (laws : IsLawful cmp) where
  -- A page of 256 bytes is enough: the items take 231 bytes at most, and the CRC four.
  pub messagepack-items :
      (c : Context) (config : Config)
      → (t : IsTerminated config) → InRange config
      → HasText config
      → c.position ≡ 0
      → c.size ≤ length c.buffer
      → 252 ≤ c.size
      → (c' : Context) × (config_write_messagepack cmp c config ≡ some c')
        × AppendsAll laws.Stored
            (room_of t.name_length t.class_length)
            c
            c'
            (items_of config t.name_length t.class_length)
  unfolding config_write_messagepack
  messagepack-items c config t r text start there room =
      let n = t.name_length in
      let k = t.class_length in
      let name_in = string_length-lt config.board_name n t.name_ends in
      let class_in = string_length-lt config.device_class k t.class_ends in
      let n_small : n < 65 = omega (arith, r.name_room) in
      let k_small : k < 65 = omega (arith, r.class_room) in
      let c₁ = cmp.write_map c 6 in
      let c₂ = cmp.write_str c₁ (c_string "ID") 2 in
      let c₃ = cmp.write_u8 c₂ config.id in
      let c₄ = cmp.write_str c₃ (c_string "name") 4 in
      let c₅ = cmp.write_str c₄ config.board_name n in
      let c₆ = cmp.write_str c₅ (c_string "device_class") 12 in
      let c₇ = cmp.write_str c₆ config.device_class k in
      let c₈ = cmp.write_str c₇ (c_string "application_crc") 15 in
      let c₉ = cmp.write_uint c₈ config.application_crc in
      let c₁₀ = cmp.write_str c₉ (c_string "application_size") 16 in
      let c₁₁ = cmp.write_uint c₁₀ config.application_size in
      let c₁₂ = cmp.write_str c₁₁ (c_string "update_count") 12 in
      let c₁₃ = cmp.write_uint c₁₂ config.update_count in
      (
        c₁₃,
        rw (t.name_ends, t.class_ends),
        all_cons laws.Stored _ _ c c₁ c₁₃ _ _ (laws.write_map c 6 (omega arith))
            (all_cons laws.Stored _ _ c₁ c₂ c₁₃ _ _
              (laws.write_str c₁ (c_string "ID") 2 (omega arith) (omega arith)
                (are_bytes→AreBytes (c_string "ID") refl))
              (all_cons laws.Stored _ _ c₂ c₃ c₁₃ _ _ (laws.write_u8 c₂ config.id r.id_byte) (
                all_cons laws.Stored _ _ c₃ c₄ c₁₃ _ _
                  (laws.write_str c₃ (c_string "name") 4 (omega arith) (omega arith)
                    (are_bytes→AreBytes (c_string "name") refl))
                  (all_cons laws.Stored _ _ c₄ c₅ c₁₃ _ _
                    (laws.write_str c₄ config.board_name n (omega arith) (omega arith) text.name)
                    (all_cons laws.Stored _ _ c₅ c₆ c₁₃ _ _
                      (laws.write_str c₅ (c_string "device_class") 12 (omega arith) (omega arith)
                        (are_bytes→AreBytes (c_string "device_class") refl))
                      (all_cons laws.Stored _ _ c₆ c₇ c₁₃ _ _
                        (laws.write_str c₆ config.device_class k (omega arith) (omega arith)
                          text.class)
                        (all_cons laws.Stored _ _ c₇ c₈ c₁₃ _ _
                          (laws.write_str c₇ (c_string "application_crc") 15 (omega arith)
                            (omega arith) (are_bytes→AreBytes (c_string "application_crc") refl))
                          (all_cons laws.Stored _ _ c₈ c₉ c₁₃ _ _
                            (laws.write_uint c₈ config.application_crc r.crc_word)
                            (all_cons laws.Stored _ _ c₉ c₁₀ c₁₃ _ _
                              (laws.write_str c₉ (c_string "application_size") 16 (omega arith)
                                (omega arith)
                                (are_bytes→AreBytes (c_string "application_size") refl))
                              (all_cons laws.Stored _ _ c₁₀ c₁₁ c₁₃ _ _
                                (laws.write_uint c₁₀ config.application_size r.size_word)
                                (all_cons laws.Stored _ _ c₁₁ c₁₂ c₁₃ _ _
                                  (laws.write_str c₁₁ (c_string "update_count") 12 (omega arith)
                                    (omega arith)
                                    (are_bytes→AreBytes (c_string "update_count") refl))
                                  (all_cons laws.Stored _ _ c₁₂ c₁₃ c₁₃ _ _
                                    (laws.write_uint c₁₂ config.update_count r.count_word)
                                    (λ f. all_nil laws.Stored c₁₃)))))))))))))
            (record { there = there; left = omega arith }),
      )
