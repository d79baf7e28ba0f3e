-- ===== src/Config/Typed.antt =====
-- The C types of `bootloader_config_t`, and what keeps to them.
use bootloader_proposal.Base.{
  ℕ, zero, suc, ◌-◌, ◌<◌, ◌≡◌, ◌∙◌, some, some_inj, [], ◌∷◌, >>=-eq-some, length, set?, arith,
  Bytes, AreBytes, u8_mod, u32_mod, Bool-cases, inl, inr,
}
use Prim.Native.String.{String}
use mathlib.Core.Path.{subst}
use bootloader_proposal.Cmp.{Context, mem_access, Cmp, ReadsInType}
use bootloader_proposal.Config.{
  Config, c_string, strings_equal, on_key, read_id, read_name, read_class, read_crc, read_size,
  read_count, update_entry, update_entries, config_update_from_serialized, config_read,
}
use bootloader_proposal.Config.Written.{HasText, InRange}

-- The numbers fit their types, and the strings are arrays of 65 characters.
pub record IsTyped (config : Config) : Type 0 where
  pub id_byte : config.id < u8_mod
  pub crc_word : config.application_crc < u32_mod
  pub size_word : config.application_size < u32_mod
  pub count_word : config.update_count < u32_mod
  pub name_size : length config.board_name ≡ 65
  pub class_size : length config.device_class ≡ 65
  pub name_bytes : AreBytes config.board_name
  pub class_bytes : AreBytes config.device_class

pub InRange-IsTyped : {config : Config} → IsTyped config → InRange config
InRange-IsTyped t = record {
  id_byte = t.id_byte;
  crc_word = t.crc_word;
  size_word = t.size_word;
  count_word = t.count_word;
  name_room = omega (arith, t.name_size);
  class_room = omega (arith, t.class_size);
}

pub HasText-IsTyped : {config : Config} → IsTyped config → HasText config
HasText-IsTyped t = record { name = t.name_bytes; class = t.class_bytes }

module _ (cmp : Cmp) (reads : ReadsInType cmp) where
  abbrev ReadState : Type 0
  ReadState = Config × Context

  abbrev KeepsType : (ReadState → ReadState) → Type 0
  KeepsType f = (s : ReadState) → IsTyped s.0 → IsTyped (f s).0

  id-KeepsType : KeepsType (read_id cmp)
  id-KeepsType (config, c) t = record {
    id_byte = reads.read_uchar c config.id t.id_byte;
    crc_word = t.crc_word;
    size_word = t.size_word;
    count_word = t.count_word;
    name_size = t.name_size;
    class_size = t.class_size;
    name_bytes = t.name_bytes;
    class_bytes = t.class_bytes;
  }

  name-KeepsType : KeepsType (read_name cmp)
  name-KeepsType (config, c) t =
      let (bytes, same) = reads.read_str c config.board_name 65 t.name_bytes in
      record {
        id_byte = t.id_byte;
        crc_word = t.crc_word;
        size_word = t.size_word;
        count_word = t.count_word;
        name_size = same ∙ t.name_size;
        class_size = t.class_size;
        name_bytes = bytes;
        class_bytes = t.class_bytes;
      }

  class-KeepsType : KeepsType (read_class cmp)
  class-KeepsType (config, c) t =
      let (bytes, same) = reads.read_str c config.device_class 65 t.class_bytes in
      record {
        id_byte = t.id_byte;
        crc_word = t.crc_word;
        size_word = t.size_word;
        count_word = t.count_word;
        name_size = t.name_size;
        class_size = same ∙ t.class_size;
        name_bytes = t.name_bytes;
        class_bytes = bytes;
      }

  crc-KeepsType : KeepsType (read_crc cmp)
  crc-KeepsType (config, c) t = record {
    id_byte = t.id_byte;
    crc_word = reads.read_uint c config.application_crc t.crc_word;
    size_word = t.size_word;
    count_word = t.count_word;
    name_size = t.name_size;
    class_size = t.class_size;
    name_bytes = t.name_bytes;
    class_bytes = t.class_bytes;
  }

  size-KeepsType : KeepsType (read_size cmp)
  size-KeepsType (config, c) t = record {
    id_byte = t.id_byte;
    crc_word = t.crc_word;
    size_word = reads.read_uint c config.application_size t.size_word;
    count_word = t.count_word;
    name_size = t.name_size;
    class_size = t.class_size;
    name_bytes = t.name_bytes;
    class_bytes = t.class_bytes;
  }

  -- a new update count
  pub with_count :
      {config : Config} (n : ℕ)
      → n < u32_mod
      → IsTyped config
      → IsTyped (record config { update_count = n })
  with_count n h t = record {
    id_byte = t.id_byte;
    crc_word = t.crc_word;
    size_word = t.size_word;
    count_word = h;
    name_size = t.name_size;
    class_size = t.class_size;
    name_bytes = t.name_bytes;
    class_bytes = t.class_bytes;
  }

  count-KeepsType : KeepsType (read_count cmp)
  count-KeepsType (config, c) t =
      with_count (cmp.read_uint c config.update_count).1
        (reads.read_uint c config.update_count t.count_word) t

  on_key-IsTyped :
      (name : String) (key : Bytes) (read : ReadState → ReadState) (s : ReadState) {s' : ReadState}
      → KeepsType read
      → on_key cmp name key read s ≡ some s'
      → IsTyped s.0
      → IsTyped s'.0
  on_key-IsTyped name key read s keeps e t =
      let (same, compared, rest) = >>=-eq-some (strings_equal (c_string name) key) _ e in
      elim (Bool-cases same) [
        | inl hit ↦ subst (λ (x : ReadState). IsTyped x.0) (some_inj (rw hit at rest)) (keeps s t)
        | inr miss ↦ subst (λ (x : ReadState). IsTyped x.0) (some_inj (rw miss at rest)) t
      ]

  entry-IsTyped :
      (key : Bytes) (s : ReadState) {r : Bytes × Config × Context}
      → update_entry cmp key s ≡ some r
      → IsTyped s.0
      → IsTyped r.1
  unfolding update_entry
  entry-IsTyped key (config, c) e t =
      let (key', _, e₀) =
        >>=-eq-some (set? (cmp.read_str c key 64).1 (cmp.read_str c key 64).2 0) _ e in
      let (s₁, f₁, e₁) = >>=-eq-some (on_key cmp "ID" key' (read_id cmp) _) _ e₀ in
      let (s₂, f₂, e₂) = >>=-eq-some (on_key cmp "name" key' (read_name cmp) s₁) _ e₁ in
      let (s₃, f₃, e₃) = >>=-eq-some (on_key cmp "device_class" key' (read_class cmp) s₂) _ e₂ in
      let (s₄, f₄, e₄) = >>=-eq-some (on_key cmp "application_crc" key' (read_crc cmp) s₃) _ e₃ in
      let (s₅, f₅, e₅) = >>=-eq-some (on_key cmp "application_size" key' (read_size cmp) s₄) _ e₄ in
      let (s₆, f₆, e₆) = >>=-eq-some (on_key cmp "update_count" key' (read_count cmp) s₅) _ e₅ in
      let t₁ = on_key-IsTyped "ID" key' (read_id cmp) _ id-KeepsType f₁ t in
      let t₂ = on_key-IsTyped "name" key' (read_name cmp) s₁ name-KeepsType f₂ t₁ in
      let t₃ = on_key-IsTyped "device_class" key' (read_class cmp) s₂ class-KeepsType f₃ t₂ in
      let t₄ = on_key-IsTyped "application_crc" key' (read_crc cmp) s₃ crc-KeepsType f₄ t₃ in
      let t₅ = on_key-IsTyped "application_size" key' (read_size cmp) s₄ size-KeepsType f₅ t₄ in
      let t₆ = on_key-IsTyped "update_count" key' (read_count cmp) s₅ count-KeepsType f₆ t₅ in
      subst (λ (x : Bytes × Config × Context). IsTyped x.1) (some_inj e₆) t₆

  entries-IsTyped :
      (n : ℕ) (key : Bytes) (s : ReadState) {s' : ReadState}
      → update_entries cmp n key s ≡ some s'
      → IsTyped s.0
      → IsTyped s'.0
  unfolding update_entries
  entries-IsTyped zero key s e t = subst (λ (x : ReadState). IsTyped x.0) (some_inj e) t
  entries-IsTyped (suc n) key s e t =
      let ((key', config, c), one, rest) = >>=-eq-some (update_entry cmp key s) _ e in
      entries-IsTyped n key' (config, c) rest (entry-IsTyped key s one t)

  pub update-IsTyped :
      (key : Bytes) (config : Config) (c : Context) {s' : Config × Context}
      → config_update_from_serialized cmp key config c ≡ some s'
      → IsTyped config
      → IsTyped s'.0
  unfolding config_update_from_serialized
  update-IsTyped key config c e t =
      entries-IsTyped (cmp.read_map c 0).1 key (config, (cmp.read_map c 0).2) e t

  pub config_read-IsTyped :
      (result config : Config) (key page : Bytes) (size : ℕ)
      → config_read cmp result key page size ≡ some config
      → IsTyped result
      → IsTyped config
  unfolding config_read
  config_read-IsTyped result config key (b₀ ∷ b₁ ∷ b₂ ∷ b₃ ∷ behind) size e t =
      let (s, updated, rest) =
        >>=-eq-some (config_update_from_serialized cmp key result (mem_access behind (size - 4))) _
          e in
      subst IsTyped (some_inj rest) (update-IsTyped key result _ updated t)
  config_read-IsTyped result config key [] size e t = absurd (cc)
  config_read-IsTyped result config key (b₀ ∷ []) size e t = absurd (cc)
  config_read-IsTyped result config key (b₀ ∷ b₁ ∷ []) size e t = absurd (cc)
  config_read-IsTyped result config key (b₀ ∷ b₁ ∷ b₂ ∷ []) size e t = absurd (cc)
