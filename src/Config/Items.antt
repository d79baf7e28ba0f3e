-- ===== src/Config/Items.antt =====
-- What config.c relies on in the MessagePack library: an item that was written where there is room
-- for it is read back, and later writes leave it alone.
use bootloader_proposal.Base.{
  ℕ, ◌+◌, ◌≤◌, ◌<◌, ◌≡◌, refl, ◌∙◌, true, List, [], ◌∷◌, ◌++◌, length, take, drop, arith, Bytes,
  AreBytes, u8_mod, u16_mod, u32_mod,
}
use bootloader_proposal.Cmp.{Context, Cmp}

pub data Item : Type 0 where
  map : ℕ → Item
  uint : ℕ → Item
  str : Bytes → Item

-- Room for `room` bytes behind the position.
pub record Fits (room : ℕ) (c : Context) : Type 0 where
  pub there : c.size ≤ length c.buffer
  pub left : c.position + room ≤ c.size

-- Does a buffer hold the bytes of an item from one index to another?
abbrev pub Storage : Type 1
Storage = Bytes → ℕ → ℕ → Item → Type 0

module _ (Stored : Storage) where
  -- what both writing and writing a sequence leave alone
  pub record Onward (room : ℕ) (c c' : Context) : Type 0 where
    pub kept :
        (a b : ℕ) (item : Item)
        → b ≤ c.position
        → Stored c.buffer a b item
        → Stored c'.buffer a b item
    pub size : c'.size ≡ c.size
    pub length_same : length c'.buffer ≡ length c.buffer
    pub onward : c.position ≤ c'.position
    pub bound : c'.position ≤ c.position + room

  pub record Appends (room : ℕ) (c c' : Context) (item : Item) : Type 0 where
    pub stored : Stored c'.buffer c.position c'.position item
    pub rest : Onward room c c'

  -- items one behind the other
  abbrev pub Holds : Bytes → ℕ → ℕ → List Item → Type 0
  Holds buf a b [] = a ≡ b
  Holds buf a b (item ∷ items) = (m : ℕ) × Stored buf a m item × (m ≤ b) × Holds buf m b items

  pub record AppendsAll (room : ℕ) (c c' : Context) (items : List Item) : Type 0 where
    pub stored : Holds c'.buffer c.position c'.position items
    pub rest : Onward room c c'

  pub all_nil : (c : Context) → AppendsAll 0 c c []
  all_nil c = record {
    stored = refl;
    rest = record {
      kept = λ a b item le h. h;
      size = refl;
      length_same = refl;
      onward = omega arith;
      bound = omega arith;
    };
  }

  -- An item is written, and then others, in the room for all.
  pub all_cons :
      (r r' : ℕ) (c c₁ c₂ : Context) (item : Item) (items : List Item)
      → (Fits r c → Appends r c c₁ item)
      → (Fits r' c₁ → AppendsAll r' c₁ c₂ items)
      → Fits (r + r') c
      → AppendsAll (r + r') c c₂ (item ∷ items)
  all_cons r r' c c₁ c₂ item items first others fits =
      let a = first (record { there = fits.there; left = omega (arith, fits.left) }) in
      let s = a.rest in
      let b = others (record {
        there = omega (arith, fits.there, s.size, s.length_same);
        left = omega (arith, fits.left, s.size, s.bound);
      }) in
      let t = b.rest in
      record {
        stored = (
          c₁.position,
          t.kept c.position c₁.position item (omega arith) a.stored,
          t.onward,
          b.stored,
        );
        rest = record {
          kept = λ x y it le h. t.kept x y it (omega (arith, s.onward)) (s.kept x y it le h);
          size = t.size ∙ s.size;
          length_same = t.length_same ∙ s.length_same;
          onward = omega (arith, s.onward, t.onward);
          bound = omega (arith, s.bound, t.bound);
        };
      }

-- The laws of the calls in config.c. A map of fewer than 16 pairs takes one byte, a `u8` two, a number
-- of 32 bits at most five, and a string three bytes and its own at most.
pub record IsLawful (cmp : Cmp) : Type 1 where
  pub Stored : Storage
  pub write_map :
      (c : Context) (n : ℕ) → n < 16 → Fits 1 c → Appends Stored 1 c (cmp.write_map c n) (map n)
  pub write_u8 :
      (c : Context) (n : ℕ) → n < u8_mod → Fits 2 c → Appends Stored 2 c (cmp.write_u8 c n) (uint n)
  pub write_uint :
      (c : Context) (n : ℕ)
      → n < u32_mod
      → Fits 5 c
      → Appends Stored 5 c (cmp.write_uint c n) (uint n)
  pub write_str :
      (c : Context) (s : Bytes) (n : ℕ)
      → n ≤ length s
      → n < u16_mod
      → AreBytes s
      → Fits (n + 3) c
      → Appends Stored (n + 3) c (cmp.write_str c s n) (str (take n s))
  pub read_map :
      (c : Context) (old n end : ℕ)
      → Stored c.buffer c.position end (map n)
      → end ≤ c.size
      → cmp.read_map c old ≡ (true, n, record c { position = end })
  pub read_uchar :
      (c : Context) (old n end : ℕ)
      → Stored c.buffer c.position end (uint n)
      → end ≤ c.size
      → n < u8_mod
      → cmp.read_uchar c old ≡ (true, n, record c { position = end })
  pub read_uint :
      (c : Context) (old n end : ℕ)
      → Stored c.buffer c.position end (uint n)
      → end ≤ c.size
      → n < u32_mod
      → cmp.read_uint c old ≡ (true, n, record c { position = end })
  -- A string comes with its final zero, which has to fit too.
  pub read_str :
      (c : Context) (buf : Bytes) (size : ℕ) (s : Bytes) (end : ℕ)
      → Stored c.buffer c.position end (str s)
      → end ≤ c.size
      → length s < size
      → size ≤ length buf
      → cmp.read_str c buf size
        ≡ (true, s ++ 0 ∷ drop (length s + 1) buf, length s, record c { position = end })
