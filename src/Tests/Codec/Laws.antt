-- ===== src/Tests/Codec/Laws.antt =====
-- The message format of the runs reads what it has written.
use bootloader_proposal.Base.{
  leb, ◌*◌, ◌/◌, ◌%◌, ◌⊎◌, inl, inr, u8_mod, u32_mod, be32, Bool-cases, AreBytes, ℕ, zero, suc, ◌+◌,
  ◌≤◌, ◌<◌, ◌≡◌, ◌≢◌, refl, ap, ap₂, ◌∙◌, true, some, [], ◌∷◌, ◌++◌, ltb, lt→ltb, get_elem?, set,
  length-set, length, take, drop, length-take, arith, Bytes,
}
use mathlib.Core.Path.{subst}
use bootloader_proposal.Cmp.{Context}
use bootloader_proposal.Config.Page.{word-be32}
use bootloader_proposal.Config.Items.{Item, map, uint, str, Fits, Appends, IsLawful}
use bootloader_proposal.Datagram.Packet.{store, length-store}
use bootloader_proposal.Tests.Codec.{
  as_bytes, get, get_string, tag8, tag32, tagged, get_number, get_in, put, fetch, byte_cmp,
}
use bootloader_proposal.Tests.Codec.Types.{take-AreBytes}

abbrev cells : Item → Bytes
cells (map n) = n ∷ []
cells (uint n) = tagged n
cells (str s) = length s / u8_mod ∷ length s % u8_mod ∷ s

-- The cells stand in the buffer from index `a` to `b`.
abbrev Here : Bytes → ℕ → ℕ → Bytes → Type 0
Here buf a b [] = a ≡ b
Here buf a b (x ∷ xs) = (get_elem? buf a ≡ some x) × Here buf (a + 1) b xs

get_elem?-set_other :
    (buf : Bytes) (i j v : ℕ) → j ≢ i → get_elem? (set buf i v) j ≡ get_elem? buf j
get_elem?-set_other [] i j v h = refl
get_elem?-set_other (x ∷ buf) zero zero v h = absurd (h refl)
get_elem?-set_other (x ∷ buf) zero (suc j) v h = refl
get_elem?-set_other (x ∷ buf) (suc i) zero v h = refl
get_elem?-set_other (x ∷ buf) (suc i) (suc j) v h =
    get_elem?-set_other buf i j v (λ e. h (ap suc e))

get_elem?-set_here : (buf : Bytes) (i v : ℕ) → i < length buf → get_elem? (set buf i v) i ≡ some v
get_elem?-set_here [] i v h = absurd (omega arith)
get_elem?-set_here (x ∷ buf) zero v h = refl
get_elem?-set_here (x ∷ buf) (suc i) v h = get_elem?-set_here buf i v (omega arith)

store-before : (xs buf : Bytes) (k j : ℕ) → j < k → get_elem? (store buf k xs) j ≡ get_elem? buf j
store-before [] buf k j h = refl
store-before (x ∷ xs) buf k j h =
    store-before xs (set buf k x) (k + 1) j (omega arith)
    ∙ get_elem?-set_other buf k j x (omega arith)

Here-store :
    (xs buf : Bytes) (k e : ℕ)
    → k + length xs ≤ length buf
    → e ≡ k + length xs
    → Here (store buf k xs) k e xs
Here-store [] buf k e h q = omega arith
Here-store (x ∷ xs) buf k e h q = (
  store-before xs (set buf k x) (k + 1) k (omega arith) ∙ get_elem?-set_here buf k x (omega arith),
  Here-store xs (set buf k x) (k + 1) e (omega (arith, length-set buf k x)) (omega arith),
)

Here-le : (xs buf : Bytes) (a b : ℕ) → Here buf a b xs → a ≤ b
Here-le [] buf a b h = omega arith
Here-le (x ∷ xs) buf a b h = omega (arith, Here-le xs buf (a + 1) b h.1)

Here-kept : (xs ys buf : Bytes) (a b k : ℕ) → b ≤ k → Here buf a b xs → Here (store buf k ys) a b xs
Here-kept [] ys buf a b k le h = h
Here-kept (x ∷ xs) ys buf a b k le h = (
  store-before ys buf k a (omega (arith, Here-le xs buf (a + 1) b h.1)) ∙ h.0,
  Here-kept xs ys buf (a + 1) b k le h.1,
)

fetch-Here : (s buf : Bytes) (a b : ℕ) → Here buf a b s → fetch buf a (length s) ≡ some s
unfolding fetch
fetch-Here [] buf a b h = refl
fetch-Here (x ∷ s) buf a b h = rw (h.0, fetch-Here s buf (a + 1) b h.1)

Here-end : (s buf : Bytes) (a b : ℕ) → Here buf a b s → b ≡ a + length s
Here-end [] buf a b h = omega arith
Here-end (x ∷ s) buf a b h = omega (arith, Here-end s buf (a + 1) b h.1)

-- A string is one of bytes.
abbrev HasBytes : Item → Type 0
HasBytes (str s) = AreBytes s
HasBytes _ = Unit {0}

abbrev Stored : Bytes → ℕ → ℕ → Item → Type 0
Stored buf a b item = Here buf a b (cells item) × HasBytes item

put-Appends :
    (room : ℕ) (c : Context) (item : Item)
    → length (cells item) ≤ room
    → HasBytes item
    → Fits room c
    → Appends Stored room c (put c (cells item)) item
put-Appends room c item le bytes fits = record {
  stored = (
    Here-store (cells item) c.buffer c.position _ (omega (arith, fits.there, fits.left)) refl,
    bytes,
  );
  rest = record {
    kept = λ a b it h s. (Here-kept (cells it) (cells item) c.buffer a b c.position h s.0, s.1);
    size = refl;
    length_same = length-store (cells item) c.buffer c.position;
    onward = omega arith;
    bound = omega arith;
  };
}

as_bytes_same : (xs : Bytes) → AreBytes xs → as_bytes xs ≡ xs
as_bytes_same [] bytes = refl
as_bytes_same (x ∷ xs) bytes = ap₂ ◌∷◌ (omega (arith, bytes.0)) (as_bytes_same xs bytes.1)

write_str-Appends :
    (c : Context) (s : Bytes) (n : ℕ)
    → n ≤ length s
    → AreBytes s
    → Fits (n + 3) c
    → Appends Stored (n + 3) c (byte_cmp.write_str c s n) (str (take n s))
write_str-Appends c s n le bytes fits =
    let e : length (take n s) ≡ n = omega (arith, length-take n s) in
    subst
      (λ m. Appends Stored (n + 3) c (put c (m / u8_mod ∷ m % u8_mod ∷ take n s)) (str (take n s)))
      e (put-Appends (n + 3) c (str (take n s)) (omega arith) (take-AreBytes n s bytes) fits)

get-cell :
    (c : Context) (old n end : ℕ)
    → Here c.buffer c.position end (n ∷ [])
    → get (λ b. b) c old ≡ (true, n, record c { position = end })
get-cell c old n end h = rw h.0 (ap (λ p. (true, n, record c { position = p })) h.1)

length-tagged : (n room : ℕ) → (5 ≤ room) ⊎ ((2 ≤ room) × (n < u8_mod)) → length (tagged n) ≤ room
length-tagged n room h = ground arith

get_number-Here :
    (c : Context) (old n end : ℕ)
    → Here c.buffer c.position end (tagged n)
    → n < u32_mod
    → get_number c old ≡ (true, n, record c { position = end })
unfolding fetch
get_number-Here c old n end h small = elim (Bool-cases (ltb n u8_mod)) [
  | inl one ↦
      let h' : Here c.buffer c.position end (tag8 ∷ n ∷ []) = rw one at h in
      rw (h'.0, h'.1.0) (ap (λ p. (true, n, record c { position = p })) (omega (arith, h'.1.1)))
  | inr more ↦
      let h' : Here c.buffer c.position end (tag32 ∷ be32 n) = rw more at h in
      rw (h'.0, fetch-Here (be32 n) c.buffer (c.position + 1) end h'.1)
        (ap₂ (λ m p. (true, m, record c { position = p })) (word-be32 n small)
          (omega (arith, h'.1.1.1.1.1)))
]

get_string-Here :
    (c : Context) (buf : Bytes) (size : ℕ) (s : Bytes) (end : ℕ)
    → Stored c.buffer c.position end (str s)
    → length s < size
    → size ≤ length buf
    → get_string c buf size
      ≡ (true, s ++ 0 ∷ drop (length s + 1) buf, length s, record c { position = end })
unfolding fetch
get_string-Here c buf size s end (h, bytes) fits room =
    let next : c.position + 1 + 1 ≡ c.position + 2 = omega arith in
    let tail : Here c.buffer (c.position + 2) end s = rw next at h.1.1 in
    let e : c.position + 2 + length s ≡ end =
      omega (arith, Here-end s c.buffer (c.position + 2) end tail) in
    let n : length s / u8_mod * u8_mod + length s % u8_mod ≡ length s = omega arith in
    let there : leb size (length buf) ≡ true = ground arith in
    rw (
      h.0,
      h.1.0,
      n,
      fetch-Here s c.buffer (c.position + 2) end tail,
      lt→ltb (length s) size fits,
      there,
      as_bytes_same s bytes,
      e,
    )

get_in-Here :
    (modulus : ℕ) (c : Context) (old n end : ℕ)
    → Here c.buffer c.position end (tagged n)
    → n < u32_mod
    → n % modulus ≡ n
    → get_in modulus c old ≡ (true, n, record c { position = end })
get_in-Here modulus c old n end h small fits =
    rw (get_number-Here c old n end h small) (ap (λ m. (true, m, record c { position = end })) fits)

pub byte_cmp-IsLawful : IsLawful byte_cmp
byte_cmp-IsLawful = record {
  Stored = Stored;
  write_map = λ c n h fits. put-Appends 1 c (map n) (omega arith) tt fits;
  write_u8 =
      λ c n h fits. put-Appends 2 c (uint n) (length-tagged n 2 (inr (omega arith, h))) tt fits;
  write_uint =
      λ c n h fits. put-Appends 5 c (uint n) (length-tagged n 5 (inl (omega arith))) tt fits;
  write_str = λ c s n le h bytes fits. write_str-Appends c s n le bytes fits;
  read_map = λ c old n end s le. get-cell c old n end s.0;
  read_uchar = λ c old n end s le h. get_in-Here u8_mod c old n end s.0 (omega arith) (omega arith);
  read_uint = λ c old n end s le h. get_in-Here u32_mod c old n end s.0 h (omega arith);
  read_str = λ c buf size s end h le fits room. get_string-Here c buf size s end h fits room;
}
