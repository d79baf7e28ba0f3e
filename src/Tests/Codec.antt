-- ===== src/Tests/Codec.antt =====
-- A message format for the runs, in bytes where the numbers fit: a number of the configuration has a tag
-- and one byte or four, a string two bytes for its length; other numbers take one cell.
use bootloader_proposal.Base.{
  leb, ◌&&◌, sym, some_inj, >>=-eq-some, length-append, length-drop, append-AreBytes, drop-AreBytes,
  ◌*◌, ◌/◌, ◌%◌, ◌⊎◌, inl, inr, u8_mod, u32_mod, be32, ◌==◌, Bool-cases, AreBytes, ℕ, zero, suc,
  ◌+◌, ◌≤◌, ◌<◌, ◌≡◌, ◌≢◌, refl, ap, ap₂, ◌∙◌, Bool, true, false, Option, none, some, [], ◌∷◌, ◌++◌,
  ltb, lt→ltb, if◌then◌else◌, get_elem?, set, length-set, length, take, drop, length-take, arith,
  Bytes, ◌>>=◌,
}
use mathlib.Core.Path.{subst}
use bootloader_proposal.Cmp.{pos, Context, Cmp, WritesInPlace, WritesBytes, ReadsInType}
use bootloader_proposal.Config.{word}
use bootloader_proposal.Config.Page.{word-be32}
use bootloader_proposal.Config.Items.{Item, map, uint, str, Fits, Appends, IsLawful}
use bootloader_proposal.Datagram.Packet.{store, length-store}
pub mod Laws
pub mod Types

abbrev got_cell : {A : Type 0} → (ℕ → A) → Context → A → Option ℕ → Bool × A × Context
got_cell f c old none = (false, old, c)
got_cell f c old (some b) = (true, f b, record c { position = c.position + 1 })

abbrev pub get : {A : Type 0} → (ℕ → A) → Context → A → Bool × A × Context
get f c old = got_cell f c old (get_elem? c.buffer c.position)

unfoldable pub fetch : Bytes → ℕ → ℕ → Option Bytes
fetch buf a zero = some []
fetch buf a (suc n) = get_elem? buf a >>= λ x. fetch buf (a + 1) n >>= λ xs. some (x ∷ xs)

abbrev pub as_bytes : Bytes → Bytes
as_bytes [] = []
as_bytes (x ∷ xs) = x % u8_mod ∷ as_bytes xs

abbrev pub got : Context → Bytes → ℕ → ℕ → Option Bytes → Bool × Bytes × ℕ × Context
got c buf size n none = (false, buf, size, c)
got c buf size n (some s) =
    if ltb n size && leb size (length buf)
    then (
      true,
      as_bytes s ++ 0 ∷ drop (length s + 1) buf,
      n,
      record c { position = c.position + 2 + n },
    )
    else (false, buf, n, c)

abbrev pub got_length : Context → Bytes → ℕ → Option ℕ → Option ℕ → Bool × Bytes × ℕ × Context
got_length c buf size (some hi) (some lo) =
    let n = hi * u8_mod + lo in got c buf size n (fetch c.buffer (c.position + 2) n)
got_length c buf size _ _ = (false, buf, size, c)

abbrev pub get_string : Context → Bytes → ℕ → Bool × Bytes × ℕ × Context
get_string c buf size =
    got_length c buf size (get_elem? c.buffer c.position) (get_elem? c.buffer (c.position + 1))

-- the tags of numbers of one byte and of four, as in MessagePack
abbrev pub tag8 : ℕ
tag8 = 204

abbrev pub tag32 : ℕ
tag32 = 206

abbrev pub tagged : ℕ → Bytes
tagged n = if ltb n u8_mod then tag8 ∷ n ∷ [] else tag32 ∷ be32 n

abbrev got_byte : Context → ℕ → Option ℕ → Bool × ℕ × Context
got_byte c old none = (false, old, c)
got_byte c old (some n) = (true, n, record c { position = c.position + 2 })

abbrev got_word : Context → ℕ → Option Bytes → Bool × ℕ × Context
got_word c old (some (b₀ ∷ b₁ ∷ b₂ ∷ b₃ ∷ [])) =
    (true, word b₀ b₁ b₂ b₃, record c { position = c.position + 5 })
got_word c old _ = (false, old, c)

abbrev got_tag : Context → ℕ → Option ℕ → Bool × ℕ × Context
got_tag c old none = (false, old, c)
got_tag c old (some t) =
    if t == tag8
    then got_byte c old (get_elem? c.buffer (c.position + 1))
    else got_word c old (fetch c.buffer (c.position + 1) 4)

abbrev pub get_number : Context → ℕ → Bool × ℕ × Context
get_number c old = got_tag c old (get_elem? c.buffer c.position)

-- a number in the type of its variable
abbrev pub get_in : ℕ → Context → ℕ → Bool × ℕ × Context
get_in modulus c old = let (ok, n, c') = get_number c old in (ok, n % modulus, c')

abbrev pub put : Context → Bytes → Context
put c bs = record c { buffer = store c.buffer c.position bs; position = c.position + length bs }

abbrev pub byte_cmp : Cmp
byte_cmp = record {
  read_uinteger = get (λ b. b);
  read_uint = get_in u32_mod;
  read_u32 = get (λ b. b);
  read_uchar = get_in u8_mod;
  read_int = get pos;
  read_bin_size = get (λ b. b);
  read_array = get (λ b. b);
  read_map = get (λ b. b);
  read_str = get_string;
  write_bool = λ c n. put c (n ∷ []);
  write_u8 = λ c n. put c (tagged n);
  write_uint = λ c n. put c (tagged n);
  write_map = λ c n. put c (n ∷ []);
  write_str = λ c s n. put c (n / u8_mod ∷ n % u8_mod ∷ take n s);
  write_bin = λ c s n. put c (n ∷ take n s);
}

pub byte_cmp-WritesInPlace : WritesInPlace byte_cmp
byte_cmp-WritesInPlace = record {
  write_u8 = λ c n. length-store (tagged n) c.buffer c.position;
  write_uint = λ c n. length-store (tagged n) c.buffer c.position;
  write_map = λ c n. length-store (n ∷ []) c.buffer c.position;
  write_str = λ c s n. length-store (n / u8_mod ∷ n % u8_mod ∷ take n s) c.buffer c.position;
}
