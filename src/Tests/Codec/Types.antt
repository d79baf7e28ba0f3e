-- ===== src/Tests/Codec/Types.antt =====
-- The message format of the runs writes bytes, and reads numbers and strings in their types.
use bootloader_proposal.Base.{
  leb, ◌&&◌, sym, some_inj, >>=-eq-some, length-append, length-drop, append-AreBytes, drop-AreBytes,
  ◌*◌, ◌/◌, ◌%◌, inl, inr, u8_mod, u32_mod, Bool-cases, AreBytes, ℕ, zero, suc, ◌+◌, ◌<◌, ◌≡◌, refl,
  ap, ◌∙◌, Option, none, some, [], ◌∷◌, ltb, get_elem?, set, length, take, drop, arith, Bytes,
}
use bootloader_proposal.Cmp.{Context, WritesBytes, ReadsInType, WritesBool}
use bootloader_proposal.Datagram.Packet.{store, length-store}
use bootloader_proposal.Tests.Codec.{as_bytes, got, got_length, tagged, fetch, byte_cmp}

set-AreBytes : (xs : Bytes) (i b : ℕ) → b < u8_mod → AreBytes xs → AreBytes (set xs i b)
set-AreBytes [] i b h bytes = tt
set-AreBytes (x ∷ xs) zero b h bytes = (h, bytes.1)
set-AreBytes (x ∷ xs) (suc i) b h bytes = (bytes.0, set-AreBytes xs i b h bytes.1)

pub take-AreBytes : (n : ℕ) (xs : Bytes) → AreBytes xs → AreBytes (take n xs)
take-AreBytes zero xs bytes = tt
take-AreBytes (suc n) [] bytes = tt
take-AreBytes (suc n) (x ∷ xs) bytes = (bytes.0, take-AreBytes n xs bytes.1)

as_bytes-AreBytes : (xs : Bytes) → AreBytes (as_bytes xs)
as_bytes-AreBytes [] = tt
as_bytes-AreBytes (x ∷ xs) = (omega arith, as_bytes-AreBytes xs)

length-as_bytes : (xs : Bytes) → length (as_bytes xs) ≡ length xs
length-as_bytes [] = refl
length-as_bytes (x ∷ xs) = ap suc (length-as_bytes xs)

length-fetch : (n : ℕ) (buf s : Bytes) (a : ℕ) → fetch buf a n ≡ some s → length s ≡ n
unfolding fetch
length-fetch zero buf s a e = ap length (sym (some_inj e))
length-fetch (suc n) buf s a e =
    let (x, _, more) = >>=-eq-some (get_elem? buf a) _ e in
    let (xs, rest, made) = >>=-eq-some (fetch buf (a + 1) n) _ more in
    ap length (sym (some_inj made)) ∙ ap suc (length-fetch n buf xs (a + 1) rest)

store-AreBytes : (xs buf : Bytes) (k : ℕ) → AreBytes xs → AreBytes buf → AreBytes (store buf k xs)
store-AreBytes [] buf k bytes there = there
store-AreBytes (x ∷ xs) buf k bytes there =
    store-AreBytes xs (set buf k x) (k + 1) bytes.1 (set-AreBytes buf k x bytes.0 there)

tagged-AreBytes : (n : ℕ) → n < u32_mod → AreBytes (tagged n)
tagged-AreBytes n h = elim (Bool-cases (ltb n u8_mod)) [
  | inl one ↦ rw one (omega arith, (ground arith, tt))
  | inr more ↦ rw more (omega arith, (omega arith, (omega arith, (omega arith, (omega arith, tt)))))
]

pub byte_cmp-WritesBytes : WritesBytes byte_cmp
byte_cmp-WritesBytes = record {
  write_map = λ c n h there. store-AreBytes (n ∷ []) c.buffer c.position (omega arith, tt) there;
  write_u8 = λ c n h there.
      store-AreBytes (tagged n) c.buffer c.position (tagged-AreBytes n (omega arith)) there;
  write_uint =
      λ c n h there. store-AreBytes (tagged n) c.buffer c.position (tagged-AreBytes n h) there;
  write_str = λ c s n h bytes there.
      store-AreBytes (n / u8_mod ∷ n % u8_mod ∷ take n s) c.buffer c.position
        (omega arith, (omega arith, take-AreBytes n s bytes)) there;
}

got-InType :
    (c : Context) (buf : Bytes) (size n : ℕ) (o : Option Bytes)
    → ((s : Bytes) → o ≡ some s → length s ≡ n)
    → AreBytes buf
    → AreBytes (got c buf size n o).1 × (length (got c buf size n o).1 ≡ length buf)
got-InType c buf size n none size_of bytes = (bytes, refl)
got-InType c buf size n (some s) size_of bytes =
    elim (Bool-cases (ltb n size && leb size (length buf))) [
      | inr over ↦ rw over (bytes, refl)
      | inl fits ↦
          let e = size_of s refl in
          rw fits (
            append-AreBytes (as_bytes s) (0 ∷ drop (length s + 1) buf) (as_bytes-AreBytes s)
                (omega arith, drop-AreBytes (length s + 1) buf bytes),
            ground (
              arith,
              fits,
              e,
              length-as_bytes s,
              length-append (as_bytes s) (0 ∷ drop (length s + 1) buf),
              length-drop (length s + 1) buf,
            ),
          )
    ]

get_string-InType :
    (c : Context) (buf : Bytes) (size : ℕ) (hi lo : Option ℕ)
    → AreBytes buf
    → AreBytes (got_length c buf size hi lo).1
      × (length (got_length c buf size hi lo).1 ≡ length buf)
get_string-InType c buf size none lo bytes = (bytes, refl)
get_string-InType c buf size (some hi) none bytes = (bytes, refl)
get_string-InType c buf size (some hi) (some lo) bytes =
    let n = hi * u8_mod + lo in
    got-InType c buf size n (fetch c.buffer (c.position + 2) n)
      (λ s e. length-fetch n c.buffer s (c.position + 2) e) bytes

pub byte_cmp-ReadsInType : ReadsInType byte_cmp
byte_cmp-ReadsInType = record {
  read_uchar = λ c old h. omega arith;
  read_uint = λ c old h. omega arith;
  read_str = λ c s size bytes.
      get_string-InType c s size (get_elem? c.buffer c.position)
        (get_elem? c.buffer (c.position + 1)) bytes;
}

pub byte_cmp-WritesBool : WritesBool byte_cmp
byte_cmp-WritesBool = record {
  position = λ c b there le. refl;
  in_place = λ c b. length-store (b ∷ []) c.buffer c.position;
}
