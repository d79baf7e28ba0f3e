-- ===== src/Base/Words.antt =====
-- Bytes and 32-bit words, most significant byte first.
use bootloader_proposal.Base.Tests.{ltb}
use mathlib.Core.Bool.{Bool, true, ◌&&◌}
use mathlib.Core.Path.{◌≡◌}
use native.Mathlib.Omega.{arith}
use Prim.Native.Nat.{ℕ, zero, suc, ◌/◌, ◌%◌, ◌^◌, ◌<◌}
use mathlib.Core.List.{List, [], ◌∷◌, ◌++◌}
use bootloader_proposal.Base.Lists.{drop}

abbrev pub Bytes : Type 0
Bytes = List ℕ

abbrev pub u8_mod : ℕ
u8_mod = 2 ^ 8

abbrev pub u16_mod : ℕ
u16_mod = 2 ^ 16

abbrev pub u32_mod : ℕ
u32_mod = 2 ^ 32

-- The four bytes of a word, as `(x >> 24) & 0xff` and so on.
abbrev pub be32 : ℕ → Bytes
be32 x =
    (x / 2 ^ 24 % u8_mod) ∷ (x / 2 ^ 16 % u8_mod) ∷ (x / 2 ^ 8 % u8_mod) ∷ (x / 2 ^ 0 % u8_mod) ∷ []

-- Every element is a byte.
abbrev pub AreBytes : Bytes → Type 0
AreBytes [] = Unit {0}
AreBytes (b ∷ bs) = (b < u8_mod) × AreBytes bs

abbrev pub are_bytes : Bytes → Bool
are_bytes [] = true
are_bytes (b ∷ bs) = ltb b u8_mod && are_bytes bs

pub are_bytes→AreBytes : (bs : Bytes) → are_bytes bs ≡ true → AreBytes bs
are_bytes→AreBytes [] e = tt
are_bytes→AreBytes (b ∷ bs) e = (ground arith, are_bytes→AreBytes bs (ground arith))

pub drop-AreBytes : (n : ℕ) (xs : Bytes) → AreBytes xs → AreBytes (drop n xs)
drop-AreBytes zero xs bytes = bytes
drop-AreBytes (suc n) [] bytes = tt
drop-AreBytes (suc n) (x ∷ xs) bytes = drop-AreBytes n xs bytes.1

pub append-AreBytes : (xs ys : Bytes) → AreBytes xs → AreBytes ys → AreBytes (xs ++ ys)
append-AreBytes [] ys a b = b
append-AreBytes (x ∷ xs) ys a b = (a.0, append-AreBytes xs ys a.1 b)
