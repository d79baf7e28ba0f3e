-- ===== src/Config/Text.antt =====
-- The text of a buffer, up to its first zero, and configurations that say the same.
use bootloader_proposal.Base.{
  ℕ, zero, suc, ◌+◌, ◌≡◌, ap, some, Bool-cases, inl, inr, [], ◌∷◌, ◌++◌, take, arith, Bytes,
  if◌then◌else◌, ◌==◌, >>=-eq-some,
}
use bootloader_proposal.Config.{Config, string_length}

-- the text that a buffer holds, up to its first zero
pub text : Bytes → Bytes
text [] = []
text (x ∷ xs) = if x == 0 then [] else x ∷ text xs

pub text-take :
    (s : Bytes) (n : ℕ) (rest : Bytes)
    → string_length s ≡ some n
    → text (take n s ++ 0 ∷ rest) ≡ text s
unfolding text string_length
text-take [] n rest e = ground arith
text-take (x ∷ s) zero rest e = elim (Bool-cases (x == 0)) [
  | inl z ↦ rw z
  | inr nz ↦
      let (m, found, next) = >>=-eq-some (string_length s) (λ n. some (n + 1)) (rw nz at e) in
      ground arith
]
text-take (x ∷ s) (suc n) rest e = elim (Bool-cases (x == 0)) [
  | inl z ↦ ground (arith, rw z at e)
  | inr nz ↦
      let (m, found, next) = >>=-eq-some (string_length s) (λ n. some (n + 1)) (rw nz at e) in
      let same : m ≡ n = ground arith in
      rw nz (ap (λ xs. x ∷ xs) (text-take s n rest (rw same at found)))
]

-- Two configurations say the same, whatever stands behind the ends of their strings.
pub record SaysSame (a b : Config) : Type 0 where
  pub id : a.id ≡ b.id
  pub board_name : text a.board_name ≡ text b.board_name
  pub device_class : text a.device_class ≡ text b.device_class
  pub application_crc : a.application_crc ≡ b.application_crc
  pub application_size : a.application_size ≡ b.application_size
  pub update_count : a.update_count ≡ b.update_count
