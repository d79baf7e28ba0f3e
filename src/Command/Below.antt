-- ===== src/Command/Below.antt =====
-- Changes of flash at or behind the application's address, and the configuration pages.
use bootloader_proposal.Base.{
  ℕ, ◌+◌, ◌≤◌, ◌<◌, ◌≡◌, ◌⊎◌, inl, inr, Bool, true, false, not, ◌||◌, Bool-cases, List, [], ◌∷◌,
  ◌++◌, arith, Bytes,
}
use bootloader_proposal.Command.Access.{erase_page, write_page}
use bootloader_proposal.Command.Types.{Parts, Session}
use bootloader_proposal.Command.Redundancy.{HasConfig, IsKept, ValidAt, bytes_at-eq}
use bootloader_proposal.World.{Memory, World, FlashWriter, FlashEvent, erased, wrote, All}

-- `n` agrees with `m` before an address.
abbrev pub SameBelow : ℕ → Memory → Memory → Type 0
SameBelow end m n = (a : ℕ) → a < end → n a ≡ m a

-- Is an erase or a write of the log none of those that are within the flash?
abbrev pub strayed : (FlashEvent → Bool) → List FlashEvent → Bool
strayed within [] = false
strayed within (e ∷ es) = not (within e) || strayed within es

-- What is asked of a flash writer for the application: an erase or a write at or behind its address
-- and within the flash changes nothing before it, at any moment.
pub record KeepsBelow (flash : FlashWriter) (app : ℕ) (within : FlashEvent → Bool) : Type 0 where
  pub erase_passing :
      (a : ℕ) (m : Memory)
      → app ≤ a
      → within (erased a) ≡ true
      → All (SameBelow app m) (flash.page_erase a m).passing
  pub erase_final :
      (a : ℕ) (m : Memory)
      → app ≤ a
      → within (erased a) ≡ true
      → SameBelow app m (flash.page_erase a m).final
  pub write_passing :
      (a : ℕ) (bs : Bytes) (m : Memory)
      → app ≤ a
      → within (wrote a bs) ≡ true
      → All (SameBelow app m) (flash.page_write a bs m).passing
  pub write_final :
      (a : ℕ) (bs : Bytes) (m : Memory)
      → app ≤ a
      → within (wrote a bs) ≡ true
      → SameBelow app m (flash.page_write a bs m).final

-- The configuration pages are before the application.
pub record AreBefore (parts : Parts) : Type 0 where
  pub first :
      parts.platform.config1_addr + parts.platform.config_page_size ≤ parts.platform.app_addr
  pub second :
      parts.platform.config2_addr + parts.platform.config_page_size ≤ parts.platform.app_addr

-- A configuration page was valid at every moment, or an erase or a write was not within the flash.
abbrev pub KeptWithin : Parts → (FlashEvent → Bool) → World → Type 0
KeptWithin parts within w = (strayed within w.events ≡ true) ⊎ IsKept parts w

module _ (parts : Parts) (before : AreBefore parts) (within : FlashEvent → Bool)
    (below : KeepsBelow parts.flash parts.platform.app_addr within) where
  open parts use {crc32, cmp, flash, platform}

  ValidAt-below :
      (a : ℕ) (m n : Memory)
      → a + platform.config_page_size ≤ platform.app_addr
      → SameBelow platform.app_addr m n
      → ValidAt parts a m
      → ValidAt parts a n
  ValidAt-below a m n le same v =
      rw (bytes_at-eq platform.config_page_size a m n (λ y lo hi. same y (omega arith))) v

  HasConfig-below :
      (m n : Memory) → SameBelow platform.app_addr m n → HasConfig parts m → HasConfig parts n
  HasConfig-below m n same (inl v) =
      inl (ValidAt-below platform.config1_addr m n before.first same v)
  HasConfig-below m n same (inr v) =
      inr (ValidAt-below platform.config2_addr m n before.second same v)

  All-below :
      (m : Memory) (ms hist : List Memory)
      → All (SameBelow platform.app_addr m) ms
      → HasConfig parts m
      → All (HasConfig parts) hist
      → All (HasConfig parts) (ms ++ hist)
  All-below m [] hist same v h = h
  All-below m (n ∷ ms) hist same v h =
      (HasConfig-below m n same.0 v, All-below m ms hist same.1 v h)

  erase_page-IsKept :
      (a : ℕ) (s : Session)
      → platform.app_addr ≤ a
      → within (erased a) ≡ true
      → IsKept parts s.world
      → IsKept parts (erase_page parts a s).world
  erase_page-IsKept a s le inside k =
      let m = s.world.memory in
      let now =
        HasConfig-below m (flash.page_erase a m).final (below.erase_final a m le inside) k.now in
      record {
        now = now;
        always = (
          now,
          All-below m (flash.page_erase a m).passing s.world.history
              (below.erase_passing a m le inside) k.now k.always,
        );
      }

  pub erase_page-KeptWithin :
      (a : ℕ) (s : Session)
      → platform.app_addr ≤ a
      → KeptWithin parts within s.world
      → KeptWithin parts within (erase_page parts a s).world
  erase_page-KeptWithin a s le (inl out) = inl (ground (arith, out))
  erase_page-KeptWithin a s le (inr k) = elim (Bool-cases (within (erased a))) [
    | inl inside ↦ inr (erase_page-IsKept a s le inside k)
    | inr out ↦ inl (ground (arith, out))
  ]

  write_page-IsKept :
      (a : ℕ) (bs : Bytes) (s : Session)
      → platform.app_addr ≤ a
      → within (wrote a bs) ≡ true
      → IsKept parts s.world
      → IsKept parts (write_page parts a bs s).world
  write_page-IsKept a bs s le inside k =
      let m = s.world.memory in
      let now =
        HasConfig-below m (flash.page_write a bs m).final (below.write_final a bs m le inside)
          k.now in
      record {
        now = now;
        always = (
          now,
          All-below m (flash.page_write a bs m).passing s.world.history
              (below.write_passing a bs m le inside) k.now k.always,
        );
      }

  pub write_page-KeptWithin :
      (a : ℕ) (bs : Bytes) (s : Session)
      → platform.app_addr ≤ a
      → KeptWithin parts within s.world
      → KeptWithin parts within (write_page parts a bs s).world
  write_page-KeptWithin a bs s le (inl out) = inl (ground (arith, out))
  write_page-KeptWithin a bs s le (inr k) = elim (Bool-cases (within (wrote a bs))) [
    | inl inside ↦ inr (write_page-IsKept a bs s le inside k)
    | inr out ↦ inl (ground (arith, out))
  ]
