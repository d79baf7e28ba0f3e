-- ===== src/Tests/Atomic.antt =====
-- A run of the theorem on a loss of power while a configuration is saved.
use bootloader_proposal.Base.{
  are_bytes→AreBytes, ℕ, ◌+◌, ◌≡◌, inl, inr, refl, ap₂, ◌∙◌, some, List, [], ◌∷◌, ◌++◌, replicate,
  length-replicate, ==_refl, ne→==, suc, arith, AreBytes, Bytes,
}
use bootloader_proposal.Bootloader.Atomic.{Either, boot_config-atomic}
use bootloader_proposal.Command.Pages.{counted, filled_page, command_config_write_to_flash}
use bootloader_proposal.Command.Redundancy.{bytes_at-eq}
use bootloader_proposal.Command.Torn.{page_at, DetectsTorn}
use bootloader_proposal.Command.Types.{Session}
use bootloader_proposal.Config.{
  config_is_valid, config_write, config_write_messagepack, string_length,
}
use bootloader_proposal.Tests.Codec.{byte_cmp-WritesInPlace}
use bootloader_proposal.Tests.Loop.{stack}
use bootloader_proposal.Tests.Saved.{saving, toy-IsTerminated}
use bootloader_proposal.Tests.Toy.{
  sum, sum-word, over, bytes_at-over, at, AnyPage, page_flash-KeepsToPages, page_flash-StoresPages,
  toy, toy_world, toy_world-IsKept,
}
use bootloader_proposal.World.{Memory, bytes_at, done, All}

-- what fits on a page of 16 bytes: the CRC, the map, the ID, and the start of the name
abbrev page : Bytes
page = 0 ∷ 0 ∷ 2 ∷ 166 ∷ 6 ∷ 0 ∷ 2 ∷ 73 ∷ 68 ∷ 204 ∷ 5 ∷ 0 ∷ 4 ∷ 110 ∷ 97 ∷ 109 ∷ []

page_filled : filled_page toy (counted toy saving) ≡ some page
unfolding config_write config_write_messagepack string_length sum
page_filled = refl

page-AreBytes : AreBytes page
page-AreBytes = are_bytes→AreBytes page refl

abbrev erased : ℕ → Memory → Memory
erased a m = over a (replicate 16 255) m

erased_page : (a : ℕ) (m : Memory) → page_at toy a (erased a m) ≡ replicate 16 255
erased_page a m = bytes_at-over (replicate 16 255) a m

-- a page of which the first byte is written
begun :
    (n a : ℕ) (m : Memory)
    → bytes_at (over a (0 ∷ []) (over a (replicate (suc n) 255) m)) a (suc n) ≡ 0 ∷ replicate n 255
unfolding bytes_at over
begun n a m =
    let all = over (a + 1) (replicate n 255) (at a 255 m) in
    ap₂ ◌∷◌ (rw (==_refl a) refl) (
      bytes_at-eq n (a + 1) all (at a 0 all) (λ y lo hi. rw (ne→== y a (omega arith)) refl)
      ∙ rw (length-replicate {A = ℕ} n 255) at
          (bytes_at-over (replicate n 255) (a + 1) (at a 255 m)))

toy-DetectsTorn : DetectsTorn toy (λ a. page_at toy a toy_world.memory) page AnyPage
unfolding config_is_valid sum
toy-DetectsTorn = record {
  erase_passing = λ a m at h. tt;
  erase_final = λ a m at h. rw (erased_page a m) refl;
  write_passing = λ a m at h. (inr (rw (begun 15 a m) refl), tt);
}

boot_config-atomic_example :
    (s' : Session) × (since : List Memory) × (command_config_write_to_flash toy 0 saving ≡ done s')
    × (s'.world.history ≡ since ++ [])
    × All (Either toy stack (omega arith) toy_world toy_world.memory s'.world.memory) since
unfolding bytes_at
boot_config-atomic_example =
    boot_config-atomic toy AnyPage (page_flash-KeepsToPages 16) tt tt (inl (omega arith))
      byte_cmp-WritesInPlace sum-word (page_flash-StoresPages 16) (omega arith) stack 0 saving page
      toy-IsTerminated page_filled page-AreBytes toy-DetectsTorn toy_world-IsKept (λ v v'. refl)
