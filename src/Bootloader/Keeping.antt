-- ===== src/Bootloader/Keeping.antt =====
-- Predicates on the world along a run of the main loop.
use bootloader_proposal.Base.{ℕ, inr, Bool, ◌≤◌, ◌<◌, List, length, Bytes, u32_mod}
use bootloader_proposal.Bootloader.Node.{Node, Event, Stack, execute, run_loop}
use bootloader_proposal.Bootloader.Walk.{run_loop-Keeps}
use bootloader_proposal.Cmp.{WritesInPlace}
use bootloader_proposal.Command.Types.{Parts}
use bootloader_proposal.Command.Keeping.{KeepsFlash, execute-Keeps}
use bootloader_proposal.Command.Redundancy.{Disjoint, IsKept}
use bootloader_proposal.Command.Below.{AreBefore, KeepsBelow, KeptWithin}
use bootloader_proposal.Command.Unbroken.{commands-KeepsFlash}
use bootloader_proposal.World.{
  world-Ends, Ends-world, Ends, Ends-bind, World, FlashEvent, Leaves, KeepsToPages,
}

module _ (parts : Parts) (stack : Stack) (P : World → Type 0) (k : KeepsFlash parts P) where
  execute-Ends : (n : Node) → P n.world → Ends (λ r. P r.1.world) P (execute parts stack n)
  unfolding execute
  execute-Ends n h =
      Ends-bind (λ r. P r.1.world) (λ r. P r.1.world) P _ _
        (world-Ends P (λ r. r.1.world) _
          (execute-Keeps parts P k n.datagram.payload n.datagram.data_len n.output_buf
            (length n.output_buf) n.config n.world h))
        (λ r h'. h')

  pub run_loop-Leaves :
      (es : List Event) (n : Node) → P n.world → Leaves (λ n. n.world) P (run_loop parts stack es n)
  run_loop-Leaves es n h =
      Ends-world P (λ n. n.world) _
        (run_loop-Keeps parts stack (λ n. P n.world) P
          (record {
            read = λ n first bs dt h' e. h';
            restart = λ n h'. h';
            stop = λ n h'. h';
            run = execute-Ends;
            send = λ n b h'. h';
            leave = λ n h'. h';
          })
          es n h)

-- Whatever frames come, whatever sends fail, and whenever the timeout is reached: where one of the
-- two configuration pages is valid in every state of memory so far, one is valid in every state up
-- to the end of the run or the reset, also between an erase and a write, or an erase or a write was
-- not within the flash. The two pages are disjoint and before the application; an erase or a write
-- of a page changes nothing outside it, and one at or behind the application's address and within
-- the flash nothing before it; CRCs have 32 bits and fit a page, and MessagePack is written in
-- place. After an access outside an object nothing is said.
pub run_loop-IsKept :
    (parts : Parts) (stack : Stack) (IsPage : ℕ → Type 0)
    → KeepsToPages parts.flash parts.platform.config_page_size IsPage
    → IsPage parts.platform.config1_addr
    → IsPage parts.platform.config2_addr
    → Disjoint parts.platform.config_page_size parts.platform.config1_addr
        parts.platform.config2_addr
    → AreBefore parts
    → (within : FlashEvent → Bool) → KeepsBelow parts.flash parts.platform.app_addr within
    → WritesInPlace parts.cmp
    → ((c : ℕ) (bs : Bytes) → parts.crc32 c bs < u32_mod)
    → 4 ≤ parts.platform.config_page_size
    → (es : List Event) (n : Node) → IsKept parts n.world
    → Leaves (λ n'. n'.world) (KeptWithin parts within) (run_loop parts stack es n)
run_loop-IsKept parts stack IsPage keeps page₁ page₂ apart before within below writes crc_word
      holds_crc es n k =
    run_loop-Leaves parts stack (KeptWithin parts within)
      (commands-KeepsFlash parts before within below IsPage keeps page₁ page₂ apart writes crc_word
        holds_crc)
      es n (inr k)
