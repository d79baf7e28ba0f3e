-- ===== src/Can.antt =====
-- can_interface.h and platform/mcu/stm32f3/can_interface.c. The controller is hardware: how long an
-- attempt to send takes, whether it is reported as successful, and when a message is in the receive
-- FIFO, are functions of the attempt's and the poll's number. So every attempt of this model ends; the
-- source waits without a bound, and where a transmission does not complete it hangs there.
-- Can/Stm32f4, which differs in the source by the name of the peripheral only, is over the registers.
pub mod Retries
pub mod Stm32f4
use bootloader_proposal.Base.{
  ℕ, zero, suc, ◌+◌, Bool, true, false, Option, none, some, List, [], ◌∷◌, ◌++◌, if◌then◌else◌,
  Bytes,
}

-- a frame with a standard identifier
pub record Frame : Type 0 where
  pub id : ℕ
  pub bytes : Bytes

-- the transmit side: how many reads of CAN_TSR find RQCP0 clear in an attempt, whether TXOK0 is set
-- behind it, the attempts and the reads so far, and the frames that went out, oldest first
pub record Bus : Type 0 where
  pub busy : ℕ → ℕ
  pub txok : ℕ → Bool
  pub attempts : ℕ
  pub reads : ℕ
  pub wire : List Frame

-- `while((CAN_TSR(CAN) & CAN_TSR_RQCP0) == 0);` where so many reads find it clear: the reads made
abbrev pub busy_wait : ℕ → ℕ
busy_wait zero = 1
busy_wait (suc busy) = busy_wait busy + 1

-- `can_transmit`, the wait, and the test of `CAN_TSR_TXOK0`
unfoldable pub transmit : Frame → Bus → Bool × Bus
transmit f b =
    let ok = b.txok b.attempts in
    (
      ok,
      record b {
        attempts = b.attempts + 1;
        reads = b.reads + busy_wait (b.busy b.attempts);
        wire = if ok then b.wire ++ f ∷ [] else b.wire;
      },
    )

-- `do { ... } while (retries-- > 0)`
unfoldable pub send_message : ℕ → Frame → Bus → Bool × Bus
unfolding transmit
send_message zero f b = transmit f b
send_message (suc retries) f b =
    let (ok, b') = transmit f b in
    let rest = send_message retries f b' in if ok then (true, b') else rest

-- `while (retries-- != 0 && FIFO empty);` from poll `n` on: the number of the next poll
unfoldable pub wait_message : (pending : ℕ → Bool) → ℕ → ℕ → ℕ
wait_message pending zero n = n
wait_message pending (suc retries) n =
    let rest = wait_message pending retries (n + 1) in if pending n then n + 1 else rest

-- `can_interface_read_message`, with the frame that the FIFO holds when it holds one
unfoldable pub read_message : (pending : ℕ → Bool) → Frame → ℕ → Option Frame
unfolding wait_message
read_message pending f retries = if pending (wait_message pending retries 0) then some f else none
