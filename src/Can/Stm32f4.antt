-- ===== src/Can/Stm32f4.antt =====
-- platform/mcu/stm32f4/can_interface.c, over the calls and the registers of libopencm3 that it uses.
-- They are parameters; reading a register also lets time pass.
use bootloader_proposal.Base.{
  ℕ, zero, suc, ◌==◌, Bool, true, Option, none, some, ◌>>=◌, if◌then◌else◌,
}
use bootloader_proposal.Can.{Frame}
pub mod Received

-- the peripheral CAN1, its first transmit mailbox and its first receive FIFO
pub record Controller : Type 1 where
  pub State : Type 0
  pub can_transmit : Frame → State → State
  pub tsr_rqcp0 : State → Bool × State
  pub tsr_txok0 : State → Bool × State
  pub rf0r_fmp0 : State → ℕ × State
  pub can_receive : State → Frame × State

module _ (can : Controller) where
  -- `while((CAN_TSR(CAN1) & CAN_TSR_RQCP0) == 0);`
  unfoldable pub wait_completed : (fuel : ℕ) → can.State → Option can.State
  wait_completed zero s = none
  wait_completed (suc fuel) s =
      let (completed, s') = can.tsr_rqcp0 s in
      let rest = wait_completed fuel s' in if completed then some s' else rest

  -- the body of the loop, up to the test of `CAN_TSR_TXOK0`
  unfoldable pub attempt : (fuel : ℕ) → Frame → can.State → Option (Bool × can.State)
  unfolding wait_completed
  attempt fuel f s = wait_completed fuel (can.can_transmit f s) >>= λ s'. some (can.tsr_txok0 s')

  -- The number of the remaining retries is the structure of the recursion.
  unfoldable pub can_interface_send_message :
      (fuel retries : ℕ) → Frame → can.State → Option (Bool × can.State)
  unfolding attempt
  can_interface_send_message fuel zero f s = attempt fuel f s
  can_interface_send_message fuel (suc retries) f s = attempt fuel f s >>= λ r.
      let rest = can_interface_send_message fuel retries f r.1 in
      if r.0 then some (true, r.1) else rest

  -- `while(retries-- != 0 && (CAN_RF0R(CAN1) & CAN_RF0R_FMP0_MASK) == 0);`
  unfoldable pub wait_pending : (retries : ℕ) → can.State → can.State
  wait_pending zero s = s
  wait_pending (suc retries) s =
      let (pending, s') = can.rf0r_fmp0 s in
      let rest = wait_pending retries s' in if pending == 0 then rest else s'

  -- `none` is the result `false`, which leaves the output parameters as they are.
  unfoldable pub can_interface_read_message : (retries : ℕ) → can.State → Option Frame × can.State
  unfolding wait_pending
  can_interface_read_message retries s =
      let (pending, s') = can.rf0r_fmp0 (wait_pending retries s) in
      let (f, s'') = can.can_receive s' in if pending == 0 then (none, s') else (some f, s'')
