-- ===== src/Can/Stm32f4/Received.antt =====
-- Receiving by the CAN driver of the STM32F4: the frames in the order of the FIFO.
use bootloader_proposal.Base.{ℕ, ◌≤◌, ◌≡◌, ◌↔◌, Option, some, none, List, [], ◌∷◌, ◌++◌, ◌⊎◌}
use bootloader_proposal.Can.{Frame}
use bootloader_proposal.Can.Stm32f4.{Controller, can_interface_read_message}

-- Frames that arrive go behind those that the FIFO holds.
abbrev pub Grows : List Frame → List Frame → Type 0
Grows fs fs' = (more : List Frame) × (fs' ≡ fs ++ more)

-- What arrives goes behind what the FIFO holds, where one of its three places is free; else the FIFO
-- overruns, which is counted here. FMP0 is zero just if the FIFO is empty, and `can_receive` takes the
-- oldest frame.
pub record Receives (can : Controller) : Type 0 where
  pub fifo : can.State → List Frame
  pub overruns : can.State → ℕ
  pub counted : (s : can.State) → overruns s ≤ overruns (can.rf0r_fmp0 s).1
  pub counted_on : (s : can.State) → overruns s ≤ overruns (can.can_receive s).1
  pub grows :
      (s : can.State)
      → overruns (can.rf0r_fmp0 s).1 ≡ overruns s
      → Grows (fifo s) (fifo (can.rf0r_fmp0 s).1)
  pub counts : (s : can.State) → ((can.rf0r_fmp0 s).0 ≡ 0) ↔ (fifo (can.rf0r_fmp0 s).1 ≡ [])
  pub takes :
      (s : can.State) (f : Frame) (fs : List Frame)
      → fifo s ≡ f ∷ fs
      → overruns (can.can_receive s).1 ≡ overruns s
      → Grows fs (fifo (can.can_receive s).1)
  pub oldest :
      (s : can.State) (f : Frame) (fs : List Frame) → fifo s ≡ f ∷ fs → (can.can_receive s).0 ≡ f

abbrev pub taken : Option Frame → List Frame
taken none = []
taken (some f) = f ∷ []

-- What a call has returned stands before what the FIFO then holds, if it does not overrun.
record Takes (can : Controller) (r : Receives can) (s : can.State) (o : Option Frame)
    (s' : can.State) : Type 0 where
  counted : r.overruns s ≤ r.overruns s'
  in_order : r.overruns s' ≡ r.overruns s → Grows (r.fifo s) (taken o ++ r.fifo s')
  found : ((f : Frame) × (o ≡ some f)) ⊎ (r.fifo s' ≡ [])

-- the calls of the main loop, each with its number of retries: the frames that they return
unfoldable pub received : (can : Controller) → List ℕ → can.State → List Frame × can.State
unfolding can_interface_read_message
received can [] s = ([], s)
received can (retries ∷ rest) s =
    let (o, s') = can_interface_read_message can retries s in
    let (fs, s'') = received can rest s' in (taken o ++ fs, s'')
