-- ===== src/Tests/Can.antt =====
-- Runs of the theorems on the CAN driver of the STM32F4, with a controller that is slow.
use bootloader_proposal.Base.{
  ℕ, zero, suc, ◌+◌, ◌≤◌, ◌≡◌, refl, ap, sym, Bool, true, false, List, [], ◌∷◌, ◌++◌, ◌==◌,
  append-nil, length, arith,
}
use bootloader_proposal.Can.{Frame, Bus, transmit}
use bootloader_proposal.Can.Stm32f4.{Controller}
use bootloader_proposal.Can.Stm32f4.Received.{Grows, Receives, received}

-- the reads before RQCP0 is set, what TXOK0 will say, the FIFO, and the frames to come
record Chip : Type 0 where
  bus : Bus
  busy : ℕ
  ok : Bool
  overruns : ℕ
  fifo : List Frame
  coming : List Frame

abbrev no_frame : Frame
no_frame = record { id = 0; bytes = [] }

abbrev step : Chip → ℕ → Bool × Chip
step c zero = (true, c)
step c (suc n) = (false, record c { busy = n })

-- A frame is kept where there is room for it, and else takes the place of the third.
abbrev arrived : Chip → Frame → List Frame → List Frame → Chip
arrived c f fs (x ∷ y ∷ z ∷ more) = record c {
  fifo = x ∷ y ∷ f ∷ [];
  coming = fs;
  overruns = c.overruns + 1;
}
arrived c f fs short = record c { fifo = short ++ f ∷ []; coming = fs }

abbrev arrive : Chip → List Frame → Chip
arrive c [] = c
arrive c (f ∷ fs) = arrived c f fs c.fifo

abbrev oldest : Chip → List Frame → Frame × Chip
oldest c [] = (no_frame, c)
oldest c (f ∷ fs) = (f, record c { fifo = fs })

abbrev chip : Controller
chip = record {
  State = Chip;
  can_transmit =
      λ f c. record c { bus = (transmit f c.bus).1; ok = (transmit f c.bus).0; busy = 2 };
  tsr_rqcp0 = λ c. step c c.busy;
  tsr_txok0 = λ c. (c.ok, c);
  rf0r_fmp0 = λ c. (length (arrive c c.coming).fifo, arrive c c.coming);
  can_receive = λ c. oldest c c.fifo;
}

arrived-counted :
    (c : Chip) (f : Frame) (fs fifo : List Frame) → c.overruns ≤ (arrived c f fs fifo).overruns
arrived-counted c f fs [] = omega arith
arrived-counted c f fs (x ∷ []) = omega arith
arrived-counted c f fs (x ∷ y ∷ []) = omega arith
arrived-counted c f fs (x ∷ y ∷ z ∷ more) = omega arith

arrive-counted : (c : Chip) (coming : List Frame) → c.overruns ≤ (arrive c coming).overruns
arrive-counted c [] = omega arith
arrive-counted c (f ∷ fs) = arrived-counted c f fs c.fifo

arrived-Grows :
    (c : Chip) (f : Frame) (fs fifo : List Frame)
    → (arrived c f fs fifo).overruns ≡ c.overruns
    → Grows fifo (arrived c f fs fifo).fifo
arrived-Grows c f fs [] same = (f ∷ [], refl)
arrived-Grows c f fs (x ∷ []) same = (f ∷ [], refl)
arrived-Grows c f fs (x ∷ y ∷ []) same = (f ∷ [], refl)
arrived-Grows c f fs (x ∷ y ∷ z ∷ more) same = absurd (omega arith)

arrive-Grows :
    (c : Chip) (coming : List Frame)
    → (arrive c coming).overruns ≡ c.overruns
    → Grows c.fifo (arrive c coming).fifo
arrive-Grows c [] same = ([], sym (append-nil c.fifo))
arrive-Grows c (f ∷ fs) same = arrived-Grows c f fs c.fifo same

oldest-counted : (c : Chip) (fifo : List Frame) → c.overruns ≤ (oldest c fifo).1.overruns
oldest-counted c [] = omega arith
oldest-counted c (f ∷ fs) = omega arith

no_length : (fs : List Frame) → length fs ≡ 0 → fs ≡ []
no_length [] e = refl
no_length (f ∷ fs) e = absurd (omega (arith, e))

oldest-takes :
    (c : Chip) (fifo : List Frame) (f : Frame) (fs : List Frame)
    → fifo ≡ f ∷ fs
    → ((oldest c fifo).0 ≡ f) × Grows fs (oldest c fifo).1.fifo
oldest-takes c fifo f fs e = rw e (refl, ([], sym (append-nil fs)))

abbrev receives : Receives chip
receives = record {
  fifo = λ c. c.fifo;
  overruns = λ c. c.overruns;
  counted = λ c. arrive-counted c c.coming;
  counted_on = λ c. oldest-counted c c.fifo;
  grows = λ c same. arrive-Grows c c.coming same;
  counts = λ c. (no_length (arrive c c.coming).fifo, λ e. ap length e);
  takes = λ c f fs e same. (oldest-takes c c.fifo f fs e).1;
  oldest = λ c f fs e. (oldest-takes c c.fifo f fs e).0;
}

abbrev one : Frame
one = record { id = 131; bytes = 1 ∷ 0 ∷ [] }

abbrev two : Frame
two = record { id = 3; bytes = 2 ∷ [] }

-- The bus takes the second attempt.
abbrev quiet : Chip
quiet = record {
  bus = record { busy = λ n. 2; txok = λ n. n == 1; attempts = 0; reads = 0; wire = [] };
  busy = 0;
  ok = false;
  overruns = 0;
  fifo = one ∷ [];
  coming = two ∷ [];
}

-- both frames are read, in their order
received_run : (received chip (1 ∷ 1 ∷ []) quiet).0 ≡ one ∷ two ∷ []
unfolding received
received_run = refl
