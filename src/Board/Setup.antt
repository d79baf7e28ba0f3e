-- ===== src/Board/Setup.antt =====
-- The set-up of the boards against the rules of the reference manuals, and the CAN bit rate.
use bootloader_proposal.Base.{
  ℕ, ◌+◌, ◌*◌, ◌/◌, ◌≡◌, Bool, true, false, Option, none, some, List, [], ◌∷◌, ◌||◌, ◌&&◌, not, leb,
}
use bootloader_proposal.Board.{
  Periph, gpioa, gpiob, gpioc, gpiod, can1, hse, pll, Call, rcc_wait_for_osc_not_ready,
  rcc_set_hpre, rcc_set_ppre1, rcc_osc_on, rcc_wait_for_osc_ready, rcc_osc_off,
  rcc_set_sysclk_source, rcc_wait_for_sysclk_status, rcc_set_pll_source, write_cfgr, write_prediv,
  flash_set_ws, rcc_periph_clock_enable, gpio_mode_setup, gpio_set_output_options, gpio_set_af,
  gpio_set, gpio_clear, can_init, can_filter_id_mask_32bit_init, Board,
}
use bootloader_proposal.Board.Each.{Kind, olimex_e407}

abbrev same : Periph → Periph → Bool
same gpioa gpioa = true
same gpiob gpiob = true
same gpioc gpioc = true
same gpiod gpiod = true
same can1 can1 = true
same p q = false

-- Is the clock of a peripheral on, after those that were enabled?
abbrev is_on : Periph → List Periph → Bool
is_on p [] = false
is_on p (q ∷ on) = same p q || is_on p on

abbrev used : Call → Option Periph
used (gpio_mode_setup p mode pull pins) = some p
used (gpio_set_output_options p drive mhz pins) = some p
used (gpio_set_af p n pins) = some p
used (gpio_set p pins) = some p
used (gpio_clear p pins) = some p
used (can_init p s) = some p
used (can_filter_id_mask_32bit_init p filter id mask fifo enable) = some p
used c = none

-- A peripheral is used only after its clock is enabled.
abbrev pub is_clocked : List Periph → List Call → Bool
is_clocked on [] = true
is_clocked on (rcc_periph_clock_enable p ∷ cs) = is_clocked (p ∷ on) cs
is_clocked on (c ∷ cs) = elim (used c) [
  | none ↦ is_clocked on cs
  | some p ↦ is_on p on && is_clocked on cs
]

-- the crystal and the PLL, and whether the flash has wait states for its frequency
pub record Pll : Type 0 where
  pub crystal : Bool
  pub crystal_ready : Bool
  pub on : Bool
  -- the flag of the PLL as the program has last waited for it
  pub ready : Bool
  pub stopped : Bool
  pub waits : Bool
  -- the crystal is selected for the system, and the PLL may drive it
  pub selected : Bool
  pub driving : Bool

-- The crystal drives the system or the PLL only when it is ready. The PLL is switched off only when
-- it does not drive the system, is changed only when it has stopped, and drives the system only
-- when it is ready and the flash has its wait states.
abbrev pub is_pll_safe : Pll → List Call → Bool
is_pll_safe s [] = true
is_pll_safe s (rcc_osc_on hse ∷ cs) =
    is_pll_safe (record s { crystal = true; crystal_ready = false }) cs
is_pll_safe s (rcc_wait_for_osc_ready hse ∷ cs) =
    is_pll_safe (record s { crystal_ready = s.crystal }) cs
is_pll_safe s (rcc_set_sysclk_source hse ∷ cs) =
    s.crystal_ready && is_pll_safe (record s { selected = true }) cs
is_pll_safe s (rcc_wait_for_sysclk_status hse ∷ cs) =
    is_pll_safe (record s { driving = not s.selected && s.driving }) cs
is_pll_safe s (rcc_osc_on pll ∷ cs) =
    s.crystal_ready && is_pll_safe (record s { on = true; ready = false; stopped = false }) cs
is_pll_safe s (rcc_osc_off pll ∷ cs) =
    not s.driving && is_pll_safe (record s { on = false; ready = false; stopped = false }) cs
is_pll_safe s (rcc_wait_for_osc_ready pll ∷ cs) = is_pll_safe (record s { ready = s.on }) cs
is_pll_safe s (rcc_wait_for_osc_not_ready pll ∷ cs) =
    is_pll_safe (record s { stopped = not s.on }) cs
is_pll_safe s (rcc_set_pll_source o ∷ cs) = s.stopped && is_pll_safe s cs
is_pll_safe s (write_cfgr n b ∷ cs) = s.stopped && is_pll_safe s cs
is_pll_safe s (write_prediv n ∷ cs) = s.stopped && is_pll_safe s cs
is_pll_safe s (flash_set_ws prefetch n ∷ cs) = is_pll_safe (record s { waits = leb 2 n }) cs
is_pll_safe s (rcc_set_sysclk_source pll ∷ cs) =
    s.ready && s.waits && is_pll_safe (record s { selected = false; driving = true }) cs
is_pll_safe s (c ∷ cs) = is_pll_safe s cs

-- The program may be started again with the PLL driving the system.
abbrev unknown : Pll
unknown = record {
  crystal = false;
  crystal_ready = false;
  on = true;
  ready = false;
  stopped = false;
  waits = false;
  selected = false;
  driving = true;
}

-- what the calls leave in the dividers and multipliers, and in the bit timing of the CAN controller
pub record Rate : Type 0 where
  pub prediv : ℕ
  pub pllmul : ℕ
  pub hpre : ℕ
  pub ppre1 : ℕ
  pub timing : ℕ

-- A bit is one quantum and the two segments; the prescaler divides the clock to quanta.
abbrev rate_of : Rate → List Call → Rate
rate_of r [] = r
rate_of r (write_prediv n ∷ cs) = rate_of (record r { prediv = n }) cs
rate_of r (write_cfgr n b ∷ cs) = rate_of (record r { pllmul = n }) cs
rate_of r (rcc_set_hpre n ∷ cs) = rate_of (record r { hpre = n }) cs
rate_of r (rcc_set_ppre1 n ∷ cs) = rate_of (record r { ppre1 = n }) cs
rate_of r (can_init p s ∷ cs) = rate_of (record r { timing = s.brp * (1 + s.ts1 + s.ts2) }) cs
rate_of r (c ∷ cs) = rate_of r cs

abbrev at_reset : Rate
at_reset = record { prediv = 1; pllmul = 2; hpre = 1; ppre1 = 1; timing = 0 }

-- The frequency of the bus of the CAN controller: on an STM32F3 that of the crystal of 16 MHz behind
-- the PLL and the dividers.
abbrev pub apb1 : Kind → (apb1_of_f4 : ℕ) → Rate → ℕ
apb1 olimex_e407 f r = f
apb1 kind f r = 16000000 / r.prediv * r.pllmul / r.hpre / r.ppre1

pub record IsSound (kind : Kind) (apb1_of_f4 : ℕ) (calls : List Call) : Type 0 where
  pub clocked : is_clocked [] calls ≡ true
  pub pll_safe : is_pll_safe unknown calls ≡ true
  pub bit_rate :
      1000000 * (rate_of at_reset calls).timing ≡ apb1 kind apb1_of_f4 (rate_of at_reset calls)
