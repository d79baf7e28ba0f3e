-- ===== src/Board.antt =====
-- platform/<board>/platform.c: the calls of libopencm3 that set a board up, in their order. A constant
-- of libopencm3 is the number in its name (`RCC_CFGR_PLLMUL_PLL_IN_CLK_X9` is 9), and a set of pins is
-- the list of their numbers.
pub mod Clock
pub mod RcClock
pub mod Motor
pub mod Rc
pub mod Olimex
pub mod Each
pub mod Setup
pub mod Layout
pub mod Deadline
pub mod Filter
pub mod Kept
pub mod Saved
pub mod Persisted
pub mod Programmed
use bootloader_proposal.Base.{ℕ, Bool, List, [], ◌∷◌, ◌++◌}
use bootloader_proposal.Timeout.{Timer}
use bootloader_proposal.World.{World, Run, reset, ◌>>=◌}

pub data Periph : Type 0 where
  gpioa gpiob gpioc gpiod can1 : Periph

pub data Oscillator : Type 0 where
  hse pll : Oscillator

pub data Mode : Type 0 where
  mode_output mode_af : Mode

pub data Pull : Type 0 where
  pupd_none : Pull

pub data Drive : Type 0 where
  otype_pp : Drive

-- the arguments of `can_init` behind the interface, in their order
pub record CanSetup : Type 0 where
  pub ttcm : Bool
  pub abom : Bool
  pub awum : Bool
  pub nart : Bool
  pub rflm : Bool
  pub txfp : Bool
  pub sjw : ℕ
  pub ts1 : ℕ
  pub ts2 : ℕ
  pub brp : ℕ
  pub loopback : Bool
  pub silent : Bool

pub data Call : Type 0 where
  rcc_osc_on rcc_wait_for_osc_ready rcc_osc_off rcc_wait_for_osc_not_ready : Oscillator → Call
  rcc_set_sysclk_source rcc_wait_for_sysclk_status rcc_set_pll_source : Oscillator → Call
  -- writes to RCC_CFGR, RCC_CFGR2 and to the frequencies of libopencm3
  write_cfgr : (pllmul : ℕ) (pllsrc : Bool) → Call
  write_prediv write_apb1_frequency write_apb2_frequency : ℕ → Call
  rcc_set_hpre rcc_set_ppre1 rcc_set_ppre2 : ℕ → Call
  flash_set_ws : (prefetch : Bool) (latency : ℕ) → Call
  rcc_clock_setup_hse_3v3 : (crystal core : ℕ) → Call
  rcc_periph_clock_enable : Periph → Call
  gpio_mode_setup : Periph → Mode → Pull → List ℕ → Call
  gpio_set_output_options : Periph → Drive → (mhz : ℕ) → List ℕ → Call
  gpio_set_af : Periph → ℕ → List ℕ → Call
  gpio_set gpio_clear : Periph → List ℕ → Call
  can_init : Periph → CanSetup → Call
  can_filter_id_mask_32bit_init : Periph → (filter id mask fifo : ℕ) → Bool → Call
  systick_counter_enable systick_set_clocksource_ahb : Call
  systick_set_reload : ℕ → Call

-- the calls that were made, oldest first, and the variables of timeout_timer.c
pub record Board : Type 0 where
  pub calls : List Call
  pub timer : Timer

abbrev pub make : List Call → Board → Board
make cs b = record b { calls = b.calls ++ cs }

-- a crash handler ends in a reset, or in an endless loop
pub data Crash : Type 0 where
  rebooted : (arg : ℕ) → Board → Crash
  stopped : Board → Crash

-- `timeout_timer_init` with the reload value of libopencm3
unfoldable pub timeout_timer_init : (reload f_cpu timeout_ms : ℕ) → Board → Board
timeout_timer_init reload f_cpu timeout_ms b =
    make (systick_counter_enable ∷ systick_set_clocksource_ahb ∷ systick_set_reload reload ∷ [])
      (record b { timer = record b.timer { timer_freq = f_cpu; timeout_in_millisec = timeout_ms } })
