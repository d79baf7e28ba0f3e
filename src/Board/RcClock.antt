-- ===== src/Board/RcClock.antt =====
-- The clock of rc-board-v1, in its platform.c, whose `my_clock_scale_t` is that of motor-board-v1.
use bootloader_proposal.Base.{ℕ, true, List, [], ◌∷◌, ◌++◌}
use bootloader_proposal.Board.Clock.{ClockScale}
use bootloader_proposal.Board.{
  hse, pll, Call, rcc_osc_on, rcc_wait_for_osc_ready, rcc_osc_off, rcc_wait_for_osc_not_ready,
  rcc_set_sysclk_source, rcc_wait_for_sysclk_status, rcc_set_pll_source, write_cfgr, write_prediv,
  write_apb1_frequency, write_apb2_frequency, rcc_set_hpre, rcc_set_ppre1, rcc_set_ppre2,
  flash_set_ws,
}

abbrev pub clock_72mhz : ClockScale
clock_72mhz = record {
  pllpre = 2;
  pllmul = 9;
  pllsrc = hse;
  hpre = 1;
  ppre1 = 2;
  ppre2 = 1;
  power_save = 1;
  prefetch = true;
  latency = 2;
  apb1_frequency = 36000000;
  apb2_frequency = 72000000;
}

-- The write of RCC_CFGR sets the multiplier and the bit RCC_CFGR_PLLSRC, and keeps the other bits.
abbrev pub rcc_set_main_pll_hse : ℕ → List Call
rcc_set_main_pll_hse n = write_cfgr n true ∷ []

abbrev pub rcc_clock_setup_hse : ClockScale → List Call
rcc_clock_setup_hse clock =
    rcc_osc_on hse
    ∷ rcc_wait_for_osc_ready hse
    ∷ rcc_set_sysclk_source hse
    ∷ rcc_wait_for_sysclk_status hse
    ∷ rcc_osc_off pll
    ∷ rcc_wait_for_osc_not_ready pll
    ∷ rcc_set_pll_source clock.pllsrc
    ∷ (rcc_set_main_pll_hse clock.pllmul
        ++ (write_prediv clock.pllpre
            ∷ rcc_osc_on pll
            ∷ rcc_wait_for_osc_ready pll
            ∷ rcc_set_hpre clock.hpre
            ∷ rcc_set_ppre2 clock.ppre2
            ∷ rcc_set_ppre1 clock.ppre1
            ∷ flash_set_ws clock.prefetch clock.latency
            ∷ rcc_set_sysclk_source pll
            ∷ rcc_wait_for_sysclk_status pll
            ∷ write_apb1_frequency clock.apb1_frequency
            ∷ write_apb2_frequency clock.apb2_frequency
            ∷ []))
