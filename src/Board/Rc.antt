-- ===== src/Board/Rc.antt =====
-- platform/rc-board-v1/platform.h, platform.c and the addresses of its linkerscript.ld.
use bootloader_proposal.Base.{ℕ, true, false, List, [], ◌∷◌}
use bootloader_proposal.Board.{
  gpioa, gpioc, can1, mode_output, mode_af, pupd_none, otype_pp, CanSetup, Call,
  rcc_periph_clock_enable, gpio_mode_setup, gpio_set_output_options, gpio_set_af, gpio_set,
  gpio_clear, can_init, can_filter_id_mask_32bit_init, Board, make, Crash, stopped,
  timeout_timer_init,
}
use bootloader_proposal.Board.RcClock.{clock_72mhz, rcc_clock_setup_hse}
use bootloader_proposal.Command.Types.{boot_arg_start_bootloader}
use bootloader_proposal.Config.{codes}
use bootloader_proposal.World.{Platform, World, Run, reset, ◌>>=◌}

abbrev pub platform : Platform
platform = record {
  app_addr = 0x08003800;
  config1_addr = 0x08002800;
  config2_addr = 0x08003000;
  config_page_size = 2048;
  flash_page_size = 2048;
  device_class = codes "rc-baord-v1";
}

abbrev pub can_setup : CanSetup
can_setup = record {
  ttcm = false;
  abom = true;
  awum = false;
  nart = false;
  rflm = false;
  txfp = true;
  sjw = 1;
  ts1 = 10;
  ts2 = 7;
  brp = 2;
  loopback = false;
  silent = false;
}

-- Any standard identifier, and no remote request, passes.
abbrev pub filter_mask : ℕ
filter_mask = 6

abbrev pub can_interface_init : List Call
can_interface_init =
    rcc_periph_clock_enable can1
    ∷ rcc_periph_clock_enable gpioa
    ∷ gpio_mode_setup gpioa mode_output pupd_none (8 ∷ [])
    ∷ gpio_set_output_options gpioa otype_pp 100 (8 ∷ [])
    ∷ gpio_clear gpioa (8 ∷ [])
    ∷ gpio_mode_setup gpioa mode_af pupd_none (11 ∷ 12 ∷ [])
    ∷ gpio_set_output_options gpioa otype_pp 100 (11 ∷ 12 ∷ [])
    ∷ gpio_set_af gpioa 9 (11 ∷ 12 ∷ [])
    ∷ can_init can1 can_setup
    ∷ can_filter_id_mask_32bit_init can1 0 0 filter_mask 0 true
    ∷ []

-- The loop `while(1)` comes before the reboot.
abbrev pub fault_handler : Board → Crash
fault_handler b = stopped (make (gpio_set gpioc (15 ∷ []) ∷ []) b)

-- `platform_main` up to its call of `bootloader_main`
unfoldable pub set_up : (reload : ℕ) → Board → Board
unfolding timeout_timer_init
set_up reload b =
    let b = make (rcc_clock_setup_hse clock_72mhz) b in
    let b =
      make
        (rcc_periph_clock_enable gpioc
          ∷ gpio_mode_setup gpioc mode_output pupd_none (13 ∷ 14 ∷ 15 ∷ [])
          ∷ gpio_set_output_options gpioc otype_pp 100 (13 ∷ 14 ∷ 15 ∷ [])
          ∷ gpio_set gpioc (13 ∷ [])
          ∷ [])
        b in
    let b = timeout_timer_init reload 72000000 3000 b in make can_interface_init b

-- The parameter is `bootloader_main` on a board.
unfoldable pub platform_main :
    (reload : ℕ) (bootloader_main : ℕ → Board → Run World) (arg : ℕ) → Board → Run World
unfolding set_up
platform_main reload bootloader_main arg b =
    bootloader_main arg (set_up reload b) >>= λ w. reset boot_arg_start_bootloader w
