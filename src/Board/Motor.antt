-- ===== src/Board/Motor.antt =====
-- platform/motor-board-v1/platform.h, platform.c and the addresses of its linkerscript.ld.
use bootloader_proposal.Base.{ℕ, ◌+◌, ◌*◌, ◌^◌, true, false, List, [], ◌∷◌}
use bootloader_proposal.Board.{
  gpioa, gpiob, can1, mode_output, mode_af, pupd_none, otype_pp, CanSetup, Call,
  rcc_periph_clock_enable, gpio_mode_setup, gpio_set_output_options, gpio_set_af, gpio_clear,
  can_init, can_filter_id_mask_32bit_init, Board, make, Crash, rebooted, timeout_timer_init,
}
use bootloader_proposal.Board.Clock.{clock_72mhz, rcc_clock_setup_hse}
use bootloader_proposal.Command.Types.{
  boot_arg_start_bootloader, boot_arg_start_bootloader_no_timeout,
}
use bootloader_proposal.Config.{codes}
use bootloader_proposal.World.{Platform, World, Run, reset, ◌>>=◌}

abbrev pub platform : Platform
platform = record {
  app_addr = 0x08003800;
  config1_addr = 0x08002800;
  config2_addr = 0x08003000;
  config_page_size = 2048;
  flash_page_size = 2048;
  device_class = codes "motor-board-v1";
}

abbrev pub can_setup : CanSetup
can_setup = record {
  ttcm = false;
  abom = true;
  awum = false;
  nart = false;
  rflm = false;
  txfp = true;
  sjw = 1;
  ts1 = 10;
  ts2 = 7;
  brp = 2;
  loopback = false;
  silent = false;
}

-- Any standard identifier with its bits 10 to 8 zero, and no remote request, passes.
abbrev pub filter_mask : ℕ
filter_mask = 6 + 7 * 2 ^ 29

abbrev pub can_interface_init : List Call
can_interface_init =
    rcc_periph_clock_enable can1
    ∷ can_init can1 can_setup
    ∷ can_filter_id_mask_32bit_init can1 0 0 filter_mask 0 true
    ∷ []

abbrev pub fault_handler : Board → Crash
fault_handler b = rebooted boot_arg_start_bootloader_no_timeout b

abbrev led : ℕ
led = 1

abbrev can_speed : ℕ
can_speed = 4

abbrev can_rx : ℕ
can_rx = 8

abbrev can_tx : ℕ
can_tx = 9

-- `platform_main` up to its call of `bootloader_main`
unfoldable pub set_up : (reload : ℕ) → Board → Board
unfolding timeout_timer_init
set_up reload b =
    let b = make (rcc_clock_setup_hse clock_72mhz) b in
    let b =
      make
        (rcc_periph_clock_enable gpioa
          ∷ rcc_periph_clock_enable gpiob
          ∷ gpio_mode_setup gpiob mode_af pupd_none (can_rx ∷ can_tx ∷ [])
          ∷ gpio_set_output_options gpiob otype_pp 100 (can_rx ∷ can_tx ∷ [])
          ∷ gpio_set_af gpiob 9 (can_rx ∷ can_tx ∷ [])
          ∷ gpio_mode_setup gpioa mode_output pupd_none (can_speed ∷ [])
          ∷ gpio_set_output_options gpioa otype_pp 100 (can_speed ∷ [])
          ∷ gpio_clear gpioa (can_speed ∷ [])
          ∷ gpio_mode_setup gpioa mode_output pupd_none (led ∷ [])
          ∷ gpio_set_output_options gpioa otype_pp 100 (led ∷ [])
          ∷ gpio_clear gpioa (led ∷ [])
          ∷ [])
        b in
    let b = timeout_timer_init reload 72000000 10000 b in make can_interface_init b

-- The parameter is `bootloader_main` on a board.
unfoldable pub platform_main :
    (reload : ℕ) (bootloader_main : ℕ → Board → Run World) (arg : ℕ) → Board → Run World
unfolding set_up
platform_main reload bootloader_main arg b =
    bootloader_main arg (set_up reload b) >>= λ w. reset boot_arg_start_bootloader w
