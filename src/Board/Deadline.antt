-- ===== src/Board/Deadline.antt =====
-- The timeouts that the boards set up.
use bootloader_proposal.Base.{ℕ, ◌+◌, ◌-◌, ◌*◌, ◌≤◌, ◌<◌, ◌≡◌, ◌↔◌, true, List, ◌∷◌, arith, u32_mod}
use bootloader_proposal.Board.{Board, timeout_timer_init}
use bootloader_proposal.Board.Each.{Kind, motor_board_v1, rc_board_v1, olimex_e407, set_up_of}
use bootloader_proposal.Timeout.{
  Reading, CountsDown, Within, total, poll, passed, timeout_reached, timeout_reached-total,
}

-- the ticks at 72 or 168 MHz of the milliseconds that the comments give, and one more
abbrev pub deadline : Kind → ℕ
deadline motor_board_v1 = (10000 + 1) * 72000
deadline rc_board_v1 = (3000 + 1) * 72000
deadline olimex_e407 = (10000 + 1) * 168000

-- Each number is the ticks between two calls of `timeout_reached`. After the set-up of a board, a
-- call is true just if all ticks since the counter was at its reload value, less `lag` for each
-- call, make the board's timeout, and this number is reached before the count wraps: 10 seconds on
-- motor-board-v1 and olimex-e407, 3 seconds on rc-board-v1, and one millisecond. Behind a write of
-- the reload value to STK_CVR the counter starts there after `lag` ticks, the value and the flag
-- then give the ticks up to a given number, no more of them pass between two calls, and the ticks
-- fit in 32 bits.
pub set_up-deadline :
    (kind : Kind) (reload : ℕ) (reads : (written since : ℕ) → Reading) (lag most : ℕ) (b : Board)
    (ns : List ℕ) (n : ℕ)
    → CountsDown reload reads lag most
    → b.timer.sys_ticks ≡ 0
    → Within reload reads lag most (n ∷ ns)
    → total reload reads lag ns + (n - lag) < u32_mod
    → let (t, k) =
        poll reload reads ns
          (set_up_of kind reload b).timer
          (record { written = reload; since = 0 }) in
      (deadline kind < u32_mod)
      × (((timeout_reached reload reads t (passed reload reads n k)).0 ≡ true)
          ↔ (deadline kind ≤ total reload reads lag ns + (n - lag)))
unfolding set_up_of timeout_timer_init
set_up-deadline motor_board_v1 reload reads lag most b ns n counts start range small = (
  omega arith,
  timeout_reached-total reload reads lag most counts ns n (set_up_of motor_board_v1 reload b).timer
      range start small (omega arith),
)
set_up-deadline rc_board_v1 reload reads lag most b ns n counts start range small = (
  omega arith,
  timeout_reached-total reload reads lag most counts ns n (set_up_of rc_board_v1 reload b).timer
      range start small (omega arith),
)
set_up-deadline olimex_e407 reload reads lag most b ns n counts start range small = (
  omega arith,
  timeout_reached-total reload reads lag most counts ns n (set_up_of olimex_e407 reload b).timer
      range start small (omega arith),
)
