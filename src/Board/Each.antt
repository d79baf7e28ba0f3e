-- ===== src/Board/Each.antt =====
-- The three boards side by side.
use bootloader_proposal.Base.{ℕ}
use bootloader_proposal.Board.{Board}
use bootloader_proposal.Board.Motor
use bootloader_proposal.Board.Rc
use bootloader_proposal.Board.Olimex
use bootloader_proposal.World.{Platform}

pub data Kind : Type 0 where
  motor_board_v1 rc_board_v1 olimex_e407 : Kind

abbrev pub platform_of : Kind → Platform
platform_of motor_board_v1 = Motor.platform
platform_of rc_board_v1 = Rc.platform
platform_of olimex_e407 = Olimex.platform

unfoldable pub set_up_of : Kind → ℕ → Board → Board
unfolding Motor.set_up Rc.set_up Olimex.set_up
set_up_of motor_board_v1 = Motor.set_up
set_up_of rc_board_v1 = Rc.set_up
set_up_of olimex_e407 = Olimex.set_up
