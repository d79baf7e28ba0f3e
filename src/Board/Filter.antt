-- ===== src/Board/Filter.antt =====
-- Which identifiers the filters of the boards let pass to the bootloader.
use bootloader_proposal.Base.{
  ℕ, zero, suc, ◌+◌, ◌*◌, ◌/◌, ◌%◌, ◌^◌, ◌<◌, ◌≡◌, refl, Bool, true, false, ◌&&◌, ◌||◌, List, [],
  ◌∷◌, ◌==◌, ltb, arith,
}
use bootloader_proposal.Board.{Board, Call, can_filter_id_mask_32bit_init, timeout_timer_init}
use bootloader_proposal.Board.Each.{Kind, motor_board_v1, rc_board_v1, olimex_e407, set_up_of}

-- `x & y` of numbers with `w` bits
abbrev pub bits_and : ℕ → ℕ → ℕ → ℕ
bits_and zero x y = 0
bits_and (suc w) x y = x % 2 * (y % 2) + 2 * bits_and w (x / 2) (y / 2)

-- A data frame with a standard identifier: the identifier is in bits 31 to 21 of the register, and the
-- bits for an extended identifier and for a remote request are zero. It passes an enabled filter where
-- the bits of the mask are those of the filter's identifier.
abbrev pub passes : (filter_id mask : ℕ) (enable : Bool) (id : ℕ) → Bool
passes filter_id mask enable id =
    enable && (bits_and 32 (id * 2 ^ 21) mask == bits_and 32 filter_id mask)

-- Is there a filter, among those that the calls set up, that it passes?
abbrev pub passes_all : List Call → ℕ → Bool
passes_all [] id = false
passes_all (can_filter_id_mask_32bit_init p filter filter_id mask fifo enable ∷ cs) id =
    passes filter_id mask enable id || passes_all cs id
passes_all (c ∷ cs) id = passes_all cs id

masked : (id : ℕ) → id < 2 ^ 11 → bits_and 32 (id * 2 ^ 21) (6 + 7 * 2 ^ 29) ≡ id / 2 ^ 8 * 2 ^ 29
masked id h = omega arith

unmasked : (id : ℕ) → id < 2 ^ 11 → bits_and 32 (id * 2 ^ 21) 6 ≡ 0
unmasked id h = omega arith

-- Behind the set-up of a board, of the data frames with a standard identifier the filters of
-- motor-board-v1 and olimex-e407 let pass just those with the bits 10 to 8 zero, which are the frames
-- of bootloaders, and the filter of rc-board-v1 lets all pass.
pub passes_lem :
    (kind : Kind) (reload : ℕ) (b : Board) (id : ℕ)
    → b.calls ≡ []
    → id < 2 ^ 11
    → passes_all (set_up_of kind reload b).calls id ≡ (elim kind [
      | motor_board_v1 ↦ ltb id (2 ^ 8)
      | rc_board_v1 ↦ true
      | olimex_e407 ↦ ltb id (2 ^ 8)
    ])
unfolding set_up_of timeout_timer_init
passes_lem motor_board_v1 reload b id e h = rw (e, masked id h) (ground arith)
passes_lem rc_board_v1 reload b id e h = rw (e, unmasked id h) refl
passes_lem olimex_e407 reload b id e h = rw (e, masked id h) (ground arith)
