-- ===== src/Bootloader.antt =====
-- bootloader.c: `return_datagram`. The main loop is in Bootloader/Node.antt.
pub mod Node
pub mod Walk
pub mod Frames
pub mod Reply
pub mod Sending
pub mod Errors
pub mod Arrivals
pub mod Exchange
pub mod Answer
pub mod Saved
pub mod Atomic
pub mod Keeping
pub mod Locked
pub mod Silent
pub mod Lost
pub mod Main
pub mod Typed
use bootloader_proposal.Base.{
  ℕ, zero, suc, ◌+◌, ◌-◌, ◌*◌, ◌/◌, ◌%◌, ◌^◌, Bool, true, false, not, ◌&&◌, Option, none, some,
  List, [], ◌∷◌, ◌++◌, ◌==◌, ltb, if◌then◌else◌, Bytes, take, length, u8_mod,
}
use bootloader_proposal.Can.{Frame, Bus, send_message}
use bootloader_proposal.Cmp.{ℤ, pos, negsuc, Context, Cmp}
use bootloader_proposal.Config.{Config, codes, config_read}
use bootloader_proposal.World.{Memory, bytes_at, World, Platform, Run, done, reset, fault, ◌>>=◌}
use bootloader_proposal.Command.{commands, protocol_execute_command}
use bootloader_proposal.Command.Access.{command_jump_to_application}
use bootloader_proposal.Command.Pages.{valid_at}
use bootloader_proposal.Command.Types.{
  Session, Parts, of_option, boot_arg_start_bootloader_no_timeout,
}
use bootloader_proposal.Datagram
use bootloader_proposal.Datagram.{
  Datagram, id_start_mask, set_address_buffer, set_data_buffer, input_bytes, is_complete, is_valid,
  start, compute_crc, id_start_is_set,
}
use bootloader_proposal.Datagram.Writer.{Output, output_bytes}

abbrev pub default_id : ℕ
default_id = 1

abbrev pub can_send_retries : ℕ
can_send_retries = 100

-- `source_id | ID_START_MASK`
abbrev pub with_start_bit : ℕ → ℕ
with_start_bit id = if id_start_is_set id then id else id + id_start_mask

-- `id & ~ID_START_MASK`, in a `uint8_t`
abbrev pub without_start_bit : ℕ → ℕ
without_start_bit id = id % id_start_mask

-- How a loop on fuel ends.
pub data Loop (A : Type 0) : Type 0 where
  ended : A → Loop A
  out_of_bounds : Loop A
  out_of_fuel : Loop A

-- what follows a call of `can_interface_send_message`: the loop goes on, or breaks
unfoldable pub go_on : (Bus → Loop Bus) → Bool × Bus → Loop Bus
go_on more (true, b) = more b
go_on more (false, b) = ended b

-- the loop of `return_datagram`, with the contents of its 8-byte buffer
unfoldable pub return_loop :
    (fuel : ℕ) (source_id : ℕ) (start_of_datagram : Bool) → Bytes → Datagram → Bus → Loop Bus
unfolding go_on
return_loop zero source_id first buf dt b = out_of_fuel
return_loop (suc fuel) source_id first buf dt b = elim (output_bytes dt buf 8) [
  | none ↦ out_of_bounds
  | some o ↦
      if o.count == 0
      then ended b
      else let id = if first then with_start_bit source_id else source_id in
        go_on (return_loop fuel source_id false o.buffer o.datagram)
          (send_message can_send_retries (record { id = id; bytes = take o.count o.buffer }) b)
]

-- rounds that suffice for a reply of `len` bytes, header and last call included
abbrev pub reply_fuel : ℕ → ℕ
reply_fuel len = len + 13

-- `dt.crc = crc`
abbrev with_crc : Datagram → Option ℕ → Option Datagram
with_crc dt none = none
with_crc dt (some crc) = some (record dt { crc = crc })

module _ (crc32 : ℕ → Bytes → ℕ) where
  -- the datagram that `return_datagram` sets up; `bytes` is the buffer at `data`
  unfoldable pub reply_datagram : (dest_id : ℕ) → Bytes → (len : ℕ) → Option Datagram
  reply_datagram dest_id bytes len =
      let dt = set_address_buffer Datagram.init (dest_id ∷ []) in
      let dt = set_data_buffer dt bytes len in
      let dt = record dt { destination_nodes_len = 1; data_len = len } in
      with_crc dt (compute_crc crc32 dt)

  -- `stack` is what the uninitialised local buffer holds.
  unfoldable pub return_datagram :
      (fuel : ℕ) → (stack : Bytes) → (source_id dest_id : ℕ) → Bytes → (len : ℕ) → Bus → Loop Bus
  unfolding reply_datagram return_loop
  return_datagram fuel stack source_id dest_id bytes len b =
      elim (reply_datagram dest_id bytes len) [
        | none ↦ out_of_bounds
        | some dt ↦ return_loop fuel source_id true stack dt b
      ]
