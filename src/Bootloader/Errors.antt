-- ===== src/Bootloader/Errors.antt =====
-- What the main loop makes of an error code.
use bootloader_proposal.Base.{ℕ, ◌≡◌, false, length}
use bootloader_proposal.Bootloader.Node.{Node, Stack, execute, serve, reply}
use bootloader_proposal.Command.{commands, is_index}
use bootloader_proposal.Command.Types.{Parts, command_set_version}
use bootloader_proposal.Command.Dispatch.{version_read, execute_wrong_version}

-- A datagram with a wrong command set version is not ignored: its error code -3 is assigned to a
-- `uint8_t`, so that it is answered like a command that has written 253 bytes to the output buffer.
-- Nothing is executed.
pub serve-version_read :
    (parts : Parts) (stack : Stack) (return_id : ℕ) (n : Node)
    → is_index command_set_version
        (version_read parts n.datagram.payload n.datagram.data_len n.output_buf
          (length n.output_buf)
          n.config
          n.world).1
      ≡ false
    → serve parts stack return_id n ≡ reply parts stack return_id 253 n
unfolding serve execute
serve-version_read parts stack return_id n v = rw (
    execute_wrong_version parts n.datagram.payload n.datagram.data_len n.output_buf
      (length n.output_buf) n.config n.world (commands parts) v)
