-- ===== src/Lib.antt =====
-- A CAN bootloader: it takes datagrams from a CAN bus, executes the commands in them (erase, write,
-- read and check flash, update and save the configuration, start the application) and answers.
--
-- A frame comes in by the CAN driver, its bytes go one by one to the reader of datagrams, a complete
-- and valid datagram that names the node is given to the dispatch of commands, a command acts on
-- flash and on the configuration through the interfaces of the platform, and its answer goes out as
-- a datagram, cut into frames of eight bytes.
--
-- Files, and the code they model:
--   Datagram: can_datagram.h and can_datagram.c. A function `can_datagram_f` is `f`; the `switch` of
--     `can_datagram_input_byte` is `input_in`, that of `can_datagram_output_bytes` is `output_in`.
--     Datagram/Writer has the writer. Packet: the wire format. Quiet, Steps, Receive and Complete: the
--     reader. Check: the CRC. Safety, Sizes and Overflow: the bounds. Pending, Rounds and Send: the writer.
--   Config: config.h and config.c, with the functions' names. Config/Page: the validity of a written page.
--     Config/Items: the laws of the MessagePack library. Written, Entries, Text and Reread: reading
--     back a written configuration. Octets: the bytes of a written page. Typed: the
--     types of the fields.
--   Command: command.h, command.c, boot_arg.h and the table `commands` of bootloader.c. Command/Types,
--     Access and Pages: the types, the single commands, and saving the configuration.
--     Command/Guard: the guards of erase and write. Events: which addresses change. Redundancy,
--     Saving, Save, Torn and Traced: saving the configuration. Dispatch: `protocol_execute_command`.
--     Walk and Keeping: predicates on the configuration and the world. Typed: the types of the
--     configuration. Below and Unbroken: the valid configuration page.
--   World: flash_writer.h and platform.h, memory and its history, the lock of the flash, and how a
--     call ends.
--   Can: can_interface.h and platform/mcu/stm32f3/can_interface.c. Can/Retries has its theorems.
--     Can/Stm32f4: platform/mcu/stm32f4/can_interface.c over the registers. Received: what it reads.
--   Bootloader: `return_datagram` of bootloader.c. Bootloader/Frames: the frames of a datagram.
--     Sending and Reply: what it sends, on any bus and on one that works. Bootloader/Node:
--     `bootloader_main`, its start and a round of its loop. Arrivals, Exchange and Answer: its loop
--     on the frames of a datagram. Silent and Lost: frames without a valid datagram, and lost frames.
--     Main: `bootloader_main` with the file's buffers. Errors: its use of error codes.
--     Saved and Atomic: the configuration at the start. Walk, Keeping, Locked and Typed:
--     its runs.
--   Flash/Area: the addresses of the flash. HalfWords: what platform/mcu/stm32f3/flash_writer.c leaves
--     on erased flash. Sectors: the sector of an address in platform/mcu/stm32f4/flash_writer.c.
--     Stm32f3 and Stm32f4: the drivers as World's flash writer. Stm32f3/Programming: the loop over
--     half-words. Stm32f3/Pages: whole pages.
--   Timeout: platform/mcu/armv7-m/timeout_timer.c.
--   Startup: platform/mcu/armv7-m/boot_arg.c, boot.s and vector_table.c. Startup/Arg and Jump: the
--     argument over a reset. Ram: memory at the first call.
--   Board: platform/<board>/platform.c and platform.h. Motor, Rc and Olimex: the boards, on the
--     clocks of Clock and RcClock. Each: the three side by side. Setup: clocks. Layout: flash.
--     Deadline: timeouts. Filter: the CAN identifiers that pass. Kept, Saved, Persisted and
--     Programmed: the program on the boards.
--   Cmp: the functions of cmp and cmp_mem_access that the sources call, as parameters.
--   Base: names, lists and words that the modules share. Tests: runs at concrete values.
--
-- Conventions. Numbers are natural, and a machine integer has its wrap-around written out where it
-- can wrap. A buffer is the list of its bytes; `none` and `fault` are an access outside one. Memory is
-- a function of the address. The content of an uninitialised variable is an argument. The results
-- on flash speak of every state that memory passes through, so a loss of power is a prefix.
--
-- Flash. A controller or libopencm3 is taken to do what its manual says on erased, unlocked flash and on
-- the addresses that exist. Of an erase or a write elsewhere nothing is assumed.
--
-- Fuel: the loop of `return_datagram` is given `len + 13` rounds for an answer of `len` bytes. Each round
-- sends at least one byte of the at most `len + 11`, and the last round finds none.
-- The loops of `bootloader_startup` are given more rounds than a section has words.
--
-- Not modelled: the submodules cmp, cmp_mem_access, crc and libopencm3, the CAN controller, and the flash controller (parameters); the waits for hardware, which are taken to end;
-- the vector table and the linker scripts but for their addresses (no code); the Python client
-- (another program).
pub mod Base
pub mod Board
pub mod Bootloader
pub mod Can
pub mod Cmp
pub mod Command
pub mod Config
pub mod Datagram
pub mod Flash
pub mod Startup
pub mod Tests
pub mod Timeout
pub mod World
