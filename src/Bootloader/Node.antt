-- ===== src/Bootloader/Node.antt =====
-- bootloader.c: `bootloader_main`, its start and one round of its loop.
use bootloader_proposal.Base.{
  ℕ, zero, suc, ◌+◌, ◌-◌, ◌%◌, Bool, true, false, not, ◌&&◌, Option, none, some, List, [], ◌∷◌,
  ◌++◌, ◌==◌, leb, if◌then◌else◌, Bytes, length, drop, u8_mod,
}
use bootloader_proposal.Bootloader.{
  default_id, without_start_bit, Loop, ended, out_of_bounds, out_of_fuel, reply_fuel,
  return_datagram,
}
use bootloader_proposal.Can.{Frame, Bus}
use bootloader_proposal.Cmp.{ℤ, pos, negsuc, mem_access}
use bootloader_proposal.Config.{Config, codes, config_read}
use bootloader_proposal.World.{bytes_at, World, Run, done, fault, ◌>>=◌}
use bootloader_proposal.Command.{commands, protocol_execute_command}
use bootloader_proposal.Command.Access.{command_jump_to_application}
use bootloader_proposal.Command.Pages.{valid_at}
use bootloader_proposal.Command.Types.{Parts, of_option, boot_arg_start_bootloader_no_timeout}
use bootloader_proposal.Datagram
use bootloader_proposal.Datagram.{
  Datagram, set_address_buffer, set_data_buffer, input_bytes, is_complete, is_valid, start,
  id_start_is_set,
}

-- the variables of `bootloader_main`, with the CAN transmitter
pub record Node : Type 0 where
  pub timeout_active : Bool
  pub config : Config
  pub datagram : Datagram
  pub output_buf : Bytes
  pub world : World
  pub bus : Bus

-- what the environment gives in one round: `timeout_reached()`, and the frame that is read
pub record Event : Type 0 where
  pub timeout : Bool
  pub message : Option Frame

-- the contents of local variables before they are assigned
pub record Stack : Type 0 where
  pub config : Config
  pub frame : Bytes

-- `(uint8_t)x`
abbrev pub to_u8 : ℤ → ℕ
to_u8 (pos n) = n % u8_mod
to_u8 (negsuc n) = u8_mod - 1 - n % u8_mod

-- `strcpy(buf, s)`
abbrev pub string_copy : Bytes → Bytes → Option Bytes
string_copy buf s =
    if leb (length s + 1) (length buf) then some (s ++ 0 ∷ drop (length s + 1) buf) else none

-- The search for the own ID: is `i != destination_nodes_len` at its end?
unfoldable pub is_addressed : ℕ → Bytes → ℕ → Option Bool
is_addressed zero nodes id = some false
is_addressed (suc len) [] id = none
is_addressed (suc len) (n ∷ nodes) id =
    let rest = is_addressed len nodes id in if n == id then some true else rest

abbrev pub of_loop : {A : Type 0} → Loop A → Run A
of_loop (ended a) = done a
of_loop out_of_bounds = fault
of_loop out_of_fuel = fault

module _ (parts : Parts) (stack : Stack) where
  open parts use {crc32, cmp, platform, locals}

  unfoldable pub default_config : Run Config
  default_config =
      of_option (string_copy stack.config.device_class platform.device_class) >>= λ class.
      of_option (string_copy stack.config.board_name (codes "foobar2000")) >>= λ name.
      done (record {
        id = default_id;
        board_name = name;
        device_class = class;
        application_crc = 0xDEADC0DE;
        application_size = 0;
        update_count = 1;
      })

  unfoldable pub read_page : World → ℕ → Run Config
  read_page w a = of_option (
      config_read cmp stack.config locals.buffer64 (bytes_at w.memory a platform.config_page_size)
        platform.config_page_size)

  -- the first valid page, or the defaults
  unfoldable pub boot_config : World → Run Config
  unfolding default_config read_page
  boot_config w = valid_at parts w platform.config1_addr >>= λ ok₁.
      if ok₁
      then read_page w platform.config1_addr
      else valid_at parts w platform.config2_addr >>= λ ok₂.
          if ok₂ then read_page w platform.config2_addr else default_config

  -- `bootloader_main` up to its loop, with the three buffers
  unfoldable pub boot : ℕ → Bytes → Bytes → Bytes → World → Bus → Run Node
  unfolding boot_config
  boot arg addr_buf data_buf output_buf w b = boot_config w >>= λ config.
      let dt = set_address_buffer Datagram.init addr_buf in
      let dt = set_data_buffer dt data_buf (length data_buf) in
      done (record {
        timeout_active = not (arg == boot_arg_start_bootloader_no_timeout);
        config = config;
        datagram = start dt;
        output_buf = output_buf;
        world = w;
        bus = b;
      })

  -- `return_datagram(config.ID, return_id, output_buf, len)`, if there is an answer
  unfoldable pub reply : (return_id len : ℕ) → Node → Run Node
  reply return_id len n =
      if len == 0
      then done n
      else of_loop (
          return_datagram crc32 (reply_fuel len) stack.frame n.config.id return_id n.output_buf len
            n.bus)
        >>= λ b. done (record n { bus = b })

  -- the call of `protocol_execute_command`; its result is assigned to a `uint8_t`
  unfoldable pub execute : Node → Run (ℕ × Node)
  execute n =
      protocol_execute_command parts n.datagram.payload n.datagram.data_len (commands parts)
        n.output_buf (length n.output_buf) n.config n.world
      >>= λ (result, s).
          done (
            to_u8 result,
            record n { config = s.config; world = s.world; output_buf = s.out.buffer },
          )

  -- the branch `we were addressed`
  unfoldable pub serve : (return_id : ℕ) → Node → Run Node
  unfolding execute reply
  serve return_id n = execute n >>= λ (len, n'). reply return_id len n'

  -- a complete datagram, before the reader is started again
  unfoldable pub handle : Frame → Node → Run Node
  unfolding serve is_addressed
  handle f n = of_option (is_valid crc32 n.datagram) >>= λ valid.
      if not valid
      then done n
      else let n = record n { timeout_active = false } in
        of_option
          (is_addressed n.datagram.destination_nodes_len n.datagram.destination_nodes n.config.id)
        >>= λ addressed. if not addressed then done n else serve (without_start_bit f.id) n

  abbrev pub restarted : Node → Run Node
  restarted n = done (record n { datagram = start n.datagram })

  -- what is done with a frame
  unfoldable pub take_frame : Frame → Node → Run Node
  unfolding handle
  take_frame f n =
      let dt = if id_start_is_set f.id then start n.datagram else n.datagram in
      of_option (input_bytes dt f.bytes) >>= λ dt'.
      let n' = record n { datagram = dt' } in
      if not (is_complete dt') then done n' else handle f n' >>= restarted

  -- One round of the loop. The jump is made with null contexts, which the command does not use.
  unfoldable pub round : Event → Node → Run Node
  unfolding take_frame
  round e n =
      let after_timeout : Run Node = elim e.message [ none ↦ done n | some f ↦ take_frame f n ] in
      if n.timeout_active && e.timeout
      then command_jump_to_application parts 0 (record {
        args = mem_access [] 0;
        out = mem_access [] 0;
        config = n.config;
        world = n.world;
      })
        >>= (λ s. after_timeout)
      else after_timeout

  unfoldable pub run_loop : List Event → Node → Run Node
  unfolding round
  run_loop [] n = done n
  run_loop (e ∷ es) n = round e n >>= λ n'. run_loop es n'
