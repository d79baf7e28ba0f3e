-- ===== src/Command/Types.antt =====
-- command.h, and what the callbacks of command.c read and change.
use bootloader_proposal.Base.{ℕ, zero, suc, Option, none, some, Bytes}
use bootloader_proposal.Cmp.{ℤ, pos, negsuc, Context, Cmp}
use bootloader_proposal.Config.{Config}
use bootloader_proposal.World.{FlashWriter, World, Platform, Run, done, fault}

-- boot_arg.h
abbrev pub boot_arg_start_bootloader : ℕ
boot_arg_start_bootloader = 0

abbrev pub boot_arg_start_bootloader_no_timeout : ℕ
boot_arg_start_bootloader_no_timeout = 1

abbrev pub boot_arg_start_application : ℕ
boot_arg_start_application = 2

abbrev pub err_invalid_command : ℕ
err_invalid_command = 1

abbrev pub err_command_not_found : ℕ
err_command_not_found = 2

abbrev pub err_invalid_command_set_version : ℕ
err_invalid_command_set_version = 3

abbrev pub command_set_version : ℕ
command_set_version = 2

-- What a callback reads and changes: its two MessagePack contexts, `*config`, and the world.
pub record Session : Type 0 where
  pub args : Context
  pub out : Context
  pub config : Config
  pub world : World

abbrev pub Callback : Type 0
Callback = ℕ → Session → Run Session

-- `command_t`
pub record Entry : Type 0 where
  pub index : ℕ
  pub callback : Callback

-- What the local variables hold before they are assigned.
pub record Locals : Type 0 where
  pub number : ℕ
  pub integer : ℤ
  pub buffer64 : Bytes

abbrev pub of_option : {A : Type 0} → Option A → Run A
of_option none = fault
of_option (some a) = done a

-- `-e`
abbrev pub negative : ℕ → ℤ
negative zero = pos 0
negative (suc n) = negsuc n

-- what the library and the platform give
pub record Parts : Type 0 where
  pub crc32 : ℕ → Bytes → ℕ
  pub cmp : Cmp
  pub flash : FlashWriter
  pub platform : Platform
  pub locals : Locals
