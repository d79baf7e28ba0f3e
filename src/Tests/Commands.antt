-- ===== src/Tests/Commands.antt =====
-- Runs of the theorems on the commands and the configuration.
use bootloader_proposal.Base.{◌≡◌, inl, refl, [], ◌∷◌, replicate, length, arith, Bytes}
use bootloader_proposal.Cmp.{mem_access}
use bootloader_proposal.Config.{string_length}
use bootloader_proposal.Config.Page.{IsTerminated}
use bootloader_proposal.Command.{commands, protocol_execute_command}
use bootloader_proposal.Command.Access.{command_erase_flash_page, command_write_flash}
use bootloader_proposal.Command.Pages.{command_config_write_to_flash}
use bootloader_proposal.Command.Types.{Session}
use bootloader_proposal.Command.Dispatch.{
  answer, command_at, index_read, argc_of, argc_read, session, execute-command_at,
}
use bootloader_proposal.Command.Events.{IsAllowed, execute-IsAllowed}
use bootloader_proposal.Command.Guard.{Answers, erase-Refused, write-Refused}
use bootloader_proposal.Command.Redundancy.{IsKept}
use bootloader_proposal.Command.Save.{save-IsKept}
use bootloader_proposal.World.{Leaves, done}
use bootloader_proposal.Tests.Codec.{byte_cmp-WritesInPlace}
use bootloader_proposal.Tests.Toy.{
  sum-word, AnyPage, page_flash-KeepsToPages, toy_config, toy, toy_world, toy_world-IsKept,
}

abbrev called_with : Bytes → Session
called_with args = record {
  args = mem_access args (length args);
  out = mem_access (replicate 4 0) 4;
  config = toy_config;
  world = toy_world;
}

-- below the application
abbrev low : Session
low = called_with (16 ∷ 0 ∷ 1 ∷ 67 ∷ [])

-- at the application, with the right class, a size and three bytes
abbrev good : Session
good = called_with (64 ∷ 0 ∷ 1 ∷ 67 ∷ 2 ∷ 21 ∷ 22 ∷ 23 ∷ [])

-- with no bytes
abbrev bare : Session
bare = called_with (64 ∷ 0 ∷ 1 ∷ 67 ∷ [])

erase-Refused_example : Answers toy (command_erase_flash_page toy 2 low) low 0 toy_world
erase-Refused_example = erase-Refused toy 2 low (inl (omega arith))

write-Refused_example : Answers toy (command_write_flash toy 3 low) low 0 toy_world
write-Refused_example = write-Refused toy 3 low (inl (omega arith))

toy-IsTerminated : IsTerminated toy_config
unfolding string_length
toy-IsTerminated = record { name_length = 1; class_length = 1; name_ends = refl; class_ends = refl }

save-IsKept_example :
    (s' : Session) × (command_config_write_to_flash toy 0 good ≡ done s') × IsKept toy s'.world
save-IsKept_example =
    save-IsKept toy AnyPage (page_flash-KeepsToPages 16) tt tt (inl (omega arith))
      byte_cmp-WritesInPlace sum-word (omega arith) 0 good toy-IsTerminated toy_world-IsKept

-- version 2, command 5 (ping), no arguments
abbrev ping : Bytes
ping = 2 ∷ 5 ∷ 0 ∷ []

abbrev out4 : Bytes
out4 = replicate 4 0

execute-command_at_example :
    protocol_execute_command toy ping 3 (commands toy) out4 4 toy_config toy_world
    ≡ answer
        (command_at toy (index_read toy ping 3 out4 4 toy_config toy_world).1)
        (argc_of toy ping 3 out4 4 toy_config toy_world)
        (session toy ping 3 out4 4 toy_config toy_world
          (argc_read toy ping 3 out4 4 toy_config toy_world).2)
execute-command_at_example = execute-command_at toy ping 3 out4 4 toy_config toy_world refl refl

execute-IsAllowed_example :
    Leaves
      (λ r. r.1.world)
      (IsAllowed toy)
      (protocol_execute_command toy (2 ∷ 8 ∷ 0 ∷ []) 3 (commands toy) out4 4 toy_config toy_world)
execute-IsAllowed_example = execute-IsAllowed toy (2 ∷ 8 ∷ 0 ∷ []) 3 out4 4 toy_config toy_world tt
