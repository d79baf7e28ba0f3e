-- ===== src/Command/Walk.antt =====
-- Predicates on the configuration and the world, from the callbacks to `protocol_execute_command`.
use bootloader_proposal.Base.{ℕ, if◌then◌else◌, arith, Bytes, List, [], ◌∷◌, Bool-cases, inl, inr}
use bootloader_proposal.Cmp.{ℤ, mem_access}
use bootloader_proposal.Command.{is_index, commands, call_command, protocol_execute_command}
use bootloader_proposal.Command.Types.{Session, Parts, Entry}
use bootloader_proposal.Config.{Config}
use bootloader_proposal.World.{World, Run, Ends, Ends-bind}

module _ (parts : Parts) (P : Config → World → Type 0) (Q : World → Type 0) where
  open parts use {cmp, locals}

  abbrev Keeps : Run Session → Type 0
  Keeps = Ends (λ s. P s.config s.world) Q

  -- a table of callbacks each of which keeps the predicate
  abbrev pub AllKeep : List Entry → Type 0
  AllKeep [] = Unit {0}
  AllKeep (e ∷ es) =
      ((argc : ℕ) (s : Session) → P s.config s.world → Keeps (e.callback argc s)) × AllKeep es

  call-Keeps :
      (es : List Entry) (index : ℤ) (argc : ℕ) (s : Session)
      → AllKeep es
      → P s.config s.world
      → Ends (λ r. P r.1.config r.1.world) Q (call_command es index argc s)
  unfolding call_command
  call-Keeps [] index argc s k t = t
  call-Keeps (e ∷ es) index argc s k t = elim (Bool-cases (is_index e.index index)) [
    | inl hit ↦ rw hit (
        Ends-bind (λ s. P s.config s.world) (λ r. P r.1.config r.1.world) Q (e.callback argc s) _
          (k.0 argc s t) (λ s' t'. t'))
    | inr miss ↦ rw miss (call-Keeps es index argc s k.1 t)
  ]

  pub execute-Keeps :
      AllKeep (commands parts)
      → (data_buf : Bytes) (data_len : ℕ) (out_buf : Bytes) (out_len : ℕ) (config : Config)
        (w : World)
      → P config w
      → Ends
          (λ r. P r.1.config r.1.world)
          Q
          (protocol_execute_command parts data_buf data_len
            (commands parts)
            out_buf
            out_len
            config
            w)
  unfolding protocol_execute_command
  execute-Keeps k data_buf data_len out_buf out_len config w t =
      let (_, version, c) = cmp.read_int (mem_access data_buf data_len) locals.integer in
      let (read_index, index, c') = cmp.read_int c locals.integer in
      let (read_argc, argc, c'') = cmp.read_array c' locals.number in
      let s : Session = record {
        args = c'';
        out = mem_access out_buf out_len;
        config = config;
        world = w;
      } in
      ground (arith, call-Keeps (commands parts) index (if read_argc then argc else 0) s k t)
