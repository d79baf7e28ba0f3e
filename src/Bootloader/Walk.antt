-- ===== src/Bootloader/Walk.antt =====
-- Predicates on the node along a run of the main loop.
use bootloader_proposal.Base.{
  ℕ, ◌≡◌, true, false, ◌&&◌, none, some, List, [], ◌∷◌, ◌==◌, if◌then◌else◌, Bool-cases,
  Option-cases, inl, inr, Bytes, Bool, length,
}
use bootloader_proposal.Bootloader.{
  Loop, ended, out_of_bounds, out_of_fuel, return_datagram, reply_fuel, without_start_bit,
}
use bootloader_proposal.Bootloader.Node.{
  Node, Event, Stack, execute, reply, serve, handle, take_frame, round, run_loop, restarted,
  of_loop, is_addressed,
}
use bootloader_proposal.Can.{Frame, Bus}
use bootloader_proposal.Cmp.{mem_access}
use bootloader_proposal.Command.{commands, protocol_execute_command}
use bootloader_proposal.Config.{Config}
use bootloader_proposal.Command.Dispatch.{jump_resets}
use bootloader_proposal.Command.Types.{Parts}
use bootloader_proposal.Datagram.{
  Datagram, start, input_bytes, is_complete, is_valid, id_start_is_set,
}
use bootloader_proposal.World.{World, Run, done, Ends, Ends-bind, anything, ◌>>=◌}

-- the datagram that the bytes of a frame go to
abbrev pub begun : Bool → Datagram → Datagram
begun first dt = if first then start dt else dt

module _ (parts : Parts) (stack : Stack) where
  open parts use {crc32}

  -- A predicate that each change of the node keeps; a reset leaves the world of such a node.
  pub record IsInvariant (P : Node → Type 0) (Q : World → Type 0) : Type 0 where
    pub read :
        (n : Node) (first : Bool) (bs : Bytes) (dt : Datagram)
        → P n
        → input_bytes (begun first n.datagram) bs ≡ some dt
        → P (record n { datagram = dt })
    pub restart : (n : Node) → P n → P (record n { datagram = start n.datagram })
    pub stop : (n : Node) → P n → P (record n { timeout_active = false })
    pub run : (n : Node) → P n → Ends (λ r. P r.1) Q (execute parts stack n)
    pub send : (n : Node) (b : Bus) → P n → P (record n { bus = b })
    pub leave : (n : Node) → P n → Q n.world

  module _ (P : Node → Type 0) (Q : World → Type 0) (k : IsInvariant P Q) where
    abbrev Keeps : Run Node → Type 0
    Keeps = Ends P Q

    reply-Keeps : (id len : ℕ) (n : Node) → P n → Keeps (reply parts stack id len n)
    unfolding reply
    reply-Keeps id len n h = elim (Bool-cases (len == 0)) [
      | inl none_at_all ↦ rw none_at_all h
      | inr some_bytes ↦ rw some_bytes (
          sent (
            return_datagram crc32 (reply_fuel len) stack.frame n.config.id id n.output_buf len
              n.bus))
    ]
      where
        sent : (r : Loop Bus) → Keeps (of_loop r >>= λ b. done (record n { bus = b }))
        sent (ended b) = k.send n b h
        sent out_of_bounds = tt
        sent out_of_fuel = tt

    serve-Keeps : (id : ℕ) (n : Node) → P n → Keeps (serve parts stack id n)
    unfolding serve
    serve-Keeps id n h =
        Ends-bind (λ r. P r.1) P Q (execute parts stack n) _ (k.run n h)
          (λ (len, n') h'. reply-Keeps id len n' h')

    handle-Keeps : (f : Frame) (n : Node) → P n → Keeps (handle parts stack f n)
    unfolding handle
    handle-Keeps f n h = elim (Option-cases (is_valid crc32 n.datagram)) [
      | inl stuck ↦ rw stuck tt
      | inr (false, e) ↦ rw e h
      | inr (true, e) ↦
          elim (Option-cases (
            is_addressed n.datagram.destination_nodes_len n.datagram.destination_nodes
              n.config.id)) [
                | inl stuck ↦ rw (e, stuck) tt
                | inr (false, e') ↦ rw (e, e') (k.stop n h)
                | inr (true, e') ↦
                    rw (e, e')
                      (serve-Keeps (without_start_bit f.id) (record n { timeout_active = false })
                        (k.stop n h))
              ]
    ]

    take_frame-Keeps : (f : Frame) (n : Node) → P n → Keeps (take_frame parts stack f n)
    unfolding take_frame
    take_frame-Keeps f n h =
        let first = id_start_is_set f.id in
        elim (Option-cases (input_bytes (begun first n.datagram) f.bytes)) [
          | inl stuck ↦ rw stuck tt
          | inr (dt, e) ↦
              let n' = record n { datagram = dt } in
              let h' = k.read n first f.bytes dt h e in
              elim (Bool-cases (is_complete dt)) [
                | inr more ↦ rw (e, more) h'
                | inl all ↦
                    rw (e, all)
                      (Ends-bind P P Q (handle parts stack f n') (restarted parts stack)
                        (handle-Keeps f n' h') k.restart)
              ]
        ]

    message-Keeps :
        (e : Event) (n : Node)
        → P n
        → Keeps (elim e.message [ none ↦ done n | some f ↦ take_frame parts stack f n ])
    message-Keeps e n h = elim (Option-cases e.message) [
      | inl quiet ↦ rw quiet h
      | inr (f, e') ↦ rw e' (take_frame-Keeps f n h)
    ]

    pub round-Keeps : (e : Event) (n : Node) → P n → Keeps (round parts stack e n)
    unfolding round
    round-Keeps e n h = elim (Bool-cases (n.timeout_active && e.timeout)) [
      | inr go ↦ rw go (message-Keeps e n h)
      | inl late ↦
          let (_, jumps, _, _) = jump_resets parts 0 (record {
            args = mem_access [] 0;
            out = mem_access [] 0;
            config = n.config;
            world = n.world;
          }) in
          rw (late, jumps) (k.leave n h)
    ]

    pub run_loop-Keeps : (es : List Event) (n : Node) → P n → Keeps (run_loop parts stack es n)
    unfolding run_loop
    run_loop-Keeps [] n h = h
    run_loop-Keeps (e ∷ es) n h =
        Ends-bind P P Q (round parts stack e n) (run_loop parts stack es) (round-Keeps e n h)
          (run_loop-Keeps es)

  -- A predicate on the node without its world, its configuration and its output buffer, which alone a
  -- command changes.
  pub without_world :
      (P : Node → Type 0)
      → ((n : Node) (config : Config) (w : World) (out : Bytes)
          → P n
          → P (record n { config = config; world = w; output_buf = out }))
      → (n : Node) → P n
      → Ends (λ r. P r.1) (λ w. Unit {0}) (execute parts stack n)
  unfolding execute
  without_world P keeps n h =
      let run =
        protocol_execute_command parts n.datagram.payload n.datagram.data_len (commands parts)
          n.output_buf (length n.output_buf) n.config n.world in
      Ends-bind (λ r. Unit {0}) (λ r. P r.1) (λ w. Unit {0}) run _ (anything run)
        (λ (result, s) u. keeps n s.config s.world s.out.buffer h)
