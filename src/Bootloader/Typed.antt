-- ===== src/Bootloader/Typed.antt =====
-- The C types of the node's configuration, from the start on.
use bootloader_proposal.Base.{
  append-AreBytes, drop-AreBytes, are_bytes→AreBytes, ℕ, ◌+◌, ◌≡◌, refl, ◌∙◌, true, false, some,
  some_inj, List, ◌∷◌, leb, length, length-append, length-drop, drop, Bytes, AreBytes, Bool-cases,
  Option-cases, inl, inr, arith,
}
use mathlib.Core.Path.{subst}
use bootloader_proposal.Bootloader.Main.{bootloader_main}
use bootloader_proposal.Bootloader.Node.{
  Node, Stack, Event, boot, boot_config, read_page, default_config, string_copy, execute, run_loop,
}
use bootloader_proposal.Bootloader.Walk.{IsInvariant, run_loop-Keeps}
use bootloader_proposal.Can.{Bus}
use bootloader_proposal.Cmp.{ReadsInType}
use bootloader_proposal.Command.Pages.{valid_in}
use bootloader_proposal.Command.Typed.{execute-IsTyped}
use bootloader_proposal.Command.Types.{Parts}
use bootloader_proposal.Config.{codes, config_read}
use bootloader_proposal.Config.Typed.{IsTyped, config_read-IsTyped}
use bootloader_proposal.World.{World, bytes_at, Ends, Ends-bind}

-- Copying a string keeps an array of characters one, of its size.
string_copy-AreBytes :
    (buf s : Bytes) {r : Bytes}
    → string_copy buf s ≡ some r
    → AreBytes buf
    → AreBytes s
    → AreBytes r × (length r ≡ length buf)
string_copy-AreBytes buf s {r} e bytes text = elim (Bool-cases (leb (length s + 1) (length buf))) [
  | inr over ↦ absurd (ground (arith, rw over at e))
  | inl fits ↦
      subst (λ r. AreBytes r × (length r ≡ length buf)) (some_inj (rw fits at e))
        (
          append-AreBytes s (0 ∷ drop (length s + 1) buf) text
              (omega arith, drop-AreBytes (length s + 1) buf bytes),
          ground (
            arith,
            fits,
            length-append s (0 ∷ drop (length s + 1) buf),
            length-drop (length s + 1) buf,
          ),
        )
]

module _ (parts : Parts) (stack : Stack) (reads : ReadsInType parts.cmp)
    (local : IsTyped stack.config) (name : AreBytes parts.platform.device_class) where
  open parts use {cmp, platform, locals}

  abbrev Any : World → Type 0
  Any w = Unit {0}

  default-IsTyped : Ends IsTyped Any (default_config parts stack)
  unfolding default_config
  default-IsTyped =
      elim (Option-cases (string_copy stack.config.device_class platform.device_class)) [
        | inl stuck ↦ rw stuck tt
        | inr (class, e) ↦
            elim (Option-cases (string_copy stack.config.board_name (codes "foobar2000"))) [
              | inl stuck ↦ rw (e, stuck) tt
              | inr (board, e') ↦
                  let (class_bytes, class_size) =
                    string_copy-AreBytes stack.config.device_class platform.device_class e
                      local.class_bytes name in
                  let (name_bytes, name_size) =
                    string_copy-AreBytes stack.config.board_name (codes "foobar2000") e'
                      local.name_bytes (are_bytes→AreBytes (codes "foobar2000") refl) in
                  rw (e, e')
                    (record {
                      id_byte = omega arith;
                      crc_word = omega arith;
                      size_word = omega arith;
                      count_word = omega arith;
                      name_size = name_size ∙ local.name_size;
                      class_size = class_size ∙ local.class_size;
                      name_bytes = name_bytes;
                      class_bytes = class_bytes;
                    })
            ]
      ]

  read_page-IsTyped : (w : World) (a : ℕ) → Ends IsTyped Any (read_page parts stack w a)
  unfolding read_page
  read_page-IsTyped w a =
      let page = bytes_at w.memory a platform.config_page_size in
      elim (Option-cases
        (config_read cmp stack.config locals.buffer64 page platform.config_page_size)) [
          | inl stuck ↦ rw stuck tt
          | inr (config, e) ↦ rw e (
              config_read-IsTyped cmp reads stack.config config locals.buffer64 page
                platform.config_page_size e local)
        ]

  boot_config-IsTyped : (w : World) → Ends IsTyped Any (boot_config parts stack w)
  unfolding boot_config
  boot_config-IsTyped w = elim (Option-cases (valid_in parts w.memory platform.config1_addr)) [
    | inl stuck ↦ rw stuck tt
    | inr (true, e) ↦ rw e (read_page-IsTyped w platform.config1_addr)
    | inr (false, e) ↦ elim (Option-cases (valid_in parts w.memory platform.config2_addr)) [
      | inl stuck ↦ rw (e, stuck) tt
      | inr (true, e') ↦ rw (e, e') (read_page-IsTyped w platform.config2_addr)
      | inr (false, e') ↦ rw (e, e') default-IsTyped
    ]
  ]

  execute-Keeps :
      (n : Node) → IsTyped n.config → Ends (λ r. IsTyped r.1.config) Any (execute parts stack n)
  unfolding execute
  execute-Keeps n t =
      Ends-bind (λ r. IsTyped r.1.config) (λ r. IsTyped r.1.config) Any _ _
        (execute-IsTyped parts reads n.datagram.payload n.datagram.data_len n.output_buf
          (length n.output_buf) n.config n.world t)
        (λ r t'. t')

  IsTyped-IsInvariant : IsInvariant parts stack (λ n. IsTyped n.config) Any
  IsTyped-IsInvariant = record {
    read = λ n first bs dt t e. t;
    restart = λ n t. t;
    stop = λ n t. t;
    run = execute-Keeps;
    send = λ n b t. t;
    leave = λ n t. tt;
  }

  -- From the start on, whatever frames come and whenever the timeout is reached: every field of the
  -- configuration keeps to its C type, so that the numbers of the model are the values of a
  -- `uint8_t` and of `uint32_t`s, and the strings arrays of 65 characters; they need not be
  -- terminated. The uninitialised variable has the types, the device class of the platform is a
  -- string of characters, and the MessagePack library reads into its output variables what fits
  -- them, also where it fails. After an access outside an object nothing is said.
  pub bootloader_main-IsTyped :
      (arg : ℕ) (w : World) (b : Bus) (es : List Event)
      → Ends (λ n. IsTyped n.config) (λ w'. Unit {0}) (bootloader_main parts stack arg w b es)
  unfolding bootloader_main boot
  bootloader_main-IsTyped arg w b es =
      Ends-bind (λ n. IsTyped n.config) (λ n. IsTyped n.config) Any _ (run_loop parts stack es)
        (Ends-bind IsTyped (λ n. IsTyped n.config) Any (boot_config parts stack w) _
          (boot_config-IsTyped w) (λ config t. t))
        (run_loop-Keeps parts stack (λ n. IsTyped n.config) Any IsTyped-IsInvariant es)
