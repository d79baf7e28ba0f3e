-- ===== src/Bootloader/Silent.antt =====
-- The reader on frames that hold no valid datagram, and the main loop on them.
use bootloader_proposal.Base.{
  ℕ, ◌≡◌, ◌⊎◌, refl, ◌∙◌, ap, true, false, not, Option, none, some, some_inj, List, [], ◌∷◌, ◌>>=◌,
  >>=-eq-some, if◌then◌else◌, Bool-cases, Option-cases, inl, inr, arith, Bytes,
}
use bootloader_proposal.Bootloader.Arrivals.{
  arrivals, round_frame, take_frame_part, take_frame_last,
}
use bootloader_proposal.Bootloader.Node.{Node, Stack, handle, take_frame, run_loop}
use bootloader_proposal.Bootloader.Walk.{begun}
use bootloader_proposal.Can.{Frame}
use bootloader_proposal.Command.Types.{Parts}
use bootloader_proposal.Datagram.{
  Datagram, input_bytes, is_complete, is_valid, start, id_start_is_set,
}
use mathlib.Core.Path.{subst}
use bootloader_proposal.Datagram.Sizes.{
  SameSizes, SameSizes-refl, SameSizes-trans, read-SameSizes, start-SameSizes,
}
use bootloader_proposal.World.{Run, done}

module _ (crc32 : ℕ → Bytes → ℕ) where
  -- A complete datagram that is not valid is forgotten; there is none where one is valid.
  abbrev pub settled : Datagram → Option Datagram
  settled d =
      if not (is_complete d)
      then some d
      else is_valid crc32 d >>= λ valid. if valid then none else some (start d)

  -- The reader alone on frames, as long as no complete datagram is valid.
  unfoldable pub silent : Datagram → List Frame → Option Datagram
  silent dt [] = some dt
  silent dt (f ∷ fs) = input_bytes (begun (id_start_is_set f.id) dt) f.bytes >>= λ d.
      settled d >>= λ d'. silent d' fs

settled-cases :
    (crc32 : ℕ → Bytes → ℕ) (d d' : Datagram)
    → settled crc32 d ≡ some d'
    → ((is_complete d ≡ false) × (d ≡ d'))
      ⊎ ((is_complete d ≡ true) × (is_valid crc32 d ≡ some false) × (start d ≡ d'))
settled-cases crc32 d d' e = elim (Bool-cases (is_complete d)) [
  | inr more ↦ inl (more, some_inj (rw more at e))
  | inl all ↦ elim (Option-cases (is_valid crc32 d)) [
    | inl stuck ↦ absurd (ground (arith, rw (all, stuck) at e))
    | inr (true, v) ↦ absurd (ground (arith, rw (all, v) at e))
    | inr (false, v) ↦ inr (all, v, some_inj (rw (all, v) at e))
  ]
]

settled-SameSizes :
    (crc32 : ℕ → Bytes → ℕ) (d d' : Datagram) → settled crc32 d ≡ some d' → SameSizes d d'
settled-SameSizes crc32 d d' e = elim (settled-cases crc32 d d' e) [
  | inl (_, one) ↦ subst (SameSizes d) one (SameSizes-refl d)
  | inr (_, _, one) ↦ subst (SameSizes d) one (start-SameSizes d)
]

module _ (parts : Parts) (stack : Stack) where
  open parts use {crc32}

  take_frame-settled :
      (f : Frame) (n : Node) (d d' : Datagram)
      → input_bytes (begun (id_start_is_set f.id) n.datagram) f.bytes ≡ some d
      → settled crc32 d ≡ some d'
      → take_frame parts stack f n ≡ done (record n { datagram = d' })
  unfolding handle
  take_frame-settled f n d d' read e =
      let keep : Datagram → Run Node = λ x. done (record n { datagram = x }) in
      elim (settled-cases crc32 d d' e) [
        | inl (more, one) ↦
            take_frame_part parts stack f n (id_start_is_set f.id) d refl read more ∙ ap keep one
        | inr (all, v, one) ↦
            take_frame_last parts stack f n (id_start_is_set f.id) d refl read all
            ∙ rw v (ap keep one)
      ]

  -- Frames in which no complete datagram is valid change nothing but the reader, from whatever state of
  -- the node: nothing is executed or answered, and the timeout goes on.
  pub run_loop-silent :
      (fs : List Frame) (n : Node) {d : Datagram}
      → silent crc32 n.datagram fs ≡ some d
      → run_loop parts stack (arrivals fs) n ≡ done (record n { datagram = d })
  unfolding run_loop silent
  run_loop-silent [] n e = ap (λ x. done (record n { datagram = x })) (some_inj e)
  run_loop-silent (f ∷ fs) n {d} e =
      let (d₁, read, more) =
        >>=-eq-some (input_bytes (begun (id_start_is_set f.id) n.datagram) f.bytes) _ e in
      let (d₂, settles, rest) = >>=-eq-some (settled crc32 d₁) (λ d'. silent crc32 d' fs) more in
      rw (round_frame parts stack f n, take_frame-settled f n d₁ d₂ read settles)
        (run_loop-silent fs (record n { datagram = d₂ }) rest)

-- Frames keep the sizes of the reader's buffers.
pub silent-SameSizes :
    (crc32 : ℕ → Bytes → ℕ) (fs : List Frame) (dt : Datagram) {d : Datagram}
    → silent crc32 dt fs ≡ some d
    → SameSizes dt d
unfolding silent
silent-SameSizes crc32 [] dt e = subst (SameSizes dt) (some_inj e) (SameSizes-refl dt)
silent-SameSizes crc32 (f ∷ fs) dt {d} e =
    let first = id_start_is_set f.id in
    let (d₁, read, more) = >>=-eq-some (input_bytes (begun first dt) f.bytes) _ e in
    let (d₂, settles, rest) = >>=-eq-some (settled crc32 d₁) (λ d'. silent crc32 d' fs) more in
    SameSizes-trans dt d₂ d
      (SameSizes-trans dt d₁ d₂ (read-SameSizes first f.bytes dt d₁ read)
        (settled-SameSizes crc32 d₁ d₂ settles))
      (silent-SameSizes crc32 fs d₂ rest)
