-- ===== src/Bootloader/Arrivals.antt =====
-- The main loop on the frames of a datagram, up to the last one.
use bootloader_proposal.Base.{
  ℕ, ◌^◌, ◌<◌, ◌≡◌, ◌≢◌, ◌⊎◌, inl, inr, refl, ◌∙◌, sym, Bool, true, false, some, List, [], ◌∷◌,
  if◌then◌else◌, take, drop, take-append-drop, Bool-cases, arith, Bytes,
}
use bootloader_proposal.Bootloader.{with_start_bit, without_start_bit}
use bootloader_proposal.Bootloader.Node.{
  Node, Event, Stack, handle, restarted, take_frame, round, run_loop,
}
use bootloader_proposal.Bootloader.Frames.{Frames, nil, frame}
use bootloader_proposal.Bootloader.Walk.{begun}
use bootloader_proposal.Can.{Frame}
use bootloader_proposal.Command.Types.{Parts}
use bootloader_proposal.Datagram.{Datagram, input_bytes, is_complete, id_start_is_set}
use bootloader_proposal.Datagram.Quiet.{
  input_quiet, input_quiet-nil, input_quiet_step, quiet_prefix,
}
use bootloader_proposal.World.{Run, done, reset, fault, ◌>>=◌}

-- each frame in a round of its own, before the timeout
abbrev pub arrivals : List Frame → List Event
arrivals [] = []
arrivals (f ∷ fs) = record { timeout = false; message = some f } ∷ arrivals fs

first_id :
    (id : ℕ)
    → id < 2 ^ 7
    → (id_start_is_set (with_start_bit id) ≡ true) × (without_start_bit (with_start_bit id) ≡ id)
unfolding id_start_is_set
first_id id h = ground arith

next_id : (id : ℕ) → id < 2 ^ 7 → (id_start_is_set id ≡ false) × (without_start_bit id ≡ id)
unfolding id_start_is_set
next_id id h = ground arith

pub frame_id :
    (id : ℕ) (first : Bool) (f : Frame)
    → id < 2 ^ 7
    → f.id ≡ (if first then with_start_bit id else id)
    → (id_start_is_set f.id ≡ first) × (without_start_bit f.id ≡ id)
frame_id id true f h e = rw e (first_id id h)
frame_id id false f h e = rw e (next_id id h)

run_done : {A : Type 0} (r : Run A) → (r >>= (λ a. done a)) ≡ r
run_done (done a) = refl
run_done (reset arg w) = refl
run_done fault = refl

-- Behind the first frame there are no more bytes and frames, or there are more bytes.
pub end_or_more :
    {id : ℕ} {first : Bool} {bs : Bytes} {fs : List Frame}
    → Frames id first bs fs
    → ((bs ≡ []) × (fs ≡ [])) ⊎ (bs ≢ [])
end_or_more nil = inl (refl, refl)
end_or_more (frame ne e bytes rest) = inr ne

pub quiet_start :
    (d : Datagram) (bs : Bytes) {r : Datagram}
    → bs ≢ []
    → input_quiet d bs ≡ some r
    → is_complete d ≡ false
quiet_start d [] ne h = absurd (ne refl)
quiet_start d (b ∷ bs) {r} ne h = (input_quiet_step d b bs {d = r} h).0

module _ (parts : Parts) (stack : Stack) where
  pub round_frame :
      (f : Frame) (n : Node)
      → round parts stack (record { timeout = false; message = some f }) n
        ≡ take_frame parts stack f n
  unfolding round
  round_frame f n = elim (Bool-cases n.timeout_active) [ inl t ↦ rw t | inr e ↦ rw e ]

  pub take_frame_part :
      (f : Frame) (n : Node) (first : Bool) (d : Datagram)
      → id_start_is_set f.id ≡ first
      → input_bytes (begun first n.datagram) f.bytes ≡ some d
      → is_complete d ≡ false
      → take_frame parts stack f n ≡ done (record n { datagram = d })
  unfolding take_frame
  take_frame_part f n first d s e c = rw (s, e, c)

  pub take_frame_last :
      (f : Frame) (n : Node) (first : Bool) (d : Datagram)
      → id_start_is_set f.id ≡ first
      → input_bytes (begun first n.datagram) f.bytes ≡ some d
      → is_complete d ≡ true
      → take_frame parts stack f n
        ≡ (handle parts stack f (record n { datagram = d }) >>= restarted parts stack)
  unfolding take_frame
  take_frame_last f n first d s e c = rw (s, e, c)

  -- The frames of a quiet run lead to its end, and what is done there is done once.
  abbrev pub Ends : ℕ → List Frame → Node → Datagram → Type 0
  Ends id fs n r =
      (f : Frame) × (without_start_bit f.id ≡ id)
      × (run_loop parts stack (arrivals fs) n
          ≡ (handle parts stack f (record n { datagram = r }) >>= restarted parts stack))

  last_Ends :
      (id : ℕ) (first : Bool) (f : Frame) (n : Node) (r : Datagram)
      → id < 2 ^ 7
      → f.id ≡ (if first then with_start_bit id else id)
      → input_bytes (begun first n.datagram) f.bytes ≡ some r
      → is_complete r ≡ true
      → Ends id (f ∷ []) n r
  unfolding run_loop
  last_Ends id first f n r h e read c =
      let (s, back) = frame_id id first f h e in
      (f, back, rw (round_frame f n, take_frame_last f n first r s read c) (run_done _))

  part_Ends :
      (id : ℕ) (first : Bool) (f : Frame) (fs : List Frame) (n : Node) (d r : Datagram)
      → id < 2 ^ 7
      → f.id ≡ (if first then with_start_bit id else id)
      → input_bytes (begun first n.datagram) f.bytes ≡ some d
      → is_complete d ≡ false
      → Ends id fs (record n { datagram = d }) r
      → Ends id (f ∷ fs) n r
  unfolding run_loop
  part_Ends id first f fs n d r h e read c (g, back, runs) = (
    g,
    back,
    rw (round_frame f n, take_frame_part f n first d (frame_id id first f h e).0 read c) runs,
  )

  pub frames_Ends :
      (id : ℕ) (first : Bool) (bs : Bytes) (fs : List Frame) (n : Node) (r : Datagram)
      → id < 2 ^ 7
      → Frames id first bs fs
      → bs ≢ []
      → input_quiet (begun first n.datagram) bs ≡ some r
      → is_complete r ≡ true
      → Ends id fs n r
  frames_Ends id first [] [] n r h nil ne q c = absurd (ne refl)
  frames_Ends id first (b ∷ bs) [] n r h fs ne q c = elim fs [ ]
  frames_Ends id first bs (f ∷ fs) n r h (frame ne e bytes rest) _ q c =
      let (d, read, more) =
        quiet_prefix (take 8 bs) (drop 8 bs) (begun first n.datagram) {d = r}
          (rw take-append-drop q) in
      elim (end_or_more rest) [
        | inl (none_left, no_frames) ↦ rw no_frames (
            last_Ends id first f n r h e
              (rw bytes (read ∙ sym (input_quiet-nil d) ∙ (rw none_left at more))) c)
        | inr left ↦
            part_Ends id first f fs n d r h e (rw bytes read)
              (quiet_start d (drop 8 bs) {r = r} left more)
              (frames_Ends id false (drop 8 bs) fs (record n { datagram = d }) r h rest left more c)
      ]
