-- ===== src/Datagram/Quiet.antt =====
-- Runs of the reader in which no datagram is complete before the last byte.
use bootloader_proposal.Base.{
  ℕ, ◌≡◌, ◌≢◌, refl, false, Option, none, some, [], ◌∷◌, ◌++◌, ◌>>=◌, >>=-eq-some, Bool-cases, inl,
  inr, if◌then◌else◌, arith, Bytes,
}
use bootloader_proposal.Datagram.{Datagram, state_trailing, input_byte, input_bytes, is_complete}

-- The reader fed byte by byte, while no datagram is complete before the last byte.
pub input_quiet : Datagram → Bytes → Option Datagram
input_quiet dt [] = some dt
input_quiet dt (b ∷ bs) =
    if is_complete dt then none else input_byte dt b >>= λ dt'. input_quiet dt' bs

pub input_quiet-nil : (dt : Datagram) → input_quiet dt [] ≡ some dt
unfolding input_quiet
input_quiet-nil dt = refl

pub input_quiet-cons :
    (dt : Datagram) (b : ℕ) (bs : Bytes)
    → is_complete dt ≡ false
    → input_quiet dt (b ∷ bs) ≡ (input_byte dt b >>= λ dt'. input_quiet dt' bs)
unfolding input_quiet
input_quiet-cons dt b bs h = rw h

pub not_complete_length : (dt : Datagram) → dt.data_length_bytes_read ≢ 4 → is_complete dt ≡ false
unfolding is_complete
not_complete_length dt h = ground arith

pub not_complete_data : (dt : Datagram) → dt.data_bytes_read ≢ dt.data_len → is_complete dt ≡ false
unfolding is_complete
not_complete_data dt h = ground arith

pub input_bytes-append :
    (xs ys : Bytes) (dt : Datagram)
    → input_bytes dt (xs ++ ys) ≡ (input_bytes dt xs >>= λ d. input_bytes d ys)
unfolding input_bytes
input_bytes-append [] ys dt = refl
input_bytes-append (x ∷ xs) ys dt = step (input_byte dt x) (input_bytes-append xs ys)
  where
    step :
        (o : Option Datagram)
        → ((d : Datagram)
            → input_bytes d (xs ++ ys) ≡ (input_bytes d xs >>= λ d'. input_bytes d' ys))
        → (o >>= λ d. input_bytes d (xs ++ ys))
          ≡ ((o >>= λ d. input_bytes d xs) >>= λ d. input_bytes d ys)
    step none ih = refl
    step (some d) ih = ih d

pub input_quiet_step :
    (dt : Datagram) (x : ℕ) (xs : Bytes) {d : Datagram}
    → input_quiet dt (x ∷ xs) ≡ some d
    → (is_complete dt ≡ false)
      × (e : Datagram) × (input_byte dt x ≡ some e)
      × (input_quiet e xs ≡ some d)
unfolding input_quiet
input_quiet_step dt x xs h = elim (Bool-cases (is_complete dt)) [
  | inl c ↦ ground arith
  | inr c ↦
      let (e, read, more) = >>=-eq-some (input_byte dt x) (λ e. input_quiet e xs) (rw c at h) in
      (c, e, read, more)
]

-- A quiet run stops anywhere, and is quiet from there on.
pub quiet_prefix :
    (xs ys : Bytes) (dt : Datagram) {d : Datagram}
    → input_quiet dt (xs ++ ys) ≡ some d
    → (e : Datagram) × (input_bytes dt xs ≡ some e) × (input_quiet e ys ≡ some d)
unfolding input_bytes
quiet_prefix [] ys dt h = (dt, refl, h)
quiet_prefix (x ∷ xs) ys dt h =
    let (_, e, read, more) = input_quiet_step dt x (xs ++ ys) h in
    rw read (quiet_prefix xs ys e more)

pub input_bytes-trailing :
    (dt : Datagram) (rest : Bytes)
    → dt.reader_state ≡ state_trailing
    → input_bytes dt rest ≡ some dt
unfolding input_bytes
input_bytes-trailing dt [] e = refl
input_bytes-trailing dt (b ∷ rest) e = ground (arith, input_bytes-trailing dt rest e)

pub input_bytes_of_quiet :
    (xs : Bytes) (dt : Datagram) {d : Datagram}
    → input_quiet dt xs ≡ some d
    → input_bytes dt xs ≡ some d
unfolding input_bytes input_quiet
input_bytes_of_quiet [] dt h = h
input_bytes_of_quiet (x ∷ xs) dt h =
    let (_, e, read, more) = input_quiet_step dt x xs h in rw read (input_bytes_of_quiet xs e more)
