-- ===== src/Datagram/Sizes.antt =====
-- The reader's buffers, whatever bytes come.
use bootloader_proposal.Base.{
  if◌then◌else◌, true, false, Bool, ℕ, ◌≡◌, refl, ◌∙◌, some, [], ◌∷◌, some_inj, >>=-eq-some, length,
  length-set, set?, ltb, u16_mod, ◌<◌, Bool, true, false, Bool-cases, inl, inr, arith, Bytes,
}
use bootloader_proposal.Datagram.Packet.{Packet}
use bootloader_proposal.Datagram.Receive.{HasRoom}
use mathlib.Core.Path.{subst}
use bootloader_proposal.Datagram.{
  Datagram, State, state_protocol_version, state_crc, state_dst_len, state_dst, state_data_len,
  state_data, state_trailing, input_byte, input_bytes, start, init, set_address_buffer,
  set_data_buffer,
}

-- The buffers of two datagrams have the same sizes.
pub record SameSizes (dt d : Datagram) : Type 0 where
  pub nodes : length d.destination_nodes ≡ length dt.destination_nodes
  pub body : length d.payload ≡ length dt.payload
  pub size : d.data_buffer_size ≡ dt.data_buffer_size

pub SameSizes-refl : (dt : Datagram) → SameSizes dt dt
SameSizes-refl dt = record { nodes = refl; body = refl; size = refl }

pub SameSizes-trans : (a b c : Datagram) → SameSizes a b → SameSizes b c → SameSizes a c
SameSizes-trans a b c f g = record {
  nodes = g.nodes ∙ f.nodes;
  body = g.body ∙ f.body;
  size = g.size ∙ f.size;
}

pub start-SameSizes : (dt : Datagram) → SameSizes dt (start dt)
unfolding start
start-SameSizes dt = record { nodes = refl; body = refl; size = refl }

length-set? : (xs ys : Bytes) (i v : ℕ) → set? xs i v ≡ some ys → length ys ≡ length xs
length-set? xs ys i v e = elim (Bool-cases (ltb i (length xs))) [
  | inl t ↦ ground (arith, rw t at e, length-set xs i v)
  | inr f ↦ absurd (ground (arith, rw f at e))
]

read_as : (dt : Datagram) {x d : Datagram} → some x ≡ some d → SameSizes dt x → SameSizes dt d
read_as dt e h = subst (SameSizes dt) (some_inj e) h

sizes_in :
    (s : State) (dt : Datagram) (b : ℕ) {d : Datagram}
    → input_byte (record dt { reader_state = s }) b ≡ some d
    → SameSizes dt d
unfolding input_byte
sizes_in state_protocol_version dt b e =
    read_as dt e (record { nodes = refl; body = refl; size = refl })
sizes_in state_crc dt b e = read_as dt e (record { nodes = refl; body = refl; size = refl })
sizes_in state_dst_len dt b e = read_as dt e (record { nodes = refl; body = refl; size = refl })
sizes_in state_dst dt b e =
    let (buf, stored, more) =
      >>=-eq-some (set? dt.destination_nodes dt.destination_nodes_read b) _ e in
    read_as dt more
      (record { nodes = length-set? dt.destination_nodes buf _ b stored; body = refl; size = refl })
sizes_in state_data_len dt b e = read_as dt e (record { nodes = refl; body = refl; size = refl })
sizes_in state_data dt b e =
    let (buf, stored, more) = >>=-eq-some (set? dt.payload dt.data_bytes_read b) _ e in
    read_as dt more
      (record { nodes = refl; body = length-set? dt.payload buf _ b stored; size = refl })
sizes_in state_trailing dt b e = read_as dt e (record { nodes = refl; body = refl; size = refl })

-- Reading bytes keeps the sizes.
pub input_bytes-SameSizes :
    (bs : Bytes) (dt : Datagram) {d : Datagram} → input_bytes dt bs ≡ some d → SameSizes dt d
unfolding input_bytes
input_bytes-SameSizes [] dt e = read_as dt e (SameSizes-refl dt)
input_bytes-SameSizes (b ∷ bs) dt {d} e =
    let (d₁, read, more) = >>=-eq-some (input_byte dt b) (λ d. input_bytes d bs) e in
    SameSizes-trans dt d₁ d (sizes_in dt.reader_state dt b read) (input_bytes-SameSizes bs d₁ more)

-- So do the bytes of a frame.
pub read-SameSizes :
    (first : Bool) (bs : Bytes) (dt d : Datagram)
    → input_bytes (if first then start dt else dt) bs ≡ some d
    → SameSizes dt d
read-SameSizes false bs dt d e = input_bytes-SameSizes bs dt e
read-SameSizes true bs dt d e =
    SameSizes-trans dt (start dt) d (start-SameSizes dt) (input_bytes-SameSizes bs (start dt) e)

pub HasRoom-SameSizes : {dt d : Datagram} {p : Packet} → SameSizes dt d → HasRoom dt p → HasRoom d p
HasRoom-SameSizes same room = record {
  nodes_fit = omega (arith, same.nodes, room.nodes_fit);
  body_fits = omega (arith, same.body, room.body_fits);
  size_fits = omega (arith, same.size, room.size_fits);
}

-- A datagram over an address buffer and a data buffer of the given sizes, the second declared.
pub record HasSizes (nodes body : ℕ) (dt : Datagram) : Type 0 where
  pub nodes_there : length dt.destination_nodes ≡ nodes
  pub body_there : length dt.payload ≡ body
  pub declared : dt.data_buffer_size ≡ body

pub HasSizes-SameSizes :
    {nodes body : ℕ} {dt d : Datagram}
    → SameSizes dt d
    → HasSizes nodes body dt
    → HasSizes nodes body d
HasSizes-SameSizes same sizes = record {
  nodes_there = same.nodes ∙ sizes.nodes_there;
  body_there = same.body ∙ sizes.body_there;
  declared = same.size ∙ sizes.declared;
}

pub set_up-HasSizes :
    {nodes body : ℕ} (addresses bytes : Bytes)
    → length addresses ≡ nodes
    → length bytes ≡ body
    → body < u16_mod
    → HasSizes nodes body
        (start (set_data_buffer (set_address_buffer init addresses) bytes (length bytes)))
unfolding start set_data_buffer set_address_buffer init
set_up-HasSizes addresses bytes there size h = record {
  nodes_there = there;
  body_there = size;
  declared = omega arith;
}
