-- ===== src/Datagram/Rounds.antt =====
-- One round of the loop in `can_datagram_output_bytes`, and the bytes left.
use native.Mathlib.Numerals.{add-one}
use bootloader_proposal.Base.{
  ℕ, zero, suc, ◌+◌, ◌%◌, ◌≤◌, ◌<◌, ◌≡◌, ◌≢◌, refl, ap, ◌∙◌, some, [], ◌∷◌, ◌++◌, ◌==◌, Bool-cases,
  inl, inr, length, take, drop, drop-all, drop-of-get_elem?, get_elem?, get_elem?-some,
  get_elem?-take, length-take, length-drop, arith, Bytes, be32, u8_mod, u16_mod,
}
use bootloader_proposal.Datagram.{
  Datagram, State, state_protocol_version, state_crc, state_dst_len, state_dst, state_data_len,
  state_data, state_trailing,
}
use bootloader_proposal.Datagram.Writer.{word_byte, Round, finished, last, stored, output_in}
use bootloader_proposal.Datagram.Pending.{nodes_of, body_of, Sends, unsent}

-- What one round does to the bytes left.
pub data Sent (dt : Datagram) : Round → Type 0 where
  at_end : unsent dt ≡ [] → Sent dt finished
  to_end :
      {b : ℕ} {dt' : Datagram}
      → Sends dt'
      → unsent dt ≡ b ∷ []
      → unsent dt' ≡ []
      → Sent dt (last b dt')
  onward :
      {b : ℕ} {dt' : Datagram}
      → Sends dt'
      → unsent dt ≡ b ∷ unsent dt'
      → unsent dt' ≢ []
      → Sent dt (stored b dt')

abbrev in_state : State → Datagram → Datagram
in_state s dt = record dt { writer_state = s }

abbrev pub Goes : Datagram → Type 0
Goes dt = (r : Round) × (output_in dt.writer_state dt ≡ some r) × Sent dt r

drop-be32 : (w k : ℕ) → k < 4 → drop k (be32 w) ≡ word_byte w k ∷ drop (k + 1) (be32 w)
drop-be32 w zero h = refl
drop-be32 w (suc zero) h = refl
drop-be32 w (suc (suc zero)) h = refl
drop-be32 w (suc (suc (suc zero))) h = refl
drop-be32 w (suc (suc (suc (suc k)))) h = absurd (omega arith)

drop-be32_last : (w k : ℕ) → k + 1 ≡ 4 → drop k (be32 w) ≡ word_byte w k ∷ []
drop-be32_last w k e = drop-be32 w k (omega arith) ∙ ap (λ m. word_byte w k ∷ drop m (be32 w)) e

take-pos : (n : ℕ) (xs : Bytes) → 0 < n → n ≤ length xs → take n xs ≢ []
take-pos n xs p q e = omega (arith, length-take n xs, ap length e)

drop-pos : (k : ℕ) (xs : Bytes) → k < length xs → drop k xs ≢ []
drop-pos k xs p e = omega (arith, length-drop k xs, ap length e)

append-ne_nil : (xs ys : Bytes) → ys ≢ [] → xs ++ ys ≢ []
append-ne_nil [] ys h e = h e
append-ne_nil (x ∷ xs) ys h e = cc

pub cons-ne_nil : (x : ℕ) (xs : Bytes) → x ∷ xs ≢ []
cons-ne_nil x xs e = cc

-- Reading the next byte of the first `n` of a buffer.
next-drop :
    (n k : ℕ) (xs : Bytes)
    → k < n
    → n ≤ length xs
    → (b : ℕ) × (get_elem? xs k ≡ some b) × (drop k (take n xs) ≡ b ∷ drop (k + 1) (take n xs))
next-drop n k xs p q =
    let (b, e) = get_elem?-some xs k (omega arith) in
    (b, e, rw add-one (drop-of-get_elem? (take n xs) k (get_elem?-take xs n k p ∙ e)))

sent_version :
    (dt : Datagram)
    → Sends (in_state state_protocol_version dt)
    → Goes (in_state state_protocol_version dt)
unfolding output_in
sent_version dt s = (
  stored (dt.protocol_version % u8_mod) (in_state state_crc dt),
  refl,
  onward (ground arith) (rw (s.progress.0)) (append-ne_nil _ _ (cons-ne_nil _ _)),
)

sent_crc : (dt : Datagram) → Sends (in_state state_crc dt) → Goes (in_state state_crc dt)
unfolding output_in
sent_crc dt s =
    let k = dt.crc_bytes_written in
    elim (Bool-cases (k + 1 == 4)) [
      | inl h ↦ rw h (
        _,
        refl,
        onward (ground arith) (rw (drop-be32_last dt.crc k (ground arith))) (cons-ne_nil _ _),
      )
      | inr h ↦ rw h (
        _,
        refl,
        onward (ground arith) (rw (drop-be32 dt.crc k (omega arith)))
            (append-ne_nil _ _ (cons-ne_nil _ _)),
      )
    ]

sent_dst_len :
    (dt : Datagram) → Sends (in_state state_dst_len dt) → Goes (in_state state_dst_len dt)
unfolding output_in
sent_dst_len dt s =
    (_, refl, onward (ground arith) (rw (s.progress.0)) (append-ne_nil _ _ (cons-ne_nil _ _)))

sent_dst : (dt : Datagram) → Sends (in_state state_dst dt) → Goes (in_state state_dst dt)
unfolding output_in
sent_dst dt s =
    let k = dt.destination_nodes_written in
    let n = dt.destination_nodes_len in
    let wrap : (k + 1) % u8_mod ≡ k + 1 = omega arith in
    let (b, read, left) = next-drop n k dt.destination_nodes s.progress.0 s.nodes_there in
    let short = length-take n dt.destination_nodes in
    elim (Bool-cases (k + 1 == n)) [
      | inl h ↦
          let nil = drop-all (k + 1) (nodes_of dt) (ground (arith, short)) in
          let body = take-pos dt.data_len dt.payload s.body_pos s.body_there in
          rw (wrap, read, h)
            (_, refl, onward (ground arith) (rw (left, nil, s.progress.1)) (append-ne_nil _ _ body))
      | inr h ↦
          rw (wrap, read, h)
            (_, refl, onward (ground arith) (rw left) (append-ne_nil _ _ (cons-ne_nil _ _)))
    ]

sent_data_len :
    (dt : Datagram) → Sends (in_state state_data_len dt) → Goes (in_state state_data_len dt)
unfolding output_in
sent_data_len dt s =
    let k = dt.data_length_bytes_written in
    let body = take-pos dt.data_len dt.payload s.body_pos s.body_there in
    elim (Bool-cases (k + 1 == 4)) [
      | inl h ↦ rw h (
        _,
        refl,
        onward (ground arith) (rw (drop-be32_last dt.data_len k (ground arith), s.progress.1))
            (rw (s.progress.1) body),
      )
      | inr h ↦ rw h (
        _,
        refl,
        onward (ground arith) (rw (drop-be32 dt.data_len k (omega arith))) (append-ne_nil _ _ body),
      )
    ]

sent_data : (dt : Datagram) → Sends (in_state state_data dt) → Goes (in_state state_data dt)
unfolding output_in
sent_data dt s =
    let k = dt.data_bytes_written in
    let n = dt.data_len in
    let short = length-take n dt.payload in
    elim (Bool-cases (k == n)) [
      | inl h ↦ rw h (_, refl, at_end (drop-all k (body_of dt) (ground (arith, short))))
      | inr h ↦
          let wrap : (k + 1) % u16_mod ≡ k + 1 = ground arith in
          let (b, read, left) = next-drop n k dt.payload (ground arith) s.body_there in
          elim (Bool-cases (k + 1 == n)) [
            | inl e ↦
                let nil = drop-all (k + 1) (body_of dt) (ground (arith, short)) in
                rw (h, wrap, read, e) (_, refl, to_end (ground arith) (left ∙ ap (◌∷◌ b) nil) nil)
            | inr e ↦
                rw (h, wrap, read, e)
                  (
                    _,
                    refl,
                    onward (ground arith) left
                        (drop-pos (k + 1) (body_of dt) (ground (arith, short))),
                  )
          ]
    ]

sent : (s : State) (dt : Datagram) → Sends (in_state s dt) → Goes (in_state s dt)
sent state_protocol_version dt h = sent_version dt h
sent state_crc dt h = sent_crc dt h
sent state_dst_len dt h = sent_dst_len dt h
sent state_dst dt h = sent_dst dt h
sent state_data_len dt h = sent_data_len dt h
sent state_data dt h = sent_data dt h
sent state_trailing dt h = absurd h.progress

-- One round of the loop sends the first byte that is left.
pub round-Sent : (dt : Datagram) → Sends dt → Goes dt
round-Sent dt h = sent dt.writer_state dt h
