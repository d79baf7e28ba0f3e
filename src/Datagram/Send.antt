-- ===== src/Datagram/Send.antt =====
-- What a call of `can_datagram_output_bytes` stores, returns and leaves.
use native.Mathlib.Numerals.{add-one}
use bootloader_proposal.Base.{
  ℕ, zero, suc, ◌+◌, ◌≤◌, ◌<◌, min, ◌≡◌, ◌≢◌, refl, ap, ◌∙◌, sym, some, [], ◌∷◌, ◌++◌, set?-some,
  set, length-set, length, take, drop, arith, Bytes, append-nil, append_assoc, take-suc-set,
}
use bootloader_proposal.Datagram.{Datagram}
use bootloader_proposal.Datagram.Writer.{Round, output_in, output_from, output_bytes, Output}
use bootloader_proposal.Datagram.Pending.{Sends, unsent}
use bootloader_proposal.Datagram.Rounds.{Sent, at_end, to_end, onward, round-Sent, cons-ne_nil}

-- What a call has done when it starts at index `i` with bytes left: it stores as many of them as
-- it has rounds for, and the rest is left.
record Wrote (buf : Bytes) (dt : Datagram) (left i : ℕ) (o : Output) : Type 0 where
  count : o.count ≡ i + min left (length (unsent dt))
  bytes : take o.count o.buffer ≡ take i buf ++ take left (unsent dt)
  size : length o.buffer ≡ length buf
  rest : unsent o.datagram ≡ drop left (unsent dt)
  sends : Sends o.datagram

take-nil : (n : ℕ) → take {A = ℕ} n [] ≡ []
take-nil zero = refl
take-nil (suc n) = refl

drop-nil : (n : ℕ) → drop {A = ℕ} n [] ≡ []
drop-nil zero = refl
drop-nil (suc n) = refl

abbrev Writes : Bytes → Datagram → ℕ → ℕ → Type 0
Writes buf dt left i = (o : Output) × (output_from left i buf dt ≡ some o) × Wrote buf dt left i o

take-add_one-set :
    (buf : Bytes) (i b : ℕ) → i < length buf → take (i + 1) (set buf i b) ≡ take i buf ++ b ∷ []
take-add_one-set buf i b h = rw add-one (take-suc-set buf i b h)

output_round :
    (left i : ℕ) (buf : Bytes) (dt : Datagram) {r : Round}
    → i + suc left ≤ length buf
    → unsent dt ≢ []
    → ((buf' : Bytes) (dt' : Datagram)
        → Sends dt'
        → unsent dt' ≢ []
        → i + 1 + left ≤ length buf'
        → Writes buf' dt' left (i + 1))
    → output_in dt.writer_state dt ≡ some r
    → Sent dt r
    → Writes buf dt (suc left) i
unfolding output_from
output_round left i buf dt fits more ih e (at_end none_left) = absurd (more none_left)
output_round left i buf dt fits more ih e (to_end {b} {dt'} s p q) =
    rw (e, set?-some buf i b (omega arith))
      (
        _,
        refl,
        record {
          count = rw p (omega arith);
          bytes = rw (p, take-nil) (take-add_one-set buf i b (omega arith));
          size = length-set buf i b;
          rest = rw (p, drop-nil) q;
          sends = s;
        },
      )
output_round left i buf dt fits more ih e (onward {b} {dt'} s p q) =
    let (o, done, w) = ih (set buf i b) dt' s q (omega (arith, length-set buf i b)) in
    rw (e, set?-some buf i b (omega arith))
      (
        o,
        done,
        record {
          count = rw p (omega (arith, w.count));
          bytes = rw p (
              w.bytes
              ∙ ap (λ xs. xs ++ take left (unsent dt')) (take-add_one-set buf i b (omega arith))
              ∙ append_assoc (take i buf) (b ∷ []) (take left (unsent dt')));
          size = w.size ∙ length-set buf i b;
          rest = rw p w.rest;
          sends = w.sends;
        },
      )

output_from-Wrote :
    (left i : ℕ) (buf : Bytes) (dt : Datagram)
    → Sends dt
    → unsent dt ≢ []
    → i + left ≤ length buf
    → Writes buf dt left i
unfolding output_from
output_from-Wrote zero i buf dt s more fits = (
  _,
  refl,
  record { count = omega arith; bytes = sym (append-nil _); size = refl; rest = refl; sends = s },
)
output_from-Wrote (suc left) i buf dt s more fits =
    let (r, e, t) = round-Sent dt s in
    output_round left i buf dt fits more
      (λ buf' dt' s' more' fits'. output_from-Wrote left (i + 1) buf' dt' s' more' fits') e t

-- Of a datagram whose address list and data are not empty and are in its buffers, and that is not sent
-- whole yet, `can_datagram_output_bytes` stores the next bytes, as many as the buffer takes or are
-- left, returns their number, and leaves the others for the next call. It makes no access outside
-- its buffers.
pub output_bytes_lem :
    (dt : Datagram) (buf : Bytes) (n : ℕ)
    → Sends dt
    → unsent dt ≢ []
    → n ≤ length buf
    → (o : Output) × (output_bytes dt buf n ≡ some o)
      × (o.count ≡ min n (length (unsent dt)))
      × (take o.count o.buffer ≡ take n (unsent dt))
      × (length o.buffer ≡ length buf)
      × (unsent o.datagram ≡ drop n (unsent dt))
      × Sends o.datagram
unfolding output_bytes
output_bytes_lem dt buf n s more fits =
    let (o, done, w) = output_from-Wrote n 0 buf dt s more (omega arith) in
    (o, done, omega (arith, w.count), w.bytes, w.size, w.rest, w.sends)

ended_round :
    (dt : Datagram) (buf : Bytes) (n : ℕ) {r : Round}
    → unsent dt ≡ []
    → output_in dt.writer_state dt ≡ some r
    → Sent dt r
    → output_from (suc n) 0 buf dt ≡ some (record { count = 0; buffer = buf; datagram = dt })
unfolding output_from
ended_round dt buf n none_left e (at_end h) = rw e
ended_round dt buf n none_left e (to_end s p q) = absurd (cons-ne_nil _ _ (sym p ∙ none_left))
ended_round dt buf n none_left e (onward s p q) = absurd (cons-ne_nil _ _ (sym p ∙ none_left))

-- When no byte of the datagram is left, `can_datagram_output_bytes` returns 0 for any buffer of
-- one byte or more, and changes nothing.
pub output_bytes_done :
    (dt : Datagram) (buf : Bytes) (n : ℕ)
    → Sends dt
    → unsent dt ≡ []
    → output_bytes dt buf (suc n) ≡ some (record { count = 0; buffer = buf; datagram = dt })
unfolding output_bytes
output_bytes_done dt buf n s none_left =
    let (r, e, t) = round-Sent dt s in ended_round dt buf n none_left e t
