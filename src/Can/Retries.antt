-- ===== src/Can/Retries.antt =====
-- What the retries of the CAN driver achieve.
use native.Mathlib.Nat.{add-zero, zero-add}
use bootloader_proposal.Base.{
  ℕ, zero, suc, ◌+◌, ◌≤◌, ◌<◌, ◌≡◌, inl, inr, refl, ◌∙◌, Bool, true, false, none, some, [], ◌∷◌,
  ◌++◌, if◌then◌else◌, Bool-cases, arith,
}
use bootloader_proposal.Can.{
  Frame, Bus, transmit, busy_wait, send_message, wait_message, read_message,
}

-- A message goes out once, at the first attempt that succeeds among `retries + 1`.
pub record SentOnce (f : Frame) (retries : ℕ) (b b' : Bus) : Type 0 where
  pub attempt : ℕ
  pub from : b.attempts ≤ attempt
  pub within : attempt ≤ b.attempts + retries
  pub failed : (i : ℕ) → b.attempts ≤ i → i < attempt → b.txok i ≡ false
  pub succeeded : b.txok attempt ≡ true
  pub wire : b'.wire ≡ b.wire ++ f ∷ []
  pub attempts : b'.attempts ≡ attempt + 1
  pub txok : b'.txok ≡ b.txok

-- All attempts fail, and nothing goes out.
pub record NotSent (retries : ℕ) (b b' : Bus) : Type 0 where
  pub failed : (i : ℕ) → b.attempts ≤ i → i ≤ b.attempts + retries → b.txok i ≡ false
  pub wire : b'.wire ≡ b.wire
  pub attempts : b'.attempts ≡ b.attempts + retries + 1
  pub txok : b'.txok ≡ b.txok

abbrev pub SendSpec : Frame → ℕ → Bus → Bool × Bus → Type 0
SendSpec f retries b (true, b') = SentOnce f retries b b'
SendSpec f retries b (false, b') = NotSent retries b b'

abbrev pub sent_state : Frame → Bus → Bus
sent_state f b = record b {
  attempts = b.attempts + 1;
  reads = b.reads + busy_wait (b.busy b.attempts);
  wire = b.wire ++ f ∷ [];
}

sent_first :
    (f : Frame) (b : Bus) (retries : ℕ)
    → b.txok b.attempts ≡ true
    → SentOnce f retries b (sent_state f b)
sent_first f b retries ok = record {
  attempt = b.attempts;
  from = omega arith;
  within = omega arith;
  failed = λ i lo hi. absurd (omega arith);
  succeeded = ok;
  wire = refl;
  attempts = refl;
  txok = refl;
}

-- one failed attempt before the others
after_failure :
    (f : Frame) (b : Bus) (retries : ℕ) (r : Bool × Bus)
    → b.txok b.attempts ≡ false
    → SendSpec f retries (transmit f b).1 r
    → SendSpec f (suc retries) b r
unfolding transmit
after_failure f b retries (true, b') bad s = record {
  attempt = s.attempt;
  from = omega (arith, s.from);
  within = omega (arith, s.within);
  failed = λ i lo hi. ground (arith, s.failed i);
  succeeded = s.succeeded;
  wire = s.wire ∙ rw bad;
  attempts = s.attempts;
  txok = s.txok;
}
after_failure f b retries (false, b') bad s = record {
  failed = λ i lo hi. ground (arith, s.failed i);
  wire = s.wire ∙ rw bad;
  attempts = omega (arith, s.attempts);
  txok = s.txok;
}

-- `can_interface_send_message` makes at most `retries + 1` attempts. It returns true just if one
-- succeeds; then the frame has gone out once, and no attempt is made after it. Otherwise it
-- returns false and nothing has gone out.
pub send_message_lem :
    (retries : ℕ) (f : Frame) (b : Bus) → SendSpec f retries b (send_message retries f b)
unfolding send_message transmit
send_message_lem zero f b = elim (Bool-cases (b.txok b.attempts)) [
  | inl ok ↦ rw ok (sent_first f b 0 ok)
  | inr bad ↦ rw bad (record {
    failed = λ i lo hi. ground arith;
    wire = refl;
    attempts = omega arith;
    txok = refl;
  })
]
send_message_lem (suc retries) f b = elim (Bool-cases (b.txok b.attempts)) [
  | inl ok ↦ rw ok (sent_first f b (suc retries) ok)
  | inr bad ↦
      let ih =
        after_failure f b retries (send_message retries f (transmit f b).1) bad
          (send_message_lem retries f (transmit f b).1) in
      rw bad (rw bad at ih)
]

stays_pending :
    (pending : ℕ → Bool)
    → ((n : ℕ) → pending n ≡ true → pending (n + 1) ≡ true)
    → (k n : ℕ) → pending n ≡ true
    → pending (n + k) ≡ true
stays_pending pending stays zero n h = rw add-zero h
stays_pending pending stays (suc k) n h =
    let e : n + suc k ≡ n + 1 + k = omega arith in
    rw e (stays_pending pending stays k (n + 1) (stays n h))

wait_message-end :
    (pending : ℕ → Bool)
    → ((n : ℕ) → pending n ≡ true → pending (n + 1) ≡ true)
    → (retries n : ℕ) → pending (wait_message pending retries n) ≡ pending (n + retries)
unfolding wait_message
wait_message-end pending stays zero n = rw add-zero
wait_message-end pending stays (suc retries) n =
    let e : n + suc retries ≡ n + 1 + retries = omega arith in
    elim (Bool-cases (pending n)) [
      | inl now ↦ rw (now, stays n now, stays_pending pending stays (suc retries) n now)
      | inr later ↦ rw (later, e) (wait_message-end pending stays retries (n + 1))
    ]

-- A message that has come in stays in the FIFO until it is read. Then
-- `can_interface_read_message` gives the message just if it has come in by poll number `retries`.
pub read_message_lem :
    (pending : ℕ → Bool) (f : Frame) (retries : ℕ)
    → ((n : ℕ) → pending n ≡ true → pending (n + 1) ≡ true)
    → read_message pending f retries ≡ (if pending retries then some f else none)
unfolding read_message
read_message_lem pending f retries stays = rw (wait_message-end pending stays retries 0, zero-add)

-- A message goes out at once when the first attempt succeeds.
pub send_message_ok :
    (retries : ℕ) (f : Frame) (b : Bus)
    → b.txok b.attempts ≡ true
    → send_message retries f b ≡ (true, sent_state f b)
unfolding send_message transmit
send_message_ok zero f b ok = rw ok
send_message_ok (suc retries) f b ok = rw ok
