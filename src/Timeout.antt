-- ===== src/Timeout.antt =====
-- timeout.h and platform/mcu/armv7-m/timeout_timer.c. The SysTick counter is hardware: what is read of
-- it, its value and the flag of an underflow, is a function of what was last written to STK_CVR and of
-- the ticks since then. The constant STK_RVR_RELOAD of libopencm3 is a parameter.
use native.Mathlib.Nat.{le-div_iff_mul-le}
use bootloader_proposal.Base.{
  ℕ, ◌+◌, ◌-◌, ◌*◌, ◌/◌, ◌%◌, ◌≤◌, ◌<◌, ◌≡◌, ◌↔◌, ap, ◌∙◌, Bool, true, List, [], ◌∷◌, if◌then◌else◌,
  ltb, lt→ltb, arith, u32_mod,
}

pub record Reading : Type 0 where
  pub value : ℕ
  pub underflow : Bool

-- the counter: what was last written to STK_CVR, and the ticks since then
pub record Systick : Type 0 where
  pub written : ℕ
  pub since : ℕ

-- the static variables
pub record Timer : Type 0 where
  pub timer_freq : ℕ
  pub timeout_in_millisec : ℕ
  pub sys_ticks : ℕ

ltb_iff : (a b : ℕ) {P : Type 0} → (a + 1 ≤ b) ↔ P → (ltb a b ≡ true) ↔ P
ltb_iff a b (f, g) = (λ h. f (ground arith), λ p. lt→ltb a b (omega (arith, g p)))

-- `reads` is what is read after a write and a number of ticks.
module _ (reload : ℕ) (reads : (written since : ℕ) → Reading) where
  -- `sys_ticks` after the two additions, which wrap as `uint32_t`
  unfoldable pub add_ticks : Reading → ℕ → ℕ
  add_ticks r ticks =
      let ticks = (ticks + (reload + u32_mod - r.value)) % u32_mod in
      if r.underflow then (ticks + (reload + 1)) % u32_mod else ticks

  unfoldable pub timeout_reached : Timer → Systick → Bool × Timer × Systick
  unfolding add_ticks
  timeout_reached t k =
      let ticks = add_ticks (reads k.written k.since) t.sys_ticks in
      let k = record k { written = reload; since = 0 } in
      (ltb t.timeout_in_millisec (ticks / (t.timer_freq / 1000)), record t { sys_ticks = ticks }, k)

  abbrev pub passed : ℕ → Systick → Systick
  passed n k = record k { since = k.since + n }

  -- the calls of the main loop, each after a number of ticks
  unfoldable pub poll : List ℕ → Timer → Systick → Timer × Systick
  unfolding timeout_reached
  poll [] t k = (t, k)
  poll (n ∷ ns) t k = let (reached, t', k') = timeout_reached t (passed n k) in poll ns t' k'

  -- the ticks, less a number of them for each call
  unfoldable pub total : (lag : ℕ) → List ℕ → ℕ
  total lag [] = 0
  total lag (n ∷ ns) = (n - lag) + total lag ns

  -- the ticks that a reading stands for in the source
  abbrev pub elapsed : Reading → ℕ
  elapsed r = (reload - r.value) + (if r.underflow then reload + 1 else 0)

  -- Behind a write of the reload value, the counter starts at it after `lag` ticks (the write
  -- clears it, and the next tick loads it), counts down, and the flag stands for one period, up to
  -- `most` ticks.
  pub record CountsDown (lag most : ℕ) : Type 0 where
    pub value : (n : ℕ) → lag ≤ n → n ≤ most → (reads reload n).value ≤ reload
    pub ticks : (n : ℕ) → lag ≤ n → n ≤ most → elapsed (reads reload n) ≡ n - lag

  -- The ticks between two calls are in these bounds.
  abbrev pub Within : (lag most : ℕ) → List ℕ → Type 0
  Within lag most [] = Unit {0}
  Within lag most (n ∷ ns) = ((lag ≤ n) × (n ≤ most)) × Within lag most ns

  module _ (lag most : ℕ) (counts : CountsDown lag most) where
    add_ticks-counted :
        (n ticks : ℕ)
        → lag ≤ n
        → n ≤ most
        → ticks + (n - lag) < u32_mod
        → add_ticks (reads reload n) ticks ≡ ticks + (n - lag)
    unfolding add_ticks
    add_ticks-counted n ticks ge le small =
        ground (arith, counts.value n ge le, counts.ticks n ge le)

    abbrev ticked : Timer → ℕ → Timer
    ticked t n = record t { sys_ticks = n }

    abbrev fresh : Systick
    fresh = record { written = reload; since = 0 }

    poll-total :
        (ns : List ℕ) (t : Timer)
        → Within lag most ns
        → t.sys_ticks + total lag ns < u32_mod
        → poll ns t fresh ≡ (ticked t (t.sys_ticks + total lag ns), fresh)
    unfolding poll timeout_reached total
    poll-total [] t h small = ap (λ n. (ticked t n, fresh)) {x = t.sys_ticks} (omega arith)
    poll-total (n ∷ ns) t h small =
        let e : add_ticks (reads reload n) t.sys_ticks ≡ t.sys_ticks + (n - lag) =
          add_ticks-counted n t.sys_ticks h.0.0 h.0.1 (omega arith) in
        let z : 0 + n ≡ n = omega arith in
        rw (z, e)
          (poll-total ns (ticked t (t.sys_ticks + (n - lag))) h.1 (omega arith)
            ∙ ap (λ m. (ticked t m, fresh)) {x = t.sys_ticks + (n - lag) + total lag ns}
                (omega arith))

    pub timeout_reached-total :
        (ns : List ℕ) (n : ℕ) (t : Timer)
        → Within lag most (n ∷ ns)
        → t.sys_ticks ≡ 0
        → total lag ns + (n - lag) < u32_mod
        → 0 < t.timer_freq / 1000
        → let (t', k') = poll ns t (record { written = reload; since = 0 }) in
          ((timeout_reached t' (passed n k')).0 ≡ true)
          ↔ ((t.timeout_in_millisec + 1) * (t.timer_freq / 1000) ≤ total lag ns + (n - lag))
    unfolding timeout_reached
    timeout_reached-total ns n t h start small fast =
        let e = poll-total ns t h.1 (omega arith) in
        let z : 0 + n ≡ n = omega arith in
        let e' : add_ticks (reads reload n) (t.sys_ticks + total lag ns)
            ≡ total lag ns + (n - lag) =
          add_ticks-counted n (t.sys_ticks + total lag ns) h.0.0 h.0.1 (omega arith)
          ∙ omega arith in
        rw (e, z, e') (ltb_iff _ _ (le-div_iff_mul-le fast))
