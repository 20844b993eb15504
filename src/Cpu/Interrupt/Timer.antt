-- ===== src/Cpu/Interrupt/Timer.antt =====
-- The timer does not drift: what the boundaries in between read does not matter.
use anc.Base.{
  ℕ, ◌+◌, ◌-◌, ◌*◌, ◌/◌, ◌≤◌, ◌<◌, ◌≡◌, refl, sym, ap, ◌∙◌, ◌⊎◌, inl, inr, true, false, arith, leb,
  ◌==◌, ==_iff, Bool-cases,
}
use anc.Cpu.State.{Cpu}
use anc.Cpu.Exc.{ok}
use anc.Cpu.Interrupt.{update_timer, count_down, millisecond}

-- The milliseconds since the timer's last tick.
abbrev pub elapsed : ℕ → Cpu → ℕ
elapsed now c = (now - c.timer_tick) / millisecond

-- The timer after a reading of the clock: the ticks are whole milliseconds, so what is left of one
-- counts at the next reading.
abbrev pub ticked : ℕ → Cpu → Cpu
ticked now c = record c {
  timer_tick = c.timer_tick + elapsed now c * millisecond;
  timer = c.timer - elapsed now c;
}

module _ (c : Cpu) where
  tick_sum :
      (a b : ℕ) → c.timer_tick + (a + b) * 1_000_000 ≡ c.timer_tick + a * 1_000_000 + b * 1_000_000
  tick_sum a b = omega arith

  -- What is left after two elapsed times in a row is what is left after their sum.
  count_split :
      (a b : ℕ)
      → c.timer_running ≡ true
      → a < c.timer
      → 1 ≤ b
      → count_down (a + b) c
        ≡ count_down b (record c { timer_tick = c.timer_tick + a * 1_000_000; timer = c.timer - a })
  unfolding count_down
  count_split a b r lt pos = elim (Bool-cases (leb c.timer (a + b))) [
    | inl h ↦ let h' : leb (c.timer - a) b ≡ true = ground arith in rw (h, h', tick_sum a b) refl
    | inr h ↦
        let h' : leb (c.timer - a) b ≡ false = ground arith in
        let left : c.timer - (a + b) ≡ c.timer - a - b = omega arith in
        rw (h, h', tick_sum a b, left) refl
  ]

  count_less :
      (e : ℕ)
      → e < c.timer
      → count_down e c
        ≡ (ok tt, record c { timer_tick = c.timer_tick + e * 1_000_000; timer = c.timer - e })
  unfolding count_down
  count_less e lt = let h : leb c.timer e ≡ false = ground arith in rw h refl

  update_zero : (now : ℕ) → elapsed now c ≡ 0 → update_timer now c ≡ (ok tt, c)
  unfolding update_timer
  update_zero now h = ground (arith, h)

  update_pos :
      (now : ℕ)
      → c.timer_running ≡ true
      → 1 ≤ elapsed now c
      → update_timer now c ≡ count_down (elapsed now c) c
  unfolding update_timer
  update_pos now r h = let n : (elapsed now c == 0) ≡ false = ground arith in rw (r, n) refl

  update_less :
      (now : ℕ)
      → c.timer_running ≡ true
      → elapsed now c < c.timer
      → update_timer now c ≡ (ok tt, ticked now c)
  update_less now r lt = elim (Bool-cases (elapsed now c == 0)) [
    | inl z ↦
        let zero_time : elapsed now c ≡ 0 = (==_iff (elapsed now c) 0).0 z in
        let tick : c.timer_tick ≡ c.timer_tick + elapsed now c * 1_000_000 = omega arith in
        let left : c.timer ≡ c.timer - elapsed now c = omega arith in
        update_zero now zero_time ∙ λ j. (ok tt, record c { timer_tick = tick j; timer = left j })
    | inr p ↦ update_pos now r (ground arith) ∙ count_less (elapsed now c) lt
  ]

  elapsed_rest :
      (t u : ℕ) → c.timer_tick ≤ t → t ≤ u → elapsed u c ≡ elapsed t c + elapsed u (ticked t c)
  elapsed_rest t u h k = omega arith

after_tick :
    (t u : ℕ) (c : Cpu)
    → c.timer_running ≡ true
    → elapsed t c < c.timer
    → elapsed u c ≡ elapsed t c + elapsed u (ticked t c)
    → ((elapsed u (ticked t c) == 0) ≡ true) ⊎ ((elapsed u (ticked t c) == 0) ≡ false)
    → update_timer u (ticked t c) ≡ update_timer u c
after_tick t u c r lt sum (inl z) =
    let none_left : elapsed u (ticked t c) ≡ 0 = (==_iff (elapsed u (ticked t c)) 0).0 z in
    let same : elapsed t c ≡ elapsed u c = omega arith in
    update_zero (ticked t c) u none_left
    ∙ ap (λ e. (ok tt, record c { timer_tick = c.timer_tick + e * 1_000_000; timer = c.timer - e }))
        same
    ∙ sym (update_less c u r (omega arith))
after_tick t u c r lt sum (inr p) =
    let some_left : 1 ≤ elapsed u (ticked t c) = ground arith in
    update_pos (ticked t c) u r some_left
    ∙ sym (count_split c (elapsed t c) (elapsed u (ticked t c)) r lt some_left)
    ∙ ap (λ e. count_down e c) (sym sum)
    ∙ sym (update_pos c u r (omega arith))

-- While the timer runs and has not expired at a first reading of the clock, a second reading gives the
-- same processor, and the same timer interrupt if it is due, whether the first was made or not.
pub update_timer-update_timer :
    (t u : ℕ) (c : Cpu)
    → c.timer_running ≡ true
    → c.timer_tick ≤ t
    → t ≤ u
    → elapsed t c < c.timer
    → update_timer u (update_timer t c).1 ≡ update_timer u c
update_timer-update_timer t u c r h k lt =
    rw (update_less c t r lt)
      (after_tick t u c r lt (elapsed_rest c t u h k) (Bool-cases (elapsed u (ticked t c) == 0)))
