-- ===== src/Worker/Receive/Endings.antt =====
-- The reception loop ends once the radio has fallen silent.
use k230_lr2021_radio.Prelude.{
  ℕ, zero, suc, ◌+◌, ◌*◌, ◌/◌, ◌≡◌, ◌≤◌, ◌<◌, ◌∙◌, refl, Bool-cases, inl, inr, Bool, true, false,
  arith, u32, sub32, before32, Option, some, ◌∷◌, length, ap, sym, subst, if◌then◌else◌, ◌&&◌,
}
use k230_lr2021_radio.Device.{
  Env, History, IsClock, ms_of, read_clock, get_clear_irq_status, get_rx_fifo_level, sleep_us,
}
use k230_lr2021_radio.Worker.State.{Worker, call}
use native.Mathlib.Decide.{dec_le}
use k230_lr2021_radio.Worker.Receive.{
  Rx, Round, rx_loop, rx_round, read_irq, has_packet, look_at_fifo, no_receive, finish_round,
}
use k230_lr2021_radio.Worker.Receive.Acting.{rx_round-longer}

-- From the `k`-th call on the radio has no interrupt and an empty FIFO.
abbrev pub FallsSilent : Env → ℕ → Type 0
FallsSilent env k =
    (h : History) → k ≤ length h → (env.irq_status h ≡ 0) × (env.rx_fifo_level h ≡ 0)

-- The rounds of 150 us within which every deadline of 32 bits is met.
abbrev pub silent_rounds : ℕ
silent_rounds = 28633115308

-- A deadline as a time of the clock, in ms.
due_at : ℕ → ℕ → ℕ
due_at ns deadline = ns / 1000000 + sub32 (u32 deadline) (ms_of ns)

due_at_lem :
    (ns deadline : ℕ)
    → (u32 (due_at ns deadline) ≡ u32 deadline)
      × (ns / 1000000 ≤ due_at ns deadline)
      × (due_at ns deadline < ns / 1000000 + 4294967296)
unfolding due_at
due_at_lem ns deadline = omega arith

-- A deadline that has passed has passed whatever stands above its 32 bits.
wide_lem :
    (a deadline : ℕ)
    → a < 4294967296
    → before32 a (u32 deadline) ≡ false
    → before32 a deadline ≡ false
wide_lem a deadline h e = ground arith

-- A time that was reached less than 2^31 ms ago reads as reached, across the wrap of the clock.
reached_lem :
    (ns due deadline : ℕ)
    → u32 due ≡ u32 deadline
    → due * 1000000 ≤ ns
    → ns ≤ due * 1000000 + 400000000000000
    → before32 (ms_of ns) deadline ≡ false
reached_lem ns due deadline same h k =
    wide_lem (ms_of ns) deadline (omega arith) (rw (← same) (ground arith))

ahead_lem :
    (ns due deadline : ℕ)
    → u32 due ≡ u32 deadline
    → before32 (ms_of ns) deadline ≡ true
    → ns ≤ due * 1000000 + 400000000000000
    → ns ≤ due * 1000000
ahead_lem ns due deadline same e k = elim (dec_le ns (due * 1000000)) [
  | yes h ↦ h
  | no h ↦ absurd (cc (reached_lem ns due deadline same (omega arith) k))
]

-- What the loop makes of a round.
again : Env → ℕ → Round → Option Worker
again env rounds (more, rx, w) = let rest = rx_loop env rounds rx w in if more then rest else some w

abbrev pub Ends : Option Worker → Type 0
Ends o = (w : Worker) × (o ≡ some w)

module _ (env : Env) where
  rx_loop-again :
      (rounds : ℕ) (rx : Rx) (w : Worker)
      → rx_loop env (suc rounds) rx w ≡ again env rounds (rx_round env rx w)
  unfolding rx_loop again
  rx_loop-again rounds rx w = refl

  -- The calls of a silent round up to the look at the clock.
  abbrev looked : Worker → Worker
  looked w = call get_rx_fifo_level (call get_clear_irq_status w)

  silent_round :
      (rx : Rx) (w : Worker)
      → env.irq_status (get_clear_irq_status ∷ w.history) ≡ 0
      → env.rx_fifo_level (get_rx_fifo_level ∷ get_clear_irq_status ∷ w.history) ≡ 0
      → rx_round env rx w ≡ finish_round env (record rx { check_fifo_after_rx = false }) (looked w)
  unfolding rx_round read_irq has_packet look_at_fifo no_receive
  silent_round rx w silent empty = elim (Bool-cases rx.check_fifo_after_rx) [
    | inl checks ↦ rw (silent, empty, checks) refl
    | inr skips ↦ rw (silent, empty, skips) refl
  ]

  finish_over :
      (rx : Rx) (v : Worker)
      → (rx.in_burst
          && before32 (ms_of (env.clock_ns (read_clock ∷ v.history))) rx.burst_deadline_ms)
        ≡ false
      → (finish_round env rx v).0 ≡ false
  unfolding finish_round
  finish_over rx v e = rw e refl

  finish_waits :
      (rx : Rx) (v : Worker)
      → (rx.in_burst
          && before32 (ms_of (env.clock_ns (read_clock ∷ v.history))) rx.burst_deadline_ms)
        ≡ true
      → finish_round env rx v ≡ (true, rx, call (sleep_us 150) (call read_clock v))
  unfolding finish_round
  finish_waits rx v e = rw e refl

  again-over : (rounds : ℕ) (r : Round) → r.0 ≡ false → Ends (again env rounds r)
  unfolding again
  again-over rounds (true, rx, w) e = absurd (cc e)
  again-over rounds (false, rx, w) e = (w, refl)

  module _ (clock : IsClock env) (k : ℕ) (silent : FallsSilent env k) where
    -- The time at which a silent round looks at the clock.
    abbrev time : Worker → ℕ
    time w = env.clock_ns (read_clock ∷ (looked w).history)

    abbrev stays : Rx → Worker → Bool
    stays rx w = rx.in_burst && before32 (ms_of (time w)) rx.burst_deadline_ms

    abbrev unchecked : Rx → Rx
    unchecked rx = record rx { check_fifo_after_rx = false }

    one_round :
        (rounds : ℕ) (rx : Rx) (w : Worker)
        → k ≤ length w.history
        → rx_loop env (suc rounds) rx w
          ≡ again env rounds (finish_round env (unchecked rx) (looked w))
    one_round rounds rx w late =
        rx_loop-again rounds rx w
        ∙ ap (again env rounds)
            (silent_round rx w (silent _ (omega arith)).0 (silent _ (omega arith)).1)

    stops :
        (rounds : ℕ) (rx : Rx) (w : Worker)
        → k ≤ length w.history
        → stays rx w ≡ false
        → Ends (rx_loop env (suc rounds) rx w)
    stops rounds rx w late e =
        subst Ends (sym (one_round rounds rx w late))
          (again-over rounds _ (finish_over (unchecked rx) (looked w) e))

    waits :
        (rounds : ℕ) (rx : Rx) (w : Worker)
        → k ≤ length w.history
        → stays rx w ≡ true
        → Ends
            (rx_loop env rounds (unchecked rx) (call (sleep_us 150) (call read_clock (looked w))))
        → Ends (rx_loop env (suc rounds) rx w)
    unfolding again
    waits rounds rx w late e rest =
        subst Ends
          (sym (
            one_round rounds rx w late
            ∙ ap (again env rounds) (finish_waits (unchecked rx) (looked w) e)))
          rest

    time_lem :
        (w : Worker)
        → (env.clock_ns w.history ≤ time w) × (time w ≤ env.clock_ns w.history + 300000000000000)
    time_lem w = omega (
      arith,
      clock.grows get_clear_irq_status w.history,
      clock.grows get_rx_fifo_level (get_clear_irq_status ∷ w.history),
      clock.grows read_clock (looked w).history,
      clock.prompt get_clear_irq_status w.history,
      clock.prompt get_rx_fifo_level (get_clear_irq_status ∷ w.history),
      clock.prompt read_clock (looked w).history,
    )

    -- The rounds left cover the time left, and the deadline is not long past.
    silent_loop :
        (rounds due : ℕ) (rx : Rx) (w : Worker)
        → k ≤ length w.history
        → u32 due ≡ u32 rx.burst_deadline_ms
        → due * 1000000 ≤ env.clock_ns w.history + rounds * 150000
        → env.clock_ns w.history ≤ due * 1000000 + 100000000000000
        → Ends (rx_loop env (suc rounds) rx w)
    silent_loop zero due rx w late same low high = stops zero rx w late (
        over (
          reached_lem (time w) due rx.burst_deadline_ms same (omega (arith, time_lem w))
            (omega (arith, time_lem w))))
      where
        over : before32 (ms_of (time w)) rx.burst_deadline_ms ≡ false → stays rx w ≡ false
        over e = ground arith
    silent_loop (suc rounds) due rx w late same low high = elim (Bool-cases (stays rx w)) [
      | inl waiting ↦ waits (suc rounds) rx w late waiting (
          silent_loop rounds due (unchecked rx) (call (sleep_us 150) (call read_clock (looked w)))
            (omega arith) same
            (omega
              (arith, time_lem w, clock.sleeps 150 (read_clock ∷ (looked w).history) (omega arith)))
            (omega (
              arith,
              ahead_lem (time w) due rx.burst_deadline_ms same (ahead waiting)
                  (omega (arith, time_lem w)),
              clock.prompt (sleep_us 150) (read_clock ∷ (looked w).history),
            )))
      | inr over ↦ stops (suc rounds) rx w late over
    ]
      where
        ahead : stays rx w ≡ true → before32 (ms_of (time w)) rx.burst_deadline_ms ≡ true
        ahead e = ground arith

    -- Behind the last call that finds anything, whatever the state of the loop.
    silent-Ends :
        (rounds : ℕ) (rx : Rx) (w : Worker)
        → k ≤ length w.history
        → silent_rounds ≤ rounds
        → Ends (rx_loop env (suc rounds) rx w)
    silent-Ends rounds rx w late enough =
        let d = due_at_lem (env.clock_ns w.history) rx.burst_deadline_ms in
        silent_loop rounds (due_at (env.clock_ns w.history) rx.burst_deadline_ms) rx w late d.0
          (omega (arith, d.2)) (omega (arith, d.1))

    goes_on :
        (rounds : ℕ) (r : Round) → Ends (rx_loop env rounds r.1 r.2) → Ends (again env rounds r)
    unfolding again
    goes_on rounds (true, rx, w) e = e
    goes_on rounds (false, rx, w) e = (w, refl)

    -- The reception loop ends, from any state of it.
    pub rx_loop-Ends :
        (left rounds : ℕ) (rx : Rx) (w : Worker)
        → k ≤ length w.history + left
        → left + silent_rounds ≤ rounds
        → Ends (rx_loop env (suc rounds) rx w)
    rx_loop-Ends zero rounds rx w late enough = silent-Ends rounds rx w (omega arith) (omega arith)
    rx_loop-Ends (suc left) zero rx w late enough = absurd (omega arith)
    rx_loop-Ends (suc left) (suc rounds) rx w late enough =
        subst Ends (sym (rx_loop-again (suc rounds) rx w)) (
          goes_on (suc rounds) (rx_round env rx w) (
            rx_loop-Ends left rounds (rx_round env rx w).1 (rx_round env rx w).2
              (omega (arith, rx_round-longer env rx w)) (omega arith)))
