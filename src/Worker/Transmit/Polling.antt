-- ===== src/Worker/Transmit/Polling.antt =====
-- How the wait for TX_DONE ends, and the fuel that the model gives it.
use native.Mathlib.Decide.{dec_le}
use k230_lr2021_radio.Prelude.{
  ℕ, zero, suc, ◌+◌, ◌*◌, ◌/◌, ◌≡◌, ◌≤◌, ◌≢◌, Bool-cases, inl, inr, true, false, arith, u32,
  before32, ◌∷◌,
}
use k230_lr2021_radio.Device.{Env, IsClock, ms_of, read_clock, get_clear_irq_status, sleep_us}
use k230_lr2021_radio.Worker.State.{Worker, call}
use k230_lr2021_radio.Worker.Transmit.{deadline_passed, out_of_fuel, poll_tx_done, await_tx_done}

-- A deadline that was reached less than 2^31 ms ago reads as reached, across the wrap of the clock.
passed_lem :
    (ns due : ℕ)
    → due * 1000000 ≤ ns
    → ns ≤ due * 1000000 + 300000000000000
    → before32 (ms_of ns) (u32 due) ≡ false
passed_lem ns due h k = ground arith

waiting_lem :
    (ns due : ℕ)
    → before32 (ms_of ns) (u32 due) ≡ true
    → ns ≤ due * 1000000 + 300000000000000
    → ns ≤ due * 1000000
waiting_lem ns due e k = elim (dec_le ns (due * 1000000)) [
  | yes h ↦ h
  | no h ↦ absurd (cc (passed_lem ns due (omega arith) k))
]

deadline_lem : (ns : ℕ) → u32 (ms_of ns + 25) ≡ u32 (ns / 1000000 + 25)
deadline_lem ns = omega arith

module _ (env : Env) (clock : IsClock env) where
  poll_passed :
      (fuel due : ℕ) (w : Worker)
      → before32 (ms_of (env.clock_ns (read_clock ∷ w.history))) (u32 due) ≡ false
      → (poll_tx_done env (suc fuel) (u32 due) w).0 ≢ out_of_fuel
  unfolding poll_tx_done
  poll_passed fuel due w e = rw e (λ (p : deadline_passed ≡ out_of_fuel). cc)

  poll_waiting :
      (fuel due : ℕ) (w : Worker)
      → before32 (ms_of (env.clock_ns (read_clock ∷ w.history))) (u32 due) ≡ true
      → (poll_tx_done env fuel
          (u32 due)
          (call (sleep_us 100) (call get_clear_irq_status (call read_clock w)))).0
        ≢ out_of_fuel
      → (poll_tx_done env (suc fuel) (u32 due) w).0 ≢ out_of_fuel
  unfolding poll_tx_done
  poll_waiting fuel due w e ih = rw e (ground (arith, ih))

  -- The invariant of the loop: the fuel left covers the time left, and the deadline is not long past.
  poll-ne-out_of_fuel :
      (fuel due : ℕ) (w : Worker)
      → due * 1000000 ≤ env.clock_ns w.history + fuel * 100000
      → env.clock_ns w.history ≤ due * 1000000 + 200000000000000
      → (poll_tx_done env (suc fuel) (u32 due) w).0 ≢ out_of_fuel
  poll-ne-out_of_fuel zero due w low high = poll_passed zero due w (
      passed_lem (env.clock_ns (read_clock ∷ w.history)) due
        (omega (arith, clock.grows read_clock w.history))
        (omega (arith, clock.prompt read_clock w.history)))
  poll-ne-out_of_fuel (suc fuel) due w low high =
      elim (Bool-cases (before32 (ms_of (env.clock_ns (read_clock ∷ w.history))) (u32 due))) [
        | inl waiting ↦ poll_waiting (suc fuel) due w waiting (
            poll-ne-out_of_fuel fuel due
              (call (sleep_us 100) (call get_clear_irq_status (call read_clock w)))
              (omega (
                arith,
                clock.grows read_clock w.history,
                clock.grows get_clear_irq_status (read_clock ∷ w.history),
                clock.sleeps 100 (get_clear_irq_status ∷ read_clock ∷ w.history) (omega arith),
              ))
              (early waiting))
        | inr passed ↦ poll_passed (suc fuel) due w passed
      ]
    where
      early :
          before32 (ms_of (env.clock_ns (read_clock ∷ w.history))) (u32 due) ≡ true
          → env.clock_ns (sleep_us 100 ∷ get_clear_irq_status ∷ read_clock ∷ w.history)
            ≤ due * 1000000 + 200000000000000
      early waiting = omega (
        arith,
        waiting_lem (env.clock_ns (read_clock ∷ w.history)) due waiting
            (omega (arith, clock.prompt read_clock w.history)),
        clock.prompt get_clear_irq_status (read_clock ∷ w.history),
        clock.prompt (sleep_us 100) (get_clear_irq_status ∷ read_clock ∷ w.history),
      )

  -- On a clock as `IsClock` describes it the wait for TX_DONE never runs out of the model's fuel:
  -- it ends by TX_DONE, by the radio's timeout or by the deadline, wherever the millisecond
  -- counter wraps.
  pub await-ne-out_of_fuel : (w : Worker) → (await_tx_done env w).0 ≢ out_of_fuel
  await-ne-out_of_fuel w =
      let ns : ℕ = env.clock_ns (read_clock ∷ w.history) in
      rw (deadline_lem (env.clock_ns (read_clock ∷ w.history))) (
        poll-ne-out_of_fuel 251 (ns / 1000000 + 25) (call read_clock w) (omega arith) (omega arith))
