-- ===== src/Worker/Transmit.antt =====
-- `transmitBurst` and `serviceTxQueue` of service/src/radio_worker.cpp.
pub mod Polling
pub mod OnAir
pub mod Bursts
pub mod Terminals
pub mod Undisturbed
use k230_lr2021_radio.Prelude.{
  ℕ, zero, suc, ◌+◌, ◌-◌, ◌*◌, ◌/◌, ◌%◌, ◌^◌, ◌≡◌, Bool, true, false, not, ◌&&◌, ◌||◌, Option, none,
  some, List, [], ◌∷◌, ◌++◌, ltb, leb, ◌==◌, if◌then◌else◌, length, u16, u32, before32, bit_xor, ℤ,
  pos, ◌==ℤ◌, at_least,
}
use k230_lr2021_radio.Device.{
  Env, Terminal, TxError, bad_burst_size, tx_timeout, Line, standby, start_transmit,
  finish_transmit, get_clear_irq_status, read_clock, sleep_us, on_tx_terminal, on_log,
}
use k230_lr2021_radio.Burst.{
  chunk, max_packets, max_total_payload, total_packets, crc32, encode_packet,
}
use k230_lr2021_radio.Worker.State.{Worker, Counters, inc32, call, now_ms}
use k230_lr2021_radio.Worker.Control.{arm_receive}

-- `irq & (1 << k)`
abbrev pub irq_bit : ℕ → ℕ → Bool
irq_bit k irq = irq / 2 ^ k % 2 == 1

abbrev pub irq_tx_done : ℕ → Bool
irq_tx_done = irq_bit 19

abbrev pub irq_timeout : ℕ → Bool
irq_timeout = irq_bit 21

-- How the wait for TX_DONE ends. The last is the model's alone.
pub data PollExit : Type 0 where
  tx_done radio_timeout deadline_passed out_of_fuel : PollExit

-- A round of the loop sleeps 100 us and the deadline is 25 ms away.
abbrev pub poll_fuel : ℕ
poll_fuel = 252

-- `done` is set by TX_DONE only; otherwise the loop over the attempts goes on.
abbrev pub confirm : PollExit → Worker → (Worker → Bool × Worker) → Bool × Worker
confirm tx_done w retry = (true, w)
confirm radio_timeout w retry = retry w
confirm deadline_passed w retry = retry w
confirm out_of_fuel w retry = retry w

-- The burst id from the clock's seconds and nanoseconds and the counter.
unfoldable pub burst_id_of : ℕ → ℕ → ℕ → ℕ
burst_id_of tv_sec tv_nsec counter =
    let entropy =
      bit_xor (bit_xor (u32 tv_nsec) (u32 (u32 tv_sec * 0x9E3779B9)))
        (u32 (counter * 0x85EBCA6B)) in
    let id = u16 (bit_xor entropy (entropy / 65536)) in if id == 0 then 1 else id

module _ (env : Env) where
  -- The `while` loop that waits for the end of one transmission.
  unfoldable pub poll_tx_done : ℕ → ℕ → Worker → PollExit × Worker
  poll_tx_done zero deadline w = (out_of_fuel, w)
  poll_tx_done (suc fuel) deadline w =
      let (now, w1) = now_ms env w in
      let w2 = call get_clear_irq_status w1 in
      let irq = env.irq_status w2.history in
      let rest = poll_tx_done fuel deadline (call (sleep_us 100) w2) in
      if not (before32 now deadline)
      then (deadline_passed, w1)
      else if irq_tx_done irq
      then (tx_done, w2)
      else if irq_timeout irq
      then (radio_timeout, w2)
      else rest

  -- One `startTransmit` that was taken, up to `finishTransmit`.
  abbrev pub await_tx_done : Worker → PollExit × Worker
  await_tx_done w =
      let (now, w1) = now_ms env w in
      let (exit, w2) = poll_tx_done poll_fuel (u32 (now + 25)) w1 in (exit, call finish_transmit w2)

  -- The attempts that are left, from number `attempt` on; the result is `done`.
  unfoldable pub attempts : ℕ → ℕ → List ℕ → Worker → Bool × Worker
  attempts zero attempt pkt w = (false, w)
  attempts (suc left) attempt pkt w =
      let w1 = if ltb 0 attempt then call (sleep_us 500) (call standby w) else w in
      let w2 = call (start_transmit pkt) w1 in
      elim (env.start_transmit_ok pkt w2.history) [
        | false ↦ attempts left (attempt + 1) pkt w2
        | true ↦
            let (exit, w3) = await_tx_done w2 in confirm exit w3 (attempts left (attempt + 1) pkt)
      ]

  -- The packet loop, with `left` packets to go from packet `idx` on.
  unfoldable pub send_packets : ℕ → ℕ → List ℕ → ℕ → ℕ → ℕ → Worker → Option TxError × Worker
  send_packets burst_id total payload crc zero idx w = (none, w)
  send_packets burst_id total payload crc (suc left) idx w =
      let (done, w1) =
        attempts 3 0 (encode_packet burst_id idx total payload (length payload) crc) w in
      elim done [
        | false ↦ (some tx_timeout, w1)
        | true ↦ send_packets burst_id total payload crc left (idx + 1) (
            call (sleep_us 220)
              (record w1 { st = record w1.st { packets_tx = inc32 w1.st.packets_tx } }))
      ]

  -- `none` is the result `true`.
  unfoldable pub transmit_burst : List ℕ → Worker → Option TxError × Worker
  transmit_burst payload w =
      let len = length payload in
      let total = total_packets len in
      if (total == 0) || (ltb max_packets total || ltb max_total_payload len)
      then (some bad_burst_size, w)
      else let w1 = call read_clock w in
        let ns = env.clock_ns w1.history in
        let burst_id = burst_id_of (ns / 1000000000) (ns % 1000000000) w1.burst_id_counter in
        send_packets burst_id total payload (crc32 payload) total 0 (record w1 {
          burst_id_counter = inc32 w1.burst_id_counter;
          st = record w1.st { bursts_tx = inc32 w1.st.bursts_tx };
        })

  -- The frame taken off the queue is sent, and RX is armed again.
  unfoldable pub send_frame : List ℕ → Worker → Option TxError × Worker
  send_frame frame w =
      let w1 = call standby w in
      let (err, w2) = transmit_burst frame (record w1 { st = record w1.st { burst_mode = 2 } }) in
      (err, arm_receive (record w2 { st = record w2.st { burst_mode = 0 } }))

  -- The callbacks that report the result.
  abbrev pub report : Option TxError → Worker → Worker
  report none w = call (on_tx_terminal Terminal.ok) w
  report (some err) w =
      call (on_tx_terminal Terminal.dropped) (call (on_log (Line.tx_failed err)) w)

  abbrev pub service_front : List (List ℕ) → Worker → Worker
  service_front [] w = w
  service_front (frame ∷ rest) w =
      let w1 = record w {
        tx_q = rest;
        st = record w.st { pending_tx_valid = if ltb 0 (length rest) then 1 else 0 };
      } in
      let (err, w2) = send_frame frame w1 in
      report err (if w2.thermal_level ==ℤ pos 1 then call (sleep_us 15000) w2 else w2)

  unfoldable pub service_tx_queue : Worker → Worker
  service_tx_queue w =
      if (w.cfg.role == 2) || (w.scan_active || at_least 2 w.thermal_level)
      then w
      else service_front w.tx_q w
