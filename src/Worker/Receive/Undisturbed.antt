-- ===== src/Worker/Receive/Undisturbed.antt =====
-- What the reception loop and the scan leave alone.
use k230_lr2021_radio.Prelude.{
  ℕ, ◌+◌, ◌≡◌, Bool, true, false, arith, Option, none, some, List, [], ◌∷◌, zero, suc, Bool-cases,
  inl, inr, ltb, if◌then◌else◌, ◌&&◌, before32, refl, negsuc, u32, not,
}
use k230_lr2021_radio.Device.{
  Env, on_rx_packet, get_clear_irq_status, get_rx_fifo_level, clear_rx_buffer, read_clock,
  set_frequency, standby,
}
use k230_lr2021_radio.Burst.{Header, decode_header}
use k230_lr2021_radio.Worker.State.{Worker, ScanParams, inc32, call, now_ms}
use k230_lr2021_radio.Worker.Calls.{Leaves, Leaves-refl, Leaves-trans}
use k230_lr2021_radio.Worker.Control.{arm_receive, start_scan, scan_tick}
use k230_lr2021_radio.Worker.Receive.Acting.{settle}
use k230_lr2021_radio.Worker.Receive.{
  Packet, Rx, Reading, deliver, tally, read_packet, receive, no_receive, look_at_fifo, has_packet,
  handle_irq, read_irq, finish_round, look_again, complete_burst, take_packet, act, rx_round,
  rx_loop,
}

pub scan_tick-Leaves : (now : ℕ) (w : Worker) → Leaves w (scan_tick now w)
unfolding scan_tick arm_receive
scan_tick-Leaves now w = ground arith

deliver-Leaves : (q : List Packet) (w : Worker) → Leaves w (deliver q w)
deliver-Leaves [] w = Leaves-refl w
deliver-Leaves ((pkt, rssi) ∷ q) w =
    let w' = call (on_rx_packet pkt rssi) w in
    Leaves-trans w w' _ (ground arith) (deliver-Leaves q w')

-- The parts of `startScan`.
remember-Leaves :
    (b : Bool) (w : Worker)
    → Leaves w (if b then record w { pre_scan_freq_hz = w.cfg.frequency_hz } else w)
remember-Leaves true w = record {
  tx_q = refl;
  reported = refl;
  silent = refl;
  power = refl;
  powers_kept = refl;
}
remember-Leaves false w = Leaves-refl w

abbrev scanning : ScanParams → ℕ → Worker → Worker
scanning p now w1 =
    let w2 = call read_clock w1 in
    record w2 {
      scan = p;
      scan_idx = 0;
      scan_frames = 0;
      scan_consensus = 0;
      scan_best_rssi = negsuc 127;
      scan_dwell_until = u32 (now + p.dwell_ms);
      scan_active = true;
      st = record w2.st { pending_tx_valid = 0 };
    }

scanning-Leaves : (p : ScanParams) (now : ℕ) (w : Worker) → Leaves w (scanning p now w)
scanning-Leaves p now w = record {
  tx_q = refl;
  reported = refl;
  silent = refl;
  power = refl;
  powers_kept = refl;
}

abbrev first_channel : ℕ → Worker → Worker
first_channel hz w =
    let w4 = call (set_frequency hz) (call standby w) in
    arm_receive (record w4 { cfg = record w4.cfg { frequency_hz = hz } })

first_channel-Leaves : (hz : ℕ) (w : Worker) → Leaves w (first_channel hz w)
unfolding arm_receive
first_channel-Leaves hz w = ground arith

if-Leaves : (b : Bool) (w x : Worker) → Leaves w x → Leaves w (if b then x else w)
if-Leaves true w x l = l
if-Leaves false w x l = Leaves-refl w

module _ (env : Env) where
  pub start_scan-Leaves : (p : ScanParams) (w : Worker) → Leaves w (start_scan env p w)
  unfolding start_scan
  start_scan-Leaves p w =
      let b = not w.scan_active && ltb 0 w.cfg.frequency_hz in
      let w1 = if b then record w { pre_scan_freq_hz = w.cfg.frequency_hz } else w in
      let w3 = scanning p (now_ms env w1).0 w1 in
      Leaves-trans w w1 _ (remember-Leaves b w) (
        Leaves-trans w1 w3 _ (scanning-Leaves p (now_ms env w1).0 w1)
          (if-Leaves (w.radio_ok && ltb 0 p.start_hz) w3 _ (first_channel-Leaves p.start_hz w3)))

  read_packet-Leaves : (rx : Rx) (w : Worker) → Leaves w (read_packet env rx w).2
  unfolding read_packet arm_receive tally
  read_packet-Leaves rx w = ground arith

  receive-Leaves : (irq : ℕ) (rx : Rx) (w : Worker) → Leaves w (receive env irq rx w).2
  unfolding receive arm_receive
  receive-Leaves irq rx w = ground (arith, read_packet-Leaves rx (call get_rx_fifo_level w))

  no_receive-Leaves : (irq : ℕ) (rx : Rx) (w : Worker) → Leaves w (no_receive env irq rx w).2
  unfolding no_receive arm_receive
  no_receive-Leaves irq rx w = ground arith

  look_at_fifo-Leaves : (rx : Rx) (w : Worker) → Leaves w (look_at_fifo env rx w).2
  unfolding look_at_fifo
  look_at_fifo-Leaves rx w = ground arith

  has_packet-Leaves : (irq : ℕ) (rx : Rx) (w : Worker) → Leaves w (has_packet env irq rx w).2
  unfolding has_packet
  has_packet-Leaves irq rx w = ground (arith, look_at_fifo-Leaves rx w)

  handle_irq-Leaves : (irq : ℕ) (r : Bool × Rx × Worker) → Leaves r.2 (handle_irq env irq r).2
  handle_irq-Leaves irq (true, rx, w) =
      receive-Leaves irq (record rx { check_fifo_after_rx = false }) w
  handle_irq-Leaves irq (false, rx, w) =
      no_receive-Leaves irq (record rx { check_fifo_after_rx = false }) w

  read_irq-Leaves : (rx : Rx) (w : Worker) → Leaves w (read_irq env rx w).2
  unfolding read_irq
  read_irq-Leaves rx w =
      let w' = call get_clear_irq_status w in
      let irq = env.irq_status w'.history in
      let r = has_packet env irq rx w' in
      Leaves-trans w w' _ (ground arith)
        (Leaves-trans w' r.2 _ (has_packet-Leaves irq rx w') (handle_irq-Leaves irq r))

  settle-Leaves : (rx : Rx) (w : Worker) → Leaves w (settle rx w)
  unfolding arm_receive
  settle-Leaves rx w = ground arith

  finish_round-Leaves : (rx : Rx) (w : Worker) → Leaves w (finish_round env rx w).2
  unfolding finish_round
  finish_round-Leaves rx w =
      elim (Bool-cases (rx.in_burst && before32 (now_ms env w).0 rx.burst_deadline_ms)) [
        | inl waits ↦ rw waits (ground arith)
        | inr over ↦ rw over (
            Leaves-trans w (settle rx w) _ (settle-Leaves rx w)
              (deliver-Leaves rx.burst_rx_queue (settle rx w)))
      ]

  look_again-Leaves : (rx : Rx) (w : Worker) → Leaves w (look_again env rx w).2
  unfolding look_again
  look_again-Leaves rx w =
      ground (arith, finish_round-Leaves rx (call clear_rx_buffer (call get_rx_fifo_level w)))

  complete_burst-Leaves :
      (p : Packet) (rx : Rx) (w : Worker) → Leaves w (complete_burst env p rx w).2
  complete_burst-Leaves p rx w =
      let v = record w { st = record w.st { burst_mode = 0; bursts_rx = inc32 w.st.bursts_rx } } in
      let u = deliver (p ∷ []) (deliver rx.burst_rx_queue v) in
      Leaves-trans w v _ (ground arith) (
        Leaves-trans v (deliver rx.burst_rx_queue v) _ (deliver-Leaves rx.burst_rx_queue v) (
          Leaves-trans (deliver rx.burst_rx_queue v) u _
            (deliver-Leaves (p ∷ []) (deliver rx.burst_rx_queue v))
            (look_again-Leaves (record rx { in_burst = false; burst_rx_queue = [] }) u)))

  take_packet-Leaves :
      (p : Packet) (h : Option Header) (rx : Rx) (w : Worker)
      → Leaves w (take_packet env p h rx w).2
  unfolding take_packet arm_receive
  take_packet-Leaves p none rx w = ground arith
  take_packet-Leaves p (some hdr) rx w =
      elim (Bool-cases (ltb (hdr.packet_idx + 1) hdr.total_packets)) [
        | inl more ↦ rw more (ground arith)
        | inr last ↦ rw last (complete_burst-Leaves p (record rx { check_fifo_after_rx = true }) w)
      ]

  act-Leaves : (r : Reading) → Leaves r.2 (act env r).2
  act-Leaves (none, rx, w) = finish_round-Leaves rx w
  act-Leaves (some p, rx, w) = take_packet-Leaves p (decode_header p.0) rx w

  rx_round-Leaves : (rx : Rx) (w : Worker) → Leaves w (rx_round env rx w).2
  unfolding rx_round
  rx_round-Leaves rx w =
      Leaves-trans w (read_irq env rx w).2 _ (read_irq-Leaves rx w) (act-Leaves (read_irq env rx w))

  pub rx_loop-Leaves :
      (rounds : ℕ) (rx : Rx) (w w' : Worker) → rx_loop env rounds rx w ≡ some w' → Leaves w w'
  unfolding rx_loop
  rx_loop-Leaves zero rx w w' e = cc
  rx_loop-Leaves (suc rounds) rx w w' e =
      let r = rx_round env rx w in
      Leaves-trans w r.2 w' (rx_round-Leaves rx w)
        (ground (arith, e, rx_loop-Leaves rounds r.1 r.2 w'))
