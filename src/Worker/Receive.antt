-- ===== src/Worker/Receive.antt =====
-- `RadioWorker::pollOnce` of service/src/radio_worker.cpp: the reception loop, one round at a time,
-- between the thermal and the scan ticks and the service of the transmit queue.
pub mod Fetching
pub mod Acting
pub mod Delivery
pub mod Undisturbed
pub mod Polls
pub mod Progress
pub mod Endings
use k230_lr2021_radio.Prelude.{
  ℕ, ◌+◌, ◌≡◌, Bool, true, false, not, ◌&&◌, ◌||◌, Option, none, some, List, [], ◌∷◌, ◌++◌, ltb,
  leb, ◌==◌, if◌then◌else◌, length, u32, before32, ℤ, negsuc, ltb_ℤ, at_least, int8, bits_of, zero,
  suc,
}
use k230_lr2021_radio.Device.{
  Env, clear_rx_buffer, get_clear_irq_status, get_rx_fifo_level, get_packet_status, read_data,
  on_rx_packet, sleep_us,
}
use k230_lr2021_radio.Burst.{Header, packet_payload, decode_header, is_consensus_prefix}
use k230_lr2021_radio.Worker.State.{Counters, Worker, inc32, call, now_ms}
use k230_lr2021_radio.Worker.Control.{arm_receive, scan_tick}
use k230_lr2021_radio.Worker.Transmit.{irq_bit, service_tx_queue}
use k230_lr2021_radio.Worker.Thermal.{thermal_tick}

abbrev pub irq_rx_done : ℕ → Bool
irq_rx_done = irq_bit 18

abbrev pub irq_header_error : ℕ → Bool
irq_header_error = irq_bit 9

abbrev pub irq_timed_out : ℕ → Bool
irq_timed_out = irq_bit 21

abbrev pub irq_crc_error : ℕ → Bool
irq_crc_error = irq_bit 22

abbrev pub irq_len_error : ℕ → Bool
irq_len_error = irq_bit 23

-- A packet with its RSSI.
abbrev pub Packet : Type 0
Packet = List ℕ × ℤ

-- The locals of the loop.
pub record Rx : Type 0 where
  pub in_burst : Bool
  pub burst_deadline_ms : ℕ
  pub burst_rx_queue : List Packet
  pub check_fifo_after_rx : Bool

abbrev pub no_burst : Rx
no_burst = record {
  in_burst = false;
  burst_deadline_ms = 0;
  burst_rx_queue = [];
  check_fifo_after_rx = false;
}

-- `clearRxBuffer` and `armReceive`.
abbrev pub rearm : Worker → Worker
rearm w = arm_receive (call clear_rx_buffer w)

abbrev pub count_crc_error : Worker → Worker
count_crc_error w = record w {
  st = record w.st { crc_errors = inc32 w.st.crc_errors; hw_crc_errors = inc32 w.st.hw_crc_errors };
}

abbrev pub count_length_error : Worker → Worker
count_length_error w = record w {
  st = record w.st { hw_length_errors = inc32 w.st.hw_length_errors };
}

abbrev pub count_packet : Worker → Worker
count_packet w = record w {
  st = record w.st {
    packets_rx = inc32 w.st.packets_rx;
    hw_received_packets = inc32 w.st.hw_received_packets;
    hw_crc_ok = inc32 w.st.hw_crc_ok;
  };
}

-- What a scan takes down of a packet; the RSSI is cut to an int8_t.
unfoldable pub tally : Packet → Worker → Worker
tally (pkt, rssi) w =
    if w.scan_active
    then record w {
      scan_best_rssi =
          if ltb_ℤ w.scan_best_rssi rssi then int8 (bits_of 256 rssi) else w.scan_best_rssi;
      scan_consensus = if is_consensus_prefix pkt then inc32 w.scan_consensus else w.scan_consensus;
      scan_frames = inc32 w.scan_frames;
    }
    else w

-- The packets go to the host, oldest first.
abbrev pub deliver : List Packet → Worker → Worker
deliver [] w = w
deliver ((pkt, rssi) ∷ ps) w = deliver ps (call (on_rx_packet pkt rssi) w)

-- The result of a step of the loop: the packet read, if there is one.
abbrev pub Reading : Type 0
Reading = Option Packet × Rx × Worker

-- The result of a round: whether there is another one.
abbrev pub Round : Type 0
Round = Bool × Rx × Worker

module _ (env : Env) where
  -- The level of the FIFO.
  abbrev pub fifo_level : Worker → ℕ × Worker
  fifo_level w = let w' = call get_rx_fifo_level w in (env.rx_fifo_level w'.history, w')

  -- In a burst until `ms` from now.
  abbrev pub stay : ℕ → Rx → Worker → Rx × Worker
  stay ms rx w =
      let (now, w') = now_ms env w in
      (record rx { in_burst = true; burst_deadline_ms = u32 (now + ms) }, w')

  abbrev pub end_burst : Rx → Rx
  end_burst rx = record rx { in_burst = false }

  -- `getPacketStatusFLRC` and `readData` of a whole packet.
  unfoldable pub read_packet : Rx → Worker → Reading
  read_packet rx w =
      let w1 = call get_packet_status w in
      let rssi = env.rssi_avg w1.history in
      let w2 = call (read_data packet_payload) w1 in
      elim (env.received packet_payload w2.history) [
        | none ↦ (none, end_burst rx, arm_receive w2)
        | some pkt ↦ (some (pkt, rssi), rx, tally (pkt, rssi) (count_packet w2))
      ]

  -- A reception: an error is counted, and a packet is read when the FIFO holds a whole one.
  unfoldable pub receive : ℕ → Rx → Worker → Reading
  receive irq rx w =
      let (level, w1) = fifo_level w in
      if irq_crc_error irq || (irq_len_error irq || irq_header_error irq)
      then (
        none,
        end_burst rx,
        rearm (if irq_crc_error irq then count_crc_error w1 else count_length_error w1),
      )
      else if ltb level packet_payload
      then (none, end_burst rx, if ltb 0 level then rearm w1 else w1)
      else read_packet rx w1

  -- No reception: an error or a timeout ends the burst.
  unfoldable pub no_receive : ℕ → Rx → Worker → Reading
  no_receive irq rx w =
      if irq_crc_error irq || (irq_len_error irq || irq_timed_out irq)
      then (
        none,
        end_burst rx,
        arm_receive (
            if irq_crc_error irq
            then count_crc_error w
            else if irq_len_error irq
            then count_length_error w
            else w),
      )
      else (none, rx, w)

  -- No interrupt: the FIFO may hold a packet, or a part of one.
  unfoldable pub look_at_fifo : Rx → Worker → Bool × Rx × Worker
  look_at_fifo rx w =
      let (level, w1) = fifo_level w in
      if rx.check_fifo_after_rx && leb packet_payload level
      then (true, rx, w1)
      else if ltb 0 level && not rx.in_burst
      then (let (rx', w2) = stay 4 rx w1 in (false, rx', w2))
      else (false, rx, w1)

  -- Whether there is a packet to read.
  unfoldable pub has_packet : ℕ → Rx → Worker → Bool × Rx × Worker
  has_packet irq rx w =
      let has_err =
        irq_crc_error irq || (irq_len_error irq || (irq_header_error irq || irq_timed_out irq)) in
      if not (irq_rx_done irq) && not has_err then look_at_fifo rx w else (irq_rx_done irq, rx, w)

  abbrev pub handle_irq : ℕ → Bool × Rx × Worker → Reading
  handle_irq irq (true, rx, w) = receive irq (record rx { check_fifo_after_rx = false }) w
  handle_irq irq (false, rx, w) = no_receive irq (record rx { check_fifo_after_rx = false }) w

  -- The first half of a round.
  unfoldable pub read_irq : Rx → Worker → Reading
  read_irq rx w =
      let w' = call get_clear_irq_status w in
      let irq = env.irq_status w'.history in handle_irq irq (has_packet irq rx w')

  -- The end of a round without a packet, or behind the last packet of a burst.
  unfoldable pub finish_round : Rx → Worker → Round
  finish_round rx w =
      let (now, w1) = now_ms env w in
      if rx.in_burst && before32 now rx.burst_deadline_ms
      then (true, rx, call (sleep_us 150) w1)
      else (let w2 =
            if rx.in_burst
            then (let w3 = rearm w1 in record w3 { st = record w3.st { burst_mode = 0 } })
            else w in
          (
            false,
            record rx { in_burst = false; burst_rx_queue = [] },
            deliver rx.burst_rx_queue w2,
          ))

  -- Behind a burst: the FIFO may hold the start of another one.
  unfoldable pub look_again : Rx → Worker → Round
  look_again rx w =
      let (level, w1) = fifo_level w in
      if leb packet_payload level
      then (let (rx', w2) = stay 5 rx w1 in (true, rx', w2))
      else if ltb 0 level
      then (let (rx', w2) = stay 4 rx w1 in (true, rx', w2))
      else finish_round rx (call clear_rx_buffer w1)

  -- The last packet of a burst: the whole burst goes to the host.
  abbrev pub complete_burst : Packet → Rx → Worker → Round
  complete_burst p rx w =
      look_again (record rx { in_burst = false; burst_rx_queue = [] })
        (deliver (p ∷ []) (
          deliver rx.burst_rx_queue
            (record w { st = record w.st { burst_mode = 0; bursts_rx = inc32 w.st.bursts_rx } })))

  -- A packet of another format ends the loop, and the packets kept so far go with it.
  unfoldable pub take_packet : Packet → Option Header → Rx → Worker → Round
  take_packet p none rx w =
      let w1 = rearm w in
      (
        false,
        record rx { in_burst = false; burst_rx_queue = []; check_fifo_after_rx = true },
        record w1 { st = record w1.st { burst_mode = 0 } },
      )
  take_packet p (some hdr) rx w =
      let rx1 = record rx { check_fifo_after_rx = true } in
      if ltb (hdr.packet_idx + 1) hdr.total_packets
      then (let (rx2, w2) = stay 10 rx1 (record w { st = record w.st { burst_mode = 1 } }) in
          (true, record rx2 { burst_rx_queue = rx2.burst_rx_queue ++ (p ∷ []) }, w2))
      else complete_burst p rx1 w

  abbrev pub act : Reading → Round
  act (none, rx, w) = finish_round rx w
  act (some p, rx, w) = take_packet p (decode_header p.0) rx w

  -- One round of the loop.
  unfoldable pub rx_round : Rx → Worker → Round
  rx_round rx w = act (read_irq rx w)

  -- The loop up to a number of rounds; `none` is a loop that is not over by then.
  unfoldable pub rx_loop : ℕ → Rx → Worker → Option Worker
  rx_loop zero rx w = none
  rx_loop (suc rounds) rx w =
      let (again, rx', w') = rx_round rx w in
      let rest = rx_loop rounds rx' w' in if again then rest else some w'

  -- The end of `pollOnce`.
  abbrev pub serve : Worker → Worker
  serve w = if w.scan_active then w else service_tx_queue env w

  -- `pollOnce` with a reception loop of at most `rounds` rounds.
  unfoldable pub poll_once : ℕ → Worker → Option Worker
  poll_once rounds w =
      let (now, w1) = now_ms env w in
      let w2 = thermal_tick env now w1 in
      let w3 = if w2.scan_active then scan_tick now w2 else w2 in
      if at_least 2 w2.thermal_level
      then some w2
      else if not w3.radio_ok
      then some w3
      else if w3.cfg.role == 1
      then some (serve w3)
      else elim (rx_loop rounds no_burst w3) [ none ↦ none | some w4 ↦ some (serve w4) ]

  -- A round of `workerLoop`, which main.cpp does not start.
  unfoldable pub worker_round : ℕ → Worker → Option Worker
  worker_round rounds w = elim (poll_once rounds w) [
    | none ↦ none
    | some w' ↦ some (call (sleep_us 1000) w')
  ]
