-- ===== src/Worker/Receive/Acting.antt =====
-- The second half of a round of the reception loop reads nothing, and no round takes back a call.
use k230_lr2021_radio.Prelude.{
  ◌∙◌, ◌<◌, refl, true, false, arith, Option, none, some, List, [], ◌∷◌, if◌then◌else◌, length,
}
use k230_lr2021_radio.Device.{Env, on_rx_packet, get_rx_fifo_level, read_clock, clear_rx_buffer}
use k230_lr2021_radio.Burst.{Header, decode_header}
use k230_lr2021_radio.Worker.State.{Worker, inc32, call}
use k230_lr2021_radio.Worker.Control.{arm_receive}
use k230_lr2021_radio.Worker.Receive.Fetching.{FetchesNone, read_irq-longer}
use k230_lr2021_radio.Worker.Receive.{
  Packet, Rx, Reading, deliver, read_irq, finish_round, complete_burst, take_packet, act, rx_round,
  rearm, look_again,
}

-- The state in which a round ends.
abbrev pub settle : Rx → Worker → Worker
settle rx w =
    if rx.in_burst
    then (let v = rearm (call read_clock w) in record v { st = record v.st { burst_mode = 0 } })
    else w

module _ (env : Env) where
  deliver-FetchesNone :
      (q : List Packet) (w : Worker) → FetchesNone env w.history (deliver q w).history
  deliver-FetchesNone [] w = record { calls = refl; answers = refl; longer = omega arith }
  deliver-FetchesNone ((pkt, rssi) ∷ q) w =
      let d = deliver-FetchesNone q (call (on_rx_packet pkt rssi) w) in
      record { calls = d.calls; answers = d.answers; longer = omega (arith, d.longer) }

  finish_round-FetchesNone :
      (rx : Rx) (w : Worker) → FetchesNone env w.history (finish_round env rx w).2.history
  unfolding finish_round arm_receive
  finish_round-FetchesNone rx w =
      ground (arith, deliver-FetchesNone rx.burst_rx_queue (settle rx w))

  look_again-FetchesNone :
      (rx : Rx) (w : Worker) → FetchesNone env w.history (look_again env rx w).2.history
  unfolding look_again
  look_again-FetchesNone rx w =
      ground (arith, finish_round-FetchesNone rx (call clear_rx_buffer (call get_rx_fifo_level w)))

  complete_burst-FetchesNone :
      (p : Packet) (rx : Rx) (w : Worker)
      → FetchesNone env w.history (complete_burst env p rx w).2.history
  complete_burst-FetchesNone p rx w =
      let v = record w { st = record w.st { burst_mode = 0; bursts_rx = inc32 w.st.bursts_rx } } in
      let u = deliver (p ∷ []) (deliver rx.burst_rx_queue v) in
      let d = deliver-FetchesNone rx.burst_rx_queue v in
      let l = look_again-FetchesNone (record rx { in_burst = false; burst_rx_queue = [] }) u in
      record {
        calls = l.calls ∙ d.calls;
        answers = l.answers ∙ d.answers;
        longer = omega (arith, d.longer, l.longer);
      }

  take_packet-FetchesNone :
      (p : Packet) (h : Option Header) (rx : Rx) (w : Worker)
      → FetchesNone env w.history (take_packet env p h rx w).2.history
  unfolding take_packet arm_receive
  take_packet-FetchesNone p none rx w = ground arith
  take_packet-FetchesNone p (some hdr) rx w =
      ground (arith, complete_burst-FetchesNone p (record rx { check_fifo_after_rx = true }) w)

  pub act-FetchesNone : (r : Reading) → FetchesNone env r.2.history (act env r).2.history
  act-FetchesNone (none, rx, w) = finish_round-FetchesNone rx w
  act-FetchesNone (some p, rx, w) = take_packet-FetchesNone p (decode_header p.0) rx w

  pub rx_round-longer :
      (rx : Rx) (w : Worker) → length w.history < length (rx_round env rx w).2.history
  unfolding rx_round
  rx_round-longer rx w =
      omega
        (arith, read_irq-longer env rx w, let n = act-FetchesNone (read_irq env rx w) in n.longer)
