-- ===== src/Worker/Receive/Fetching.antt =====
-- What the first half of a round of the reception loop gets out of the radio: when it calls `readData`,
-- and what becomes of the answer.
use k230_lr2021_radio.Prelude.{
  ℕ, ◌≡◌, ◌≤◌, ◌<◌, ◌∙◌, ap, suc, length, Bool, true, false, not, ◌&&◌, ◌||◌, arith, Option, none,
  some, List, [], ◌∷◌, leb, ◌==◌, if◌then◌else◌, ℤ, pos,
}
use k230_lr2021_radio.Device.{
  Env, History, on_rx_packet, get_rx_fifo_level, get_clear_irq_status, get_packet_status, read_data,
}
use k230_lr2021_radio.Burst.{packet_payload}
use k230_lr2021_radio.Worker.State.{Worker, Counters, inc32, call}
use k230_lr2021_radio.Worker.Control.{arm_receive}
use k230_lr2021_radio.Worker.Receive.{
  Packet, Rx, Reading, tally, read_packet, receive, no_receive, look_at_fifo, has_packet,
  handle_irq, read_irq, irq_rx_done, irq_header_error, irq_timed_out, irq_crc_error, irq_len_error,
}

-- The packets given to the host, newest first.
abbrev pub delivered : History → List Packet
delivered [] = []
delivered (on_rx_packet pkt rssi ∷ h) = (pkt, rssi) ∷ delivered h
delivered (_ ∷ h) = delivered h

-- The RSSI that `getPacketStatusFLRC` gave last.
abbrev pub last_rssi : Env → History → ℤ
last_rssi env [] = pos 0
last_rssi env (get_packet_status ∷ h) = env.rssi_avg (get_packet_status ∷ h)
last_rssi env (_ ∷ h) = last_rssi env h

abbrev pub with_answer : Option (List ℕ) → ℤ → List Packet → List Packet
with_answer none rssi ps = ps
with_answer (some bytes) rssi ps = (bytes, rssi) ∷ ps

-- The bytes that `readData` gave, each time that it succeeded, with the RSSI asked for before.
abbrev pub fetched : Env → History → List Packet
fetched env [] = []
fetched env (read_data n ∷ h) =
    with_answer (env.received n (read_data n ∷ h)) (last_rssi env h) (fetched env h)
fetched env (_ ∷ h) = fetched env h

-- How often `readData` was called for a whole packet.
abbrev pub whole_reads : History → ℕ
whole_reads [] = 0
whole_reads (read_data n ∷ h) = if n == packet_payload then suc (whole_reads h) else whole_reads h
whole_reads (_ ∷ h) = whole_reads h

abbrev pub is_damaged : ℕ → Bool
is_damaged irq = irq_crc_error irq || (irq_len_error irq || irq_header_error irq)

-- The level that the FIFO has when it is asked for behind `h` holds a whole packet.
abbrev pub holds_packet : Env → History → Bool
holds_packet env h = leb packet_payload (env.rx_fifo_level (get_rx_fifo_level ∷ h))

-- Whether a round has a packet to read: RX_DONE with no error and a whole packet in the FIFO; or,
-- straight behind a packet of a burst, no interrupt and a whole packet in the FIFO, asked for twice.
abbrev pub has_arrival : Env → Bool → History → Bool
has_arrival env behind_packet h =
    let h' = get_clear_irq_status ∷ h in
    let irq = env.irq_status h' in
    if irq_rx_done irq
    then not (is_damaged irq) && holds_packet env h'
    else not (is_damaged irq || irq_timed_out irq)
      && (behind_packet && (holds_packet env h' && holds_packet env (get_rx_fifo_level ∷ h')))

abbrev pub counted : Option Packet → ℕ → ℕ
counted none n = n
counted (some _) n = inc32 n

abbrev pub with_packet : Option Packet → List Packet → List Packet
with_packet none ps = ps
with_packet (some p) ps = p ∷ ps

-- Nothing is read between two histories, the second of which goes on from the first.
pub record FetchesNone (env : Env) (h h' : History) : Type 0 where
  pub calls : whole_reads h' ≡ whole_reads h
  pub answers : fetched env h' ≡ fetched env h
  pub longer : length h ≤ length h'

-- The first half of a round delivers nothing and keeps nothing; its packet is what `readData` gave,
-- and it is counted.
pub record Reads (env : Env) (rx : Rx) (w : Worker) (r : Reading) : Type 0 where
  pub kept : r.1.burst_rx_queue ≡ rx.burst_rx_queue
  pub silent : delivered r.2.history ≡ delivered w.history
  pub count : r.2.st.packets_rx ≡ counted r.0 w.st.packets_rx
  pub answers : fetched env r.2.history ≡ with_packet r.0 (fetched env w.history)
  pub longer : length w.history ≤ length r.2.history

module _ (env : Env) where
  read_packet-Reads : (rx : Rx) (w : Worker) → Reads env rx w (read_packet env rx w)
  unfolding read_packet arm_receive tally
  read_packet-Reads rx w = ground arith

  read_packet-calls :
      (rx : Rx) (w : Worker)
      → whole_reads (read_packet env rx w).2.history ≡ suc (whole_reads w.history)
  unfolding read_packet arm_receive tally
  read_packet-calls rx w = ground arith

  receive-Reads : (irq : ℕ) (rx : Rx) (w : Worker) → Reads env rx w (receive env irq rx w)
  unfolding receive arm_receive
  receive-Reads irq rx w = ground (arith, read_packet-Reads rx (call get_rx_fifo_level w))

  receive-calls :
      (irq : ℕ) (rx : Rx) (w : Worker)
      → whole_reads (receive env irq rx w).2.history ≡ (
          if not (is_damaged irq) && holds_packet env w.history
          then suc (whole_reads w.history)
          else whole_reads w.history)
  unfolding receive arm_receive
  receive-calls irq rx w = ground (arith, read_packet-calls rx (call get_rx_fifo_level w))

  no_receive-Reads : (irq : ℕ) (rx : Rx) (w : Worker) → Reads env rx w (no_receive env irq rx w)
  unfolding no_receive arm_receive
  no_receive-Reads irq rx w = ground arith

  no_receive-calls :
      (irq : ℕ) (rx : Rx) (w : Worker)
      → whole_reads (no_receive env irq rx w).2.history ≡ whole_reads w.history
  unfolding no_receive arm_receive
  no_receive-calls irq rx w = ground arith

  look_at_fifo-kept :
      (rx : Rx) (w : Worker)
      → let r = look_at_fifo env rx w in
        (r.1.burst_rx_queue ≡ rx.burst_rx_queue)
        × (delivered r.2.history ≡ delivered w.history)
        × (r.2.st ≡ w.st)
        × (fetched env r.2.history ≡ fetched env w.history)
        × (length w.history ≤ length r.2.history)
  unfolding look_at_fifo
  look_at_fifo-kept rx w = ground arith

  has_packet-kept :
      (irq : ℕ) (rx : Rx) (w : Worker)
      → let r = has_packet env irq rx w in
        (r.1.burst_rx_queue ≡ rx.burst_rx_queue)
        × (delivered r.2.history ≡ delivered w.history)
        × (r.2.st ≡ w.st)
        × (fetched env r.2.history ≡ fetched env w.history)
        × (length w.history ≤ length r.2.history)
  unfolding has_packet
  has_packet-kept irq rx w = ground (arith, look_at_fifo-kept rx w)

  handle_irq-Reads : (irq : ℕ) (r : Bool × Rx × Worker) → Reads env r.1 r.2 (handle_irq env irq r)
  handle_irq-Reads irq (true, rx, w) =
      ground (arith, receive-Reads irq (record rx { check_fifo_after_rx = false }) w)
  handle_irq-Reads irq (false, rx, w) =
      ground (arith, no_receive-Reads irq (record rx { check_fifo_after_rx = false }) w)

  handle_irq-calls :
      (irq : ℕ) (r : Bool × Rx × Worker)
      → whole_reads (handle_irq env irq r).2.history ≡ (
          if r.0 && (not (is_damaged irq) && holds_packet env r.2.history)
          then suc (whole_reads r.2.history)
          else whole_reads r.2.history)
  handle_irq-calls irq (true, rx, w) =
      receive-calls irq (record rx { check_fifo_after_rx = false }) w
  handle_irq-calls irq (false, rx, w) =
      no_receive-calls irq (record rx { check_fifo_after_rx = false }) w

  -- A whole packet is read just when there is one.
  pub read_irq-calls :
      (rx : Rx) (w : Worker)
      → whole_reads (read_irq env rx w).2.history ≡ (
          if has_arrival env rx.check_fifo_after_rx w.history
          then suc (whole_reads w.history)
          else whole_reads w.history)
  unfolding read_irq has_packet look_at_fifo
  read_irq-calls rx w =
      let irq = env.irq_status (get_clear_irq_status ∷ w.history) in
      handle_irq-calls irq (has_packet env irq rx (call get_clear_irq_status w)) ∙ ground arith

  -- Each round makes a call.
  pub read_irq-longer :
      (rx : Rx) (w : Worker) → length w.history < length (read_irq env rx w).2.history
  unfolding read_irq
  read_irq-longer rx w =
      let w' = call get_clear_irq_status w in
      let irq = env.irq_status (get_clear_irq_status ∷ w.history) in
      let k = has_packet-kept irq rx w' in
      let r = handle_irq-Reads irq (has_packet env irq rx w') in omega (arith, k.4, r.longer)

  pub read_irq-Reads : (rx : Rx) (w : Worker) → Reads env rx w (read_irq env rx w)
  unfolding read_irq
  read_irq-Reads rx w =
      let w' = call get_clear_irq_status w in
      let irq = env.irq_status (get_clear_irq_status ∷ w.history) in
      let k = has_packet-kept irq rx w' in
      let r = handle_irq-Reads irq (has_packet env irq rx w') in
      record {
        kept = r.kept ∙ k.0;
        silent = r.silent ∙ k.1;
        count = r.count ∙ ap (λ (st : Counters). counted (read_irq env rx w).0 st.packets_rx) k.2;
        answers = r.answers ∙ ap (with_packet (read_irq env rx w).0) k.3;
        longer = omega (arith, k.4, r.longer);
      }
