-- ===== src/Worker/Transmit/Terminals.antt =====
-- What the host is told of a frame that `serviceTxQueue` takes off the queue.
use k230_lr2021_radio.Prelude.{
  ℕ, ◌+◌, ◌/◌, ◌%◌, ◌≡◌, refl, ap, sym, subst₂, ◌∙◌, ◌≤◌, ◌<◌, ◌≢◌, Bool-cases, inl, inr, Bool,
  false, arith, ◌||◌, List, [], ◌∷◌, length, Option, none, some, ◌==◌, ltb, if◌then◌else◌, pos,
  at_least, ◌==ℤ◌,
}
use k230_lr2021_radio.Device.{Env, TxError, sleep_us, standby, Terminal, read_clock}
use k230_lr2021_radio.Worker.State.{Worker, call, inc32}
use k230_lr2021_radio.Worker.Calls.{on_air, completed, terminals, Keeps, Keeps-refl, Keeps-trans}
use k230_lr2021_radio.Worker.Control.{arm_receive}
use k230_lr2021_radio.Burst.{total_packets, crc32, max_total_payload, max_packets}
use k230_lr2021_radio.Burst.Reassembly.{packets_from, assemble, assemble-packets}
use k230_lr2021_radio.Worker.Transmit.{
  transmit_burst, send_frame, service_front, service_tx_queue, burst_id_of, report,
}
use k230_lr2021_radio.Worker.Transmit.Bursts.{Airs, Sent, newest_first, send_packets-Sent}

-- The size test of `transmitBurst` refuses nothing that the parser lets through.
size_ok :
    (len : ℕ)
    → 0 < len
    → len ≤ max_total_payload
    → ((total_packets len == 0)
        || (ltb max_packets (total_packets len) || ltb max_total_payload len))
      ≡ false
unfolding total_packets
size_ok len positive small = ground arith

burst_id_of-pos : (s n c : ℕ) → (0 < burst_id_of s n c) × (burst_id_of s n c < 65536)
unfolding burst_id_of
burst_id_of-pos s n c = ground arith

-- The guard of `serviceTxQueue`.
abbrev pub held : Worker → Bool
held w = (w.cfg.role == 2) || (w.scan_active || at_least 2 w.thermal_level)

-- The state in which a frame taken off the queue is sent.
abbrev pub dequeued : List (List ℕ) → Worker → Worker
dequeued rest w = record w {
  tx_q = rest;
  st = record w.st { pending_tx_valid = if ltb 0 (length rest) then 1 else 0 };
}

abbrev pub verdict : Option TxError → Terminal
verdict none = Terminal.ok
verdict (some e) = Terminal.dropped

module _ (env : Env) where
  burst_id : Worker → ℕ
  burst_id w =
      burst_id_of (env.clock_ns (read_clock ∷ w.history) / 1000000000)
        (env.clock_ns (read_clock ∷ w.history) % 1000000000) w.burst_id_counter

  burst_id-range : (w : Worker) → (0 < burst_id w) × (burst_id w < 65536)
  unfolding burst_id
  burst_id-range w = burst_id_of-pos _ _ w.burst_id_counter

  -- The state in which the packet loop starts.
  abbrev counted : Worker → Worker
  counted w = record (call read_clock w) {
    burst_id_counter = inc32 w.burst_id_counter;
    st = record w.st { bursts_tx = inc32 w.st.bursts_tx };
  }

  transmit_burst-Sent :
      (payload : List ℕ) (w : Worker)
      → 0 < length payload
      → length payload ≤ max_total_payload
      → Sent env
          (burst_id w)
          (total_packets (length payload))
          payload
          (crc32 payload)
          (total_packets (length payload))
          0
          (counted w)
          (transmit_burst env payload w)
  unfolding transmit_burst burst_id
  transmit_burst-Sent payload w positive small = rw (size_ok (length payload) positive small) (
      send_packets-Sent env (burst_id w) (total_packets (length payload)) payload (crc32 payload)
        (total_packets (length payload)) 0 (counted w))

  counted-Keeps : (w : Worker) → Keeps w (counted w)
  counted-Keeps w = ground arith

  abbrev bad_size : List ℕ → Bool
  bad_size payload =
      (total_packets (length payload) == 0)
      || (ltb max_packets (total_packets (length payload))
          || ltb max_total_payload (length payload))

  transmit_burst-Keeps : (payload : List ℕ) (w : Worker) → Keeps w (transmit_burst env payload w).1
  unfolding transmit_burst
  transmit_burst-Keeps payload w = elim (Bool-cases (bad_size payload)) [
    | inl bad ↦ rw bad (Keeps-refl w)
    | inr good ↦ rw good (
        Keeps-trans w (counted w) _ (counted-Keeps w)
          (send_packets-Sent env _ (total_packets (length payload)) payload (crc32 payload)
            (total_packets (length payload)) 0 (counted w)).keeps)
  ]

  -- A burst of 1 to 24576 bytes that `transmitBurst` reports as sent is on the air whole: under
  -- one nonzero burst id the radio took all its packets in order, each once to three times, and
  -- nothing else; it said TX_DONE once for each of them, in order; and the packets joined give the
  -- payload back.
  pub transmit_burst-Airs :
      (payload : List ℕ) (w : Worker)
      → 0 < length payload
      → length payload ≤ max_total_payload
      → (transmit_burst env payload w).0 ≡ none
      → (id : ℕ) × (0 < id)
        × (id < 65536)
        × (let ps =
              packets_from id
                (total_packets (length payload))
                payload
                (crc32 payload)
                (total_packets (length payload))
                0 in
            Airs ps (on_air env w.history) (on_air env (transmit_burst env payload w).1.history)
            × (completed env (transmit_burst env payload w).1.history
                ≡ newest_first ps (completed env w.history))
            × (assemble (length payload) ps ≡ payload))
  transmit_burst-Airs payload w positive small sent = (
    burst_id w,
    (burst_id-range w).0,
    (burst_id-range w).1,
    (
      subst₂
          (λ n air.
            Airs
              (packets_from (burst_id w) (total_packets (length payload)) payload (crc32 payload) n
                0)
              (on_air env w.history) air)
          (whole.on_success sent).0 (sym (whole.on_success sent).1) whole.confirmed,
      whole.landed
          ∙ ap
              (λ n.
                newest_first
                  (packets_from (burst_id w) (total_packets (length payload)) payload
                    (crc32 payload) n 0)
                  (completed env w.history))
              (whole.on_success sent).0,
      assemble-packets (burst_id w) (total_packets (length payload)) payload (crc32 payload)
          positive small,
    ),
  )
    where
      whole :
          Sent env
            (burst_id w)
            (total_packets (length payload))
            payload
            (crc32 payload)
            (total_packets (length payload))
            0
            (counted w)
            (transmit_burst env payload w)
      whole = transmit_burst-Sent payload w positive small

  pub send_frame-Keeps : (frame : List ℕ) (w : Worker) → Keeps w (send_frame env frame w).1
  unfolding send_frame arm_receive
  send_frame-Keeps frame w = ground (
    arith,
    transmit_burst-Keeps frame (record (call standby w) { st = record w.st { burst_mode = 2 } }),
  )

  report-verdict :
      (err : Option TxError) (w : Worker)
      → (terminals (report env err w).history ≡ verdict err ∷ terminals w.history)
        × ((report env err w).tx_q ≡ w.tx_q)
  report-verdict none w = (refl, refl)
  report-verdict (some e) w = (refl, refl)

  paced-Keeps :
      (w : Worker) → Keeps w (if w.thermal_level ==ℤ pos 1 then call (sleep_us 15000) w else w)
  paced-Keeps w = ground arith

  pub service_front-reports :
      (frame : List ℕ) (rest : List (List ℕ)) (w : Worker)
      → (terminals (service_front env (frame ∷ rest) w).history
          ≡ verdict (send_frame env frame (dequeued rest w)).0 ∷ terminals w.history)
        × ((service_front env (frame ∷ rest) w).tx_q ≡ rest)
  service_front-reports frame rest w =
      let r = send_frame env frame (dequeued rest w) in
      let k = Keeps-trans _ r.1 _ (send_frame-Keeps frame (dequeued rest w)) (paced-Keeps r.1) in
      let v =
        report-verdict r.0
          (if r.1.thermal_level ==ℤ pos 1 then call (sleep_us 15000) r.1 else r.1) in
      (v.0 ∙ ap (◌∷◌ (verdict r.0)) k.reported, v.1 ∙ k.tx_q)

  front-accounts :
      (q : List (List ℕ)) (w : Worker)
      → q ≡ w.tx_q
      → length (terminals (service_front env q w).history) + length (service_front env q w).tx_q
        ≡ length (terminals w.history) + length w.tx_q
  front-accounts [] w e = refl
  front-accounts (frame ∷ rest) w e = omega (
    arith,
    ap length e,
    ap length (service_front-reports frame rest w).0,
    ap length (service_front-reports frame rest w).1,
  )

  -- `serviceTxQueue` answers for what it takes: the frames queued and the terminals reported are
  -- together as many as before, on every branch.
  pub service_tx_queue-accounts :
      (w : Worker)
      → length (terminals (service_tx_queue env w).history) + length (service_tx_queue env w).tx_q
        ≡ length (terminals w.history) + length w.tx_q
  unfolding service_tx_queue
  service_tx_queue-accounts w = elim (Bool-cases (held w)) [
    | inl yes_held ↦ rw yes_held refl
    | inr free ↦ rw free (front-accounts w.tx_q w refl)
  ]

  -- The queue is served from its front: when the role is not RX-only, no scan runs and no thermal
  -- cutoff holds, the oldest frame leaves the queue and gets its terminal, ok if its burst was
  -- sent and dropped if it was not.
  pub service_tx_queue-reports :
      (frame : List ℕ) (rest : List (List ℕ)) (w : Worker)
      → w.tx_q ≡ frame ∷ rest
      → w.cfg.role ≢ 2
      → w.scan_active ≡ false
      → at_least 2 w.thermal_level ≡ false
      → ((service_tx_queue env w).tx_q ≡ rest)
        × (terminals (service_tx_queue env w).history
            ≡ verdict (send_frame env frame (dequeued rest w)).0 ∷ terminals w.history)
  unfolding service_tx_queue
  service_tx_queue-reports frame rest w queued both idle cool =
      let free : held w ≡ false = ground arith in
      rw (free, queued)
        ((service_front-reports frame rest w).1, (service_front-reports frame rest w).0)
