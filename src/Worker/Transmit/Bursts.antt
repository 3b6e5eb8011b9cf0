-- ===== src/Worker/Transmit/Bursts.antt =====
-- The packet loop of `transmitBurst`: which packets it sends, in which order, and what is on the air
-- when it gives up.
use k230_lr2021_radio.Prelude.{
  ℕ, zero, suc, ◌+◌, ◌%◌, ◌≡◌, refl, ap, ◌∙◌, ◌≤◌, ◌<◌, ◌≢◌, Bool, true, false, arith, List, [],
  ◌∷◌, ◌++◌, length, replicate, Option, none, some,
}
use k230_lr2021_radio.Device.{Env, TxError, tx_timeout, sleep_us}
use k230_lr2021_radio.Worker.State.{Worker, call, inc32}
use k230_lr2021_radio.Worker.Calls.{on_air, completed, Keeps, Keeps-refl, Keeps-trans}
use k230_lr2021_radio.Burst.{encode_packet}
use k230_lr2021_radio.Burst.Reassembly.{packets_from}
use k230_lr2021_radio.Worker.Transmit.{attempts, send_packets}
use k230_lr2021_radio.Worker.Transmit.OnAir.{Attempted, attempts-Attempted}

-- `Airs ps before after`: the packets `ps` went on the air in this order, each once to three times,
-- and nothing else did.
pub data Airs : List (List ℕ) → List (List ℕ) → List (List ℕ) → Type 0 where
  airs_none : {h : List (List ℕ)} → Airs [] h h
  airs_next :
      {p : List ℕ} {ps before after : List (List ℕ)} (copies : ℕ)
      → 1 ≤ copies
      → copies ≤ 3
      → Airs ps (replicate copies p ++ before) after
      → Airs (p ∷ ps) before after

-- What came in the order of the first list, newest first, in front of the second.
abbrev pub newest_first : List (List ℕ) → List (List ℕ) → List (List ℕ)
newest_first [] before = before
newest_first (p ∷ ps) before = newest_first ps (p ∷ before)

module _ (env : Env) (burst_id total : ℕ) (payload : List ℕ) (crc : ℕ) where
  abbrev packet : ℕ → List ℕ
  packet idx = encode_packet burst_id idx total payload (length payload) crc

  -- What the loop does with the packets `idx`, `idx + 1`, ..., `left` of them. It completes each
  -- packet up to the one that it gives up, if it gives up one.
  pub record Sent (left idx : ℕ) (w : Worker) (r : Option TxError × Worker) : Type 0 where
    pub keeps : Keeps w r.1
    pub sent : ℕ
    pub within : sent ≤ left
    pub middle : List (List ℕ)
    pub confirmed :
        Airs (packets_from burst_id total payload crc sent idx) (on_air env w.history) middle
    pub on_success : r.0 ≡ none → (sent ≡ left) × (on_air env r.1.history ≡ middle)
    pub on_failure : r.0 ≢ none → sent < left
    pub landed :
        completed env r.1.history
        ≡ newest_first (packets_from burst_id total payload crc sent idx) (completed env w.history)
    pub counted : r.1.st.packets_tx % 4294967296 ≡ (w.st.packets_tx + sent) % 4294967296

  nothing_left : (idx : ℕ) (w : Worker) → Sent 0 idx w (none, w)
  nothing_left idx w = record {
    keeps = Keeps-refl w;
    sent = 0;
    within = omega arith;
    middle = on_air env w.history;
    confirmed = airs_none;
    on_success = λ _. (refl, refl);
    on_failure = λ e. absurd (e refl);
    landed = refl;
    counted = omega arith;
  }

  gave_up :
      (left idx : ℕ) (w w' : Worker)
      → Attempted env 3 (packet idx) w (false, w')
      → Sent (suc left) idx w (some tx_timeout, w')
  gave_up left idx w w' a = record {
    keeps = a.keeps;
    sent = 0;
    within = omega arith;
    middle = on_air env w.history;
    confirmed = airs_none;
    on_success = λ e. cc;
    on_failure = λ _. omega arith;
    landed = a.landed;
    counted = ap (λ t. t % 4294967296) (a.counted ∙ omega arith);
  }

  -- The bookkeeping behind a packet that was confirmed.
  abbrev advance : Worker → Worker
  advance w =
      call (sleep_us 220) (record w { st = record w.st { packets_tx = inc32 w.st.packets_tx } })

  advance-Keeps : (w : Worker) → Keeps w (advance w)
  advance-Keeps w = ground arith

  went_on :
      (left idx : ℕ) (w w' : Worker) (r : Option TxError × Worker)
      → Attempted env 3 (packet idx) w (true, w')
      → Sent left (idx + 1) (advance w') r
      → Sent (suc left) idx w r
  went_on left idx w w' r a s = record {
    keeps =
        Keeps-trans w w' r.1 a.keeps (Keeps-trans w' (advance w') r.1 (advance-Keeps w') s.keeps);
    sent = suc s.sent;
    within = omega (arith, s.within);
    middle = s.middle;
    confirmed = airs_next a.copies (a.one_used refl) a.few (rw (← a.aired) s.confirmed);
    on_success = λ e. (ap suc (s.on_success e).0, (s.on_success e).1);
    on_failure = λ e. omega (arith, s.on_failure e);
    landed =
        s.landed
        ∙ ap (newest_first (packets_from burst_id total payload crc s.sent (idx + 1))) a.landed;
    counted = omega (arith, s.counted, a.counted);
  }

  -- The packet loop sends its packets in order, each of them until it is confirmed.
  pub send_packets-Sent :
      (left idx : ℕ) (w : Worker)
      → Sent left idx w (send_packets env burst_id total payload crc left idx w)
  unfolding send_packets
  send_packets-Sent zero idx w = nothing_left idx w
  send_packets-Sent (suc left) idx w =
      go (attempts env 3 0 (packet idx) w) (attempts-Attempted env 3 0 (packet idx) w)
        (send_packets-Sent left (idx + 1))
    where
      go :
          (r : Bool × Worker)
          → Attempted env 3 (packet idx) w r
          → ((v : Worker)
              → Sent left
                  (idx + 1)
                  v
                  (send_packets env burst_id total payload crc left (idx + 1) v))
          → Sent (suc left) idx w (elim r.0 [
            | false ↦ (some tx_timeout, r.1)
            | true ↦ send_packets env burst_id total payload crc left (idx + 1) (advance r.1)
          ])
      go (false, w') a ih = gave_up left idx w w' a
      go (true, w') a ih = went_on left idx w w' _ a (ih (advance w'))
