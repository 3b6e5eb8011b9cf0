-- ===== src/Server/Handlers/Books.antt =====
-- The books of the server: the frames that it announced to the host as taken, against the frames
-- that are queued or have their terminal; and the power, whatever the host sends.
use k230_lr2021_radio.Prelude.{
  ℕ, ◌+◌, ◌≡◌, ◌∙◌, refl, ap, Bool, true, false, arith, List, [], ◌∷◌, ◌==◌, if◌then◌else◌, ◌||◌,
  Option, none, some, sym, ltb, leb, sub32, length-append,
}
use k230_lr2021_radio.Device.{Env, read_clock}
use k230_lr2021_radio.Worker.State.{Worker, Config, ScanParams, call, now_ms}
use k230_lr2021_radio.Worker.Calls.{sent}
use k230_lr2021_radio.Worker.Control.{
  apply_config, enqueue_tx, snapshot, ConfigError, radio_not_ready, set_frequency_failed,
  start_scan,
}
use k230_lr2021_radio.Worker.Control.Power.{IsBenchSafe, apply_config-IsBenchSafe}
use k230_lr2021_radio.Worker.Thermal.Drained.{accepted, apply_config-Accounts}
use k230_lr2021_radio.Worker.Receive.Polls.{IsFair, Leaves-IsFair}
use k230_lr2021_radio.Worker.Receive.Undisturbed.{start_scan-Leaves}
use k230_lr2021_radio.Server.Parser.{
  Action, nothing, stats_request, reset_request, window_set, bad_config_len, bad_tx_len, configure,
  transmit, scan_q,
}
use k230_lr2021_radio.Server.Frames.{
  ready_frame, error_frame, diag_frame, stats_frame, codes, message_of, serialize,
}
use k230_lr2021_radio.Server.Handlers.{
  Node, with_worker, send, answer_config, handle_tx, handle_config, handle_scan_q, handle_reset,
  write_stats, maybe_emit_stats, perform, parse_config, scan_params, radio_config,
}

-- The body of event 47, which says that a transmit frame was taken.
abbrev pub announces : List ℕ → Bool
announces (event ∷ _ ∷ _ ∷ _ ∷ _ ∷ _ ∷ []) = event == 47
announces _ = false

abbrev pub announced : List (List ℕ) → ℕ
announced [] = 0
announced (bytes ∷ ws) = (if announces bytes then 1 else 0) + announced ws

-- Every frame announced is queued or has its terminal, and the bench limit holds.
pub record IsBooked (n : Node) : Type 0 where
  pub booked : announced (sent n.worker.history) ≡ accepted n.worker
  pub safe : IsBenchSafe n.worker

pub with_worker-IsBooked :
    (n : Node) (w : Worker) → IsFair n.worker w → IsBooked n → IsBooked (with_worker w n)
with_worker-IsBooked n w f b = record {
  booked = ap announced f.accounts.silent ∙ b.booked ∙ sym f.accounts.accounts;
  safe = f.safe b.safe;
}

-- A write other than event 47.
send-IsBooked :
    (bytes : List ℕ) (n : Node) → announces bytes ≡ false → IsBooked n → IsBooked (send bytes n)
send-IsBooked bytes n other b = record {
  booked = ground (arith, b.booked);
  safe = ground (arith, b.safe);
}

pub ready-IsBooked : (n : Node) → IsBooked n → IsBooked (send (ready_frame 511) n)
unfolding ready_frame
ready-IsBooked n b = send-IsBooked (ready_frame 511) n refl b

handle_tx-IsBooked :
    (payload : List ℕ) (n : Node) → n.connected ≡ true → IsBooked n → IsBooked (handle_tx payload n)
unfolding handle_tx enqueue_tx diag_frame error_frame
handle_tx-IsBooked payload n on b = record {
  booked = ground (arith, b.booked, length-append n.worker.tx_q (payload ∷ []));
  safe = ground (arith, b.safe);
}

answer_config-IsBooked :
    (err : Option ConfigError) (n : Node) → IsBooked n → IsBooked (answer_config err n)
unfolding error_frame
answer_config-IsBooked none n b = ready-IsBooked n b
answer_config-IsBooked (some radio_not_ready) n b =
    send-IsBooked (error_frame 0x03 (message_of radio_not_ready)) n refl b
answer_config-IsBooked (some set_frequency_failed) n b =
    send-IsBooked (error_frame 0x03 (message_of set_frequency_failed)) n refl b

module _ (env : Env) where
  apply_config-IsFair : (c : Config) (w : Worker) → IsFair w (apply_config env c w).1
  apply_config-IsFair c w = record {
    accounts = apply_config-Accounts env c w;
    safe = apply_config-IsBenchSafe env c w;
  }

  scan-IsBooked :
      (p : ScanParams) (n : Node)
      → IsBooked n
      → IsBooked (with_worker (start_scan env p n.worker) n)
  scan-IsBooked p n =
      with_worker-IsBooked n _ (Leaves-IsFair n.worker _ (start_scan-Leaves env p n.worker))

  if-IsBooked : (b : Bool) (x y : Node) → IsBooked x → IsBooked y → IsBooked (if b then x else y)
  if-IsBooked true x y bx by' = bx
  if-IsBooked false x y bx by' = by'

  handle_config-IsBooked :
      (body : List ℕ) (n : Node) → IsBooked n → IsBooked (handle_config env body n)
  unfolding handle_config
  handle_config-IsBooked body n b =
      let c = parse_config body in
      let r = apply_config env (radio_config c) n.worker in
      if-IsBooked (c.frequency_hz == 0xFFFFFFFF) _ _
        (ready-IsBooked (with_worker (start_scan env (scan_params c) n.worker) n)
          (scan-IsBooked (scan_params c) n b))
        (answer_config-IsBooked r.0 (with_worker r.1 n)
          (with_worker-IsBooked n r.1 (apply_config-IsFair (radio_config c) n.worker) b))

  handle_scan_q-IsBooked :
      (count dwell : ℕ) (freqs : List ℕ) (n : Node)
      → IsBooked n
      → IsBooked (handle_scan_q env count dwell freqs n)
  unfolding handle_scan_q
  handle_scan_q-IsBooked count dwell freqs n b =
      if-IsBooked ((count == 0) || ltb 16 count) _ _ b (scan-IsBooked _ n b)

  pub write_stats-IsBooked : (n : Node) → IsBooked n → IsBooked (write_stats env n)
  unfolding write_stats stats_frame serialize snapshot
  write_stats-IsBooked n b = record {
    booked = ground (arith, b.booked);
    safe = ground (arith, b.safe);
  }

  pub maybe_emit_stats-IsBooked :
      (force : Bool) (n : Node) → IsBooked n → IsBooked (maybe_emit_stats env force n)
  unfolding maybe_emit_stats
  maybe_emit_stats-IsBooked force n b =
      let now = (now_ms env n.worker).0 in
      let n' = with_worker (call read_clock n.worker) n in
      let b' : IsBooked n' = record {
        booked = b.booked;
        safe = record { stored = b.safe.stored; set = b.safe.set };
      } in
      if-IsBooked (force || leb 10000 (sub32 now n.last_stats_ms)) _ _
        (write_stats-IsBooked (record n' { last_stats_ms = now })
          (record { booked = b'.booked; safe = b'.safe }))
        b'

  pub perform-IsBooked :
      (a : Action) (n : Node) → n.connected ≡ true → IsBooked n → IsBooked (perform env a n)
  unfolding perform handle_reset error_frame
  perform-IsBooked nothing n on b = b
  perform-IsBooked stats_request n on b = maybe_emit_stats-IsBooked true n b
  perform-IsBooked reset_request n on b = send-IsBooked (b'G' ∷ []) n refl b
  perform-IsBooked window_set n on b = ready-IsBooked n b
  perform-IsBooked bad_config_len n on b =
      send-IsBooked (error_frame 0x03 (codes "bad len")) n refl b
  perform-IsBooked bad_tx_len n on b =
      send-IsBooked (error_frame 0x02 (codes "bad tx len")) n refl b
  perform-IsBooked (configure body) n on b = handle_config-IsBooked body n b
  perform-IsBooked (transmit payload) n on b = handle_tx-IsBooked payload n on b
  perform-IsBooked (scan_q count dwell freqs) n on b = handle_scan_q-IsBooked count dwell freqs n b
