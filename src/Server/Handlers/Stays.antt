-- ===== src/Server/Handlers/Stays.antt =====
-- What no handler changes: the connection and the parser.
use k230_lr2021_radio.Prelude.{
  ℕ, ◌≡◌, ◌∙◌, refl, Bool, true, false, List, [], ◌∷◌, ◌==◌, if◌then◌else◌, ◌||◌, Option, none,
  some, ltb, leb, sub32, u32, length,
}
use k230_lr2021_radio.Device.{Env, Terminal}
use k230_lr2021_radio.Worker.State.{Worker, now_ms}
use k230_lr2021_radio.Worker.Control.{apply_config, enqueue_tx, snapshot, start_scan, ConfigError}
use k230_lr2021_radio.Server.Parser.{
  Action, nothing, stats_request, reset_request, window_set, bad_config_len, bad_tx_len, configure,
  transmit, scan_q,
}
use k230_lr2021_radio.Server.Frames.{stats_frame, diag_frame}
use k230_lr2021_radio.Server.Handlers.{
  Node, with_worker, send, send_all, answer_config, handle_tx, answer_tx, handle_config,
  handle_scan_q, handle_reset, write_stats, maybe_emit_stats, perform, radio_config, parse_config,
  scan_params,
}

-- A handler changes the connection and the parser of no node.
pub record Stays (n n' : Node) : Type 0 where
  pub connected : n'.connected ≡ n.connected
  pub parser : n'.parser ≡ n.parser

Stays-refl : (n : Node) → Stays n n
Stays-refl n = record { connected = refl; parser = refl }

Stays-trans : (l m n : Node) → Stays l m → Stays m n → Stays l n
Stays-trans l m n a b = record {
  connected = b.connected ∙ a.connected;
  parser = b.parser ∙ a.parser;
}

-- So does one that only changes the worker before it goes on.
with_worker-Stays : (n n' : Node) (w : Worker) → Stays (with_worker w n) n' → Stays n n'
with_worker-Stays n n' w s = record { connected = s.connected; parser = s.parser }

pub if-Stays : (b : Bool) (x y n : Node) → Stays n x → Stays n y → Stays n (if b then x else y)
if-Stays true x y n p q = p
if-Stays false x y n p q = q

pub send-Stays : (bytes : List ℕ) (n : Node) → Stays n (send bytes n)
send-Stays bytes n =
    if-Stays n.connected _ n n (record { connected = refl; parser = refl }) (Stays-refl n)

send_all-Stays : (ws : List (List ℕ)) (n : Node) → Stays n (send_all ws n)
send_all-Stays [] n = Stays-refl n
send_all-Stays (w ∷ ws) n =
    Stays-trans n (send w n) _ (send-Stays w n) (send_all-Stays ws (send w n))

answer_config-Stays : (err : Option ConfigError) (n : Node) → Stays n (answer_config err n)
answer_config-Stays none n = send-Stays _ n
answer_config-Stays (some e) n = send-Stays _ n

answer_tx-Stays : (len : ℕ) (t : Terminal) (n : Node) → Stays n (answer_tx len t n)
answer_tx-Stays len Terminal.busy n = send-Stays _ n
answer_tx-Stays len Terminal.ok n = send_all-Stays (diag_frame 47 (u32 len)) n
answer_tx-Stays len Terminal.failed n = send_all-Stays (diag_frame 47 (u32 len)) n
answer_tx-Stays len Terminal.dropped n = send_all-Stays (diag_frame 47 (u32 len)) n

handle_tx-Stays : (payload : List ℕ) (n : Node) → Stays n (handle_tx payload n)
unfolding handle_tx
handle_tx-Stays payload n =
    let r = enqueue_tx payload n.worker in
    with_worker-Stays n _ r.1 (answer_tx-Stays (length payload) r.0 (with_worker r.1 n))

module _ (env : Env) where
  pub write_stats-Stays : (n : Node) → Stays n (write_stats env n)
  unfolding write_stats
  write_stats-Stays n =
      let (now, w1) = now_ms env n.worker in
      let (c, w2) = snapshot now w1 in
      with_worker-Stays n _ w2 (
        send_all-Stays
          (stats_frame (record c { parser_frames_killed = n.parser.parser_frames_killed }))
          (with_worker w2 n))

  pub maybe_emit_stats-Stays : (force : Bool) (n : Node) → Stays n (maybe_emit_stats env force n)
  unfolding maybe_emit_stats
  maybe_emit_stats-Stays force n =
      let (now, w) = now_ms env n.worker in
      let n' = record n { last_stats_ms = now; worker = w } in
      let s = write_stats-Stays n' in
      if-Stays (force || leb 10000 (sub32 now n.last_stats_ms)) (write_stats env n') _ n
        (record { connected = s.connected; parser = s.parser })
        (record { connected = refl; parser = refl })

  handle_config-Stays : (body : List ℕ) (n : Node) → Stays n (handle_config env body n)
  unfolding handle_config
  handle_config-Stays body n =
      let c = parse_config body in
      let r = apply_config env (radio_config c) n.worker in
      if-Stays (c.frequency_hz == 0xFFFFFFFF) _ _ n
        (with_worker-Stays n _ (start_scan env (scan_params c) n.worker) (send-Stays _ _))
        (with_worker-Stays n _ r.1 (answer_config-Stays r.0 (with_worker r.1 n)))

  pub perform-Stays : (a : Action) (n : Node) → Stays n (perform env a n)
  unfolding perform handle_reset handle_scan_q
  perform-Stays nothing n = Stays-refl n
  perform-Stays stats_request n = maybe_emit_stats-Stays true n
  perform-Stays reset_request n = send-Stays _ n
  perform-Stays window_set n = send-Stays _ n
  perform-Stays bad_config_len n = send-Stays _ n
  perform-Stays bad_tx_len n = send-Stays _ n
  perform-Stays (configure body) n = handle_config-Stays body n
  perform-Stays (transmit payload) n = handle_tx-Stays payload n
  perform-Stays (scan_q count dwell freqs) n =
      if-Stays ((count == 0) || ltb 16 count) n _ n (Stays-refl n)
        (record { connected = refl; parser = refl })
