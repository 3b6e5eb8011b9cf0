-- ===== src/Server/Exchange/Histories.antt =====
-- No handler of service/src/serial_server.cpp takes back a call that was made.
use Prim.{tt}
use k230_lr2021_radio.Prelude.{
  ℕ, Bool, true, false, List, [], ◌∷◌, ◌==◌, if◌then◌else◌, ◌||◌, ◌&&◌, not, Option, none, some,
  ltb, leb, sub32, u32, length, at_least, ◌==ℤ◌, ◌+◌, negsuc,
}
use k230_lr2021_radio.Device.{
  Env, Event, History, Terminal, standby, set_frequency, set_output_power, start_receive,
  read_clock, write_all, on_rx_packet, on_tx_terminal, on_scan_result,
}
use k230_lr2021_radio.Worker.State.{Worker, Config, ScanParams, call, now_ms}
use k230_lr2021_radio.Worker.Control.{
  apply_config, retune, finish_config, clamp_power, arm_receive, enqueue_tx, snapshot, start_scan,
  ConfigError, tx_queue_cap,
}
use k230_lr2021_radio.Server.Parser.{
  Action, nothing, stats_request, reset_request, window_set, bad_config_len, bad_tx_len, configure,
  transmit, scan_q, on_byte,
}
use k230_lr2021_radio.Server.Frames.{stats_frame, diag_frame}
use k230_lr2021_radio.Server.Handlers.{
  Node, with_worker, send, send_all, answer_config, handle_tx, answer_tx, handle_config,
  handle_scan_q, handle_reset, write_stats, maybe_emit_stats, perform, radio_config, parse_config,
  scan_params, poll_byte, poll_input,
}

-- The calls that put nothing on the host's stream.
abbrev pub IsSilent : Event → Type 0
IsSilent (write_all bytes) = ⊥
IsSilent (on_rx_packet pkt rssi) = ⊥
IsSilent (on_tx_terminal t) = ⊥
IsSilent (on_scan_result hz frames consensus rssi) = ⊥
IsSilent _ = Unit {0}

abbrev pub IsAny : Event → Type 0
IsAny e = Unit {0}

-- A history that goes on from another, by calls of a kind.
pub data GoesOn (P : Event → Type 0) (h : History) : History → Type 0 where
  there : GoesOn P h h
  then_call : (e : Event) (h' : History) → P e → GoesOn P h h' → GoesOn P h (e ∷ h')

pub GoesOn-trans :
    (P : Event → Type 0) (h h' h'' : History) → GoesOn P h h' → GoesOn P h' h'' → GoesOn P h h''
GoesOn-trans P h h' _ g there = g
GoesOn-trans P h h' _ g (then_call e k p g') = then_call e k p (GoesOn-trans P h h' k g g')

pub loosen : (h h' : History) → GoesOn IsSilent h h' → GoesOn IsAny h h'
loosen h _ there = there
loosen h _ (then_call e k p g) = then_call e k tt (loosen h k g)

abbrev pub WorkerGoesOn : Worker → Worker → Type 0
WorkerGoesOn w w' = GoesOn IsSilent w.history w'.history

abbrev pub NodeGoesOn : Node → Node → Type 0
NodeGoesOn n n' = GoesOn IsAny n.worker.history n'.worker.history

pub node_steps : (l m n : Node) → NodeGoesOn l m → NodeGoesOn m n → NodeGoesOn l n
node_steps l m n = GoesOn-trans IsAny l.worker.history m.worker.history n.worker.history

if-WorkerGoesOn :
    (b : Bool) (w x y : Worker)
    → WorkerGoesOn w x
    → WorkerGoesOn w y
    → WorkerGoesOn w (if b then x else y)
if-WorkerGoesOn true w x y p q = p
if-WorkerGoesOn false w x y p q = q

if-NodeGoesOn :
    (b : Bool) (n x y : Node) → NodeGoesOn n x → NodeGoesOn n y → NodeGoesOn n (if b then x else y)
if-NodeGoesOn true n x y p q = p
if-NodeGoesOn false n x y p q = q

if-result {ℓ} :
    {A : Type ℓ} (b : Bool) (w : Worker) (x y : A × Worker)
    → WorkerGoesOn w x.1
    → WorkerGoesOn w y.1
    → WorkerGoesOn w (if b then x else y).1
if-result true w x y p q = p
if-result false w x y p q = q

step : (e : Event) (w : Worker) → IsSilent e → WorkerGoesOn w (call e w)
step e w p = then_call e w.history p there

steps : (u v w : Worker) → WorkerGoesOn u v → WorkerGoesOn v w → WorkerGoesOn u w
steps u v w = GoesOn-trans IsSilent u.history v.history w.history

arm_receive-GoesOn : (w : Worker) → WorkerGoesOn w (arm_receive w)
unfolding arm_receive
arm_receive-GoesOn w =
    if-WorkerGoesOn (not w.radio_ok || (w.cfg.role == 1)) w w _ there (step start_receive w tt)

pub enqueue_tx-GoesOn : (payload : List ℕ) (w : Worker) → WorkerGoesOn w (enqueue_tx payload w).1
unfolding enqueue_tx
enqueue_tx-GoesOn payload w =
    if-result (not w.radio_ok || at_least 2 w.thermal_level) w _ _ there
      (if-result (leb tx_queue_cap (length w.tx_q)) w _ _ there there)

send-GoesOn : (bytes : List ℕ) (n : Node) → NodeGoesOn n (send bytes n)
send-GoesOn bytes n =
    if-NodeGoesOn n.connected n _ n (then_call (write_all bytes) n.worker.history tt there) there

pub send_all-GoesOn : (ws : List (List ℕ)) (n : Node) → NodeGoesOn n (send_all ws n)
send_all-GoesOn [] n = there
send_all-GoesOn (w ∷ ws) n =
    node_steps n (send w n) (send_all ws (send w n)) (send-GoesOn w n)
      (send_all-GoesOn ws (send w n))

answer_config-GoesOn : (err : Option ConfigError) (n : Node) → NodeGoesOn n (answer_config err n)
answer_config-GoesOn none n = send-GoesOn _ n
answer_config-GoesOn (some e) n = send-GoesOn _ n

answer_tx-GoesOn : (len : ℕ) (t : Terminal) (n : Node) → NodeGoesOn n (answer_tx len t n)
answer_tx-GoesOn len Terminal.busy n = send-GoesOn _ n
answer_tx-GoesOn len Terminal.ok n = send_all-GoesOn (diag_frame 47 (u32 len)) n
answer_tx-GoesOn len Terminal.failed n = send_all-GoesOn (diag_frame 47 (u32 len)) n
answer_tx-GoesOn len Terminal.dropped n = send_all-GoesOn (diag_frame 47 (u32 len)) n

handle_tx-GoesOn : (payload : List ℕ) (n : Node) → NodeGoesOn n (handle_tx payload n)
unfolding handle_tx
handle_tx-GoesOn payload n =
    let r = enqueue_tx payload n.worker in
    node_steps n (with_worker r.1 n) (handle_tx payload n)
      (loosen n.worker.history r.1.history (enqueue_tx-GoesOn payload n.worker))
      (answer_tx-GoesOn (length payload) r.0 (with_worker r.1 n))

module _ (env : Env) where
  finish_config-GoesOn :
      (c : Config) (changed : Bool) (w : Worker) → WorkerGoesOn w (finish_config env c changed w).1
  finish_config-GoesOn c changed w =
      let w1 = if changed then call (set_output_power c.tx_power_dbm) w else w in
      steps w w1 (arm_receive w1) (if-WorkerGoesOn changed w _ w (step _ w tt) there)
        (arm_receive-GoesOn w1)

  retune-GoesOn :
      (c : Config) (changed : Bool) (w : Worker) → WorkerGoesOn w (retune env c changed w).1
  retune-GoesOn c changed w =
      let w1 = call (set_frequency c.frequency_hz) w in
      if-result (ltb 0 c.frequency_hz) w _ _
        (if-result (env.set_frequency_ok c.frequency_hz w1.history) w _ _
          (steps w w1 (finish_config env c changed w1).1 (step _ w tt)
            (finish_config-GoesOn c changed w1))
          (steps w w1 (arm_receive w1) (step _ w tt) (arm_receive-GoesOn w1)))
        (finish_config-GoesOn c changed w)

  pub apply_config-GoesOn : (c : Config) (w : Worker) → WorkerGoesOn w (apply_config env c w).1
  unfolding apply_config
  apply_config-GoesOn cfg w =
      let c = clamp_power w.thermal_level cfg in
      let changed = not (c.tx_power_dbm ==ℤ w.cfg.tx_power_dbm) in
      let w1 = call standby (record w { scan_active = false; cfg = c }) in
      if-result (not w.radio_ok) w _ _ there (
        if-result
          (not w.scan_active
            && ((c.frequency_hz == w.cfg.frequency_hz) && (not changed && (c.role == w.cfg.role))))
          w _ _ there
          (steps w w1 (retune env c changed w1).1 (then_call standby w.history tt there)
            (retune-GoesOn c changed w1)))

  scan_tail :
      (hz : ℕ) (w : Worker)
      → let w' = call (set_frequency hz) (call standby w) in
        WorkerGoesOn w (arm_receive (record w' { cfg = record w'.cfg { frequency_hz = hz } }))
  scan_tail hz w =
      let w' = call (set_frequency hz) (call standby w) in
      let tuned = record w' { cfg = record w'.cfg { frequency_hz = hz } } in
      steps w tuned (arm_receive tuned)
        (then_call (set_frequency hz) (standby ∷ w.history) tt
          (then_call standby w.history tt there))
        (arm_receive-GoesOn tuned)

  pub start_scan-GoesOn : (p : ScanParams) (w : Worker) → WorkerGoesOn w (start_scan env p w)
  unfolding start_scan
  start_scan-GoesOn p w =
      let w1 =
        if not w.scan_active && ltb 0 w.cfg.frequency_hz
        then record w { pre_scan_freq_hz = w.cfg.frequency_hz }
        else w in
      let clocked : WorkerGoesOn w (call read_clock w1) =
        then_call read_clock w1.history tt
          (if-WorkerGoesOn (not w.scan_active && ltb 0 w.cfg.frequency_hz) w _ w there there) in
      let w2 = call read_clock w1 in
      let w3 = record w2 {
        scan = p;
        scan_idx = 0;
        scan_frames = 0;
        scan_consensus = 0;
        scan_best_rssi = negsuc 127;
        scan_dwell_until = u32 ((now_ms env w1).0 + p.dwell_ms);
        scan_active = true;
        st = record w2.st { pending_tx_valid = 0 };
      } in
      if-WorkerGoesOn (w.radio_ok && ltb 0 p.start_hz) w _ w3
        (GoesOn-trans IsSilent w.history (read_clock ∷ w1.history) _ clocked
          (scan_tail p.start_hz w3))
        clocked

  handle_config-GoesOn : (body : List ℕ) (n : Node) → NodeGoesOn n (handle_config env body n)
  unfolding handle_config
  handle_config-GoesOn body n =
      let c = parse_config body in
      let r = apply_config env (radio_config c) n.worker in
      let s = with_worker (start_scan env (scan_params c) n.worker) n in
      if-NodeGoesOn (c.frequency_hz == 0xFFFFFFFF) n _ _
        (GoesOn-trans IsAny n.worker.history s.worker.history _
          (loosen n.worker.history s.worker.history (start_scan-GoesOn (scan_params c) n.worker))
          (send-GoesOn _ s))
        (GoesOn-trans IsAny n.worker.history r.1.history _
          (loosen n.worker.history r.1.history (apply_config-GoesOn (radio_config c) n.worker))
          (answer_config-GoesOn r.0 (with_worker r.1 n)))

  write_stats-GoesOn : (n : Node) → NodeGoesOn n (write_stats env n)
  unfolding write_stats snapshot
  write_stats-GoesOn n =
      let (now, w1) = now_ms env n.worker in
      let (c, w2) = snapshot now w1 in
      GoesOn-trans IsAny n.worker.history w2.history _
        (then_call read_clock n.worker.history tt there)
        (send_all-GoesOn
          (stats_frame (record c { parser_frames_killed = n.parser.parser_frames_killed }))
          (with_worker w2 n))

  pub maybe_emit_stats-GoesOn :
      (force : Bool) (n : Node) → NodeGoesOn n (maybe_emit_stats env force n)
  unfolding maybe_emit_stats
  maybe_emit_stats-GoesOn force n =
      let (now, w) = now_ms env n.worker in
      let n' = record n { last_stats_ms = now; worker = w } in
      if-NodeGoesOn (force || leb 10000 (sub32 now n.last_stats_ms)) n _ _
        (GoesOn-trans IsAny n.worker.history (read_clock ∷ n.worker.history) _
          (then_call read_clock n.worker.history tt there) (write_stats-GoesOn n'))
        (then_call read_clock n.worker.history tt there)

  perform-GoesOn : (a : Action) (n : Node) → NodeGoesOn n (perform env a n)
  unfolding perform handle_reset handle_scan_q
  perform-GoesOn nothing n = there
  perform-GoesOn stats_request n = maybe_emit_stats-GoesOn true n
  perform-GoesOn reset_request n = send-GoesOn _ n
  perform-GoesOn window_set n = send-GoesOn _ n
  perform-GoesOn bad_config_len n = send-GoesOn _ n
  perform-GoesOn bad_tx_len n = send-GoesOn _ n
  perform-GoesOn (configure body) n = handle_config-GoesOn body n
  perform-GoesOn (transmit payload) n = handle_tx-GoesOn payload n
  perform-GoesOn (scan_q count dwell freqs) n =
      if-NodeGoesOn ((count == 0) || ltb 16 count) n n _ there
        (loosen n.worker.history _ (start_scan-GoesOn _ n.worker))

  pub poll_byte-GoesOn : (b : ℕ) (n : Node) → NodeGoesOn n (poll_byte env b n)
  unfolding poll_byte
  poll_byte-GoesOn b n =
      let (now, w) = now_ms env n.worker in
      let (p, action, switched) = on_byte now b n.parser in
      let n1 = record n { parser = p; worker = w } in
      let n2 = perform env action n1 in
      let done : NodeGoesOn n n2 =
        GoesOn-trans IsAny n.worker.history (read_clock ∷ n.worker.history) n2.worker.history
          (then_call read_clock n.worker.history tt there) (perform-GoesOn action n1) in
      if-NodeGoesOn switched n _ n2
        (GoesOn-trans IsAny n.worker.history n2.worker.history _ done
          (maybe_emit_stats-GoesOn false n2))
        done

  pub poll_input-GoesOn : (bs : List ℕ) (n : Node) → NodeGoesOn n (poll_input env bs false n)
  unfolding poll_input
  poll_input-GoesOn [] n = maybe_emit_stats-GoesOn false n
  poll_input-GoesOn (b ∷ bs) n =
      GoesOn-trans IsAny n.worker.history (poll_byte env b n).worker.history _
        (poll_byte-GoesOn b n) (poll_input-GoesOn bs (poll_byte env b n))
