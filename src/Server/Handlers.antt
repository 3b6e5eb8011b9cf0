-- ===== src/Server/Handlers.antt =====
-- The command handlers of service/src/serial_server.cpp, `maybeEmitStats`, and `pollOnce` over the
-- bytes that are there to be read.
pub mod Configs
pub mod Answers
pub mod Books
pub mod Stays
pub mod Rounds
pub mod Serves
use Prim.Native.String.{String}
use k230_lr2021_radio.Prelude.{
  ℕ, zero, suc, ◌+◌, ◌*◌, ◌%◌, ◌≡◌, Bool, true, false, ◌&&◌, ◌||◌, not, List, [], ◌∷◌, ◌++◌, ltb,
  leb, ◌==◌, if◌then◌else◌, length, get_or, join32, sub32, u32, ℤ, int8, Option, none, some,
}
use k230_lr2021_radio.Device.{Env, Event, write_all, Terminal}
use k230_lr2021_radio.Worker.State.{Worker, Config, ScanParams, Counters, call, now_ms}
use k230_lr2021_radio.Worker.Control.{ConfigError, apply_config, start_scan, enqueue_tx, snapshot}
use k230_lr2021_radio.Server.Parser.{
  Parser, State, Action, nothing, stats_request, reset_request, window_set, bad_config_len,
  bad_tx_len, configure, transmit, scan_q, on_byte,
}
use k230_lr2021_radio.Server.Frames.{
  codes, ready_frame, error_frame, diag_frame, stats_frame, message_of,
}

-- The server with the worker that it drives; `connected` is `fd_ >= 0`.
pub record Node : Type 0 where
  pub parser : Parser
  pub connected : Bool
  pub is_tcp : Bool
  pub last_stats_ms : ℕ
  pub ready_sent : Bool
  pub worker : Worker

abbrev pub with_worker : Worker → Node → Node
with_worker w n = record n { worker = w }

-- `writeAll`: nothing is written without a connection.
abbrev pub send : List ℕ → Node → Node
send bytes n = if n.connected then with_worker (call (write_all bytes) n.worker) n else n

abbrev pub send_all : List (List ℕ) → Node → Node
send_all [] n = n
send_all (w ∷ ws) n = send_all ws (send w n)

-- `ParsedConfig`
pub record ParsedConfig : Type 0 where
  pub frequency_hz : ℕ
  pub bandwidth_hz : ℕ
  pub coding_rate : ℕ
  pub tx_power_dbm : ℕ
  pub sync_word : ℕ
  pub role : ℕ
  pub body_len : ℕ
  pub rate_sel : ℕ
  pub payload_sel : ℕ

abbrev pub u32_at : List ℕ → ℕ → ℕ
u32_at b i = join32 (get_or b i 0) (get_or b (i + 1) 0) (get_or b (i + 2) 0) (get_or b (i + 3) 0)

-- The fields of a CONFIG body; the power is the byte of an int8_t.
unfoldable pub parse_config : List ℕ → ParsedConfig
parse_config body = record {
  frequency_hz = u32_at body 0;
  bandwidth_hz = u32_at body 4;
  coding_rate = get_or body 8 0;
  tx_power_dbm = get_or body 9 0;
  sync_word = u32_at body 10;
  role = get_or body 14 0;
  body_len = length body;
  rate_sel = if leb 17 (length body) then get_or body 15 0 else 0;
  payload_sel = if leb 17 (length body) then get_or body 16 0 else 0;
}

-- The scan of a CONFIG with the scan magic.
unfoldable pub scan_params : ParsedConfig → ScanParams
scan_params c =
    let count = if c.coding_rate == 0 then 27 else c.coding_rate in
    let dwell = c.tx_power_dbm * 100 in
    record {
      start_hz = c.sync_word;
      step_hz = c.bandwidth_hz;
      count = if ltb 64 count then 64 else count;
      dwell_ms = if ltb dwell 50 then 50 else dwell;
    }

abbrev pub radio_config : ParsedConfig → Config
radio_config c = record {
  frequency_hz = c.frequency_hz;
  tx_power_dbm = int8 c.tx_power_dbm;
  role = c.role;
}

abbrev pub bad_config : ℕ
bad_config = 0x03

-- The answer to a CONFIG.
abbrev pub answer_config : Option ConfigError → Node → Node
answer_config none n = send (ready_frame 511) n
answer_config (some e) n = send (error_frame bad_config (message_of e)) n

-- The file is synced, which writes nothing.
unfoldable pub handle_reset : Node → Node
handle_reset n = send (b'G' ∷ []) n

abbrev pub answer_tx : ℕ → Terminal → Node → Node
answer_tx len Terminal.busy n = send (error_frame 0x04 (codes "tx queue full")) n
answer_tx len _ n = send_all (diag_frame 47 (u32 len)) n

unfoldable pub handle_tx : List ℕ → Node → Node
handle_tx payload n =
    let (t, w) = enqueue_tx payload n.worker in answer_tx (length payload) t (with_worker w n)

module _ (env : Env) where
  unfoldable pub handle_config : List ℕ → Node → Node
  handle_config body n =
      let c = parse_config body in
      if c.frequency_hz == 0xFFFFFFFF
      then send (ready_frame 511) (with_worker (start_scan env (scan_params c) n.worker) n)
      else (let (err, w) = apply_config env (radio_config c) n.worker in
          answer_config err (with_worker w n))

  unfoldable pub handle_scan_q : ℕ → ℕ → List ℕ → Node → Node
  handle_scan_q count dwell_ms freqs n =
      if (count == 0) || ltb 16 count
      then n
      else with_worker
          (start_scan env
            (record {
              start_hz = get_or freqs 0 0;
              step_hz = 0;
              count = count;
              dwell_ms = if ltb dwell_ms 50 then 50 else dwell_ms;
            })
            n.worker)
          n

  unfoldable pub write_stats : Node → Node
  write_stats n =
      let (now, w1) = now_ms env n.worker in
      let (c, w2) = snapshot now w1 in
      send_all (stats_frame (record c { parser_frames_killed = n.parser.parser_frames_killed }))
        (with_worker w2 n)

  unfoldable pub maybe_emit_stats : Bool → Node → Node
  maybe_emit_stats force n =
      let (now, w) = now_ms env n.worker in
      let n' = with_worker w n in
      if force || leb 10000 (sub32 now n.last_stats_ms)
      then write_stats (record n' { last_stats_ms = now })
      else n'

  -- The call that a byte makes.
  unfoldable pub perform : Action → Node → Node
  perform nothing n = n
  perform stats_request n = maybe_emit_stats true n
  perform reset_request n = handle_reset n
  perform window_set n = send (ready_frame 511) n
  perform bad_config_len n = send (error_frame 0x03 (codes "bad len")) n
  perform bad_tx_len n = send (error_frame 0x02 (codes "bad tx len")) n
  perform (configure body) n = handle_config body n
  perform (transmit payload) n = handle_tx payload n
  perform (scan_q count dwell freqs) n = handle_scan_q count dwell freqs n

  -- A byte read by `readByte`, and one round of the loop.
  unfoldable pub poll_byte : ℕ → Node → Node
  poll_byte b n =
      let (now, w) = now_ms env n.worker in
      let (p, action, switched) = on_byte now b n.parser in
      let n' = perform action (record n { parser = p; worker = w }) in
      if switched then maybe_emit_stats false n' else n'

  -- The loop: the bytes that `readByte` returns before its -1 or, at a TCP client's end, its -2.
  unfoldable pub poll_input : List ℕ → Bool → Node → Node
  poll_input [] hung_up n =
      if hung_up then record n { connected = false } else maybe_emit_stats false n
  poll_input (b ∷ bs) hung_up n = poll_input bs hung_up (poll_byte b n)

  -- `writeReady`, `nowMs` and `writeStats`, with which `init` and an accepted client begin.
  abbrev pub greet : Node → Node
  greet n =
      let n1 = record (send (ready_frame 511) n) { ready_sent = true } in
      let (now, w) = now_ms env n1.worker in
      write_stats (record n1 { last_stats_ms = now; worker = w })

  -- A TCP server without a client accepts one first, if one is there.
  unfoldable pub poll_once : Bool → List ℕ → Bool → Node → Node
  unfolding poll_input
  poll_once client_waits input hung_up n =
      if n.is_tcp && not n.connected
      then (if client_waits
          then poll_input input hung_up (
              greet (record n {
                connected = true;
                parser = record n.parser { state = State.tag; skip_remain = 0; have = 0 };
              }))
          else n)
      else if n.connected
      then poll_input input hung_up n
      else n
