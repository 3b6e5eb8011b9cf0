-- ===== src/Worker/Control.antt =====
-- `armReceive`, `applyConfig`, `startScan`, `scanTick`, `enqueueTx` and `snapshot` of
-- service/src/radio_worker.cpp. main.cpp sets every callback, so their null tests always pass.
pub mod Tuning
pub mod Power
pub mod Sweep
use k230_lr2021_radio.Prelude.{
  ℕ, ◌+◌, ◌*◌, ◌≡◌, Bool, true, false, not, ◌&&◌, ◌||◌, Option, none, some, List, [], ◌∷◌, ◌++◌,
  ltb, leb, ◌==◌, if◌then◌else◌, length, u32, before32, ℤ, pos, negsuc, ltb_ℤ, ◌==ℤ◌, at_least,
}
use k230_lr2021_radio.Device.{
  Env, Terminal, Line, standby, start_receive, set_frequency, set_output_power, on_scan_result,
  on_log,
}
use k230_lr2021_radio.Worker.State.{Config, ScanParams, Counters, Worker, inc8, inc32, call, now_ms}

-- The texts that `applyConfig` leaves in `*err`.
pub data ConfigError : Type 0 where
  radio_not_ready set_frequency_failed : ConfigError

abbrev pub max_safe_bench_tx_power_dbm : ℤ
max_safe_bench_tx_power_dbm = pos 10

abbrev pub throttled_tx_power_dbm : ℤ
throttled_tx_power_dbm = pos 4

unfoldable pub arm_receive : Worker → Worker
arm_receive w =
    if not w.radio_ok || (w.cfg.role == 1)
    then w
    else let w' = call start_receive w in
      record w' { st = record w'.st { burst_mode = 0; restart_rx_pending = 0 } }

-- `Config clamped`: the power is cut to what the thermal level allows.
abbrev pub clamp_power : ℤ → Config → Config
clamp_power level c =
    let max_pwr =
      if at_least 1 level then throttled_tx_power_dbm else max_safe_bench_tx_power_dbm in
    if ltb_ℤ max_pwr c.tx_power_dbm then record c { tx_power_dbm = max_pwr } else c

module _ (env : Env) where
  -- The end of `applyConfig`, behind the frequency.
  abbrev pub finish_config : Config → Bool → Worker → Option ConfigError × Worker
  finish_config c pwr_changed w =
      (none, arm_receive (if pwr_changed then call (set_output_power c.tx_power_dbm) w else w))

  abbrev pub retune : Config → Bool → Worker → Option ConfigError × Worker
  retune c pwr_changed w =
      if ltb 0 c.frequency_hz
      then (let w' = call (set_frequency c.frequency_hz) w in
          if env.set_frequency_ok c.frequency_hz w'.history
          then finish_config c pwr_changed w'
          else (some set_frequency_failed, arm_receive w'))
      else finish_config c pwr_changed w

  abbrev pub apply_clamped : Config → Worker → Option ConfigError × Worker
  apply_clamped c w =
      let pwr_changed = not (c.tx_power_dbm ==ℤ w.cfg.tx_power_dbm) in
      if not w.scan_active
        && ((c.frequency_hz == w.cfg.frequency_hz) && (not pwr_changed && (c.role == w.cfg.role)))
      then (none, w)
      else retune c pwr_changed (call standby (record w { scan_active = false; cfg = c }))

  -- `none` is the result `true`.
  unfoldable pub apply_config : Config → Worker → Option ConfigError × Worker
  apply_config cfg w =
      if not w.radio_ok
      then (some radio_not_ready, w)
      else apply_clamped (clamp_power w.thermal_level cfg) w

  unfoldable pub start_scan : ScanParams → Worker → Worker
  start_scan p w =
      let w1 =
        if not w.scan_active && ltb 0 w.cfg.frequency_hz
        then record w { pre_scan_freq_hz = w.cfg.frequency_hz }
        else w in
      let (now, w2) = now_ms env w1 in
      let w3 = record w2 {
        scan = p;
        scan_idx = 0;
        scan_frames = 0;
        scan_consensus = 0;
        scan_best_rssi = negsuc 127;
        scan_dwell_until = u32 (now + p.dwell_ms);
        scan_active = true;
        st = record w2.st { pending_tx_valid = 0 };
      } in
      if w.radio_ok && ltb 0 p.start_hz
      then (let w4 = call (set_frequency p.start_hz) (call standby w3) in
          arm_receive (record w4 { cfg = record w4.cfg { frequency_hz = p.start_hz } }))
      else w3

-- The frequency of channel `idx` of a scan.
abbrev pub channel_hz : ScanParams → ℕ → ℕ
channel_hz p idx = u32 (p.start_hz + idx * p.step_hz)

-- `standby`, `setFrequency` and the store to `cfg_.frequency_hz`.
abbrev pub tune_to : ℕ → Worker → Worker
tune_to hz w =
    let w' = call (set_frequency hz) (call standby w) in
    record w' { cfg = record w'.cfg { frequency_hz = hz } }

-- The last channel is reported: the radio returns to where it was before the scan.
abbrev pub end_scan : Worker → Worker
end_scan w =
    let w1 = record w { scan_active = false } in
    let w2 =
      if w1.radio_ok && ltb 0 w1.pre_scan_freq_hz then tune_to w1.pre_scan_freq_hz w1 else w1 in
    call (on_log (Line.scan_complete w.scan.count)) (arm_receive w2)

abbrev pub next_channel : ℕ → Worker → Worker
next_channel now_ms w =
    let w' = tune_to (channel_hz w.scan w.scan_idx) w in
    arm_receive (record w' {
      scan_frames = 0;
      scan_consensus = 0;
      scan_best_rssi = negsuc 127;
      scan_dwell_until = u32 (now_ms + w.scan.dwell_ms);
    })

unfoldable pub scan_tick : ℕ → Worker → Worker
scan_tick now_ms w =
    if (w.scan_consensus == 0) && before32 now_ms w.scan_dwell_until
    then w
    else let w1 =
        call
          (on_scan_result (channel_hz w.scan w.scan_idx) w.scan_frames w.scan_consensus
            w.scan_best_rssi)
          w in
      let w2 = record w1 { scan_idx = inc8 w.scan_idx } in
      if leb w.scan.count w2.scan_idx then end_scan w2 else next_channel now_ms w2

abbrev pub tx_queue_cap : ℕ
tx_queue_cap = 16

unfoldable pub enqueue_tx : List ℕ → Worker → Terminal × Worker
enqueue_tx payload w =
    if not w.radio_ok || at_least 2 w.thermal_level
    then (Terminal.busy, w)
    else if leb tx_queue_cap (length w.tx_q)
    then (
      Terminal.busy,
      record w { st = record w.st { host_tx_dropped = inc32 w.st.host_tx_dropped } },
    )
    else (
      Terminal.ok,
      record w { tx_q = w.tx_q ++ (payload ∷ []); st = record w.st { pending_tx_valid = 1 } },
    )

unfoldable pub snapshot : ℕ → Worker → Counters × Worker
snapshot uptime_ms w =
    let st' = record w.st { uptime_ms = uptime_ms } in (st', record w { st = st' })
