-- ===== src/Worker/State.antt =====
-- service/src/radio_worker.hpp and stats.hpp: the state of the worker.
use k230_lr2021_radio.Prelude.{ℕ, ◌+◌, ◌%◌, Bool, false, List, ◌∷◌, ℤ, pos, negsuc, []}
use k230_lr2021_radio.Device.{Event, History, Env, ms_of, read_clock}

pub record Config : Type 0 where
  pub frequency_hz : ℕ
  pub tx_power_dbm : ℤ
  pub role : ℕ

pub record ScanParams : Type 0 where
  pub start_hz : ℕ
  pub step_hz : ℕ
  pub count : ℕ
  pub dwell_ms : ℕ

-- `stats::Counters`, less its padding.
pub record Counters : Type 0 where
  pub bursts_tx : ℕ
  pub bursts_rx : ℕ
  pub packets_tx : ℕ
  pub packets_rx : ℕ
  pub crc_errors : ℕ
  pub host_tx_dropped : ℕ
  pub burst_mode : ℕ
  pub zero_25 : ℕ
  pub pending_tx_valid : ℕ
  pub restart_rx_pending : ℕ
  pub zero_28 : ℕ
  pub uptime_ms : ℕ
  pub uart_ring_drops : ℕ
  pub staging_overwrites : ℕ
  pub burst_id_conflicts : ℕ
  pub hw_received_packets : ℕ
  pub hw_crc_errors : ℕ
  pub hw_length_errors : ℕ
  pub hw_crc_ok : ℕ
  pub parser_frames_killed : ℕ

-- `RadioWorker`, and the calls made so far. The locks are left out: main.cpp runs the worker and
-- the server on one thread.
pub record Worker : Type 0 where
  pub radio_ok : Bool
  pub power_gpio : ℕ
  pub thermal_level : ℤ
  pub thermal_powered_down : Bool
  pub last_thermal_check_ms : ℕ
  pub fan_on : Bool
  pub pm_initialized : Bool
  pub cpu_dvfs_stage : ℤ
  pub cfg : Config
  pub scan : ScanParams
  pub scan_active : Bool
  pub pre_scan_freq_hz : ℕ
  pub scan_idx : ℕ
  pub scan_dwell_until : ℕ
  pub scan_frames : ℕ
  pub scan_consensus : ℕ
  pub scan_best_rssi : ℤ
  pub tx_q : List (List ℕ)
  pub st : Counters
  pub burst_id_counter : ℕ
  pub history : History

-- `x++` on a uint32_t and on a uint8_t.
abbrev pub inc32 : ℕ → ℕ
inc32 x = (x + 1) % 4294967296

abbrev pub inc8 : ℕ → ℕ
inc8 x = (x + 1) % 256

-- A call whose result is not used.
abbrev pub call : Event → Worker → Worker
call e w = record w { history = e ∷ w.history }

abbrev pub zero_counters : Counters
zero_counters = record {
  bursts_tx = 0;
  bursts_rx = 0;
  packets_tx = 0;
  packets_rx = 0;
  crc_errors = 0;
  host_tx_dropped = 0;
  burst_mode = 0;
  zero_25 = 0;
  pending_tx_valid = 0;
  restart_rx_pending = 0;
  zero_28 = 0;
  uptime_ms = 0;
  uart_ring_drops = 0;
  staging_overwrites = 0;
  burst_id_conflicts = 0;
  hw_received_packets = 0;
  hw_crc_errors = 0;
  hw_length_errors = 0;
  hw_crc_ok = 0;
  parser_frames_killed = 0;
}

-- The default initializers of the class.
abbrev pub fresh : Worker
fresh = record {
  radio_ok = false;
  power_gpio = 44;
  thermal_level = pos 0;
  thermal_powered_down = false;
  last_thermal_check_ms = 0;
  fan_on = false;
  pm_initialized = false;
  cpu_dvfs_stage = negsuc 0;
  cfg = record { frequency_hz = 915000000; tx_power_dbm = pos 10; role = 0 };
  scan = record { start_hz = 902000000; step_hz = 1000000; count = 27; dwell_ms = 300 };
  scan_active = false;
  pre_scan_freq_hz = 915000000;
  scan_idx = 0;
  scan_dwell_until = 0;
  scan_frames = 0;
  scan_consensus = 0;
  scan_best_rssi = negsuc 127;
  tx_q = [];
  st = zero_counters;
  burst_id_counter = 1;
  history = [];
}

module _ (env : Env) where
  -- `nowMs()`
  abbrev pub now_ms : Worker → ℕ × Worker
  now_ms w = let w' = call read_clock w in (ms_of (env.clock_ns w'.history), w')
