-- ===== src/Device.antt =====
-- What the service calls and does not implement: the LR2021 driver of vendor/lora_lib, the clock,
-- the GPIO and the host's stream. A run is recorded as the list of the calls that it made, newest
-- first, and an environment answers a call from that history, whatever way it likes.
use k230_lr2021_radio.Prelude.{ℕ, Bool, List, ◌∷◌, Option, ℤ, ◌%◌, ◌/◌, ◌*◌, ◌+◌, ◌≤◌, u32}

-- `radio::Terminal`
pub data Terminal : Type 0 where
  ok busy failed dropped : Terminal

-- The reasons that `transmitBurst` gives for a failure.
pub data TxError : Type 0 where
  bad_burst_size tx_timeout : TxError

-- The lines of the worker's log, less the temperatures that they print.
pub data Line : Type 0 where
  radio_init_failed : ℤ → Line
  scan_complete : ℕ → Line
  tx_failed : TxError → Line
  thermal_cutoff thermal_throttle thermal_recovery : Line

pub data Event : Type 0 where
  -- calls of the radio driver; a frequency is in Hz and a power in dBm
  begin_flrc : ℤ → Event
  apply_air_profile standby start_receive finish_transmit clear_rx_buffer : Event
  set_frequency : ℕ → Event
  set_output_power : ℤ → Event
  start_transmit : List ℕ → Event
  get_clear_irq_status get_rx_fifo_level get_packet_status : Event
  read_data : ℕ → Event
  -- calls of the operating system
  read_clock : Event
  sleep_us : ℕ → Event
  power_set : ℕ → Bool → Event
  read_guardian read_die : Event
  set_dvfs : ℕ → Event
  disable_coprocessors : Event
  -- callbacks of the worker
  on_rx_packet : List ℕ → ℤ → Event
  on_tx_terminal : Terminal → Event
  on_scan_result : ℕ → ℕ → ℕ → ℤ → Event
  on_log : Line → Event
  -- one `writeAll` of the serial server
  write_all : List ℕ → Event

abbrev pub History : Type 0
History = List Event

-- What `fscanf` finds in /tmp/os_thermal_state: how many of the fields it could read, and the fields,
-- the temperature in 10^-15 degrees.
pub record Guardian : Type 0 where
  pub fields : ℕ
  pub level : ℤ
  pub temp : ℤ
  pub written_sec : ℤ

pub record Env : Type 0 where
  -- nanoseconds of CLOCK_MONOTONIC
  pub clock_ns : History → ℕ
  -- the status of `beginFLRC`: zero is RADIOLIB_ERR_NONE
  pub begin_status : History → ℤ
  -- whether the call returned RADIOLIB_ERR_NONE
  pub set_frequency_ok : ℕ → History → Bool
  pub start_transmit_ok : List ℕ → History → Bool
  pub irq_status : History → ℕ
  pub rx_fifo_level : History → ℕ
  -- the average RSSI, cut to an int16_t
  pub rssi_avg : History → ℤ
  -- the bytes that `readData` stores, if it returns RADIOLIB_ERR_NONE
  pub received : ℕ → History → Option (List ℕ)
  -- the state file, if it is there, and the word read from the sensor of the die, if it is there
  pub guardian : History → Option Guardian
  pub die_code : History → Option ℕ

-- `tv_sec * 1000 + tv_nsec / 1000000`, as a uint32_t.
abbrev pub ms_of : ℕ → ℕ
ms_of ns = u32 (ns / 1000000000 * 1000 + ns % 1000000000 / 1000000)

-- What the service relies on of CLOCK_MONOTONIC and of its sleeps: the clock does not go back, a
-- sleep of at most a second takes at least its time, and no call takes longer than 10^14 ns.
pub record IsClock (env : Env) : Type 0 where
  pub grows : (e : Event) (h : History) → env.clock_ns h ≤ env.clock_ns (e ∷ h)
  pub sleeps :
      (us : ℕ) (h : History)
      → us ≤ 1000000
      → env.clock_ns h + us * 1000 ≤ env.clock_ns (sleep_us us ∷ h)
  pub prompt : (e : Event) (h : History) → env.clock_ns (e ∷ h) ≤ env.clock_ns h + 100000000000000
