-- ===== src/Worker/Thermal.antt =====
-- `init` and `thermalTick` of service/src/radio_worker.cpp. A temperature is an integer number of
-- 10^-15 degrees; the polynomial of the sensor is computed exactly, where the source rounds doubles.
pub mod Levels
pub mod Parts
pub mod Drained
pub mod Recovery
pub mod Limits
use k230_lr2021_radio.Prelude.{
  ℕ, zero, suc, ◌+◌, ◌-◌, ◌*◌, ◌/◌, ◌%◌, ◌≡◌, Bool, true, false, not, ◌&&◌, ◌||◌, Option, none,
  some, List, [], ◌∷◌, ltb, leb, ◌==◌, if◌then◌else◌, sub32, ℤ, pos, negsuc, ltb_ℤ, ◌==ℤ◌, at_least,
}
use k230_lr2021_radio.Device.{
  Env, Guardian, Terminal, Line, begin_flrc, apply_air_profile, standby, set_output_power,
  read_clock, read_guardian, read_die, power_set, set_dvfs, disable_coprocessors, sleep_us,
  on_tx_terminal, on_log,
}
use k230_lr2021_radio.Worker.State.{Config, Counters, Worker, call}
use k230_lr2021_radio.Worker.Control.{
  arm_receive, apply_config, max_safe_bench_tx_power_dbm, throttled_tx_power_dbm,
}

abbrev pub degree : ℕ
degree = 1000000000000000

-- `temp >= k`, and `temp > -20.0 && temp < 150.0`.
abbrev pub warm : ℕ → ℤ → Bool
warm k temp = at_least (k * degree) temp

abbrev pub plausible : ℤ → Bool
plausible temp = ltb_ℤ (negsuc (20 * degree - 1)) temp && not (warm 150 temp)

-- `now_sec - written_sec <= 10`
abbrev pub is_recent : ℕ → ℤ → Bool
is_recent now_sec (pos s) = leb now_sec (s + 10)
is_recent now_sec (negsuc s) = leb (now_sec + s + 1) 10

-- The temperature of a sensor code.
unfoldable pub temp_of_code : ℕ → ℤ
temp_of_code c =
    let up = 101472 * (c * c * (c * c)) + 4361500000000 * (c * c) + 3565870000000000000 in
    let down = 1100630000 * (c * c * c) + 7101280000000000 * c in
    if leb down up then pos (up - down) else negsuc (down - up - 1)

-- The stage of the CPU's clock, from the temperature and the stage so far.
unfoldable pub dvfs_stage : ℤ → ℤ → ℕ
dvfs_stage temp stage =
    if warm 74 temp || ((stage ==ℤ pos 5) && warm 71 temp)
    then 5
    else if warm 68 temp || (at_least 4 stage && warm 65 temp)
    then 4
    else if warm 62 temp || (at_least 3 stage && warm 59 temp)
    then 3
    else if warm 56 temp || (at_least 2 stage && warm 53 temp)
    then 2
    else if warm 50 temp || (at_least 1 stage && warm 47 temp)
    then 1
    else 0

-- The thermal level, from the temperature and the level so far.
unfoldable pub level_of : ℤ → ℤ → ℤ
level_of temp level =
    if warm 82 temp
    then pos 2
    else if level ==ℤ pos 2
    then (if not (warm 55 temp) then pos 0 else level)
    else if warm 68 temp
    then pos 1
    else if (level ==ℤ pos 1) && not (warm 60 temp)
    then pos 0
    else level

unfoldable pub control_fan : ℤ → Worker → Worker
control_fan temp w =
    if warm 45 temp && not w.fan_on
    then record (call (power_set 42 true) w) { fan_on = true }
    else if not (warm 38 temp) && w.fan_on
    then record (call (power_set 42 false) w) { fan_on = false }
    else w

unfoldable pub control_dvfs : ℤ → Worker → Worker
control_dvfs temp w =
    let next = dvfs_stage temp w.cpu_dvfs_stage in
    if pos next ==ℤ w.cpu_dvfs_stage
    then w
    else record (call (set_dvfs next) w) { cpu_dvfs_stage = pos next }

-- One terminal for each frame that was drained.
abbrev pub report_dropped : List (List ℕ) → Worker → Worker
report_dropped [] w = w
report_dropped (frame ∷ rest) w = report_dropped rest (call (on_tx_terminal Terminal.dropped) w)

-- The radio's power goes off and the queue is emptied.
abbrev pub power_down : Worker → Worker
power_down w =
    let w1 = call (on_log Line.thermal_cutoff) w in
    let w2 = if w1.radio_ok then call standby w1 else w1 in
    let w3 = call (power_set w2.power_gpio false) (call (power_set 42 true) w2) in
    record w3 { thermal_powered_down = true; tx_q = []; st = record w3.st { pending_tx_valid = 0 } }

-- The entry to level 2.
unfoldable pub cut_off : Worker → Worker
cut_off w = report_dropped w.tx_q (power_down w)

-- The entry to level 1.
unfoldable pub throttle : Worker → Worker
throttle w =
    let w1 = call (on_log Line.thermal_throttle) w in
    if w1.radio_ok && not w1.thermal_powered_down
    then arm_receive (call (set_output_power throttled_tx_power_dbm) (call standby w1))
    else w1

-- The coprocessors go off and the CPU's clock is governed, once.
abbrev pub prepare_pm : Worker → Worker
prepare_pm w =
    if w.pm_initialized
    then w
    else record (call disable_coprocessors w) { cpu_dvfs_stage = pos 0; pm_initialized = true }

module _ (env : Env) where
  -- The status 0 is RADIOLIB_ERR_NONE. The driver object is made once and the callbacks stay.
  unfoldable pub init : ℕ → Worker → Bool × Worker
  init gpio w =
      let w1 = call (begin_flrc max_safe_bench_tx_power_dbm) (
        call (sleep_us 50000) (
          call (power_set 42 false)
            (call (power_set gpio true) (record w { power_gpio = gpio })))) in
      let status = env.begin_status w1.history in
      if not (status ==ℤ pos 0)
      then (false, call (on_log (Line.radio_init_failed status)) w1)
      else (let w2 = call apply_air_profile w1 in
          (true, arm_receive (record w2 { radio_ok = true; st = record w2.st { burst_mode = 0 } })))

  -- Power comes back, and the settings are applied again if `init` succeeds.
  unfoldable pub power_up : Worker → Worker
  power_up w =
      let (up, w1) = init w.power_gpio w in
      if up then (apply_config env w.cfg (record w1 { thermal_powered_down = false })).1 else w1

  -- The entry to level 0 from level `prev`.
  unfoldable pub recover : ℤ → Worker → Worker
  recover prev w =
      let w1 = call (on_log Line.thermal_recovery) w in
      if w1.thermal_powered_down
      then power_up w1
      else if (prev ==ℤ pos 1) && w1.radio_ok
      then arm_receive (call (set_output_power w1.cfg.tx_power_dbm) (call standby w1))
      else w1

  -- A level is entered when it changes.
  unfoldable pub enter_level : ℤ → Worker → Worker
  enter_level next w =
      let w' = record w { thermal_level = next } in
      if next ==ℤ w.thermal_level
      then w
      else if next ==ℤ pos 2
      then cut_off w'
      else if next ==ℤ pos 1
      then throttle w'
      else if next ==ℤ pos 0
      then recover w.thermal_level w'
      else w'

  -- A plausible temperature of the die: fan, clock and level.
  abbrev pub heed : ℤ → Worker → Worker
  heed temp w =
      if plausible temp
      then (let w' = control_dvfs temp (control_fan temp w) in
          enter_level (level_of temp w'.thermal_level) w')
      else w

  abbrev pub sense : Option ℕ → Worker → Worker
  sense none w = w
  sense (some word) w =
      let code = word % 4096 in
      if ltb 0 code && ltb code 4095 then heed (temp_of_code code) w else w

  -- The sensor of the die, when the state file is of no use.
  unfoldable pub use_sensor : Worker → Worker
  use_sensor w = let w2 = call read_die (prepare_pm w) in sense (env.die_code w2.history) w2

  abbrev pub use_guardian : ℕ → Option Guardian → Worker → Worker
  use_guardian now_sec none w = use_sensor w
  use_guardian now_sec (some g) w =
      if leb 2 g.fields && (plausible g.temp && (ltb g.fields 3 || is_recent now_sec g.written_sec))
      then enter_level g.level w
      else use_sensor w

  unfoldable pub thermal_tick : ℕ → Worker → Worker
  thermal_tick now_ms w =
      if not (w.last_thermal_check_ms == 0) && ltb (sub32 now_ms w.last_thermal_check_ms) 4000
      then w
      else let w1 = call read_clock (record w { last_thermal_check_ms = now_ms }) in
        let now_sec = env.clock_ns w1.history / 1000000000 in
        let w2 = call read_guardian w1 in use_guardian now_sec (env.guardian w2.history) w2
