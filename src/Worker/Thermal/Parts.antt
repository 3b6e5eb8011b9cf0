-- ===== src/Worker/Thermal/Parts.antt =====
-- The steps that `thermalTick` is made of: what each of them keeps, the whole tick keeps.
use k230_lr2021_radio.Prelude.{
  ℕ, Bool, true, false, ℤ, pos, Option, none, some, not, ◌&&◌, ◌||◌, ltb, leb, ◌==◌, ◌==ℤ◌, sub32,
  ◌%◌, ◌/◌, ◌∷◌, if◌then◌else◌,
}
use k230_lr2021_radio.Device.{
  Env, Guardian, read_guardian, read_clock, read_die, on_log, Line, standby, set_output_power,
}
use k230_lr2021_radio.Worker.State.{Worker, Config, call}
use k230_lr2021_radio.Worker.Control.{apply_config, arm_receive}
use k230_lr2021_radio.Worker.Thermal.{
  prepare_pm, cut_off, throttle, init, power_up, recover, enter_level, heed, sense, use_sensor,
  use_guardian, thermal_tick, control_fan, control_dvfs, level_of, plausible, temp_of_code,
  is_recent,
}

-- A relation between the states before and after that each step keeps, and that chains.
pub record IsKept (env : Env) (R : Worker → Worker → Type 0) : Type 0 where
  pub same : (w : Worker) → R w w
  pub chain : (u v w : Worker) → R u v → R v w → R u w
  pub cuts : (w : Worker) → R w (cut_off w)
  pub throttles : (w : Worker) → R w (throttle w)
  pub fans : (temp : ℤ) (w : Worker) → R w (control_fan temp w)
  pub clocks : (temp : ℤ) (w : Worker) → R w (control_dvfs temp w)
  pub reads : (w : Worker) → R w (call read_die (prepare_pm w))
  pub inits : (gpio : ℕ) (w : Worker) → R w (init env gpio w).1
  pub applies :
      (c : Config) (w : Worker)
      → R w (apply_config env c (record w { thermal_powered_down = false })).1
  pub recovers : (w : Worker) → R w (call (on_log Line.thermal_recovery) w)
  pub resumes :
      (w : Worker) → R w (arm_receive (call (set_output_power w.cfg.tx_power_dbm) (call standby w)))
  pub levels : (level : ℤ) (w : Worker) → R w (record w { thermal_level = level })
  pub begins :
      (now : ℕ) (w : Worker)
      → R w (call read_guardian (call read_clock (record w { last_thermal_check_ms = now })))

module _ (env : Env) (R : Worker → Worker → Type 0) (k : IsKept env R) where
  if-kept : (w : Worker) (b : Bool) (x y : Worker) → R w x → R w y → R w (if b then x else y)
  if-kept w true x y rx ry = rx
  if-kept w false x y rx ry = ry

  power_up-kept : (w : Worker) → R w (power_up env w)
  unfolding power_up
  power_up-kept w =
      let r = init env w.power_gpio w in
      let i = k.inits w.power_gpio w in
      if-kept w r.0 _ _ (k.chain w r.1 _ i (k.applies w.cfg r.1)) i

  recover-kept : (prev : ℤ) (w : Worker) → R w (recover env prev w)
  unfolding recover
  recover-kept prev w =
      let w1 = call (on_log Line.thermal_recovery) w in
      let i = k.recovers w in
      if-kept w w.thermal_powered_down _ _ (k.chain w w1 (power_up env w1) i (power_up-kept w1))
        (if-kept w ((prev ==ℤ pos 1) && w.radio_ok) _ _ (k.chain w w1 _ i (k.resumes w1)) i)

  enter_level-kept : (next : ℤ) (w : Worker) → R w (enter_level env next w)
  unfolding enter_level
  enter_level-kept next w =
      let w' = record w { thermal_level = next } in
      let i = k.levels next w in
      if-kept w (next ==ℤ w.thermal_level) _ _ (k.same w) (
        if-kept w (next ==ℤ pos 2) _ _ (k.chain w w' _ i (k.cuts w')) (
          if-kept w (next ==ℤ pos 1) _ _ (k.chain w w' _ i (k.throttles w')) (
            if-kept w (next ==ℤ pos 0) _ _ (k.chain w w' _ i (recover-kept w.thermal_level w')) i)))

  heed-kept : (temp : ℤ) (w : Worker) → R w (heed env temp w)
  heed-kept temp w =
      let w1 = control_fan temp w in
      let w2 = control_dvfs temp w1 in
      if-kept w (plausible temp) _ _
        (k.chain w w1 _ (k.fans temp w) (
          k.chain w1 w2 _ (k.clocks temp w1)
            (enter_level-kept (level_of temp w2.thermal_level) w2)))
        (k.same w)

  sense-kept : (code : Option ℕ) (w : Worker) → R w (sense env code w)
  sense-kept none w = k.same w
  sense-kept (some word) w =
      if-kept w (ltb 0 (word % 4096) && ltb (word % 4096) 4095) _ _
        (heed-kept (temp_of_code (word % 4096)) w) (k.same w)

  use_sensor-kept : (w : Worker) → R w (use_sensor env w)
  unfolding use_sensor
  use_sensor-kept w =
      let w1 = call read_die (prepare_pm w) in
      k.chain w w1 _ (k.reads w) (sense-kept (env.die_code w1.history) w1)

  use_guardian-kept :
      (now_sec : ℕ) (g : Option Guardian) (w : Worker) → R w (use_guardian env now_sec g w)
  use_guardian-kept now_sec none w = use_sensor-kept w
  use_guardian-kept now_sec (some g) w =
      if-kept w
        (leb 2 g.fields
          && (plausible g.temp && (ltb g.fields 3 || is_recent now_sec g.written_sec)))
        _ _ (enter_level-kept g.level w) (use_sensor-kept w)

  -- What every step keeps, `thermalTick` keeps.
  pub thermal_tick-kept : (now : ℕ) (w : Worker) → R w (thermal_tick env now w)
  unfolding thermal_tick
  thermal_tick-kept now w =
      let w1 = call read_guardian (call read_clock (record w { last_thermal_check_ms = now })) in
      if-kept w (not (w.last_thermal_check_ms == 0) && ltb (sub32 now w.last_thermal_check_ms) 4000)
        _ _ (k.same w)
        (k.chain w w1 _ (k.begins now w) (
          use_guardian-kept (env.clock_ns (read_clock ∷ w.history) / 1000000000)
            (env.guardian w1.history) w1))
