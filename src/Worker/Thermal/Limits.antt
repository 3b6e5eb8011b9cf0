-- ===== src/Worker/Thermal/Limits.antt =====
-- The bench limit of the power, through `init` and `thermalTick`.
use k230_lr2021_radio.Prelude.{ℕ, false, arith, List, [], ◌∷◌, ℤ}
use k230_lr2021_radio.Device.{Env, read_die, on_tx_terminal, Terminal, standby, set_output_power}
use k230_lr2021_radio.Worker.State.{Worker, call}
use k230_lr2021_radio.Worker.Control.{arm_receive}
use k230_lr2021_radio.Worker.Control.Power.{IsBenchSafe, apply_config-IsBenchSafe}
use k230_lr2021_radio.Worker.Thermal.{
  report_dropped, power_down, prepare_pm, cut_off, throttle, init, thermal_tick, control_fan,
  control_dvfs,
}
use k230_lr2021_radio.Worker.Thermal.Parts.{IsKept, thermal_tick-kept}

report_dropped-IsBenchSafe :
    (q : List (List ℕ)) (w : Worker) → IsBenchSafe w → IsBenchSafe (report_dropped q w)
report_dropped-IsBenchSafe [] w s = s
report_dropped-IsBenchSafe (f ∷ q) w s =
    report_dropped-IsBenchSafe q (call (on_tx_terminal Terminal.dropped) w)
      (record { stored = s.stored; set = s.set })

power_down-IsBenchSafe : (w : Worker) → IsBenchSafe w → IsBenchSafe (power_down w)
power_down-IsBenchSafe w s = ground arith

cut_off-IsBenchSafe : (w : Worker) → IsBenchSafe w → IsBenchSafe (cut_off w)
unfolding cut_off
cut_off-IsBenchSafe w s =
    report_dropped-IsBenchSafe w.tx_q (power_down w) (power_down-IsBenchSafe w s)

throttle-IsBenchSafe : (w : Worker) → IsBenchSafe w → IsBenchSafe (throttle w)
unfolding throttle arm_receive
throttle-IsBenchSafe w s = ground arith

control_fan-IsBenchSafe : (temp : ℤ) (w : Worker) → IsBenchSafe w → IsBenchSafe (control_fan temp w)
unfolding control_fan
control_fan-IsBenchSafe temp w s = ground arith

control_dvfs-IsBenchSafe :
    (temp : ℤ) (w : Worker) → IsBenchSafe w → IsBenchSafe (control_dvfs temp w)
unfolding control_dvfs
control_dvfs-IsBenchSafe temp w s = ground arith

prepare_pm-IsBenchSafe : (w : Worker) → IsBenchSafe w → IsBenchSafe (call read_die (prepare_pm w))
prepare_pm-IsBenchSafe w s = ground arith

-- Even a start from scratch keeps the limit: `init` sets +10 dBm.
pub init-IsBenchSafe :
    (env : Env) (gpio : ℕ) (w : Worker) → IsBenchSafe w → IsBenchSafe (init env gpio w).1
unfolding init arm_receive
init-IsBenchSafe env gpio w s = ground arith

resume-IsBenchSafe :
    (w : Worker)
    → IsBenchSafe w
    → IsBenchSafe (arm_receive (call (set_output_power w.cfg.tx_power_dbm) (call standby w)))
unfolding arm_receive
resume-IsBenchSafe w s = ground arith

abbrev StaysSafe : Worker → Worker → Type 0
StaysSafe w w' = IsBenchSafe w → IsBenchSafe w'

StaysSafe-IsKept : (env : Env) → IsKept env StaysSafe
StaysSafe-IsKept env = record {
  same = λ w s. s;
  chain = λ u v w a b s. b (a s);
  cuts = cut_off-IsBenchSafe;
  throttles = throttle-IsBenchSafe;
  fans = control_fan-IsBenchSafe;
  clocks = control_dvfs-IsBenchSafe;
  reads = prepare_pm-IsBenchSafe;
  inits = init-IsBenchSafe env;
  applies = λ c w s.
      apply_config-IsBenchSafe env c (record w { thermal_powered_down = false })
        (record { stored = s.stored; set = s.set });
  recovers = λ w s. record { stored = s.stored; set = s.set };
  resumes = resume-IsBenchSafe;
  levels = λ level w s. record { stored = s.stored; set = s.set };
  begins = λ now w s. record { stored = s.stored; set = s.set };
}

-- Thermal control keeps the bench limit, whatever the sensors say: throttling, recovery and a start
-- after a cutoff never set more than +10 dBm.
pub thermal_tick-IsBenchSafe :
    (env : Env) (now : ℕ) (w : Worker) → IsBenchSafe w → IsBenchSafe (thermal_tick env now w)
thermal_tick-IsBenchSafe env = thermal_tick-kept env StaysSafe (StaysSafe-IsKept env)
