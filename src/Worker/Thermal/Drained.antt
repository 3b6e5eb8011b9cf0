-- ===== src/Worker/Thermal/Drained.antt =====
-- What `thermalTick` does to the queue and to the power.
use k230_lr2021_radio.Prelude.{
  ℕ, ◌+◌, ◌≡◌, ◌∙◌, refl, ap, false, arith, List, [], ◌∷◌, length, ℤ, pos, ◌==ℤ◌, ◌≢◌,
}
use k230_lr2021_radio.Device.{Env, standby, set_output_power, on_tx_terminal, Terminal}
use k230_lr2021_radio.Worker.State.{Worker, Config, call}
use k230_lr2021_radio.Worker.Calls.{terminals, sent}
use k230_lr2021_radio.Worker.Control.{apply_config, arm_receive}
use k230_lr2021_radio.Worker.Thermal.{
  report_dropped, power_down, cut_off, throttle, init, enter_level, thermal_tick, control_fan,
  control_dvfs,
}
use k230_lr2021_radio.Worker.Thermal.Parts.{IsKept, thermal_tick-kept}

-- The frames that the host still waits to hear of, with those it has heard of.
abbrev pub accepted : Worker → ℕ
accepted w = length (terminals w.history) + length w.tx_q

report_dropped-accepted :
    (q : List (List ℕ)) (w : Worker) → accepted (report_dropped q w) ≡ length q + accepted w
report_dropped-accepted [] w = omega arith
report_dropped-accepted (f ∷ q) w = omega (arith, report_dropped-accepted q _)

power_down-accepted : (w : Worker) → accepted (power_down w) ≡ length (terminals w.history)
power_down-accepted w = ground arith

cut_off-accepted : (w : Worker) → accepted (cut_off w) ≡ accepted w
unfolding cut_off
cut_off-accepted w =
    omega (arith, report_dropped-accepted w.tx_q (power_down w), power_down-accepted w)

-- The account of the accepted frames is as it was, and the server wrote nothing.
pub record Accounts (w w' : Worker) : Type 0 where
  pub accounts : accepted w' ≡ accepted w
  pub silent : sent w'.history ≡ sent w.history

report_dropped-sent :
    (q : List (List ℕ)) (w : Worker) → sent (report_dropped q w).history ≡ sent w.history
report_dropped-sent [] w = refl
report_dropped-sent (f ∷ q) w = report_dropped-sent q (call (on_tx_terminal Terminal.dropped) w)

power_down-sent : (w : Worker) → sent (power_down w).history ≡ sent w.history
power_down-sent w = ground arith

cut_off-sent : (w : Worker) → sent (cut_off w).history ≡ sent w.history
unfolding cut_off
cut_off-sent w = report_dropped-sent w.tx_q (power_down w) ∙ power_down-sent w

pub apply_config-Accounts :
    (env : Env) (c : Config) (w : Worker) → Accounts w (apply_config env c w).1
unfolding apply_config arm_receive
apply_config-Accounts env c w = ground arith

pub init-Accounts : (env : Env) (gpio : ℕ) (w : Worker) → Accounts w (init env gpio w).1
unfolding init arm_receive
init-Accounts env gpio w = ground arith

Accounts-throttle : (w : Worker) → Accounts w (throttle w)
unfolding throttle arm_receive
Accounts-throttle w = ground arith

Accounts-control_fan : (temp : ℤ) (w : Worker) → Accounts w (control_fan temp w)
unfolding control_fan
Accounts-control_fan temp w = ground arith

Accounts-control_dvfs : (temp : ℤ) (w : Worker) → Accounts w (control_dvfs temp w)
unfolding control_dvfs
Accounts-control_dvfs temp w = ground arith

Accounts-arm_receive : (w : Worker) → Accounts w (arm_receive w)
unfolding arm_receive
Accounts-arm_receive w = ground arith

Accounts-chain : (u v w : Worker) → Accounts u v → Accounts v w → Accounts u w
Accounts-chain u v w a b = record {
  accounts = b.accounts ∙ a.accounts;
  silent = b.silent ∙ a.silent;
}

Accounts-IsKept : (env : Env) → IsKept env Accounts
Accounts-IsKept env = record {
  same = λ w. record { accounts = refl; silent = refl };
  chain = Accounts-chain;
  cuts = λ w. record { accounts = cut_off-accepted w; silent = cut_off-sent w };
  throttles = Accounts-throttle;
  fans = Accounts-control_fan;
  clocks = Accounts-control_dvfs;
  reads = λ w. ground arith;
  inits = init-Accounts env;
  applies = λ c w.
      let w' = record w { thermal_powered_down = false } in
      let a = apply_config-Accounts env c w' in record { accounts = a.accounts; silent = a.silent };
  recovers = λ w. record { accounts = refl; silent = refl };
  resumes = λ w.
      let a = Accounts-arm_receive (call (set_output_power w.cfg.tx_power_dbm) (call standby w)) in
      record { accounts = a.accounts; silent = a.silent };
  levels = λ level w. record { accounts = refl; silent = refl };
  begins = λ now w. record { accounts = refl; silent = refl };
}

pub thermal_tick-Accounts : (env : Env) (now : ℕ) (w : Worker) → Accounts w (thermal_tick env now w)
thermal_tick-Accounts env = thermal_tick-kept env Accounts (Accounts-IsKept env)

-- Thermal control answers for what it drops: whatever the sensors say, the frames queued and the
-- terminals reported are together as many as before.
pub thermal_tick-accounts :
    (env : Env) (now : ℕ) (w : Worker) → accepted (thermal_tick env now w) ≡ accepted w
thermal_tick-accounts env now w = (thermal_tick-Accounts env now w).accounts

pub report_dropped-tx_q : (q : List (List ℕ)) (w : Worker) → (report_dropped q w).tx_q ≡ w.tx_q
report_dropped-tx_q [] w = refl
report_dropped-tx_q (f ∷ q) w = report_dropped-tx_q q _

-- Level 2, entered from another level, empties the queue, and every frame that waited gets one
-- more terminal.
pub enter_level_cutoff :
    (env : Env) (w : Worker)
    → w.thermal_level ≢ pos 2
    → ((enter_level env (pos 2) w).tx_q ≡ [])
      × (length (terminals (enter_level env (pos 2) w).history)
          ≡ length (terminals w.history) + length w.tx_q)
unfolding enter_level cut_off
enter_level_cutoff env w below =
    let w' = record w { thermal_level = pos 2 } in
    let other : (pos 2 ==ℤ w.thermal_level) ≡ false = ground (arith, below) in
    let q = report_dropped-tx_q w.tx_q (power_down w') in
    rw other (
      q ∙ refl,
      omega (
        arith,
        ap length q,
        report_dropped-accepted w.tx_q (power_down w'),
        power_down-accepted w',
      ),
    )
