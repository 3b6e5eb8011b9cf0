-- ===== src/Worker/Control/Power.antt =====
-- The power that the radio is set to, and the bench limit of +10 dBm.
use k230_lr2021_radio.Prelude.{ℕ, arith, List, [], ◌∷◌, ℤ, pos, ◌≤ℤ◌}
use k230_lr2021_radio.Device.{Env}
use k230_lr2021_radio.Worker.State.{Worker, Config, ScanParams}
use k230_lr2021_radio.Worker.Calls.{powers}
use k230_lr2021_radio.Worker.Control.{apply_config, start_scan, scan_tick, arm_receive}

abbrev pub AllAtMost : ℤ → List ℤ → Type 0
AllAtMost limit [] = Unit {0}
AllAtMost limit (p ∷ ps) = (p ≤ℤ limit) × AllAtMost limit ps

-- No power above +10 dBm is stored, and none was ever set.
pub record IsBenchSafe (w : Worker) : Type 0 where
  pub stored : w.cfg.tx_power_dbm ≤ℤ pos 10
  pub set : AllAtMost (pos 10) (powers w.history)

module _ (env : Env) where
  -- Whatever power a CONFIG asks for, at any thermal level, the bench limit holds afterwards if it
  -- held before.
  pub apply_config-IsBenchSafe :
      (c : Config) (w : Worker) → IsBenchSafe w → IsBenchSafe (apply_config env c w).1
  unfolding apply_config arm_receive
  apply_config-IsBenchSafe c w safe = ground arith

  pub start_scan-IsBenchSafe :
      (p : ScanParams) (w : Worker) → IsBenchSafe w → IsBenchSafe (start_scan env p w)
  unfolding start_scan arm_receive
  start_scan-IsBenchSafe p w safe = ground arith

pub scan_tick-IsBenchSafe : (now : ℕ) (w : Worker) → IsBenchSafe w → IsBenchSafe (scan_tick now w)
unfolding scan_tick arm_receive
scan_tick-IsBenchSafe now w safe = ground arith
