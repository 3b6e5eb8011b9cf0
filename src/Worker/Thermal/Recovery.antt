-- ===== src/Worker/Thermal/Recovery.antt =====
-- The frequency behind a thermal recovery.
use k230_lr2021_radio.Prelude.{ℕ, ◌≡◌, ◌∙◌, ◌∷◌, refl, true, false, arith, pos, ◌≤ℤ◌}
use k230_lr2021_radio.Device.{Env, History, begin_flrc, sleep_us, power_set}
use k230_lr2021_radio.Worker.State.{Worker, Config}
use k230_lr2021_radio.Worker.Calls.{tuned}
use k230_lr2021_radio.Worker.Control.{apply_config, arm_receive}
use k230_lr2021_radio.Worker.Thermal.{init, power_up}

-- What a successful `init` leaves.
init-tunes :
    (env : Env) (gpio : ℕ) (w : Worker)
    → env.begin_status (
        begin_flrc (pos 10) ∷ sleep_us 50000 ∷ power_set 42 false ∷ power_set gpio true ∷ w.history)
      ≡ pos 0
    → let r = init env gpio w in
      (r.0 ≡ true)
      × (tuned env r.1.history ≡ 915000000)
      × (r.1.cfg ≡ w.cfg)
      × (r.1.scan_active ≡ w.scan_active)
      × (r.1.thermal_level ≡ w.thermal_level)
      × (r.1.radio_ok ≡ true)
unfolding init arm_receive
init-tunes env gpio w works = ground arith

-- Settings within the bench limit that are in force are accepted with no call.
apply_config_unchanged :
    (env : Env) (c : Config) (w : Worker)
    → w.radio_ok ≡ true
    → w.scan_active ≡ false
    → w.thermal_level ≡ pos 0
    → c.tx_power_dbm ≤ℤ pos 10
    → w.cfg ≡ c
    → (apply_config env c w).1 ≡ w
unfolding apply_config
apply_config_unchanged env c w up idle cool safe same = ground arith

-- A radio that is powered up again, with no scan running and settings within the bench limit, is
-- on 915 MHz, whatever frequency its settings have: the settings stay and count as in force.
pub power_up-tunes :
    (env : Env) (w : Worker)
    → ((h : History) → env.begin_status h ≡ pos 0)
    → w.scan_active ≡ false
    → w.thermal_level ≡ pos 0
    → w.cfg.tx_power_dbm ≤ℤ pos 10
    → (tuned env (power_up env w).history ≡ 915000000)
      × ((power_up env w).cfg ≡ w.cfg)
      × ((power_up env w).thermal_powered_down ≡ false)
unfolding power_up
power_up-tunes env w works idle cool safe =
    let r = init-tunes env w.power_gpio w (works _) in
    let w1 = record (init env w.power_gpio w).1 { thermal_powered_down = false } in
    let same = apply_config_unchanged env w.cfg w1 r.5 (r.3 ∙ idle) (r.4 ∙ cool) safe r.2 in
    rw (r.0, same) (r.1, r.2, refl)
