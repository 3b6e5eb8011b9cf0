-- ===== src/Worker/Control/Tuning.antt =====
-- The frequency: what a CONFIG leaves the radio on, and what it answers.
use k230_lr2021_radio.Prelude.{
  ◌≡◌, sym, ap, ◌∙◌, ◌==◌, if◌then◌else◌, Bool-cases, inl, inr, true, false, arith, Option, none,
  some,
}
use k230_lr2021_radio.Device.{Env}
use k230_lr2021_radio.Worker.State.{Worker, Config}
use k230_lr2021_radio.Worker.Calls.{tuned}
use k230_lr2021_radio.Worker.Control.{
  ConfigError, radio_not_ready, set_frequency_failed, clamp_power, apply_config, apply_clamped,
  arm_receive,
}

module _ (env : Env) where
  -- A CONFIG that is answered with success leaves the radio on the frequency that it asks for, or
  -- where it was if it asks for frequency 0, if the radio was on the worker's own frequency before;
  -- the scan is over and the settings are those asked for, a frequency of 0 included, the power cut
  -- to the limit.
  pub apply_config-tunes :
      (c : Config) (w : Worker)
      → tuned env w.history ≡ w.cfg.frequency_hz
      → (apply_config env c w).0 ≡ none
      → let w' = (apply_config env c w).1 in
        (tuned env w'.history
          ≡ (if c.frequency_hz == 0 then tuned env w.history else c.frequency_hz))
        × (w'.cfg.frequency_hz ≡ c.frequency_hz)
        × (w'.cfg.role ≡ c.role)
        × (w'.cfg.tx_power_dbm ≡ (clamp_power w.thermal_level c).tx_power_dbm)
        × (w'.scan_active ≡ false)
  unfolding apply_config arm_receive
  apply_config-tunes c w on_it success = ground arith

  -- What a refused frequency leaves behind.
  refused-stores :
      (c : Config) (w : Worker)
      → (apply_clamped env c w).0 ≡ some set_frequency_failed
      → let w' = (apply_clamped env c w).1 in
        (w'.cfg ≡ c)
        × (w'.scan_active ≡ false)
        × (w'.radio_ok ≡ w.radio_ok)
        × (w'.thermal_level ≡ w.thermal_level)
  unfolding arm_receive
  refused-stores c w failed = ground arith

  -- Settings that are in force already are accepted with no call.
  unchanged :
      (c : Config) (w : Worker)
      → w.cfg ≡ c
      → w.scan_active ≡ false
      → apply_clamped env c w ≡ (none, w)
  unchanged c w same idle = ground arith

  ready-apply_config :
      (c : Config) (w : Worker)
      → w.radio_ok ≡ true
      → apply_config env c w ≡ apply_clamped env (clamp_power w.thermal_level c) w
  unfolding apply_config
  ready-apply_config c w ready = rw (ready, apply_config)

  down-apply_config :
      (c : Config) (w : Worker)
      → w.radio_ok ≡ false
      → apply_config env c w ≡ (some radio_not_ready, w)
  unfolding apply_config
  down-apply_config c w down = rw (down, apply_config)

  again-clamped :
      (c : Config) (w : Worker)
      → w.radio_ok ≡ true
      → (apply_clamped env (clamp_power w.thermal_level c) w).0 ≡ some set_frequency_failed
      → apply_config env c (apply_clamped env (clamp_power w.thermal_level c) w).1
        ≡ (none, (apply_clamped env (clamp_power w.thermal_level c) w).1)
  again-clamped c w ready failed =
      let d = clamp_power w.thermal_level c in
      let w' = (apply_clamped env d w).1 in
      let left = refused-stores d w failed in
      ready-apply_config c w' (left.2 ∙ ready)
      ∙ ap (λ l. apply_clamped env (clamp_power l c) w') left.3
      ∙ unchanged d w' left.0 left.1

  -- A CONFIG whose frequency the radio refuses is remembered as if it were in force: the same CONFIG
  -- sent again is answered with success, and changes nothing and makes no call.
  pub apply_config_again :
      (c : Config) (w : Worker)
      → (apply_config env c w).0 ≡ some set_frequency_failed
      → apply_config env c (apply_config env c w).1 ≡ (none, (apply_config env c w).1)
  apply_config_again c w failed = elim (Bool-cases w.radio_ok) [
    | inl ready ↦
        rw (ready-apply_config c w ready)
          (again-clamped c w ready (ap (λ r. r.0) (sym (ready-apply_config c w ready)) ∙ failed))
    | inr down ↦ absurd (wrong_error (ap (λ r. r.0) (sym (down-apply_config c w down)) ∙ failed))
  ]
    where
      wrong_error :
          ◌≡◌ {A = Option ConfigError} (some radio_not_ready) (some set_frequency_failed) → ⊥
      wrong_error e = cc
