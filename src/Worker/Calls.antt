-- ===== src/Worker/Calls.antt =====
-- What a history of calls tells, newest first: the packets that the radio took and sent, the
-- terminals reported, the powers and the frequency of the radio, the channels reported.
use k230_lr2021_radio.Prelude.{
  ℕ, List, [], ◌∷◌, ◌≡◌, refl, ℤ, if◌then◌else◌, ◌∙◌, Option, none, some,
}
use k230_lr2021_radio.Device.{
  History, Terminal, start_transmit, on_tx_terminal, set_frequency, set_output_power, begin_flrc,
  write_all, on_scan_result, Env, standby, finish_transmit, start_receive, get_clear_irq_status,
}
use k230_lr2021_radio.Worker.State.{Worker}
use k230_lr2021_radio.Worker.Transmit.{irq_tx_done}

-- The packets that `startTransmit` was given and the radio took.
abbrev pub on_air : Env → History → List (List ℕ)
on_air env [] = []
on_air env (start_transmit p ∷ h) =
    if env.start_transmit_ok p (start_transmit p ∷ h) then p ∷ on_air env h else on_air env h
on_air env (_ ∷ h) = on_air env h

-- The packet that the radio is sending: the one that it took last, until the radio says TX_DONE or
-- is told to do something else.
abbrev pub in_flight : Env → History → Option (List ℕ)
in_flight env [] = none
in_flight env (start_transmit p ∷ h) =
    if env.start_transmit_ok p (start_transmit p ∷ h) then some p else none
in_flight env (get_clear_irq_status ∷ h) =
    if irq_tx_done (env.irq_status (get_clear_irq_status ∷ h)) then none else in_flight env h
in_flight env (standby ∷ h) = none
in_flight env (finish_transmit ∷ h) = none
in_flight env (start_receive ∷ h) = none
in_flight env (begin_flrc p ∷ h) = none
in_flight env (_ ∷ h) = in_flight env h

abbrev pub with_landed : Option (List ℕ) → List (List ℕ) → List (List ℕ)
with_landed none ps = ps
with_landed (some p) ps = p ∷ ps

-- The packets for which the radio said TX_DONE while it was sending them.
abbrev pub completed : Env → History → List (List ℕ)
completed env [] = []
completed env (get_clear_irq_status ∷ h) =
    if irq_tx_done (env.irq_status (get_clear_irq_status ∷ h))
    then with_landed (in_flight env h) (completed env h)
    else completed env h
completed env (_ ∷ h) = completed env h

abbrev pub terminals : History → List Terminal
terminals [] = []
terminals (on_tx_terminal t ∷ h) = t ∷ terminals h
terminals (_ ∷ h) = terminals h

-- The channels reported to the host.
abbrev pub reports : History → List ℕ
reports [] = []
reports (on_scan_result hz frames consensus rssi ∷ h) = hz ∷ reports h
reports (_ ∷ h) = reports h

-- The powers that the radio was set to.
abbrev pub powers : History → List ℤ
powers [] = []
powers (set_output_power p ∷ h) = p ∷ powers h
powers (begin_flrc p ∷ h) = p ∷ powers h
powers (_ ∷ h) = powers h

-- The power that the radio is on: the last one that it was given.
abbrev pub output_power : History → Option ℤ
output_power [] = none
output_power (set_output_power p ∷ h) = some p
output_power (begin_flrc p ∷ h) = some p
output_power (_ ∷ h) = output_power h

-- The frequency that the radio is on: the last one that it took. `beginFLRC` starts it at 915 MHz.
abbrev pub tuned : Env → History → ℕ
tuned env [] = 0
tuned env (set_frequency hz ∷ h) =
    if env.set_frequency_ok hz (set_frequency hz ∷ h) then hz else tuned env h
tuned env (begin_flrc p ∷ h) = 915000000
tuned env (_ ∷ h) = tuned env h

-- What the serial server wrote itself.
abbrev pub sent : History → List (List ℕ)
sent [] = []
sent (write_all bytes ∷ h) = bytes ∷ sent h
sent (_ ∷ h) = sent h

-- The parts of the worker that a transmission leaves alone.
pub record Keeps (w w' : Worker) : Type 0 where
  pub radio_ok : w'.radio_ok ≡ w.radio_ok
  pub thermal_level : w'.thermal_level ≡ w.thermal_level
  pub cfg : w'.cfg ≡ w.cfg
  pub scan_active : w'.scan_active ≡ w.scan_active
  pub tx_q : w'.tx_q ≡ w.tx_q
  pub reported : terminals w'.history ≡ terminals w.history
  pub silent : sent w'.history ≡ sent w.history
  pub powers_kept : powers w'.history ≡ powers w.history

pub Keeps-refl : (w : Worker) → Keeps w w
Keeps-refl w = record {
  radio_ok = refl;
  thermal_level = refl;
  cfg = refl;
  scan_active = refl;
  tx_q = refl;
  reported = refl;
  silent = refl;
  powers_kept = refl;
}

pub Keeps-trans : (u v w : Worker) → Keeps u v → Keeps v w → Keeps u w
Keeps-trans u v w a b = record {
  radio_ok = b.radio_ok ∙ a.radio_ok;
  thermal_level = b.thermal_level ∙ a.thermal_level;
  cfg = b.cfg ∙ a.cfg;
  scan_active = b.scan_active ∙ a.scan_active;
  tx_q = b.tx_q ∙ a.tx_q;
  reported = b.reported ∙ a.reported;
  silent = b.silent ∙ a.silent;
  powers_kept = b.powers_kept ∙ a.powers_kept;
}

-- What the host was told of its frames, what it is still owed, and the power are left alone.
pub record Leaves (w w' : Worker) : Type 0 where
  pub tx_q : w'.tx_q ≡ w.tx_q
  pub reported : terminals w'.history ≡ terminals w.history
  pub silent : sent w'.history ≡ sent w.history
  pub power : w'.cfg.tx_power_dbm ≡ w.cfg.tx_power_dbm
  pub powers_kept : powers w'.history ≡ powers w.history

pub Leaves-refl : (w : Worker) → Leaves w w
Leaves-refl w = record {
  tx_q = refl;
  reported = refl;
  silent = refl;
  power = refl;
  powers_kept = refl;
}

pub Leaves-trans : (u v w : Worker) → Leaves u v → Leaves v w → Leaves u w
Leaves-trans u v w a b = record {
  tx_q = b.tx_q ∙ a.tx_q;
  reported = b.reported ∙ a.reported;
  silent = b.silent ∙ a.silent;
  power = b.power ∙ a.power;
  powers_kept = b.powers_kept ∙ a.powers_kept;
}
