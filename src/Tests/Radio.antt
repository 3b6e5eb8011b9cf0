-- ===== src/Tests/Radio.antt =====
-- The radio's side: settings, scans and bursts.
use k230_lr2021_radio.Prelude.{
  ℕ, ◌+◌, ◌*◌, ◌≡◌, ◌≢◌, ◌<◌, ◌⊎◌, refl, true, false, List, [], ◌∷◌, none, some, pos, arith,
}
use k230_lr2021_radio.Device.{begin_flrc}
use k230_lr2021_radio.Worker.State.{Worker, Config, ScanParams}
use k230_lr2021_radio.Worker.Calls.{on_air, completed, terminals, tuned}
use k230_lr2021_radio.Worker.Control.{apply_config, arm_receive, scan_tick, start_scan, ConfigError}
use k230_lr2021_radio.Worker.Control.Tuning.{apply_config-tunes, apply_config_again}
use k230_lr2021_radio.Worker.Control.Sweep.{
  IsSweeping, IsSwept, start_scan-IsSweeping, scan_tick-IsSweeping,
}
use k230_lr2021_radio.Worker.Transmit.{
  transmit_burst, send_packets, attempts, poll_tx_done, out_of_fuel, await_tx_done,
  service_tx_queue, send_frame,
}
use k230_lr2021_radio.Worker.Transmit.Polling.{await-ne-out_of_fuel}
use k230_lr2021_radio.Worker.Transmit.Bursts.{Airs, newest_first}
use k230_lr2021_radio.Worker.Transmit.Terminals.{
  transmit_burst-Airs, service_tx_queue-reports, dequeued, verdict,
}
use k230_lr2021_radio.Burst.{total_packets, crc32}
use k230_lr2021_radio.Burst.Reassembly.{packets_from, assemble}
use k230_lr2021_radio.Worker.Sleep.{
  Sleep, spun, sleep_for, spin, IsCounter, word64, Lasts, sleep_for-Lasts,
}
use k230_lr2021_radio.Tests.Samples.{works, refuses, works-IsClock, up}

abbrev payload : List ℕ
payload = 1 ∷ 2 ∷ 3 ∷ []

sent_burst : (transmit_burst works payload up).0 ≡ none
unfolding transmit_burst send_packets attempts poll_tx_done total_packets
sent_burst = refl

transmit_burst-Airs_example :
    (id : ℕ) × (0 < id)
    × (id < 65536)
    × (let ps = packets_from id (total_packets 3) payload (crc32 payload) (total_packets 3) 0 in
        Airs ps [] (on_air works (transmit_burst works payload up).1.history)
        × (completed works (transmit_burst works payload up).1.history ≡ newest_first ps [])
        × (assemble 3 ps ≡ payload))
transmit_burst-Airs_example =
    transmit_burst-Airs works payload up (omega arith) (omega arith) sent_burst

abbrev queued : Worker
queued = record up { tx_q = payload ∷ (4 ∷ []) ∷ [] }

service_tx_queue-reports_example :
    ((service_tx_queue works queued).tx_q ≡ (4 ∷ []) ∷ [])
    × (terminals (service_tx_queue works queued).history
        ≡ verdict (send_frame works payload (dequeued ((4 ∷ []) ∷ []) queued)).0 ∷ [])
service_tx_queue-reports_example =
    service_tx_queue-reports works payload ((4 ∷ []) ∷ []) queued refl (omega arith) refl refl

await-ne-out_of_fuel_example : (await_tx_done works up).0 ≢ out_of_fuel
await-ne-out_of_fuel_example = await-ne-out_of_fuel works works-IsClock up

abbrev config : Config
config = record { frequency_hz = 868000000; tx_power_dbm = pos 22; role = 0 }

accepted : (apply_config works config up).0 ≡ none
unfolding apply_config arm_receive
accepted = refl

apply_config-tunes_example :
    let w' = (apply_config works config up).1 in
    (tuned works w'.history ≡ 868000000)
    × (w'.cfg.frequency_hz ≡ 868000000)
    × (w'.cfg.role ≡ 0)
    × (w'.cfg.tx_power_dbm ≡ pos 10)
    × (w'.scan_active ≡ false)
apply_config-tunes_example = apply_config-tunes works config up refl accepted

refused : (apply_config refuses config up).0 ≡ some ConfigError.set_frequency_failed
unfolding apply_config arm_receive
refused = refl

apply_config_again_example :
    apply_config refuses config (apply_config refuses config up).1
    ≡ (none, (apply_config refuses config up).1)
apply_config_again_example = apply_config_again refuses config up refused

-- A worker on +10 dBm, at the throttle level.
abbrev warm_worker : Worker
warm_worker = record up {
  cfg = record { frequency_hz = 915000000; tx_power_dbm = pos 10; role = 0 };
  thermal_level = pos 1;
  history = begin_flrc (pos 10) ∷ [];
}

abbrev grid : ScanParams
grid = record { start_hz = 902000000; step_hz = 1000000; count = 2; dwell_ms = 300 }

scan_tick-IsSweeping_example :
    IsSweeping grid [] (scan_tick 6000 (start_scan works grid up))
    ⊎ IsSwept grid [] (scan_tick 6000 (start_scan works grid up))
scan_tick-IsSweeping_example =
    scan_tick-IsSweeping grid [] 6000 (start_scan works grid up) (omega arith)
      (start_scan-IsSweeping works grid up (omega arith))

-- The last channel of a scan, whose time is up.
abbrev last_channel : Worker
last_channel = record up { scan = grid; scan_active = true; scan_idx = 1; scan_dwell_until = 5000 }

-- A counter that wraps behind a few readings.
abbrev counter : ℕ → ℕ
counter i = i * 5 + 18446744073709551600

counter-IsCounter : IsCounter 1 counter
counter-IsCounter = record {
  grows = λ i. omega arith;
  moves = λ i. omega arith;
  bounded = λ i. omega arith;
}

sleep_for-Lasts_example :
    (s : Sleep) × (sleep_for true (word64 counter) 82 3 ≡ some s) × Lasts counter 3 s
sleep_for-Lasts_example = sleep_for-Lasts true 1 counter 82 3 counter-IsCounter (omega arith)

-- 81 ticks are over at the 17th reading.
slept : sleep_for true (word64 counter) 82 3 ≡ some (spun 17)
unfolding sleep_for spin
slept = refl
