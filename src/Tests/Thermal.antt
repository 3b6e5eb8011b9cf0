-- ===== src/Tests/Thermal.antt =====
-- Thermal control and reception.
use k230_lr2021_radio.Prelude.{◌≡◌, refl, true, false, [], ◌∷◌, some, pos, arith}
use k230_lr2021_radio.Device.{Env}
use k230_lr2021_radio.Worker.State.{Worker}
use k230_lr2021_radio.Worker.Calls.{tuned}
use k230_lr2021_radio.Worker.Thermal.{power_up}
use k230_lr2021_radio.Worker.Thermal.Recovery.{power_up-tunes}
use k230_lr2021_radio.Burst.{header_bytes, burst_header}
use k230_lr2021_radio.Tests.Samples.{works, up}

abbrev queued : Worker
queued = record up { tx_q = (1 ∷ 2 ∷ []) ∷ (3 ∷ []) ∷ [] }

-- A radio on 868 MHz that was powered down.
abbrev down : Worker
down = record up {
  cfg = record { frequency_hz = 868000000; tx_power_dbm = pos 10; role = 0 };
  thermal_powered_down = true;
}

power_up-tunes_example :
    (tuned works (power_up works down).history ≡ 915000000)
    × ((power_up works down).cfg ≡ down.cfg)
    × ((power_up works down).thermal_powered_down ≡ false)
power_up-tunes_example = power_up-tunes works down (λ h. refl) refl refl (omega arith)

-- A whole packet is in the FIFO, the first of a burst of two.
abbrev receiving : Env
receiving = record works {
  irq_status = λ _. 262144;
  rx_fifo_level = λ _. 511;
  received = λ _ _. some (header_bytes (burst_header 7 0 2 600 0));
}
