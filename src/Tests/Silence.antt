-- ===== src/Tests/Silence.antt =====
-- A frame that waits while the host is silent.
use k230_lr2021_radio.Prelude.{◌+◌, ◌≡◌, refl, false, [], ◌∷◌, length, some, none, arith}
use k230_lr2021_radio.Burst.{total_packets}
use k230_lr2021_radio.Worker.Calls.{terminals}
use k230_lr2021_radio.Worker.Control.{arm_receive}
use k230_lr2021_radio.Worker.Thermal.{thermal_tick, use_sensor}
use k230_lr2021_radio.Worker.Transmit.{
  service_tx_queue, send_frame, transmit_burst, send_packets, attempts, poll_tx_done,
}
use k230_lr2021_radio.Worker.Receive
use k230_lr2021_radio.Worker.Receive.{
  rx_loop, rx_round, read_irq, has_packet, look_at_fifo, no_receive, finish_round,
}
use k230_lr2021_radio.Worker.Receive.Progress.{stuck}
use k230_lr2021_radio.Server.Handlers
use k230_lr2021_radio.Server.Handlers.{Node, maybe_emit_stats}
use k230_lr2021_radio.System.{superloop_round}
use k230_lr2021_radio.System.Drains.{silent, ends, waits, Waits-drains}
use k230_lr2021_radio.Tests.Samples.{works, node, up}

abbrev loaded : Node
loaded = record node { worker = record up { tx_q = (4 ∷ []) ∷ [] } }

abbrev next_node : Node
next_node = elim (superloop_round works (silent works false false 1) loaded) [
  | none ↦ loaded
  | some n ↦ n
]

-- The round is over, and the worker is not stuck next_node it.
round_over :
    (superloop_round works (silent works false false 1) loaded ≡ some next_node)
    × (stuck next_node.worker ≡ false)
unfolding superloop_round Receive.poll_once thermal_tick Handlers.poll_once maybe_emit_stats
    use_sensor rx_loop rx_round read_irq has_packet look_at_fifo no_receive finish_round
    service_tx_queue send_frame transmit_burst total_packets send_packets attempts poll_tx_done
    arm_receive
round_over = (refl, refl)

Waits-drains_example :
    (next_node.worker.tx_q ≡ [])
    × (length (terminals next_node.worker.history)
        ≡ length (terminals loaded.worker.history) + length loaded.worker.tx_q)
Waits-drains_example =
    Waits-drains works 1 loaded next_node
      (waits false false 1 0 loaded next_node next_node round_over.0 round_over.1 (ends next_node))
      (omega arith)
