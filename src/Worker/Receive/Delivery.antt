-- ===== src/Worker/Receive/Delivery.antt =====
-- Which packets the reception loop gives to the host, and in which order.
use k230_lr2021_radio.Prelude.{ℕ, ◌≡◌, suc, none, some, List, [], ◌∷◌}
use k230_lr2021_radio.Device.{Env, get_rx_fifo_level, get_clear_irq_status}
use k230_lr2021_radio.Burst.{decode_header}
use k230_lr2021_radio.Worker.State.{Worker, call}
use k230_lr2021_radio.Worker.Receive.Fetching.{delivered}
use k230_lr2021_radio.Worker.Receive.{
  Packet, Rx, no_receive, look_at_fifo, has_packet, read_irq, finish_round, rx_round, no_burst,
  rx_loop,
}

abbrev pub rev_onto : List Packet → List Packet → List Packet
rev_onto [] ys = ys
rev_onto (x ∷ xs) ys = rev_onto xs (x ∷ ys)

-- The packets given to the host and those kept for it, newest first.
abbrev pub heard : Rx → Worker → List Packet
heard rx w = rev_onto rx.burst_rx_queue (delivered w.history)

-- What is heard once packet `p` was read.
abbrev pub hears : Packet → List Packet → List Packet → List Packet
hears p before given = elim (decode_header p.0) [ none ↦ given | some hdr ↦ p ∷ before ]

module _ (env : Env) where
  -- With no interrupt and an empty FIFO the loop ends in its first round, and makes no other calls.
  pub rx_loop_quiet :
      (rounds : ℕ) (w : Worker)
      → env.irq_status (get_clear_irq_status ∷ w.history) ≡ 0
      → env.rx_fifo_level (get_rx_fifo_level ∷ get_clear_irq_status ∷ w.history) ≡ 0
      → rx_loop env (suc rounds) no_burst w
        ≡ some (call get_rx_fifo_level (call get_clear_irq_status w))
  unfolding rx_loop rx_round read_irq has_packet look_at_fifo no_receive finish_round
  rx_loop_quiet rounds w silent empty = rw (silent, empty)
