-- ===== src/Server/Handlers/Answers.antt =====
-- What the host is answered, command by command.
use k230_lr2021_radio.Prelude.{
  ℕ, ◌/◌, ◌%◌, ◌≡◌, ◌⊎◌, inl, inr, refl, ◌≤◌, ◌<◌, Bool, true, false, List, [], ◌∷◌, ◌++◌, length,
  arith, leb, sub32, Bool-cases, at_least,
}
use k230_lr2021_radio.Device.{Env, ms_of, read_clock}
use k230_lr2021_radio.Worker.State.{Worker, now_ms}
use k230_lr2021_radio.Worker.Calls.{sent}
use k230_lr2021_radio.Worker.Control.{enqueue_tx, snapshot, tx_queue_cap}
use k230_lr2021_radio.Server.Frames.{error_frame, diag_frame, codes, stats_frame, serialize}
use k230_lr2021_radio.Server.Handlers.{Node, handle_tx, write_stats, maybe_emit_stats}

-- With a host connected, a transmit frame is taken, as the last of the queue, and announced by
-- event 47; or it is refused with the error 4, and the queue is as it was. It is taken just when
-- the radio is up, no thermal cutoff holds and fewer than 16 frames wait.
pub handle_tx-answers :
    (payload : List ℕ) (n : Node)
    → n.connected ≡ true
    → length payload < 4294967296
    → let n' = handle_tx payload n in
      ((n'.worker.tx_q ≡ n.worker.tx_q ++ (payload ∷ []))
        × (sent n'.worker.history
            ≡ (47
                ∷ (length payload % 256
                    ∷ length payload / 256 % 256
                    ∷ length payload / 65536 % 256
                    ∷ length payload / 16777216 % 256
                    ∷ 0
                    ∷ []))
              ∷ (b'D' ∷ 6 ∷ 0 ∷ [])
              ∷ sent n.worker.history)
        × (n.worker.radio_ok ≡ true)
        × (at_least 2 n.worker.thermal_level ≡ false)
        × (length n.worker.tx_q < tx_queue_cap))
      ⊎ ((n'.worker.tx_q ≡ n.worker.tx_q)
          × (sent n'.worker.history
              ≡ error_frame 0x04 (codes "tx queue full") ∷ sent n.worker.history)
          × ((n.worker.radio_ok ≡ false)
              ⊎ ((at_least 2 n.worker.thermal_level ≡ true)
                  ⊎ (tx_queue_cap ≤ length n.worker.tx_q))))
unfolding handle_tx enqueue_tx diag_frame
handle_tx-answers payload n on fits = ground arith

module _ (env : Env) where
  write_stats-sent :
      (n : Node)
      → n.connected ≡ true
      → (body : List ℕ) × (length body ≡ 68)
        × (sent (write_stats env n).worker.history
            ≡ body ∷ (b'S' ∷ 68 ∷ 0 ∷ []) ∷ sent n.worker.history)
        × ((write_stats env n).last_stats_ms ≡ n.last_stats_ms)
  unfolding write_stats stats_frame snapshot
  write_stats-sent n on = (
    serialize (record n.worker.st {
      uptime_ms = ms_of (env.clock_ns (read_clock ∷ n.worker.history));
      parser_frames_killed = n.parser.parser_frames_killed;
    }),
    refl,
    ground arith,
    ground arith,
  )

  -- With a host connected, the statistics go out when they are asked for and when 10 s have passed
  -- since the last time: one frame with a body of 68 bytes, and the time is taken down. Otherwise
  -- nothing is written.
  pub maybe_emit_stats_lem :
      (force : Bool) (n : Node)
      → n.connected ≡ true
      → let now = (now_ms env n.worker).0 in
        let n' = maybe_emit_stats env force n in
        (((force ≡ true) ⊎ (10000 ≤ sub32 now n.last_stats_ms))
          × (n'.last_stats_ms ≡ now)
          × ((body : List ℕ) × (length body ≡ 68)
              × (sent n'.worker.history ≡ body ∷ (b'S' ∷ 68 ∷ 0 ∷ []) ∷ sent n.worker.history)))
        ⊎ ((force ≡ false)
            × (sub32 now n.last_stats_ms < 10000)
            × (n'.last_stats_ms ≡ n.last_stats_ms)
            × (sent n'.worker.history ≡ sent n.worker.history))
  unfolding maybe_emit_stats
  maybe_emit_stats_lem force n on =
      let out =
        write_stats-sent
          (record n { last_stats_ms = (now_ms env n.worker).0; worker = (now_ms env n.worker).1 })
          on in
      elim (Bool-cases force) [
        | inl asked ↦ rw asked (inl (inl refl, out.3, (out.0, out.1, out.2)))
        | inr idle ↦ elim (Bool-cases (leb 10000 (sub32 (now_ms env n.worker).0 n.last_stats_ms))) [
          | inl late ↦ rw (idle, late) (inl (inr (ground arith), out.3, (out.0, out.1, out.2)))
          | inr early ↦ rw (idle, early) (inr (refl, ground arith, refl, refl))
        ]
      ]
