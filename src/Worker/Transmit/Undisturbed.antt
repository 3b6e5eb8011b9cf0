-- ===== src/Worker/Transmit/Undisturbed.antt =====
-- What the service of the transmit queue leaves alone.
use k230_lr2021_radio.Prelude.{
  ℕ, ◌≡◌, ◌∙◌, refl, arith, List, [], ◌∷◌, Option, none, some, Bool-cases, inl, inr, ◌==ℤ◌, pos,
  if◌then◌else◌,
}
use k230_lr2021_radio.Device.{Env, TxError, sleep_us}
use k230_lr2021_radio.Worker.State.{Worker, call}
use k230_lr2021_radio.Worker.Calls.{sent, powers, Keeps}
use k230_lr2021_radio.Worker.Transmit.{send_frame, report, service_front, service_tx_queue}
use k230_lr2021_radio.Worker.Transmit.Terminals.{send_frame-Keeps, dequeued, held}

-- The settings stay, no power is set, and the server wrote nothing.
pub record IsQuiet (w w' : Worker) : Type 0 where
  pub cfg : w'.cfg ≡ w.cfg
  pub silent : sent w'.history ≡ sent w.history
  pub powers_kept : powers w'.history ≡ powers w.history

module _ (env : Env) where
  report-IsQuiet : (err : Option TxError) (w : Worker) → IsQuiet w (report env err w)
  report-IsQuiet none w = ground arith
  report-IsQuiet (some e) w = ground arith

  paced-IsQuiet :
      (w v : Worker)
      → Keeps w v
      → IsQuiet w (if v.thermal_level ==ℤ pos 1 then call (sleep_us 15000) v else v)
  paced-IsQuiet w v k = ground arith

  service_front-IsQuiet : (q : List (List ℕ)) (w : Worker) → IsQuiet w (service_front env q w)
  service_front-IsQuiet [] w = record { cfg = refl; silent = refl; powers_kept = refl }
  service_front-IsQuiet (frame ∷ rest) w =
      let r = send_frame env frame (dequeued rest w) in
      let v = if r.1.thermal_level ==ℤ pos 1 then call (sleep_us 15000) r.1 else r.1 in
      let a = paced-IsQuiet (dequeued rest w) r.1 (send_frame-Keeps env frame (dequeued rest w)) in
      let b = report-IsQuiet r.0 v in
      record {
        cfg = b.cfg ∙ a.cfg;
        silent = b.silent ∙ a.silent;
        powers_kept = b.powers_kept ∙ a.powers_kept;
      }

  pub service_tx_queue-IsQuiet : (w : Worker) → IsQuiet w (service_tx_queue env w)
  unfolding service_tx_queue
  service_tx_queue-IsQuiet w = elim (Bool-cases (held w)) [
    | inl is_held ↦ rw is_held (record { cfg = refl; silent = refl; powers_kept = refl })
    | inr free ↦ rw free (service_front-IsQuiet w.tx_q w)
  ]
