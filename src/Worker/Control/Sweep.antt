-- ===== src/Worker/Control/Sweep.antt =====
-- The channels that a scan reports, and where it leaves the radio.
use k230_lr2021_radio.Prelude.{
  ℕ, zero, suc, leb→le, leb-false→lt, ◌≡◌, ◌<◌, true, false, arith, List, [], ◌∷◌, ◌++◌, ◌⊎◌, inl,
  inr, ◌&&◌, leb, ◌==◌, before32, Bool-cases, ap, ◌∙◌,
}
use k230_lr2021_radio.Device.{Env, on_scan_result}
use k230_lr2021_radio.Worker.State.{Worker, ScanParams, inc8}
use k230_lr2021_radio.Worker.Calls.{reports}
use k230_lr2021_radio.Worker.Control.{
  channel_hz, scan_tick, arm_receive, start_scan, end_scan, next_channel,
}

-- The first `n` channels of the grid, newest first.
abbrev pub channels : ScanParams → ℕ → List ℕ
channels p zero = []
channels p (suc n) = channel_hz p n ∷ channels p n

-- A scan that has reported the channels before `scan_idx`, behind what was reported `before` it.
pub record IsSweeping (p : ScanParams) (before : List ℕ) (w : Worker) : Type 0 where
  pub active : w.scan_active ≡ true
  pub grid : w.scan ≡ p
  pub left : w.scan_idx < p.count
  pub reported : reports w.history ≡ channels p w.scan_idx ++ before

-- A scan that is over.
pub record IsSwept (p : ScanParams) (before : List ℕ) (w : Worker) : Type 0 where
  pub over : w.scan_active ≡ false
  pub all_reported : reports w.history ≡ channels p p.count ++ before

module _ (env : Env) where
  -- A scan starts with nothing reported, on the first channel of its grid if that is not 0 Hz.
  pub start_scan-IsSweeping :
      (p : ScanParams) (w : Worker)
      → 0 < p.count
      → IsSweeping p (reports w.history) (start_scan env p w)
  unfolding start_scan arm_receive
  start_scan-IsSweeping p w some_channel = ground arith

end_scan-IsSwept :
    (p : ScanParams) (before : List ℕ) (w : Worker)
    → reports w.history ≡ channels p p.count ++ before
    → IsSwept p before (end_scan w)
unfolding arm_receive
end_scan-IsSwept p before w all = ground arith

next_channel-IsSweeping :
    (p : ScanParams) (before : List ℕ) (now : ℕ) (w : Worker)
    → IsSweeping p before w
    → IsSweeping p before (next_channel now w)
unfolding arm_receive
next_channel-IsSweeping p before now w s = ground arith

-- The state of `scanTick` behind the report of a channel.
abbrev reported_one : Worker → Worker
reported_one w = record w {
  scan_idx = inc8 w.scan_idx;
  history =
      on_scan_result (channel_hz w.scan w.scan_idx) w.scan_frames w.scan_consensus w.scan_best_rssi
      ∷ w.history;
}

-- One more channel is reported, the one whose turn it is.
reported_one-channels :
    (p : ScanParams) (before : List ℕ) (w : Worker)
    → p.count < 256
    → IsSweeping p before w
    → reports (reported_one w).history ≡ channels p (inc8 w.scan_idx) ++ before
reported_one-channels p before w small s =
    let next : inc8 w.scan_idx ≡ suc w.scan_idx = omega (arith, s.left) in
    rw (next, s.grid) (ap (◌∷◌ (channel_hz p w.scan_idx)) s.reported)

swept :
    (p : ScanParams) (before : List ℕ) (w : Worker)
    → p.count < 256
    → IsSweeping p before w
    → leb w.scan.count (inc8 w.scan_idx) ≡ true
    → IsSwept p before (end_scan (reported_one w))
swept p before w small s last =
    let full : inc8 w.scan_idx ≡ p.count =
      omega (arith, s.left, ap (λ (g : ScanParams). g.count) s.grid, leb→le _ _ last) in
    end_scan-IsSwept p before (reported_one w)
      (reported_one-channels p before w small s ∙ ap (λ n. channels p n ++ before) full)

went_on :
    (p : ScanParams) (before : List ℕ) (now : ℕ) (w : Worker)
    → p.count < 256
    → IsSweeping p before w
    → leb w.scan.count (inc8 w.scan_idx) ≡ false
    → IsSweeping p before (next_channel now (reported_one w))
went_on p before now w small s more =
    next_channel-IsSweeping p before now (reported_one w) (record {
      active = s.active;
      grid = s.grid;
      left = omega (arith, ap (λ (g : ScanParams). g.count) s.grid, leb-false→lt _ _ more);
      reported = reported_one-channels p before w small s;
    })

-- Each tick of a scan of under 256 channels keeps the record of the channels reported, or
-- completes it: no channel is left out or reported twice.
pub scan_tick-IsSweeping :
    (p : ScanParams) (before : List ℕ) (now : ℕ) (w : Worker)
    → p.count < 256
    → IsSweeping p before w
    → IsSweeping p before (scan_tick now w) ⊎ IsSwept p before (scan_tick now w)
unfolding scan_tick
scan_tick-IsSweeping p before now w small s =
    elim (Bool-cases ((w.scan_consensus == 0) && before32 now w.scan_dwell_until)) [
      | inl waiting ↦ rw waiting (inl s)
      | inr due ↦ elim (Bool-cases (leb w.scan.count (inc8 w.scan_idx))) [
        | inl last ↦ rw (due, last) (inr (swept p before w small s last))
        | inr more ↦ rw (due, more) (inl (went_on p before now w small s more))
      ]
    ]
