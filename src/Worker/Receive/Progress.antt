-- ===== src/Worker/Receive/Progress.antt =====
-- The worker's `pollOnce` as a whole: the queue of the frames to transmit gets shorter.
use k230_lr2021_radio.Prelude.{
  ℕ, ◌-◌, ◌≡◌, ◌≤◌, ◌⊎◌, inl, inr, refl, ap, ◌∙◌, subst, Bool, true, false, arith, List, [], ◌∷◌,
  length, Option, none, some, not, ◌||◌, ◌==◌, at_least, if◌then◌else◌, ℤ, Bool-cases,
}
use k230_lr2021_radio.Device.{Env, read_clock}
use k230_lr2021_radio.Worker.State.{Worker, Config, call, now_ms}
use k230_lr2021_radio.Worker.Calls.{Leaves}
use k230_lr2021_radio.Worker.Control.{scan_tick, apply_config, arm_receive}
use k230_lr2021_radio.Worker.Thermal.{
  thermal_tick, cut_off, power_down, throttle, init, control_fan, control_dvfs,
}
use k230_lr2021_radio.Worker.Thermal.Drained.{report_dropped-tx_q}
use k230_lr2021_radio.Worker.Thermal.Parts.{IsKept, thermal_tick-kept}
use k230_lr2021_radio.Worker.Transmit.{service_tx_queue, service_front}
use k230_lr2021_radio.Worker.Transmit.Terminals.{held, service_front-reports}
use k230_lr2021_radio.Worker.Receive.{no_burst, rx_loop, serve, poll_once}
use k230_lr2021_radio.Worker.Receive.Undisturbed.{scan_tick-Leaves, rx_loop-Leaves}

-- No frame is put into the queue.
abbrev IsShorter : Worker → Worker → Type 0
IsShorter w w' = length w'.tx_q ≤ length w.tx_q

power_down-tx_q : (w : Worker) → (power_down w).tx_q ≡ []
power_down-tx_q w = ground arith

cut_off-IsShorter : (w : Worker) → IsShorter w (cut_off w)
unfolding cut_off
cut_off-IsShorter w =
    omega (arith, ap length (report_dropped-tx_q w.tx_q (power_down w) ∙ power_down-tx_q w))

apply_config-IsShorter :
    (env : Env) (c : Config) (w : Worker) → IsShorter w (apply_config env c w).1
unfolding apply_config arm_receive
apply_config-IsShorter env c w = ground arith

init-IsShorter : (env : Env) (gpio : ℕ) (w : Worker) → IsShorter w (init env gpio w).1
unfolding init arm_receive
init-IsShorter env gpio w = ground arith

throttle-IsShorter : (w : Worker) → IsShorter w (throttle w)
unfolding throttle arm_receive
throttle-IsShorter w = ground arith

control_fan-IsShorter : (temp : ℤ) (w : Worker) → IsShorter w (control_fan temp w)
unfolding control_fan
control_fan-IsShorter temp w = ground arith

control_dvfs-IsShorter : (temp : ℤ) (w : Worker) → IsShorter w (control_dvfs temp w)
unfolding control_dvfs
control_dvfs-IsShorter temp w = ground arith

arm_receive-IsShorter : (w : Worker) → IsShorter w (arm_receive w)
unfolding arm_receive
arm_receive-IsShorter w = ground arith

IsShorter-IsKept : (env : Env) → IsKept env IsShorter
IsShorter-IsKept env = record {
  same = λ w. omega arith;
  chain = λ u v w a b. omega arith;
  cuts = cut_off-IsShorter;
  throttles = throttle-IsShorter;
  fans = control_fan-IsShorter;
  clocks = control_dvfs-IsShorter;
  reads = λ w. ground arith;
  inits = init-IsShorter env;
  applies = λ c w. apply_config-IsShorter env c (record w { thermal_powered_down = false });
  recovers = λ w. omega arith;
  resumes = λ w. arm_receive-IsShorter _;
  levels = λ level w. omega arith;
  begins = λ now w. omega arith;
}

thermal_tick-IsShorter : (env : Env) (now : ℕ) (w : Worker) → IsShorter w (thermal_tick env now w)
thermal_tick-IsShorter env = thermal_tick-kept env IsShorter (IsShorter-IsKept env)

-- The worker transmits nothing: the radio is down or only receives, a scan runs, or it is too hot.
abbrev pub stuck : Worker → Bool
stuck w = not w.radio_ok || held w

-- The queue is one frame shorter, if it was not empty.
abbrev pub Progresses : Worker → Worker → Type 0
Progresses w w' = (stuck w' ≡ true) ⊎ (length w'.tx_q ≤ length w.tx_q - 1)

if-Progresses :
    (w : Worker) (b : Bool) (x y : Worker)
    → (b ≡ true → Progresses w x)
    → (b ≡ false → Progresses w y)
    → Progresses w (if b then x else y)
if-Progresses w true x y p q = p refl
if-Progresses w false x y p q = q refl

if-IsShorter :
    (w : Worker) (b : Bool) (x y : Worker)
    → IsShorter w x
    → IsShorter w y
    → IsShorter w (if b then x else y)
if-IsShorter w true x y p q = p
if-IsShorter w false x y p q = q

shorter_first : (w v w' : Worker) → IsShorter w v → Progresses v w' → Progresses w w'
shorter_first w v w' s (inl blocked) = inl blocked
shorter_first w v w' s (inr p) = inr (omega arith)

-- An early return, and the rest of the function.
returns :
    (w x w' : Worker) (b : Bool) (rest : Option Worker)
    → (b ≡ true → Progresses w x)
    → (b ≡ false → rest ≡ some w' → Progresses w w')
    → (if b then some x else rest) ≡ some w'
    → Progresses w w'
returns w x w' true rest p more e = let same : x ≡ w' = cc in subst (Progresses w) same (p refl)
returns w x w' false rest p more e = more refl e

module _ (env : Env) where
  service_front-shortens :
      (q : List (List ℕ)) (w : Worker)
      → w.tx_q ≡ q
      → length (service_front env q w).tx_q ≤ length w.tx_q - 1
  service_front-shortens [] w e = omega (arith, ap length e)
  service_front-shortens (frame ∷ rest) w e =
      omega (arith, ap length (service_front-reports env frame rest w).1, ap length e)

  service_tx_queue-Progresses : (w : Worker) → Progresses w (service_tx_queue env w)
  unfolding service_tx_queue
  service_tx_queue-Progresses w = elim (Bool-cases (held w)) [
    | inl is_held ↦ rw is_held (inl (ground (arith, is_held)))
    | inr free ↦ rw free (inr (service_front-shortens w.tx_q w refl))
  ]

  serve-Progresses : (w : Worker) → Progresses w (serve env w)
  serve-Progresses w =
      if-Progresses w w.scan_active _ _ (λ scans. inl (ground (arith, scans)))
        (λ _. service_tx_queue-Progresses w)

  behind_loop :
      (w w' : Worker) (o : Option Worker)
      → ((v : Worker) → o ≡ some v → Leaves w v)
      → (elim o [ none ↦ none | some v ↦ some (serve env v) ]) ≡ some w'
      → Progresses w w'
  behind_loop w w' none looped e = absurd cc
  behind_loop w w' (some v) looped e =
      let same : serve env v ≡ w' = cc in
      subst (Progresses w) same (
        shorter_first w v (serve env v) (omega (arith, ap length (looped v refl).tx_q))
          (serve-Progresses v))

  -- A `pollOnce` of the worker that returns makes the queue one frame shorter, if it was not empty, or
  -- empties it, or leaves a worker that cannot transmit: the radio is down or only receives, a scan
  -- runs, or a thermal cutoff holds.
  pub poll_once-Progresses :
      (rounds : ℕ) (w w' : Worker) → poll_once env rounds w ≡ some w' → Progresses w w'
  unfolding poll_once
  poll_once-Progresses rounds w w' =
      let now = (now_ms env w).0 in
      let w1 = call read_clock w in
      let w2 = thermal_tick env now w1 in
      let w3 = if w2.scan_active then scan_tick now w2 else w2 in
      let s2 : IsShorter w w2 = thermal_tick-IsShorter env now w1 in
      let s3 : IsShorter w w3 =
        if-IsShorter w w2.scan_active _ w2 (omega (arith, ap length (scan_tick-Leaves now w2).tx_q))
          s2 in
      returns w w2 w' (at_least 2 w2.thermal_level) _ (λ hot. inl (ground (arith, hot)))
        (λ _.
          returns w w3 w' (not w3.radio_ok) _ (λ down. inl (ground (arith, down)))
            (λ _.
              returns w (serve env w3) w' (w3.cfg.role == 1) _
                (λ _. shorter_first w w3 (serve env w3) s3 (serve-Progresses w3))
                (λ _ e. shorter_first w w3 w' s3 (
                  behind_loop w3 w' (rx_loop env rounds no_burst w3)
                    (rx_loop-Leaves env rounds no_burst w3) e))))
