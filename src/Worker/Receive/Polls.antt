-- ===== src/Worker/Receive/Polls.antt =====
-- The worker's `pollOnce` as a whole: the account of the accepted frames, and the bench limit.
use k230_lr2021_radio.Prelude.{
  ℕ, ◌+◌, ◌≡◌, ◌∙◌, refl, ap₂, Bool, true, false, Option, none, some, not, ◌==◌, at_least, length,
  if◌then◌else◌, subst, sym, pos, ◌≤ℤ◌,
}
use k230_lr2021_radio.Device.{Env, read_clock, sleep_us}
use k230_lr2021_radio.Worker.State.{Worker, call, now_ms}
use k230_lr2021_radio.Worker.Calls.{Leaves}
use k230_lr2021_radio.Worker.Control.{scan_tick}
use k230_lr2021_radio.Worker.Control.Power.{IsBenchSafe, AllAtMost}
use k230_lr2021_radio.Worker.Thermal.{thermal_tick}
use k230_lr2021_radio.Worker.Thermal.Drained.{Accounts, thermal_tick-Accounts}
use k230_lr2021_radio.Worker.Thermal.Limits.{thermal_tick-IsBenchSafe}
use k230_lr2021_radio.Worker.Transmit.{service_tx_queue}
use k230_lr2021_radio.Worker.Transmit.Terminals.{service_tx_queue-accounts}
use k230_lr2021_radio.Worker.Transmit.Undisturbed.{service_tx_queue-IsQuiet}
use k230_lr2021_radio.Worker.Receive.{no_burst, rx_loop, serve, poll_once, worker_round}
use k230_lr2021_radio.Worker.Receive.Undisturbed.{scan_tick-Leaves, rx_loop-Leaves}

-- A step of the worker: no frame is lost from the account, the server writes nothing, and the bench
-- limit stays.
pub record IsFair (w w' : Worker) : Type 0 where
  pub accounts : Accounts w w'
  pub safe : IsBenchSafe w → IsBenchSafe w'

IsFair-refl : (w : Worker) → IsFair w w
IsFair-refl w = record { accounts = record { accounts = refl; silent = refl }; safe = λ s. s }

pub IsFair-trans : (u v w : Worker) → IsFair u v → IsFair v w → IsFair u w
IsFair-trans u v w a b = record {
  accounts = record {
    accounts = b.accounts.accounts ∙ a.accounts.accounts;
    silent = b.accounts.silent ∙ a.accounts.silent;
  };
  safe = λ s. b.safe (a.safe s);
}

if-IsFair :
    (w : Worker) (b : Bool) (x y : Worker) → IsFair w x → IsFair w y → IsFair w (if b then x else y)
if-IsFair w true x y fx fy = fx
if-IsFair w false x y fx fy = fy

pub Leaves-IsFair : (w w' : Worker) → Leaves w w' → IsFair w w'
Leaves-IsFair w w' l = record {
  accounts = record {
    accounts = ap₂ (λ t q. length t + length q) l.reported l.tx_q;
    silent = l.silent;
  };
  safe = λ s. record {
    stored = subst (λ p. p ≤ℤ pos 10) (sym l.power) s.stored;
    set = subst (AllAtMost (pos 10)) (sym l.powers_kept) s.set;
  };
}

-- An early return, and the rest of the function.
returns :
    (w x w' : Worker) (b : Bool) (rest : Option Worker)
    → IsFair w x
    → (rest ≡ some w' → IsFair w w')
    → (if b then some x else rest) ≡ some w'
    → IsFair w w'
returns w x w' true rest f more e = let same : x ≡ w' = cc in subst (IsFair w) same f
returns w x w' false rest f more e = more e

module _ (env : Env) where
  now_ms-IsFair : (w : Worker) → IsFair w (call read_clock w)
  now_ms-IsFair w = record {
    accounts = record { accounts = refl; silent = refl };
    safe = λ s. record { stored = s.stored; set = s.set };
  }

  service_tx_queue-IsFair : (w : Worker) → IsFair w (service_tx_queue env w)
  service_tx_queue-IsFair w =
      let q = service_tx_queue-IsQuiet env w in
      record {
        accounts = record { accounts = service_tx_queue-accounts env w; silent = q.silent };
        safe = λ s. record {
          stored = subst (λ c. c.tx_power_dbm ≤ℤ pos 10) (sym q.cfg) s.stored;
          set = subst (AllAtMost (pos 10)) (sym q.powers_kept) s.set;
        };
      }

  serve-IsFair : (w : Worker) → IsFair w (serve env w)
  serve-IsFair w = if-IsFair w w.scan_active _ _ (IsFair-refl w) (service_tx_queue-IsFair w)

  thermal-IsFair : (now : ℕ) (w : Worker) → IsFair w (thermal_tick env now w)
  thermal-IsFair now w = record {
    accounts = thermal_tick-Accounts env now w;
    safe = thermal_tick-IsBenchSafe env now w;
  }

  ticked-IsFair : (now : ℕ) (w : Worker) → IsFair w (if w.scan_active then scan_tick now w else w)
  ticked-IsFair now w =
      if-IsFair w w.scan_active _ _ (Leaves-IsFair w _ (scan_tick-Leaves now w)) (IsFair-refl w)

  -- What comes behind the reception loop.
  behind_loop :
      (w w' : Worker) (o : Option Worker)
      → ((v : Worker) → o ≡ some v → Leaves w v)
      → (elim o [ none ↦ none | some v ↦ some (serve env v) ]) ≡ some w'
      → IsFair w w'
  behind_loop w w' none looped e = cc
  behind_loop w w' (some v) looped e =
      let same : serve env v ≡ w' = cc in
      subst (IsFair w) same
        (IsFair-trans w v _ (Leaves-IsFair w v (looped v refl)) (serve-IsFair v))

  pub poll_once-IsFair :
      (rounds : ℕ) (w w' : Worker) → poll_once env rounds w ≡ some w' → IsFair w w'
  unfolding poll_once
  poll_once-IsFair rounds w w' =
      let now = (now_ms env w).0 in
      let w1 = call read_clock w in
      let w2 = thermal_tick env now w1 in
      let w3 = if w2.scan_active then scan_tick now w2 else w2 in
      let f2 = IsFair-trans w w1 w2 (now_ms-IsFair w) (thermal-IsFair now w1) in
      let f3 = IsFair-trans w w2 w3 f2 (ticked-IsFair now w2) in
      returns w w2 w' (at_least 2 w2.thermal_level) _ f2 (
        returns w w3 w' (not w3.radio_ok) _ f3 (
          returns w (serve env w3) w' (w3.cfg.role == 1) _
            (IsFair-trans w w3 _ f3 (serve-IsFair w3))
            (λ e. IsFair-trans w w3 w' f3 (
              behind_loop w3 w' (rx_loop env rounds no_burst w3)
                (rx_loop-Leaves env rounds no_burst w3) e))))

  slept :
      (w w' : Worker) (o : Option Worker)
      → ((v : Worker) → o ≡ some v → IsFair w v)
      → (elim o [ none ↦ none | some v ↦ some (call (sleep_us 1000) v) ]) ≡ some w'
      → IsFair w w'
  slept w w' none fair e = absurd cc
  slept w w' (some v) fair e =
      let same : call (sleep_us 1000) v ≡ w' = cc in
      let f = fair v refl in
      subst (IsFair w) same (record {
        accounts = record { accounts = f.accounts.accounts; silent = f.accounts.silent };
        safe = λ s. let t = f.safe s in record { stored = t.stored; set = t.set };
      })

  -- A round of `workerLoop` loses no frame from the account and keeps the bench limit.
  worker_round-IsFair :
      (rounds : ℕ) (w w' : Worker) → worker_round env rounds w ≡ some w' → IsFair w w'
  unfolding worker_round
  worker_round-IsFair rounds w w' e =
      slept w w' (poll_once env rounds w) (λ v. poll_once-IsFair rounds w v) e
