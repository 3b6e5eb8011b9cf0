-- ===== src/System/Runs.antt =====
-- The states that the superloop of `main` reaches.
use Prim.{tt}
use k230_lr2021_radio.Prelude.{
  ℕ, zero, suc, List, not, ◌==◌, at_least, ◌≡◌, refl, Bool, true, false, arith, Option, none, some,
  subst, sym, ap, ◌∙◌, if◌then◌else◌, ◌+◌, length,
}
use k230_lr2021_radio.Device.{Env, History, sleep_us, read_clock}
use k230_lr2021_radio.Worker.State.{Worker, fresh, call, now_ms}
use k230_lr2021_radio.Worker.Calls.{sent, terminals}
use k230_lr2021_radio.Worker.Control.Power.{IsBenchSafe}
use k230_lr2021_radio.Worker.Thermal.{init, thermal_tick}
use k230_lr2021_radio.Worker.Control.{scan_tick}
use k230_lr2021_radio.Worker.Receive.Delivery.{rx_loop_quiet}
use k230_lr2021_radio.Worker.Thermal.Drained.{init-Accounts}
use k230_lr2021_radio.Worker.Thermal.Limits.{init-IsBenchSafe}
use k230_lr2021_radio.Worker.Receive
use k230_lr2021_radio.Worker.Receive.{rx_loop, no_burst}
use k230_lr2021_radio.Worker.Receive.Polls.{IsFair, poll_once-IsFair}
use k230_lr2021_radio.Server.Handlers
use k230_lr2021_radio.Server.Handlers.{Node, with_worker, greet}
use k230_lr2021_radio.Server.Handlers.Books.{IsBooked, announced, with_worker-IsBooked}
use k230_lr2021_radio.Server.Handlers.Rounds.{poll_once-IsBooked, greet-IsBooked, if-IsBooked}
use k230_lr2021_radio.System.{
  Meeting, fresh_node, wait_for_radio, pause_us, init_server, boot, superloop_round, run_round,
  Reached, booted, polled,
}

-- A sleep is on no book.
slept-IsBooked :
    (n : Node) (w : Worker)
    → IsBooked (with_worker w n)
    → IsBooked (with_worker (call (sleep_us (pause_us w)) w) n)
slept-IsBooked n w b = record {
  booked = b.booked;
  safe = record { stored = b.safe.stored; set = b.safe.set };
}

-- Nor is the wait for the radio.
wait_for_radio-IsBooked :
    (tries : ℕ) (w : Worker) (n : Node)
    → IsBooked (with_worker w n)
    → IsBooked (with_worker (wait_for_radio tries w) n)
unfolding wait_for_radio
wait_for_radio-IsBooked zero w n k = k
wait_for_radio-IsBooked (suc tries) w n k =
    waited w.radio_ok n w (wait_for_radio tries (call (sleep_us 100000) w)) k (
      wait_for_radio-IsBooked tries (call (sleep_us 100000) w) n
        (record { booked = k.booked; safe = record { stored = k.safe.stored; set = k.safe.set } }))
  where
    waited :
        (b : Bool) (n : Node) (x y : Worker)
        → IsBooked (with_worker x n)
        → IsBooked (with_worker y n)
        → IsBooked (with_worker (if b then x else y) n)
    waited true n x y kx ky = kx
    waited false n x y kx ky = ky

fresh-IsBenchSafe : IsBenchSafe fresh
fresh-IsBenchSafe = record { stored = omega arith; set = tt }

booted_node :
    (b : Bool) (x n : Node) → IsBooked x → (if b then some x else none) ≡ some n → IsBooked n
booted_node true x n k e = let same : x ≡ n = cc in subst IsBooked same k
booted_node false x n k e = cc

-- What the worker makes of the node that the server left.
worker_turn :
    (n n' : Node) (o : Option Worker)
    → IsBooked n
    → ((w : Worker) → o ≡ some w → IsFair n.worker w)
    → (elim o [ none ↦ none | some w ↦ some (with_worker (call (sleep_us (pause_us w)) w) n) ])
      ≡ some n'
    → IsBooked n'
worker_turn n n' none k fair e = cc
worker_turn n n' (some w) k fair e =
    let same : with_worker (call (sleep_us (pause_us w)) w) n ≡ n' = cc in
    subst IsBooked same (slept-IsBooked n w (with_worker-IsBooked n w (fair w refl) k))

module _ (env : Env) where
  init_server-IsBooked : (n : Node) → IsBooked n → IsBooked (init_server env n)
  unfolding init_server
  init_server-IsBooked n k =
      let n1 = with_worker (wait_for_radio 150 n.worker) (record n { connected = not n.is_tcp }) in
      let w =
        wait_for_radio-IsBooked 150 n.worker (record n { connected = not n.is_tcp })
          (record { booked = k.booked; safe = k.safe }) in
      if-IsBooked n.is_tcp n1 (greet env n1) (λ _. w) (λ _. greet-IsBooked env n1 w)

  boot-IsBooked : (is_tcp : Bool) (n : Node) → boot env is_tcp ≡ some n → IsBooked n
  unfolding boot
  boot-IsBooked is_tcp n e =
      let (up, w) = init env 44 fresh in
      let a = init-Accounts env 44 fresh in
      booted_node up (init_server env (fresh_node is_tcp w)) n
        (init_server-IsBooked (fresh_node is_tcp w) (record {
          booked = ap announced a.silent ∙ sym a.accounts;
          safe = init-IsBenchSafe env 44 fresh fresh-IsBenchSafe;
        }))
        e

  superloop_round-IsBooked :
      (m : Meeting) (n n' : Node) → superloop_round env m n ≡ some n' → IsBooked n → IsBooked n'
  unfolding superloop_round
  superloop_round-IsBooked m n n' e k =
      let n1 = Handlers.poll_once env m.client_waits m.input m.hung_up n in
      worker_turn n1 n' (Receive.poll_once env m.rounds n1.worker)
        (poll_once-IsBooked env m.client_waits m.input m.hung_up n k)
        (λ w. poll_once-IsFair env m.rounds n1.worker w) e

  run_round-IsBooked :
      (client_waits : Bool) (input : List ℕ) (hung_up : Bool) (n : Node)
      → IsBooked n
      → IsBooked (run_round env client_waits input hung_up n)
  unfolding run_round
  run_round-IsBooked client_waits input hung_up n k =
      let b = poll_once-IsBooked env client_waits input hung_up n k in
      record { booked = b.booked; safe = record { stored = b.safe.stored; set = b.safe.set } }

  Reached-IsBooked : (is_tcp : Bool) (n : Node) → Reached env is_tcp n → IsBooked n
  Reached-IsBooked is_tcp _ (booted n e) = boot-IsBooked is_tcp n e
  Reached-IsBooked is_tcp _ (polled m n0 n r e) =
      superloop_round-IsBooked m n0 n e (Reached-IsBooked is_tcp n0 r)

  -- At the head of every round that the superloop reaches, however long it has run and whatever the
  -- host, the radio and the sensors did, the frames announced to the host as taken (event 47) are as
  -- many as those that have their terminal and those that are queued together.
  pub Reached-accounts :
      (is_tcp : Bool) (n : Node)
      → Reached env is_tcp n
      → announced (sent n.worker.history)
        ≡ length (terminals n.worker.history) + length n.worker.tx_q
  Reached-accounts is_tcp n r = (Reached-IsBooked is_tcp n r).booked

  -- At the head of every round that the superloop reaches, no power above +10 dBm was ever set since
  -- the service started, and none is stored.
  pub Reached-IsBenchSafe : (is_tcp : Bool) (n : Node) → Reached env is_tcp n → IsBenchSafe n.worker
  Reached-IsBenchSafe is_tcp n r = (Reached-IsBooked is_tcp n r).safe

  if-returns :
      (b : Bool) (x : Worker) (o : Option Worker)
      → (w' : Worker) × (o ≡ some w')
      → (w' : Worker) × ((if b then some x else o) ≡ some w')
  if-returns true x o r = (x, refl)
  if-returns false x o r = r

  looped :
      (f : Worker → Worker) (o : Option Worker) (w : Worker)
      → o ≡ some w
      → (w' : Worker) × ((elim o [ none ↦ none | some v ↦ some (f v) ]) ≡ some w')
  looped f o w e = (f w, ap (λ r. elim r [ none ↦ none | some v ↦ some (f v) ]) e)

  -- No interrupt, and an empty FIFO.
  abbrev pub IsSilent : Type 0
  IsSilent = (h : History) → (env.irq_status h ≡ 0) × (env.rx_fifo_level h ≡ 0)

  -- The worker's poll ends if its reception loop does.
  pub poll_once-returns :
      (rounds : ℕ) (w : Worker)
      → ((v : Worker) → (v' : Worker) × (rx_loop env rounds no_burst v ≡ some v'))
      → (w' : Worker) × (Receive.poll_once env rounds w ≡ some w')
  unfolding Receive.poll_once
  poll_once-returns rounds w ends =
      let now = (now_ms env w).0 in
      let w2 = thermal_tick env now (call read_clock w) in
      let w3 = if w2.scan_active then scan_tick now w2 else w2 in
      if-returns (at_least 2 w2.thermal_level) w2 _ (
        if-returns (not w3.radio_ok) w3 _ (
          if-returns (w3.cfg.role == 1) (Receive.serve env w3) _
            (looped (Receive.serve env) _ (ends w3).0 (ends w3).1)))

  -- While the radio has no interrupt and an empty FIFO, a round over a list of bytes, in which a write
  -- is one call, ends at one round of the reception loop.
  pub superloop_round-returns :
      (client_waits : Bool) (input : List ℕ) (hung_up : Bool) (rounds : ℕ) (n : Node)
      → IsSilent
      → (n' : Node) × (superloop_round env
            (record {
              client_waits = client_waits;
              input = input;
              hung_up = hung_up;
              rounds = suc rounds;
            })
            n
          ≡ some n')
  unfolding superloop_round
  superloop_round-returns client_waits input hung_up rounds n silent =
      let n1 = Handlers.poll_once env client_waits input hung_up n in
      let (w', e) =
        poll_once-returns (suc rounds) n1.worker
          (λ v. (_, rx_loop_quiet env rounds v (silent _).0 (silent _).1)) in
      (
        with_worker (call (sleep_us (pause_us w')) w') n1,
        ap
            (λ o. elim o [
              | none ↦ none
              | some w ↦ some (with_worker (call (sleep_us (pause_us w)) w) n1)
            ])
            e,
      )
